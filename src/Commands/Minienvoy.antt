-- ===== src/Commands/Minienvoy.antt =====
-- cmd/minienvoy/main.go: the start-up, the reload and the health check. What the environment, the
-- files, the resolver and the listeners give is a parameter; logging, signals and the goroutines that
-- are started are left out.
use Prim.Native.String.{String}
use text.Mathlib.Text.{◌==◌ as str_eq}
use mini_envoy.Base.{
  ℕ, ◌==◌, ◌⊎◌, inl, inr, List, Option, none, some, Bool, true, false, if◌then◌else◌,
}
use mini_envoy.Config.File.{File}
use mini_envoy.Config.Validate.{ConfigError, load, must_remote_token}
use mini_envoy.Runtime.Build.{BuildError, ReactorConfig, Built, build}

-- The variables that are read; one that is not set is empty.
pub record Environment : Type 0 where
  pub config_path : String
  pub log_level : String
  pub admin_token : String
  pub health_url : String

-- Why the process exits with 1.
pub data StartError : Type 0 where
  bad_config : ConfigError → StartError
  no_token : StartError
  not_built : BuildError → StartError
  no_admin : StartError

-- The configuration that runs and what was built of it.
pub record Gateway : Type 0 where
  pub cfg : File
  pub built : Built

-- `if v := os.Getenv("MINIENVY_LOG_LEVEL"); v != ""`
unfoldable pub with_log_level : String → File → File
with_log_level v f = if str_eq v "" then f else record f { log_level = v }

-- The path of the configuration: the flag, or the variable, or the default.
unfoldable pub config_path : Option String → Environment → String
config_path (some p) env = p
config_path none env = if str_eq env.config_path "" then "configs/demo.yaml" else env.config_path

module _ (split_host_port : String → Option (String × String))
    (read_file : String → Option (List ℕ)) (unmarshal : List ℕ → Option File)
    (parse_ip_loopback : String → Option Bool) (equal_fold : String → String → Bool)
    (resolve : String → Option (List ℕ)) (opens : ReactorConfig → Bool)
    (listens : String → Bool) where
  -- `admin.Listen`, after the runtime was built
  unfoldable pub serve_admin : File → BuildError ⊎ Built → StartError ⊎ Gateway
  serve_admin f (inl e) = inl (not_built e)
  serve_admin f (inr b) =
      if listens f.admin.bind then inr (record { cfg = f; built = b }) else inl no_admin

  unfoldable pub guard_admin : Environment → File → StartError ⊎ Gateway
  unfolding serve_admin
  guard_admin env f =
      if must_remote_token split_host_port parse_ip_loopback equal_fold env.admin_token f.admin.bind
      then serve_admin f (build resolve opens f)
      else inl no_token

  unfoldable pub after_load : Environment → ConfigError ⊎ File → StartError ⊎ Gateway
  unfolding guard_admin with_log_level
  after_load env (inl e) = inl (bad_config e)
  after_load env (inr f) = guard_admin env (with_log_level env.log_level f)

  -- `main` up to the signal that ends it.
  unfoldable pub start_gateway : Option String → Environment → StartError ⊎ Gateway
  unfolding after_load config_path
  start_gateway flag env =
      after_load env (load split_host_port read_file unmarshal (config_path flag env))

  -- The handler of SIGHUP: whether it logs a reload. The gateway is left as it is.
  unfoldable pub reload : Option String → Environment → Gateway → Bool × Gateway
  unfolding config_path
  reload flag env g = elim (load split_host_port read_file unmarshal (config_path flag env)) [
    | inl e ↦ (false, g)
    | inr f ↦ (true, g)
  ]

-- The exit code of the health check, given the status that the request for the URL comes to.
unfoldable pub healthcheck : (String → Option ℕ) → Environment → ℕ
healthcheck get_status env = by_status (get_status url)
  where
    url : String
    url = if str_eq env.health_url "" then "http://127.0.0.1:8080/healthz" else env.health_url

    by_status : Option ℕ → ℕ
    by_status none = 1
    by_status (some status) = if status == 200 then 0 else 1
