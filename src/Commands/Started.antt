-- ===== src/Commands/Started.antt =====
-- What holds of a gateway that was started.
use Prim.Native.String.{String}
use text.Mathlib.Text.{◌==◌ as str_eq}
use text.Mathlib.TextEquality.{eq_iff}
use mathlib.Core.Path.{subst}
use mathlib.Core.Bool.{false≢true}
use mini_envoy.Base.{none, some}
use mini_envoy.Base.{
  ℕ, ◌≡◌, ◌≢◌, ◌⊎◌, inl, inr, refl, sym, ap, ◌∙◌, arith, List, Option, Bool, true, false,
  if◌then◌else◌, if_true, if_false, Bool-cases,
}
use mini_envoy.Config.File.{File}
use mini_envoy.Config.Validate.{ConfigError, load, must_remote_token, is_loopback_bind, parse_bind}
use mini_envoy.Config.Validate.Accepted.{IsAccepted}
use mini_envoy.Config.Validate.Loaded.{load-IsAccepted}
use mini_envoy.Runtime.Build.{BuildError, ReactorConfig, Built, build}
use mini_envoy.Commands.Minienvoy.{
  Environment, Gateway, no_token, with_log_level, config_path, serve_admin, guard_admin, after_load,
  start_gateway,
}

with_log_level-IsAccepted : (v : String) (f : File) → IsAccepted f → IsAccepted (with_log_level v f)
unfolding with_log_level
with_log_level-IsAccepted v f w = elim (Bool-cases (str_eq v "")) [
  | inl e ↦ subst IsAccepted (sym (if_true _ _ e)) w
  | inr e ↦ subst IsAccepted (sym (if_false _ _ e)) (record {
    version = w.version;
    reactors = w.reactors;
    port = w.port;
    buffer = w.buffer;
    upstreams = w.upstreams;
    distinct_upstreams = w.distinct_upstreams;
    routes = w.routes;
    distinct_routes = w.distinct_routes;
  })
]

module _ (split_host_port : String → Option (String × String))
    (parse_ip_loopback : String → Option Bool) (equal_fold : String → String → Bool) where
  -- An address whose host is a loopback address, or the name of this machine.
  pub record IsLocal (bind : String) : Type 0 where
    pub host : String
    pub port : String
    pub splits : split_host_port bind ≡ some (host, port)
    pub loopback :
        (parse_ip_loopback host ≡ some true)
        ⊎ ((parse_ip_loopback host ≡ none) × (equal_fold host "localhost" ≡ true))

  is_loopback_bind-IsLocal :
      (bind : String)
      → is_loopback_bind split_host_port parse_ip_loopback equal_fold bind ≡ true
      → IsLocal bind
  unfolding is_loopback_bind parse_bind
  is_loopback_bind-IsLocal bind h = by_split (split_host_port bind) refl h
    where
      by_ip :
          (host port : String)
          → split_host_port bind ≡ some (host, port)
          → (o : Option Bool) → parse_ip_loopback host ≡ o
          → elim o [ some b ↦ b | none ↦ equal_fold host "localhost" ] ≡ true
          → IsLocal bind
      by_ip host port e (some b) q h = record {
        host = host;
        port = port;
        splits = e;
        loopback = inl (q ∙ ap some h);
      }
      by_ip host port e none q h = record {
        host = host;
        port = port;
        splits = e;
        loopback = inr (q, h);
      }

      by_split :
          (o : Option (String × String))
          → split_host_port bind ≡ o
          → elim o [
            | none ↦ false
            | some (host, port) ↦ elim (parse_ip_loopback host) [
              | some b ↦ b
              | none ↦ equal_fold host "localhost"
            ]
          ]
            ≡ true
          → IsLocal bind
      by_split none e h = absurd (false≢true h)
      by_split (some (host, port)) e h = by_ip host port e (parse_ip_loopback host) refl h

module _ (split_host_port : String → Option (String × String))
    (read_file : String → Option (List ℕ)) (unmarshal : List ℕ → Option File)
    (parse_ip_loopback : String → Option Bool) (equal_fold : String → String → Bool)
    (resolve : String → Option (List ℕ)) (opens : ReactorConfig → Bool)
    (listens : String → Bool) where
  token_lem :
      (token bind : String)
      → must_remote_token split_host_port parse_ip_loopback equal_fold token bind ≡ true
      → IsLocal split_host_port parse_ip_loopback equal_fold bind ⊎ (token ≢ "")
  unfolding must_remote_token
  token_lem token bind h =
      elim (Bool-cases (is_loopback_bind split_host_port parse_ip_loopback equal_fold bind)) [
        | inl e ↦ inl (is_loopback_bind-IsLocal split_host_port parse_ip_loopback equal_fold bind e)
        | inr e ↦ inr (λ empty.
            false≢true (sym (if_false true _ e ∙ if_true _ _ ((eq_iff token "").1 empty)) ∙ h))
      ]

  -- What a start that succeeds has gone through.
  pub record IsStarted (env : Environment) (g : Gateway) : Type 0 where
    pub accepted : IsAccepted g.cfg
    pub guarded :
        IsLocal split_host_port parse_ip_loopback equal_fold g.cfg.admin.bind
        ⊎ (env.admin_token ≢ "")
    pub built : build resolve opens g.cfg ≡ inr g.built

  serve_admin_lem :
      (f : File) (o : BuildError ⊎ Built) (g : Gateway)
      → serve_admin split_host_port read_file unmarshal parse_ip_loopback equal_fold resolve opens
          listens f o
        ≡ inr g
      → (o ≡ inr g.built) × (f ≡ g.cfg)
  unfolding serve_admin
  serve_admin_lem f (inl e) g h = ground arith
  serve_admin_lem f (inr b) g h = ground arith

  guard_admin-IsStarted :
      (env : Environment) (f : File) (g : Gateway)
      → IsAccepted f
      → guard_admin split_host_port read_file unmarshal parse_ip_loopback equal_fold resolve opens
          listens env f
        ≡ inr g
      → IsStarted env g
  unfolding guard_admin
  guard_admin-IsStarted env f g w h =
      by_token
        (must_remote_token split_host_port parse_ip_loopback equal_fold env.admin_token
          f.admin.bind)
        refl h
    where
      by_token :
          (b : Bool)
          → must_remote_token split_host_port parse_ip_loopback equal_fold env.admin_token
              f.admin.bind
            ≡ b
          → (if b
              then serve_admin split_host_port read_file unmarshal parse_ip_loopback equal_fold
                  resolve opens listens f
                  (build resolve opens f)
              else inl no_token)
            ≡ inr g
          → IsStarted env g
      by_token false e h = ground arith
      by_token true e h =
          let (made, same) = serve_admin_lem f (build resolve opens f) g h in
          record {
            accepted = subst IsAccepted same w;
            guarded =
                subst
                  (λ (c : File).
                    IsLocal split_host_port parse_ip_loopback equal_fold c.admin.bind
                    ⊎ (env.admin_token ≢ ""))
                  same (token_lem env.admin_token f.admin.bind e);
            built = ap (build resolve opens) (sym same) ∙ made;
          }

  -- A gateway that was started runs a configuration that passed every check, and what `Build` made of
  -- it; and the administrator's listener is bound to a loopback address or to the host localhost, or
  -- there is a token to ask for.
  pub start_gateway-IsStarted :
      (flag : Option String) (env : Environment) (g : Gateway)
      → start_gateway split_host_port read_file unmarshal parse_ip_loopback equal_fold resolve opens
          listens flag env
        ≡ inr g
      → IsStarted env g
  unfolding start_gateway after_load
  start_gateway-IsStarted flag env g h =
      by_load (load split_host_port read_file unmarshal (config_path flag env)) refl h
    where
      by_load :
          (o : ConfigError ⊎ File)
          → load split_host_port read_file unmarshal (config_path flag env) ≡ o
          → after_load split_host_port read_file unmarshal parse_ip_loopback equal_fold resolve
              opens listens env o
            ≡ inr g
          → IsStarted env g
      by_load (inl e) p h = ground arith
      by_load (inr f) p h =
          guard_admin-IsStarted env (with_log_level env.log_level f) g
            (with_log_level-IsAccepted env.log_level f
              (load-IsAccepted split_host_port read_file unmarshal (config_path flag env) f p).0)
            h
