-- ===== src/Tests/Configs.antt =====
-- Configurations at concrete values.
use Prim.Native.String.{String}
use mini_envoy.Base.{ℕ, ◌≡◌, inr, refl, List, [], ◌∷◌, Option, none, some}
use mini_envoy.Base.Int.{pos, int64}
use mini_envoy.Config.File.{File}
use mini_envoy.Config.Defaults.{apply_defaults}
use mini_envoy.Config.Validate.{load, validate, check_bind}
use mini_envoy.Config.Validate.Accepted.{IsAccepted, validate-IsAccepted}
use mini_envoy.Routing.Table as Table
use mini_envoy.Base.{true, arith, ◌↔◌, All, Bool}
use mini_envoy.Base.Int.{signed64}
use mini_envoy.Protocol.Errors.{text_bytes}
use mini_envoy.Config.Validate.Complete.{validate_iff}
use mini_envoy.Socket.{parse_ipv4}
use mini_envoy.Socket.Dotted.{accepted, dotted}
use mini_envoy.Socket.Accepts.{parse_ipv4-dotted}
use mini_envoy.Runtime.Build.{ReactorConfig, Built, build, listen_address}
use mini_envoy.Runtime.Built.Endpoints.{Resolves}
use mini_envoy.Runtime.Built.Accepted.{build-IsRouteOf}
use mini_envoy.Base.{ap, ◌∙◌, false}
use mini_envoy.Config.Validate.{must_remote_token, is_loopback_bind, parse_bind}
use mini_envoy.Commands.Minienvoy.{
  Environment, Gateway, start_gateway, after_load, guard_admin, serve_admin, config_path,
  with_log_level,
}
use mini_envoy.Commands.Started.{IsStarted, start_gateway-IsStarted}

-- What a file gives that names one upstream and one route and nothing else.
abbrev bare : File
bare = record {
  version = pos 1;
  log_level = "";
  reactors = pos 0;
  listen = record { ip = "127.0.0.1"; port = pos 9000; backlog = pos 0 };
  admin = record { bind = "127.0.0.1:18080" };
  buffer = record { chunk_size = pos 0; high_water = pos 0; low_water = pos 0; max_payload = 0 };
  timeouts = record { idle_ms = pos 0; upstream_ms = pos 0; drain_ms = pos 0 };
  health = record {
    interval_ms = pos 0;
    timeout_ms = pos 0;
    fail_threshold = pos 0;
    pass_threshold = pos 0;
  };
  routes = record { id = 1; name = "echo"; algorithm = "rr"; upstreams = "a" ∷ [] } ∷ [];
  upstreams = record { id = "a"; host = "127.0.0.1"; port = pos 9001; weight = pos 0 } ∷ [];
}

abbrev split_host_port : String → Option (String × String)
split_host_port s = some ("127.0.0.1", "18080")

abbrev read_file : String → Option (List ℕ)
read_file path = some []

abbrev unmarshal : List ℕ → Option File
unmarshal raw = some bare

bare_valid : validate split_host_port (apply_defaults bare) ≡ none
unfolding apply_defaults validate check_bind int64
bare_valid = refl

validate_iff_example : (validate split_host_port (apply_defaults bare) ≡ none) ↔ (
    IsAccepted (apply_defaults bare)
    × ((hp : String × String) × (split_host_port (apply_defaults bare).admin.bind ≡ some hp)))
validate_iff_example = validate_iff split_host_port (apply_defaults bare)

bare_loads : load split_host_port read_file unmarshal "config.yaml" ≡ inr (apply_defaults bare)
unfolding load check_bind apply_defaults validate int64
bare_loads = refl

abbrev resolve : String → Option (List ℕ)
resolve host = some (127 ∷ 0 ∷ 0 ∷ 1 ∷ [])

abbrev opens : ReactorConfig → Bool
opens c = true

bare_hosts : All (Resolves resolve opens) (apply_defaults bare).upstreams
unfolding apply_defaults
bare_hosts = ((_, refl), tt)

bare_listens :
    listen_address
      (apply_defaults bare).listen.ip
      (parse_ipv4 (text_bytes (apply_defaults bare).listen.ip))
    ≡ inr (127 ∷ 0 ∷ 0 ∷ 1 ∷ [])
unfolding listen_address parse_ipv4 text_bytes apply_defaults signed64
bare_listens = refl

parse_ipv4-dotted_example :
    accepted (parse_ipv4 (text_bytes "10.0.0.255")) ≡ dotted (text_bytes "10.0.0.255")
unfolding text_bytes
parse_ipv4-dotted_example = parse_ipv4-dotted (text_bytes "10.0.0.255") (omega arith)

-- A part of 2^64 + 1 is read as 1.
wrapped : parse_ipv4 (text_bytes "18446744073709551617.0.0.1") ≡ (1 ∷ 0 ∷ 0 ∷ 1 ∷ [], true)
unfolding parse_ipv4 text_bytes signed64
wrapped = refl

bare_built : (b : Built) × (build resolve opens (apply_defaults bare) ≡ inr b)
bare_built =
    let (b, e, _, _) =
      build-IsRouteOf resolve opens (apply_defaults bare) (127 ∷ 0 ∷ 0 ∷ 1 ∷ [])
        (validate-IsAccepted split_host_port (apply_defaults bare) bare_valid).0 bare_hosts
        bare_listens (λ c. refl) in
    (b, e)

abbrev loopback : String → Option Bool
loopback host = some true

abbrev same_text : String → String → Bool
same_text s t = false

abbrev listening : String → Bool
listening bind = true

abbrev env : Environment
env = record { config_path = ""; log_level = ""; admin_token = ""; health_url = "" }

abbrev gateway : Gateway
gateway = record { cfg = apply_defaults bare; built = bare_built.0 }

bare_starts :
    start_gateway split_host_port read_file unmarshal loopback same_text resolve opens listening
      (some "config.yaml")
      env
    ≡ inr gateway
unfolding start_gateway after_load guard_admin serve_admin config_path with_log_level
    must_remote_token is_loopback_bind parse_bind
bare_starts =
    ap
      (after_load split_host_port read_file unmarshal loopback same_text resolve opens listening
        env)
      bare_loads
    ∙ ap
        (serve_admin split_host_port read_file unmarshal loopback same_text resolve opens listening
          (apply_defaults bare))
        bare_built.1

start_gateway-IsStarted_example :
    IsStarted split_host_port read_file unmarshal loopback same_text resolve opens listening env
      gateway
start_gateway-IsStarted_example =
    start_gateway-IsStarted split_host_port read_file unmarshal loopback same_text resolve opens
      listening (some "config.yaml") env gateway bare_starts
