-- ===== src/Config/File.antt =====
-- internal/config/config.go: the types of the configuration file.
use Prim.Native.String.{String}
use mini_envoy.Base.{ℕ, List}
use mini_envoy.Base.Int.{ℤ}

pub record Listen : Type 0 where
  pub ip : String
  pub port : ℤ
  pub backlog : ℤ

pub record Admin : Type 0 where
  pub bind : String

-- `max_payload` is a uint32.
pub record Buffer : Type 0 where
  pub chunk_size : ℤ
  pub high_water : ℤ
  pub low_water : ℤ
  pub max_payload : ℕ

pub record Timeouts : Type 0 where
  pub idle_ms : ℤ
  pub upstream_ms : ℤ
  pub drain_ms : ℤ

pub record Health : Type 0 where
  pub interval_ms : ℤ
  pub timeout_ms : ℤ
  pub fail_threshold : ℤ
  pub pass_threshold : ℤ

pub record Route : Type 0 where
  pub id : ℕ
  pub name : String
  pub algorithm : String
  pub upstreams : List String

pub record Upstream : Type 0 where
  pub id : String
  pub host : String
  pub port : ℤ
  pub weight : ℤ

pub record File : Type 0 where
  pub version : ℤ
  pub log_level : String
  pub reactors : ℤ
  pub listen : Listen
  pub admin : Admin
  pub buffer : Buffer
  pub timeouts : Timeouts
  pub health : Health
  pub routes : List Route
  pub upstreams : List Upstream
