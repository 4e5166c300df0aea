-- ===== src/Config/Defaults.antt =====
-- internal/config/config.go: `applyDefaults`, and the durations. An `int` has 64 bits.
pub mod Settled
use Prim.Native.String.{String}
use text.Mathlib.Text.{◌==◌ as str_eq}
use mini_envoy.Base.{ℕ, ◌+◌, ◌*◌, ◌/◌, ◌^◌, List, map, ◌==◌, if◌then◌else◌}
use mini_envoy.Base.Int.{ℤ, pos, negsuc, sub_ℕ, ltb_ℤ, int64, eq_ℤ}
use mini_envoy.Config.File.{File, Listen, Admin, Buffer, Timeouts, Health, Upstream}

-- The product with a constant, wrapped to 64 bits.
unfoldable pub times : ℤ → ℕ → ℤ
unfolding int64
times (pos a) k = int64 (pos (a * k))
times (negsuc a) k = int64 (sub_ℕ 0 ((a + 1) * k))

-- Go's `/` by a positive constant goes towards zero.
abbrev pub quot : ℤ → ℕ → ℤ
quot (pos a) k = pos (a / k)
quot (negsuc a) k = sub_ℕ 0 ((a + 1) / k)

-- `if s == "" { s = d }`
unfoldable pub or_text : String → String → String
or_text s d = if str_eq s "" then d else s

-- `if n <= 0 { n = d }`
unfoldable pub or_positive : ℤ → ℤ → ℤ
or_positive n d = if ltb_ℤ (pos 0) n then n else d

-- `if n == 0 { n = d }`
unfoldable pub or_nonzero : ℤ → ℤ → ℤ
or_nonzero n d = if eq_ℤ n (pos 0) then d else n

unfoldable pub listen_defaults : Listen → Listen
unfolding or_text or_positive or_nonzero
listen_defaults l = record {
  ip = or_text l.ip "0.0.0.0";
  port = or_nonzero l.port (pos 9000);
  backlog = or_positive l.backlog (pos 1024);
}

unfoldable pub buffer_defaults : Buffer → Buffer
unfolding or_positive times
buffer_defaults b =
    let chunk = or_positive b.chunk_size (pos 65536) in
    record {
      chunk_size = chunk;
      high_water = or_positive b.high_water (quot (times chunk 3) 4);
      low_water = or_positive b.low_water (quot chunk 4);
      max_payload = if b.max_payload == 0 then 2 ^ 20 else b.max_payload;
    }

unfoldable pub timeout_defaults : Timeouts → Timeouts
unfolding or_positive
timeout_defaults t = record {
  idle_ms = or_positive t.idle_ms (pos 60000);
  upstream_ms = or_positive t.upstream_ms (pos 5000);
  drain_ms = or_positive t.drain_ms (pos 3000);
}

unfoldable pub health_defaults : Health → Health
unfolding or_positive
health_defaults h = record {
  interval_ms = or_positive h.interval_ms (pos 2000);
  timeout_ms = or_positive h.timeout_ms (pos 800);
  fail_threshold = or_positive h.fail_threshold (pos 3);
  pass_threshold = or_positive h.pass_threshold (pos 2);
}

unfoldable pub upstream_defaults : Upstream → Upstream
unfolding or_positive
upstream_defaults u = record u { weight = or_positive u.weight (pos 1) }

unfoldable pub apply_defaults : File → File
unfolding or_text or_positive or_nonzero listen_defaults buffer_defaults timeout_defaults
    health_defaults upstream_defaults
apply_defaults f = record {
  version = or_nonzero f.version (pos 1);
  log_level = or_text f.log_level "info";
  reactors = or_positive f.reactors (pos 1);
  listen = listen_defaults f.listen;
  admin = record { bind = or_text f.admin.bind "127.0.0.1:18080" };
  buffer = buffer_defaults f.buffer;
  timeouts = timeout_defaults f.timeouts;
  health = health_defaults f.health;
  routes = f.routes;
  upstreams = map upstream_defaults f.upstreams;
}

-- A count of milliseconds, as a `time.Duration` in nanoseconds.
unfoldable pub millis : ℤ → ℤ
unfolding times
millis n = times n 1000000

unfoldable pub idle : File → ℤ
unfolding millis
idle f = millis f.timeouts.idle_ms

unfoldable pub upstream_to : File → ℤ
unfolding millis
upstream_to f = millis f.timeouts.upstream_ms

unfoldable pub health_every : File → ℤ
unfolding millis
health_every f = millis f.health.interval_ms
