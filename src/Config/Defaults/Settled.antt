-- ===== src/Config/Defaults/Settled.antt =====
-- What `applyDefaults` leaves: a configuration that a second call does not change, with water marks
-- that the checks accept.
use Prim.Native.String.{String}
use text.Mathlib.Text.{◌==◌ as str_eq}
use mini_envoy.Base.{
  ℕ, ◌*◌, ◌/◌, ◌%◌, ◌^◌, ◌≤◌, ◌<◌, ◌≡◌, inl, inr, refl, ap, ap₂, ◌∙◌, List, [], ◌∷◌, map, ◌==◌,
}
use mini_envoy.Base.{arith, true, if◌then◌else◌, Bool-cases}
use mini_envoy.Base.Int.{ℤ, pos, ltb_ℤ, ◌≤ℤ◌, int64, signed64, eq_ℤ}
use mini_envoy.Config.File.{File, Buffer, Upstream}
use mini_envoy.Config.Defaults.{
  times, quot, or_text, or_positive, or_nonzero, listen_defaults, buffer_defaults, timeout_defaults,
  health_defaults, upstream_defaults, apply_defaults,
}

or_text_twice : (s d : String) → or_text (or_text s d) d ≡ or_text s d
unfolding or_text
or_text_twice s d = elim (Bool-cases (str_eq s "")) [
  | inl e ↦ rw e (elim (Bool-cases (str_eq d "")) [ inl h ↦ rw h refl | inr h ↦ rw h refl ])
  | inr e ↦ rw (e, e) refl
]

or_positive_twice : (n d : ℤ) → or_positive (or_positive n d) d ≡ or_positive n d
unfolding or_positive
or_positive_twice n d = elim (Bool-cases (ltb_ℤ (pos 0) n)) [
  | inl e ↦ rw (e, e) refl
  | inr e ↦ rw e (elim (Bool-cases (ltb_ℤ (pos 0) d)) [ inl h ↦ rw h refl | inr h ↦ rw h refl ])
]

or_nonzero_twice : (n d : ℤ) → or_nonzero (or_nonzero n d) d ≡ or_nonzero n d
unfolding or_nonzero
or_nonzero_twice n d = elim (Bool-cases (eq_ℤ n (pos 0))) [
  | inl e ↦ rw e (elim (Bool-cases (eq_ℤ d (pos 0))) [ inl h ↦ rw h refl | inr h ↦ rw h refl ])
  | inr e ↦ rw (e, e) refl
]

upstreams_twice :
    (us : List Upstream)
    → map upstream_defaults (map upstream_defaults us) ≡ map upstream_defaults us
unfolding upstream_defaults
upstreams_twice [] = refl
upstreams_twice (u ∷ us) =
    ap₂ ◌∷◌ (ap (λ w. record u { weight = w }) (or_positive_twice u.weight (pos 1)))
      (upstreams_twice us)

payload_twice :
    (n : ℕ)
    → (if (if n == 0 then 2 ^ 20 else n) == 0 then 2 ^ 20 else (if n == 0 then 2 ^ 20 else n))
      ≡ (if n == 0 then 2 ^ 20 else n)
payload_twice n = ground arith

-- `buffer_defaults` with the chunk size given.
unfoldable marks : ℤ → Buffer → Buffer
unfolding or_positive times
marks chunk b = record {
  chunk_size = chunk;
  high_water = or_positive b.high_water (quot (times chunk 3) 4);
  low_water = or_positive b.low_water (quot chunk 4);
  max_payload = if b.max_payload == 0 then 2 ^ 20 else b.max_payload;
}

marks_twice : (c : ℤ) (b : Buffer) → marks c (marks c b) ≡ marks c b
unfolding marks or_positive times
marks_twice c b = λ i. record {
  chunk_size = c;
  high_water = or_positive_twice b.high_water (quot (times c 3) 4) i;
  low_water = or_positive_twice b.low_water (quot c 4) i;
  max_payload = payload_twice b.max_payload i;
}

buffer_twice : (b : Buffer) → buffer_defaults (buffer_defaults b) ≡ buffer_defaults b
unfolding buffer_defaults marks or_positive
buffer_twice b =
    ap (λ c. marks c (marks (or_positive b.chunk_size (pos 65536)) b))
      (or_positive_twice b.chunk_size (pos 65536))
    ∙ marks_twice (or_positive b.chunk_size (pos 65536)) b

-- Calling `applyDefaults` again changes nothing.
pub apply_defaults-apply_defaults :
    (f : File) → apply_defaults (apply_defaults f) ≡ apply_defaults f
unfolding apply_defaults listen_defaults timeout_defaults health_defaults
apply_defaults-apply_defaults f = λ i. record {
  version = or_nonzero_twice f.version (pos 1) i;
  log_level = or_text_twice f.log_level "info" i;
  reactors = or_positive_twice f.reactors (pos 1) i;
  listen = record {
    ip = or_text_twice f.listen.ip "0.0.0.0" i;
    port = or_nonzero_twice f.listen.port (pos 9000) i;
    backlog = or_positive_twice f.listen.backlog (pos 1024) i;
  };
  admin = record { bind = or_text_twice f.admin.bind "127.0.0.1:18080" i };
  buffer = buffer_twice f.buffer i;
  timeouts = record {
    idle_ms = or_positive_twice f.timeouts.idle_ms (pos 60000) i;
    upstream_ms = or_positive_twice f.timeouts.upstream_ms (pos 5000) i;
    drain_ms = or_positive_twice f.timeouts.drain_ms (pos 3000) i;
  };
  health = record {
    interval_ms = or_positive_twice f.health.interval_ms (pos 2000) i;
    timeout_ms = or_positive_twice f.health.timeout_ms (pos 800) i;
    fail_threshold = or_positive_twice f.health.fail_threshold (pos 3) i;
    pass_threshold = or_positive_twice f.health.pass_threshold (pos 2) i;
  };
  routes = f.routes;
  upstreams = upstreams_twice f.upstreams i;
}

or_positive_default : (n d : ℤ) → n ≤ℤ pos 0 → or_positive n d ≡ d
unfolding or_positive
or_positive_default n d h = ground arith

or_positive_given : (n : ℕ) (d : ℤ) → 0 < n → or_positive (pos n) d ≡ pos n
unfolding or_positive
or_positive_given n d h = ground arith

signed64_small : (m : ℕ) → m < 2 ^ 63 → signed64 (m % 2 ^ 64) ≡ pos m
unfolding signed64
signed64_small m h = ground arith

times_small : (n k : ℕ) → n * k < 2 ^ 63 → times (pos n) k ≡ pos (n * k)
unfolding times int64
times_small n k h = signed64_small (n * k) h

-- Where the file gives no water marks and a chunk of at least 4 bytes, whose triple an int holds, the
-- default marks are positive, the low one is below the high one, and the high one within the chunk.
pub buffer_defaults_watermarks :
    (b : Buffer) (n : ℕ)
    → b.chunk_size ≡ pos n
    → 4 ≤ n
    → n * 3 < 2 ^ 63
    → b.high_water ≤ℤ pos 0
    → b.low_water ≤ℤ pos 0
    → (ltb_ℤ (pos 0) (buffer_defaults b).low_water ≡ true)
      × (ltb_ℤ (buffer_defaults b).low_water (buffer_defaults b).high_water ≡ true)
      × ((buffer_defaults b).high_water ≤ℤ pos n)
unfolding buffer_defaults
buffer_defaults_watermarks b n h lo hi hw lw = rw (low, high) (ground arith)
  where
    chunk : or_positive b.chunk_size (pos 65536) ≡ pos n
    chunk = ap (λ c. or_positive c (pos 65536)) h ∙ or_positive_given n (pos 65536) (omega arith)

    low : (buffer_defaults b).low_water ≡ pos (n / 4)
    low = or_positive_default b.low_water _ lw ∙ ap (λ c. quot c 4) chunk

    high : (buffer_defaults b).high_water ≡ pos (n * 3 / 4)
    high =
        or_positive_default b.high_water _ hw
        ∙ ap (λ c. quot (times c 3) 4) chunk
        ∙ ap (λ c. quot c 4) (times_small n 3 hi)
