-- ===== src/Metrics.antt =====
-- internal/metrics: the counters of the reactors, and what the administrator's pages show of them.
-- Times are nanoseconds. Floating-point numbers are a parameter, with the operations that the code
-- takes on them; so are `Sub(…).Seconds()` and `clock.Format`.
pub mod Rates
use Prim.Native.String.{String}
use mini_envoy.Base.{
  ℕ, ◌+◌, ◌-◌, ◌%◌, ◌^◌, List, [], ◌∷◌, Option, map, length, replicate, get_elem?,
}
use mini_envoy.Base.{Bool, if◌then◌else◌}
use mini_envoy.Base.Int.{ℤ, pos, negsuc, pos_part, ◌+ℤ◌, ltb_ℤ, int64, signed64}

-- The counters of one reactor. `conns` is an int64, the others are uint64.
pub record Shard : Type 0 where
  pub conns : ℤ
  pub in_bytes : ℕ
  pub out_bytes : ℕ
  pub in_frames : ℕ
  pub out_frames : ℕ
  pub errors : ℕ
  pub ring_used : ℕ
  pub ring_cap : ℕ
  pub busy_ns : ℕ

abbrev pub idle_shard : Shard
idle_shard = record {
  conns = pos 0;
  in_bytes = 0;
  out_bytes = 0;
  in_frames = 0;
  out_frames = 0;
  errors = 0;
  ring_used = 0;
  ring_cap = 0;
  busy_ns = 0;
}

-- What the code takes of float64 and of the clock.
pub record Floats (F : Type 0) : Type 0 where
  pub of_uint : ℕ → F
  pub of_int : ℤ → F
  pub mul : F → F → F
  pub div : F → F → F
  pub is_le : F → F → Bool
  pub seconds_between : ℤ → ℤ → F

pub record Registry (F : Type 0) : Type 0 where
  pub shards : List Shard
  pub prev_in_b : ℕ
  pub prev_out_b : ℕ
  pub prev_in_f : ℕ
  pub prev_out_f : ℕ
  pub prev_err : ℕ
  pub prev_at : ℤ
  pub in_bps : F
  pub out_bps : F
  pub in_pps : F
  pub out_pps : F
  pub err_rate : F

pub record Overview (F : Type 0) : Type 0 where
  pub conns : ℤ
  pub in_pps : F
  pub out_pps : F
  pub in_bps : F
  pub out_bps : F
  pub error_rate : F
  pub errors : ℕ
  pub ring_used : ℕ
  pub ring_cap : ℕ
  pub ring_ratio : F
  pub reactors : ℕ
  pub reactor_load : List F
  pub collected_at : String

-- A loop `sum += …` over the shards, on a uint64, and on an int64.
pub sum_from : ℕ → (Shard → ℕ) → List Shard → ℕ
sum_from acc field [] = acc
sum_from acc field (s ∷ ss) = sum_from ((acc + field s) % 2 ^ 64) field ss

pub conns_from : ℤ → List Shard → ℤ
conns_from acc [] = acc
conns_from acc (s ∷ ss) = conns_from (int64 (acc +ℤ s.conns)) ss

unfoldable pub total : (Shard → ℕ) → List Shard → ℕ
unfolding sum_from
total field ss = sum_from 0 field ss

-- `n - prev` on uint64
unfoldable pub grown : ℕ → ℕ → ℕ
grown n prev = (n + 2 ^ 64 - prev) % 2 ^ 64

-- `r.Shard(i)`: `none` is the panic on a registry without shards.
unfoldable pub shard_at : List Shard → ℤ → Option Shard
shard_at ss i =
    if ltb_ℤ i (pos 0)
    then get_elem? ss 0
    else if ltb_ℤ i (pos (length ss))
    then get_elem? ss (pos_part i)
    else get_elem? ss 0

module _ {F : Type 0} (fl : Floats F) where
  unfoldable pub new_registry : ℤ → ℤ → Registry F
  new_registry n now =
      let zero_rate = fl.of_uint 0 in
      record {
        shards = replicate (if ltb_ℤ n (pos 1) then 1 else pos_part n) idle_shard;
        prev_in_b = 0;
        prev_out_b = 0;
        prev_in_f = 0;
        prev_out_f = 0;
        prev_err = 0;
        prev_at = now;
        in_bps = zero_rate;
        out_bps = zero_rate;
        in_pps = zero_rate;
        out_pps = zero_rate;
        err_rate = zero_rate;
      }

  -- The seconds since the last call, and 1 where the clock did not move on.
  unfoldable pub elapsed : ℤ → Registry F → F
  elapsed now r =
      let dt = fl.seconds_between now r.prev_at in
      if fl.is_le dt (fl.of_uint 0) then fl.of_uint 1 else dt

  unfoldable pub tick : ℤ → Registry F → Registry F
  unfolding total grown elapsed
  tick now r =
      let dt = elapsed now r in
      let in_b = total (λ s. s.in_bytes) r.shards in
      let out_b = total (λ s. s.out_bytes) r.shards in
      let in_f = total (λ s. s.in_frames) r.shards in
      let out_f = total (λ s. s.out_frames) r.shards in
      let err_n = total (λ s. s.errors) r.shards in
      record {
        shards = r.shards;
        prev_in_b = in_b;
        prev_out_b = out_b;
        prev_in_f = in_f;
        prev_out_f = out_f;
        prev_err = err_n;
        prev_at = now;
        in_bps = fl.div (fl.mul (fl.of_uint (grown in_b r.prev_in_b)) (fl.of_uint 8)) dt;
        out_bps = fl.div (fl.mul (fl.of_uint (grown out_b r.prev_out_b)) (fl.of_uint 8)) dt;
        in_pps = fl.div (fl.of_uint (grown in_f r.prev_in_f)) dt;
        out_pps = fl.div (fl.of_uint (grown out_f r.prev_out_f)) dt;
        err_rate = fl.div (fl.of_uint (grown err_n r.prev_err)) dt;
      }

  unfoldable pub load_of : Shard → F
  load_of s = fl.div (fl.of_uint (s.busy_ns % 10 ^ 9)) (fl.of_uint (10 ^ 9))

  unfoldable pub overview : String → Registry F → Overview F
  unfolding total conns_from load_of signed64
  overview collected_at r =
      let used = total (λ s. s.ring_used) r.shards in
      let capn = total (λ s. s.ring_cap) r.shards in
      record {
        conns = conns_from (pos 0) r.shards;
        in_pps = r.in_pps;
        out_pps = r.out_pps;
        in_bps = r.in_bps;
        out_bps = r.out_bps;
        error_rate = r.err_rate;
        errors = total (λ s. s.errors) r.shards;
        ring_used = used;
        ring_cap = capn;
        ring_ratio =
            if ltb_ℤ (pos 0) (signed64 capn)
            then fl.div (fl.of_int (signed64 used)) (fl.of_int (signed64 capn))
            else fl.of_uint 0;
        reactors = length r.shards;
        reactor_load = map load_of r.shards;
        collected_at = collected_at;
      }
