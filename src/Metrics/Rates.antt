-- ===== src/Metrics/Rates.antt =====
-- The rates that `Tick` computes count what happened since the last call, though the counters wrap.
use mini_envoy.Base.{ℕ, ◌+◌, ◌%◌, ◌^◌, ◌<◌, ◌≡◌, refl, ap, ◌∙◌, List, [], ◌∷◌, arith}
use mini_envoy.Base.Int.{ℤ}
use mini_envoy.Metrics.{Shard, Floats, Registry, sum_from, total, grown, elapsed, tick}

-- A reactor reads `n` more bytes: `InBytes.Add(n)`.
abbrev pub add_in_bytes : ℕ → Shard → Shard
add_in_bytes n s = record s { in_bytes = (s.in_bytes + n) % 2 ^ 64 }

-- Each reactor reads some bytes.
abbrev pub traffic : List ℕ → List Shard → List Shard
traffic [] ss = ss
traffic (n ∷ ns) [] = []
traffic (n ∷ ns) (s ∷ ss) = add_in_bytes n s ∷ traffic ns ss

-- The bytes of the reactors that there are.
abbrev pub read_by : List ℕ → List Shard → ℕ
read_by [] ss = 0
read_by (n ∷ ns) [] = 0
read_by (n ∷ ns) (s ∷ ss) = n + read_by ns ss

sum_from-traffic :
    (a b k : ℕ) (ns : List ℕ) (ss : List Shard)
    → b % 2 ^ 64 ≡ (a + k) % 2 ^ 64
    → sum_from b (λ s. s.in_bytes) (traffic ns ss) % 2 ^ 64
      ≡ (sum_from a (λ s. s.in_bytes) ss + k + read_by ns ss) % 2 ^ 64
unfolding sum_from
sum_from-traffic a b k [] [] h = h ∙ ap (λ t. t % 2 ^ 64) (omega arith)
sum_from-traffic a b k [] (s ∷ ss) h =
    sum_from-traffic ((a + s.in_bytes) % 2 ^ 64) ((b + s.in_bytes) % 2 ^ 64) k [] ss
      (omega (arith, h))
sum_from-traffic a b k (n ∷ ns) [] h = h ∙ ap (λ t. t % 2 ^ 64) (omega arith)
sum_from-traffic a b k (n ∷ ns) (s ∷ ss) h =
    sum_from-traffic ((a + s.in_bytes) % 2 ^ 64) ((b + (s.in_bytes + n) % 2 ^ 64) % 2 ^ 64) (k + n)
      ns ss (omega (arith, h))
    ∙ ap (λ t. t % 2 ^ 64) (omega arith)

sum_from-bound :
    (a : ℕ) (field : Shard → ℕ) (ss : List Shard) → a < 2 ^ 64 → sum_from a field ss < 2 ^ 64
unfolding sum_from
sum_from-bound a field [] h = h
sum_from-bound a field (s ∷ ss) h = sum_from-bound ((a + field s) % 2 ^ 64) field ss (omega arith)

-- What the sum of the counters has grown by is the bytes read, up to 2^64, though counters and sums
-- wrap.
grown-traffic :
    (ns : List ℕ) (ss : List Shard)
    → grown (total (λ s. s.in_bytes) (traffic ns ss)) (total (λ s. s.in_bytes) ss)
      ≡ read_by ns ss % 2 ^ 64
unfolding grown total
grown-traffic ns ss = omega (
  arith,
  sum_from-traffic 0 0 0 ns ss refl,
  sum_from-bound 0 (λ s. s.in_bytes) ss (omega arith),
  sum_from-bound 0 (λ s. s.in_bytes) (traffic ns ss) (omega arith),
)

-- Two calls of `Tick` with traffic between them: the rate of the second is the bits read since the
-- first, over the time that the code takes for it, though the counters and their sums wrap.
pub tick-traffic :
    {F : Type 0} (fl : Floats F) (t u : ℤ) (ns : List ℕ) (r : Registry F)
    → read_by ns r.shards < 2 ^ 64
    → let r' = tick fl t r in
      let moved = record r' { shards = traffic ns r'.shards } in
      (tick fl u moved).in_bps
      ≡ fl.div (fl.mul (fl.of_uint (read_by ns r.shards)) (fl.of_uint 8)) (elapsed fl u moved)
unfolding tick
tick-traffic fl t u ns r h =
    ap
      (λ n.
        fl.div (fl.mul (fl.of_uint n) (fl.of_uint 8))
          (elapsed fl u (record (tick fl t r) { shards = traffic ns r.shards })))
      (grown-traffic ns r.shards ∙ small)
  where
    small : read_by ns r.shards % 2 ^ 64 ≡ read_by ns r.shards
    small = omega (arith, h)
