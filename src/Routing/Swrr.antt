-- ===== src/Routing/Swrr.antt =====
-- internal/routing/swrr.go: smooth weighted round robin. The members are the endpoints that the
-- pointers lead to, as the loop reads them; a choice is an index among them. Weights, counters and the
-- total are ints, and adding and subtracting wrap at 64 bits.
pub mod Scan
pub mod Best
pub mod Counts
pub mod Fair
use mini_envoy.Base.{ℕ, zero, suc, List, [], ◌∷◌, Option, none, some, length, replicate, ◌==◌}
use mini_envoy.Base.{if◌then◌else◌}
use mini_envoy.Base.Int.{ℤ, pos, ◌+ℤ◌, ◌-ℤ◌, ltb_ℤ, int64}
use mini_envoy.Upstream.Endpoint.{Endpoint, eligible, at_least_one}

-- `+=` and `-=` on an int
abbrev pub int_add : ℤ → ℤ → ℤ
int_add a b = int64 (a +ℤ b)

abbrev pub int_sub : ℤ → ℤ → ℤ
int_sub a b = int64 (a -ℤ b)

-- `make([]int, n)`
abbrev pub zeros : ℕ → List ℤ
zeros n = replicate n (pos 0)

unfoldable pub reset : List Endpoint → List ℤ
reset members = zeros (length members)

-- `best` with `bestVal`; `none` is `best < 0`
abbrev pub Best : Type 0
Best = Option (ℕ × ℤ)

-- `if best < 0 || s.current[i] > bestVal`
unfoldable pub better : ℕ → ℤ → Best → Best
better i c none = some (i, c)
better i c (some (j, v)) = if ltb_ℤ v c then some (i, c) else some (j, v)

-- The loop over the members from index `i` on, and their counters: the counters after it, the total
-- weight and the best.
unfoldable pub scan : List Endpoint → List ℤ → ℕ → ℤ → Best → List ℤ × ℤ × Best
scan [] cs i total best = (cs, total, best)
scan (ep ∷ eps) [] i total best = ([], total, best)
scan (ep ∷ eps) (c ∷ cs) i total best =
    let w = at_least_one ep.weight in
    let skipped = scan eps cs (suc i) total best in
    let taken = scan eps cs (suc i) (int_add total w) (better i (int_add c w) best) in
    if eligible ep
    then (int_add c w ∷ taken.0, taken.1, taken.2)
    else (c ∷ skipped.0, skipped.1, skipped.2)

-- `s.current[i] -= total`
unfoldable pub lower : List ℤ → ℕ → ℤ → List ℤ
lower [] i total = []
lower (c ∷ cs) zero total = int_sub c total ∷ cs
lower (c ∷ cs) (suc i) total = c ∷ lower cs i total

unfoldable pub settle : List ℤ × ℤ × Best → List ℤ × Option ℕ
settle (cs, total, none) = (cs, none)
settle (cs, total, some (i, v)) = (lower cs i total, some i)

-- The counters after the call, and the index of the member that is returned. With no member the
-- counters are not touched.
unfoldable pub pick_swrr : List Endpoint → List ℤ → List ℤ × Option ℕ
unfolding scan better lower settle
pick_swrr [] current = (current, none)
pick_swrr (ep ∷ eps) current =
    let members = ep ∷ eps in
    let current' = if length current == length members then current else zeros (length members) in
    settle (scan members current' 0 (pos 0) none)
