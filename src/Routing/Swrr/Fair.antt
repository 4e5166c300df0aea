-- ===== src/Routing/Swrr/Fair.antt =====
-- Smooth weighted round robin over a whole round: as many picks as the weights add up to.
use mini_envoy.Base.{ℕ, zero, suc, ◌+◌, ◌*◌, ◌^◌, ◌<◌, ◌≤◌, ◌≡◌, inl, inr, sym, ap, ap₂, ◌∙◌}
use mini_envoy.Base.{arith, List, [], ◌∷◌, length, if◌then◌else◌, ◌==◌}
use mini_envoy.Base.{
  Option, none, some, replicate, length-replicate, get_or, get_elem?, if_true, ==_iff,
}
use mathlib.Core.Path.{subst}
use native.Mathlib.Nat.{mul-le-mul_right}
use mini_envoy.Base.Int.{ℤ, pos}
use mini_envoy.Upstream.Endpoint.{Endpoint}
use mini_envoy.Routing.Swrr.{Best, scan, settle, lower, pick_swrr, zeros}
use mini_envoy.Routing.Swrr.Scan.{shares, sum, tally, Bounded, scan-tally, scan_total}
use mini_envoy.Routing.Swrr.Best.{Chosen, scan-Chosen, IsUp, AnyUp, scan-IsUp}
use mini_envoy.Routing.Swrr.Counts.{
  bump, length-bump, lower-tally, raise-Bounded, tally-AnyUp, bump-Bounded, sum-bump, length-shares,
  length-tally, tally-lt, get_or-bump, counts_eq, tally_even, tally_zero, sum-zeros, get_or-zeros,
}

-- So many calls of `Pick` on the same members: the choices, the first call's first, and the counters
-- after them.
unfoldable pub pick_times : ℕ → List Endpoint → List ℤ → List (Option ℕ) × List ℤ
pick_times zero eps cs = ([], cs)
pick_times (suc n) eps cs =
    let rest = pick_times n eps (pick_swrr eps cs).0 in ((pick_swrr eps cs).1 ∷ rest.0, rest.1)

-- How often a member was chosen.
unfoldable pub times : ℕ → List (Option ℕ) → ℕ
times i [] = 0
times i (none ∷ os) = times i os
times i (some j ∷ os) = if j == i then suc (times i os) else times i os

pick_lem :
    (eps : List Endpoint) (cs : List ℤ)
    → 0 < sum (shares eps)
    → length cs ≡ length eps
    → pick_swrr eps cs ≡ settle (scan eps cs 0 (pos 0) none)
unfolding pick_swrr shares sum
pick_lem [] cs h e = absurd (omega arith)
pick_lem (ep ∷ eps) cs h e =
    ap (λ c. settle (scan (ep ∷ eps) c 0 (pos 0) none))
      (if_true cs _ ((==_iff (length cs) (length (ep ∷ eps))).1 e))

product_small : (m t : ℕ) → m ≤ t → t ≤ 2 ^ 31 → m * t < 2 ^ 63
product_small m t h b =
    let bounded : m ≤ 2 ^ 31 = omega arith in omega (arith, mul-le-mul_right t bounded)

module _ (eps : List Endpoint) where
  abbrev total : ℕ
  total = sum (shares eps)

  -- The counters of members that were picked so often.
  record IsRound (m : ℕ) (ks : List ℕ) : Type 0 where
    length_eq : length ks ≡ length eps
    picks : sum ks ≡ m
    bound : Bounded total m (shares eps) ks

  -- What one call of `Pick` does in such a state.
  record Step (m : ℕ) (ks : List ℕ) : Type 0 where
    index : ℕ
    within : index < length eps
    pick :
        pick_swrr eps (tally total m (shares eps) ks)
        ≡ (tally total (suc m) (shares eps) (bump ks index), some index)
    next : IsRound (suc m) (bump ks index)

  -- The counters after the loop, in the state with those counts.
  abbrev raised : ℕ → List ℕ → List ℤ
  raised m ks = tally total (suc m) (shares eps) ks

  settle-Step :
      (m : ℕ) (ks : List ℕ) (out : List ℤ × ℤ × Best)
      → IsRound m ks
      → out.0 ≡ raised m ks
      → out.1 ≡ pos total
      → pick_swrr eps (tally total m (shares eps) ks) ≡ settle out
      → IsUp out.2
      → Chosen (λ i v. get_elem? (raised m ks) i ≡ some v) out.2
      → suc m ≤ total
      → total ≤ 2 ^ 31
      → Step m ks
  unfolding settle
  settle-Step m ks (cs, t, none) r e f p up at small big = absurd up
  settle-Step m ks (cs, t, some (i, v)) r e f p up at small big =
      let inside : i < length ks = tally-lt total (suc m) (shares eps) ks i v at in
      record {
        index = i;
        within = omega (arith, r.length_eq);
        pick =
            p
            ∙ ap (λ c. (c, some i))
                (ap₂ (λ c u. lower c i u) e f
                  ∙ lower-tally total (suc m) (shares eps) ks i
                      (r.length_eq ∙ sym (length-shares eps)) (omega arith)
                      (product_small (suc m) total small big)
                      (raise-Bounded total m (shares eps) ks r.bound));
        next = record {
          length_eq = length-bump ks i ∙ r.length_eq;
          picks = sum-bump total ks i inside ∙ ap suc r.picks;
          bound = bump-Bounded total m (shares eps) ks i v at up r.bound;
        };
      }

  pick-Step :
      0 < total → total ≤ 2 ^ 31 → (m : ℕ) (ks : List ℕ) → suc m ≤ total → IsRound m ks → Step m ks
  pick-Step h big m ks small r =
      settle-Step m ks (scan eps (tally total m (shares eps) ks) 0 (pos 0) none) r counters
        (scan_total total m eps ks 0 0 none r.length_eq (omega arith) ∙ ap pos (omega arith))
        (pick_lem eps (tally total m (shares eps) ks) h (
          length-tally total m (shares eps) ks (r.length_eq ∙ sym (length-shares eps))
          ∙ length-shares eps))
        (scan-IsUp eps _ 0 (pos 0) none (inl (subst (AnyUp eps) (sym counters) some_up)))
        (scan-Chosen (λ i v. get_elem? (raised m ks) i ≡ some v) eps _ 0 (pos 0) none
          (λ d c q.
            subst (λ n. get_elem? (raised m ks) n ≡ some c) {x = d} (omega arith)
              (ap (λ cs. get_elem? cs d) (sym counters) ∙ q))
          tt)
        small big
    where
      counters : (scan eps (tally total m (shares eps) ks) 0 (pos 0) none).0 ≡ raised m ks
      counters =
          scan-tally total m eps ks 0 (pos 0) none r.length_eq (omega arith)
            (product_small (suc m) total small big) r.bound

      some_up : AnyUp eps (raised m ks)
      some_up = elim (tally-AnyUp total (suc m) eps ks r.length_eq) [
        | inr q ↦ q
        | inl q ↦
            let all : total * sum ks ≡ total * m = ap (λ n. total * n) r.picks in
            absurd (omega arith)
      ]

-- The state after so many calls, and what was chosen in them.
record IsAfter (eps : List Endpoint) (m n : ℕ) (ks : List ℕ) (out : List (Option ℕ) × List ℤ)
    : Type 0 where
  counts : List ℕ
  round : IsRound eps (m + n) counts
  current : out.1 ≡ tally (sum (shares eps)) (m + n) (shares eps) counts
  chosen : (i : ℕ) → get_or counts i 0 ≡ get_or ks i 0 + times i out.0

one_more :
    (ks : List ℕ) (j i : ℕ) (os : List (Option ℕ))
    → j < length ks
    → get_or (bump ks j) i 0 + times i os ≡ get_or ks i 0 + times i (some j ∷ os)
unfolding times
one_more ks j i os h = ground (arith, get_or-bump ks j i h)

pick_times-IsAfter :
    (eps : List Endpoint)
    → 0 < sum (shares eps)
    → sum (shares eps) ≤ 2 ^ 31
    → (n m : ℕ) (ks : List ℕ) → m + n ≤ sum (shares eps)
    → IsRound eps m ks
    → IsAfter eps m n ks (pick_times n eps (tally (sum (shares eps)) m (shares eps) ks))
unfolding pick_times times
pick_times-IsAfter eps h big zero m ks room r = record {
  counts = ks;
  round = subst (λ t. IsRound eps t ks) {x = m} (omega arith) r;
  current = ap (λ t. tally (sum (shares eps)) t (shares eps) ks) {x = m} (omega arith);
  chosen = λ i. omega arith;
}
pick_times-IsAfter eps h big (suc n) m ks room r =
    let step = pick-Step eps h big m ks (omega arith) r in
    let rest =
      pick_times-IsAfter eps h big n (suc m) (bump ks step.index) (omega arith) step.next in
    subst (λ p. IsAfter eps m (suc n) ks (p.1 ∷ (pick_times n eps p.0).0, (pick_times n eps p.0).1))
      (sym step.pick)
      (record {
        counts = rest.counts;
        round = subst (λ t. IsRound eps t rest.counts) {x = suc m + n} (omega arith) rest.round;
        current =
            rest.current
            ∙ ap (λ t. tally (sum (shares eps)) t (shares eps) rest.counts) {x = suc m + n}
                (omega arith);
        chosen = λ i.
            rest.chosen i
            ∙ one_more ks step.index i
                (pick_times n eps
                  (tally (sum (shares eps)) (suc m) (shares eps) (bump ks step.index))).0
                (omega (arith, r.length_eq, step.within));
      })

start : (eps : List Endpoint) → 0 < sum (shares eps) → IsRound eps 0 (replicate (length eps) 0)
start eps h = record {
  length_eq = length-replicate (length eps) 0;
  picks = sum-zeros (length eps);
  bound =
      subst (λ n. Bounded (sum (shares eps)) 0 (shares eps) (replicate n 0)) (length-shares eps)
        (even (shares eps));
}
  where
    even : (ws : List ℕ) → Bounded (sum (shares eps)) 0 ws (replicate (length ws) 0)
    even [] = tt
    even (w ∷ ws) = (omega arith, even ws)

-- Where some member may be picked, the weights of the members that may be add up to at most 2^31 (a
-- weight below 1 counts as 1), and none changes in between, as many calls of `Pick` as these weights
-- add up to, from counters at zero, return each member as often as its weight says, return no other,
-- and leave every counter at zero, for the next round.
pub pick_times-shares :
    (eps : List Endpoint)
    → 0 < sum (shares eps)
    → sum (shares eps) ≤ 2 ^ 31
    → ((i : ℕ)
        → times i (pick_times (sum (shares eps)) eps (zeros (length eps))).0
          ≡ get_or (shares eps) i 0)
      × ((pick_times (sum (shares eps)) eps (zeros (length eps))).1 ≡ zeros (length eps))
pick_times-shares eps h big = (
  λ i. chosen i,
  after.current
      ∙ ap₂ (λ t ks. tally n t ws ks) {x = 0 + n} (omega arith) exact
      ∙ tally_even n ws
      ∙ ap zeros (length-shares eps),
)
  where
    ws : List ℕ
    ws = shares eps

    n : ℕ
    n = sum ws

    none_picked : List ℕ
    none_picked = replicate (length eps) 0

    after : IsAfter eps 0 n none_picked (pick_times n eps (zeros (length eps)))
    after =
        subst (λ cs. IsAfter eps 0 n none_picked (pick_times n eps cs))
          (ap (λ l. tally n 0 ws (replicate l 0)) (sym (length-shares eps))
            ∙ tally_zero n ws
            ∙ ap zeros (length-shares eps))
          (pick_times-IsAfter eps h big n 0 none_picked (omega arith) (start eps h))

    exact : after.counts ≡ ws
    exact =
        let r = subst (λ t. IsRound eps t after.counts) {x = 0 + n} (omega arith) after.round in
        (counts_eq n ws after.counts (r.length_eq ∙ sym (length-shares eps)) r.bound).1 r.picks

    chosen : (i : ℕ) → times i (pick_times n eps (zeros (length eps))).0 ≡ get_or ws i 0
    chosen i =
        let counted = after.chosen i in
        let none_before = get_or-zeros (length eps) i in
        omega arith ∙ ap (λ ks. get_or ks i 0) exact
