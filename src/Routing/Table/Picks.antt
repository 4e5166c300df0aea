-- ===== src/Routing/Table/Picks.antt =====
-- What `Pick` returns: an endpoint that may be picked.
use mini_envoy.Base.{
  ℕ, zero, suc, ◌+◌, ◌≡◌, ◌⊎◌, inl, inr, refl, sym, ap, arith, List, [], ◌∷◌, Option,
}
use mini_envoy.Base.{
  none, some, length, get_elem?, true, Bool-cases, Option-cases, if_true, if_false,
}
use mini_envoy.Base.{◌==◌, if◌then◌else◌}
use mathlib.Core.Path.{subst}
use mathlib.Core.Option.{some-injective}
use mini_envoy.Base.Int.{ℤ, ◌+ℤ◌, pos, negsuc, ltb_ℤ, rem}
use mini_envoy.Upstream.Endpoint.{Endpoint, eligible, at_least_one}
use mini_envoy.Routing.Swrr.{int_add, Best, better, scan, settle, pick_swrr, zeros}
use mini_envoy.Routing.RoundRobin.{rr_next}
use mini_envoy.Routing.Table.{
  Run, done, panic, or_panic, Route, member_at, probe_member, probe_from, counted, pick_rr,
  or_round_robin, pick_weighted, is_swrr, pick_among,
}

-- The member at an index exists and may be picked.
abbrev pub IsEligible : List Endpoint → ℕ → Type 0
IsEligible eps i = (ep : Endpoint) × (get_elem? eps i ≡ some ep) × (eligible ep ≡ true)

-- The index of a choice has a property; where there is none, nothing is said.
abbrev Chosen : (ℕ → Type 0) → Best → Type 0
Chosen P none = Unit
Chosen P (some (i, v)) = P i

better-Chosen :
    (P : ℕ → Type 0) (i : ℕ) (c : ℤ) (best : Best)
    → P i
    → Chosen P best
    → Chosen P (better i c best)
unfolding better
better-Chosen P i c none p h = p
better-Chosen P i c (some (j, v)) p h = elim (Bool-cases (ltb_ℤ v c)) [
  | inl e ↦ rw e p
  | inr e ↦ rw e h
]

scan-Chosen :
    (P : ℕ → Type 0) (eps : List Endpoint) (cs : List ℤ) (i : ℕ) (t : ℤ) (best : Best)
    → ((j : ℕ) → IsEligible eps j → P (i + j))
    → Chosen P best
    → Chosen P (scan eps cs i t best).2
unfolding scan
scan-Chosen P [] cs i t best f h = h
scan-Chosen P (ep ∷ eps) [] i t best f h = h
scan-Chosen P (ep ∷ eps) (c ∷ cs) i t best f h = elim (Bool-cases (eligible ep)) [
  | inl e ↦ rw e (
      scan-Chosen P eps cs (suc i) (int_add t (at_least_one ep.weight))
        (better i (int_add c (at_least_one ep.weight)) best) shifted
        (better-Chosen P i (int_add c (at_least_one ep.weight)) best
          (subst P {x = i + 0} (omega arith) (f 0 (ep, refl, e))) h))
  | inr e ↦ rw e (scan-Chosen P eps cs (suc i) t best shifted h)
]
  where
    shifted : (j : ℕ) → IsEligible eps j → P (suc i + j)
    shifted j q = subst P {x = i + suc j} (omega arith) (f (suc j) q)

settle-Chosen :
    (P : ℕ → Type 0) (out : List ℤ × ℤ × Best) (i : ℕ)
    → Chosen P out.2
    → (settle out).1 ≡ some i
    → P i
unfolding settle
settle-Chosen P (cs, t, none) i h e = ground arith
settle-Chosen P (cs, t, some (j, v)) i h e = subst P (some-injective j i e) h

-- The weighted pick returns a member that may be picked.
pick_swrr-IsEligible :
    (eps : List Endpoint) (cs : List ℤ) (i : ℕ) → (pick_swrr eps cs).1 ≡ some i → IsEligible eps i
unfolding pick_swrr
pick_swrr-IsEligible [] cs i e = ground arith
pick_swrr-IsEligible (ep ∷ eps) cs i e =
    settle-Chosen (IsEligible (ep ∷ eps)) _ i
      (scan-Chosen (IsEligible (ep ∷ eps)) (ep ∷ eps)
        (if length cs == length (ep ∷ eps) then cs else zeros (length (ep ∷ eps))) 0 (pos 0) none
        (λ j q. subst (IsEligible (ep ∷ eps)) {x = j} (omega arith) q) tt)
      e

-- What a run returns, if a member, may be picked.
abbrev pub IsSafe : List Endpoint → Run (Option ℤ) → Type 0
IsSafe eps panic = Unit
IsSafe eps (done none) = Unit
IsSafe eps (done (some (pos i))) = IsEligible eps i
IsSafe eps (done (some (negsuc i))) = ⊥

member_cases :
    (eps : List Endpoint) (n : ℕ)
    → (member_at eps (pos n) ≡ panic)
      ⊎ ((ep : Endpoint) × (get_elem? eps n ≡ some ep) × (member_at eps (pos n) ≡ done ep))
unfolding member_at
member_cases eps n = elim (Option-cases (get_elem? eps n)) [
  | inl e ↦ inl (ap or_panic e)
  | inr (ep, e) ↦ inr (ep, e, ap or_panic e)
]

eligible-IsSafe :
    (eps : List Endpoint) (ep : Endpoint) (n : ℕ) (rest : Run (Option ℤ))
    → get_elem? eps n ≡ some ep
    → IsSafe eps rest
    → IsSafe eps (probe_member (done ep) (pos n) rest)
unfolding probe_member
eligible-IsSafe eps ep n rest e h = elim (Bool-cases (eligible ep)) [
  | inl f ↦ subst (IsSafe eps) (sym (if_true (done (some (pos n))) rest f)) (ep, e, f)
  | inr f ↦ subst (IsSafe eps) (sym (if_false (done (some (pos n))) rest f)) h
]

member-IsSafe :
    (eps : List Endpoint) (at : ℤ) (rest : Run (Option ℤ))
    → IsSafe eps rest
    → IsSafe eps (probe_member (member_at eps at) at rest)
unfolding probe_member member_at
member-IsSafe eps (negsuc n) rest h = tt
member-IsSafe eps (pos n) rest h = elim (member_cases eps n) [
  | inl e ↦ subst (λ m. IsSafe eps (probe_member m (pos n) rest)) (sym e) tt
  | inr (ep, e, m) ↦
      subst (λ m. IsSafe eps (probe_member m (pos n) rest)) (sym m)
        (eligible-IsSafe eps ep n rest e h)
]

probe_from-IsSafe :
    (eps : List Endpoint) (start : ℤ) (i k : ℕ) → IsSafe eps (probe_from eps start i k)
unfolding probe_from
probe_from-IsSafe eps start i zero = tt
probe_from-IsSafe eps start i (suc k) =
    member-IsSafe eps (rem (start +ℤ pos i) (length eps)) (probe_from eps start (suc i) k)
      (probe_from-IsSafe eps start (suc i) k)

-- What `Pick` comes to, without the route.
abbrev pub found_by : Run (Route × Option ℤ) → Run (Option ℤ)
found_by panic = panic
found_by (done (r, found)) = done found

counted-IsSafe :
    (eps : List Endpoint) (r : Route) (n : ℕ) (o : Run (Option ℤ))
    → IsSafe eps o
    → IsSafe eps (found_by (counted r n o))
unfolding counted
counted-IsSafe eps r n panic h = tt
counted-IsSafe eps r n (done o) h = h

pick_rr-IsSafe : (eps : List Endpoint) (r : Route) → IsSafe eps (found_by (pick_rr eps r))
unfolding pick_rr
pick_rr-IsSafe eps r =
    counted-IsSafe eps r (rr_next r.count (length eps)).0 _
      (probe_from-IsSafe eps (rr_next r.count (length eps)).1 0 (length eps))

or_round_robin-IsSafe :
    (eps : List Endpoint) (r : Route) (found : Option ℕ)
    → ((i : ℕ) → found ≡ some i → IsEligible eps i)
    → IsSafe eps (found_by (or_round_robin eps r found))
unfolding or_round_robin
or_round_robin-IsSafe eps r (some i) h = h i refl
or_round_robin-IsSafe eps r none h = pick_rr-IsSafe eps r

-- Whatever the algorithm, the counters and the states of the members, an index that `Pick` returns is
-- the index of a member that is healthy, degraded or probing; it is never negative.
pub pick_among-IsSafe : (eps : List Endpoint) (r : Route) → IsSafe eps (found_by (pick_among eps r))
unfolding pick_among pick_weighted
pick_among-IsSafe [] r = tt
pick_among-IsSafe (ep ∷ eps) r = elim (Bool-cases (is_swrr r.algo)) [
  | inl e ↦ rw e (
      or_round_robin-IsSafe (ep ∷ eps) (record r { current = (pick_swrr (ep ∷ eps) r.current).0 })
        (pick_swrr (ep ∷ eps) r.current).1 (pick_swrr-IsEligible (ep ∷ eps) r.current))
  | inr e ↦ rw e (pick_rr-IsSafe (ep ∷ eps) r)
]
