-- ===== src/Routing/Table/Found.antt =====
-- `Pick` finds a member where there is one: the loop goes round all of them.
use native.Mathlib.Nat.{mod-lt}
use native.Mathlib.Decide.{dec_le}
use mathlib.Core.Path.{subst}
use mathlib.Core.Bool.{true≢false}
use mathlib.Core.Option.{some-injective}
use mini_envoy.Base.{
  ℕ, zero, suc, ◌+◌, ◌-◌, ◌%◌, ◌^◌, ◌≤◌, ◌<◌, ◌≡◌, ◌⊎◌, inl, inr, refl, sym, ap, ◌∙◌, arith,
}
use mini_envoy.Base.{
  List, [], ◌∷◌, Option, none, some, length, get_elem?, false, Bool-cases, lt→ltb,
}
use mini_envoy.Base.{if_true, if_false, ◌==◌, leb, if◌then◌else◌}
use mini_envoy.Base.Int.{ℤ, pos, ◌+ℤ◌, rem, signed64}
use mini_envoy.Buffer.Ring.Bounds.{mod-step}
use mini_envoy.Upstream.Endpoint.{Endpoint, eligible}
use mini_envoy.Routing.RoundRobin.{rr_next}
use mini_envoy.Routing.Swrr.{pick_swrr}
use mini_envoy.Routing.Table.{
  Run, done, panic, or_panic, Route, member_at, probe_member, probe_from, counted, pick_rr,
  or_round_robin, pick_weighted, is_swrr, pick_among,
}
use mini_envoy.Routing.Table.Picks.{IsEligible, found_by}

-- A run that does not panic and returns a member.
abbrev pub IsFound : Run (Option ℤ) → Type 0
IsFound panic = ⊥
IsFound (done none) = ⊥
IsFound (done (some i)) = Unit

get_elem-lt :
    {A : Type 0} (xs : List A) (i : ℕ) → i < length xs → (x : A) × (get_elem? xs i ≡ some x)
get_elem-lt [] i h = elim h [ ]
get_elem-lt (x ∷ xs) zero h = (x, refl)
get_elem-lt (x ∷ xs) (suc i) h = get_elem-lt xs i (omega arith)

lt-get_elem : {A : Type 0} (xs : List A) (i : ℕ) (x : A) → get_elem? xs i ≡ some x → i < length xs
lt-get_elem [] i x h = ground arith
lt-get_elem (y ∷ xs) zero x h = omega arith
lt-get_elem (y ∷ xs) (suc i) x h = omega (arith, lt-get_elem xs i x h)

rr_next-pos : (c n : ℕ) → 0 < n → c < 2 ^ 63 → (rr_next c n).1 ≡ pos (c % n)
unfolding rr_next rem signed64
rr_next-pos c n h b =
    ap (λ t. t.1) {x = rr_next c n} (if_false _ _ nonzero)
    ∙ ap (λ t. rem (signed64 t) n) (omega arith)
    ∙ ap (λ t. rem t n) (if_true (pos c) _ (lt→ltb c (2 ^ 63) b))
  where
    nonzero : (n == 0) ≡ false
    nonzero = ground arith

at_pos : (s i n : ℕ) → rem (pos s +ℤ pos i) n ≡ pos ((s + i) % n)
unfolding rem ◌+ℤ◌
at_pos s i n = ap (λ t. rem t n) {y = pos (s + i)} (ground arith)

module _ (eps : List Endpoint) where
  -- One round at an index within the list: the member there, or what the rounds behind it find.
  round-IsFound :
      (a : ℕ) (rest : Run (Option ℤ))
      → a < length eps
      → (IsEligible eps a ⊎ IsFound rest)
      → IsFound (probe_member (member_at eps (pos a)) (pos a) rest)
  unfolding probe_member member_at
  round-IsFound a rest h q =
      let (ep, e) = get_elem-lt eps a h in
      subst (λ m. IsFound (probe_member (or_panic m) (pos a) rest)) (sym e) (settled ep e)
    where
      behind :
          (ep : Endpoint)
          → get_elem? eps a ≡ some ep
          → eligible ep ≡ false
          → (IsEligible eps a ⊎ IsFound rest)
          → IsFound rest
      behind ep e f (inr r) = r
      behind ep e f (inl (x, g, t)) =
          absurd (true≢false (sym t ∙ ap eligible (some-injective x ep (sym g ∙ e)) ∙ f))

      settled :
          (ep : Endpoint)
          → get_elem? eps a ≡ some ep
          → IsFound (if eligible ep then done (some (pos a)) else rest)
      settled ep e = elim (Bool-cases (eligible ep)) [
        | inl f ↦ subst IsFound (sym (if_true (done (some (pos a))) rest f)) tt
        | inr f ↦ subst IsFound (sym (if_false (done (some (pos a))) rest f)) (behind ep e f q)
      ]

  probe_from-IsFound :
      (s i k j : ℕ)
      → i ≤ j
      → j < i + k
      → IsEligible eps ((s + j) % length eps)
      → IsFound (probe_from eps (pos s) i k)
  unfolding probe_from
  probe_from-IsFound s i zero j h b q = absurd (omega arith)
  probe_from-IsFound s i (suc k) j h b q =
      subst (λ t. IsFound (probe_member (member_at eps t) t (probe_from eps (pos s) (suc i) k)))
        (sym (at_pos s i (length eps)))
        (round-IsFound ((s + i) % length eps) (probe_from eps (pos s) (suc i) k)
          (mod-lt (s + i) (omega (arith, lt-get_elem eps ((s + j) % length eps) q.0 q.1)))
          (elim (dec_le j i) [
            | yes e ↦
                inl (subst (λ t. IsEligible eps ((s + t) % length eps)) {x = j} (omega arith) q)
            | no n ↦ inr (probe_from-IsFound s (suc i) k j (omega arith) (omega arith) q)
          ]))

  -- How many steps forwards a member lies.
  abbrev distance : ℕ → ℕ → ℕ
  distance s m = if leb s m then m - s else m + length eps - s

  distance_lem :
      (s m : ℕ)
      → s < length eps
      → m < length eps
      → (distance s m < length eps) × ((s + distance s m) % length eps ≡ m)
  distance_lem s m hs hm =
      (ground arith, mod-step (length eps) s (distance s m) hs (ground arith) ∙ ground arith)

  counted-IsFound :
      (r : Route) (n : ℕ) (o : Run (Option ℤ)) → IsFound o → IsFound (found_by (counted r n o))
  unfolding counted
  counted-IsFound r n (done (some i)) h = tt
  counted-IsFound r n (done none) h = h
  counted-IsFound r n panic h = h

  pick_rr-IsFound :
      (r : Route) (m : ℕ) → IsEligible eps m → r.count < 2 ^ 63 → IsFound (found_by (pick_rr eps r))
  unfolding pick_rr
  pick_rr-IsFound r m q b = counted-IsFound r (rr_next r.count (length eps)).0 _ (
      subst (λ t. IsFound (probe_from eps t 0 (length eps)))
        (sym (rr_next-pos r.count (length eps) (omega (arith, inside)) b))
        (probe_from-IsFound s 0 (length eps) (distance s m) (omega arith) (omega (arith, way.0))
          (subst (IsEligible eps) (sym way.1) q)))
    where
      s : ℕ
      s = r.count % length eps

      inside : m < length eps
      inside = lt-get_elem eps m q.0 q.1

      way : (distance s m < length eps) × ((s + distance s m) % length eps ≡ m)
      way = distance_lem s m (mod-lt r.count (omega (arith, inside))) inside

  or_round_robin-IsFound :
      (r : Route) (found : Option ℕ) (m : ℕ)
      → IsEligible eps m
      → r.count < 2 ^ 63
      → IsFound (found_by (or_round_robin eps r found))
  unfolding or_round_robin
  or_round_robin-IsFound r (some i) m q b = tt
  or_round_robin-IsFound r none m q b = pick_rr-IsFound r m q b

-- Where some member may be picked, `Pick` returns one and does not panic, whatever the algorithm and
-- the weighted counters, as long as the round-robin counter is below 2^63.
pub pick_among-IsFound :
    (eps : List Endpoint) (r : Route) (m : ℕ)
    → IsEligible eps m
    → r.count < 2 ^ 63
    → IsFound (found_by (pick_among eps r))
unfolding pick_among pick_weighted
pick_among-IsFound [] r m q b = ground arith
pick_among-IsFound (ep ∷ eps) r m q b = elim (Bool-cases (is_swrr r.algo)) [
  | inl e ↦ rw e (
      or_round_robin-IsFound (ep ∷ eps) (record r { current = (pick_swrr (ep ∷ eps) r.current).0 })
        (pick_swrr (ep ∷ eps) r.current).1 m q b)
  | inr e ↦ rw e (pick_rr-IsFound (ep ∷ eps) r m q b)
]
