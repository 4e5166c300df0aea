-- ===== src/Routing/Swrr/Best.antt =====
-- The choice of the loop: its value is the counter at its index, and above zero where some counter is.
use mini_envoy.Base.{ℕ, suc, ◌+◌, ◌<◌, ◌≡◌, ◌⊎◌, inl, inr, refl, sym, ◌∙◌}
use mini_envoy.Base.{arith, Bool, true, false, List, [], ◌∷◌, Bool-cases, if◌then◌else◌}
use mini_envoy.Base.{none, some, get_elem?}
use mathlib.Core.Path.{subst}
use mathlib.Core.Bool.{true≢false}
use mini_envoy.Base.Int.{ℤ, ltb_ℤ, pos_part}
use mini_envoy.Upstream.Endpoint.{Endpoint, eligible, at_least_one}
use mini_envoy.Routing.Swrr.{int_add, Best, better, scan}

-- A property of the choice, where there is one.
abbrev pub Chosen : (ℕ → ℤ → Type 0) → Best → Type 0
Chosen P none = Unit
Chosen P (some (i, v)) = P i v

pub better-Chosen :
    (P : ℕ → ℤ → Type 0) (i : ℕ) (c : ℤ) (best : Best)
    → P i c
    → Chosen P best
    → Chosen P (better i c best)
unfolding better
better-Chosen P i c none p h = p
better-Chosen P i c (some (j, v)) p h = elim (Bool-cases (ltb_ℤ v c)) [
  | inl e ↦ rw e p
  | inr e ↦ rw e h
]

-- The value of the choice is the counter at its index.
pub scan-Chosen :
    (P : ℕ → ℤ → Type 0) (eps : List Endpoint) (cs : List ℤ) (i : ℕ) (t : ℤ) (best : Best)
    → ((d : ℕ) (c : ℤ) → get_elem? (scan eps cs i t best).0 d ≡ some c → P (i + d) c)
    → Chosen P best
    → Chosen P (scan eps cs i t best).2
unfolding scan
scan-Chosen P [] cs i t best f h = h
scan-Chosen P (ep ∷ eps) [] i t best f h = h
scan-Chosen P (ep ∷ eps) (c ∷ cs) i t best f h =
    by_state (eligible ep) (scan-Chosen P eps cs (suc i)) f
  where
    w : ℤ
    w = at_least_one ep.weight

    taken : List ℤ × ℤ × Best
    taken = scan eps cs (suc i) (int_add t w) (better i (int_add c w) best)

    skipped : List ℤ × ℤ × Best
    skipped = scan eps cs (suc i) t best

    after : Bool → List ℤ × ℤ × Best
    after b =
        if b
        then ((int_add c w) ∷ taken.0, taken.1, taken.2)
        else (c ∷ skipped.0, skipped.1, skipped.2)

    by_state :
        (b : Bool)
        → ((t : ℤ) (best : Best)
            → ((d : ℕ) (x : ℤ)
                → get_elem? (scan eps cs (suc i) t best).0 d ≡ some x
                → P (suc i + d) x)
            → Chosen P best
            → Chosen P (scan eps cs (suc i) t best).2)
        → ((d : ℕ) (x : ℤ) → get_elem? (after b).0 d ≡ some x → P (i + d) x)
        → Chosen P (after b).2
    by_state true rest f =
        rest (int_add t w) (better i (int_add c w) best)
          (λ d x q. subst (λ n. P n x) {x = i + suc d} (omega arith) (f (suc d) x q))
          (better-Chosen P i (int_add c w) best
            (subst (λ n. P n (int_add c w)) {x = i + 0} (omega arith) (f 0 (int_add c w) refl)) h)
    by_state false rest f =
        rest t best (λ d x q. subst (λ n. P n x) {x = i + suc d} (omega arith) (f (suc d) x q)) h

-- The choice has a counter above zero.
abbrev pub IsUp : Best → Type 0
IsUp none = ⊥
IsUp (some (i, v)) = 0 < pos_part v

-- Some member that may be picked has a counter above zero.
abbrev pub AnyUp : List Endpoint → List ℤ → Type 0
AnyUp [] cs = ⊥
AnyUp (ep ∷ eps) [] = ⊥
AnyUp (ep ∷ eps) (c ∷ cs) = ((eligible ep ≡ true) × (0 < pos_part c)) ⊎ AnyUp eps cs

pub better-IsUp :
    (i : ℕ) (c : ℤ) (best : Best) → (0 < pos_part c) ⊎ IsUp best → IsUp (better i c best)
unfolding better
better-IsUp i c none h = ground arith
better-IsUp i c (some (j, v)) h = by_test (ltb_ℤ v c) refl
  where
    by_test : (b : Bool) → ltb_ℤ v c ≡ b → IsUp (if b then some (i, c) else some (j, v))
    by_test true e = ground arith
    by_test false e = ground arith

pub scan-IsUp :
    (eps : List Endpoint) (cs : List ℤ) (i : ℕ) (t : ℤ) (best : Best)
    → AnyUp eps (scan eps cs i t best).0 ⊎ IsUp best
    → IsUp (scan eps cs i t best).2
unfolding scan
scan-IsUp [] cs i t best (inl h) = absurd h
scan-IsUp [] cs i t best (inr h) = h
scan-IsUp (ep ∷ eps) [] i t best (inl h) = absurd h
scan-IsUp (ep ∷ eps) [] i t best (inr h) = h
scan-IsUp (ep ∷ eps) (c ∷ cs) i t best h = by_state (eligible ep) refl (scan-IsUp eps cs (suc i)) h
  where
    w : ℤ
    w = at_least_one ep.weight

    taken : List ℤ × ℤ × Best
    taken = scan eps cs (suc i) (int_add t w) (better i (int_add c w) best)

    skipped : List ℤ × ℤ × Best
    skipped = scan eps cs (suc i) t best

    after : Bool → List ℤ × ℤ × Best
    after b =
        if b
        then ((int_add c w) ∷ taken.0, taken.1, taken.2)
        else (c ∷ skipped.0, skipped.1, skipped.2)

    by_state :
        (b : Bool)
        → eligible ep ≡ b
        → ((t : ℤ) (best : Best)
            → AnyUp eps (scan eps cs (suc i) t best).0 ⊎ IsUp best
            → IsUp (scan eps cs (suc i) t best).2)
        → AnyUp (ep ∷ eps) (after b).0 ⊎ IsUp best
        → IsUp (after b).2
    by_state true e rest (inl (inl q)) = rest _ _ (inr (better-IsUp i (int_add c w) best (inl q.1)))
    by_state true e rest (inl (inr q)) = rest _ _ (inl q)
    by_state true e rest (inr q) = rest _ _ (inr (better-IsUp i (int_add c w) best (inr q)))
    by_state false e rest (inl (inl q)) = absurd (true≢false (sym q.0 ∙ e))
    by_state false e rest (inl (inr q)) = rest _ _ (inl q)
    by_state false e rest (inr q) = rest _ _ (inr q)
