-- ===== src/Routing/Swrr/Counts.antt =====
-- The counters of members that were picked so often, and how far they can be from zero.
use mini_envoy.Base.{
  ℕ, zero, suc, ◌+◌, ◌-◌, ◌*◌, ◌^◌, ◌<◌, ◌≤◌, ◌≡◌, ◌⊎◌, inl, inr, refl, sym, ap, ap₂, ◌∙◌,
}
use mini_envoy.Base.{
  arith, leb→le, Bool, true, false, List, [], ◌∷◌, length, leb, Bool-cases, if◌then◌else◌, ◌==◌,
}
use mini_envoy.Base.{some, replicate, get_or, get_elem?}
use mathlib.Core.Path.{subst}
use mathlib.Core.Option.{some-injective}
use mini_envoy.Base.Int.{ℤ, pos, sub_ℕ, ◌-ℤ◌, pos_part, int64, int64-sub_ℕ}
use mini_envoy.Upstream.Endpoint.{Endpoint, eligible}
use mini_envoy.Routing.Swrr.{lower, zeros}
use mini_envoy.Routing.Swrr.Scan.{share, shares, sum, share_ineligible, tally, Bounded}
use mini_envoy.Routing.Swrr.Best.{AnyUp}

-- The counts with one more at an index.
unfoldable pub bump : List ℕ → ℕ → List ℕ
bump [] i = []
bump (k ∷ ks) zero = suc k ∷ ks
bump (k ∷ ks) (suc i) = k ∷ bump ks i

pub length-bump : (ks : List ℕ) (i : ℕ) → length (bump ks i) ≡ length ks
unfolding bump
length-bump [] i = refl
length-bump (k ∷ ks) zero = refl
length-bump (k ∷ ks) (suc i) = ap suc (length-bump ks i)

difference : (a b t : ℕ) → sub_ℕ a b -ℤ pos t ≡ sub_ℕ a (b + t)
unfolding ◌-ℤ◌
difference a b t = ground arith

module _ (total : ℕ) where
  pub raise-Bounded : (m : ℕ) (ws ks : List ℕ) → Bounded total m ws ks → Bounded total (suc m) ws ks
  raise-Bounded m [] ks b = tt
  raise-Bounded m (w ∷ ws) [] b = tt
  raise-Bounded m (w ∷ ws) (k ∷ ks) (b, bs) = (omega arith, raise-Bounded m ws ks bs)

  pub lower-tally :
      (m : ℕ) (ws ks : List ℕ) (i : ℕ)
      → length ks ≡ length ws
      → total ≤ 2 ^ 62
      → m * sum ws < 2 ^ 63
      → Bounded total m ws ks
      → lower (tally total m ws ks) i (pos total) ≡ tally total m ws (bump ks i)
  unfolding lower tally bump sum
  lower-tally m [] ks i h big low bs = refl
  lower-tally m (w ∷ ws) [] i h big low bs = absurd (omega arith)
  lower-tally m (w ∷ ws) (k ∷ ks) zero h big low (b, bs) =
      ap (λ c. c ∷ tally total m ws ks)
        (ap int64 (difference (m * w) (total * k) total)
          ∙ int64-sub_ℕ (m * w) (total * k + total) (omega arith) (omega arith)
          ∙ ap (sub_ℕ (m * w)) (omega arith))
  lower-tally m (w ∷ ws) (k ∷ ks) (suc i) h big low (b, bs) =
      ap (◌∷◌ (sub_ℕ (m * w) (total * k)))
        (lower-tally m ws ks i (omega arith) big (omega arith) bs)

  -- Where the counters add up to more than nothing, one is above zero.
  pub tally-AnyUp :
      (m : ℕ) (eps : List Endpoint) (ks : List ℕ)
      → length ks ≡ length eps
      → (m * sum (shares eps) ≤ total * sum ks) ⊎ AnyUp eps (tally total m (shares eps) ks)
  unfolding tally shares sum
  tally-AnyUp m [] ks h = inl (omega arith)
  tally-AnyUp m (ep ∷ eps) [] h = absurd (omega arith)
  tally-AnyUp m (ep ∷ eps) (k ∷ ks) h =
      by_state (eligible ep) refl (tally-AnyUp m eps ks (omega arith))
    where
      Goal : Type 0
      Goal =
          (m * (share ep + sum (shares eps)) ≤ total * (k + sum ks))
          ⊎ (((eligible ep ≡ true) × (0 < pos_part (sub_ℕ (m * share ep) (total * k))))
              ⊎ AnyUp eps (tally total m (shares eps) ks))

      by_size :
          (b : Bool)
          → leb (m * share ep) (total * k) ≡ b
          → eligible ep ≡ true
          → (m * sum (shares eps) ≤ total * sum ks)
          → Goal
      by_size true le e h = inl (grind arith)
      by_size false le e h = inr (inl (e, ground arith))

      by_state :
          (b : Bool)
          → eligible ep ≡ b
          → (m * sum (shares eps) ≤ total * sum ks) ⊎ AnyUp eps (tally total m (shares eps) ks)
          → Goal
      by_state b e (inr q) = inr (inr q)
      by_state true e (inl q) = by_size (leb (m * share ep) (total * k)) refl e q
      by_state false e (inl q) = inl (
          let z : m * share ep ≡ 0 = ap (λ t. m * t) (share_ineligible ep e) ∙ omega arith in
          omega arith)

  pub bump-Bounded :
      (m : ℕ) (ws ks : List ℕ) (i : ℕ) (c : ℤ)
      → get_elem? (tally total (suc m) ws ks) i ≡ some c
      → 0 < pos_part c
      → Bounded total m ws ks
      → Bounded total (suc m) ws (bump ks i)
  unfolding tally bump
  bump-Bounded m [] ks i c at up b = tt
  bump-Bounded m (w ∷ ws) [] i c at up b = tt
  bump-Bounded m (w ∷ ws) (k ∷ ks) zero c at up (b, bs) =
      (step (some-injective (sub_ℕ (suc m * w) (total * k)) c at), raise-Bounded m ws ks bs)
    where
      step : sub_ℕ (suc m * w) (total * k) ≡ c → total * suc k < suc m * w + total
      step e =
          let raised : 0 < pos_part (sub_ℕ (suc m * w) (total * k)) =
            subst (λ x. 0 < pos_part x) (sym e) up in
          ground arith
  bump-Bounded m (w ∷ ws) (k ∷ ks) (suc i) c at up (b, bs) =
      (omega arith, bump-Bounded m ws ks i c at up bs)

  pub sum-bump : (ks : List ℕ) (i : ℕ) → i < length ks → sum (bump ks i) ≡ suc (sum ks)
  unfolding sum bump
  sum-bump [] i h = absurd (omega arith)
  sum-bump (k ∷ ks) zero h = omega arith
  sum-bump (k ∷ ks) (suc i) h = omega (arith, sum-bump ks i (omega arith))

pub length-shares : (eps : List Endpoint) → length (shares eps) ≡ length eps
unfolding shares
length-shares [] = refl
length-shares (ep ∷ eps) = ap suc (length-shares eps)

pub length-tally :
    (total m : ℕ) (ws ks : List ℕ)
    → length ks ≡ length ws
    → length (tally total m ws ks) ≡ length ws
unfolding tally
length-tally total m [] ks h = refl
length-tally total m (w ∷ ws) [] h = absurd (omega arith)
length-tally total m (w ∷ ws) (k ∷ ks) h = ap suc (length-tally total m ws ks (omega arith))

pub tally-lt :
    (total m : ℕ) (ws ks : List ℕ) (i : ℕ) (v : ℤ)
    → get_elem? (tally total m ws ks) i ≡ some v
    → i < length ks
unfolding tally
tally-lt total m [] ks i v q = ground arith
tally-lt total m (w ∷ ws) [] i v q = ground arith
tally-lt total m (w ∷ ws) (k ∷ ks) zero v q = omega arith
tally-lt total m (w ∷ ws) (k ∷ ks) (suc i) v q = omega (arith, tally-lt total m ws ks i v q)

pub get_or-bump :
    (ks : List ℕ) (j i : ℕ)
    → j < length ks
    → get_or (bump ks j) i 0 ≡ (if j == i then suc (get_or ks i 0) else get_or ks i 0)
unfolding bump
get_or-bump [] j i h = absurd (omega arith)
get_or-bump (k ∷ ks) zero zero h = refl
get_or-bump (k ∷ ks) zero (suc i) h = ground arith
get_or-bump (k ∷ ks) (suc j) zero h = ground arith
get_or-bump (k ∷ ks) (suc j) (suc i) h = ground (arith, get_or-bump ks j i (omega arith))

pub at_most : (total k w : ℕ) → total * k < total * w + total → k ≤ w
at_most total k w h = elim (Bool-cases (leb k w)) [
  | inl e ↦ leb→le k w e
  | inr e ↦
      let d : ℕ = k - suc w in
      let more : total * k ≡ total * w + total + total * d =
        ap (λ t. total * t) {y = suc w + d} (ground arith) ∙ omega arith in
      absurd (omega arith)
]

-- Counts within their bounds that add up to the weights are the weights.
pub counts_eq :
    (total : ℕ) (ws ks : List ℕ)
    → length ks ≡ length ws
    → Bounded total total ws ks
    → (sum ks ≤ sum ws) × (sum ks ≡ sum ws → ks ≡ ws)
unfolding sum
counts_eq total [] [] h b = (omega arith, λ e. refl)
counts_eq total [] (k ∷ ks) h b = absurd (omega arith)
counts_eq total (w ∷ ws) [] h b = absurd (omega arith)
counts_eq total (w ∷ ws) (k ∷ ks) h (b, bs) =
    let le = at_most total k w b in
    let rest = counts_eq total ws ks (omega arith) bs in
    (omega (arith, rest.0), λ e. ap₂ ◌∷◌ (omega (arith, rest.0)) (rest.1 (omega (arith, rest.0))))

pub tally_even : (total : ℕ) (ws : List ℕ) → tally total total ws ws ≡ zeros (length ws)
unfolding tally
tally_even total [] = refl
tally_even total (w ∷ ws) = ap₂ ◌∷◌ (ground arith) (tally_even total ws)

pub tally_zero :
    (total : ℕ) (ws : List ℕ) → tally total 0 ws (replicate (length ws) 0) ≡ zeros (length ws)
unfolding tally
tally_zero total [] = refl
tally_zero total (w ∷ ws) = ap₂ ◌∷◌ (ground arith) (tally_zero total ws)

pub sum-zeros : (n : ℕ) → sum (replicate n 0) ≡ 0
unfolding sum
sum-zeros zero = refl
sum-zeros (suc n) = omega (arith, sum-zeros n)

pub get_or-zeros : (n i : ℕ) → ◌≡◌ {A = ℕ} (get_or (replicate n 0) i 0) 0
get_or-zeros zero i = refl
get_or-zeros (suc n) zero = refl
get_or-zeros (suc n) (suc i) = get_or-zeros n i
