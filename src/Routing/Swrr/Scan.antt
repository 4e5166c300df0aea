-- ===== src/Routing/Swrr/Scan.antt =====
-- One pass of the loop, with the counters written out: after `m` picks the counter of a member of
-- weight `w` that was picked `k` times is `m * w` less `k` times the total weight.
use mini_envoy.Base.{ℕ, suc, ◌+◌, ◌*◌, ◌<◌, ◌≤◌, ◌^◌, ◌≡◌, inl, inr, refl, sym, ap, ap₂, ◌∙◌}
use mini_envoy.Base.{arith, true, false, List, [], ◌∷◌, length, leb}
use mini_envoy.Base.{if◌then◌else◌, Bool-cases}
use mini_envoy.Base.Int.{ℤ, pos, negsuc, sub_ℕ, ◌+ℤ◌, int64, int64-sub_ℕ}
use mini_envoy.Upstream.Endpoint.{Endpoint, eligible, at_least_one}
use mini_envoy.Routing.Swrr.{int_add, Best, better, scan}

abbrev pub weight_of : ℤ → ℕ
weight_of (pos n) = if leb n 0 then 1 else n
weight_of (negsuc _) = 1

-- The weight of an endpoint that may be picked; the others have none.
unfoldable pub share : Endpoint → ℕ
share ep = if eligible ep then weight_of ep.weight else 0

unfoldable pub shares : List Endpoint → List ℕ
shares [] = []
shares (ep ∷ eps) = share ep ∷ shares eps

unfoldable pub sum : List ℕ → ℕ
sum [] = 0
sum (x ∷ xs) = x + sum xs

at_least_one_lem : (w : ℤ) → (at_least_one w ≡ pos (weight_of w)) × (0 < weight_of w)
at_least_one_lem (pos n) = ground arith
at_least_one_lem (negsuc n) = ground arith

pub share-eligible :
    (ep : Endpoint)
    → eligible ep ≡ true
    → (at_least_one ep.weight ≡ pos (share ep)) × (0 < share ep)
unfolding share
share-eligible ep h = rw h (at_least_one_lem ep.weight)

pub share_ineligible : (ep : Endpoint) → eligible ep ≡ false → share ep ≡ 0
unfolding share
share_ineligible ep h = rw h

pos_sum : (a b : ℕ) → pos a +ℤ pos b ≡ sub_ℕ (a + b) 0
unfolding ◌+ℤ◌
pos_sum a b = ground arith

pos_add : (a b : ℕ) → a + b < 2 ^ 63 → int_add (pos a) (pos b) ≡ pos (a + b)
pos_add a b h = ap int64 (pos_sum a b) ∙ int64-sub_ℕ (a + b) 0 h (omega arith) ∙ ground arith

module _ (total : ℕ) where
  -- The counters after `m` picks.
  unfoldable pub tally : ℕ → List ℕ → List ℕ → List ℤ
  tally m [] ks = []
  tally m (w ∷ ws) [] = []
  tally m (w ∷ ws) (k ∷ ks) = sub_ℕ (m * w) (total * k) ∷ tally m ws ks

  sum_lem : (a b w : ℕ) → sub_ℕ a b +ℤ pos w ≡ sub_ℕ (a + w) b
  unfolding ◌+ℤ◌
  sum_lem a b w = ground arith

  raise :
      (a b w : ℕ) → a + w < 2 ^ 63 → b ≤ a + 2 ^ 63 → int_add (sub_ℕ a b) (pos w) ≡ sub_ℕ (a + w) b
  raise a b w h l = ap int64 (sum_lem a b w) ∙ int64-sub_ℕ (a + w) b h (omega arith)

  -- No counter has fallen to the total weight below zero.
  abbrev pub Bounded : ℕ → List ℕ → List ℕ → Type 0
  Bounded m [] ks = Unit
  Bounded m (w ∷ ws) [] = Unit
  Bounded m (w ∷ ws) (k ∷ ks) = (total * k < m * w + total) × Bounded m ws ks

  ineligible : (m : ℕ) (ep : Endpoint) → eligible ep ≡ false → m * share ep ≡ 0
  ineligible m ep e = ap (λ t. m * t) (share_ineligible ep e) ∙ omega arith

  -- The loop raises every counter by the member's weight.
  pub scan-tally :
      (m : ℕ) (eps : List Endpoint) (ks : List ℕ) (i : ℕ) (t : ℤ) (best : Best)
      → length ks ≡ length eps
      → total ≤ 2 ^ 62
      → suc m * sum (shares eps) < 2 ^ 63
      → Bounded m (shares eps) ks
      → (scan eps (tally m (shares eps) ks) i t best).0 ≡ tally (suc m) (shares eps) ks
  unfolding scan tally shares sum
  scan-tally m [] ks i t best h big low b = refl
  scan-tally m (ep ∷ eps) [] i t best h big low b = absurd (omega arith)
  scan-tally m (ep ∷ eps) (k ∷ ks) i t best h big low (b, bs) = elim (Bool-cases (eligible ep)) [
    | inl e ↦ rw e (
        ap₂ ◌∷◌
          (ap (λ w. int_add c w) (share-eligible ep e).0
            ∙ raise (m * share ep) (total * k) (share ep) (omega arith) (omega arith)
            ∙ ap (λ a. sub_ℕ a (total * k)) (omega arith))
          (scan-tally m eps ks (suc i) (int_add t (at_least_one ep.weight))
            (better i (int_add c (at_least_one ep.weight)) best) (omega arith) big rest bs))
    | inr e ↦ rw e (
        ap₂ ◌∷◌ (ap (λ a. sub_ℕ a (total * k)) (ineligible m ep e ∙ sym (ineligible (suc m) ep e)))
          (scan-tally m eps ks (suc i) t best (omega arith) big rest bs))
  ]
    where
      c : ℤ
      c = sub_ℕ (m * share ep) (total * k)

      rest : suc m * sum (shares eps) < 2 ^ 63
      rest = omega (arith, low)

  pub scan_total :
      (m : ℕ) (eps : List Endpoint) (ks : List ℕ) (i t : ℕ) (best : Best)
      → length ks ≡ length eps
      → t + sum (shares eps) < 2 ^ 63
      → (scan eps (tally m (shares eps) ks) i (pos t) best).1 ≡ pos (t + sum (shares eps))
  unfolding scan tally shares sum
  scan_total m [] ks i t best h low = ap pos (omega arith)
  scan_total m (ep ∷ eps) [] i t best h low = absurd (omega arith)
  scan_total m (ep ∷ eps) (k ∷ ks) i t best h low = elim (Bool-cases (eligible ep)) [
    | inl e ↦ rw e (
        ap
          (λ a.
            (scan eps (tally m (shares eps) ks) (suc i) a (
              better i (int_add (sub_ℕ (m * share ep) (total * k)) (at_least_one ep.weight))
                best)).1)
          (ap (λ w. int_add (pos t) w) (share-eligible ep e).0 ∙ pos_add t (share ep) (omega arith))
        ∙ scan_total m eps ks (suc i) (t + share ep)
            (better i (int_add (sub_ℕ (m * share ep) (total * k)) (at_least_one ep.weight)) best)
            (omega arith) (omega arith)
        ∙ ap pos (omega arith))
    | inr e ↦ rw e (
        scan_total m eps ks (suc i) t best (omega arith) (omega (arith, share_ineligible ep e))
        ∙ ap pos (omega (arith, share_ineligible ep e)))
  ]
