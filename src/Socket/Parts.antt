-- ===== src/Socket/Parts.antt =====
-- The state of the loop of `ParseIPv4` within a part, and how a part ends.
use mini_envoy.Base.{
  ℕ, zero, suc, ◌+◌, ◌-◌, ◌*◌, ◌^◌, ◌<◌, ◌≤◌, ◌≡◌, inl, inr, refl, sym, ap, ap₂, ◌∙◌, arith, ◌⊎◌,
}
use mini_envoy.Base.{List, [], ◌∷◌, ◌++◌, length, replicate, set, none, some}
use mini_envoy.Base.{
  Bool, true, false, not, ◌&&◌, ◌||◌, ltb, leb, ◌==◌, ==_iff, if_true, if_false, Bool-cases,
}
use mini_envoy.Base.Int.{pos, ltb_ℤ, signed64}
use mini_envoy.Socket.{dot, Scan, bad_part, not_digit}
use mini_envoy.Socket.Dotted.{is_nil, digits, value_from, octet}

-- 10 to the power `k`
unfoldable pub limit : ℕ → ℕ
limit zero = 1
limit (suc k) = limit k * 10

limit_le : (j k : ℕ) → k ≤ j → limit k ≤ limit j
unfolding limit
limit_le zero k h = ap_limit k h
  where
    ap_limit : (k : ℕ) → k ≤ 0 → limit k ≤ 1
    ap_limit zero h = omega arith
    ap_limit (suc k) h = elim h [ ]
limit_le (suc j) k h = elim (Bool-cases (k == suc j)) [
  | inl e ↦ omega (arith, ap limit ((==_iff k (suc j)).0 e))
  | inr e ↦ omega (arith, limit_le j k (ground arith))
]

pub value_from-append :
    (n : ℕ) (g : List ℕ) (c : ℕ) → value_from n (g ++ (c ∷ [])) ≡ value_from n g * 10 + (c - 48)
unfolding value_from
value_from-append n [] c = refl
value_from-append n (d ∷ g) c = value_from-append (n * 10 + (d - 48)) g c

pub digits-append : (g h : List ℕ) → digits (g ++ h) ≡ (digits g && digits h)
unfolding digits
digits-append [] h = refl
digits-append (c ∷ g) h = elim (Bool-cases (not (not_digit c))) [
  | inl e ↦
      ap (λ b. b && digits (g ++ h)) e
      ∙ digits-append g h
      ∙ ap (λ b. (b && digits g) && digits h) (sym e)
  | inr e ↦ ap (λ b. b && digits (g ++ h)) e ∙ ap (λ b. (b && digits g) && digits h) (sym e)
]

pub set-fill :
    (done : List ℕ) (k v : ℕ)
    → set (done ++ replicate (suc k) 0) (length done) v ≡ (done ++ (v ∷ [])) ++ replicate k 0
set-fill [] k v = refl
set-fill (x ∷ done) k v = ap (◌∷◌ x) (set-fill done k v)

-- The state of the loop after the numbers `done`, with the digits `g` of the next one read.
abbrev pub state : List ℕ → List ℕ → ℕ → Scan
state done g b = record {
  out = done ++ replicate (4 - length done) 0;
  part = length done;
  n = value_from 0 g;
  before = b;
}

-- What is known of the digits read: how many may follow, and that the int did not overflow.
pub record IsPart (g cs : List ℕ) (b : ℕ) : Type 0 where
  pub ends : (b == dot) ≡ is_nil g
  pub digit : digits g ≡ true
  pub short : length g + length cs ≤ 18
  pub small : value_from 0 g < limit (length g)

pub limit_18 : (k : ℕ) → k ≤ 18 → limit k ≤ 10 ^ 18
unfolding limit
limit_18 k h = omega (arith, limit_le 18 k h)

word : (n : ℕ) → n < 10 ^ 18 → ltb_ℤ (pos 255) (signed64 n) ≡ ltb 255 n
unfolding signed64
word n h = ap (ltb_ℤ (pos 255)) (if_true {b = ltb n (2 ^ 63)} _ _ (ground arith)) ∙ plain
  where
    plain : ltb (255 + 0) (n + 0) ≡ ltb 255 n
    plain = ap (ltb 255) (omega arith)

and_false : (a b c : Bool) → c ≡ false → (a && (b && c)) ≡ false
and_false false b c h = refl
and_false true false c h = refl
and_false true true c h = h

-- A part that ends: either it may, or it makes no address.
pub data Ended (done g : List ℕ) (b : ℕ) : Type 0 where
  good :
      bad_part (state done g b) ≡ false
      → length done ≤ 3
      → value_from 0 g ≤ 255
      → octet g ≡ some (value_from 0 g)
      → Ended done g b
  empty_or_large : bad_part (state done g b) ≡ true → octet g ≡ none → Ended done g b
  fifth : bad_part (state done g b) ≡ true → 4 ≤ length done → Ended done g b

pub ended : (done g cs : List ℕ) (b : ℕ) → IsPart g cs b → Ended done g b
unfolding bad_part octet
ended done g cs b p =
    by_tests (Bool-cases (ltb 255 (value_from 0 g))) (Bool-cases (ltb 3 (length done)))
      (Bool-cases (is_nil g))
  where
    fits : value_from 0 g < 10 ^ 18
    fits = omega (arith, p.small, limit_18 (length g) (omega (arith, p.short)))

    tested :
        bad_part (state done g b) ≡ (ltb 255 (value_from 0 g) || ltb 3 (length done) || is_nil g)
    tested = ap₂ (λ x y. x || ltb 3 (length done) || y) (word (value_from 0 g) fits) p.ends

    by_tests :
        (ltb 255 (value_from 0 g) ≡ true) ⊎ (ltb 255 (value_from 0 g) ≡ false)
        → (ltb 3 (length done) ≡ true) ⊎ (ltb 3 (length done) ≡ false)
        → (is_nil g ≡ true) ⊎ (is_nil g ≡ false)
        → Ended done g b
    by_tests (inl large) y z =
        empty_or_large (tested ∙ ap (λ x. x || ltb 3 (length done) || is_nil g) large) (
          if_false _ _
            (and_false (not (is_nil g)) (digits g) (leb (value_from 0 g) 255) (ground arith)))
    by_tests (inr x) (inl many) z =
        fifth (tested ∙ ap₂ (λ u v. u || v || is_nil g) x many) (ground arith)
    by_tests (inr x) (inr y) (inl nil) =
        empty_or_large (tested ∙ ap₂ (λ u v. u || v || is_nil g) x y ∙ nil)
          (if_false _ _ (ap (λ u. not u && (digits g && leb (value_from 0 g) 255)) nil))
    by_tests (inr x) (inr y) (inr z) =
        let in_range : leb (value_from 0 g) 255 ≡ true = ground arith in
        good (tested ∙ ap₂ (λ u v. u || v || is_nil g) x y ∙ z) (ground arith) (ground arith)
          (if_true _ _ (ap₂ (λ u v. not u && (v && leb (value_from 0 g) 255)) z p.digit ∙ in_range))
