-- ===== src/Buffer/NextPow2/Smeared.antt =====
-- `nextPow2` against the powers of two, bit by bit.
use Prim.Native.Nat.{digits, bit_or-bitwise}
use native.Mathlib.Nat.{pow-suc}
use mini_envoy.Base.{
  ℕ, zero, suc, ◌+◌, ◌-◌, ◌/◌, ◌%◌, ◌^◌, ◌<◌, ◌≤◌, ◌≡◌, ◌⊎◌, inl, inr, refl, ap, ◌∙◌, arith, max,
  bit_or, leb, Bool-cases, true, false, if_false,
}
use mini_envoy.Base.Words.{pow_pos}
use mini_envoy.Buffer.NextPow2.{smear, next_pow2}

-- The digit of a number at a place.
unfoldable bit : ℕ → ℕ → ℕ
bit zero n = n % 2
bit (suc i) n = bit i (n / 2)

bit_le : (i n : ℕ) → bit i n ≤ 1
unfolding bit
bit_le zero n = omega arith
bit_le (suc i) n = bit_le i (n / 2)

bit_zero : (i : ℕ) → bit i 0 ≡ 0
unfolding bit
bit_zero zero = refl
bit_zero (suc i) = bit_zero i

bit-digits :
    (i n a b : ℕ) → a ≤ n → bit i (digits (λ (c : ℕ). c) max n a b) ≡ max (bit i a) (bit i b)
unfolding bit
bit-digits i zero zero b h = omega (arith, bit_zero i)
bit-digits i zero (suc a) b h = elim h [ ]
bit-digits i (suc n) zero b h = omega (arith, bit_zero i)
bit-digits zero (suc n) (suc a) b h = omega arith
bit-digits (suc i) (suc n) (suc a) b h =
    ap (bit i) {y = digits (λ (c : ℕ). c) max n (suc a / 2) (b / 2)} (omega arith)
    ∙ bit-digits i n (suc a / 2) (b / 2) (omega arith)

bit-bit_or : (i a b : ℕ) → bit i (bit_or a b) ≡ max (bit i a) (bit i b)
bit-bit_or i a b = ap (bit i) (bit_or-bitwise a b) ∙ bit-digits i a a b (omega arith)

shift_1 : (i n : ℕ) → bit i (n / 2 ^ 1) ≡ bit (i + 1) n
unfolding bit
shift_1 i n = ap (λ j. bit j n) {x = suc i} {y = i + 1} (omega arith)

shift_2 : (i n : ℕ) → bit i (n / 2 ^ 2) ≡ bit (i + 2) n
shift_2 i n =
    ap (bit i) {y = n / 2 ^ 1 / 2 ^ 1} (omega arith)
    ∙ shift_1 i (n / 2 ^ 1)
    ∙ shift_1 (i + 1) n
    ∙ ap (λ j. bit j n) (omega arith)

shift_4 : (i n : ℕ) → bit i (n / 2 ^ 4) ≡ bit (i + 4) n
shift_4 i n =
    ap (bit i) {y = n / 2 ^ 2 / 2 ^ 2} (omega arith)
    ∙ shift_2 i (n / 2 ^ 2)
    ∙ shift_2 (i + 2) n
    ∙ ap (λ j. bit j n) (omega arith)

shift_8 : (i n : ℕ) → bit i (n / 2 ^ 8) ≡ bit (i + 8) n
shift_8 i n =
    ap (bit i) {y = n / 2 ^ 4 / 2 ^ 4} (omega arith)
    ∙ shift_4 i (n / 2 ^ 4)
    ∙ shift_4 (i + 4) n
    ∙ ap (λ j. bit j n) (omega arith)

shift_16 : (i n : ℕ) → bit i (n / 2 ^ 16) ≡ bit (i + 16) n
shift_16 i n =
    ap (bit i) {y = n / 2 ^ 8 / 2 ^ 8} (omega arith)
    ∙ shift_8 i (n / 2 ^ 8)
    ∙ shift_8 (i + 8) n
    ∙ ap (λ j. bit j n) (omega arith)

-- The highest digit that is not 0 stands at `k`, and it and those below it are ones, `m` of them.
record HasOnes (k m n : ℕ) : Type 0 where
  ones : (i : ℕ) → i ≤ k → k < i + m → bit i n ≡ 1
  zeros : (i : ℕ) → k < i → bit i n ≡ 0

or_shifted-HasOnes :
    (k m n shifted : ℕ)
    → ((i : ℕ) → bit i shifted ≡ bit (i + m) n)
    → HasOnes k m n
    → HasOnes k (m + m) (bit_or n shifted)
or_shifted-HasOnes k m n shifted at h = record {
  ones =
      λ i low high. bit-bit_or i n shifted ∙ by_place i low high (Bool-cases (leb (suc k) (i + m)));
  zeros = λ i high.
      bit-bit_or i n shifted ∙ omega (arith, h.zeros i high, at i, h.zeros (i + m) (omega arith));
}
  where
    by_place :
        (i : ℕ)
        → i ≤ k
        → k < i + (m + m)
        → (leb (suc k) (i + m) ≡ true) ⊎ (leb (suc k) (i + m) ≡ false)
        → max (bit i n) (bit i shifted) ≡ 1
    by_place i low high (inl e) = omega (arith, h.ones i low (ground arith), bit_le i shifted)
    by_place i low high (inr e) =
        omega (arith, at i, h.ones (i + m) (ground arith) (omega arith), bit_le i n)

same_count : (k m m' n : ℕ) → m ≡ m' → HasOnes k m n → HasOnes k m' n
same_count k m m' n e h = record {
  ones = λ i low high. h.ones i low (omega (arith, e));
  zeros = h.zeros;
}

smear-HasOnes : (k n : ℕ) → HasOnes k 1 n → HasOnes k 32 (smear n)
unfolding smear
smear-HasOnes k n h =
    let n1 = bit_or n (n / 2 ^ 1) in
    let n2 = bit_or n1 (n1 / 2 ^ 2) in
    let n4 = bit_or n2 (n2 / 2 ^ 4) in
    let n8 = bit_or n4 (n4 / 2 ^ 8) in
    or_shifted-HasOnes k 16 n8 (n8 / 2 ^ 16) (λ i. shift_16 i n8)
      (or_shifted-HasOnes k 8 n4 (n4 / 2 ^ 8) (λ i. shift_8 i n4)
        (or_shifted-HasOnes k 4 n2 (n2 / 2 ^ 4) (λ i. shift_4 i n2)
          (or_shifted-HasOnes k 2 n1 (n1 / 2 ^ 2) (λ i. shift_2 i n1)
            (or_shifted-HasOnes k 1 n (n / 2 ^ 1) (λ i. shift_1 i n) h))))

-- A number all of whose digits below a place are ones, and none else.
all_ones :
    (c fuel n : ℕ)
    → n ≤ fuel
    → ((i : ℕ) → i < c → bit i n ≡ 1)
    → ((i : ℕ) → c ≤ i → bit i n ≡ 0)
    → n + 1 ≡ 2 ^ c
unfolding bit
all_ones zero zero n h ones zeros = omega arith
all_ones zero (suc fuel) n h ones zeros = omega (
  arith,
  zeros 0 (omega arith),
  all_ones zero fuel (n / 2) (omega arith) (λ i p. elim p [ ]) (λ i p. zeros (suc i) (omega arith)),
)
all_ones (suc c) fuel n h ones zeros = omega (
  arith,
  ones 0 (omega arith),
  pow-suc 2 c,
  all_ones c (n / 2) (n / 2) (omega arith) (λ i p. ones (suc i) (omega arith))
      (λ i p. zeros (suc i) (omega arith)),
)

high_zero : (c i n : ℕ) → n < 2 ^ c → c ≤ i → bit i n ≡ 0
unfolding bit
high_zero zero i n h p = ap (bit i) {y = 0} (omega arith) ∙ bit_zero i
high_zero (suc c) zero n h p = elim p [ ]
high_zero (suc c) (suc i) n h p = high_zero c i (n / 2) (omega (arith, pow-suc 2 c)) (omega arith)

top_one : (k n : ℕ) → 2 ^ k ≤ n → n < 2 ^ (suc k) → bit k n ≡ 1
unfolding bit
top_one zero n low high = omega arith
top_one (suc k) n low high =
    top_one k (n / 2) (omega (arith, pow-suc 2 k)) (omega (arith, pow-suc 2 k, pow-suc 2 (suc k)))

-- `nextPow2` gives the least power of two that is at least the number, for numbers above 1 and up to
-- 2^32.
pub next_pow2-least : (k n : ℕ) → 2 ^ k < n → n ≤ 2 ^ (suc k) → k < 32 → next_pow2 n ≡ 2 ^ (suc k)
unfolding next_pow2
next_pow2-least k n low high small =
    if_false {b = leb n 1} _ _ (ground (arith, pow_pos k))
    ∙ all_ones (suc k) (smear (n - 1)) (smear (n - 1)) (omega arith)
        (λ i p. smeared.ones i (omega arith) (omega arith)) (λ i p. smeared.zeros i (omega arith))
  where
    smeared : HasOnes k 32 (smear (n - 1))
    smeared = smear-HasOnes k (n - 1) (record {
      ones = λ i p q.
          ap (λ j. bit j (n - 1)) {y = k} (omega arith)
          ∙ top_one k (n - 1) (omega arith) (omega arith);
      zeros = λ i p. high_zero (suc k) i (n - 1) (omega arith) (omega arith);
    })
