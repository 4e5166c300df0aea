-- ===== src/Buffer/Ring/Round.antt =====
-- A run of bytes that goes round the end of a buffer, and the slices and writes that make it up.
use native.Mathlib.Nat.{mod-add-mod, mod-mod, mod-eq_of_lt, mod_self}
use mini_envoy.Base.{
  ℕ, zero, suc, ◌+◌, ◌-◌, ◌%◌, ◌≤◌, ◌<◌, ◌≡◌, refl, sym, ap, ap₂, ◌∙◌, ◌⊎◌, inl, inr,
}
use mini_envoy.Base.{arith, List, [], ◌∷◌, ◌++◌, length, get_or, set, take, drop}
use mini_envoy.Base.{get_or-set_self, get_or-set_ne, length-set}
use mini_envoy.Base.{get_or-take, get_or-drop, length-take, length-drop}
use mini_envoy.Buffer.Ring.{write_at}

-- `n` bytes from index `i` on, where the index past the end is the first one again
unfoldable pub around : List ℕ → ℕ → ℕ → List ℕ
around b i zero = []
around b i (suc n) = get_or b (i % length b) 0 ∷ around b (i + 1) n

pub length-around : (b : List ℕ) (i n : ℕ) → length (around b i n) ≡ n
unfolding around
length-around b i zero = refl
length-around b i (suc n) = ap suc (length-around b (i + 1) n)

pub around-add : (b : List ℕ) (i m n : ℕ) → around b i (m + n) ≡ around b i m ++ around b (i + m) n
unfolding around
around-add b i zero n = ap₂ (around b) (omega arith) (omega arith)
around-add b i (suc m) n =
    ap (around b i) {x = suc m + n} {y = suc (m + n)} (omega arith)
    ∙ ap (◌∷◌ (get_or b (i % length b) 0))
        (around-add b (i + 1) m n ∙ ap (λ t. around b (i + 1) m ++ around b t n) (omega arith))

pub around-mod : (b : List ℕ) (i n : ℕ) → around b (i % length b) n ≡ around b i n
unfolding around
around-mod b i zero = refl
around-mod b i (suc n) = ap₂ ◌∷◌ (ap (λ t. get_or b t 0) (mod-mod i (length b))) (
    sym (around-mod b (i % length b + 1) n)
    ∙ ap (λ t. around b t n) (mod-add-mod i (length b) 1)
    ∙ around-mod b (i + 1) n)

pub get_or-around :
    (b : List ℕ) (i n k : ℕ) → k < n → get_or (around b i n) k 0 ≡ get_or b ((i + k) % length b) 0
unfolding around
get_or-around b i zero k h = elim h [ ]
get_or-around b i (suc n) zero h = ap (λ t. get_or b (t % length b) 0) (omega arith)
get_or-around b i (suc n) (suc k) h =
    get_or-around b (i + 1) n k (omega arith) ∙ ap (λ t. get_or b (t % length b) 0) (omega arith)

-- A list is such a run if it has its bytes.
pub around_ext :
    (b : List ℕ) (i : ℕ) (bs : List ℕ)
    → ((k : ℕ) → k < length bs → get_or b ((i + k) % length b) 0 ≡ get_or bs k 0)
    → around b i (length bs) ≡ bs
unfolding around
around_ext b i [] h = refl
around_ext b i (x ∷ bs) h =
    ap₂ ◌∷◌ (ap (λ t. get_or b (t % length b) 0) (omega arith) ∙ h 0 (omega arith)) (
      around_ext b (i + 1) bs
        (λ k hk. ap (λ t. get_or b (t % length b) 0) (omega arith) ∙ h (suc k) (omega arith)))

pub get_or-slice :
    (b : List ℕ) (off n k : ℕ) → k < n → get_or (take n (drop off b)) k 0 ≡ get_or b (off + k) 0
get_or-slice b off n k h = get_or-take n (drop off b) k 0 h ∙ get_or-drop off b k 0

pub length-write_at : (b : List ℕ) (i : ℕ) (bs : List ℕ) → length (write_at b i bs) ≡ length b
unfolding write_at
length-write_at b i [] = refl
length-write_at b i (x ∷ bs) = length-write_at (set b i x) (i + 1) bs ∙ length-set b i x

pub get_or-write_at_before :
    (b : List ℕ) (i : ℕ) (bs : List ℕ) (j : ℕ) → j < i → get_or (write_at b i bs) j 0 ≡ get_or b j 0
unfolding write_at
get_or-write_at_before b i [] j h = refl
get_or-write_at_before b i (x ∷ bs) j h =
    get_or-write_at_before (set b i x) (i + 1) bs j (omega arith)
    ∙ get_or-set_ne b i j x 0 (omega arith)

pub get_or-write_at_after :
    (b : List ℕ) (i : ℕ) (bs : List ℕ) (j : ℕ)
    → i + length bs ≤ j
    → get_or (write_at b i bs) j 0 ≡ get_or b j 0
unfolding write_at
get_or-write_at_after b i [] j h = refl
get_or-write_at_after b i (x ∷ bs) j h =
    get_or-write_at_after (set b i x) (i + 1) bs j (omega arith)
    ∙ get_or-set_ne b i j x 0 (omega arith)

pub get_or-write_at :
    (b : List ℕ) (i : ℕ) (bs : List ℕ) (k : ℕ)
    → k < length bs
    → i + length bs ≤ length b
    → get_or (write_at b i bs) (i + k) 0 ≡ get_or bs k 0
unfolding write_at
get_or-write_at b i [] k h fits = elim h [ ]
get_or-write_at b i (x ∷ bs) zero h fits =
    get_or-write_at_before (set b i x) (i + 1) bs (i + 0) (omega arith)
    ∙ ap (λ t. get_or (set b i x) t 0) (omega arith)
    ∙ get_or-set_self b i x 0 (omega arith)
get_or-write_at b i (x ∷ bs) (suc k) h fits =
    ap (λ t. get_or (write_at (set b i x) (i + 1) bs) t 0) (omega arith)
    ∙ get_or-write_at (set b i x) (i + 1) bs k (omega arith) (omega (arith, length-set b i x))

-- Bytes that do not pass the end are a slice.
pub slice-around :
    (b : List ℕ) (off n : ℕ) → off + n ≤ length b → take n (drop off b) ≡ around b off n
slice-around b off n h =
    sym (around_ext b off (take n (drop off b)) (λ k hk. same k (omega (arith, extent))))
    ∙ ap (around b off) extent
  where
    extent : length (take n (drop off b)) ≡ n
    extent = omega (arith, length-take n (drop off b), length-drop off b)

    same : (k : ℕ) → k < n → get_or b ((off + k) % length b) 0 ≡ get_or (take n (drop off b)) k 0
    same k hk =
        ap (λ t. get_or b t 0) (mod-eq_of_lt (omega arith)) ∙ sym (get_or-slice b off n k hk)

-- The end of the buffer is its start.
around-length : (b : List ℕ) (n : ℕ) → around b (length b) n ≡ around b 0 n
around-length b n = sym (around-mod b (length b) n) ∙ ap (λ t. around b t n) (mod_self (length b))

-- Bytes that pass the end are two slices.
pub slices-around :
    (b : List ℕ) (off n : ℕ)
    → off ≤ length b
    → length b ≤ off + n
    → off + n - length b ≤ length b
    → take (length b - off) (drop off b) ++ take (off + n - length b) (drop 0 b) ≡ around b off n
slices-around b off n h h' h'' =
    ap₂ ◌++◌ (slice-around b off (length b - off) (omega arith)) (
      slice-around b 0 (off + n - length b) (omega arith)
      ∙ sym (around-length b (off + n - length b))
      ∙ ap (λ t. around b t (off + n - length b)) {y = off + (length b - off)} (omega arith))
    ∙ sym (around-add b off (length b - off) (off + n - length b))
    ∙ ap (around b off) (omega arith)

-- A write into one slice of the buffer, read back from there.
pub around-write_at :
    (b : List ℕ) (i : ℕ) (bs : List ℕ)
    → i + length bs ≤ length b
    → around (write_at b i bs) i (length bs) ≡ bs
around-write_at b i bs h = around_ext (write_at b i bs) i bs (λ k hk.
    ap (λ t. get_or (write_at b i bs) t 0)
      (ap (λ t. (i + k) % t) (length-write_at b i bs) ∙ mod-eq_of_lt (omega arith))
    ∙ get_or-write_at b i bs k hk h)

-- Such a write leaves alone a run that its slice does not meet.
pub around-write_at_other :
    (b : List ℕ) (i : ℕ) (bs : List ℕ) (j n : ℕ)
    → ((k : ℕ) → k < n → ((j + k) % length b < i) ⊎ (i + length bs ≤ (j + k) % length b))
    → around (write_at b i bs) j n ≡ around b j n
around-write_at_other b i bs j n apart =
    ap (around (write_at b i bs) j) (sym (length-around b j n))
    ∙ around_ext (write_at b i bs) j (around b j n) (λ k hk.
      ap (λ t. get_or (write_at b i bs) ((j + k) % t) 0) (length-write_at b i bs)
      ∙ same k (omega (arith, length-around b j n)))
  where
    same :
        (k : ℕ)
        → k < n
        → get_or (write_at b i bs) ((j + k) % length b) 0 ≡ get_or (around b j n) k 0
    same k hk = elim (apart k hk) [
      | inl before ↦
          get_or-write_at_before b i bs ((j + k) % length b) before ∙ sym (get_or-around b j n k hk)
      | inr after ↦
          get_or-write_at_after b i bs ((j + k) % length b) after ∙ sym (get_or-around b j n k hk)
    ]

pub write_at-nil : (b : List ℕ) (i : ℕ) → write_at b i [] ≡ b
unfolding write_at
write_at-nil b i = refl
