-- ===== src/Base/Words.antt =====
-- `&` with a mask of ones is a remainder, at every width.
use Prim.Native.Nat.{ℕ, zero, suc, ◌+◌, ◌*◌, ◌/◌, ◌%◌, ◌^◌, ◌≤◌, ◌<◌}
use Prim.Native.Nat.{min, bit_and, digits, bit_and-bitwise}
use mathlib.Core.Path.{◌≡◌, sym, ap, ◌∙◌, ◌≡⟨◌⟩◌, ◌∎}
use native.Mathlib.Nat.{
  add-zero, add-suc, mul_assoc, pow-suc, div-add-mod', mul-add-mod_self_right, mod-eq_of_lt, mod-lt,
}
use native.Mathlib.Omega.{arith}

pub pow_pos : (k : ℕ) → 0 < 2 ^ k
pow_pos zero = omega arith
pow_pos (suc k) = omega (arith, pow_pos k, pow-suc 2 k)

-- One more digit of a remainder.
pub mod-double : (a m : ℕ) → 0 < m → a % (m * 2) ≡ a / 2 % m * 2 + a % 2
mod-double a m h =
    a % (m * 2)
    ≡⟨ ap (λ t. t % (m * 2)) (omega (arith, div-add-mod' (a / 2) m)) ⟩
      (a / 2 / m * (m * 2) + r) % (m * 2)
    ≡⟨ mul-add-mod_self_right (a / 2 / m) (m * 2) r ⟩ r % (m * 2)
    ≡⟨ mod-eq_of_lt (omega (arith, mod-lt (a / 2) h)) ⟩ r ∎
  where
    r : ℕ
    r = a / 2 % m * 2 + a % 2

-- The definition of `&`, digit by digit with enough digits allowed, at a mask of `k` ones.
masked : (n k a m : ℕ) → a ≤ n → m + 1 ≡ 2 ^ k → digits (λ (b : ℕ). zero) min n a m ≡ a % 2 ^ k
masked zero k zero m h e = sym (mod-eq_of_lt (pow_pos k))
masked zero k (suc a) m h e = absurd (omega arith)
masked (suc n) k zero m h e = sym (mod-eq_of_lt (pow_pos k))
masked (suc n) zero (suc a) m h e =
    omega (arith, masked n zero (suc a / 2) (m / 2) (omega arith) (omega arith))
masked (suc n) (suc k) (suc a) m h e = omega (
  arith,
  masked n k (suc a / 2) (m / 2) (omega arith) (omega (arith, pow-suc 2 k)),
  mod-double (suc a) (2 ^ k) (pow_pos k),
  ap (λ t. suc a % t) (pow-suc 2 k),
  pow-suc 2 k,
)

-- x & (2^k - 1)
pub bit_and-mask : (k a m : ℕ) → m + 1 ≡ 2 ^ k → bit_and a m ≡ a % 2 ^ k
bit_and-mask k a m e = bit_and-bitwise a m ∙ masked a k a m (omega arith) e

pub pow-add : (a b : ℕ) → 2 ^ (a + b) ≡ 2 ^ a * 2 ^ b
pow-add a zero = omega (arith, ap (λ t. 2 ^ t) (add-zero a))
pow-add a (suc b) =
    ap (λ t. 2 ^ t) (add-suc a b)
    ∙ pow-suc 2 (a + b)
    ∙ ap (λ t. t * 2) (pow-add a b)
    ∙ mul_assoc (2 ^ a) (2 ^ b) 2
    ∙ ap (λ t. 2 ^ a * t) (sym (pow-suc 2 b))
