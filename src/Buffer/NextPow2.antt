-- ===== src/Buffer/NextPow2.antt =====
-- nextPow2 of internal/buffer/ring.go: the least power of two that is at least `n`.
pub mod Smeared
use mini_envoy.Base.{ℕ, ◌+◌, ◌-◌, ◌/◌, ◌^◌, bit_or, leb, if◌then◌else◌}

-- `n |= n >> 2^0`, up to `n |= n >> 16`
unfoldable pub smear : ℕ → ℕ
smear n =
    let n1 = bit_or n (n / 2 ^ 1) in
    let n2 = bit_or n1 (n1 / 2 ^ 2) in
    let n4 = bit_or n2 (n2 / 2 ^ 4) in let n8 = bit_or n4 (n4 / 2 ^ 8) in bit_or n8 (n8 / 2 ^ 16)

-- A size is not negative; the source's other sizes take the first branch, as 0 does.
unfoldable pub next_pow2 : ℕ → ℕ
unfolding smear
next_pow2 n = if leb n 1 then 2 else smear (n - 1) + 1
