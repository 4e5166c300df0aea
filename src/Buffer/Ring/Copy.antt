-- ===== src/Buffer/Ring/Copy.antt =====
-- CopyOut: the oldest bytes, wrapped or not, without moving a cursor.
use mini_envoy.Base.{
  ℕ, ◌+◌, ◌≤◌, min, ◌≡◌, sym, ap, ap₂, ◌∙◌, arith, List, [], ◌∷◌, ◌++◌, append-nil,
}
use mini_envoy.Base.{
  length, take, drop, take_all, drop_all, length-append, length-take, length-drop,
}
use mini_envoy.Base.{take-append_length, drop-append_length, Bool-cases, ltb, inl, inr}
use mini_envoy.Buffer.Ring.{Ring, len, peek, slice, copy_out, copied, copy_two, Span}
use mini_envoy.Buffer.Ring.Bounds.{IsValid}
use mini_envoy.Buffer.Ring.Fifo.{contents, length-contents, peek_lem}

abbrev pair : ℕ → List ℕ → ℕ × List ℕ
pair n bs = (n, bs)

-- A copy of no more than there is room for.
copied-append :
    (dst src : List ℕ) → length src ≤ length dst → copied dst src ≡ src ++ drop (length src) dst
copied-append dst src h = ap (λ t. t ++ drop (length src) dst) (take_all (length dst) src h)

pub copied_all : (dst src : List ℕ) → length src ≡ length dst → copied dst src ≡ src
copied_all dst src h =
    copied-append dst src (omega arith)
    ∙ ap (◌++◌ src) (drop_all (length src) dst (omega arith))
    ∙ append-nil src

-- Two copies one behind the other fill the destination.
copied_twice :
    (dst xs ys : List ℕ)
    → length xs + length ys ≡ length dst
    → take (length xs) (copied dst xs) ++ copied (drop (length xs) (copied dst xs)) ys ≡ xs ++ ys
copied_twice dst xs ys h = rw (copied-append dst xs (omega arith)) (
    rw (take-append_length xs (drop (length xs) dst)) (
      rw (drop-append_length xs (drop (length xs) dst)) (
        ap (◌++◌ xs)
          (copied_all (drop (length xs) dst) ys (omega (arith, length-drop (length xs) dst))))))

append_empty : (xs ys : List ℕ) → length ys ≡ 0 → xs ≡ xs ++ ys
append_empty xs [] h = sym (append-nil xs)
append_empty xs (y ∷ ys) h = absurd (omega arith)

copy_two_lem :
    (dst xs ys : List ℕ)
    → length xs + length ys ≡ length dst
    → copy_two dst xs ys ≡ (length dst, xs ++ ys)
unfolding copy_two
copy_two_lem dst xs ys h = rw at_xs (elim (Bool-cases (ltb (length xs) (length dst))) [
  | inl more ↦ rw more (ap₂ pair count (copied_twice dst xs ys h))
  | inr last ↦ rw last (
      ap₂ pair (ground arith)
        (copied_all dst xs (ground arith) ∙ append_empty xs ys (ground arith)))
])
  where
    at_xs : min (length dst) (length xs) ≡ length xs
    at_xs = omega arith

    count : length xs + min (length (drop (length xs) (copied dst xs))) (length ys) ≡ length dst
    count = omega (
      arith,
      length-drop (length xs) (copied dst xs),
      ap length (copied-append dst xs (omega arith)),
      length-append xs (drop (length xs) dst),
      length-drop (length xs) dst,
    )

-- Where the ring holds enough bytes, `CopyOut` fills `dst` with the oldest ones.
pub copy_out_lem :
    {r : Ring} (dst : List ℕ)
    → IsValid r
    → length dst ≤ len r
    → copy_out r dst ≡ (length dst, take (length dst) (contents r))
unfolding copy_out
copy_out_lem {r} dst v h =
    copy_two_lem dst (slice r a) (slice r b) (
      omega (
        arith,
        length-append (slice r a) (slice r b),
        ap length peeked,
        length-take (length dst) (contents r),
        length-contents v,
      ))
    ∙ ap (pair (length dst)) peeked
  where
    a : Span
    a = (peek r (length dst)).0

    b : Span
    b = (peek r (length dst)).1

    peeked : slice r a ++ slice r b ≡ take (length dst) (contents r)
    peeked = peek_lem (length dst) v
