-- ===== src/Reactor/Stream.antt =====
-- The bytes that a connection writes: what left through its descriptor and what stays to be written
-- are together what it was given, in that order.
pub mod Wire
pub mod Remain
pub mod Flush
use mini_envoy.Base.{
  ℕ, zero, suc, ◌+◌, ◌-◌, ◌≡◌, ◌⊎◌, inl, inr, refl, sym, ap, ◌∙◌, Bool, true, false, List, [], ◌∷◌,
  ◌++◌,
}
use mini_envoy.Base.{
  Option, none, some, get_elem?, if◌then◌else◌, Bool-cases, arith, leb, ltb, leb→le, ltb→lt, length,
  take, drop,
}
use mini_envoy.Base.{append-nil, append_assoc, take-append-drop, drop-append_ge, not}
use mini_envoy.Base.Int.{ℤ, pos, negsuc, pos_part, ltb_ℤ}
use mini_envoy.Reactor.Write.{stash, joined, gather_parts, non_empty}

drop-append_lt :
    (n : ℕ) (xs ys : List ℕ) → leb (length xs) n ≡ false → drop n (xs ++ ys) ≡ drop n xs ++ ys
drop-append_lt zero xs ys h = refl
drop-append_lt (suc n) [] ys h = ground arith
drop-append_lt (suc n) (x ∷ xs) ys h = drop-append_lt n xs ys (ground arith)

-- What `stashRemainder` leaves to be written: the parts without the bytes that were written.
pub stash-joined :
    (remain : List ℕ) (iov : List (List ℕ)) (n : ℕ)
    → stash remain iov n ≡ remain ++ drop n (joined iov)
unfolding stash
stash-joined remain [] zero = sym (append-nil remain)
stash-joined remain [] (suc n) = sym (append-nil remain)
stash-joined remain (p ∷ ps) n = elim (Bool-cases (leb (length p) n)) [
  | inl h ↦ rw h (
      stash-joined remain ps (n - length p)
      ∙ ap (◌++◌ remain) (sym (drop-append_ge n p (joined ps) (leb→le _ _ h))))
  | inr h ↦ rw h (
      stash-joined (remain ++ drop n p) ps 0
      ∙ append_assoc remain (drop n p) (joined ps)
      ∙ ap (◌++◌ remain) (sym (drop-append_lt n p (joined ps) h)))
]

pub joined-gather_parts : (parts : List (List ℕ)) → joined (gather_parts parts) ≡ joined parts
unfolding gather_parts
joined-gather_parts [] = refl
joined-gather_parts ([] ∷ ps) = joined-gather_parts ps
joined-gather_parts ((x ∷ p) ∷ ps) = ap (λ t. x ∷ p ++ t) (joined-gather_parts ps)
