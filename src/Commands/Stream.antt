-- ===== src/Commands/Stream.antt =====
-- What `io.ReadFull` gives depends on the bytes of the stream and not on how the reads cut it.
use mini_envoy.Base.{ℕ, zero, suc, ◌-◌, ◌<◌, ◌≤◌, ◌≡◌, refl, sym, ap, ap₂, ◌∙◌, arith}
use mini_envoy.Base.{
  List, [], ◌∷◌, ◌++◌, Option, none, some, length, take, drop, leb, length-append,
}
use mini_envoy.Base.{Bool-cases, inl, inr, if_true, if_false, tests, drop-append_ge}
use mini_envoy.Base.{take-append_length, drop-append_length}
use mini_envoy.Commands.{read_full, joined, after}

take-append_le : (n : ℕ) (xs ys : List ℕ) → n ≤ length xs → take n (xs ++ ys) ≡ take n xs
take-append_le zero xs ys h = refl
take-append_le (suc n) [] ys h = elim h [ ]
take-append_le (suc n) (x ∷ xs) ys h = ap (◌∷◌ x) (take-append_le n xs ys (omega arith))

take-append_ge :
    (n : ℕ) (xs ys : List ℕ) → length xs ≤ n → take n (xs ++ ys) ≡ xs ++ take (n - length xs) ys
take-append_ge n [] ys h = ap (λ t. take t ys) (omega arith)
take-append_ge zero (x ∷ xs) ys h = elim h [ ]
take-append_ge (suc n) (x ∷ xs) ys h =
    ap (◌∷◌ x) (take-append_ge n xs ys (omega arith) ∙ ap (λ t. xs ++ take t ys) (omega arith))

drop-append_le : (n : ℕ) (xs ys : List ℕ) → n ≤ length xs → drop n (xs ++ ys) ≡ drop n xs ++ ys
drop-append_le zero xs ys h = refl
drop-append_le (suc n) [] ys h = elim h [ ]
drop-append_le (suc n) (x ∷ xs) ys h = drop-append_le n xs ys (omega arith)

-- So many bytes came, and these are the reads that are left.
pub record IsRead (n : ℕ) (reads : List (List ℕ)) (r : Option (List ℕ × List (List ℕ)))
    : Type 0 where
  pub left : List (List ℕ)
  pub result : r ≡ some (take n (joined reads), left)
  pub left_eq : joined left ≡ drop n (joined reads)

pub read_full-IsRead :
    (n : ℕ) (reads : List (List ℕ)) → n ≤ length (joined reads) → IsRead n reads (read_full n reads)
unfolding read_full after
read_full-IsRead n [] h = record {
  left = [];
  result =
      if_true {b = leb n 0} _ _ (ground arith)
      ∙ ap (λ t. some (take t [], [])) {x = 0} (omega arith);
  left_eq = ap (λ t. drop t []) {x = 0} (omega arith);
}
read_full-IsRead n (x ∷ xs) h = elim (Bool-cases (leb n (length x))) [
  | inl e ↦ record {
    left = drop n x ∷ xs;
    result =
        if_true _ _ e
        ∙ ap (λ t. some (t, drop n x ∷ xs))
            (sym (take-append_le n x (joined xs) (omega (arith, tests))));
    left_eq = sym (drop-append_le n x (joined xs) (ground arith));
  }
  | inr e ↦
      let more = read_full-IsRead (n - length x) xs (omega (arith, length-append x (joined xs))) in
      record {
        left = more.left;
        result =
            if_false _ _ e
            ∙ ap (after x) more.result
            ∙ ap (λ t. some (t, more.left)) (sym (take-append_ge n x (joined xs) (ground arith)));
        left_eq = more.left_eq ∙ sym (drop-append_ge n x (joined xs) (ground arith));
      }
]

pub read_full_short :
    (n : ℕ) (reads : List (List ℕ)) → length (joined reads) < n → read_full n reads ≡ none
unfolding read_full after
read_full_short n [] h = if_false {b = leb n 0} _ _ (ground arith)
read_full_short n (x ∷ xs) h =
    if_false {b = leb n (length x)} _ _ (ground (arith, length-append x (joined xs)))
    ∙ ap (after x) (read_full_short (n - length x) xs (omega (arith, length-append x (joined xs))))

-- The first bytes of the stream, where it starts with so many.
pub read_full-append :
    (reads : List (List ℕ)) (xs ys : List ℕ)
    → joined reads ≡ xs ++ ys
    → (n : ℕ) → n ≡ length xs
    → (left : List (List ℕ)) × (read_full n reads ≡ some (xs, left)) × (joined left ≡ ys)
read_full-append reads xs ys e n h =
    let read = read_full-IsRead n reads enough in
    (
      read.left,
      read.result
          ∙ ap₂ (λ t u. some (take t u, read.left)) h e
          ∙ ap (λ t. some (t, read.left)) (take-append_length xs ys),
      read.left_eq ∙ ap₂ drop h e ∙ drop-append_length xs ys,
    )
  where
    enough : n ≤ length (joined reads)
    enough = omega (arith, ap length e, length-append xs ys)
