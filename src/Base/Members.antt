-- ===== src/Base/Members.antt =====
-- The elements of lists that are put together.
use mathlib.Core.Path.{refl, ap, subst}
use mathlib.Core.List.{List, [], ◌∷◌, ◌++◌, map}
use mini_envoy.Base.Lists.{All, Elem, here, there}

unfoldable pub flatten : {A : Type 0} → List (List A) → List A
flatten [] = []
flatten (xs ∷ xss) = xs ++ flatten xss

module _ {A : Type 0} where
  pub Elem-left : (x : A) (xs ys : List A) → Elem x xs → Elem x (xs ++ ys)
  Elem-left x [] ys p = elim p [ ]
  Elem-left x (y ∷ xs) ys (here e) = here e
  Elem-left x (y ∷ xs) ys (there p) = there (Elem-left x xs ys p)

  pub Elem-right : (x : A) (xs ys : List A) → Elem x ys → Elem x (xs ++ ys)
  Elem-right x [] ys p = p
  Elem-right x (y ∷ xs) ys p = there (Elem-right x xs ys p)

  pub Elem-flatten :
      (x : A) (xs : List A) (xss : List (List A)) → Elem xs xss → Elem x xs → Elem x (flatten xss)
  unfolding flatten
  Elem-flatten x xs [] p q = elim p [ ]
  Elem-flatten x xs (ys ∷ xss) (here e) q = Elem-left x ys (flatten xss) (subst (Elem x) e q)
  Elem-flatten x xs (ys ∷ xss) (there p) q =
      Elem-right x ys (flatten xss) (Elem-flatten x xs xss p q)

  pub All-append : (P : A → Type 0) (xs ys : List A) → All P xs → All P ys → All P (xs ++ ys)
  All-append P [] ys h k = k
  All-append P (x ∷ xs) ys (p, h) k = (p, All-append P xs ys h k)

module _ {A B : Type 0} where
  pub Elem-map : (f : A → B) (x : A) (xs : List A) → Elem x xs → Elem (f x) (map f xs)
  Elem-map f x [] p = elim p [ ]
  Elem-map f x (y ∷ xs) (here e) = here (ap f e)
  Elem-map f x (y ∷ xs) (there p) = there (Elem-map f x xs p)

  pub All-map :
      (P : B → Type 0) (f : A → B) (xs : List A)
      → ((x : A) → Elem x xs → P (f x))
      → All P (map f xs)
  All-map P f [] h = tt
  All-map P f (x ∷ xs) h = (h x (here refl), All-map P f xs (λ y p. h y (there p)))

  pub All-flatten :
      (P : B → Type 0) (f : A → List B) (xs : List A)
      → ((x : A) → Elem x xs → All P (f x))
      → All P (flatten (map f xs))
  unfolding flatten
  All-flatten P f [] h = tt
  All-flatten P f (x ∷ xs) h =
      All-append P (f x) (flatten (map f xs)) (h x (here refl))
        (All-flatten P f xs (λ y p. h y (there p)))
