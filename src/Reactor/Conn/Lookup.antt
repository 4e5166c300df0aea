-- ===== src/Reactor/Conn/Lookup.antt =====
-- The table of descriptors and the store of connections, after a change.
use mini_envoy.Base.{sym}
use mini_envoy.Base.{ℕ, zero, suc, ◌≡◌, ◌⊎◌, inl, inr, refl, ap, List, [], ◌∷◌, ◌++◌}
use mini_envoy.Base.{none, some, get_elem?, arith, length}
use mathlib.Core.Option.{some-injective}
use mini_envoy.Upstream.Registry.{Ptr}
use mini_envoy.Reactor.Conn.{FdTable, get, put, del, change}

pub get-del_same : (t : FdTable) (a : ℕ) → get (del t a) a ≡ none
unfolding get del
get-del_same [] a = refl
get-del_same ((i, q) ∷ t) a = ground (arith, get-del_same t a)

-- What is found after a delete was there before, under another descriptor.
pub get-del : (t : FdTable) (a b : ℕ) (p : Ptr) → get (del t a) b ≡ some p → get t b ≡ some p
unfolding get del
get-del [] a b p h = h
get-del ((i, q) ∷ t) a b p h = ground (arith, get-del t a b p, get-del_same t a)

-- What is found after a put is what was put, or was there before.
pub get-put :
    (t : FdTable) (a b : ℕ) (q p : Ptr)
    → get (put t a q) b ≡ some p
    → ((a ≡ b) × (q ≡ p)) ⊎ (get t b ≡ some p)
unfolding get put
get-put [] a b q p h = ground arith
get-put ((i, r) ∷ t) a b q p h = ground (arith, get-put t a b q p)

pub get-put_same : (t : FdTable) (a : ℕ) (p : Ptr) → get (put t a p) a ≡ some p
unfolding get put
get-put_same [] a p = ground arith
get-put_same ((i, q) ∷ t) a p = ground (arith, get-put_same t a p)

-- An object is still there after a change, as it was or changed.
pub get_elem-change :
    {A : Type 0} (f : A → A) (p q : Ptr) (xs : List A) (x : A)
    → get_elem? xs q ≡ some x
    → (get_elem? (change f p xs) q ≡ some x) ⊎ (get_elem? (change f p xs) q ≡ some (f x))
get_elem-change f p q [] x h = ground arith
get_elem-change f zero zero (y ∷ xs) x h = inr (ap some (ap f (some-injective y x h)))
get_elem-change f zero (suc q) (y ∷ xs) x h = inl h
get_elem-change f (suc p) zero (y ∷ xs) x h = inl h
get_elem-change f (suc p) (suc q) (y ∷ xs) x h = get_elem-change f p q xs x h

pub get_elem-change_self :
    {A : Type 0} (f : A → A) (p : Ptr) (xs : List A) (x : A)
    → get_elem? xs p ≡ some x
    → get_elem? (change f p xs) p ≡ some (f x)
get_elem-change_self f p [] x h = ground arith
get_elem-change_self f zero (y ∷ xs) x h = ap some (ap f (some-injective y x h))
get_elem-change_self f (suc p) (y ∷ xs) x h = get_elem-change_self f p xs x h

pub get_elem-change_other :
    {A : Type 0} (f : A → A) (p q : Ptr) (xs : List A)
    → (p ≡ q → ⊥)
    → get_elem? (change f p xs) q ≡ get_elem? xs q
get_elem-change_other f p q [] n = refl
get_elem-change_other f zero zero (y ∷ xs) n = absurd (n refl)
get_elem-change_other f zero (suc q) (y ∷ xs) n = refl
get_elem-change_other f (suc p) zero (y ∷ xs) n = refl
get_elem-change_other f (suc p) (suc q) (y ∷ xs) n =
    get_elem-change_other f p q xs (λ e. n (ap suc e))

-- An object is still there after a new one was added behind, and the new one stands there.
pub get_elem-append :
    {A : Type 0} (xs ys : List A) (q : Ptr) (x : A)
    → get_elem? xs q ≡ some x
    → get_elem? (xs ++ ys) q ≡ some x
get_elem-append [] ys q x h = ground arith
get_elem-append (y ∷ xs) ys zero x h = h
get_elem-append (y ∷ xs) ys (suc q) x h = get_elem-append xs ys q x h

pub get_elem-last :
    {A : Type 0} (xs : List A) (x : A) → get_elem? (xs ++ (x ∷ [])) (length xs) ≡ some x
get_elem-last [] x = refl
get_elem-last (y ∷ xs) x = get_elem-last xs x

-- An object changed to what it is.
pub change-get_elem :
    {A : Type 0} (p : Ptr) (xs : List A) (x : A)
    → get_elem? xs p ≡ some x
    → change (λ _. x) p xs ≡ xs
change-get_elem p [] x h = refl
change-get_elem zero (y ∷ xs) x h = ap (λ z. z ∷ xs) (sym (some-injective y x h))
change-get_elem (suc p) (y ∷ xs) x h = ap (◌∷◌ y) (change-get_elem p xs x h)
