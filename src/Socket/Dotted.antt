-- ===== src/Socket/Dotted.antt =====
-- The addresses that a text may write, by splitting it at its dots.
use mini_envoy.Base.{ℕ, ◌+◌, ◌-◌, ◌*◌}
use mini_envoy.Base.{List, [], ◌∷◌, ◌++◌, length, Option, none, some}
use mini_envoy.Base.{Bool, true, false, not, ◌&&◌, leb, ◌==◌, if◌then◌else◌}
use mini_envoy.Socket.{dot, not_digit}

-- The part before the first dot, and the parts behind it.
unfoldable pub split : List ℕ → List ℕ × List (List ℕ)
split [] = ([], [])
split (c ∷ cs) =
    let rest = split cs in if c == dot then ([], rest.0 ∷ rest.1) else (c ∷ rest.0, rest.1)

abbrev pub is_nil : List ℕ → Bool
is_nil [] = true
is_nil (c ∷ cs) = false

unfoldable pub digits : List ℕ → Bool
digits [] = true
digits (c ∷ cs) = not (not_digit c) && digits cs

unfoldable pub value_from : ℕ → List ℕ → ℕ
value_from n [] = n
value_from n (c ∷ cs) = value_from (n * 10 + (c - 48)) cs

-- A part is not empty, has nothing but digits, and its number is at most 255.
unfoldable pub octet : List ℕ → Option ℕ
unfolding digits value_from
octet g =
    if not (is_nil g) && (digits g && leb (value_from 0 g) 255) then some (value_from 0 g) else none

abbrev pub both : Option ℕ → Option (List ℕ) → Option (List ℕ)
both none vs = none
both (some v) none = none
both (some v) (some vs) = some (v ∷ vs)

unfoldable pub octets : List (List ℕ) → Option (List ℕ)
unfolding octet
octets [] = some []
octets (g ∷ gs) = both (octet g) (octets gs)

-- Four numbers.
unfoldable pub four : List ℕ → Option (List ℕ)
four vs = if length vs == 4 then some vs else none

abbrev pub four_of : List ℕ → Option (List ℕ) → Option (List ℕ)
four_of done none = none
four_of done (some vs) = four (done ++ vs)

-- The address that a text writes: four parts between dots.
unfoldable pub dotted : List ℕ → Option (List ℕ)
unfolding split octets four
dotted s = four_of [] (octets ((split s).0 ∷ (split s).1))

abbrev pub accepted : List ℕ × Bool → Option (List ℕ)
accepted (ip, ok) = if ok then some ip else none
