-- ===== src/Admin/Token.antt =====
-- internal/admin/auth.go: `tokenOK` against the two headers that may carry a token.
use Prim.Native.String.{String, slice, len, ◌++◌}
use text.Mathlib.Text.{◌==◌ as str_eq, starts_with}
use text.Mathlib.TextEquality.{eq_iff, starts_with_iff}
use text.Mathlib.TextPositions.{slice-append_right, len-append}
use mini_envoy.Base.{
  ◌≡◌, ◌≢◌, ◌⊎◌, inl, inr, refl, sym, ap, ◌∙◌, Bool, true, false, Bool-cases, if◌then◌else◌, ◌&&◌,
}
use mini_envoy.Admin.{Request, token_of, token_ok}

-- The request carries that token: in the header of the API, or, where that one is missing, as a
-- bearer token.
abbrev pub Carries : Request → String → Type 0
Carries r token =
    (r.admin_token ≡ token) ⊎ ((r.admin_token ≡ "") × (r.authorization ≡ "Bearer " ++ token))

-- A bearer token is what follows the scheme.
bearer :
    (s token : String)
    → starts_with s "Bearer " ≡ true
    → slice s 7 (len s) ≡ token
    → s ≡ "Bearer " ++ token
bearer s token h e =
    let (rest, whole) = (starts_with_iff s "Bearer ").0 h in
    let tail : slice s 7 (len s) ≡ rest =
      ap (λ u. slice u 7 (len u)) (sym whole)
      ∙ ap (slice ("Bearer " ++ rest) 7) (len-append "Bearer " rest)
      ∙ slice-append_right "Bearer " rest in
    sym whole ∙ ap (λ u. "Bearer " ++ u) (sym tail ∙ e)

token_of-Carries : (r : Request) (token : String) → token_of r ≡ token → Carries r token
token_of-Carries r token h = by_header (str_eq r.admin_token "") refl h
  where
    bears : Bool
    bears = starts_with r.authorization "Bearer "

    taken : Bool → String
    taken b = if b then slice r.authorization 7 (len r.authorization) else r.admin_token

    by_scheme :
        (b : Bool) → bears ≡ b → str_eq r.admin_token "" ≡ true → taken b ≡ token → Carries r token
    by_scheme true e none q =
        inr ((eq_iff r.admin_token "").0 none, bearer r.authorization token e q)
    by_scheme false e none q = inl q

    by_header :
        (b : Bool) → str_eq r.admin_token "" ≡ b → taken (b && bears) ≡ token → Carries r token
    by_header true e q = by_scheme bears refl e q
    by_header false e q = inl q

-- A request that does not carry the token does not pass.
pub token_ok-Carries :
    (r : Request) (token : String) → token ≢ "" → (Carries r token → ⊥) → token_ok r token ≡ false
unfolding token_ok
token_ok-Carries r token set h = elim (Bool-cases (str_eq (token_of r) token)) [
  | inl e ↦ absurd (h (token_of-Carries r token ((eq_iff (token_of r) token).0 e)))
  | inr e ↦ elim (Bool-cases (str_eq token "")) [
    | inl q ↦ absurd (set ((eq_iff token "").0 q))
    | inr q ↦ rw q e
  ]
]
