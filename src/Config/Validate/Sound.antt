-- ===== src/Config/Validate/Sound.antt =====
-- The loops of `Validate`: what they found where they end without an error.
use Prim.Native.String.{String}
use text.Mathlib.Text.{◌==◌ as str_eq}
use text.Mathlib.TextEquality.{eq_iff}
use mathlib.Core.Sum.{inr-injective}
use mathlib.Core.Path.{subst}
use mathlib.Core.Bool.{false≢true, true≢false}
use mini_envoy.Base.{ℕ, ◌<◌, ◌≡◌, ◌≢◌, ◌⊎◌, inl, inr, refl, sym, ◌∙◌, List, [], ◌∷◌, map, ◌==◌}
use mini_envoy.Base.{
  arith, Bool, true, false, ◌||◌, if◌then◌else◌, if_true, if_false, ==_iff, Bool-cases, Option,
  none, some,
}
use mini_envoy.Base.{length, All, Elem, here, there, Distinct}
use mini_envoy.Base.Int.{ℤ, pos, ltb_ℤ, ◌≤ℤ◌}
use mini_envoy.Config.File.{Upstream, Route}
use mini_envoy.Config.Validate.{
  ConfigError, has_key, has_id, port_out, missing_field, check_upstreams, first_unknown,
  known_algorithm, is_empty, check_algorithm, check_route, then_check, check_routes,
}

abbrev pub IsPort : ℤ → Type 0
IsPort p = (pos 1 ≤ℤ p) × (p ≤ℤ pos 65535)

abbrev pub IsUpstream : Upstream → Type 0
IsUpstream u = (u.id ≢ "") × (u.host ≢ "") × IsPort u.port

abbrev pub algorithms : List String
algorithms = "" ∷ "rr" ∷ "swrr" ∷ "weighted" ∷ []

abbrev pub IsRoute : List String → Route → Type 0
IsRoute ids r =
    (0 < r.id)
    × (0 < length r.upstreams)
    × All (λ i. Elem i ids) r.upstreams
    × Elem r.algorithm algorithms

-- The error branches of an accepted check were not taken.
module _ {ℓ} {A : Type ℓ} where
  pub past_guard :
      (b : Bool) (e : A) (rest : Option A)
      → (if b then some e else rest) ≡ none
      → (b ≡ false) × (rest ≡ none)
  past_guard true e rest h = ground arith
  past_guard false e rest h = (refl, h)

  past_error :
      {B : Type ℓ} (b : Bool) (e : A) (rest : A ⊎ B) (s : B)
      → (if b then inl e else rest) ≡ inr s
      → (b ≡ false) × (rest ≡ inr s)
  past_error true e rest s h = ground arith
  past_error false e rest s h = (refl, h)

pub or_false : (a b : Bool) → (a || b) ≡ false → (a ≡ false) × (b ≡ false)
or_false true b h = absurd (true≢false h)
or_false false b h = (refl, h)

pub or_true : (a b : Bool) → (a || b) ≡ true → (a ≡ true) ⊎ (b ≡ true)
or_true true b h = inl refl
or_true false b h = inr h

pub differ : (s t : String) → str_eq s t ≡ false → s ≢ t
differ s t h e = true≢false (sym ((eq_iff s t).1 e) ∙ h)

pub equal : (s t : String) → str_eq s t ≡ true → s ≡ t
equal s t h = (eq_iff s t).0 h

pub has_key-Elem : (k : String) (m : List String) → has_key k m ≡ true → Elem k m
unfolding has_key
has_key-Elem k [] h = absurd (false≢true h)
has_key-Elem k (j ∷ m) h = elim (Bool-cases (str_eq j k)) [
  | inl e ↦ here (sym (equal j k e))
  | inr e ↦ there (has_key-Elem k m (sym (if_false true (has_key k m) e) ∙ h))
]

pub Elem-has_key : (k : String) (m : List String) → Elem k m → has_key k m ≡ true
unfolding has_key
Elem-has_key k [] p = elim p [ ]
Elem-has_key k (j ∷ m) (here e) = if_true _ _ ((eq_iff j k).1 (sym e))
Elem-has_key k (j ∷ m) (there p) = elim (Bool-cases (str_eq j k)) [
  | inl e ↦ rw e refl
  | inr e ↦ rw e (Elem-has_key k m p)
]

Elem-has_id : (k : ℕ) (m : List ℕ) → Elem k m → has_id k m ≡ true
unfolding has_id
Elem-has_id k [] p = elim p [ ]
Elem-has_id k (j ∷ m) (here e) = if_true _ _ ((==_iff j k).1 (sym e))
Elem-has_id k (j ∷ m) (there p) = elim (Bool-cases (j == k)) [
  | inl e ↦ rw e refl
  | inr e ↦ rw e (Elem-has_id k m p)
]

pub ltb_ℤ_false : (a b : ℤ) → ltb_ℤ a b ≡ false → b ≤ℤ a
ltb_ℤ_false a b h = ground arith

pub port_lem : (p : ℤ) → port_out p ≡ false → IsPort p
port_lem p h =
    (ltb_ℤ_false p (pos 1) (or_false _ _ h).0, ltb_ℤ_false (pos 65535) p (or_false _ _ h).1)

upstream_lem : (u : Upstream) → missing_field u ≡ false → IsUpstream u
upstream_lem u h =
    let (named, port) = or_false (str_eq u.id "" || str_eq u.host "") (port_out u.port) h in
    let (id, host) = or_false (str_eq u.id "") (str_eq u.host "") named in
    (differ u.id "" id, differ u.host "" host, port_lem u.port port)

abbrev pub upstream_ids : List Upstream → List String
upstream_ids us = map (λ (u : Upstream). u.id) us

-- The loop over the upstreams found every one well formed and no id twice, nor among those seen
-- before; it has put just the ids among those seen.
pub record Checked (us : List Upstream) (seen s : List String) : Type 0 where
  pub each : All IsUpstream us
  pub distinct : Distinct (upstream_ids us)
  pub fresh : (i : String) → Elem i (upstream_ids us) → Elem i seen → ⊥
  pub known : (i : String) → Elem i s → Elem i (upstream_ids us) ⊎ Elem i seen

still_fresh :
    (u : Upstream) (us : List Upstream) (seen : List String)
    → has_key u.id seen ≡ false
    → ((i : String) → Elem i (upstream_ids us) → Elem i (u.id ∷ seen) → ⊥)
    → (i : String) → Elem i (upstream_ids (u ∷ us))
    → Elem i seen
    → ⊥
still_fresh u us seen new rest i (here e) q =
    true≢false (sym (Elem-has_key u.id seen (subst (λ j. Elem j seen) e q)) ∙ new)
still_fresh u us seen new rest i (there p) q = rest i p (there q)

shift :
    (u : Upstream) (us : List Upstream) (seen : List String) (i : String)
    → Elem i (upstream_ids us) ⊎ Elem i (u.id ∷ seen)
    → Elem i (upstream_ids (u ∷ us)) ⊎ Elem i seen
shift u us seen i (inl p) = inl (there p)
shift u us seen i (inr (here e)) = inl (here e)
shift u us seen i (inr (there p)) = inr p

pub check_upstreams-Checked :
    (us : List Upstream) (seen s : List String)
    → check_upstreams us seen ≡ inr s
    → Checked us seen s
unfolding check_upstreams
check_upstreams-Checked [] seen s h = record {
  each = tt;
  distinct = tt;
  fresh = λ i p q. elim p [ ];
  known = λ i p. inr (subst (Elem i) (sym (inr-injective {A = ConfigError} seen s h)) p);
}
check_upstreams-Checked (u ∷ us) seen s h =
    let (ok, h1) = past_error (missing_field u) _ _ s h in
    let (new, h2) = past_error (has_key u.id seen) _ _ s h1 in
    let rest = check_upstreams-Checked us (u.id ∷ seen) s h2 in
    record {
      each = (upstream_lem u ok, rest.each);
      distinct = (λ p. rest.fresh u.id p (here refl), rest.distinct);
      fresh = still_fresh u us seen new rest.fresh;
      known = λ i p. shift u us seen i (rest.known i p);
    }

pub not_empty {ℓ} : {A : Type ℓ} (xs : List A) → is_empty xs ≡ false → 0 < length xs
not_empty [] h = absurd (true≢false h)
not_empty (x ∷ xs) h = omega arith

first_unknown-All :
    (is seen : List String) → first_unknown is seen ≡ none → All (λ i. Elem i seen) is
unfolding first_unknown
first_unknown-All [] seen h = tt
first_unknown-All (i ∷ is) seen h = elim (Bool-cases (has_key i seen)) [
  | inl e ↦ (has_key-Elem i seen e, first_unknown-All is seen (sym (if_true _ _ e) ∙ h))
  | inr e ↦ absurd (some_none i (sym (if_false _ _ e) ∙ h))
]
  where
    some_none : (i : String) → some i ≡ none → ⊥
    some_none i h = ground arith

algorithm_lem : (s : String) → known_algorithm s ≡ true → Elem s algorithms
unfolding known_algorithm
algorithm_lem s h = elim (or_true (str_eq s "" || str_eq s "rr" || str_eq s "swrr") _ h) [
  | inr e ↦ there (there (there (here (equal s _ e))))
  | inl h1 ↦ elim (or_true (str_eq s "" || str_eq s "rr") _ h1) [
    | inr e ↦ there (there (here (equal s _ e)))
    | inl h2 ↦ elim (or_true (str_eq s "") _ h2) [
      | inl e ↦ here (equal s _ e)
      | inr e ↦ there (here (equal s _ e))
    ]
  ]
]

pub then_check_both : (a b : Option ConfigError) → then_check a b ≡ none → (a ≡ none) × (b ≡ none)
then_check_both none b h = (refl, h)
then_check_both (some e) b h = ground arith

check_algorithm_lem :
    (r : Route) (found : Option String)
    → check_algorithm r found ≡ none
    → (found ≡ none) × (known_algorithm r.algorithm ≡ true)
unfolding check_algorithm
check_algorithm_lem r (some i) h = ground arith
check_algorithm_lem r none h = ground arith

check_route_lem :
    (r : Route) (seen : List String) → 0 < r.id → check_route r seen ≡ none → IsRoute seen r
unfolding check_route
check_route_lem r seen pos_id h =
    let (full, h1) = past_guard (is_empty r.upstreams) _ _ h in
    let (found, known) = check_algorithm_lem r (first_unknown r.upstreams seen) h1 in
    (
      pos_id,
      not_empty r.upstreams full,
      first_unknown-All r.upstreams seen found,
      algorithm_lem r.algorithm known,
    )

abbrev pub route_ids : List Route → List ℕ
route_ids rs = map (λ (r : Route). r.id) rs

-- As for the upstreams.
pub record Routed (rs : List Route) (seen : List String) (rids : List ℕ) : Type 0 where
  pub each : All (IsRoute seen) rs
  pub distinct : Distinct (route_ids rs)
  pub fresh : (i : ℕ) → Elem i (route_ids rs) → Elem i rids → ⊥

pub check_routes-Routed :
    (rs : List Route) (seen : List String) (rids : List ℕ)
    → check_routes rs seen rids ≡ none
    → Routed rs seen rids
unfolding check_routes
check_routes-Routed [] seen rids h = record {
  each = tt;
  distinct = tt;
  fresh = λ i p q. elim p [ ];
}
check_routes-Routed (r ∷ rs) seen rids h =
    let (nonzero, h1) = past_guard (r.id == 0) _ _ h in
    let (new, h2) = past_guard (has_id r.id rids) _ _ h1 in
    let (this, h3) = then_check_both (check_route r seen) _ h2 in
    let rest = check_routes-Routed rs seen (r.id ∷ rids) h3 in
    record {
      each = (check_route_lem r seen (id_positive r.id nonzero) this, rest.each);
      distinct = (λ p. rest.fresh r.id p (here refl), rest.distinct);
      fresh = unseen r rs rids new rest.fresh;
    }
  where
    id_positive : (n : ℕ) → (n == 0) ≡ false → 0 < n
    id_positive n h = ground arith

    unseen :
        (r : Route) (rs : List Route) (rids : List ℕ)
        → has_id r.id rids ≡ false
        → ((i : ℕ) → Elem i (route_ids rs) → Elem i (r.id ∷ rids) → ⊥)
        → (i : ℕ) → Elem i (route_ids (r ∷ rs))
        → Elem i rids
        → ⊥
    unseen r rs rids new rest i (here e) q =
        true≢false (sym (Elem-has_id r.id rids (subst (λ j. Elem j rids) e q)) ∙ new)
    unseen r rs rids new rest i (there p) q = rest i p (there q)
