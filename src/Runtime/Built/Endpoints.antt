-- ===== src/Runtime/Built/Endpoints.antt =====
-- The endpoints that are made and the map by which the routes find them.
use Prim.Native.String.{String}
use text.Mathlib.Text.{◌==◌ as str_eq}
use text.Mathlib.TextEquality.{eq_iff}
use mathlib.Core.Option.{some-injective}
use mathlib.Core.Path.{subst}
use mini_envoy.Base.{
  ℕ, zero, suc, ◌≡◌, ◌⊎◌, inl, inr, refl, sym, ◌∙◌, arith, List, [], ◌∷◌, ◌++◌, length, Bool,
}
use mini_envoy.Base.{Option, some, if_true, if_false, Bool-cases, All, Elem, here, there, get_elem?}
use mini_envoy.Config.File.{Upstream}
use mini_envoy.Config.Validate.Sound.{upstream_ids}
use mini_envoy.Upstream.Endpoint.{Endpoint, new_endpoint}
use mini_envoy.Upstream.Registry.{Ptr, Store, map_get, map_set}
use mini_envoy.Upstream.Registry.Lookup.{map_get-map_set}
use mini_envoy.Runtime.Build.{BuildError, new_upstream, ReactorConfig, build_endpoints}

-- Every pointer of the map leads to the endpoint of its key.
unfoldable pub IsKeyed : Store → List (String × Ptr) → Type 0
IsKeyed eps m =
    (id : String) (p : Ptr)
    → map_get id m ≡ some p
    → (e : Endpoint) × (get_elem? eps p ≡ some e) × (e.id ≡ id)

unfoldable pub Has : List (String × Ptr) → String → Type 0
Has m id = (p : Ptr) × (map_get id m ≡ some p)

get_elem?-append_left :
    (xs ys : Store) (p : ℕ) (e : Endpoint)
    → get_elem? xs p ≡ some e
    → get_elem? (xs ++ ys) p ≡ some e
get_elem?-append_left [] ys p e h = ground arith
get_elem?-append_left (x ∷ xs) ys zero e h = h
get_elem?-append_left (x ∷ xs) ys (suc p) e h = get_elem?-append_left xs ys p e h

get_elem?-append_length :
    (xs : Store) (e : Endpoint) → get_elem? (xs ++ (e ∷ [])) (length xs) ≡ some e
get_elem?-append_length [] e = refl
get_elem?-append_length (x ∷ xs) e = get_elem?-append_length xs e

map_set-IsKeyed :
    (eps : Store) (m : List (String × Ptr)) (e : Endpoint)
    → IsKeyed eps m
    → IsKeyed (eps ++ (e ∷ [])) (map_set e.id (length eps) m)
unfolding IsKeyed
map_set-IsKeyed eps m e k id p h = elim (Bool-cases (str_eq e.id id)) [
  | inl y ↦
      let same : length eps ≡ p =
        some-injective (length eps) p
          (sym (if_true _ _ y) ∙ sym (map_get-map_set id e.id (length eps) m) ∙ h) in
      (
        e,
        subst (λ q. get_elem? (eps ++ (e ∷ [])) q ≡ some e) same (get_elem?-append_length eps e),
        (eq_iff e.id id).0 y,
      )
  | inr y ↦
      let (old, at, named) =
        k id p (sym (if_false _ _ y) ∙ sym (map_get-map_set id e.id (length eps) m) ∙ h) in
      (old, get_elem?-append_left eps (e ∷ []) p old at, named)
]

map_set-Has :
    (m : List (String × Ptr)) (id j : String) (p : Ptr)
    → (id ≡ j) ⊎ Has m id
    → Has (map_set j p m) id
unfolding Has
map_set-Has m id j p (inl e) = (p, map_get-map_set id j p m ∙ if_true _ _ ((eq_iff j id).1 (sym e)))
map_set-Has m id j p (inr (q, at)) = elim (Bool-cases (str_eq j id)) [
  | inl y ↦ (p, map_get-map_set id j p m ∙ if_true _ _ y)
  | inr y ↦ (q, map_get-map_set id j p m ∙ if_false _ _ y ∙ at)
]

-- The loop over the upstreams ends with endpoints for all of them.
pub record IsMade (us : List Upstream) (m : List (String × Ptr))
    (o : BuildError ⊎ (Store × List (String × Ptr))) : Type 0 where
  pub made : Store × List (String × Ptr)
  pub result : o ≡ inr made
  pub keyed : IsKeyed made.0 made.1
  pub knows : (id : String) → Elem id (upstream_ids us) ⊎ Has m id → Has made.1 id

module _ (resolve : String → Option (List ℕ)) (opens : ReactorConfig → Bool) where
  abbrev pub Resolves : Upstream → Type 0
  Resolves u = (ip : List ℕ) × (resolve u.host ≡ some ip)

  pub build_endpoints-IsMade :
      (us : List Upstream) (eps : Store) (m : List (String × Ptr))
      → IsKeyed eps m
      → All Resolves us
      → IsMade us m (build_endpoints resolve opens us eps m)
  unfolding build_endpoints
  build_endpoints-IsMade [] eps m k a = record {
    made = (eps, m);
    result = refl;
    keyed = k;
    knows = unchanged;
  }
    where
      unchanged : (id : String) → Elem id [] ⊎ Has m id → Has m id
      unchanged id (inl p) = elim p [ ]
      unchanged id (inr h) = h
  build_endpoints-IsMade (u ∷ us) eps m k ((ip, found), a) =
      let e = new_upstream u ip in
      let rest =
        build_endpoints-IsMade us (eps ++ (e ∷ [])) (map_set u.id (length eps) m)
          (unfold new_upstream new_endpoint in map_set-IsKeyed eps m e k) a in
      record {
        made = rest.made;
        result = rw found rest.result;
        keyed = rest.keyed;
        knows = λ id w. rest.knows id (shifted id w);
      }
    where
      shifted :
          (id : String)
          → Elem id (upstream_ids (u ∷ us)) ⊎ Has m id
          → Elem id (upstream_ids us) ⊎ Has (map_set u.id (length eps) m) id
      shifted id (inl (here e)) = inr (map_set-Has m id u.id (length eps) (inl e))
      shifted id (inl (there p)) = inl p
      shifted id (inr h) = inr (map_set-Has m id u.id (length eps) (inr h))
