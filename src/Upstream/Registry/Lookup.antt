-- ===== src/Upstream/Registry/Lookup.antt =====
-- The registry against a search of the list of endpoints.
use Prim.Native.String.{String}
use text.Mathlib.Text.{◌==◌ as str_eq}
use text.Mathlib.TextEquality.{eq_iff}
use mini_envoy.Base.{◌≡◌, inl, inr, refl, sym, ap, ◌∙◌, true, false, Bool-cases, if◌then◌else◌}
use mini_envoy.Base.{if_true, if_false, List, [], ◌∷◌, Option, none, some, get_elem?}
use mini_envoy.Upstream.Endpoint.{Endpoint}
use mini_envoy.Upstream.Registry.{
  Ptr, Store, map_get, map_set, index_one, index_by_id, new_registry, get,
}

-- The last pointer of the list that leads to an endpoint of that id, or `found` where none does.
abbrev found_one : Option Endpoint → String → Ptr → Option Ptr → Option Ptr
found_one none id p found = found
found_one (some e) id p found = if str_eq e.id id then some p else found

unfoldable pub last_with : Store → List Ptr → String → Option Ptr → Option Ptr
last_with eps [] id found = found
last_with eps (p ∷ ps) id found = last_with eps ps id (found_one (get_elem? eps p) id p found)

same_key : (i j k : String) → str_eq i j ≡ true → str_eq i k ≡ str_eq j k
same_key i j k h = ap (λ t. str_eq t k) ((eq_iff i j).0 h)

pub map_get-map_set :
    (k j : String) (v : Ptr) (m : List (String × Ptr))
    → map_get k (map_set j v m) ≡ (if str_eq j k then some v else map_get k m)
map_get-map_set k j v [] = refl
map_get-map_set k j v ((i, w) ∷ m) = elim (Bool-cases (str_eq i j)) [
  | inl e ↦ ap (map_get k) (if_true _ _ e) ∙ over e
  | inr e ↦
      ap (map_get k) (if_false _ _ e)
      ∙ ap (λ t. if str_eq i k then some w else t) (map_get-map_set k j v m)
      ∙ apart e
]
  where
    over :
        str_eq i j ≡ true
        → (if str_eq j k then some v else map_get k m)
          ≡ (if str_eq j k then some v else if str_eq i k then some w else map_get k m)
    over e = elim (Bool-cases (str_eq j k)) [
      | inl f ↦ if_true _ _ f ∙ sym (if_true _ _ f)
      | inr f ↦
          ap (λ t. if str_eq j k then some v else t) (sym (if_false _ _ (same_key i j k e ∙ f)))
    ]

    apart :
        str_eq i j ≡ false
        → (if str_eq i k then some w else if str_eq j k then some v else map_get k m)
          ≡ (if str_eq j k then some v else if str_eq i k then some w else map_get k m)
    apart e = elim (Bool-cases (str_eq j k)) [
      | inr f ↦ ap (λ t. if str_eq i k then some w else t) (if_false _ _ f) ∙ sym (if_false _ _ f)
      | inl f ↦ if_false _ _ (other f) ∙ if_true _ _ f ∙ sym (if_true _ _ f)
    ]
      where
        other : str_eq j k ≡ true → str_eq i k ≡ false
        other f = ap (λ t. str_eq i t) (sym ((eq_iff j k).0 f)) ∙ e

index_by_id-last_with :
    (eps : Store) (ps : List Ptr) (id : String) (m : List (String × Ptr))
    → map_get id (index_by_id eps ps m) ≡ last_with eps ps id (map_get id m)
unfolding index_by_id last_with
index_by_id-last_with eps [] id m = refl
index_by_id-last_with eps (p ∷ ps) id m =
    index_by_id-last_with eps ps id (index_one (get_elem? eps p) p m)
    ∙ ap (last_with eps ps id) (one (get_elem? eps p))
  where
    one : (e : Option Endpoint) → map_get id (index_one e p m) ≡ found_one e id p (map_get id m)
    one none = refl
    one (some e) = map_get-map_set id e.id p m

-- A new registry finds, under an id, the last endpoint of the list that has it, and nothing where
-- none has.
get-last_with :
    (eps : Store) (ps : List Ptr) (id : String)
    → get (some (new_registry eps ps)) id ≡ last_with eps ps id none
unfolding get new_registry
get-last_with eps ps id = index_by_id-last_with eps ps id []
