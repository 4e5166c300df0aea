-- ===== src/Upstream/Registry.antt =====
-- internal/upstream/pool.go. Endpoints are shared: a pointer is an index into the store of them all.
pub mod Lookup
use Prim.Native.String.{String}
use text.Mathlib.Text.{◌==◌ as str_eq}
use mini_envoy.Base.{ℕ, List, [], ◌∷◌, Option, none, some, get_elem?, if◌then◌else◌}
use mini_envoy.Upstream.Endpoint.{Endpoint}

abbrev pub Ptr : Type 0
Ptr = ℕ

abbrev pub Store : Type 0
Store = List Endpoint

-- `byID` is a Go map: a later write to a key replaces the earlier one.
pub record Registry : Type 0 where
  pub by_id : List (String × Ptr)
  pub all : List Ptr

abbrev pub map_get : String → List (String × Ptr) → Option Ptr
map_get k [] = none
map_get k ((j, v) ∷ m) = if str_eq j k then some v else map_get k m

abbrev pub map_set : String → Ptr → List (String × Ptr) → List (String × Ptr)
map_set k v [] = (k, v) ∷ []
map_set k v ((j, w) ∷ m) = if str_eq j k then (k, v) ∷ m else (j, w) ∷ map_set k v m

-- One round of the loop of `NewRegistry`. A pointer of the list leads to an endpoint; the other case
-- is not met.
abbrev pub index_one : Option Endpoint → Ptr → List (String × Ptr) → List (String × Ptr)
index_one none p m = m
index_one (some e) p m = map_set e.id p m

unfoldable pub index_by_id : Store → List Ptr → List (String × Ptr) → List (String × Ptr)
index_by_id eps [] m = m
index_by_id eps (p ∷ ps) m = index_by_id eps ps (index_one (get_elem? eps p) p m)

unfoldable pub new_registry : Store → List Ptr → Registry
unfolding index_by_id
new_registry eps ps = record { by_id = index_by_id eps ps []; all = ps }

-- A nil registry has no endpoint.
unfoldable pub get : Option Registry → String → Option Ptr
get none id = none
get (some r) id = map_get id r.by_id

unfoldable pub all_of : Option Registry → List Ptr
all_of none = []
all_of (some r) = r.all
