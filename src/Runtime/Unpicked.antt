-- ===== src/Runtime/Unpicked.antt =====
-- An endpoint that the operator took out receives no traffic.
use Prim.Native.String.{String}
use mini_envoy.Base.{ℕ, zero, suc, ◌≡◌, refl, sym, ap, ◌∙◌, Bool, true, false, List, [], ◌∷◌, All}
use mini_envoy.Base.{Option, none, some, get_elem?, if◌then◌else◌, arith}
use mathlib.Core.Path.{subst}
use mathlib.Core.Bool.{true≢false}
use mathlib.Core.Option.{some-injective}
use mini_envoy.Base.Int.{ℤ, pos, negsuc}
use mini_envoy.Upstream.Endpoint.{Endpoint, eject, eligible, is_ejected, ejected, set_state}
use mini_envoy.Upstream.Registry.{Ptr, Store, get}
use mini_envoy.Routing.Table.{Run, done, panic, Route, deref, member_at, pick, pick_among, or_panic}
use mini_envoy.Routing.Table.Picks.{IsEligible, IsSafe, found_by, pick_among-IsSafe}
use mini_envoy.Reactor.Conn.Lookup.{get_elem-change_self}
use mini_envoy.Runtime.{
  Runtime, RuntimeError, upstream_not_found, already_ejected, operate, settled, eject_upstream,
}

-- A pointer to an endpoint of the store.
abbrev pub IsPtr : Store → Ptr → Type 0
IsPtr eps p = (e : Endpoint) × (get_elem? eps p ≡ some e)

-- The endpoint at an index of the members is the one that the member there points to.
deref-member :
    (eps : Store) (ps : List Ptr)
    → All (IsPtr eps) ps
    → (i : ℕ) (p : Ptr) → get_elem? ps i ≡ some p
    → get_elem? (deref eps ps) i ≡ get_elem? eps p
unfolding deref
deref-member eps [] h i p e = ground arith
deref-member eps (q ∷ ps) ((x, at), hs) zero p e =
    rw (at, deref) (sym at ∙ ap (get_elem? eps) (some-injective q p e))
deref-member eps (q ∷ ps) ((x, at), hs) (suc i) p e = rw (at, deref) (deref-member eps ps hs i p e)

-- The pointer that a run of `Pick` returns.
abbrev chosen : Run (Route × Option Ptr) → Option Ptr
chosen panic = none
chosen (done (r, o)) = o

module _ (eps : Store) (r : Route) (p : Ptr) where
  abbrev Result : Type 0
  Result = (e : Endpoint) × (get_elem? eps p ≡ some e) × (eligible e ≡ true)

  member-Result :
      (i : ℕ)
      → All (IsPtr eps) r.members
      → IsEligible (deref eps r.members) i
      → get_elem? r.members i ≡ some p
      → Result
  member-Result i h (e, at, ok) q = (e, sym (deref-member eps r.members h i p q) ∙ at, ok)

  -- What `Pick` returns may be picked.
  pick-eligible : All (IsPtr eps) r.members → chosen (pick eps r) ≡ some p → Result
  unfolding pick member_at
  pick-eligible h q =
      by_choice (pick_among (deref eps r.members) r) (pick_among-IsSafe (deref eps r.members) r) q
    where
      by_member :
          (r1 : Route) (i : ℕ) (o : Option Ptr)
          → get_elem? r.members i ≡ o
          → IsEligible (deref eps r.members) i
          → chosen (elim (or_panic o) [ panic ↦ panic | done p ↦ done (r1, some p) ]) ≡ some p
          → Result
      by_member r1 i none at ok e = ground arith
      by_member r1 i (some q) at ok e = member-Result i h ok (at ∙ e)

      by_choice :
          (o : Run (Route × Option ℤ))
          → IsSafe (deref eps r.members) (found_by o)
          → chosen (elim o [
            | panic ↦ panic
            | done (r', none) ↦ done (r', none)
            | done (r', some i) ↦ elim (member_at r.members i) [
              | panic ↦ panic
              | done p ↦ done (r', some p)
            ]
          ])
            ≡ some p
          → Result
      by_choice panic ok e = ground arith
      by_choice (done (r1, none)) ok e = ground arith
      by_choice (done (r1, some (pos i))) ok e = by_member r1 i (get_elem? r.members i) refl ok e
      by_choice (done (r1, some (negsuc i))) ok e = absurd ok

module _ (rt : Runtime) (reason : String) (q : Ptr) where
  settled-eligible :
      (e : Endpoint)
      → get_elem? rt.eps q ≡ some e
      → (settled already_ejected q (eject e reason) rt).0 ≡ none
      → (x : Endpoint) → get_elem? (settled already_ejected q (eject e reason) rt).1.eps q ≡ some x
      → eligible x ≡ false
  unfolding eject eligible
  settled-eligible e at ok x here = by_state (is_ejected e.state) ok here
    where
      out : Bool → Endpoint × Bool
      out b = if b then (e, false) else (set_state e ejected reason, true)

      by_state :
          (b : Bool)
          → (settled already_ejected q (out b) rt).0 ≡ none
          → get_elem? (settled already_ejected q (out b) rt).1.eps q ≡ some x
          → eligible x ≡ false
      by_state true ok here = ground arith
      by_state false ok here =
          let same : set_state e ejected reason ≡ x =
            some-injective (set_state e ejected reason) x
              (sym (get_elem-change_self (λ _. set_state e ejected reason) q rt.eps e at) ∙ here) in
          subst (λ j. eligible j ≡ false) same refl

  -- What an operation that returned nil leaves at its endpoint cannot be picked.
  abbrev IsOut : Option Ptr → Type 0
  IsOut o =
      (operate already_ejected (λ e. eject e reason) o rt).0 ≡ none
      → (x : Endpoint)
      → get_elem? (operate already_ejected (λ e. eject e reason) o rt).1.eps q ≡ some x
      → eligible x ≡ false

  operate-IsOut : IsOut (some q)
  operate-IsOut = by_endpoint (get_elem? rt.eps q) refl
    where
      out : Option Endpoint → Option RuntimeError × Runtime
      out o = elim o [
        | none ↦ (some upstream_not_found, rt)
        | some e ↦ settled already_ejected q (eject e reason) rt
      ]

      by_endpoint :
          (o : Option Endpoint)
          → get_elem? rt.eps q ≡ o
          → (out o).0 ≡ none
          → (x : Endpoint) → get_elem? (out o).1.eps q ≡ some x
          → eligible x ≡ false
      by_endpoint none at ok x here = ground arith
      by_endpoint (some e) at ok x here = settled-eligible e at ok x here

-- After the operator's `Eject` of an endpoint returned nil, no route with valid members picks it,
-- whatever its algorithm, its counters and the states of the other endpoints.
pub eject_upstream-unpicked :
    (rt : Runtime) (id reason : String) (q : Ptr) (r r' : Route)
    → (eject_upstream rt id reason).0 ≡ none
    → get (some rt.ups) id ≡ some q
    → All (IsPtr (eject_upstream rt id reason).1.eps) r.members
    → ¬ (pick (eject_upstream rt id reason).1.eps r ≡ done (r', some q))
unfolding eject_upstream
eject_upstream-unpicked rt id reason q r r' ok found members e =
    let (x, at, may) =
      pick-eligible (eject_upstream rt id reason).1.eps r q members (ap chosen e) in
    true≢false (sym may ∙ subst (IsOut rt reason q) (sym found) (operate-IsOut rt reason q) ok x at)
