-- ===== src/Reactor/Closing.antt =====
-- How to show that a method has the fuel that it needs: what runs of actions that set no peer end in.
pub mod End
use mini_envoy.Base.{ℕ, zero, suc, ◌≡◌, refl, sym, ap, ◌∙◌, Bool, true, false, List, [], ◌∷◌}
use mini_envoy.Base.{Option, none, some, get_elem?, if◌then◌else◌, arith}
use mathlib.Core.Path.{subst}
use mathlib.Core.Option.{some-injective}
use mini_envoy.Base.Int.{ℤ, pos, negsuc}
use mini_envoy.Buffer.Ring.{Ring, release}
use mini_envoy.Upstream.Endpoint.{Endpoint}
use mini_envoy.Upstream.Registry.{Ptr}
use mini_envoy.Protocol.Header.{Header}
use mini_envoy.Metrics.{Shard}
use mini_envoy.Reactor.Platform.{Platform, SysError}
use mini_envoy.Reactor.Conn.{Conn, del, change}
use mini_envoy.Reactor.Exec.{
  Reactor, Outcome, returned, panicked, out_of_fuel, Exec, pure, panic, gets, ask, modify, tell,
  continue, or_panic, ◌>>=◌, load, modify_conn, count, modify_ep, skip,
}
use mini_envoy.Reactor.Write.{
  stash_remainder, sent, flush_remain, written, write_parts, flush, reply_error, close_peer,
  release_ring, close_open, close_once, close_conn,
}

-- A run that returns in a state with `P` or panics, and has the fuel that it needs.
abbrev pub Ends : {W A : Type 0} → (Reactor W → Type 0) → Outcome (A × Reactor W) → Type 0
Ends P (returned (a, s)) = P s
Ends P panicked = Unit
Ends P out_of_fuel = ⊥

pub record Leads {W A : Type 0} (P Q : Reactor W → Type 0) (m : Exec W A) : Type 0 where
  pub at : (s : Reactor W) → P s → Ends Q (m s)

module _ {W A B : Type 0} where
  pub Ends-continue :
      (P Q : Reactor W → Type 0) (o : Outcome (A × Reactor W)) (f : A → Exec W B)
      → Ends P o
      → ((a : A) → Leads P Q (f a))
      → Ends Q (continue o f)
  Ends-continue P Q (returned (a, s)) f h k = (k a).at s h
  Ends-continue P Q panicked f h k = tt
  Ends-continue P Q out_of_fuel f h k = h

  pub Leads-step :
      {P Q R : Reactor W → Type 0} (m : Exec W A) (f : A → Exec W B)
      → Leads P Q m
      → ((a : A) → Leads Q R (f a))
      → Leads P R (m >>= f)
  unfolding ◌>>=◌
  Leads-step m f h k = record { at = λ s p. Ends-continue _ _ (m s) f (h.at s p) k }

module _ {W A : Type 0} {P : Reactor W → Type 0} where
  pub Leads-pure : (a : A) → Leads P P (pure a)
  unfolding pure
  Leads-pure a = record { at = λ s h. h }

  pub Leads-panic : Leads P P (panic {A = A})
  unfolding panic
  Leads-panic = record { at = λ s h. tt }

  pub Leads-gets : (f : Reactor W → A) → Leads P P (gets f)
  unfolding gets
  Leads-gets f = record { at = λ s h. h }

  pub Leads-or_panic : (o : Option A) → Leads P P (or_panic o)
  unfolding or_panic
  Leads-or_panic none = record { at = λ s h. tt }
  Leads-or_panic (some a) = record { at = λ s h. h }

  pub Leads-if :
      (b : Bool) (m n : Exec W A) → Leads P P m → Leads P P n → Leads P P (if b then m else n)
  Leads-if true m n h k = h
  Leads-if false m n h k = k

module _ {W A B : Type 0} {P : Reactor W → Type 0} where
  pub Leads-bind :
      (m : Exec W A) (f : A → Exec W B)
      → Leads P P m
      → ((a : A) → Leads P P (f a))
      → Leads P P (m >>= f)
  Leads-bind m f h k = Leads-step m f h k

module _ {W : Type 0} {P : Reactor W → Type 0} where
  pub Leads-skip : Leads P P (skip {W = W})
  unfolding skip
  Leads-skip = record { at = λ s h. h }

  pub Leads-load : (p : Ptr) → Leads P P (load {W = W} p)
  unfolding load
  Leads-load p = Leads-bind (gets (λ s. get_elem? s.conns p)) or_panic (Leads-gets _) Leads-or_panic

pub ruleset leads_rules = (
  Leads-pure, Leads-panic, Leads-gets, Leads-or_panic, Leads-if, Leads-bind, Leads-skip, Leads-load,
)

-- The connection at that pointer has no peer.
abbrev pub IsLone : {W : Type 0} → Ptr → Reactor W → Type 0
IsLone p s = (k : Conn) → get_elem? s.conns p ≡ some k → k.peer ≡ none

-- A change that gives no peer.
pub record IsSolitary (f : Conn → Conn) : Type 0 where
  pub peer : (k : Conn) → k.peer ≡ none → (f k).peer ≡ none

change-IsLone :
    (f : Conn → Conn)
    → IsSolitary f
    → (c p : Ptr) (xs : List Conn) → ((k : Conn) → get_elem? xs p ≡ some k → k.peer ≡ none)
    → (k : Conn) → get_elem? (change f c xs) p ≡ some k
    → k.peer ≡ none
change-IsLone f g c p [] h k e = h k e
change-IsLone f g zero zero (x ∷ xs) h k e =
    subst (λ j. j.peer ≡ none) (some-injective (f x) k e) (g.peer x (h x refl))
change-IsLone f g zero (suc p) (x ∷ xs) h k e = h k e
change-IsLone f g (suc c) zero (x ∷ xs) h k e = h k e
change-IsLone f g (suc c) (suc p) (x ∷ xs) h k e = change-IsLone f g c p xs h k e

-- Where a pointer is given, the connection at it has no peer.
abbrev pub Lone : {W : Type 0} → Option Ptr → Reactor W → Type 0
Lone none s = Unit
Lone (some p) s = IsLone p s

module _ {W : Type 0} (o : Option Ptr) where
  pub modify_conn-Lone :
      (c : Ptr) (f : Conn → Conn) → IsSolitary f → Leads (Lone o) (Lone o) (modify_conn {W = W} c f)
  unfolding modify_conn modify
  modify_conn-Lone c f g = record { at = λ s h. kept o s h }
    where
      kept :
          (o : Option Ptr) (s : Reactor W)
          → Lone o s
          → Lone o (record s { conns = change f c s.conns })
      kept none s h = tt
      kept (some p) s h = change-IsLone f g c p s.conns h

  -- What does not touch the connections.
  same_Lone : (s t : Reactor W) → s.conns ≡ t.conns → Lone o s → Lone o t
  same_Lone s t e h = moved o h
    where
      moved : (o : Option Ptr) → Lone o s → Lone o t
      moved none h = tt
      moved (some p) h = λ k q. h k (ap (λ cs. get_elem? cs p) e ∙ q)

  pub tell-Lone : (f : W → W) → Leads (Lone o) (Lone o) (tell f)
  unfolding tell
  tell-Lone f = record { at = λ s h. same_Lone s _ refl h }

  pub ask-Lone : {A : Type 0} (f : W → W × A) → Leads (Lone o) (Lone o) (ask f)
  unfolding ask
  ask-Lone f = record { at = λ s h. same_Lone s _ refl h }

  pub count-Lone : (f : Shard → Shard) → Leads (Lone o) (Lone o) (count {W = W} f)
  unfolding count modify
  count-Lone f = record { at = λ s h. same_Lone s _ refl h }

  pub modify_ep-Lone :
      (e : Option Ptr) (f : Endpoint → Endpoint) → Leads (Lone o) (Lone o) (modify_ep {W = W} e f)
  unfolding modify_ep modify pure
  modify_ep-Lone none f = record { at = λ s h. h }
  modify_ep-Lone (some p) f = record { at = λ s h. same_Lone s _ refl h }

  pub tab-Lone :
      (fd : ℕ)
      → Leads (Lone o) (Lone o) (modify (λ (s : Reactor W). record s { tab = del s.tab fd }))
  unfolding modify
  tab-Lone fd = record { at = λ s h. same_Lone s _ refl h }

  pub release-Lone :
      (r : Ring)
      → Leads
          (Lone o)
          (Lone o)
          (modify (λ (s : Reactor W). record s { slab = (release r s.slab).1 }))
  unfolding modify
  release-Lone r = record { at = λ s h. same_Lone s _ refl h }

pub IsSolitary-remain : (f : Conn → List ℕ) → IsSolitary (λ k. record k { write_remain = f k })
IsSolitary-remain f = record { peer = λ k h. h }

pub IsSolitary-last : (now : ℤ) → IsSolitary (λ k. record k { last = now })
IsSolitary-last now = record { peer = λ k h. h }

pub IsSolitary-peer : IsSolitary (λ k. record k { peer = none })
IsSolitary-peer = record { peer = λ k h. refl }

pub IsSolitary-ring : IsSolitary (λ k. record k { ring = none })
IsSolitary-ring = record { peer = λ k h. h }

pub ruleset lone_rules = (
  leads_rules, modify_conn-Lone, tell-Lone, ask-Lone, count-Lone, modify_ep-Lone, tab-Lone,
  release-Lone, IsSolitary-remain, IsSolitary-last, IsSolitary-peer, IsSolitary-ring,
)
