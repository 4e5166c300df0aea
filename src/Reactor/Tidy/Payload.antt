-- ===== src/Reactor/Tidy/Payload.antt =====
-- The table of descriptors over the methods on the frame in hand, and over `adopt`.
use mini_envoy.Base.{arith, if◌then◌else◌}
use mini_envoy.Base.{ℕ, ◌≡◌, inl, inr, refl, Bool, true, false, List, [], ◌∷◌}
use mini_envoy.Base.{Option, none, some, get_elem?, ◌++◌, length}
use mathlib.Core.Path.{subst}
use mini_envoy.Base.Int.{ℤ}
use mini_envoy.Buffer.Ring.{Ring}
use mini_envoy.Buffer.Slab.{Slab}
use mini_envoy.Upstream.Registry.{Ptr}
use mini_envoy.Routing.Table.{Route, Run, done, Table}
use mini_envoy.Routing.Table as Table
use mini_envoy.Protocol.Header.{Header}
use mini_envoy.Protocol.Parser.{Parser}
use mini_envoy.Reactor.Platform.{Platform}
use mini_envoy.Reactor.Conn.{Conn, Role, listening, down, up, connecting, new_conn}
use mini_envoy.Reactor.Conn.Lookup.{get-put, get_elem-append, get_elem-last}
use mini_envoy.Reactor.Exec.{Reactor, Exec, pure, gets, modify, ◌>>=◌}
use mini_envoy.Reactor.Exec.Rules.{Keeps, Keeps-panic, keeps_rules}
use mini_envoy.Reactor.Payload.{
  payload_of, consume_ring, consume, set_hdr, picked, pick_route, serving, register, adopt, refuse,
}
use mini_envoy.Reactor.Tidy.{
  HasRing, IsEntry, IsTidy, IsGentle, modify_conn-IsTidy, tidy_rules, flush-IsTidy,
  reply_error-IsTidy, flush_remain-IsTidy, close_conn-IsTidy, IsGentle-peer,
}

new_conn-HasRing :
    (fd : ℕ) (role : Role) (r : Ring) (ep : Option Ptr) (now : ℤ) (m : ℕ)
    → HasRing (new_conn fd role (some r) ep now m)
unfolding new_conn
new_conn-HasRing fd role r ep now m = (r, refl)

pub IsGentle-parser : (p : Parser) → IsGentle (λ k. record k { parser = p })
IsGentle-parser p = record { fd = λ k. refl; ring = λ k h. h; role = λ k h. h }

pub IsGentle-ring : (p : Parser) (r : Ring) → IsGentle (λ k. record k { parser = p; ring = some r })
IsGentle-ring p r = record { fd = λ k. refl; ring = λ k h. (r, refl); role = λ k h. h }

pub IsGentle-filled : (r : Ring) (now : ℤ) → IsGentle (λ k. record k { ring = some r; last = now })
IsGentle-filled r now = record { fd = λ k. refl; ring = λ k h. (r, refl); role = λ k h. h }

pub IsGentle-hdr : (b : List ℕ) → IsGentle (λ k. record k { hdr = b })
IsGentle-hdr b = record { fd = λ k. refl; ring = λ k h. h; role = λ k h. h }

pub IsGentle-paused : (b : Bool) → IsGentle (λ k. record k { paused = b })
IsGentle-paused b = record { fd = λ k. refl; ring = λ k h. h; role = λ k h. h }

pub IsGentle-waiting : (b : Bool) → IsGentle (λ k. record k { has_pending = b })
IsGentle-waiting b = record { fd = λ k. refl; ring = λ k h. h; role = λ k h. h }

pub IsGentle-pending : (h : Header) → IsGentle (λ k. record k { pending = h; has_pending = true })
IsGentle-pending h = record { fd = λ k. refl; ring = λ k h. h; role = λ k h. h }

pub IsGentle-up : IsGentle (λ k. record k { role = up })
IsGentle-up = record { fd = λ k. refl; ring = λ k h. h; role = λ k h. ground arith }

-- A connection that is not the listener.
record IsServed (k : Conn) : Type 0 where
  role : k.role ≡ listening → ⊥

new_conn-IsServed :
    (fd : ℕ) (role : Role) (r : Option Ring) (ep : Option Ptr) (now : ℤ) (m : ℕ)
    → (role ≡ listening → ⊥)
    → IsServed (new_conn fd role r ep now m)
unfolding new_conn
new_conn-IsServed fd role r ep now m h = record { role = h }

pub ruleset gentle_changes = (
  IsGentle-parser, IsGentle-ring, IsGentle-filled, IsGentle-hdr, IsGentle-paused, IsGentle-waiting,
  IsGentle-pending, IsGentle-up, IsGentle-peer,
)

module _ {W : Type 0} where
  pub slab-IsTidy : (f : Reactor W → Slab) → Keeps IsTidy (modify (λ s. record s { slab = f s }))
  unfolding modify
  slab-IsTidy f = record { at = λ s t. t }

  pub routes-IsTidy :
      (f : Reactor W → Table) → Keeps IsTidy (modify (λ s. record s { routes = f s }))
  unfolding modify
  routes-IsTidy f = record { at = λ s t. t }

  -- A new connection with a ring.
  register-IsTidy : (k : Conn) → HasRing k → IsServed k → Keeps IsTidy (register {W = W} k)
  unfolding register gets modify pure ◌>>=◌
  register-IsTidy k r v = record {
    at = λ s t fd p h. elim (get-put s.tab k.fd fd (length s.conns) p h) [
      | inl (a, b) ↦ record {
        conn = k;
        at = subst (λ q. get_elem? (s.conns ++ (k ∷ [])) q ≡ some k) b (get_elem-last s.conns k);
        same = a;
        ring = inr r;
        only = λ l. absurd (v.role l);
      }
      | inr g ↦
          let e = t fd p g in
          record {
            conn = e.conn;
            at = get_elem-append s.conns (k ∷ []) p e.conn e.at;
            same = e.same;
            ring = e.ring;
            only = e.only;
          }
    ];
  }

  pub payload_of-IsTidy : (p : Parser) (r : Option Ring) → Keeps IsTidy (payload_of {W = W} p r)
  unfolding payload_of
  payload_of-IsTidy p none = search keeps_rules
  payload_of-IsTidy p (some r) = search keeps_rules

  pub consume_ring-IsTidy :
      (c : Ptr) (p : Parser) (r : Option Ring) → Keeps IsTidy (consume_ring {W = W} c p r)
  unfolding consume_ring
  consume_ring-IsTidy c p none = search (tidy_rules, IsGentle-parser)
  consume_ring-IsTidy c p (some r) = search (tidy_rules, IsGentle-ring)

  pub consume-IsTidy : (c : Ptr) → Keeps IsTidy (consume {W = W} c)
  unfolding consume
  consume-IsTidy c = search (keeps_rules, consume_ring-IsTidy)

  pub picked-IsTidy : (r : Run (Route × Option Ptr)) → Keeps IsTidy (picked {W = W} r)
  unfolding picked
  picked-IsTidy Table.panic = Keeps-panic
  picked-IsTidy (done (rt, found)) = search (keeps_rules, routes-IsTidy)

  pub pick_route-IsTidy : (rt : Route) → Keeps IsTidy (pick_route {W = W} rt)
  unfolding pick_route
  pick_route-IsTidy rt = search (keeps_rules, picked-IsTidy)

  pub serving-IsTidy : (o : Option Ptr) (ep : Ptr) → Keeps IsTidy (serving {W = W} o ep)
  unfolding serving
  serving-IsTidy none ep = search keeps_rules
  serving-IsTidy (some p) ep = search keeps_rules

  pub set_hdr-IsTidy : (c : Ptr) (h : Header) → Keeps IsTidy (set_hdr {W = W} c h)
  unfolding set_hdr
  set_hdr-IsTidy c h = search (tidy_rules, gentle_changes)

module _ {W : Type 0} (os : Platform W) (close : Ptr → Exec W (Unit {0}))
    (kept : (c : Ptr) → Keeps IsTidy (close c)) where
  adopt-IsTidy :
      (fd : ℕ) (role : Role) (ep : Option Ptr)
      → (role ≡ listening → ⊥)
      → Keeps IsTidy (adopt os close fd role ep)
  unfolding adopt
  adopt-IsTidy fd role ep h =
      search
        (
          tidy_rules,
          slab-IsTidy,
          register-IsTidy,
          new_conn-HasRing,
          new_conn-IsServed fd role _ ep _ _ h,
        )
        depth 16

  pub adopt_down-IsTidy : (fd : ℕ) → Keeps IsTidy (adopt os close fd down none)
  adopt_down-IsTidy fd = adopt-IsTidy fd down none (λ h. ground arith)

  pub adopt_up-IsTidy :
      (fd : ℕ) (progress : Bool) (ep : Ptr)
      → Keeps IsTidy (adopt os close fd (if progress then connecting else up) (some ep))
  adopt_up-IsTidy fd true ep = adopt-IsTidy fd connecting (some ep) (λ h. ground arith)
  adopt_up-IsTidy fd false ep = adopt-IsTidy fd up (some ep) (λ h. ground arith)

  pub refuse-IsTidy :
      (c : Ptr) (hdr : Header) (code : ℕ) (msg : List ℕ)
      → Keeps IsTidy (refuse os close c hdr code msg)
  unfolding refuse
  refuse-IsTidy c hdr code msg = search (keeps_rules, reply_error-IsTidy, kept, consume-IsTidy)
