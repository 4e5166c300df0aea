-- ===== src/Reactor/Tidy/Handlers.antt =====
-- The table of descriptors over the methods that dispatch and read.
use mini_envoy.Base.{ℕ, zero, suc, Bool, true, false, [], ◌∷◌}
use mini_envoy.Base.{Option, none, some}
use mini_envoy.Buffer.Ring.{Ring}
use mini_envoy.Upstream.Registry.{Ptr}
use mini_envoy.Routing.Table.{Route}
use mini_envoy.Protocol.Header.{Header}
use mini_envoy.Protocol.Parser.{Verdict}
use mini_envoy.Reactor.Platform.{Platform, Received, received, recv_failed}
use mini_envoy.Reactor.Conn.{Conn, Role, listening, down, up, connecting}
use mini_envoy.Reactor.Exec.{Exec}
use mini_envoy.Reactor.Exec.Rules.{Keeps, Keeps-skip, Keeps-no_fuel, keeps_rules}
use mini_envoy.Reactor.Write.{close_conn}
use mini_envoy.Reactor.Dispatch.{
  on_up, on_ping, resume, send_pending, set_pending, adopted, dialled, drop_peer, send_to,
  on_member, on_route, on_data, on_close, on_down, on_role, dispatch,
}
use mini_envoy.Reactor.Read.{on_verdict, frames, on_received, read_ring, read_once, read_loop}
use mini_envoy.Reactor.Tidy.{
  IsTidy, tidy_rules, flush-IsTidy, reply_error-IsTidy, close_conn-IsTidy,
}
use mini_envoy.Reactor.Tidy.Payload.{
  adopt_up-IsTidy, consume-IsTidy, payload_of-IsTidy, pick_route-IsTidy, refuse-IsTidy,
  serving-IsTidy, set_hdr-IsTidy, gentle_changes,
}

module _ {W : Type 0} (os : Platform W) (close : Ptr → Exec W (Unit {0}))
    (kept : (c : Ptr) → Keeps IsTidy (close c)) where
  on_up-IsTidy : (c : Ptr) (hdr : Header) (o : Option Ptr) → Keeps IsTidy (on_up os close c hdr o)
  unfolding on_up
  on_up-IsTidy c hdr none = consume-IsTidy c
  on_up-IsTidy c hdr (some d) =
      search (tidy_rules, set_hdr-IsTidy, payload_of-IsTidy, flush-IsTidy, kept, consume-IsTidy)
        depth 16

  on_ping-IsTidy : (c : Ptr) (hdr : Header) → Keeps IsTidy (on_ping os close c hdr)
  unfolding on_ping
  on_ping-IsTidy c hdr =
      search (tidy_rules, set_hdr-IsTidy, payload_of-IsTidy, flush-IsTidy, kept, consume-IsTidy)
        depth 16

  module _ (read : Ptr → Exec W (Unit {0})) (reads : (c : Ptr) → Keeps IsTidy (read c)) where
    resume-IsTidy : (d : Ptr) (k : Conn) → Keeps IsTidy (resume os close read d k)
    unfolding resume
    resume-IsTidy d k = search (tidy_rules, gentle_changes, reads) depth 12

    pub send_pending-IsTidy : (d u : Ptr) → Keeps IsTidy (send_pending os close read d u)
    unfolding send_pending
    send_pending-IsTidy d u =
        search
          (
            tidy_rules, gentle_changes, set_hdr-IsTidy, payload_of-IsTidy, flush-IsTidy, kept,
            consume-IsTidy, resume-IsTidy,
          )
          depth 20

    set_pending-IsTidy : (c : Ptr) (h : Header) → Keeps IsTidy (set_pending os close read c h)
    unfolding set_pending
    set_pending-IsTidy c h = search (tidy_rules, gentle_changes)

    adopted-IsTidy :
        (c : Ptr) (hdr : Header) (ep : Ptr) (progress : Bool) (u : Option Ptr)
        → Keeps IsTidy (adopted os close read c hdr ep progress u)
    unfolding adopted
    adopted-IsTidy c hdr ep progress none = search (tidy_rules, refuse-IsTidy) depth 12
    adopted-IsTidy c hdr ep progress (some u) =
        search (tidy_rules, gentle_changes, set_pending-IsTidy, send_pending-IsTidy) depth 12

    dialled-IsTidy :
        (c : Ptr) (hdr : Header) (ep : Ptr) (o : Option (ℕ × Bool))
        → Keeps IsTidy (dialled os close read c hdr ep o)
    unfolding dialled
    dialled-IsTidy c hdr ep none = search (tidy_rules, refuse-IsTidy) depth 12
    dialled-IsTidy c hdr ep (some (fd, progress)) =
        search (tidy_rules, adopt_up-IsTidy, adopted-IsTidy) depth 12

    drop_peer-IsTidy : (c : Ptr) (o : Option Ptr) → Keeps IsTidy (drop_peer os close read c o)
    unfolding drop_peer
    drop_peer-IsTidy c none = Keeps-skip
    drop_peer-IsTidy c (some p) = search (tidy_rules, gentle_changes, kept)

    send_to-IsTidy :
        (c : Ptr) (hdr : Header) (ep : Ptr) (o : Option Ptr)
        → Keeps IsTidy (send_to os close read c hdr ep o)
    unfolding send_to
    send_to-IsTidy c hdr ep none = search (tidy_rules, drop_peer-IsTidy, dialled-IsTidy) depth 12
    send_to-IsTidy c hdr ep (some p) = search (tidy_rules, set_pending-IsTidy, send_pending-IsTidy)

    on_member-IsTidy :
        (c : Ptr) (hdr : Header) (o : Option Ptr) → Keeps IsTidy (on_member os close read c hdr o)
    unfolding on_member
    on_member-IsTidy c hdr none = refuse-IsTidy os close kept c hdr _ _
    on_member-IsTidy c hdr (some ep) = search (tidy_rules, serving-IsTidy, send_to-IsTidy)

    on_route-IsTidy :
        (c : Ptr) (hdr : Header) (o : Option Route) → Keeps IsTidy (on_route os close read c hdr o)
    unfolding on_route
    on_route-IsTidy c hdr none = refuse-IsTidy os close kept c hdr _ _
    on_route-IsTidy c hdr (some rt) = search (tidy_rules, pick_route-IsTidy, on_member-IsTidy)

    on_data-IsTidy : (c : Ptr) (hdr : Header) → Keeps IsTidy (on_data os close read c hdr)
    unfolding on_data
    on_data-IsTidy c hdr = search (tidy_rules, on_route-IsTidy)

    on_close-IsTidy : (c : Ptr) → Keeps IsTidy (on_close os close read c)
    unfolding on_close
    on_close-IsTidy c = search (tidy_rules, consume-IsTidy, kept)

    on_down-IsTidy : (c : Ptr) (hdr : Header) → Keeps IsTidy (on_down os close read c hdr)
    unfolding on_down
    on_down-IsTidy c hdr =
        search
          (
            tidy_rules, on_ping-IsTidy, on_close-IsTidy, consume-IsTidy, on_data-IsTidy,
            refuse-IsTidy,
          )
          depth 12

    on_role-IsTidy : (r : Role) (c : Ptr) (k : Conn) → Keeps IsTidy (on_role os close read r c k)
    unfolding on_role
    on_role-IsTidy down c k = on_down-IsTidy c k.parser.hdr
    on_role-IsTidy up c k = on_up-IsTidy c k.parser.hdr k.peer
    on_role-IsTidy listening c k = consume-IsTidy c
    on_role-IsTidy connecting c k = consume-IsTidy c

    dispatch-IsTidy : (c : Ptr) → Keeps IsTidy (dispatch os close read c)
    unfolding dispatch
    dispatch-IsTidy c = search (tidy_rules, on_role-IsTidy)

    on_verdict-IsTidy :
        (again : Exec W Bool)
        → Keeps IsTidy again
        → (c : Ptr) (r : Role) (v : Verdict) → Keeps IsTidy (on_verdict os close read again c r v)
    unfolding on_verdict
    on_verdict-IsTidy again h c r (ok, some e) =
        search (tidy_rules, reply_error-IsTidy, kept) depth 12
    on_verdict-IsTidy again h c r (false, none) = search keeps_rules
    on_verdict-IsTidy again h c r (true, none) = search (tidy_rules, dispatch-IsTidy)

    frames-IsTidy : (n : ℕ) (c : Ptr) → Keeps IsTidy (frames os close read n c)
    unfolding frames
    frames-IsTidy zero c = Keeps-no_fuel
    frames-IsTidy (suc n) c =
        search (tidy_rules, gentle_changes, on_verdict-IsTidy, frames-IsTidy n) depth 12

    on_received-IsTidy :
        (parse : Exec W Bool)
        → Keeps IsTidy parse
        → (c : Ptr) (r : Ring) (got : Received)
        → Keeps IsTidy (on_received os close read parse c r got)
    unfolding on_received
    on_received-IsTidy parse h c r (recv_failed e) = search (tidy_rules, kept)
    on_received-IsTidy parse h c r (received []) = kept c
    on_received-IsTidy parse h c r (received (b ∷ bs)) =
        search (tidy_rules, gentle_changes, reads) depth 16

    read_ring-IsTidy :
        (parse : Exec W Bool)
        → Keeps IsTidy parse
        → (c : Ptr) (k : Conn) (r : Option Ring)
        → Keeps IsTidy (read_ring os close read parse c k r)
    unfolding read_ring
    read_ring-IsTidy parse h c k none = Keeps-skip
    read_ring-IsTidy parse h c k (some r) =
        search (tidy_rules, gentle_changes, on_received-IsTidy) depth 12

    read_once-IsTidy :
        (parse : Exec W Bool)
        → Keeps IsTidy parse
        → (c : Ptr) → Keeps IsTidy (read_once os close read parse c)
    unfolding read_once
    read_once-IsTidy parse h c = search (tidy_rules, read_ring-IsTidy)

module _ {W : Type 0} (os : Platform W) where
  -- Reading keeps the table tidy, whatever is read and what becomes of it.
  pub read_loop-IsTidy : (n : ℕ) (c : Ptr) → Keeps IsTidy (read_loop os n c)
  unfolding read_loop
  read_loop-IsTidy zero c = Keeps-no_fuel
  read_loop-IsTidy (suc n) c =
      read_once-IsTidy os (close_conn os 2) (close_conn-IsTidy os 2) (read_loop os n)
        (read_loop-IsTidy n) (frames os (close_conn os 2) (read_loop os n) n c)
        (frames-IsTidy os (close_conn os 2) (close_conn-IsTidy os 2) (read_loop os n)
          (read_loop-IsTidy n) n c)
        c
