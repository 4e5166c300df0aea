-- ===== src/Reactor/Dispatch.antt =====
-- internal/reactor/reactor.go: what becomes of a frame. `dispatch` reaches `readLoop` through
-- `sendPending`; each method takes here the `readLoop` and the `closeConn` that it calls.
use mini_envoy.Base.{ℕ, Bool, true, false, ◌==◌, ◌∷◌}
use mini_envoy.Base.{Option, none, some, if◌then◌else◌}
use mini_envoy.Base.Int.{pos}
use mini_envoy.Buffer.Ring.{len}
use mini_envoy.Upstream.Endpoint.{record_fail, record_success}
use mini_envoy.Upstream.Registry.{Ptr}
use mini_envoy.Routing.Table.{Route, lookup}
use mini_envoy.Protocol.Opcode.{op_data, op_ping, op_pong, op_close, op_error}
use mini_envoy.Protocol.Errors.{
  text_bytes, code_route_not_found, code_no_upstream, code_upstream_fail, code_unknown_opcode,
}
use mini_envoy.Protocol.Header.{Header, encode_header}
use mini_envoy.Reactor.Platform.{Platform}
use mini_envoy.Reactor.Conn.{Conn, Role, listening, down, up, connecting, should_resume}
use mini_envoy.Reactor.Exec.{
  Exec, gets, ask, ◌>>=◌, ◌>>◌, or_panic, load, modify_conn, count, modify_ep, load_ep, skip,
}
use mini_envoy.Reactor.Write.{add_error, flush}
use mini_envoy.Reactor.Payload.{
  add_in_frame, add_out_frame, payload_of, consume, set_hdr, pick_route, serving, adopt, refuse,
}

module _ {W : Type 0} (os : Platform W) (close : Ptr → Exec W (Unit {0})) where
  unfoldable pub on_up : Ptr → Header → Option Ptr → Exec W (Unit {0})
  unfolding consume payload_of set_hdr
  on_up c hdr none = consume c
  on_up c hdr (some d) = do
    k ← load c
    s ← gets (λ s. s)
    modify_ep k.ep (λ e. record_success e s.pass_n)
    if hdr.opcode == op_error
        then (do modify_ep k.ep (λ e. record_fail e s.fail_n); count add_error)
        else skip
    set_hdr d hdr
    parts ← payload_of k.parser k.ring
    flush os close d (encode_header hdr ∷ parts)
    consume c
    count add_out_frame

  unfoldable pub on_ping : Ptr → Header → Exec W (Unit {0})
  unfolding consume payload_of set_hdr
  on_ping c hdr = do
    set_hdr c (record hdr { opcode = op_pong })
    k ← load c
    parts ← payload_of k.parser k.ring
    flush os close c (encode_header (record hdr { opcode = op_pong }) ∷ parts)
    consume c

  module _ (read : Ptr → Exec W (Unit {0})) where
    -- `down.Ring.Len()` on a nil ring panics.
    unfoldable pub resume : Ptr → Conn → Exec W (Unit {0})
    unfolding or_panic should_resume
    resume d k =
        if k.paused
        then (do
          r ← or_panic k.ring
          s ← gets (λ s. s)
          if should_resume (pos (len r)) s.low
              then (do modify_conn d (λ j. record j { paused = false }); read d)
              else skip)
        else skip

    unfoldable pub send_pending : Ptr → Ptr → Exec W (Unit {0})
    unfolding consume payload_of set_hdr resume
    send_pending d u = do
      k ← load d
      set_hdr d k.pending
      parts ← payload_of k.parser k.ring
      flush os close u (encode_header k.pending ∷ parts)
      consume d
      modify_conn d (λ j. record j { has_pending = false })
      k' ← load d
      resume d k'

    -- `c.Pending = hdr` and `c.HasPending = true`
    unfoldable pub set_pending : Ptr → Header → Exec W (Unit {0})
    set_pending c hdr = modify_conn c (λ k. record k { pending = hdr; has_pending = true })

    -- What follows `adopt`.
    unfoldable pub adopted : Ptr → Header → Ptr → Bool → Option Ptr → Exec W (Unit {0})
    unfolding refuse send_pending set_pending
    adopted c hdr ep progress none = do
      s ← gets (λ s. s)
      modify_ep (some ep) (λ e. record_fail e s.fail_n)
      refuse os close c hdr code_upstream_fail (text_bytes "adopt failed")
    adopted c hdr ep progress (some u) = do
      modify_conn u (λ k. record k { peer = some c })
      modify_conn c (λ k. record k { peer = some u })
      set_pending c hdr
      if progress then skip else send_pending c u

    -- What follows `ConnectTCP4`.
    unfoldable pub dialled : Ptr → Header → Ptr → Option (ℕ × Bool) → Exec W (Unit {0})
    unfolding refuse adopt adopted
    dialled c hdr ep none = do
      s ← gets (λ s. s)
      modify_ep (some ep) (λ e. record_fail e s.fail_n)
      refuse os close c hdr code_upstream_fail (text_bytes "dial failed")
    dialled c hdr ep (some (fd, progress)) = do
      u ← adopt os close fd (if progress then connecting else up) (some ep)
      adopted c hdr ep progress u

    -- `closeConn(c.Peer, "reselect")` where there is a peer
    unfoldable pub drop_peer : Ptr → Option Ptr → Exec W (Unit {0})
    drop_peer c none = skip
    drop_peer c (some p) = do close p; modify_conn c (λ k. record k { peer = none })

    unfoldable pub send_to : Ptr → Header → Ptr → Option Ptr → Exec W (Unit {0})
    unfolding send_pending set_pending drop_peer dialled
    send_to c hdr ep (some p) = do set_pending c hdr; send_pending c p
    send_to c hdr ep none = do
      k ← load c
      drop_peer c k.peer
      e ← load_ep ep
      reached ← ask (os.connect e.ip e.port)
      dialled c hdr ep reached

    unfoldable pub on_member : Ptr → Header → Option Ptr → Exec W (Unit {0})
    unfolding refuse serving send_to
    on_member c hdr none = refuse os close c hdr code_no_upstream (text_bytes "no healthy upstream")
    on_member c hdr (some ep) = do k ← load c; peer ← serving k.peer ep; send_to c hdr ep peer

    unfoldable pub on_route : Ptr → Header → Option Route → Exec W (Unit {0})
    unfolding refuse pick_route on_member
    on_route c hdr none = refuse os close c hdr code_route_not_found (text_bytes "route not found")
    on_route c hdr (some rt) = do found ← pick_route rt; on_member c hdr found

    unfoldable pub on_data : Ptr → Header → Exec W (Unit {0})
    unfolding on_route lookup
    on_data c hdr = do rt ← gets (λ s. lookup s.routes hdr.route_id); on_route c hdr rt

    unfoldable pub on_close : Ptr → Exec W (Unit {0})
    unfolding consume
    on_close c = do consume c; close c

    unfoldable pub on_down : Ptr → Header → Exec W (Unit {0})
    unfolding on_ping on_close consume on_data refuse
    on_down c hdr =
        if hdr.opcode == op_ping
        then on_ping c hdr
        else if hdr.opcode == op_close
        then on_close c
        else if hdr.opcode == op_error
        then consume c
        else if hdr.opcode == op_data
        then on_data c hdr
        else refuse os close c hdr code_unknown_opcode (text_bytes "opcode")

    unfoldable pub on_role : Role → Ptr → Conn → Exec W (Unit {0})
    unfolding on_down on_up consume
    on_role down c k = on_down c k.parser.hdr
    on_role up c k = on_up c k.parser.hdr k.peer
    on_role listening c k = consume c
    on_role connecting c k = consume c

    unfoldable pub dispatch : Ptr → Exec W (Unit {0})
    unfolding on_role
    dispatch c = do k ← load c; count add_in_frame; on_role k.role c k
