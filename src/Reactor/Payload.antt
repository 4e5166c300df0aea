-- ===== src/Reactor/Payload.antt =====
-- internal/reactor/reactor.go: the frame in hand (its header, its payload, its route) and the
-- connections that join the table.
use mini_envoy.Base.{ℕ, ◌+◌, ◌%◌, ◌^◌, false, ◌==◌, ◌&&◌, List, [], ◌∷◌, ◌++◌}
use mini_envoy.Base.{Option, none, some, length, if◌then◌else◌}
use mini_envoy.Base.Int.{pos}
use mini_envoy.Buffer.Ring.{Ring, slice, attach_ring, release}
use mini_envoy.Metrics.{Shard}
use mini_envoy.Upstream.Endpoint.{add_active}
use mini_envoy.Upstream.Registry.{Ptr}
use mini_envoy.Routing.Table.{Route, Run, done, lookup, pick, put_route}
use mini_envoy.Routing.Table as Table
use mini_envoy.Protocol.Header.{Header, encode_header}
use mini_envoy.Protocol.Parser.{Parser, peek_payload, consume_payload}
use mini_envoy.Reactor.Platform.{Platform, read_only, write_only}
use mini_envoy.Reactor.Conn.{Conn, Role, is_connecting, is_up, new_conn, put}
use mini_envoy.Reactor.Exec.{
  Exec, pure, panic, gets, ask, modify, tell, ◌>>=◌, ◌>>◌, load, modify_conn, modify_ep, skip,
}
use mini_envoy.Reactor.Write.{is_ptr, reply_error}

abbrev pub add_in_frame : Shard → Shard
add_in_frame sh = record sh { in_frames = (sh.in_frames + 1) % 2 ^ 64 }

abbrev pub add_out_frame : Shard → Shard
add_out_frame sh = record sh { out_frames = (sh.out_frames + 1) % 2 ^ 64 }

module _ {W : Type 0} where
  -- `PeekPayload(c.Ring)`: a nil ring panics unless the payload is empty.
  unfoldable pub payload_of : Parser → Option Ring → Exec W (List (List ℕ))
  unfolding pure panic
  payload_of p none = if p.hdr.payload_len == 0 then pure ([] ∷ [] ∷ []) else panic
  payload_of p (some r) = let (a, b) = peek_payload p r in pure (slice r a ∷ slice r b ∷ [])

  -- `c.Parser.ConsumePayload(c.Ring)`, likewise
  unfoldable pub consume_ring : Ptr → Parser → Option Ring → Exec W (Unit {0})
  unfolding panic
  consume_ring c p none =
      if p.hdr.payload_len == 0
      then modify_conn c (λ k. record k { parser = record p { have_hdr = false } })
      else panic
  consume_ring c p (some r) =
      let (p', r') = consume_payload p r in
      modify_conn c (λ k. record k { parser = p'; ring = some r' })

  unfoldable pub consume : Ptr → Exec W (Unit {0})
  unfolding consume_ring
  consume c = do k ← load c; consume_ring c k.parser k.ring

  -- `EncodeHeader(h, c.Hdr[:])`
  unfoldable pub set_hdr : Ptr → Header → Exec W (Unit {0})
  set_hdr c h = modify_conn c (λ k. record k { hdr = encode_header h })

  -- `rt.Pick()`: the route keeps its counters.
  unfoldable pub picked : Run (Route × Option Ptr) → Exec W (Option Ptr)
  unfolding panic
  picked Table.panic = panic
  picked (done (rt, found)) = do
    modify (λ s. record s { routes = put_route rt s.routes })
    pure found

  unfoldable pub pick_route : Route → Exec W (Option Ptr)
  unfolding picked
  pick_route rt = do run ← gets (λ s. pick s.eps rt); picked run

  -- The peer of a connection, where it is connected to that endpoint.
  unfoldable pub serving : Option Ptr → Ptr → Exec W (Option Ptr)
  serving none ep = pure none
  serving (some p) ep = do
    q ← load p
    pure (if is_ptr ep q.ep && is_up q.role then some p else none)

  -- `&Conn{…}` and `r.tab.Put(c)`: the pointer of the new object
  unfoldable pub register : Conn → Exec W Ptr
  register k = do
    c ← gets (λ s. length s.conns)
    modify (λ s. record s { conns = s.conns ++ (k ∷ []); tab = put s.tab k.fd c })
    pure c

module _ {W : Type 0} (os : Platform W) (close : Ptr → Exec W (Unit {0})) where
  -- `adopt`: the pointer of the new connection, or nil.
  unfoldable pub adopt : ℕ → Role → Option Ptr → Exec W (Option Ptr)
  unfolding attach_ring new_conn register
  adopt fd role ep = do
    taken ← gets (λ s. attach_ring s.slab)
    modify (λ s. record s { slab = taken.0 })
    now ← ask os.now
    added ← ask (os.poll_add fd (if is_connecting role then write_only else read_only))
    if added
        then (do
          limit ← gets (λ s. s.max_payload)
          c ← register (new_conn fd role (some taken.1) ep now limit)
          if is_connecting role then skip else modify_ep ep (λ e. add_active e (pos 1))
          pure (some c))
        else (do
          modify (λ s. record s { slab = (release taken.1 s.slab).1 })
          tell (os.close fd)
          pure none)

  -- An ERROR frame to the client, and the payload is dropped.
  unfoldable pub refuse : Ptr → Header → ℕ → List ℕ → Exec W (Unit {0})
  unfolding consume
  refuse c hdr code msg = do reply_error os close c hdr code msg; consume c
