-- ===== src/Tests/Proxying.antt =====
-- Runs of a reactor on a scripted operating system.
use mini_envoy.Base.{ℕ, ◌≡◌, refl, true, false, List, [], ◌∷◌, ◌++◌}
use mini_envoy.Base.{some}
use mini_envoy.Base.Int.{pos, negsuc}
use mini_envoy.Protocol.Header.{encode_header}
use mini_envoy.Protocol.Errors.{code_upstream_fail, text_bytes}
use mini_envoy.Protocol.Frame.{encode_error}
use mini_envoy.Protocol.Opcode.{op_close}
use mini_envoy.Reactor.Exec.{Reactor}
use mini_envoy.Reactor.Platform.{no_error, again, other, received, recv_failed}
use mini_envoy.Tests.Samples.{two}
use mini_envoy.Tests.Network.{
  World, silent, start, endpoint, route, readable_at, outputs, round, has_panicked,
}

unfoldable pub request : List ℕ
unfolding encode_header
request = encode_header two ++ (7 ∷ 8 ∷ [])

unfoldable pub reply : List ℕ
unfolding encode_header
reply = encode_header two ++ (9 ∷ 9 ∷ [])

abbrev farewell : List ℕ
unfolding encode_header
farewell = encode_header (record two { opcode = op_close; payload_len = 0 })

-- A client's frame goes to the upstream, and the answer back.
abbrev pub exchange : World
exchange = record silent {
  incoming = 10 ∷ [];
  inputs = (10, received request) ∷ (11, received reply) ∷ [];
  dials = some (11, false) ∷ [];
}

exchange_runs :
    outputs (round 9 (readable_at 3 ∷ readable_at 11 ∷ []) (start exchange))
    ≡ some ((11, request) ∷ (10, reply) ∷ [])
unfolding round start request reply
exchange_runs = refl

-- A write that would block: the call's -1 becomes an index.
blocked_panics :
    has_panicked
      (round 9 (readable_at 3 ∷ []) (start (record exchange { writes = (negsuc 0, again) ∷ [] })))
    ≡ true
unfolding round start request reply
blocked_panics = refl

-- The client is gone when the answer comes: closing it closes the upstream whose frame is in hand.
gone_panics :
    has_panicked (
      round 9
        (readable_at 3 ∷ readable_at 11 ∷ [])
        (start (record exchange { writes = (pos 34, no_error) ∷ (negsuc 0, other) ∷ [] })))
    ≡ true
unfolding round start request reply
gone_panics = refl

-- A CLOSE frame: the parser goes on with the ring that closing took.
close_panics :
    has_panicked (
      round 9
        (readable_at 3 ∷ [])
        (start (record silent { incoming = 10 ∷ []; inputs = (10, received farewell) ∷ [] })))
    ≡ true
unfolding round start farewell
close_panics = refl

-- Two requests of a client with an answer to the first, on a route of two endpoints.
abbrev twice : World
twice = record silent {
  incoming = 10 ∷ [];
  inputs =
      (10, received request)
      ∷ (10, recv_failed again)
      ∷ (10, received request)
      ∷ (11, received reply)
      ∷ [];
  dials = some (11, false) ∷ some (12, false) ∷ [];
}

abbrev balanced : World → Reactor World
balanced w = record (start w) {
  routes = (1, record route { members = 0 ∷ 1 ∷ [] }) ∷ [];
  eps = endpoint ∷ endpoint ∷ [];
}

unfoldable upstream_closed : List ℕ
unfolding encode_error
upstream_closed = encode_error [] two code_upstream_fail (text_bytes "upstream closed")

-- The client changes to the other endpoint, and an ERROR frame for its answered request comes
-- before the second request goes out.
reselect_errs :
    outputs (round 9 (readable_at 3 ∷ readable_at 11 ∷ readable_at 10 ∷ []) (balanced twice))
    ≡ some ((11, request) ∷ (10, reply) ∷ (10, upstream_closed) ∷ (12, request) ∷ [])
unfolding round start endpoint request reply upstream_closed text_bytes
reselect_errs = refl
