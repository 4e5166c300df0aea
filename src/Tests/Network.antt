-- ===== src/Tests/Network.antt =====
-- A scripted operating system, and reactors that run on it.
use mini_envoy.Base.{ℕ, ◌+◌, Bool, true, false, List, [], ◌∷◌, ◌++◌, length, take}
use mini_envoy.Base.{Option, none, some, if◌then◌else◌, ◌==◌}
use mini_envoy.Base.Int.{ℤ, pos, pos_part, ◌+ℤ◌}
use mini_envoy.Buffer.Slab.{Slab, new_slab, store_chunk}
use mini_envoy.Buffer.Slab as Slab
use mini_envoy.Buffer.Ring.{
  attach_ring, release, cap, len, free, writable, fill, write_at, advance_write, peek, advance_read,
  slice, copy_out, copy_two,
}
use mini_envoy.Protocol.Header.{decode_header, read_header, encode_header, validate}
use mini_envoy.Protocol.Frame.{encode_error}
use mini_envoy.Protocol.Parser.{max, next, peek_payload, consume_payload}
use mini_envoy.Metrics.{idle_shard}
use mini_envoy.Upstream.Endpoint.{
  Endpoint, new_endpoint, eligible, record_fail, record_success, add_active, add_in_bytes,
  add_out_bytes,
}
use mini_envoy.Routing.Table.{
  Route, rr, pick, pick_among, pick_rr, probe_from, probe_member, member_at, counted, deref, lookup,
}
use mini_envoy.Routing.RoundRobin.{rr_next}
use mini_envoy.Reactor.Platform.{
  Platform, Event, SysError, no_error, again, Received, recv_failed, read_only,
}
use mini_envoy.Reactor.Write.{
  joined, gather_parts, stash, stash_remainder, sent, flush_remain, written, write_parts, flush,
  reply_error, close_peer, release_ring, close_open, close_once, close_conn,
}
use mini_envoy.Reactor.Exec.{
  Reactor, Exec, Outcome, returned, panicked, out_of_fuel, pure, panic, gets, ask, modify, tell,
  ◌>>=◌, or_panic, load, modify_conn, count, modify_ep, load_ep, skip,
}
use mini_envoy.Reactor.Payload.{
  payload_of, consume_ring, consume, set_hdr, picked, pick_route, serving, register, adopt, refuse,
}
use mini_envoy.Reactor.Dispatch.{
  on_up, on_ping, resume, send_pending, set_pending, adopted, dialled, drop_peer, send_to,
  on_member, on_route, on_data, on_close, on_down, on_role, dispatch,
}
use mini_envoy.Reactor.Read.{on_verdict, frames, on_received, read_ring, read_once, read_loop}
use mini_envoy.Reactor.Loop.{
  new_reactor, ring_usage, read_adopted, accepted, accept_loop, refuse_down, send_waiting,
  connect_failed, connected, finish_connect, on_event, on_found, handle, handle_all, sweep,
  sweep_idle, gauge, run_round,
}
use mini_envoy.Reactor.Conn.{
  Conn, listening, down, up, new_conn, get, put, del, all, should_pause, should_resume,
}

-- What the calls will give, and what was written. A write takes everything where `writes` has
-- nothing for it.
pub record World : Type 0 where
  pub incoming : List ℕ
  pub inputs : List (ℕ × Received)
  pub writes : List (ℤ × SysError)
  pub dials : List (Option (ℕ × Bool))
  pub output : List (ℕ × List ℕ)
  pub clock : ℕ

abbrev pub silent : World
silent = record { incoming = []; inputs = []; writes = []; dials = []; output = []; clock = 0 }

-- The first input of a descriptor, and the others.
abbrev first_of : ℕ → List (ℕ × Received) → Received × List (ℕ × Received)
first_of fd [] = (recv_failed again, [])
first_of fd ((i, r) ∷ rs) =
    let rest = first_of fd rs in if i == fd then (r, rs) else (rest.0, (i, r) ∷ rest.1)

abbrev pub wrote : ℕ → List ℕ → World → World × (ℤ × SysError)
wrote fd bs w = result w.writes
  where
    result : List (ℤ × SysError) → World × (ℤ × SysError)
    result [] = (record w { output = w.output ++ ((fd, bs) ∷ []) }, (pos (length bs), no_error))
    result (r ∷ rs) =
        (record w { output = w.output ++ ((fd, take (pos_part r.0) bs) ∷ []); writes = rs }, r)

abbrev accepted_of : List ℕ → World → World × Option ℕ
accepted_of [] w = (w, none)
accepted_of (fd ∷ fds) w = (record w { incoming = fds }, some fd)

abbrev dial_of : List (Option (ℕ × Bool)) → World → World × Option (ℕ × Bool)
dial_of [] w = (w, none)
dial_of (d ∷ ds) w = (record w { dials = ds }, d)

abbrev pub network : Platform World
network = record {
  accept = λ fd w. accepted_of w.incoming w;
  recv = λ fd n w. let found = first_of fd w.inputs in (record w { inputs = found.1 }, found.0);
  writev = λ fd iov w. wrote fd (joined iov) w;
  send = λ fd bs w. wrote fd bs w;
  connect = λ ip port w. dial_of w.dials w;
  so_error = λ fd w. (w, false);
  close = λ fd w. w;
  poll_add = λ fd bits w. (w, true);
  poll_mod = λ fd bits w. w;
  poll_del = λ fd w. w;
  poll_close = λ w. w;
  now = λ w. (record w { clock = w.clock + 1 }, pos w.clock);
}

-- One endpoint, one route to it, and a reactor that listens on descriptor 3.
unfoldable pub endpoint : Endpoint
unfolding new_endpoint
endpoint = new_endpoint "a" (127 ∷ 0 ∷ 0 ∷ 1 ∷ []) (pos 9001) (pos 1)

abbrev pub route : Route
route = record { id = 1; name = "r"; algo = rr; members = 0 ∷ []; count = 0; current = [] }

unfoldable pub start : World → Reactor World
unfolding new_reactor new_slab endpoint
start w =
    new_reactor 3 ((1, route) ∷ []) (new_slab 64 1) (some idle_shard) (endpoint ∷ []) (pos 48)
      (pos 16) 64 3 2 (pos 1000) w

abbrev pub readable_at : ℕ → Event
readable_at fd = record { fd = fd; bits = read_only }

abbrev pub outputs : {A : Type 0} → Outcome (A × Reactor World) → Option (List (ℕ × List ℕ))
outputs (returned (a, s)) = some s.os.output
outputs panicked = none
outputs out_of_fuel = none

abbrev pub has_panicked : {A : Type 0} → Outcome (A × Reactor World) → Bool
has_panicked panicked = true
has_panicked _ = false

-- The events of one round, unfolded as far as they compute.
unfoldable pub round : ℕ → List Event → Exec World (Unit {0})
unfolding pure panic gets ask modify tell ◌>>=◌ or_panic load modify_conn count modify_ep load_ep
    skip del all should_pause should_resume gather_parts stash stash_remainder sent flush_remain
    written write_parts flush reply_error close_peer release_ring close_open close_once close_conn
    payload_of consume_ring consume set_hdr picked pick_route serving register adopt refuse on_up
    on_ping resume send_pending set_pending adopted dialled drop_peer send_to on_member on_route
    on_data on_close on_down on_role dispatch on_verdict frames on_received read_ring read_once
    read_loop ring_usage read_adopted accepted accept_loop refuse_down send_waiting connect_failed
    connected finish_connect on_event on_found handle handle_all sweep sweep_idle gauge run_round
    new_conn get put store_chunk Slab.get Slab.put attach_ring release cap len free writable fill
    write_at advance_write peek advance_read slice copy_out copy_two decode_header read_header ◌+ℤ◌
    encode_header validate encode_error max next peek_payload consume_payload pick pick_among
    pick_rr probe_from probe_member member_at counted deref lookup rr_next eligible record_fail
    record_success add_active add_in_bytes add_out_bytes
round fuel evs = run_round network fuel [] evs 0 false (λ ps. ps)

-- A client at descriptor 10 and its upstream at 11, which are each other's peers.
unfoldable pub client : Conn
unfolding new_conn
client = record (new_conn 10 down (some (attach_ring (new_slab 64 1)).1) none (pos 0) 64) {
  peer = some 2;
}

unfoldable pub server : Conn
unfolding new_conn
server = record (new_conn 11 up (some (attach_ring (new_slab 64 1)).1) (some 0) (pos 0) 64) {
  peer = some 1;
}

unfoldable pub paired : World → Reactor World
unfolding start
paired w = record (start w) {
  conns = new_conn 3 listening none none (pos 0) 0 ∷ client ∷ server ∷ [];
  tab = (3, 0) ∷ (10, 1) ∷ (11, 2) ∷ [];
}
