-- ===== src/Reactor/Loop.antt =====
-- internal/reactor/reactor.go: the events that the poller reports, the sweep of idle connections and
-- the end of the loop. A round of `Run` is the events of one `Wait`; the commands that others post are
-- functions on the reactor.
use mini_envoy.Base.{ℕ, zero, suc, ◌+◌, ◌%◌, ◌^◌, Bool, false, not, ◌&&◌, ◌||◌, List, [], ◌∷◌}
use mini_envoy.Base.{Option, none, some, length, if◌then◌else◌, get_elem?}
use mini_envoy.Base.Int.{ℤ, pos, ltb_ℤ, ◌-ℤ◌}
use mini_envoy.Buffer.Slab.{Slab}
use mini_envoy.Buffer.Ring.{Ring, len, cap}
use mini_envoy.Metrics.{Shard}
use mini_envoy.Upstream.Endpoint.{add_active, record_fail, record_success}
use mini_envoy.Upstream.Registry.{Ptr, Store}
use mini_envoy.Routing.Table.{Table}
use mini_envoy.Protocol.Errors.{code_upstream_fail, text_bytes}
use mini_envoy.Reactor.Platform.{Platform, EventBits, Event, read_write}
use mini_envoy.Reactor.Conn.{
  Conn, listening, down, up, is_connecting, is_listening, new_conn, get, put, all,
}
use mini_envoy.Reactor.Exec.{
  Reactor, Exec, no_fuel, gets, ask, tell, ◌>>=◌, ◌>>◌, load, modify_conn, count, modify_ep, skip,
}
use mini_envoy.Reactor.Write.{flush_remain, reply_error, close_conn}
use mini_envoy.Reactor.Payload.{adopt, consume}
use mini_envoy.Reactor.Dispatch.{send_pending}
use mini_envoy.Reactor.Read.{read_loop}

-- `New`, once the poller and the listener are there: the listener is the only connection.
unfoldable pub new_reactor :
    {W : Type 0}
    → ℕ
    → Table
    → Slab
    → Option Shard
    → Store
    → (high low : ℤ) → (max_payload fail_n pass_n : ℕ) → ℤ
    → W
    → Reactor W
unfolding put new_conn
new_reactor listen routes slab shard eps high low max_payload fail_n pass_n idle w = record {
  tab = put [] listen 0;
  conns = new_conn listen listening none none (pos 0) 0 ∷ [];
  listen = listen;
  routes = routes;
  slab = slab;
  shard = shard;
  eps = eps;
  high = high;
  low = low;
  max_payload = max_payload;
  fail_n = fail_n;
  pass_n = pass_n;
  idle = idle;
  os = w;
}

-- The gauges that `Run` stores after the events.
abbrev pub store_gauges : (busy used capn conns : ℕ) → Shard → Shard
store_gauges busy used capn conns sh = record sh {
  busy_ns = (sh.busy_ns + busy) % 2 ^ 64;
  conns = pos conns;
  ring_used = used;
  ring_cap = capn;
}

abbrev pub add_usage : Option Ring → ℕ × ℕ → ℕ × ℕ
add_usage none rest = rest
add_usage (some r) (used, capn) = (len r + used, cap r + capn)

-- The bytes in the rings of some connections, and the sizes of these rings.
unfoldable pub ring_usage : List Conn → List Ptr → ℕ × ℕ
ring_usage cs [] = (0, 0)
ring_usage cs (p ∷ ps) =
    let rest = ring_usage cs ps in
    elim (get_elem? cs p) [ none ↦ rest | some k ↦ add_usage k.ring rest ]

module _ {W : Type 0} (os : Platform W) where
  -- The `closeConn` of the handlers. Two levels of it are enough: what it calls never goes deeper.
  abbrev pub close : Ptr → Exec W (Unit {0})
  close = close_conn os 2

  module _ (read : Ptr → Exec W (Unit {0})) where
    unfoldable pub read_adopted : Option Ptr → Exec W (Unit {0})
    read_adopted none = skip
    read_adopted (some c) = read c

    -- What follows `Accept`, with the rest of the loop.
    unfoldable pub accepted : Exec W (Unit {0}) → Option ℕ → Exec W (Unit {0})
    unfolding adopt read_adopted
    accepted again none = skip
    accepted again (some fd) = do c ← adopt os close fd down none; read_adopted c; again

    -- The fuel bounds the connections that one readiness of the listener brings.
    unfoldable pub accept_loop : ℕ → Exec W (Unit {0})
    unfolding accepted
    accept_loop zero = no_fuel
    accept_loop (suc n) = do
      listen ← gets (λ s. s.listen)
      found ← ask (os.accept listen)
      accepted (accept_loop n) found

    unfoldable pub refuse_down : Option Ptr → Exec W (Unit {0})
    unfolding consume
    refuse_down none = skip
    refuse_down (some d) = do
      k ← load d
      reply_error os close d k.pending code_upstream_fail (text_bytes "upstream connect failed")
      k' ← load d
      if k'.has_pending
          then (do consume d; modify_conn d (λ j. record j { has_pending = false }))
          else skip
      modify_conn d (λ j. record j { peer = none })

    -- `if down := c.Peer; down != nil && down.HasPending`
    unfoldable pub send_waiting : Ptr → Option Ptr → Exec W (Unit {0})
    unfolding send_pending
    send_waiting c none = skip
    send_waiting c (some d) = do
      k ← load d
      if k.has_pending then send_pending os close read d c else skip

    unfoldable pub connect_failed : Ptr → Conn → Exec W (Unit {0})
    unfolding refuse_down
    connect_failed c k = do
      s ← gets (λ s. s)
      modify_ep k.ep (λ e. record_fail e s.fail_n)
      close c
      refuse_down k.peer

    unfoldable pub connected : Ptr → Conn → Exec W (Unit {0})
    unfolding send_waiting
    connected c k = do
      modify_conn c (λ j. record j { role = up })
      tell (os.poll_mod k.fd read_write)
      s ← gets (λ s. s)
      modify_ep k.ep (λ e. record_success (add_active e (pos 1)) s.pass_n)
      send_waiting c k.peer

    unfoldable pub finish_connect : Ptr → Exec W (Unit {0})
    unfolding connect_failed connected
    finish_connect c = do
      k ← load c
      failed ← ask (os.so_error k.fd)
      if failed then connect_failed c k else connected c k

    -- The events of a connection that is not the listener.
    unfoldable pub on_event : EventBits → Ptr → Conn → Exec W (Unit {0})
    unfolding finish_connect
    on_event bits c k =
        if is_connecting k.role && (bits.ev_write || bits.ev_error)
        then finish_connect c
        else if (bits.ev_error || bits.ev_hangup) && not bits.ev_read && not bits.ev_write
        then close c
        else do
          if bits.ev_write then flush_remain os close c else skip
          k' ← load c
          if bits.ev_read && not k'.paused then read c else skip

    -- `fuel` is that of the accept loop.
    unfoldable pub on_found : ℕ → EventBits → Option Ptr → Exec W (Unit {0})
    unfolding accept_loop on_event
    on_found fuel bits none = skip
    on_found fuel bits (some c) = do
      k ← load c
      if is_listening k.role
          then (if bits.ev_read then accept_loop fuel else skip)
          else on_event bits c k

    unfoldable pub handle : ℕ → Event → Exec W (Unit {0})
    unfolding on_found
    handle fuel ev = do found ← gets (λ s. get s.tab ev.fd); on_found fuel ev.bits found

    unfoldable pub handle_all : ℕ → List Event → Exec W (Unit {0})
    handle_all fuel [] = skip
    handle_all fuel (ev ∷ evs) = do handle fuel ev; handle_all fuel evs

  -- The sweep of the connections in some order: Go iterates over its map in any. Times lie close
  -- enough together for their difference to be exact.
  unfoldable pub sweep : ℤ → List Ptr → Exec W (Unit {0})
  sweep now [] = skip
  sweep now (c ∷ cs) = do
    k ← load c
    idle ← gets (λ s. s.idle)
    if not (is_listening k.role) && ltb_ℤ (pos 0) idle && ltb_ℤ idle (now -ℤ k.last)
        then close c
        else skip
    sweep now cs

  unfoldable pub sweep_idle : (List Ptr → List Ptr) → Exec W (Unit {0})
  unfolding sweep
  sweep_idle order = do now ← ask os.now; cs ← gets (λ s. order (all s.tab)); sweep now cs

  unfoldable pub close_all : List Ptr → Exec W (Unit {0})
  close_all [] = skip
  close_all (c ∷ cs) = do k ← load c; if is_listening k.role then skip else close c; close_all cs

  -- The listener's descriptor is never negative.
  unfoldable pub shutdown : (List Ptr → List Ptr) → Exec W (Unit {0})
  unfolding close_all
  shutdown order = do
    cs ← gets (λ s. order (all s.tab))
    close_all cs
    listen ← gets (λ s. s.listen)
    tell (os.poll_del listen)
    tell (os.close listen)
    tell os.poll_close

  -- What `Run` does after the events, `busy` nanoseconds after it began with them.
  unfoldable pub gauge : ℕ → Exec W (Unit {0})
  unfolding ring_usage
  gauge busy = do
    s ← gets (λ s. s)
    let usage = ring_usage s.conns (all s.tab)
    count (store_gauges busy usage.0 usage.1 (length s.tab))

  -- One round of `Run`: the posted commands, the events that `Wait` reported, the gauges, and the
  -- sweep where a second has passed.
  unfoldable pub run_round :
      ℕ
      → List (Exec W (Unit {0}))
      → List Event
      → ℕ
      → Bool
      → (List Ptr → List Ptr)
      → Exec W (Unit {0})
  unfolding handle_all gauge sweep_idle
  run_round fuel [] evs busy sweeps order = do
    handle_all (read_loop os fuel) fuel evs
    gauge busy
    if sweeps then sweep_idle order else skip
  run_round fuel (cmd ∷ cmds) evs busy sweeps order = do
    cmd
    run_round fuel cmds evs busy sweeps order

-- What one round of `Run` meets.
pub record Round (W : Type 0) : Type 0 where
  pub cmds : List (Exec W (Unit {0}))
  pub events : List Event
  pub busy : ℕ
  pub sweeps : Bool
  pub order : List Ptr → List Ptr

module _ {W : Type 0} (os : Platform W) where
  -- `Run`: rounds until `Stop` or until `Wait` fails, then the deferred shutdown.
  unfoldable pub run : ℕ → List (Round W) → (List Ptr → List Ptr) → Exec W (Unit {0})
  unfolding run_round shutdown
  run fuel [] order = shutdown os order
  run fuel (r ∷ rs) order = do
    run_round os fuel r.cmds r.events r.busy r.sweeps r.order
    run fuel rs order
