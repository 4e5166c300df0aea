-- ===== src/Reactor/Tidy/Events.antt =====
-- The table of descriptors over the event loop.
use mini_envoy.Base.{ℕ, zero, suc, inl, inr, sym, ap, Bool, List, [], ◌∷◌, Option, none, some}
use mini_envoy.Base.{All, get_elem?, arith}
use mini_envoy.Base.Int.{ℤ, pos}
use mini_envoy.Metrics.{Shard}
use mini_envoy.Buffer.Slab.{Slab}
use mini_envoy.Routing.Table.{Table}
use mini_envoy.Upstream.Registry.{Ptr, Store}
use mini_envoy.Reactor.Platform.{Platform, EventBits, Event}
use mini_envoy.Reactor.Conn.{Conn, listening, new_conn, get}
use mini_envoy.Reactor.Conn.Lookup.{get-put}
use mini_envoy.Reactor.Exec.{Reactor, Exec}
use mini_envoy.Reactor.Exec.Rules.{Post, Keeps, Keeps-bind, Keeps-skip, Keeps-no_fuel}
use mini_envoy.Reactor.Write.{close_conn}
use mini_envoy.Reactor.Read.{read_loop}
use mini_envoy.Reactor.Loop.{
  new_reactor, read_adopted, accepted, accept_loop, refuse_down, send_waiting, connect_failed,
  connected, finish_connect, on_event, on_found, handle, handle_all, sweep, sweep_idle, close_all,
  shutdown, gauge, run_round,
}
use mini_envoy.Reactor.Tidy.{
  IsTidy, tidy_rules, reply_error-IsTidy, flush_remain-IsTidy, close_conn-IsTidy,
}
use mini_envoy.Reactor.Tidy.Payload.{gentle_changes, adopt_down-IsTidy, consume-IsTidy}
use mini_envoy.Reactor.Tidy.Handlers.{send_pending-IsTidy, read_loop-IsTidy}

module _ {W : Type 0} (os : Platform W) where
  kept : (c : Ptr) → Keeps IsTidy (close_conn os 2 c)
  kept c = close_conn-IsTidy os 2 c

  module _ (read : Ptr → Exec W (Unit {0})) (reads : (c : Ptr) → Keeps IsTidy (read c)) where
    read_adopted-IsTidy : (o : Option Ptr) → Keeps IsTidy (read_adopted os read o)
    unfolding read_adopted
    read_adopted-IsTidy none = Keeps-skip
    read_adopted-IsTidy (some c) = reads c

    accepted-IsTidy :
        (again : Exec W (Unit {0}))
        → Keeps IsTidy again
        → (o : Option ℕ) → Keeps IsTidy (accepted os read again o)
    unfolding accepted
    accepted-IsTidy again h none = Keeps-skip
    accepted-IsTidy again h (some fd) =
        search (tidy_rules, adopt_down-IsTidy, kept, read_adopted-IsTidy) depth 12

    accept_loop-IsTidy : (n : ℕ) → Keeps IsTidy (accept_loop os read n)
    unfolding accept_loop
    accept_loop-IsTidy zero = Keeps-no_fuel
    accept_loop-IsTidy (suc n) = search (tidy_rules, accepted-IsTidy _ (accept_loop-IsTidy n))

    refuse_down-IsTidy : (o : Option Ptr) → Keeps IsTidy (refuse_down os read o)
    unfolding refuse_down
    refuse_down-IsTidy none = Keeps-skip
    refuse_down-IsTidy (some d) =
        search (tidy_rules, gentle_changes, reply_error-IsTidy, kept, consume-IsTidy) depth 16

    send_waiting-IsTidy : (c : Ptr) (o : Option Ptr) → Keeps IsTidy (send_waiting os read c o)
    unfolding send_waiting
    send_waiting-IsTidy c none = Keeps-skip
    send_waiting-IsTidy c (some d) = search (tidy_rules, send_pending-IsTidy, kept, reads) depth 12

    connect_failed-IsTidy : (c : Ptr) (k : Conn) → Keeps IsTidy (connect_failed os read c k)
    unfolding connect_failed
    connect_failed-IsTidy c k = search (tidy_rules, kept, refuse_down-IsTidy) depth 12

    connected-IsTidy : (c : Ptr) (k : Conn) → Keeps IsTidy (connected os read c k)
    unfolding connected
    connected-IsTidy c k = search (tidy_rules, gentle_changes, send_waiting-IsTidy) depth 12

    finish_connect-IsTidy : (c : Ptr) → Keeps IsTidy (finish_connect os read c)
    unfolding finish_connect
    finish_connect-IsTidy c = search (tidy_rules, connect_failed-IsTidy, connected-IsTidy) depth 12

    on_event-IsTidy :
        (bits : EventBits) (c : Ptr) (k : Conn) → Keeps IsTidy (on_event os read bits c k)
    unfolding on_event
    on_event-IsTidy bits c k =
        search (tidy_rules, finish_connect-IsTidy, kept, flush_remain-IsTidy, reads) depth 16

    on_found-IsTidy :
        (n : ℕ) (bits : EventBits) (o : Option Ptr) → Keeps IsTidy (on_found os read n bits o)
    unfolding on_found
    on_found-IsTidy n bits none = Keeps-skip
    on_found-IsTidy n bits (some c) =
        search (tidy_rules, accept_loop-IsTidy, on_event-IsTidy) depth 12

    handle-IsTidy : (n : ℕ) (ev : Event) → Keeps IsTidy (handle os read n ev)
    unfolding handle
    handle-IsTidy n ev = search (tidy_rules, on_found-IsTidy)

    handle_all-IsTidy : (n : ℕ) (evs : List Event) → Keeps IsTidy (handle_all os read n evs)
    unfolding handle_all
    handle_all-IsTidy n [] = Keeps-skip
    handle_all-IsTidy n (ev ∷ evs) =
        Keeps-bind (handle os read n ev) _ (handle-IsTidy n ev) (λ _. handle_all-IsTidy n evs)

  sweep-IsTidy : (now : ℤ) (cs : List Ptr) → Keeps IsTidy (sweep os now cs)
  unfolding sweep
  sweep-IsTidy now [] = Keeps-skip
  sweep-IsTidy now (c ∷ cs) = let rest = sweep-IsTidy now cs in search (tidy_rules, kept) depth 12

  sweep_idle-IsTidy : (order : List Ptr → List Ptr) → Keeps IsTidy (sweep_idle os order)
  unfolding sweep_idle
  sweep_idle-IsTidy order = search (tidy_rules, sweep-IsTidy)

  close_all-IsTidy : (cs : List Ptr) → Keeps IsTidy (close_all os cs)
  unfolding close_all
  close_all-IsTidy [] = Keeps-skip
  close_all-IsTidy (c ∷ cs) = let rest = close_all-IsTidy cs in search (tidy_rules, kept) depth 12

  pub shutdown-IsTidy : (order : List Ptr → List Ptr) → Keeps IsTidy (shutdown os order)
  unfolding shutdown
  shutdown-IsTidy order = search (tidy_rules, close_all-IsTidy) depth 12

  gauge-IsTidy : (busy : ℕ) → Keeps IsTidy (gauge os busy)
  unfolding gauge
  gauge-IsTidy busy = search tidy_rules

  pub round-IsTidy :
      (fuel : ℕ) (cmds : List (Exec W (Unit {0}))) (evs : List Event) (busy : ℕ) (sweeps : Bool)
      (order : List Ptr → List Ptr)
      → All (Keeps IsTidy) cmds
      → Keeps IsTidy (run_round os fuel cmds evs busy sweeps order)
  unfolding run_round
  round-IsTidy fuel [] evs busy sweeps order h =
      search
        (
          tidy_rules,
          handle_all-IsTidy (read_loop os fuel) (read_loop-IsTidy os fuel),
          gauge-IsTidy,
          sweep_idle-IsTidy,
        )
        depth 12
  round-IsTidy fuel (cmd ∷ cmds) evs busy sweeps order (h, hs) =
      Keeps-bind cmd _ h (λ _. round-IsTidy fuel cmds evs busy sweeps order hs)

-- A round of the event loop that returns leaves a tidy table where it found one, whatever events
-- come, whatever the system's calls return and in whatever order the sweep goes, where the commands
-- posted to the reactor do: every descriptor in the table leads to a connection that has this
-- descriptor, and that has its ring unless the descriptor is the listener's.
pub run_round-IsTidy :
    {W : Type 0} (os : Platform W) (s : Reactor W) (fuel : ℕ) (cmds : List (Exec W (Unit {0})))
    (evs : List Event) (busy : ℕ) (sweeps : Bool) (order : List Ptr → List Ptr)
    → All (Keeps IsTidy) cmds
    → IsTidy s
    → Post (λ a s'. IsTidy s') (run_round os fuel cmds evs busy sweeps order s)
run_round-IsTidy os s fuel cmds evs busy sweeps order hs t =
    (round-IsTidy os fuel cmds evs busy sweeps order hs).at s t

-- The table of a new reactor is tidy: it has the listener alone.
pub new_reactor-IsTidy :
    {W : Type 0} (listen : ℕ) (routes : Table) (slab : Slab) (shard : Option Shard) (eps : Store)
    (high low : ℤ) (max_payload fail_n pass_n : ℕ) (idle : ℤ) (w : W)
    → IsTidy (new_reactor listen routes slab shard eps high low max_payload fail_n pass_n idle w)
unfolding new_reactor get new_conn
new_reactor-IsTidy listen routes slab shard eps high low mp f p idle w fd q h =
    elim (get-put [] listen fd 0 q h) [
      | inl e ↦ record {
        conn = listener;
        at = ap (get_elem? (listener ∷ [])) (sym e.1);
        same = e.0;
        ring = inl (sym e.0);
        only = λ l. sym e.0;
      }
      | inr e ↦ ground arith
    ]
  where
    listener : Conn
    listener = new_conn listen listening none none (pos 0) 0
