-- ===== src/Tests/Reactors.antt =====
-- The theorems on the reactor at concrete states.
use mini_envoy.Base.{ℕ, ◌≡◌, refl, true, List, [], ◌∷◌}
use mini_envoy.Base.{some, none}
use mini_envoy.Base.Int.{pos, negsuc}
use mini_envoy.Buffer.Slab.{new_slab}
use mini_envoy.Metrics.{idle_shard}
use mini_envoy.Reactor.Platform.{again, no_error}
use mini_envoy.Reactor.Exec.{Reactor, panicked, out_of_fuel}
use mini_envoy.Reactor.Exec.Rules.{Post}
use mini_envoy.Reactor.Write.{gather_parts, flush, close_conn}
use mini_envoy.Reactor.Loop.{Round, run_round, new_reactor}
use mini_envoy.Reactor.Tidy.{IsTidy}
use mini_envoy.Reactor.Tidy.Events.{run_round-IsTidy, new_reactor-IsTidy}
use mini_envoy.Reactor.Closing.End.{close_conn-ends}
use mini_envoy.Reactor.Blocking.{flush_blocked}
use mini_envoy.Reactor.Conn.{Conn, listening, new_conn}
use mini_envoy.Reactor.Stream.Wire.{IsSound}
use mini_envoy.Reactor.Stream.Flush.{flush_stream}
use mini_envoy.Tests.Wire.{left_by, network-IsWire}
use mini_envoy.Tests.Network.{
  World, silent, network, start, client, server, route, endpoint, paired, readable_at,
}
use mini_envoy.Tests.Proxying.{exchange}

start-IsTidy : (w : World) → IsTidy (start w)
unfolding start
start-IsTidy w =
    new_reactor-IsTidy 3 ((1, route) ∷ []) (new_slab 64 1) (some idle_shard) (endpoint ∷ [])
      (pos 48) (pos 16) 64 3 2 (pos 1000) w

run_round-IsTidy_example :
    Post
      (λ a s. IsTidy s)
      (run_round network 9 []
        (readable_at 3 ∷ readable_at 11 ∷ [])
        5
        true
        (λ ps. ps)
        (start exchange))
run_round-IsTidy_example =
    run_round-IsTidy network (start exchange) 9 [] (readable_at 3 ∷ readable_at 11 ∷ []) 5 true
      (λ ps. ps) tt (start-IsTidy exchange)

close_conn-ends_example : ¬ (close_conn network 2 1 (paired silent) ≡ out_of_fuel)
close_conn-ends_example = close_conn-ends network 1 (paired silent) 0

abbrev busy : World
busy = record silent { writes = (negsuc 0, again) ∷ [] }

flush_blocked_example :
    flush network (close_conn network 2) 1 ((1 ∷ 2 ∷ []) ∷ []) (paired busy) ≡ panicked
unfolding paired client gather_parts
flush_blocked_example =
    flush_blocked network (close_conn network 2) 1 ((1 ∷ 2 ∷ []) ∷ []) (paired busy) client
      (record silent { output = (10, []) ∷ [] }) 0 refl refl refl refl

-- A write of two bytes of the three, with one byte left from before.
abbrev partly : World
partly = record silent { writes = (pos 1, no_error) ∷ (pos 2, no_error) ∷ [] }

unfoldable behind : Conn
unfolding client
behind = record client { write_remain = 9 ∷ [] }

unfoldable with_behind : Reactor World
unfolding paired behind
with_behind = record (paired partly) {
  conns = new_conn 3 listening none none (pos 0) 0 ∷ behind ∷ server ∷ [];
}

flush_stream_example :
    Post
      (λ a s. IsSound (λ w. left_by w.output) 10 1 (9 ∷ 5 ∷ 6 ∷ 7 ∷ []) s)
      (flush network (close_conn network 2) 1 ((5 ∷ []) ∷ [] ∷ (6 ∷ 7 ∷ []) ∷ []) with_behind)
unfolding with_behind behind client
flush_stream_example =
    flush_stream network (λ w. left_by w.output) 1 ((5 ∷ []) ∷ [] ∷ (6 ∷ 7 ∷ []) ∷ []) behind
      with_behind 2 network-IsWire refl

-- A round with a client and an upstream, and then the shutdown, with the closing recorded.
abbrev one_round : Round (World × List ℕ)
one_round = record {
  cmds = [];
  events = readable_at 3 ∷ readable_at 11 ∷ [];
  busy = 5;
  sweeps = true;
  order = λ ps. ps;
}

unfoldable started : Reactor (World × List ℕ)
started =
    new_reactor 3 ((1, route) ∷ []) (new_slab 64 1) (some idle_shard) (endpoint ∷ []) (pos 48)
      (pos 16) 64 3 2 (pos 1000) (exchange, [])
