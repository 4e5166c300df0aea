-- ===== src/Reactor/Read.antt =====
-- internal/reactor/reactor.go: what is read from a connection. `readLoop` reaches itself through
-- `dispatch`; each method takes here the `readLoop` that it calls, and `read_loop` ties the knot on
-- fuel.
use mini_envoy.Base.{ℕ, zero, suc, ◌+◌, ◌%◌, ◌^◌, Bool, true, false, ◌==◌, [], ◌∷◌}
use mini_envoy.Base.{Option, none, some, length, if◌then◌else◌}
use mini_envoy.Base.Int.{pos}
use mini_envoy.Buffer.Ring.{Ring, len, writable, extent, fill, advance_write}
use mini_envoy.Metrics.{Shard}
use mini_envoy.Upstream.Endpoint.{add_in_bytes}
use mini_envoy.Upstream.Registry.{Ptr}
use mini_envoy.Protocol.Errors.{code_of, error_text, text_bytes}
use mini_envoy.Protocol.Header.{empty_header}
use mini_envoy.Protocol.Parser.{Verdict, next}
use mini_envoy.Reactor.Platform.{Platform, Received, received, recv_failed, is_again}
use mini_envoy.Reactor.Conn.{Conn, Role, is_down, should_pause}
use mini_envoy.Reactor.Exec.{
  Exec, pure, no_fuel, gets, ask, ◌>>=◌, ◌>>◌, or_panic, load, modify_conn, count, modify_ep, skip,
}
use mini_envoy.Reactor.Write.{reply_error, close_conn}
use mini_envoy.Reactor.Dispatch.{dispatch}

abbrev pub add_in : ℕ → Shard → Shard
add_in n sh = record sh { in_bytes = (sh.in_bytes + n) % 2 ^ 64 }

module _ {W : Type 0} (os : Platform W) (close : Ptr → Exec W (Unit {0})) where
  module _ (read : Ptr → Exec W (Unit {0})) where
    -- What `Next` reports: `true` where `readLoop` returns, `false` where the inner loop is left.
    -- `again` is the rest of the inner loop.
    unfoldable pub on_verdict : Exec W Bool → Ptr → Role → Verdict → Exec W Bool
    unfolding dispatch
    on_verdict again c role (ok, some e) = do
      if is_down role
          then reply_error os close c empty_header (code_of e) (text_bytes (error_text e))
          else skip
      close c
      pure true
    on_verdict again c role (false, none) = pure false
    on_verdict again c role (true, none) = do dispatch os close read c; again

    -- The loop `for !c.HasPending`. `Next` on a nil ring panics.
    unfoldable pub frames : ℕ → Ptr → Exec W Bool
    unfolding on_verdict or_panic
    frames zero c = no_fuel
    frames (suc n) c = do
      k ← load c
      if k.has_pending then pure false else (do
        r ← or_panic k.ring
        let out = next k.parser r
        modify_conn c (λ j. record j { parser = out.1; ring = some out.2 })
        on_verdict (frames n c) c k.role out.0)

    -- What follows `Recv` into the slice that `Writable` gave.
    unfoldable pub on_received : Exec W Bool → Ptr → Ring → Received → Exec W (Unit {0})
    unfolding writable fill advance_write
    on_received parse c r (recv_failed e) = if is_again e then skip else close c
    on_received parse c r (received []) = close c
    on_received parse c r (received (b ∷ bs)) = do
      now ← ask os.now
      let n = length (b ∷ bs)
      modify_conn c (λ j. record j {
        ring = some (advance_write (fill r (writable r).0 (b ∷ bs)) n);
        last = now;
      })
      count (add_in n)
      k ← load c
      modify_ep k.ep (λ e. add_in_bytes e n)
      returns ← parse
      if returns then skip else read c

    -- One round of `readLoop`, where the connection has a ring.
    unfoldable pub read_ring : Exec W Bool → Ptr → Conn → Option Ring → Exec W (Unit {0})
    unfolding should_pause writable on_received
    read_ring parse c k none = skip
    read_ring parse c k (some r) = do
      s ← gets (λ s. s)
      if should_pause (pos (len r)) s.high
          then modify_conn c (λ j. record j { paused = true })
          else if extent (writable r).0 == 0
          then modify_conn c (λ j. record j { paused = true })
          else (do
            result ← ask (os.recv k.fd (extent (writable r).0))
            on_received parse c r result)

    unfoldable pub read_once : Exec W Bool → Ptr → Exec W (Unit {0})
    unfolding read_ring
    read_once parse c = do k ← load c; read_ring parse c k k.ring

module _ {W : Type 0} (os : Platform W) where
  unfoldable pub read_loop : ℕ → Ptr → Exec W (Unit {0})
  unfolding read_once frames
  read_loop zero c = no_fuel
  read_loop (suc n) c =
      read_once os (close_conn os 2) (read_loop n) (frames os (close_conn os 2) (read_loop n) n c) c
