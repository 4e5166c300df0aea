-- ===== src/Reactor/Closing/End.antt =====
-- `closeConn` ends within two levels of itself: a connection without a peer closes alone.
use mini_envoy.Base.{ℕ, zero, suc, ◌≡◌, refl, sym, ap, List, [], ◌∷◌}
use mini_envoy.Base.{Option, none, some, get_elem?, arith}
use mathlib.Core.Path.{subst}
use mathlib.Core.Option.{some-injective}
use mini_envoy.Base.Int.{ℤ, pos, negsuc}
use mini_envoy.Buffer.Ring.{Ring}
use mini_envoy.Upstream.Registry.{Ptr}
use mini_envoy.Protocol.Header.{Header}
use mini_envoy.Reactor.Platform.{Platform, SysError}
use mini_envoy.Reactor.Conn.{Conn, change}
use mini_envoy.Reactor.Exec.{
  Reactor, Outcome, returned, panicked, out_of_fuel, Exec, pure, panic, gets, modify, continue,
  or_panic, ◌>>=◌, load, modify_conn,
}
use mini_envoy.Reactor.Write.{
  stash_remainder, sent, flush_remain, written, write_parts, flush, reply_error, close_peer,
  release_ring, close_open, close_once, close_conn,
}
use mini_envoy.Reactor.Closing.{
  Ends, Leads, Leads-step, Leads-if, Leads-bind, Leads-skip, Leads-load, Lone, lone_rules,
}

module _ {W : Type 0} (os : Platform W) (o : Option Ptr) where
  release_ring-Lone :
      (close : Ptr → Exec W (Unit {0})) (c : Ptr) (r : Option Ring)
      → Leads (Lone o) (Lone o) (release_ring os close c r)
  unfolding release_ring
  release_ring-Lone close c none = Leads-skip
  release_ring-Lone close c (some r) = search lone_rules

  stash_remainder-Lone :
      (c : Ptr) (iov : List (List ℕ)) (n : ℤ) → Leads (Lone o) (Lone o) (stash_remainder os c iov n)
  unfolding stash_remainder
  stash_remainder-Lone c iov (negsuc n) = search lone_rules
  stash_remainder-Lone c iov (pos n) = search lone_rules

  -- Writing to a connection ends where closing that connection does.
  module _ (close : Ptr → Exec W (Unit {0})) (c : Ptr)
      (closes : Leads (Lone o) (Lone o) (close c)) where
    sent-Lone : (r : ℤ × SysError) → Leads (Lone o) (Lone o) (sent os close c r)
    unfolding sent
    sent-Lone (n, err) = search lone_rules depth 10

    flush_remain-Lone : Leads (Lone o) (Lone o) (flush_remain os close c)
    unfolding flush_remain
    flush_remain-Lone = search (lone_rules, sent-Lone)

    written-Lone :
        (iov : List (List ℕ)) (r : ℤ × SysError)
        → Leads (Lone o) (Lone o) (written os close c iov r)
    unfolding written
    written-Lone iov (n, err) = search (lone_rules, stash_remainder-Lone) depth 10

    write_parts-Lone :
        (parts : List (List ℕ)) → Leads (Lone o) (Lone o) (write_parts os close c parts)
    unfolding write_parts
    write_parts-Lone parts = search (lone_rules, written-Lone)

    flush-Lone : (parts : List (List ℕ)) → Leads (Lone o) (Lone o) (flush os close c parts)
    unfolding flush
    flush-Lone parts =
        let remain = flush_remain-Lone in search (lone_rules, write_parts-Lone) depth 10

    reply_error-Lone :
        (req : Header) (code : ℕ) (msg : List ℕ)
        → Leads (Lone o) (Lone o) (reply_error os close c req code msg)
    unfolding reply_error
    reply_error-Lone req code msg = search (lone_rules, flush-Lone)

module _ {W : Type 0} (os : Platform W) (close : Ptr → Exec W (Unit {0})) where
  -- `closeConn` past its guard, where the rest about the peer is known.
  close_open-Lone :
      (o : Option Ptr) (c : Ptr) (k : Conn)
      → Leads (Lone o) (Lone o) (close_peer os close c k.peer)
      → Leads (Lone o) (Lone o) (close_open os close c k)
  unfolding close_open
  close_open-Lone o c k h = search (lone_rules, release_ring-Lone) depth 12

  -- A loaded connection, and what is known of it.
  load-Ends :
      {A : Type 0} (P Q : Reactor W → Type 0) (c : Ptr) (f : Conn → Exec W A) (s : Reactor W)
      → P s
      → ((k : Conn) → get_elem? s.conns c ≡ some k → Leads P Q (f k))
      → Ends Q ((load c >>= f) s)
  unfolding load gets or_panic pure panic ◌>>=◌
  load-Ends {A} P Q c f s h g = found (get_elem? s.conns c) refl
    where
      found : (o : Option Conn) → get_elem? s.conns c ≡ o → Ends Q (continue (or_panic o s) f)
      found none e = tt
      found (some k) e = (g k e).at s h

  close_peer-none :
      (o : Option Ptr) (c : Ptr) (p : Option Ptr)
      → p ≡ none
      → Leads (Lone o) (Lone o) (close_peer os close c p)
  unfolding close_peer
  close_peer-none o c none e = Leads-skip
  close_peer-none o c (some p) e = ground arith

  -- A connection without a peer closes no other.
  close_once-Lone : (c : Ptr) → Leads (Lone (some c)) (Lone (some c)) (close_once os close c)
  unfolding close_once
  close_once-Lone c = record {
    at = λ s h. load-Ends (Lone (some c)) (Lone (some c)) c _ s h (λ k e.
        let open_ = close_open-Lone (some c) c k (close_peer-none (some c) c k.peer (h k e)) in
        search lone_rules);
  }

module _ {W : Type 0} (os : Platform W) where
  weaken-Lone :
      (p : Ptr) (m : Exec W (Unit {0}))
      → Leads (Lone (some p)) (Lone (some p)) m
      → Leads (Lone (some p)) (Lone none) m
  weaken-Lone p m h = record { at = λ s l. weak (m s) (h.at s l) }
    where
      weak : (o : Outcome (Unit {0} × Reactor W)) → Ends (Lone (some p)) o → Ends (Lone none) o
      weak (returned (a, s)) h = tt
      weak panicked h = tt
      weak out_of_fuel h = h

  take_peer :
      (p : Ptr)
      → Leads (Lone none) (Lone (some p)) (modify_conn {W = W} p (λ k. record k { peer = none }))
  unfolding modify_conn modify
  take_peer p = record { at = λ s h. gone p s.conns }
    where
      gone :
          (p : Ptr) (xs : List Conn) (k : Conn)
          → get_elem? (change (λ k. record k { peer = none }) p xs) p ≡ some k
          → k.peer ≡ none
      gone p [] k e = ground arith
      gone zero (x ∷ xs) k e = sym (ap (λ j. j.peer) (some-injective _ k e))
      gone (suc p) (x ∷ xs) k e = gone p xs k e

  module _ (close : Ptr → Exec W (Unit {0}))
      (closes : (p : Ptr) → Leads (Lone (some p)) (Lone (some p)) (close p)) where
    close_peer-Lone :
        (c : Ptr) (o : Option Ptr) → Leads (Lone none) (Lone none) (close_peer os close c o)
    unfolding close_peer
    close_peer-Lone c none = Leads-skip
    close_peer-Lone c (some p) = Leads-bind (load p) _ (Leads-load p) (λ q.
        Leads-if _ _ _
          (Leads-step _ _ (take_peer p) (λ _.
            weaken-Lone p _
              (Leads-if _ _ _ (reply_error-Lone os (some p) close p (closes p) _ _ _) (closes p))))
          Leads-skip)

    close_ends : (c : Ptr) → Leads (Lone none) (Lone none) (close_once os close c)
    unfolding close_once
    close_ends c = search (lone_rules, close_open-Lone os close none, close_peer-Lone)

  -- Closing a connection, whatever the state and whatever the system's calls return, needs two levels
  -- of `closeConn` and no more: it returns or panics.
  pub close_conn-ends :
      (c : Ptr) (s : Reactor W) (n : ℕ) → ¬ (close_conn os (suc (suc n)) c s ≡ out_of_fuel)
  unfolding close_conn
  close_conn-ends c s n e =
      subst (Ends (Lone none)) e
        ((close_ends (close_conn os (suc n)) (close_once-Lone os (close_conn os n)) c).at s tt)
