-- ===== src/Reactor/Listed.antt =====
-- What writing and closing do to the table of descriptors: they take out of it what they close, and
-- put nothing in.
use mini_envoy.Base.{ℕ, zero, suc, ◌≡◌, inl, inr, sym, ap, ◌∙◌, false, List}
use mini_envoy.Base.{Option, none, some, get_elem?, if◌then◌else◌, Bool-cases, arith}
use mini_envoy.Base.Int.{ℤ, pos, negsuc}
use mini_envoy.Buffer.Ring.{Ring}
use mini_envoy.Buffer.Slab.{Slab}
use mini_envoy.Upstream.Endpoint.{Endpoint, add_active}
use mini_envoy.Upstream.Registry.{Ptr}
use mini_envoy.Protocol.Header.{Header}
use mini_envoy.Metrics.{Shard}
use mini_envoy.Reactor.Platform.{Platform, EventBits, SysError}
use mini_envoy.Reactor.Conn.{Conn, FdTable, get, del, is_connecting}
use mini_envoy.Reactor.Conn.Lookup.{get-del, get-del_same}
use mini_envoy.Reactor.Exec.{
  Reactor, Exec, pure, no_fuel, gets, ask, modify, tell, or_panic, ◌>>=◌, ◌>>◌, load, modify_conn,
  count, modify_ep, skip,
}
use mini_envoy.Reactor.Exec.Rules.{Post, Keeps, Keeps-no_fuel, Keeps-skip, keeps_rules}
use mini_envoy.Reactor.Write.{
  stash_remainder, sent, flush_remain, written, write_parts, flush, reply_error, close_peer,
  release_ring, close_open, close_once, close_conn, is_ptr,
}

-- A property of the listener, the table and the outside world that writing keeps, and taking a
-- descriptor from the table and closing it.
pub record IsStable {W : Type 0} (os : Platform W) (Q : ℕ → FdTable → W → Type 0) : Type 0 where
  pub send :
      (fd : ℕ) (bs : List ℕ) (l : ℕ) (t : FdTable) (w : W) → Q l t w → Q l t (os.send fd bs w).0
  pub writev :
      (fd : ℕ) (iov : List (List ℕ)) (l : ℕ) (t : FdTable) (w : W)
      → Q l t w
      → Q l t (os.writev fd iov w).0
  pub now : (l : ℕ) (t : FdTable) (w : W) → Q l t w → Q l t (os.now w).0
  pub poll_mod :
      (fd : ℕ) (bits : EventBits) (l : ℕ) (t : FdTable) (w : W)
      → Q l t w
      → Q l t (os.poll_mod fd bits w)
  pub poll_del : (fd l : ℕ) (t : FdTable) (w : W) → Q l t w → Q l t (os.poll_del fd w)
  pub close : (fd l : ℕ) (t : FdTable) (w : W) → Q l t w → Q l (del t fd) (os.close fd w)

-- A property of the table alone that a smaller table has too.
pub of_table :
    {W : Type 0} (os : Platform W) (Q : ℕ → FdTable → Type 0)
    → ((l : ℕ) (t : FdTable) (fd : ℕ) → Q l t → Q l (del t fd))
    → IsStable os (λ l t w. Q l t)
of_table os Q dels = record {
  send = λ fd bs l t w h. h;
  writev = λ fd iov l t w h. h;
  now = λ l t w h. h;
  poll_mod = λ fd bits l t w h. h;
  poll_del = λ fd l t w h. h;
  close = λ fd l t w h. dels l t fd h;
}

module _ {W : Type 0} (os : Platform W) (Q : ℕ → FdTable → W → Type 0) (st : IsStable os Q) where
  abbrev pub Has : Reactor W → Type 0
  Has s = Q s.listen s.tab s.os

  pub modify_conn-Has : (c : Ptr) (f : Conn → Conn) → Keeps Has (modify_conn {W = W} c f)
  unfolding modify_conn modify
  modify_conn-Has c f = record { at = λ s t. t }

  send-Has : (fd : ℕ) (bs : List ℕ) → Keeps Has (ask (os.send fd bs))
  unfolding ask
  send-Has fd bs = record { at = λ s h. st.send fd bs s.listen s.tab s.os h }

  writev-Has : (fd : ℕ) (iov : List (List ℕ)) → Keeps Has (ask (os.writev fd iov))
  unfolding ask
  writev-Has fd iov = record { at = λ s h. st.writev fd iov s.listen s.tab s.os h }

  now-Has : Keeps Has (ask os.now)
  unfolding ask
  now-Has = record { at = λ s h. st.now s.listen s.tab s.os h }

  poll_mod-Has : (fd : ℕ) (bits : EventBits) → Keeps Has (tell (os.poll_mod fd bits))
  unfolding tell
  poll_mod-Has fd bits = record { at = λ s h. st.poll_mod fd bits s.listen s.tab s.os h }

  poll_del-Has : (fd : ℕ) → Keeps Has (tell (os.poll_del fd))
  unfolding tell
  poll_del-Has fd = record { at = λ s h. st.poll_del fd s.listen s.tab s.os h }

  count-Has : (f : Shard → Shard) → Keeps Has (count {W = W} f)
  unfolding count modify
  count-Has f = record { at = λ s t. t }

  modify_ep-Has : (o : Option Ptr) (f : Endpoint → Endpoint) → Keeps Has (modify_ep {W = W} o f)
  unfolding modify_ep modify
  modify_ep-Has none f = record { at = λ s t. t }
  modify_ep-Has (some p) f = record { at = λ s t. t }

  slab-Has : (f : Reactor W → Slab) → Keeps Has (modify (λ s. record s { slab = f s }))
  unfolding modify
  slab-Has f = record { at = λ s t. t }

  -- A descriptor that is taken out of the table is closed.
  taken-Has :
      (fd : ℕ) (m : Exec W (Unit {0}))
      → Keeps Has m
      → Keeps Has
          (do modify (λ (s : Reactor W). record s { tab = del s.tab fd }); tell (os.close fd); m)
  unfolding modify tell ◌>>=◌
  taken-Has fd m h = record {
    at = λ s q.
        h.at (record s { tab = del s.tab fd; os = os.close fd s.os })
          (st.close fd s.listen s.tab s.os q);
  }

  ruleset has_rules = (
    keeps_rules, modify_conn-Has, send-Has, writev-Has, now-Has, poll_mod-Has, poll_del-Has,
    count-Has, modify_ep-Has, slab-Has, taken-Has,
  )

  stash_remainder-Has :
      (c : Ptr) (iov : List (List ℕ)) (n : ℤ) → Keeps Has (stash_remainder os c iov n)
  unfolding stash_remainder
  stash_remainder-Has c iov (negsuc n) = search has_rules
  stash_remainder-Has c iov (pos n) = search has_rules

  release_ring-Has :
      (close : Ptr → Exec W (Unit {0})) (c : Ptr) (r : Option Ring)
      → Keeps Has (release_ring os close c r)
  unfolding release_ring
  release_ring-Has close c none = Keeps-skip
  release_ring-Has close c (some r) = search has_rules

  module _ (close : Ptr → Exec W (Unit {0})) (kept : (c : Ptr) → Keeps Has (close c)) where
    sent-Has : (c : Ptr) (r : ℤ × SysError) → Keeps Has (sent os close c r)
    unfolding sent
    sent-Has c (n, err) = search (has_rules, kept) depth 10

    flush_remain-Has : (c : Ptr) → Keeps Has (flush_remain os close c)
    unfolding flush_remain
    flush_remain-Has c = search (has_rules, sent-Has)

    written-Has :
        (c : Ptr) (iov : List (List ℕ)) (r : ℤ × SysError) → Keeps Has (written os close c iov r)
    unfolding written
    written-Has c iov (n, err) = search (has_rules, kept, stash_remainder-Has) depth 10

    pub write_parts-Has :
        (c : Ptr) (parts : List (List ℕ)) → Keeps Has (write_parts os close c parts)
    unfolding write_parts
    write_parts-Has c parts = search (has_rules, written-Has)

    pub flush-Has : (c : Ptr) (parts : List (List ℕ)) → Keeps Has (flush os close c parts)
    unfolding flush
    flush-Has c parts = search (has_rules, flush_remain-Has, write_parts-Has) depth 10

    reply_error-Has :
        (c : Ptr) (req : Header) (code : ℕ) (msg : List ℕ)
        → Keeps Has (reply_error os close c req code msg)
    unfolding reply_error
    reply_error-Has c req code msg = search (has_rules, flush-Has)

    pub close_peer-Has : (c : Ptr) (o : Option Ptr) → Keeps Has (close_peer os close c o)
    unfolding close_peer
    close_peer-Has c none = Keeps-skip
    close_peer-Has c (some p) = search (has_rules, kept, reply_error-Has)

    -- What `closeConn` does once the descriptor is out of the table.
    close_rest-Has :
        (c : Ptr) (k : Conn)
        → Keeps Has (do
          release_ring os close c k.ring
          if is_connecting k.role then skip else modify_ep k.ep (λ e. add_active e (negsuc 0))
          close_peer os close c k.peer)
    close_rest-Has c k = search (has_rules, release_ring-Has, close_peer-Has) depth 12

    close_open-Has : (c : Ptr) (k : Conn) → Keeps Has (close_open os close c k)
    unfolding close_open
    close_open-Has c k = search (has_rules, close_rest-Has) depth 12

    close_once-Has : (c : Ptr) → Keeps Has (close_once os close c)
    unfolding close_once
    close_once-Has c = search (has_rules, close_open-Has)

  pub close_conn-Has : (n : ℕ) (c : Ptr) → Keeps Has (close_conn os n c)
  unfolding close_conn
  close_conn-Has zero c = Keeps-no_fuel
  close_conn-Has (suc n) c = close_once-Has (close_conn os n) (close_conn-Has n) c

-- That descriptor does not lead to that connection.
abbrev pub IsUnlisted : ℕ → Ptr → FdTable → Type 0
IsUnlisted fd c t = get t fd ≡ some c → ⊥

pub del-IsUnlisted :
    (fd : ℕ) (c : Ptr) (t : FdTable) (a : ℕ) → IsUnlisted fd c t → IsUnlisted fd c (del t a)
del-IsUnlisted fd c t a h e = h (get-del t a fd c e)

pub unlisted :
    {W : Type 0} (os : Platform W) (fd : ℕ) (c : Ptr) → IsStable os (λ l t w. IsUnlisted fd c t)
unlisted os fd c = of_table os (λ l t. IsUnlisted fd c t) (λ l. del-IsUnlisted fd c)

module _ {W : Type 0} (os : Platform W) (close : Ptr → Exec W (Unit {0})) (fd : ℕ) (c : Ptr)
    (kept : (p : Ptr)
      → Keeps (Has os (λ l t w. IsUnlisted fd c t) (unlisted os fd c)) (close p)) where
  close_open-IsUnlisted :
      (k : Conn) (s : Reactor W)
      → k.fd ≡ fd
      → Post (λ a s'. IsUnlisted fd c s'.tab) (close_open os close c k s)
  unfolding close_open modify_conn modify tell ◌>>=◌
  close_open-IsUnlisted k s same =
      (close_rest-Has os (λ l t w. IsUnlisted fd c t) (unlisted os fd c) close kept c k).at _ gone
    where
      gone : IsUnlisted fd c (del s.tab k.fd)
      gone e = ground (arith, get-del_same s.tab fd)

  -- A connection that is closed is not listed under its descriptor.
  close_once-IsUnlisted :
      (k : Conn) (s : Reactor W)
      → get_elem? s.conns c ≡ some k
      → k.fd ≡ fd
      → Post (λ a s'. IsUnlisted fd c s'.tab) (close_once os close c s)
  unfolding close_once load gets or_panic pure skip ◌>>=◌
  close_once-IsUnlisted k s at same = rw at (elim (Bool-cases (is_ptr c (get s.tab k.fd))) [
    | inl h ↦ rw h (close_open-IsUnlisted k s same)
    | inr h ↦ rw h (other (get s.tab fd) (ap (λ i. is_ptr c (get s.tab i)) (sym same) ∙ h))
  ])
    where
      other : (o : Option Ptr) → is_ptr c o ≡ false → o ≡ some c → ⊥
      other none h e = ground arith
      other (some p) h e = ground arith

pub close_conn-IsUnlisted :
    {W : Type 0} (os : Platform W) (n : ℕ) (fd : ℕ) (c : Ptr) (k : Conn) (s : Reactor W)
    → get_elem? s.conns c ≡ some k
    → k.fd ≡ fd
    → Post (λ a s'. IsUnlisted fd c s'.tab) (close_conn os n c s)
unfolding close_conn no_fuel
close_conn-IsUnlisted os zero fd c k s at same = tt
close_conn-IsUnlisted os (suc n) fd c k s at same =
    close_once-IsUnlisted os (close_conn os n) fd c
      (close_conn-Has os (λ l t w. IsUnlisted fd c t) (unlisted os fd c) n) k s at same
