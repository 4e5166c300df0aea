-- ===== src/Reactor/Write.antt =====
-- internal/reactor/reactor.go: what is written to a connection, and how one is closed. `closeConn`,
-- `replyError`, `flush` and `flushRemain` call one another; each takes here the `closeConn` that it
-- calls, and `close_conn` ties the knot on fuel.
use mini_envoy.Base.{ℕ, zero, suc, ◌+◌, ◌-◌, ◌%◌, ◌^◌, Bool, true, false, ◌==◌, leb, List}
use mini_envoy.Base.{[], ◌∷◌, ◌++◌, Option, none, some, length, drop, if◌then◌else◌}
use mini_envoy.Base.Int.{ℤ, pos, negsuc, pos_part, ltb_ℤ}
use mini_envoy.Buffer.Ring.{Ring, release}
use mini_envoy.Metrics.{Shard}
use mini_envoy.Upstream.Endpoint.{add_active, add_out_bytes}
use mini_envoy.Upstream.Registry.{Ptr}
use mini_envoy.Protocol.Errors.{code_upstream_fail, text_bytes}
use mini_envoy.Protocol.Header.{Header}
use mini_envoy.Protocol.Frame.{encode_error}
use mini_envoy.Reactor.Platform.{Platform, SysError, is_fatal, read_only, read_write}
use mini_envoy.Reactor.Conn.{Conn, is_connecting, is_down, get, del}
use mini_envoy.Reactor.Exec.{
  Exec, panic, no_fuel, gets, ask, modify, tell, ◌>>=◌, ◌>>◌, load, modify_conn, count, modify_ep,
  skip,
}

-- `len(b) > 0`
abbrev pub non_empty {ℓ} : {A : Type ℓ} → List A → Bool
non_empty [] = false
non_empty (x ∷ xs) = true

-- The counters of a shard that the reactor adds to.
abbrev pub add_error : Shard → Shard
add_error sh = record sh { errors = (sh.errors + 1) % 2 ^ 64 }

abbrev pub add_out : ℕ → Shard → Shard
add_out n sh = record sh { out_bytes = (sh.out_bytes + n) % 2 ^ 64 }

-- `iov`: the parts that are not empty.
unfoldable pub gather_parts : List (List ℕ) → List (List ℕ)
gather_parts [] = []
gather_parts (p ∷ ps) = if non_empty p then p ∷ gather_parts ps else gather_parts ps

-- The loop of `stashRemainder` from a count that is not negative: what stays to be written.
unfoldable pub stash : List ℕ → List (List ℕ) → ℕ → List ℕ
stash remain [] n = remain
stash remain (p ∷ ps) n =
    if leb (length p) n then stash remain ps (n - length p) else stash (remain ++ drop n p) ps 0

-- Whether a pointer that may be nil is that one.
abbrev pub is_ptr : Ptr → Option Ptr → Bool
is_ptr p none = false
is_ptr p (some q) = p == q

abbrev pub joined : List (List ℕ) → List ℕ
joined [] = []
joined (p ∷ ps) = p ++ joined ps

module _ {W : Type 0} (os : Platform W) where
  -- The rest of `stashRemainder`. A count below 0 reaches `p[skip:]` at the first part, and panics.
  unfoldable pub stash_remainder : Ptr → List (List ℕ) → ℤ → Exec W (Unit {0})
  unfolding stash
  stash_remainder c iov (negsuc n) = if non_empty iov then panic else skip
  stash_remainder c iov (pos n) = do
    modify_conn c (λ k. record k { write_remain = stash k.write_remain iov n })
    k ← load c
    if non_empty k.write_remain then tell (os.poll_mod k.fd read_write) else skip

  module _ (close : Ptr → Exec W (Unit {0})) where
    -- What follows `Send`.
    unfoldable pub sent : Ptr → ℤ × SysError → Exec W (Unit {0})
    sent c (n, err) = do
      if ltb_ℤ (pos 0) n
          then (do
            modify_conn c (λ k. record k { write_remain = drop (pos_part n) k.write_remain })
            count (add_out (pos_part n)))
          else skip
      if is_fatal err then close c else do
        k ← load c
        if non_empty k.write_remain then skip else tell (os.poll_mod k.fd read_only)

    unfoldable pub flush_remain : Ptr → Exec W (Unit {0})
    unfolding sent
    flush_remain c = do
      k ← load c
      if non_empty k.write_remain
          then (do result ← ask (os.send k.fd k.write_remain); sent c result)
          else skip

    -- What follows `Writev`.
    unfoldable pub written : Ptr → List (List ℕ) → ℤ × SysError → Exec W (Unit {0})
    unfolding stash_remainder
    written c iov (n, err) = do
      if ltb_ℤ (pos 0) n
          then (do
            count (add_out (pos_part n))
            k ← load c
            modify_ep k.ep (λ e. add_out_bytes e (pos_part n)))
          else skip
      if is_fatal err then close c else do
        stash_remainder c iov n
        now ← ask os.now
        modify_conn c (λ k. record k { last = now })

    -- `flush` where nothing is left from before.
    unfoldable pub write_parts : Ptr → List (List ℕ) → Exec W (Unit {0})
    unfolding gather_parts written
    write_parts c parts =
        let iov = gather_parts parts in
        if non_empty iov
        then (do k ← load c; result ← ask (os.writev k.fd iov); written c iov result)
        else skip

    unfoldable pub flush : Ptr → List (List ℕ) → Exec W (Unit {0})
    unfolding flush_remain write_parts
    flush c parts = do
      k ← load c
      if non_empty k.write_remain
          then (do
            flush_remain c
            k' ← load c
            if non_empty k'.write_remain
                then modify_conn c (λ j. record j { write_remain = j.write_remain ++ joined parts })
                else write_parts c parts)
          else write_parts c parts

    unfoldable pub reply_error : Ptr → Header → ℕ → List ℕ → Exec W (Unit {0})
    unfolding flush
    reply_error c req code msg = do count add_error; flush c (encode_error [] req code msg ∷ [])

    -- What `closeConn` does about the peer that the connection had.
    unfoldable pub close_peer : Ptr → Option Ptr → Exec W (Unit {0})
    unfolding reply_error
    close_peer c none = skip
    close_peer c (some p) = do
      q ← load p
      if is_ptr c q.peer
          then (do
            modify_conn p (λ k. record k { peer = none })
            if is_down q.role
                then reply_error p q.pending code_upstream_fail (text_bytes "upstream closed")
                else close p)
          else skip

    -- The connection gives its ring back.
    unfoldable pub release_ring : Ptr → Option Ring → Exec W (Unit {0})
    release_ring c none = skip
    release_ring c (some r) = do
      modify (λ s. record s { slab = (release r s.slab).1 })
      modify_conn c (λ k. record k { ring = none })

    -- `closeConn` past its guard.
    unfoldable pub close_open : Ptr → Conn → Exec W (Unit {0})
    unfolding release_ring close_peer
    close_open c k = do
      modify_conn c (λ j. record j { peer = none })
      tell (os.poll_del k.fd)
      modify (λ s. record s { tab = del s.tab k.fd })
      tell (os.close k.fd)
      release_ring c k.ring
      if is_connecting k.role then skip else modify_ep k.ep (λ e. add_active e (negsuc 0))
      close_peer c k.peer

    -- `r.tab.Get(c.FD) != c` is the guard.
    unfoldable pub close_once : Ptr → Exec W (Unit {0})
    unfolding close_open
    close_once c = do
      k ← load c
      owner ← gets (λ s. get s.tab k.fd)
      if is_ptr c owner then close_open c k else skip

  unfoldable pub close_conn : ℕ → Ptr → Exec W (Unit {0})
  unfolding close_once
  close_conn zero c = no_fuel
  close_conn (suc n) c = close_once (close_conn n) c
