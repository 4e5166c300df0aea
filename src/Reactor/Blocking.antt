-- ===== src/Reactor/Blocking.antt =====
-- What a write does that would block: `writev` gives -1 beside EAGAIN, and `flush` goes on to
-- `stashRemainder` with that count.
use mini_envoy.Base.{ℕ, ◌≡◌, refl, ap, ◌∙◌, Bool, true, false, List, [], ◌∷◌, some}
use mini_envoy.Base.{get_elem?, if◌then◌else◌, arith}
use mini_envoy.Base.Int.{pos, negsuc, ltb_ℤ}
use mini_envoy.Upstream.Registry.{Ptr}
use mini_envoy.Reactor.Platform.{Platform, again}
use mini_envoy.Reactor.Conn.{Conn}
use mini_envoy.Reactor.Exec.{
  Reactor, returned, panicked, Exec, pure, panic, gets, ask, continue, or_panic, ◌>>=◌, load, skip,
}
use mini_envoy.Reactor.Write.{non_empty, gather_parts, stash_remainder, written, write_parts, flush}

module _ {W A : Type 0} where
  load-bind :
      (c : Ptr) (f : Conn → Exec W A) (s : Reactor W) (k : Conn)
      → get_elem? s.conns c ≡ some k
      → (load c >>= f) s ≡ f k s
  unfolding load gets or_panic ◌>>=◌ pure panic
  load-bind c f s k at = rw at

  if-at : (b : Bool) (m n : Exec W A) (s : Reactor W) → b ≡ true → (if b then m else n) s ≡ m s
  if-at true m n s h = refl
  if-at false m n s h = ground arith

  if_not-at : (b : Bool) (m n : Exec W A) (s : Reactor W) → b ≡ false → (if b then m else n) s ≡ n s
  if_not-at false m n s h = refl
  if_not-at true m n s h = ground arith

negative : (n : ℕ) → ltb_ℤ (pos 0) (negsuc n) ≡ false
negative n = ground arith

written_blocked :
    {W : Type 0} (os : Platform W) (close : Ptr → Exec W (Unit {0})) (c : Ptr) (iov : List (List ℕ))
    (s : Reactor W) (n : ℕ)
    → non_empty iov ≡ true
    → written os close c iov (negsuc n, again) s ≡ panicked
unfolding written stash_remainder ◌>>=◌ skip pure panic
written_blocked os close c (p ∷ ps) s n some_part = rw (negative n)
written_blocked os close c [] s n some_part = ground arith

-- A flush of a frame to a connection with nothing left to write panics where `writev` would block and
-- gives a negative count.
pub flush_blocked :
    {W : Type 0} (os : Platform W) (close : Ptr → Exec W (Unit {0})) (c : Ptr)
    (parts : List (List ℕ)) (s : Reactor W) (k : Conn) (w : W) (n : ℕ)
    → get_elem? s.conns c ≡ some k
    → k.write_remain ≡ []
    → non_empty (gather_parts parts) ≡ true
    → os.writev k.fd (gather_parts parts) s.os ≡ (w, (negsuc n, again))
    → flush os close c parts s ≡ panicked
unfolding flush write_parts ask ◌>>=◌
flush_blocked os close c parts s k w n at empty some_part blocked =
    load-bind c _ s k at
    ∙ if_not-at (non_empty k.write_remain) _ _ s (ap non_empty empty)
    ∙ if-at (non_empty (gather_parts parts)) _ _ s some_part
    ∙ load-bind c _ s k at
    ∙ ap
        (λ r.
          continue (returned (r.1, record s { os = r.0 }))
            (written os close c (gather_parts parts)))
        blocked
    ∙ written_blocked os close c (gather_parts parts) (record s { os = w }) n some_part
