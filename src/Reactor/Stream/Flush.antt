-- ===== src/Reactor/Stream/Flush.antt =====
-- `flush` loses no byte, writes none twice and keeps the order, however the system cuts the writes.
use mini_envoy.Base.{ℕ, ◌≡◌, inl, inr, refl, sym, ap, ◌∙◌, false, List, [], ◌∷◌, ◌++◌}
use mini_envoy.Base.{some, get_elem?, if◌then◌else◌, arith, take, drop}
use mini_envoy.Base.{append-nil, append_assoc}
use mathlib.Core.Path.{subst}
use mini_envoy.Base.Int.{ℤ, pos, negsuc, pos_part, ltb_ℤ}
use mini_envoy.Upstream.Endpoint.{add_out_bytes}
use mini_envoy.Upstream.Registry.{Ptr}
use mini_envoy.Reactor.Platform.{Platform, SysError, read_write}
use mini_envoy.Reactor.Conn.{Conn}
use mini_envoy.Reactor.Exec.{
  Reactor, panic, ask, modify, tell, ◌>>=◌, ◌>>◌, load, modify_conn, count, modify_ep, skip,
}
use mini_envoy.Reactor.Exec.Rules.{
  Post, Keeps, Keeps-skip, keeps_rules, Turns, Turns-bind, Turns-kept, Turns-if, Turns-load,
}
use mini_envoy.Reactor.Write.{
  add_out, non_empty, stash, joined, gather_parts, stash_remainder, written, write_parts, flush,
  close_conn,
}
use mini_envoy.Reactor.Listed.{
  Has, IsUnlisted, unlisted, modify_conn-Has, write_parts-Has, close_conn-Has,
}
use mini_envoy.Reactor.Stream.{stash-joined, joined-gather_parts}
use mini_envoy.Reactor.Stream.Wire.{
  IsWire, IsAt, Total, Writing, IsSound, change_conn, last-IsAt, count-IsAt, modify_ep-IsAt,
  poll_mod-IsAt, now-IsAt, close-IsSound,
}
use mini_envoy.Reactor.Stream.Remain.{sound, loaded, left_first, flush_remain-IsSound}

module _ {W : Type 0} (os : Platform W) (out : W → ℕ → List ℕ) (wire : IsWire os out) (fd : ℕ)
    (c : Ptr) where
  module _ (m : ℕ) (bs : List ℕ) where
    -- The rest of the bytes in hand is kept for later.
    stash_remainder-IsAt :
        (iov : List (List ℕ)) (n : ℤ)
        → Turns
            (IsAt out fd c (Writing (drop (pos_part n) (joined iov)) bs))
            (IsAt out fd c (Total bs))
            (stash_remainder os c iov n)
    unfolding stash_remainder panic
    stash_remainder-IsAt [] (negsuc n) = Turns-kept _ Keeps-skip (λ s h. record {
      conn = h.conn;
      at = h.at;
      same = h.same;
      rel = ap (◌++◌ (out s.os fd)) h.rel.0 ∙ h.rel.1;
    })
    stash_remainder-IsAt (p ∷ ps) (negsuc n) = record { at = λ s h. tt }
    stash_remainder-IsAt iov (pos n) =
        Turns-bind _ _
          (change_conn os out wire fd c _ (Total bs)
            (λ k. record k { write_remain = stash k.write_remain iov n }) (λ k. refl)
            (λ left k r.
              ap (◌++◌ left)
                (stash-joined k.write_remain iov n ∙ ap (λ t. t ++ drop n (joined iov)) r.0)
              ∙ r.1))
          (λ _. Turns-kept _ watched (λ s h. h))
      where
        watched : Keeps (IsAt out fd c (Total bs)) (do
          k ← load c
          if non_empty k.write_remain then tell (os.poll_mod k.fd read_write) else skip)
        watched = search (keeps_rules, poll_mod-IsAt)

    written-IsSound :
        (iov : List (List ℕ)) (r : ℤ × SysError)
        → Turns
            (IsAt out fd c (Writing (drop (pos_part r.0) (joined iov)) bs))
            (IsSound out fd c bs)
            (written os (close_conn os m) c iov r)
    unfolding written
    written-IsSound iov (n, err) = Turns-bind _ _ (Turns-kept _ counts (λ s h. h)) (λ _.
        Turns-if _ _ _ (λ _. close-IsSound os out wire fd c bs _ m)
          (λ _.
            Turns-bind _ _ (stash_remainder-IsAt iov n) (λ _. sound os out wire fd c m bs _ dated)))
      where
        counts : Keeps (IsAt out fd c (Writing (drop (pos_part n) (joined iov)) bs)) (
            if ltb_ℤ (pos 0) n
            then (do
              count (add_out (pos_part n))
              k ← load c
              modify_ep k.ep (λ e. add_out_bytes e (pos_part n)))
            else skip)
        counts = search (keeps_rules, count-IsAt, modify_ep-IsAt)

        dated :
            Keeps
              (IsAt out fd c (Total bs))
              (do now ← ask os.now; modify_conn c (λ k. record k { last = now }))
        dated = search (keeps_rules, now-IsAt, last-IsAt os out wire fd c (Total bs))

    writev-IsSound :
        (iov : List (List ℕ)) (k : Conn)
        → Turns
            (λ s. IsAt out fd c (Writing (joined iov) bs) s × (get_elem? s.conns c ≡ some k))
            (IsSound out fd c bs)
            (do result ← ask (os.writev k.fd iov); written os (close_conn os m) c iov result)
    unfolding ask ◌>>=◌
    writev-IsSound iov k = record {
      at = λ s h.
          let known = loaded os out wire fd c m bs (Writing (joined iov) bs) s k h.0 h.1 in
          let r = os.writev k.fd iov s.os in
          (written-IsSound iov r.1).at (record s { os = r.0 })
            record {
              conn = k;
              at = h.1;
              same = known.0;
              rel = (
                known.1.0,
                left_first os out wire fd c m bs (out s.os fd) (out r.0 fd) (joined iov)
                    (pos_part r.1.0)
                    (subst
                      (λ i.
                        out (os.writev i iov s.os).0 fd
                        ≡ out s.os fd ++ take (pos_part (os.writev i iov s.os).1.0) (joined iov))
                      (sym known.0) (wire.writev_out fd iov s.os))
                    known.1.1,
              );
            };
    }

    write_parts-IsSound :
        (parts : List (List ℕ))
        → Turns
            (IsAt out fd c (Writing (joined parts) bs))
            (IsSound out fd c bs)
            (write_parts os (close_conn os m) c parts)
    unfolding write_parts
    write_parts-IsSound parts =
        Turns-if _ _ _
          (λ _. Turns-load c _ (λ k. record {
            at = λ s h. (writev-IsSound (gather_parts parts) k).at s (
              record {
                conn = h.0.conn;
                at = h.0.at;
                same = h.0.same;
                rel = (h.0.rel.0, ap (◌++◌ (out s.os fd)) (joined-gather_parts parts) ∙ h.0.rel.1);
              },
              h.1,
            );
          }))
          (λ e. Turns-kept _ Keeps-skip (λ s h. inr record {
            conn = h.conn;
            at = h.at;
            same = h.same;
            rel =
                ap (◌++◌ (out s.os fd))
                  (h.rel.0 ∙ sym (none_joined (gather_parts parts) e) ∙ joined-gather_parts parts)
                ∙ h.rel.1;
          }))
      where
        none_joined : (iov : List (List ℕ)) → non_empty iov ≡ false → joined iov ≡ []
        none_joined [] e = refl
        none_joined (p ∷ ps) e = ground arith

  module _ (m : ℕ) (bs : List ℕ) (parts : List (List ℕ)) where
    abbrev IsSent : Reactor W → Type 0
    IsSent s = IsSound out fd c (bs ++ joined parts) s

    parts_now :
        (k : Conn)
        → non_empty k.write_remain ≡ false
        → Turns
            (λ s. IsAt out fd c (Total bs) s × (get_elem? s.conns c ≡ some k))
            IsSent
            (write_parts os (close_conn os m) c parts)
    parts_now k e = record {
      at = λ s h.
          let known = loaded os out wire fd c m bs (Total bs) s k h.0 h.1 in
          let nothing = empty_list k.write_remain e in
          (write_parts-IsSound m (bs ++ joined parts) parts).at s record {
            conn = k;
            at = h.1;
            same = known.0;
            rel = (
              nothing,
              ap (λ t. t ++ joined parts)
                  (sym (append-nil (out s.os fd))
                    ∙ ap (◌++◌ (out s.os fd)) (sym nothing)
                    ∙ known.1),
            );
          };
    }
      where
        empty_list : (xs : List ℕ) → non_empty xs ≡ false → xs ≡ []
        empty_list [] e = refl
        empty_list (x ∷ xs) e = ground arith

    -- The parts are written where nothing remains, and kept behind what remains otherwise.
    parts_behind :
        (k : Conn)
        → Turns
            (λ s. IsAt out fd c (Total bs) s × (get_elem? s.conns c ≡ some k))
            IsSent
            (if non_empty k.write_remain
              then modify_conn c (λ j. record j { write_remain = j.write_remain ++ joined parts })
              else write_parts os (close_conn os m) c parts)
    unfolding modify_conn modify
    parts_behind k =
        Turns-if _ _ _
          (λ _. record {
            at = λ s h. inr (
                (change_conn os out wire fd c (Total bs) (Total (bs ++ joined parts))
                    (λ j. record j { write_remain = j.write_remain ++ joined parts }) (λ j. refl)
                    (λ left j r.
                      sym (append_assoc left j.write_remain (joined parts))
                      ∙ ap (λ t. t ++ joined parts) r)).at
                  s h.0);
          })
          (parts_now k)

    -- A connection that was closed is not listed again.
    unlisted_parts : Keeps (Has os (λ l t w. IsUnlisted fd c t) (unlisted os fd c)) (do
      k ← load c
      if non_empty k.write_remain
          then modify_conn c (λ j. record j { write_remain = j.write_remain ++ joined parts })
          else write_parts os (close_conn os m) c parts)
    unlisted_parts = search (
      keeps_rules,
      modify_conn-Has os (λ l t w. IsUnlisted fd c t) (unlisted os fd c),
      write_parts-Has os (λ l t w. IsUnlisted fd c t) (unlisted os fd c) (close_conn os m)
          (close_conn-Has os (λ l t w. IsUnlisted fd c t) (unlisted os fd c) m),
    )

    after_remain : Turns (IsSound out fd c bs) IsSent (do
      k ← load c
      if non_empty k.write_remain
          then modify_conn c (λ j. record j { write_remain = j.write_remain ++ joined parts })
          else write_parts os (close_conn os m) c parts)
    after_remain = record {
      at = λ s h. elim h [
        | inl u ↦ (Turns-kept _ unlisted_parts (λ s' u'. inl u')).at s u
        | inr k ↦ (Turns-load c _ parts_behind).at s k
      ];
    }

    flush-IsSent : Turns (IsAt out fd c (Total bs)) IsSent (flush os (close_conn os m) c parts)
    unfolding flush
    flush-IsSent = Turns-load c _ (λ k.
        Turns-if _ _ _
          (λ _. record {
            at = λ s h.
                (Turns-bind _ _ (flush_remain-IsSound os out wire fd c m bs) (λ _. after_remain)).at
                  s h.0;
          })
          (parts_now k))

-- Where the system's writes report how many bytes they took, a flush that returns leaves the
-- connection closed (its descriptor does not lead to it), or the bytes that left through its
-- descriptor, followed by those kept to be written, are those from before followed by the parts: none
-- is lost, doubled or out of order.
pub flush_stream :
    {W : Type 0} (os : Platform W) (out : W → ℕ → List ℕ) (c : Ptr) (parts : List (List ℕ))
    (k : Conn) (s : Reactor W) (m : ℕ)
    → IsWire os out
    → get_elem? s.conns c ≡ some k
    → Post
        (λ a s'. IsSound out k.fd c ((out s.os k.fd ++ k.write_remain) ++ joined parts) s')
        (flush os (close_conn os m) c parts s)
flush_stream os out c parts k s m wire at =
    (flush-IsSent os out wire k.fd c m (out s.os k.fd ++ k.write_remain) parts).at s
      (record { conn = k; at = at; same = refl; rel = refl })
