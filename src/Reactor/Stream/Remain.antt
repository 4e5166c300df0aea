-- ===== src/Reactor/Stream/Remain.antt =====
-- `flushRemain` loses no byte of what remained to be written.
use mini_envoy.Base.{ℕ, ◌≡◌, inr, refl, sym, ap, ◌∙◌, false, List, ◌++◌}
use mini_envoy.Base.{some, get_elem?, if◌then◌else◌, arith, take, drop}
use mini_envoy.Base.{append_assoc, take-append-drop}
use mathlib.Core.Path.{subst}
use mathlib.Core.Option.{some-injective}
use mini_envoy.Base.Int.{ℤ, pos, negsuc, pos_part, ltb_ℤ}
use mini_envoy.Upstream.Registry.{Ptr}
use mini_envoy.Reactor.Platform.{Platform, SysError, read_only}
use mini_envoy.Reactor.Conn.{Conn}
use mini_envoy.Reactor.Exec.{Reactor, Exec, ask, tell, ◌>>=◌, ◌>>◌, load, modify_conn, count, skip}
use mini_envoy.Reactor.Exec.Rules.{
  Keeps, Keeps-skip, keeps_rules, Turns, Turns-bind, Turns-kept, Turns-if, Turns-load,
}
use mini_envoy.Reactor.Write.{add_out, non_empty, sent, flush_remain, close_conn}
use mini_envoy.Reactor.Stream.Wire.{
  IsWire, IsAt, Total, Sending, IsSound, change_conn, count-IsAt, poll_mod-IsAt, close-IsSound,
}

module _ {W : Type 0} (os : Platform W) (out : W → ℕ → List ℕ) (wire : IsWire os out) (fd : ℕ)
    (c : Ptr) where
  module _ (m : ℕ) (bs : List ℕ) where
    pub sound :
        {A : Type 0} (x : Exec W A)
        → Keeps (IsAt out fd c (Total bs)) x
        → Turns (IsAt out fd c (Total bs)) (IsSound out fd c bs) x
    sound x h = Turns-kept x h (λ s k. inr k)

    -- The bytes that `Send` took are cut off.
    sent_cut :
        (n : ℤ)
        → Turns (IsAt out fd c (Sending (pos_part n) bs)) (IsAt out fd c (Total bs)) (
            if ltb_ℤ (pos 0) n
            then (do
              modify_conn c (λ k. record k { write_remain = drop (pos_part n) k.write_remain })
              count (add_out (pos_part n)))
            else skip)
    sent_cut n =
        Turns-if _ _ _
          (λ h.
            Turns-bind _ _
              (change_conn os out wire fd c _ _
                (λ k. record k { write_remain = drop (pos_part n) k.write_remain }) (λ k. refl)
                (λ l k r. r))
              (λ _. Turns-kept _ (count-IsAt os out wire fd c _ _) (λ s k. k)))
          (λ h. Turns-kept _ Keeps-skip (λ s k. record {
            conn = k.conn;
            at = k.at;
            same = k.same;
            rel = subst (λ j. out s.os fd ++ drop j k.conn.write_remain ≡ bs) (none_sent n h) k.rel;
          }))
      where
        none_sent : (n : ℤ) → ltb_ℤ (pos 0) n ≡ false → pos_part n ≡ 0
        none_sent (pos n) h = ground arith
        none_sent (negsuc n) h = refl

    sent-IsSound :
        (r : ℤ × SysError)
        → Turns
            (IsAt out fd c (Sending (pos_part r.0) bs))
            (IsSound out fd c bs)
            (sent os (close_conn os m) c r)
    unfolding sent
    sent-IsSound (n, err) = Turns-bind _ _ (sent_cut n) (λ _.
        Turns-if _ _ _ (λ _. close-IsSound os out wire fd c bs (Total bs) m) (λ _. sound _ watched))
      where
        watched : Keeps (IsAt out fd c (Total bs)) (do
          k ← load c
          if non_empty k.write_remain then skip else tell (os.poll_mod k.fd read_only))
        watched = search (keeps_rules, poll_mod-IsAt)

    -- What is known of a connection that was loaded.
    pub loaded :
        (R : List ℕ → List ℕ → Type 0) (s : Reactor W) (k : Conn)
        → IsAt out fd c R s
        → get_elem? s.conns c ≡ some k
        → (k.fd ≡ fd) × R (out s.os fd) k.write_remain
    loaded R s k h e =
        let same : h.conn ≡ k = some-injective h.conn k (sym h.at ∙ e) in
        (ap (λ j. j.fd) (sym same) ∙ h.same, subst (λ j. R (out s.os fd) j.write_remain) same h.rel)

    -- Bytes that left were the first of those in hand.
    pub left_first :
        (before after hand : List ℕ) (n : ℕ)
        → after ≡ before ++ take n hand
        → before ++ hand ≡ bs
        → after ++ drop n hand ≡ bs
    left_first before after hand n e h =
        ap (λ l. l ++ drop n hand) e
        ∙ append_assoc before (take n hand) (drop n hand)
        ∙ ap (◌++◌ before) (take-append-drop n hand)
        ∙ h

    send-IsSound :
        (k : Conn)
        → Turns
            (λ s. IsAt out fd c (Total bs) s × (get_elem? s.conns c ≡ some k))
            (IsSound out fd c bs)
            (do result ← ask (os.send k.fd k.write_remain); sent os (close_conn os m) c result)
    unfolding ask ◌>>=◌
    send-IsSound k = record {
      at = λ s h.
          let known = loaded (Total bs) s k h.0 h.1 in
          let r = os.send k.fd k.write_remain s.os in
          (sent-IsSound r.1).at (record s { os = r.0 })
            record {
              conn = k;
              at = h.1;
              same = known.0;
              rel =
                  left_first (out s.os fd) (out r.0 fd) k.write_remain (pos_part r.1.0)
                    (subst
                      (λ i.
                        out (os.send i k.write_remain s.os).0 fd
                        ≡ out s.os fd
                          ++ take (pos_part (os.send i k.write_remain s.os).1.0) k.write_remain)
                      (sym known.0) (wire.send_out fd k.write_remain s.os))
                    known.1;
            };
    }

    pub flush_remain-IsSound :
        Turns (IsAt out fd c (Total bs)) (IsSound out fd c bs) (flush_remain os (close_conn os m) c)
    unfolding flush_remain
    flush_remain-IsSound =
        Turns-load c _ (λ k.
          Turns-if _ _ _ (λ _. send-IsSound k) (λ _. Turns-kept _ Keeps-skip (λ s h. inr h.0)))
