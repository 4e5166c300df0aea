-- ===== src/Reactor/Stream/Wire.antt =====
-- What the system's calls do to the bytes of a connection.
use mini_envoy.Base.{ℕ, ◌≡◌, ◌⊎◌, inl, refl, sym, ◌∙◌, List, [], ◌++◌}
use mini_envoy.Base.{Option, none, some, get_elem?, take, drop}
use mathlib.Core.Path.{subst}
use mini_envoy.Base.Int.{ℤ, pos_part}
use mini_envoy.Upstream.Endpoint.{Endpoint}
use mini_envoy.Upstream.Registry.{Ptr}
use mini_envoy.Metrics.{Shard}
use mini_envoy.Reactor.Platform.{Platform, EventBits}
use mini_envoy.Reactor.Conn.{Conn}
use mini_envoy.Reactor.Conn.Lookup.{get_elem-change_self}
use mini_envoy.Reactor.Exec.{Reactor, pure, ask, modify, tell, modify_conn, count, modify_ep}
use mini_envoy.Reactor.Exec.Rules.{Post-weaken, Keeps, Turns}
use mini_envoy.Reactor.Write.{joined, close_conn}
use mini_envoy.Reactor.Listed.{IsUnlisted, close_conn-IsUnlisted}

-- What the calls do to the bytes that left through a descriptor: a write adds the first bytes of
-- what it is given, as many as it reports, and the poller and the clock add none.
pub record IsWire {W : Type 0} (os : Platform W) (out : W → ℕ → List ℕ) : Type 0 where
  pub writev_out :
      (fd : ℕ) (iov : List (List ℕ)) (w : W)
      → out (os.writev fd iov w).0 fd
        ≡ out w fd ++ take (pos_part (os.writev fd iov w).1.0) (joined iov)
  pub send_out :
      (fd : ℕ) (bs : List ℕ) (w : W)
      → out (os.send fd bs w).0 fd ≡ out w fd ++ take (pos_part (os.send fd bs w).1.0) bs
  pub mod_out :
      (i : ℕ) (bits : EventBits) (w : W) (fd : ℕ) → out (os.poll_mod i bits w) fd ≡ out w fd
  pub now_out : (w : W) (fd : ℕ) → out (os.now w).0 fd ≡ out w fd

-- A connection with that descriptor, of whose two lists, what left and what stays, `R` holds.
pub record IsAt {W : Type 0} (out : W → ℕ → List ℕ) (fd : ℕ) (c : Ptr)
    (R : List ℕ → List ℕ → Type 0) (s : Reactor W) : Type 0 where
  pub conn : Conn
  pub at : get_elem? s.conns c ≡ some conn
  pub same : conn.fd ≡ fd
  pub rel : R (out s.os fd) conn.write_remain

abbrev pub Total : List ℕ → List ℕ → List ℕ → Type 0
Total bs left remain = left ++ remain ≡ bs

-- The first bytes of what remains have left already.
abbrev pub Sending : ℕ → List ℕ → List ℕ → List ℕ → Type 0
Sending n bs left remain = left ++ drop n remain ≡ bs

-- Nothing remains but bytes in hand.
abbrev pub Writing : List ℕ → List ℕ → List ℕ → List ℕ → Type 0
Writing hand bs left remain = (remain ≡ []) × (left ++ hand ≡ bs)

-- The connection was closed, or nothing of its stream is lost.
abbrev pub IsSound : {W : Type 0} → (W → ℕ → List ℕ) → ℕ → Ptr → List ℕ → Reactor W → Type 0
IsSound out fd c bs s = IsUnlisted fd c s.tab ⊎ IsAt out fd c (Total bs) s

module _ {W : Type 0} (os : Platform W) (out : W → ℕ → List ℕ) (wire : IsWire os out) (fd : ℕ)
    (c : Ptr) where
  -- A change of the connection.
  pub change_conn :
      (P R : List ℕ → List ℕ → Type 0) (f : Conn → Conn)
      → ((k : Conn) → (f k).fd ≡ k.fd)
      → ((left : List ℕ) (k : Conn) → P left k.write_remain → R left (f k).write_remain)
      → Turns (IsAt out fd c P) (IsAt out fd c R) (modify_conn c f)
  unfolding modify_conn modify
  change_conn P R f keep rel = record {
    at = λ s h. record {
      conn = f h.conn;
      at = get_elem-change_self f c s.conns h.conn h.at;
      same = keep h.conn ∙ h.same;
      rel = rel (out s.os fd) h.conn h.rel;
    };
  }

  module _ (R : List ℕ → List ℕ → Type 0) where
    pub last-IsAt :
        (now : ℤ) → Keeps (IsAt out fd c R) (modify_conn c (λ k. record k { last = now }))
    last-IsAt now = record {
      at = (change_conn R R (λ k. record k { last = now }) (λ k. refl) (λ l k h. h)).at;
    }

    pub count-IsAt : (f : Shard → Shard) → Keeps (IsAt out fd c R) (count f)
    unfolding count modify
    count-IsAt f = record {
      at = λ s h. record { conn = h.conn; at = h.at; same = h.same; rel = h.rel };
    }

    pub modify_ep-IsAt :
        (o : Option Ptr) (f : Endpoint → Endpoint) → Keeps (IsAt out fd c R) (modify_ep o f)
    unfolding modify_ep modify pure
    modify_ep-IsAt none f = record { at = λ s h. h }
    modify_ep-IsAt (some p) f = record {
      at = λ s h. record { conn = h.conn; at = h.at; same = h.same; rel = h.rel };
    }

    pub poll_mod-IsAt :
        (i : ℕ) (bits : EventBits) → Keeps (IsAt out fd c R) (tell (os.poll_mod i bits))
    unfolding tell
    poll_mod-IsAt i bits = record {
      at = λ s h. record {
        conn = h.conn;
        at = h.at;
        same = h.same;
        rel = subst (λ l. R l h.conn.write_remain) (sym (wire.mod_out i bits s.os fd)) h.rel;
      };
    }

    pub now-IsAt : Keeps (IsAt out fd c R) (ask os.now)
    unfolding ask
    now-IsAt = record {
      at = λ s h. record {
        conn = h.conn;
        at = h.at;
        same = h.same;
        rel = subst (λ l. R l h.conn.write_remain) (sym (wire.now_out s.os fd)) h.rel;
      };
    }

  -- A connection that is closed.
  pub close-IsSound :
      (bs : List ℕ) (R : List ℕ → List ℕ → Type 0) (n : ℕ)
      → Turns (IsAt out fd c R) (IsSound out fd c bs) (close_conn os n c)
  close-IsSound bs R n = record {
    at = λ s h.
        Post-weaken (close_conn os n c s) (λ a s' u. inl u)
          (close_conn-IsUnlisted os n fd c h.conn s h.at h.same);
  }
