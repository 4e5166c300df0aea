-- ===== src/Reactor/Tidy/Shutdown.antt =====
-- The end of `Run` takes every connection out of the table, but for the listener's entry.
use mini_envoy.Base.{ℕ, ◌≡◌, ◌⊎◌, inl, inr, refl, sym, ap, ◌∙◌, true, List, [], ◌∷◌}
use mini_envoy.Base.{some, if_true, if_false, get_elem?, Bool-cases, arith, ◌==◌}
use mathlib.Core.Option.{some-injective}
use mini_envoy.Upstream.Registry.{Ptr}
use mini_envoy.Reactor.Platform.{Platform}
use mini_envoy.Reactor.Conn.{Conn, Role, listening, FdTable, get, del, all, is_listening}
use mini_envoy.Reactor.Conn.Lookup.{get-del}
use mini_envoy.Reactor.Exec.{Reactor, Outcome, returned, panicked, out_of_fuel, skip}
use mini_envoy.Reactor.Exec.Rules.{
  Post, Post-weaken, Keeps-skip, Turns, Turns-bind, Turns-kept, Turns-if, Turns-load,
}
use mini_envoy.Reactor.Loop.{close, close_all}
use mini_envoy.Reactor.Listed.{IsUnlisted, of_table, close_conn-Has, close_conn-IsUnlisted}
use mini_envoy.Reactor.Tidy.{IsTidy, close_conn-IsTidy}

abbrev pub IsIn : Ptr → List Ptr → Type 0
IsIn p [] = ⊥
IsIn p (q ∷ qs) = (p ≡ q) ⊎ IsIn p qs

-- The listener has that descriptor, and `R` holds of what the table has.
abbrev pub Entries : ℕ → (ℕ → Ptr → Type 0) → ℕ → FdTable → Type 0
Entries listen R l t = (l ≡ listen) × ((fd : ℕ) (p : Ptr) → get t fd ≡ some p → R fd p)

-- Every descriptor but the listener's leads to one of those connections.
abbrev pub IsLeft : ℕ → List Ptr → ℕ → FdTable → Type 0
IsLeft listen ps l t = Entries listen (λ fd p. IsIn p ps ⊎ (fd ≡ listen)) l t

del-Entries :
    (listen : ℕ) (R : ℕ → Ptr → Type 0) (l : ℕ) (t : FdTable) (a : ℕ)
    → Entries listen R l t
    → Entries listen R l (del t a)
del-Entries listen R l t a (e, h) = (e, λ fd p g. h fd p (get-del t a fd p g))

module _ {W A : Type 0} where
  pub Post-both :
      (P Q : Reactor W → Type 0) (o : Outcome (A × Reactor W))
      → Post (λ a s. P s) o
      → Post (λ a s. Q s) o
      → Post (λ a s. P s × Q s) o
  Post-both P Q (returned (a, s)) h k = (h, k)
  Post-both P Q panicked h k = tt
  Post-both P Q out_of_fuel h k = tt

module _ {W : Type 0} (os : Platform W) (listen : ℕ) where
  abbrev pub Closing : List Ptr → Reactor W → Type 0
  Closing ps s = IsTidy s × IsLeft listen ps s.listen s.tab

  -- The listener's own connection is passed over.
  passed :
      (c : Ptr) (cs : List Ptr) (k : Conn)
      → is_listening k.role ≡ true
      → Turns (λ s. Closing (c ∷ cs) s × (get_elem? s.conns c ≡ some k)) (Closing cs) (skip {W = W})
  passed c cs k e =
      Turns-kept _ Keeps-skip
        (λ s h. (h.0.0, (h.0.1.0, λ fd p g. rest s h fd p g (h.0.1.1 fd p g))))
    where
      role_of : (r : Role) → is_listening r ≡ true → r ≡ listening
      role_of listening q = refl
      role_of r q = ground arith

      rest :
          (s : Reactor W)
          → Closing (c ∷ cs) s × (get_elem? s.conns c ≡ some k)
          → (fd : ℕ) (p : Ptr) → get s.tab fd ≡ some p
          → IsIn p (c ∷ cs) ⊎ (fd ≡ listen)
          → IsIn p cs ⊎ (fd ≡ listen)
      rest s h fd p g (inr q) = inr q
      rest s h fd p g (inl (inr q)) = inl q
      rest s h fd p g (inl (inl q)) =
          let e' = h.0.0 fd p g in
          let same : e'.conn ≡ k =
            some-injective e'.conn k (sym e'.at ∙ ap (get_elem? s.conns) q ∙ h.1) in
          inr (e'.only (ap (λ j. j.role) same ∙ role_of k.role e) ∙ h.0.1.0)

  -- What is known of the table before a connection of it is closed.
  abbrev Before : Ptr → List Ptr → Conn → ℕ → Ptr → Type 0
  Before c cs k fd p = (IsIn p (c ∷ cs) ⊎ (fd ≡ listen)) × (p ≡ c → k.fd ≡ fd)

  closed :
      (c : Ptr) (cs : List Ptr) (k : Conn)
      → Turns (λ s. Closing (c ∷ cs) s × (get_elem? s.conns c ≡ some k)) (Closing cs) (close os c)
  closed c cs k = record {
    at = λ s h.
        Post-weaken (close os c s)
          (λ a s' q. (q.0, (q.1.0.0, λ fd p g. rest s'.tab fd p g (q.1.0.1 fd p g) q.1.1)))
          (Post-both _ _ (close os c s) ((close_conn-IsTidy os 2 c).at s h.0.0) (
            Post-both _ _ (close os c s)
              ((close_conn-Has os (λ l t w. Entries listen (Before c cs k) l t)
                  (of_table os (Entries listen (Before c cs k))
                    (del-Entries listen (Before c cs k)))
                  2 c).at
                s (h.0.1.0, λ fd p g. (h.0.1.1 fd p g, here s h fd p g)))
              (close_conn-IsUnlisted os 2 k.fd c k s h.1 refl)));
  }
    where
      here :
          (s : Reactor W)
          → Closing (c ∷ cs) s × (get_elem? s.conns c ≡ some k)
          → (fd : ℕ) (p : Ptr) → get s.tab fd ≡ some p
          → p ≡ c
          → k.fd ≡ fd
      here s h fd p g q =
          let e = h.0.0 fd p g in
          ap (λ j. j.fd) (some-injective k e.conn (sym h.1 ∙ ap (get_elem? s.conns) (sym q) ∙ e.at))
          ∙ e.same

      rest :
          (t : FdTable) (fd : ℕ) (p : Ptr)
          → get t fd ≡ some p
          → Before c cs k fd p
          → IsUnlisted k.fd c t
          → IsIn p cs ⊎ (fd ≡ listen)
      rest t fd p g (inr q, b) u = inr q
      rest t fd p g (inl (inr q), b) u = inl q
      rest t fd p g (inl (inl q), b) u = absurd (u (ap (get t) (b q) ∙ g ∙ ap some q))

  pub close_all-Closing : (cs : List Ptr) → Turns (Closing cs) (Closing []) (close_all os cs)
  unfolding close_all
  close_all-Closing [] = Turns-kept _ Keeps-skip (λ s h. h)
  close_all-Closing (c ∷ cs) = Turns-load c _ (λ k.
      Turns-bind _ _ (Turns-if _ _ _ (λ e. passed c cs k e) (λ _. closed c cs k))
        (λ _. close_all-Closing cs))

pub IsIn-all : (t : FdTable) (fd : ℕ) (p : Ptr) → get t fd ≡ some p → IsIn p (all t)
unfolding get all
IsIn-all [] fd p h = ground arith
IsIn-all ((i, q) ∷ t) fd p h = elim (Bool-cases (i == fd)) [
  | inl e ↦ inl (sym (some-injective q p (sym (if_true (some q) (get t fd) e) ∙ h)))
  | inr e ↦ inr (IsIn-all t fd p (sym (if_false (some q) (get t fd) e) ∙ h))
]

-- Every descriptor in the table is the listener's.
abbrev pub IsDrained : {W : Type 0} → Reactor W → Type 0
IsDrained s = (fd : ℕ) (p : Ptr) → get s.tab fd ≡ some p → fd ≡ s.listen

-- An order in which to go through the table that leaves nothing out.
abbrev pub IsThorough : (List Ptr → List Ptr) → Type 0
IsThorough order = (ps : List Ptr) (p : Ptr) → IsIn p ps → IsIn p (order ps)

module _ {W : Type 0} (os : Platform W) (order : List Ptr → List Ptr)
    (thorough : IsThorough order) where
  pub drained : (listen : ℕ) (s : Reactor W) → Closing os listen [] s → IsDrained s
  drained listen s h fd p g = elim (h.1.1 fd p g) [ inl q ↦ absurd q | inr e ↦ e ∙ sym h.1.0 ]
