-- ===== src/Socket/Opened.antt =====
-- internal/platform/socket_unix.go, socket_linux.go and socket_darwin.go: the descriptors that are open after a call.
use mini_envoy.Base.{ℕ, ◌≡◌, ◌∙◌, Bool, true, false, List, ◌∷◌, Option, none, some}
use mini_envoy.Base.Int.{ℤ}
use mini_envoy.Socket.Calls.{
  Kernel, Reached, at_once, in_progress, interrupted, failed, with_socket, or_close, reached,
  listen_tcp4, connect_tcp4, taken_linux, taken_darwin, accept_linux, accept_darwin,
}

-- The call gave a descriptor, which is open beside those of before, or none, and those of before
-- are open.
abbrev pub Opened : {W A : Type 0} → (W → List ℕ) → (A → ℕ) → List ℕ → W × Option A → Type 0
Opened held fd_of fds (w, none) = held w ≡ fds
Opened held fd_of fds (w, some a) = held w ≡ fd_of a ∷ fds

-- What the kernel does to the list of the open descriptors: a new one comes first, and closing that
-- one takes it away.
pub record IsTracked {W : Type 0} (k : Kernel W) (held : W → List ℕ) : Type 0 where
  pub socket : (w : W) → Opened held (λ fd. fd) (held w) (k.socket w)
  pub accept : (fd : ℕ) (w : W) → Opened held (λ a. a.0) (held w) (k.accept fd w)
  pub close : (fd : ℕ) (fds : List ℕ) (w : W) → held w ≡ fd ∷ fds → held (k.close fd w) ≡ fds
  pub close_on_exec : (fd : ℕ) (w : W) → held (k.close_on_exec fd w) ≡ held w
  pub set_reuse_addr : (fd : ℕ) (w : W) → held (k.set_reuse_addr fd w).0 ≡ held w
  pub set_reuse_port : (fd : ℕ) (w : W) → held (k.set_reuse_port fd w) ≡ held w
  pub set_no_delay : (fd : ℕ) (w : W) → held (k.set_no_delay fd w) ≡ held w
  pub set_nonblock : (fd : ℕ) (w : W) → held (k.set_nonblock fd w).0 ≡ held w
  pub bind : (fd : ℕ) (ip : List ℕ) (port : ℤ) (w : W) → held (k.bind fd ip port w).0 ≡ held w
  pub listen : (fd : ℕ) (backlog : ℤ) (w : W) → held (k.listen fd backlog w).0 ≡ held w
  pub connect : (fd : ℕ) (ip : List ℕ) (port : ℤ) (w : W) → held (k.connect fd ip port w).0 ≡ held w

module _ {W : Type 0} (k : Kernel W) (held : W → List ℕ) (t : IsTracked k held) where
  with_socket-Opened :
      {A : Type 0} (fd_of : A → ℕ) (fds : List ℕ) (r : W × Option ℕ) (next : ℕ → W → W × Option A)
      → Opened held (λ fd. fd) fds r
      → ((fd : ℕ) (w : W) → held w ≡ fd ∷ fds → Opened held fd_of fds (next fd w))
      → Opened held fd_of fds (with_socket k r next)
  with_socket-Opened fd_of fds (w, none) next has step = has
  with_socket-Opened fd_of fds (w, some fd) next has step =
      step fd (k.close_on_exec fd w) (t.close_on_exec fd w ∙ has)

  or_close-Opened :
      {A : Type 0} (fd_of : A → ℕ) (fd : ℕ) (fds : List ℕ) (r : W × Bool) (next : W → W × Option A)
      → held r.0 ≡ fd ∷ fds
      → ((w : W) → held w ≡ fd ∷ fds → Opened held fd_of fds (next w))
      → Opened held fd_of fds (or_close k fd r next)
  or_close-Opened fd_of fd fds (w, true) next has step = step w has
  or_close-Opened fd_of fd fds (w, false) next has step = t.close fd fds w has

  reached-Opened :
      (fd : ℕ) (fds : List ℕ) (r : W × Reached)
      → held r.0 ≡ fd ∷ fds
      → Opened held (λ a. a.0) fds (reached k fd r)
  reached-Opened fd fds (w, at_once) has = has
  reached-Opened fd fds (w, in_progress) has = has
  reached-Opened fd fds (w, interrupted) has = has
  reached-Opened fd fds (w, failed) has = t.close fd fds w has

  -- A listener that does not open leaves no descriptor behind.
  listen_tcp4-Opened :
      (ip : List ℕ) (port backlog : ℤ) (w : W)
      → Opened held (λ fd. fd) (held w) (listen_tcp4 k ip port backlog w)
  unfolding listen_tcp4
  listen_tcp4-Opened ip port backlog w =
      with_socket-Opened (λ a. a) (held w) (k.socket w) _ (t.socket w)
        (λ fd w1 has.
          or_close-Opened (λ a. a) fd (held w) (k.set_reuse_addr fd w1) _
            (t.set_reuse_addr fd w1 ∙ has)
            (λ w2 has2.
              or_close-Opened (λ a. a) fd (held w) (k.bind fd ip port (k.set_reuse_port fd w2)) _
                (t.bind fd ip port (k.set_reuse_port fd w2) ∙ t.set_reuse_port fd w2 ∙ has2)
                (λ w3 has3.
                  or_close-Opened (λ a. a) fd (held w) (k.listen fd backlog w3) _
                    (t.listen fd backlog w3 ∙ has3)
                    (λ w4 has4.
                      or_close-Opened (λ a. a) fd (held w) (k.set_nonblock fd w4) _
                        (t.set_nonblock fd w4 ∙ has4) (λ w5 has5. has5)))))

  -- On a kernel that opens and closes descriptors as `IsTracked` says, `ConnectTCP4` leaves one
  -- descriptor more open, the one it returns, or fails and leaves those of before open.
  pub connect_tcp4-Opened :
      (ip : List ℕ) (port : ℤ) (w : W) → Opened held (λ a. a.0) (held w) (connect_tcp4 k ip port w)
  unfolding connect_tcp4
  connect_tcp4-Opened ip port w =
      with_socket-Opened (λ a. a.0) (held w) (k.socket w) _ (t.socket w)
        (λ fd w1 has.
          let w2 = k.set_no_delay fd w1 in
          or_close-Opened (λ a. a.0) fd (held w) (k.set_nonblock fd w2) _
            (t.set_nonblock fd w2 ∙ t.set_no_delay fd w1 ∙ has)
            (λ w3 has3.
              reached-Opened fd (held w) (k.connect fd ip port w3)
                (t.connect fd ip port w3 ∙ has3)))

  taken_linux-Opened :
      (fds : List ℕ) (r : W × Option (ℕ × Option (List ℕ × ℤ)))
      → Opened held (λ a. a.0) fds r
      → Opened held (λ a. a.0) fds (taken_linux k r)
  taken_linux-Opened fds (w, none) has = has
  taken_linux-Opened fds (w, some (n, a)) has = t.set_no_delay n w ∙ has

  taken_darwin-Opened :
      (fds : List ℕ) (r : W × Option (ℕ × Option (List ℕ × ℤ)))
      → Opened held (λ a. a.0) fds r
      → Opened held (λ a. a.0) fds (taken_darwin k r)
  taken_darwin-Opened fds (w, none) has = has
  taken_darwin-Opened fds (w, some (n, a)) has =
      or_close-Opened (λ a. a.0) n fds (k.set_nonblock n (k.close_on_exec n w)) _
        (t.set_nonblock n (k.close_on_exec n w) ∙ t.close_on_exec n w ∙ has)
        (λ w1 has1. t.set_no_delay n w1 ∙ has1)

  -- Accepting leaves no descriptor behind where it fails, on either system.
  accept_linux-Opened : (fd : ℕ) (w : W) → Opened held (λ a. a.0) (held w) (accept_linux k fd w)
  unfolding accept_linux
  accept_linux-Opened fd w = taken_linux-Opened (held w) (k.accept fd w) (t.accept fd w)

  accept_darwin-Opened : (fd : ℕ) (w : W) → Opened held (λ a. a.0) (held w) (accept_darwin k fd w)
  unfolding accept_darwin
  accept_darwin-Opened fd w = taken_darwin-Opened (held w) (k.accept fd w) (t.accept fd w)
