-- ===== src/Socket/Calls.antt =====
-- internal/platform/socket_unix.go, socket_linux.go and socket_darwin.go: the calls that open a
-- descriptor. The kernel is a parameter; of an option whose error the code drops, only the new state
-- is kept.
use mini_envoy.Base.{ℕ, Bool, true, false, List, [], ◌∷◌, Option, none, some}
use mini_envoy.Base.Int.{ℤ, pos}

-- The error of `unix.Connect`, by what the code tests: nil, EINPROGRESS, EINTR, or another one.
pub data Reached : Type 0 where
  at_once in_progress interrupted failed : Reached

-- The calls on a state of the outside world. A `true` is the nil error. An address is an IPv4
-- address and a port, and none where the kernel gives one of another family.
pub record Kernel (W : Type 0) : Type 0 where
  pub socket : W → W × Option ℕ
  pub accept : ℕ → W → W × Option (ℕ × Option (List ℕ × ℤ))
  pub close : ℕ → W → W
  pub close_on_exec : ℕ → W → W
  pub set_reuse_addr : ℕ → W → W × Bool
  pub set_reuse_port : ℕ → W → W
  pub set_no_delay : ℕ → W → W
  pub set_nonblock : ℕ → W → W × Bool
  pub bind : ℕ → List ℕ → ℤ → W → W × Bool
  pub listen : ℕ → ℤ → W → W × Bool
  pub connect : ℕ → List ℕ → ℤ → W → W × Reached

abbrev pub addr_of : Option (List ℕ × ℤ) → List ℕ × ℤ
addr_of (some a) = a
addr_of none = (0 ∷ 0 ∷ 0 ∷ 0 ∷ [], pos 0)

module _ {W : Type 0} (k : Kernel W) where
  -- A new socket, marked to be closed where the process runs another program.
  abbrev pub with_socket : {A : Type 0} → W × Option ℕ → (ℕ → W → W × Option A) → W × Option A
  with_socket (w, none) next = (w, none)
  with_socket (w, some fd) next = next fd (k.close_on_exec fd w)

  -- `if err := ...; err != nil { unix.Close(fd); return ... }`
  abbrev pub or_close : {A : Type 0} → ℕ → W × Bool → (W → W × Option A) → W × Option A
  or_close fd (w, true) next = next w
  or_close fd (w, false) next = (k.close fd w, none)

  unfoldable pub listen_tcp4 : List ℕ → (port backlog : ℤ) → W → W × Option ℕ
  listen_tcp4 ip port backlog w = with_socket (k.socket w) (λ fd w1.
      or_close fd (k.set_reuse_addr fd w1) (λ w2.
        or_close fd (k.bind fd ip port (k.set_reuse_port fd w2)) (λ w3.
          or_close fd (k.listen fd backlog w3)
            (λ w4. or_close fd (k.set_nonblock fd w4) (λ w5. (w5, some fd))))))

  -- What `ConnectTCP4` makes of the result of the call.
  abbrev pub reached : ℕ → W × Reached → W × Option (ℕ × Bool)
  reached fd (w, at_once) = (w, some (fd, false))
  reached fd (w, in_progress) = (w, some (fd, true))
  reached fd (w, interrupted) = (w, some (fd, true))
  reached fd (w, failed) = (k.close fd w, none)

  unfoldable pub connect_tcp4 : List ℕ → ℤ → W → W × Option (ℕ × Bool)
  connect_tcp4 ip port w = with_socket (k.socket w) (λ fd w1.
      or_close fd (k.set_nonblock fd (k.set_no_delay fd w1))
        (λ w2. reached fd (k.connect fd ip port w2)))

  -- What each `Accept` makes of the result of the call.
  abbrev pub taken_linux : W × Option (ℕ × Option (List ℕ × ℤ)) → W × Option (ℕ × (List ℕ × ℤ))
  taken_linux (w, none) = (w, none)
  taken_linux (w, some (n, a)) = (k.set_no_delay n w, some (n, addr_of a))

  abbrev pub taken_darwin : W × Option (ℕ × Option (List ℕ × ℤ)) → W × Option (ℕ × (List ℕ × ℤ))
  taken_darwin (w, none) = (w, none)
  taken_darwin (w, some (n, a)) =
      or_close n (k.set_nonblock n (k.close_on_exec n w))
        (λ w1. (k.set_no_delay n w1, some (n, addr_of a)))

  -- `Accept` on Linux, where the new descriptor does not block from the start, and on Darwin.
  unfoldable pub accept_linux : ℕ → W → W × Option (ℕ × (List ℕ × ℤ))
  accept_linux fd w = taken_linux (k.accept fd w)

  unfoldable pub accept_darwin : ℕ → W → W × Option (ℕ × (List ℕ × ℤ))
  accept_darwin fd w = taken_darwin (k.accept fd w)
