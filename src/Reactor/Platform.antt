-- ===== src/Reactor/Platform.antt =====
-- internal/platform/event.go, and what the reactor uses of the operating system: the poller and the
-- calls on sockets are parameters, functions on a state of the outside world.
use mini_envoy.Base.{ℕ, Bool, true, false, List, Option}
use mini_envoy.Base.Int.{ℤ}

-- A set of `EventBits`.
pub record EventBits : Type 0 where
  pub ev_read : Bool
  pub ev_write : Bool
  pub ev_error : Bool
  pub ev_hangup : Bool

pub record Event : Type 0 where
  pub fd : ℕ
  pub bits : EventBits

abbrev pub read_only : EventBits
read_only = record { ev_read = true; ev_write = false; ev_error = false; ev_hangup = false }

abbrev pub write_only : EventBits
write_only = record { ev_read = false; ev_write = true; ev_error = false; ev_hangup = false }

abbrev pub read_write : EventBits
read_write = record { ev_read = true; ev_write = true; ev_error = false; ev_hangup = false }

-- The error of a call: none, one for which `IsAgain` holds, or another one.
pub data SysError : Type 0 where
  no_error again other : SysError

abbrev pub is_again : SysError → Bool
is_again again = true
is_again _ = false

-- `err != nil && !IsAgain(err)`
abbrev pub is_fatal : SysError → Bool
is_fatal other = true
is_fatal _ = false

-- What `Recv` gives: bytes, none of them at the end of the stream, or an error.
pub data Received : Type 0 where
  received : List ℕ → Received
  recv_failed : SysError → Received

-- Descriptors are numbers from 0 on. `writev` and `send` return the count as a Go int, which is -1
-- beside an error. `connect` gives the descriptor and whether the connection is still in progress.
pub record Platform (W : Type 0) : Type 0 where
  pub accept : ℕ → W → W × Option ℕ
  pub recv : ℕ → ℕ → W → W × Received
  pub writev : ℕ → List (List ℕ) → W → W × (ℤ × SysError)
  pub send : ℕ → List ℕ → W → W × (ℤ × SysError)
  pub connect : List ℕ → ℤ → W → W × Option (ℕ × Bool)
  pub so_error : ℕ → W → W × Bool
  pub close : ℕ → W → W
  pub poll_add : ℕ → EventBits → W → W × Bool
  pub poll_mod : ℕ → EventBits → W → W
  pub poll_del : ℕ → W → W
  pub poll_close : W → W
  pub now : W → W × ℤ
