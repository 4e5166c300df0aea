-- ===== src/Poller/Epoll.antt =====
-- internal/platform/epoll_linux.go: the bits that the kernel is asked for, and what `Wait` makes of
-- those that it reports. `Wake` and `Close` only call the kernel.
use mini_envoy.Base.{
  ℕ, ◌==◌, Bool, true, false, ◌||◌, List, [], ◌∷◌, Option, none, some, if◌then◌else◌,
}
use mini_envoy.Reactor.Platform.{EventBits, Event}

-- The flags of an epoll event that the code names.
pub record EpollBits : Type 0 where
  pub epoll_in : Bool
  pub epoll_out : Bool
  pub epoll_rdhup : Bool
  pub epoll_err : Bool
  pub epoll_hup : Bool
  pub epoll_et : Bool

unfoldable pub ev : EventBits → EpollBits
ev bits = record {
  epoll_in = bits.ev_read;
  epoll_out = bits.ev_write;
  epoll_rdhup = bits.ev_read;
  epoll_err = true;
  epoll_hup = true;
  epoll_et = true;
}

-- What is reported of one descriptor.
unfoldable pub event_bits : EpollBits → EventBits
event_bits e = record {
  ev_read = e.epoll_in || e.epoll_rdhup;
  ev_write = e.epoll_out;
  ev_error = e.epoll_err;
  ev_hangup = e.epoll_hup || e.epoll_rdhup;
}

-- The events that `EpollWait` put in the buffer, less those of the descriptor that wakes the poller.
unfoldable pub wait : (wake : ℕ) → List (ℕ × EpollBits) → List Event
unfolding event_bits
wait wake [] = []
wait wake ((fd, e) ∷ es) =
    let rest = wait wake es in
    if fd == wake then rest else record { fd = fd; bits = event_bits e } ∷ rest

-- `NewPoller`: the two descriptors it holds, or none, and those that it has closed. The results of
-- `EpollCreate1`, `Eventfd` and `Add` are parameters.
unfoldable pub new_poller : Option ℕ → Option ℕ → Bool → Option (ℕ × ℕ) × List ℕ
new_poller none efd added = (none, [])
new_poller (some epfd) none added = (none, epfd ∷ [])
new_poller (some epfd) (some efd) false = (none, efd ∷ epfd ∷ [])
new_poller (some epfd) (some efd) true = (some (epfd, efd), [])
