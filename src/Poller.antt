-- ===== src/Poller.antt =====
-- internal/platform/epoll_linux.go and kqueue_darwin.go: the two pollers. What the kernel reports is
-- a parameter.
pub mod Epoll
pub mod Kqueue
pub mod Merged
use mini_envoy.Base.{Bool, true, false, ◌||◌}
use mini_envoy.Reactor.Platform.{EventBits}

-- The zero value, and `|=`.
abbrev pub no_bits : EventBits
no_bits = record { ev_read = false; ev_write = false; ev_error = false; ev_hangup = false }

abbrev pub or_bits : EventBits → EventBits → EventBits
or_bits a b = record {
  ev_read = a.ev_read || b.ev_read;
  ev_write = a.ev_write || b.ev_write;
  ev_error = a.ev_error || b.ev_error;
  ev_hangup = a.ev_hangup || b.ev_hangup;
}
