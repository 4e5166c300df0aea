-- ===== src/Reactor/Tidy/Closed.antt =====
-- What the shutdown closes: the calls of `Close` are kept in a list.
use mini_envoy.Base.{ℕ, ◌≡◌, ◌<◌, ◌≤◌, ◌⊎◌, List, ◌∷◌}
use mini_envoy.Base.{some}
use mini_envoy.Buffer.Slab.Leases.{count}
use mini_envoy.Upstream.Registry.{Ptr}
use mini_envoy.Reactor.Platform.{Platform}
use mini_envoy.Reactor.Conn.{FdTable, get}
use mini_envoy.Reactor.Exec.{Reactor, returned}
use mini_envoy.Reactor.Loop.{shutdown}
use mini_envoy.Reactor.Tidy.{IsTidy}
use mini_envoy.Reactor.Tidy.Shutdown.{drained, IsDrained}

-- The same calls, with the descriptors that were closed so far, the last one first.
abbrev pub recorded : {W : Type 0} → Platform W → Platform (W × List ℕ)
recorded os = record {
  accept = λ fd w. let r = os.accept fd w.0 in ((r.0, w.1), r.1);
  recv = λ fd n w. let r = os.recv fd n w.0 in ((r.0, w.1), r.1);
  writev = λ fd iov w. let r = os.writev fd iov w.0 in ((r.0, w.1), r.1);
  send = λ fd bs w. let r = os.send fd bs w.0 in ((r.0, w.1), r.1);
  connect = λ ip port w. let r = os.connect ip port w.0 in ((r.0, w.1), r.1);
  so_error = λ fd w. let r = os.so_error fd w.0 in ((r.0, w.1), r.1);
  close = λ fd w. (os.close fd w.0, fd ∷ w.1);
  poll_add = λ fd bits w. let r = os.poll_add fd bits w.0 in ((r.0, w.1), r.1);
  poll_mod = λ fd bits w. (os.poll_mod fd bits w.0, w.1);
  poll_del = λ fd w. (os.poll_del fd w.0, w.1);
  poll_close = λ w. (os.poll_close w.0, w.1);
  now = λ w. let r = os.now w.0 in ((r.0, w.1), r.1);
}

-- Closed once more than before.
abbrev pub Closed : List ℕ → List ℕ → ℕ → Type 0
Closed before after fd = count fd before < count fd after

abbrev Kept : List ℕ → List ℕ → ℕ → FdTable → Type 0
Kept before after fd t =
    ((count fd before ≤ count fd after) × (p : Ptr) × (get t fd ≡ some p)) ⊎ Closed before after fd

module _ {W : Type 0} (os : Platform W) (t0 : FdTable) (before : List ℕ) where
  -- What the table had is still there, or was closed.
  abbrev Followed : ℕ → FdTable → W × List ℕ → Type 0
  Followed l t w = (fd : ℕ) (p : Ptr) → get t0 fd ≡ some p → Kept before w.1 fd t

-- Every descriptor that the table had in the one state was closed on the way to the other.
abbrev pub Closes : {W : Type 0} → Reactor (W × List ℕ) → Reactor (W × List ℕ) → Type 0
Closes s s' = (fd : ℕ) (p : Ptr) → get s.tab fd ≡ some p → Closed s.os.1 s'.os.1 fd

-- The state that a shutdown ended in: from a tidy state, with every descriptor of its table closed and
-- none left in the table but the listener's, which is closed too.
pub record IsShutDown {W : Type 0} (os : Platform W) (order : List Ptr → List Ptr)
    (s' : Reactor (W × List ℕ)) : Type 0 where
  pub from : Reactor (W × List ℕ)
  pub tidy : IsTidy from
  pub ends : shutdown (recorded os) order from ≡ returned (tt, s')
  pub drained : IsDrained s'
  pub closes : Closes from s'
