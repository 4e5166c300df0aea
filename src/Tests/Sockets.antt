-- ===== src/Tests/Sockets.antt =====
-- Opening a connection on a kernel that keeps the list of the open descriptors.
use mini_envoy.Base.{ℕ, ◌≡◌, refl, ap, true, List, [], ◌∷◌, some, length, drop}
use mini_envoy.Base.Int.{pos}
use mini_envoy.Socket.Calls.{Kernel, failed, connect_tcp4}
use mini_envoy.Socket.Opened.{IsTracked, connect_tcp4-Opened}

-- Every call succeeds but `connect`.
abbrev unreachable : Kernel (List ℕ)
unreachable = record {
  socket = λ w. (length w ∷ w, some (length w));
  accept = λ fd w. (length w ∷ w, some (length w, some (127 ∷ 0 ∷ 0 ∷ 1 ∷ [], pos 9000)));
  close = λ fd w. drop 1 w;
  close_on_exec = λ fd w. w;
  set_reuse_addr = λ fd w. (w, true);
  set_reuse_port = λ fd w. w;
  set_no_delay = λ fd w. w;
  set_nonblock = λ fd w. (w, true);
  bind = λ fd ip port w. (w, true);
  listen = λ fd backlog w. (w, true);
  connect = λ fd ip port w. (w, failed);
}

abbrev unreachable_tracked : IsTracked unreachable (λ w. w)
unreachable_tracked = record {
  socket = λ w. refl;
  accept = λ fd w. refl;
  close = λ fd fds w has. ap (drop 1) has;
  close_on_exec = λ fd w. refl;
  set_reuse_addr = λ fd w. refl;
  set_reuse_port = λ fd w. refl;
  set_no_delay = λ fd w. refl;
  set_nonblock = λ fd w. refl;
  bind = λ fd ip port w. refl;
  listen = λ fd backlog w. refl;
  connect = λ fd ip port w. refl;
}

-- The socket that did not connect is closed again.
connect_tcp4-Opened_example :
    (connect_tcp4 unreachable (127 ∷ 0 ∷ 0 ∷ 1 ∷ []) (pos 9001) (2 ∷ 1 ∷ 0 ∷ [])).0 ≡ 2 ∷ 1 ∷ 0 ∷ []
unfolding connect_tcp4
connect_tcp4-Opened_example =
    connect_tcp4-Opened unreachable (λ w. w) unreachable_tracked (127 ∷ 0 ∷ 0 ∷ 1 ∷ []) (pos 9001)
      (2 ∷ 1 ∷ 0 ∷ [])
