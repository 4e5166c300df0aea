-- ===== src/Routing/RoundRobin.antt =====
-- internal/routing/rr.go
use mini_envoy.Base.{ℕ, ◌+◌, ◌-◌, ◌%◌, ◌^◌, ◌==◌, if◌then◌else◌}
use mini_envoy.Base.Int.{ℤ, pos, signed64, rem}

-- The counter is a uint64, and `int(…)` reads its bits as a signed number. The result is the counter
-- after the call, and the index.
unfoldable pub rr_next : ℕ → ℕ → ℕ × ℤ
unfolding signed64 rem
rr_next n mod_ =
    if mod_ == 0
    then (n, pos 0)
    else let n' = (n + 1) % 2 ^ 64 in (n', rem (signed64 ((n' + 2 ^ 64 - 1) % 2 ^ 64)) mod_)
