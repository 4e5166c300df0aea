-- ===== src/Upstream/Endpoint/Streaks.antt =====
-- Runs of failures and of successes: where the thresholds take an endpoint.
use mini_envoy.Base.{ℕ, zero, suc, ◌/◌, ◌^◌, ◌<◌, ◌≡◌, arith, true, ◌==◌, leb}
use mini_envoy.Base.{◌&&◌, if◌then◌else◌}
use mini_envoy.Upstream.Endpoint.{
  State, healthy, degraded, probing, down, Endpoint, eligible, restore, record_fail, record_success,
}

abbrev pub fail_times : ℕ → ℕ → Endpoint → Endpoint
fail_times t zero e = e
fail_times t (suc k) e = record_fail (fail_times t k e) t

abbrev pub success_times : ℕ → ℕ → Endpoint → Endpoint
success_times t zero e = e
success_times t (suc k) e = record_success (success_times t k e) t

-- The state that `k` failures in a row, and no success, should lead a healthy endpoint to.
abbrev pub after_fails : ℕ → ℕ → State
after_fails t k =
    if k == 0
    then healthy
    else if leb t k
    then down
    else if leb (t / 2) k && leb 2 t
    then degraded
    else healthy

fails-fail_times :
    (t k : ℕ) (e : Endpoint) → e.fails ≡ 0 → k < 2 ^ 64 → (fail_times t k e).fails ≡ k
unfolding record_fail
fails-fail_times t zero e h b = h
fails-fail_times t (suc k) e h b = ground (arith, fails-fail_times t k e h)

-- `k` failures in a row take a healthy endpoint down once the threshold is reached, and degrade it
-- from half of the threshold on.
pub state-fail_times :
    (t k : ℕ) (e : Endpoint)
    → e.fails ≡ 0
    → e.state ≡ healthy
    → k < 2 ^ 64
    → (fail_times t k e).state ≡ after_fails t k
unfolding record_fail
state-fail_times t zero e h s b = s
state-fail_times t (suc k) e h s b =
    ground (arith, fails-fail_times t k e h, state-fail_times t k e h s)

abbrev pub after_successes : ℕ → ℕ → State
after_successes t k = if k == 0 then probing else if leb t k then healthy else probing

successes-success_times :
    (t k : ℕ) (e : Endpoint) → e.successes ≡ 0 → k < 2 ^ 64 → (success_times t k e).successes ≡ k
unfolding record_success
successes-success_times t zero e h b = h
successes-success_times t (suc k) e h b = ground (arith, successes-success_times t k e h)

state-success_times :
    (t k : ℕ) (e : Endpoint)
    → e.successes ≡ 0
    → e.state ≡ probing
    → k < 2 ^ 64
    → (success_times t k e).state ≡ after_successes t k
unfolding record_success
state-success_times t zero e h s b = s
state-success_times t (suc k) e h s b =
    ground (arith, successes-success_times t k e h, state-success_times t k e h s)

restored_fresh :
    (e : Endpoint)
    → (restore e).1 ≡ true
    → ((restore e).0.state ≡ probing) × ((restore e).0.successes ≡ 0)
unfolding restore
restored_fresh e h = ground arith

eligible_after : (t k : ℕ) (e : Endpoint) → e.state ≡ after_successes t k → eligible e ≡ true
unfolding eligible
eligible_after t k e h = ground arith

-- A restored endpoint is tried again at once, and `k` successes in a row make it healthy exactly if
-- they reach the threshold.
pub restore-success_times :
    (t k : ℕ) (e : Endpoint)
    → (restore e).1 ≡ true
    → k < 2 ^ 64
    → let e' = success_times t k (restore e).0 in
      (e'.state ≡ after_successes t k) × (eligible e' ≡ true)
restore-success_times t k e h b = (reached, eligible_after t k _ reached)
  where
    fresh : ((restore e).0.state ≡ probing) × ((restore e).0.successes ≡ 0)
    fresh = restored_fresh e h

    reached : (success_times t k (restore e).0).state ≡ after_successes t k
    reached = state-success_times t k (restore e).0 fresh.1 fresh.0 b
