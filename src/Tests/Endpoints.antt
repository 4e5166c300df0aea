-- ===== src/Tests/Endpoints.antt =====
-- Endpoints at concrete values.
use mini_envoy.Base.{◌+◌, ◌%◌, ◌^◌, ◌≤◌, ◌≡◌, inl, refl, arith, [], ◌∷◌, true, false}
use mini_envoy.Base.Int.{pos}
use mini_envoy.Upstream.Endpoint.{
  healthy, degraded, ejected, Endpoint, new_endpoint, set_state, eligible, restore,
}
use mini_envoy.Upstream.Endpoint.Health.{fail, success, apply, run, Edge, run_ejected, apply-Edge}
use mini_envoy.Upstream.Endpoint.Streaks.{fail_times, after_fails, state-fail_times}
use mini_envoy.Upstream.Endpoint.Race.{overtaken, overtaken_eject}

abbrev a : Endpoint
unfolding new_endpoint
a = new_endpoint "a" (127 ∷ 0 ∷ 0 ∷ 1 ∷ []) (pos 9001) (pos 4)

abbrev out : Endpoint
out = set_state a ejected "maintenance"

abbrev slow : Endpoint
slow = set_state a degraded "timeouts"

run_ejected_example :
    let e' = run out (fail 3 ∷ success 1 ∷ []) in
    (e'.state ≡ ejected) × (e'.reason ≡ "maintenance") × (eligible e' ≡ false)
run_ejected_example = run_ejected (fail 3 ∷ success 1 ∷ []) out tt refl

apply-Edge_example : Edge slow (apply slow (success 1)).state (success 1)
apply-Edge_example = apply-Edge slow (success 1)

a_fresh : a.fails ≡ 0
unfolding a
a_fresh = refl

a_healthy : a.state ≡ healthy
unfolding a
a_healthy = refl

state-fail_times_example : (fail_times 3 5 a).state ≡ after_fails 3 5
state-fail_times_example = state-fail_times 3 5 a a_fresh a_healthy (omega arith)

restored : (restore out).1 ≡ true
unfolding restore
restored = refl

slow_passes : 1 ≤ (slow.successes + 1) % 2 ^ 64
unfolding a
slow_passes = omega arith

overtaken_eject_example :
    let (e', done) = overtaken slow 1 "maintenance" in
    (done ≡ true) × (e'.state ≡ healthy) × (eligible e' ≡ true)
overtaken_eject_example = overtaken_eject slow 1 "maintenance" (inl refl) slow_passes
