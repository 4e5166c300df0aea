-- ===== src/Upstream/Endpoint/Health.antt =====
-- The state machine of an endpoint's health.
use Prim.Native.String.{String}
use mini_envoy.Base.{
  ℕ, ◌+◌, ◌/◌, ◌%◌, ◌^◌, ◌<◌, ◌≤◌, ◌≡◌, ◌≢◌, refl, arith, false, List, [], ◌∷◌, ◌∙◌,
}
use mini_envoy.Upstream.Endpoint.{
  State, healthy, degraded, ejected, probing, down, Endpoint, eligible, eject, restore, record_fail,
  record_success, state_name, parse_state,
}

-- What is done to an endpoint: by a reactor or the prober (a request that fails or succeeds, at a
-- threshold), and by the operator.
pub data Event : Type 0 where
  fail : ℕ → Event
  success : ℕ → Event
  eject_by : String → Event
  restored : Event

abbrev pub apply : Endpoint → Event → Endpoint
apply e (fail threshold) = record_fail e threshold
apply e (success threshold) = record_success e threshold
apply e (eject_by reason) = (eject e reason).0
apply e restored = (restore e).0

pub run : Endpoint → List Event → Endpoint
run e [] = e
run e (ev ∷ evs) = run (apply e ev) evs

-- The events among which no operator's restore is.
abbrev pub NoRestore : List Event → Type 0
NoRestore [] = Unit
NoRestore (restored ∷ evs) = ⊥
NoRestore (fail _ ∷ evs) = NoRestore evs
NoRestore (success _ ∷ evs) = NoRestore evs
NoRestore (eject_by _ ∷ evs) = NoRestore evs

-- The lengths of the streaks with this failure, and with this success.
abbrev pub fails_now : Endpoint → ℕ
fails_now e = (e.fails + 1) % 2 ^ 64

abbrev pub successes_now : Endpoint → ℕ
successes_now e = (e.successes + 1) % 2 ^ 64

-- The state that an event leads to.
pub data Edge (e : Endpoint) (s : State) : Event → Type 0 where
  -- Only a restore brings an ejected endpoint back.
  stay_out : {ev : Event} → e.state ≡ ejected → NoRestore (ev ∷ []) → s ≡ ejected → Edge e s ev
  -- A failure: down at the threshold, degraded from half of it on.
  lose : {t : ℕ} → e.state ≢ ejected → t ≤ fails_now e → s ≡ down → Edge e s (fail t)
  worsen :
      {t : ℕ}
      → e.state ≢ ejected
      → fails_now e < t
      → 2 ≤ t
      → t / 2 ≤ fails_now e
      → s ≡ degraded
      → Edge e s (fail t)
  bear_few : {t : ℕ} → fails_now e < t → fails_now e < t / 2 → s ≡ e.state → Edge e s (fail t)
  bear_one : {t : ℕ} → fails_now e < t → t < 2 → s ≡ e.state → Edge e s (fail t)
  -- A success: healthy at the threshold, and on probation before it.
  be_well : {t : ℕ} → e.state ≡ healthy → s ≡ healthy → Edge e s (success t)
  pass : {t : ℕ} → e.state ≢ ejected → t ≤ successes_now e → s ≡ healthy → Edge e s (success t)
  recover :
      {t : ℕ}
      → e.state ≢ ejected
      → e.state ≢ healthy
      → successes_now e < t
      → s ≡ probing
      → Edge e s (success t)
  -- The operator.
  take_out : {r : String} → s ≡ ejected → Edge e s (eject_by r)
  bring_back_ejected : e.state ≡ ejected → s ≡ probing → Edge e s restored
  bring_back_down : e.state ≡ down → s ≡ probing → Edge e s restored
  refuse : e.state ≢ ejected → e.state ≢ down → s ≡ e.state → Edge e s restored

ruleset edges = (
  stay_out, lose, worsen, bear_few, bear_one, be_well, pass, recover, take_out, bring_back_ejected,
  bring_back_down, refuse,
)

-- The state after each operation: a failure leads to down, to degraded or nowhere and a success to
-- healthy, to probing or nowhere, as the streak stands to the threshold; the operator's eject leads
-- to ejected, and his restore from ejected or down to probing and else nowhere. Nothing but the
-- restore leads out of ejected.
pub apply-Edge : (e : Endpoint) (ev : Event) → Edge e (apply e ev).state ev
unfolding record_fail record_success eject restore
apply-Edge e (fail t) = grind (arith, edges)
apply-Edge e (success t) = grind (arith, edges)
apply-Edge e (eject_by r) = grind (arith, edges)
apply-Edge e restored = grind (arith, edges)

apply_ejected :
    (e : Endpoint) (ev : Event)
    → NoRestore (ev ∷ [])
    → e.state ≡ ejected
    → ((apply e ev).state ≡ ejected) × ((apply e ev).reason ≡ e.reason)
unfolding record_fail record_success eject
apply_ejected e (fail t) n h = ground arith
apply_ejected e (success t) n h = ground arith
apply_ejected e (eject_by r) n h = ground arith
apply_ejected e restored n h = absurd n

-- An endpoint that the operator took out stays out, with his reason, and no route may pick it,
-- whatever requests and probes do, each call in one step, until he restores it.
pub run_ejected :
    (evs : List Event) (e : Endpoint)
    → NoRestore evs
    → e.state ≡ ejected
    → let e' = run e evs in (e'.state ≡ ejected) × (e'.reason ≡ e.reason) × (eligible e' ≡ false)
unfolding run eligible
run_ejected [] e n h = (h, refl, ground arith)
run_ejected (fail t ∷ evs) e n h =
    let (s, r) = apply_ejected e (fail t) tt h in
    let (a, b, c) = run_ejected evs (record_fail e t) n s in (a, b ∙ r, c)
run_ejected (success t ∷ evs) e n h =
    let (s, r) = apply_ejected e (success t) tt h in
    let (a, b, c) = run_ejected evs (record_success e t) n s in (a, b ∙ r, c)
run_ejected (eject_by x ∷ evs) e n h =
    let (s, r) = apply_ejected e (eject_by x) tt h in
    let (a, b, c) = run_ejected evs (eject e x).0 n s in (a, b ∙ r, c)
run_ejected (restored ∷ evs) e n h = absurd n

-- The names of the states read back.
pub parse_state-state_name : (s : State) → parse_state (state_name s) ≡ s
unfolding parse_state state_name
parse_state-state_name healthy = refl
parse_state-state_name degraded = refl
parse_state-state_name ejected = refl
parse_state-state_name probing = refl
parse_state-state_name down = refl
