-- ===== src/Upstream/Endpoint/Race.antt =====
-- RecordSuccess loads the state and stores it later; an operator's eject may fall between.
use Prim.Native.String.{String}
use mini_envoy.Base.{ℕ, ◌+◌, ◌%◌, ◌^◌, ◌≤◌, ◌≡◌, ◌⊎◌, arith, Bool, true}
use mini_envoy.Upstream.Endpoint.{
  healthy, degraded, probing, down, Endpoint, eligible, eject, success_count, success_store,
}

-- One goroutine's `RecordSuccess`, with another's whole `Eject` between its load and its store. The
-- result, and what `Eject` returned.
pub overtaken : Endpoint → ℕ → String → Endpoint × Bool
overtaken e pass_threshold reason =
    let (e', n, st) = success_count e in
    let (e'', done) = eject e' reason in (success_store n st pass_threshold e'', done)

-- On an endpoint that is not healthy yet, and that this success makes healthy, the eject reports
-- success and is lost: the endpoint is healthy, and routes go on picking it.
pub overtaken_eject :
    (e : Endpoint) (pass_threshold : ℕ) (reason : String)
    → (e.state ≡ degraded) ⊎ (e.state ≡ probing) ⊎ (e.state ≡ down)
    → pass_threshold ≤ (e.successes + 1) % 2 ^ 64
    → let (e', done) = overtaken e pass_threshold reason in
      (done ≡ true) × (e'.state ≡ healthy) × (eligible e' ≡ true)
unfolding overtaken success_count success_store eject eligible
overtaken_eject e t reason h k = ground arith
