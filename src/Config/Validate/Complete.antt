-- ===== src/Config/Validate/Complete.antt =====
-- `Validate` accepts every configuration of the specification.
use Prim.Native.String.{String}
use text.Mathlib.Text.{◌==◌ as str_eq}
use mathlib.Core.Path.{subst}
use mini_envoy.Base.{
  ℕ, ◌<◌, ◌≡◌, ◌⊎◌, ◌↔◌, inl, inr, refl, sym, ap, ap₂, ◌∙◌, List, [], ◌∷◌, ◌==◌, ==_iff,
}
use mini_envoy.Base.{
  arith, Bool, true, false, ◌||◌, not, if_true, if_false, Bool-cases, Option, none, some, ltb,
}
use mini_envoy.Base.{length, All, Elem, here, there, Distinct}
use mini_envoy.Base.Int.{ℤ, pos, ltb_ℤ, ◌≤ℤ◌, eq_ℤ}
use mini_envoy.Protocol.Header.{max_payload_hard_cap}
use mini_envoy.Config.File.{File, Buffer, Upstream, Route}
use mini_envoy.Config.Validate.{
  ConfigError, bad_bind, has_key, has_id, port_out, missing_field, check_upstreams, first_unknown,
  known_algorithm, is_empty, check_algorithm, check_route, then_check, check_routes, check_bind,
  parse_bind, check_rest, validate,
}
use mini_envoy.Config.Validate.Sound.{
  IsPort, IsUpstream, IsRoute, algorithms, upstream_ids, route_ids, equal, has_key-Elem,
  Elem-has_key,
}
use mini_envoy.Config.Validate.Accepted.{
  IsBuffer, IsAccepted, All-weaken, route_weaken, validate-IsAccepted,
}

not_true : (b : Bool) → (b ≡ true → ⊥) → b ≡ false
not_true true h = absurd (h refl)
not_true false h = refl

no_port_out : (p : ℤ) → IsPort p → port_out p ≡ false
no_port_out p (low, high) = ground arith

no_missing_field : (u : Upstream) → IsUpstream u → missing_field u ≡ false
no_missing_field u (id, host, port) =
    ap₂ (λ a b. (a || b) || port_out u.port) (not_true (str_eq u.id "") (λ e. id (equal u.id "" e)))
      (not_true (str_eq u.host "") (λ e. host (equal u.host "" e)))
    ∙ no_port_out u.port port

not_seen : (k : String) (m : List String) → (Elem k m → ⊥) → has_key k m ≡ false
not_seen k m h = not_true (has_key k m) (λ e. h (has_key-Elem k m e))

has_id-Elem : (k : ℕ) (m : List ℕ) → has_id k m ≡ true → Elem k m
unfolding has_id
has_id-Elem k [] h = ground arith
has_id-Elem k (j ∷ m) h = elim (Bool-cases (j == k)) [
  | inl e ↦ here (sym ((==_iff j k).0 e))
  | inr e ↦ there (has_id-Elem k m (sym (if_false true (has_id k m) e) ∙ h))
]

-- The ids that are known after the loop over the upstreams.
record IsPassed (us : List Upstream) (seen : List String) (o : ConfigError ⊎ List String)
    : Type 0 where
  known : List String
  result : o ≡ inr known
  knows : (i : String) → Elem i (upstream_ids us) ⊎ Elem i seen → Elem i known

check_upstreams-IsPassed :
    (us : List Upstream) (seen : List String)
    → All IsUpstream us
    → Distinct (upstream_ids us)
    → ((i : String) → Elem i (upstream_ids us) → Elem i seen → ⊥)
    → IsPassed us seen (check_upstreams us seen)
unfolding check_upstreams
check_upstreams-IsPassed [] seen a d fresh = record { known = seen; result = refl; knows = kept }
  where
    kept : (i : String) → Elem i [] ⊎ Elem i seen → Elem i seen
    kept i (inl p) = elim p [ ]
    kept i (inr p) = p
check_upstreams-IsPassed (u ∷ us) seen (w, a) (new, d) fresh =
    let rest = check_upstreams-IsPassed us (u.id ∷ seen) a d still in
    record {
      known = rest.known;
      result =
          if_false _ _ (no_missing_field u w)
          ∙ if_false _ _ (not_seen u.id seen (fresh u.id (here refl)))
          ∙ rest.result;
      knows = λ i p. rest.knows i (shifted i p);
    }
  where
    still : (i : String) → Elem i (upstream_ids us) → Elem i (u.id ∷ seen) → ⊥
    still i p (here e) = new (subst (λ j. Elem j (upstream_ids us)) e p)
    still i p (there q) = fresh i (there p) q

    shifted :
        (i : String)
        → Elem i (upstream_ids (u ∷ us)) ⊎ Elem i seen
        → Elem i (upstream_ids us) ⊎ Elem i (u.id ∷ seen)
    shifted i (inl (here e)) = inr (here e)
    shifted i (inl (there p)) = inl p
    shifted i (inr p) = inr (there p)

first_unknown-none :
    (is seen : List String) → All (λ i. Elem i seen) is → first_unknown is seen ≡ none
unfolding first_unknown
first_unknown-none [] seen a = refl
first_unknown-none (i ∷ is) seen (p, a) =
    if_true _ _ (Elem-has_key i seen p) ∙ first_unknown-none is seen a

algorithms_known : (s : String) → Elem s algorithms → known_algorithm s ≡ true
unfolding known_algorithm
algorithms_known s (here e) = ap known_algorithm e
algorithms_known s (there (here e)) = ap known_algorithm e
algorithms_known s (there (there (here e))) = ap known_algorithm e
algorithms_known s (there (there (there (here e)))) = ap known_algorithm e
algorithms_known s (there (there (there (there p)))) = elim p [ ]

full : {A : Type 0} (xs : List A) → 0 < length xs → is_empty xs ≡ false
full [] h = ground arith
full (x ∷ xs) h = refl

check_route-none : (r : Route) (seen : List String) → IsRoute seen r → check_route r seen ≡ none
unfolding check_route check_algorithm
check_route-none r seen (nonzero, some_up, known, alg) =
    if_false _ _ (full r.upstreams some_up)
    ∙ ap (check_algorithm r) (first_unknown-none r.upstreams seen known)
    ∙ if_true _ _ (algorithms_known r.algorithm alg)

check_routes-none :
    (rs : List Route) (seen : List String) (rids : List ℕ)
    → All (IsRoute seen) rs
    → Distinct (route_ids rs)
    → ((i : ℕ) → Elem i (route_ids rs) → Elem i rids → ⊥)
    → check_routes rs seen rids ≡ none
unfolding check_routes
check_routes-none [] seen rids a d fresh = refl
check_routes-none (r ∷ rs) seen rids (w, a) (new, d) fresh =
    if_false _ _ (nonzero r.id w.0)
    ∙ if_false _ _
        (not_true (has_id r.id rids) (λ e. fresh r.id (here refl) (has_id-Elem r.id rids e)))
    ∙ ap₂ then_check (check_route-none r seen w) (check_routes-none rs seen (r.id ∷ rids) a d still)
  where
    nonzero : (n : ℕ) → 0 < n → (n == 0) ≡ false
    nonzero n h = ground arith

    still : (i : ℕ) → Elem i (route_ids rs) → Elem i (r.id ∷ rids) → ⊥
    still i p (here e) = new (subst (λ j. Elem j (route_ids rs)) e p)
    still i p (there q) = fresh i (there p) q

module _ (split_host_port : String → Option (String × String)) where
  check_rest-none :
      (f : File)
      → IsAccepted f
      → (hp : String × String) → split_host_port f.admin.bind ≡ some hp
      → check_rest split_host_port f (check_upstreams f.upstreams []) ≡ none
  unfolding check_rest check_bind parse_bind
  check_rest-none f w hp h =
      let passed =
        check_upstreams-IsPassed f.upstreams [] w.upstreams.1 w.distinct_upstreams
          (λ i p q. elim q [ ]) in
      let sub : (i : String) → Elem i (upstream_ids f.upstreams) → Elem i passed.known =
        λ i p. passed.knows i (inl p) in
      ap (check_rest split_host_port f) passed.result
      ∙ if_false _ _ (full f.routes w.routes.0)
      ∙ ap₂ then_check
          (check_routes-none f.routes passed.known []
            (All-weaken (route_weaken (upstream_ids f.upstreams) passed.known sub) f.routes
              w.routes.1)
            w.distinct_routes (λ i p q. elim q [ ]))
          (ap (λ o. elim o [ none ↦ some bad_bind | some _ ↦ none ]) h)

  -- `Validate` returns a nil error exactly for the configurations of the specification whose address
  -- for the administrator splits into a host and a port.
  pub validate_iff :
      (f : File)
      → (validate split_host_port f ≡ none)
        ↔ (IsAccepted f × ((hp : String × String) × (split_host_port f.admin.bind ≡ some hp)))
  unfolding validate
  validate_iff f = (validate-IsAccepted split_host_port f, complete)
    where
      buffer_sizes :
          (b : Buffer)
          → IsBuffer b
          → (b.max_payload == 0 || ltb max_payload_hard_cap b.max_payload) ≡ false
      buffer_sizes b w = ground arith

      marks :
          (b : Buffer)
          → IsBuffer b
          → (not (ltb_ℤ (pos 0) b.low_water) || not (ltb_ℤ b.low_water b.high_water)) ≡ false
      marks b w = ground arith

      count : (n : ℤ) → (pos 1 ≤ℤ n) × (n ≤ℤ pos 64) → (ltb_ℤ n (pos 1) || ltb_ℤ (pos 64) n) ≡ false
      count n w = ground arith

      complete :
          IsAccepted f × ((hp : String × String) × (split_host_port f.admin.bind ≡ some hp))
          → validate split_host_port f ≡ none
      complete (w, (hp, h)) =
          if_false _ _ (ap (λ v. not (eq_ℤ v (pos 1))) w.version)
          ∙ if_false _ _ (count f.reactors w.reactors)
          ∙ if_false _ _ (no_port_out f.listen.port w.port)
          ∙ if_false _ _ (buffer_sizes f.buffer w.buffer)
          ∙ if_false _ _ (marks f.buffer w.buffer)
          ∙ if_false _ _ (full f.upstreams w.upstreams.0)
          ∙ check_rest-none f w hp h
