-- ===== src/Probe/Outcome.antt =====
-- What a probe reports and what it does to the endpoint's health.
use mini_envoy.Base.{ℕ, ◌+◌, ◌-◌, ◌≤◌, ◌≡◌, ◌⊎◌, inl, inr, refl, sym, ap, ◌∙◌, arith, true, not}
use mini_envoy.Base.{List, [], ◌∷◌, ◌++◌, Option, none, some, map, length, take_all, length-append}
use mini_envoy.Base.{
  leb, if◌then◌else◌, Bool-cases, if_true, if_false, append-nil, append_assoc, ==_iff,
}
use mini_envoy.Upstream.Endpoint.{Endpoint, is_ejected, record_fail, record_success}
use mini_envoy.Protocol.Opcode.{op_pong}
use mini_envoy.Protocol.Header.{
  Header, IsWords, encode_header, decode_header, empty_header, validate, max_payload_hard_cap,
}
use mini_envoy.Protocol.Header.Codec.{decode_header-encode_header, length-encode_header}
use mini_envoy.Probe.{Config, Network, PingError, read_full, is_pong, judge, ping, ping_bytes}

-- The bytes of some reads, all of which succeed.
abbrev pub joined : List (List ℕ) → List ℕ
joined [] = []
joined (x ∷ xs) = x ++ joined xs

no_more : (xs : List ℕ) → length xs ≡ 0 → xs ≡ []
no_more [] h = refl
no_more (x ∷ xs) h = ground arith

full : (n m : ℕ) → n + m ≡ 32 → leb 32 n ≡ true → m ≡ 0
full n m h e = ground arith

room : (n m k : ℕ) → n + (m + k) ≡ 32 → m ≤ 32 - n
room n m k h = omega arith

-- Whatever the sizes of the reads, the loop collects 32 bytes that they bring.
read_full-joined :
    (got : List ℕ) (chunks : List (List ℕ))
    → length (got ++ joined chunks) ≡ 32
    → read_full got (map some chunks) ≡ some (got ++ joined chunks)
unfolding read_full
read_full-joined got [] h = if_true _ _ enough ∙ ap some (sym (append-nil got))
  where
    enough : leb 32 (length got) ≡ true
    enough = ground (arith, length-append got [], h)
read_full-joined got (x ∷ xs) h = elim (Bool-cases (leb 32 (length got))) [
  | inl e ↦
      if_true _ _ e
      ∙ ap some (sym (append-nil got))
      ∙ ap (λ t. some (got ++ t))
          (sym (no_more (x ++ joined xs) (full (length got) (length (x ++ joined xs)) sized e)))
  | inr e ↦
      if_false _ _ e
      ∙ ap (λ t. read_full (got ++ t) (map some xs))
          (take_all (32 - length got) x (
            room (length got) (length x) (length (joined xs))
              (ap (λ t. length got + t) (sym (length-append x (joined xs))) ∙ sized)))
      ∙ read_full-joined (got ++ x) xs (ap length (append_assoc got x (joined xs)) ∙ h)
      ∙ ap some (append_assoc got x (joined xs))
]
  where
    sized : length got + length (x ++ joined xs) ≡ 32
    sized = sym (length-append got (x ++ joined xs)) ∙ h

-- A peer that answers with a valid PONG header, however its 32 bytes are cut into reads, passes: the
-- probe reports no error, and counts a success unless the operator took the endpoint out meanwhile.
pub ping-pong :
    (ep : Endpoint) (cfg : Config) (now : ℕ) (net : Network) (chunks : List (List ℕ)) (h : Header)
    → net.dials ≡ true
    → net.writes (ping_bytes now) ≡ true
    → net.reads ≡ map some chunks
    → IsWords h
    → validate h max_payload_hard_cap ≡ none
    → h.opcode ≡ op_pong
    → joined chunks ≡ encode_header h
    → ping ep cfg now net
      ≡ (if is_ejected ep.state then ep else record_success ep cfg.pass_threshold, none)
unfolding ping judge
ping-pong ep cfg now net chunks h d w rs words valid op e =
    if_false _ _ (ap not d)
    ∙ if_false _ _ (ap not w)
    ∙ ap (λ t. judge ep cfg (read_full [] t)) rs
    ∙ ap (judge ep cfg) (read_full-joined [] chunks sized)
    ∙ if_true _ _ pong
  where
    sized : length (joined chunks) ≡ 32
    sized = ap length e ∙ length-encode_header h

    decoded : decode_header (joined chunks) empty_header ≡ (none, h)
    decoded =
        ap (λ b. decode_header b empty_header) (e ∙ sym (append-nil (encode_header h)))
        ∙ decode_header-encode_header h empty_header [] words
        ∙ ap (λ v. (v, h)) valid

    pong : is_pong (decode_header (joined chunks) empty_header) ≡ true
    pong = unfold is_pong in ap is_pong decoded ∙ (==_iff h.opcode op_pong).1 op

abbrev pub IsOutcome : Endpoint → Config → Endpoint × Option PingError → Type 0
IsOutcome ep cfg (ep', e) =
    ((e ≡ none)
      × (ep' ≡ (if is_ejected ep.state then ep else record_success ep cfg.pass_threshold)))
    ⊎ (((x : PingError) × (e ≡ some x)) × (ep' ≡ record_fail ep cfg.fail_threshold))

judge-IsOutcome :
    (ep : Endpoint) (cfg : Config) (o : Option (List ℕ)) → IsOutcome ep cfg (judge ep cfg o)
unfolding judge
judge-IsOutcome ep cfg none = inr ((_, refl), refl)
judge-IsOutcome ep cfg (some resp) = elim (Bool-cases (is_pong (decode_header resp empty_header))) [
  | inl e ↦ rw e (inl (refl, refl))
  | inr e ↦ rw e (inr ((_, refl), refl))
]

-- A probe that reports an error has counted one failure, and one that reports none has counted a
-- success, or has left an endpoint alone that the operator took out.
pub ping-IsOutcome :
    (ep : Endpoint) (cfg : Config) (now : ℕ) (net : Network)
    → IsOutcome ep cfg (ping ep cfg now net)
unfolding ping
ping-IsOutcome ep cfg now net = elim (Bool-cases (not net.dials)) [
  | inl e ↦ rw e (inr ((_, refl), refl))
  | inr e ↦ rw e (elim (Bool-cases (not (net.writes (ping_bytes now)))) [
    | inl f ↦ rw f (inr ((_, refl), refl))
    | inr f ↦ rw f (judge-IsOutcome ep cfg (read_full [] net.reads))
  ])
]
