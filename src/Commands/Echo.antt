-- ===== src/Commands/Echo.antt =====
-- The client for operators against the upstream for tests, over any network that cuts the streams.
use mini_envoy.Base.{ℕ, suc, ◌+◌, ◌/◌, ◌%◌, ◌^◌, ◌<◌, ◌≤◌, ◌≡◌, refl, sym, ap, ◌∙◌, arith}
use mini_envoy.Base.{List, [], ◌∷◌, ◌++◌, none, some, length, leb, append-nil, true, length-drop}
use mini_envoy.Base.{
  Bool-cases, inl, inr, if_true, if_false, ◌&&◌, ◌==◌, ==_iff, if◌then◌else◌, leb→le,
}
use mini_envoy.Protocol.Opcode.{op_data, op_error}
use mini_envoy.Protocol.Errors.{payload_too_large}
use mini_envoy.Protocol.Header.{
  Header, IsWords, encode_header, validate, new_header, max_payload_hard_cap,
}
use mini_envoy.Protocol.Header.Codec.{length-encode_header}
use mini_envoy.Protocol.Header.Checks.{validate-IsWellFormed, validate-FirstFault}
use mini_envoy.Base.{take, length-take}
use mini_envoy.Protocol.Frame.{encode_error}
use mini_envoy.Protocol.Frame.Sent.{
  error_header, error_header_checked, error_header-IsWords, encode_error_lem,
}
use mini_envoy.Commands.{joined}
use mini_envoy.Commands.Stream.{read_full-append, read_full_short}
use mini_envoy.Commands.Served.{decoded, no_bytes}
use mini_envoy.Commands.Menvctl as Menvctl
use mini_envoy.Commands.Mockup as Mockup
use mini_envoy.Protocol.Errors.{code_upstream_fail, text_bytes}
use mini_envoy.Commands.Menvctl.{Conn, Reply, read_frame, report, run_echo, run_ping}
use mathlib.Core.Option.{some-injective}
use mini_envoy.Protocol.Bytes.{uint16}
use mini_envoy.Base.{drop}
use mini_envoy.Commands.Served.{handle-reply, handle-refused}
use mini_envoy.Commands.Mockup.{
  Settings, Served, handle, serve, injects, tag, respond, reply, answer_data,
}

with_header-frame :
    (h : Header) (p rest : List ℕ) (reads : List (List ℕ))
    → h.payload_len ≡ length p
    → joined reads ≡ p ++ rest
    → Menvctl.with_header (none, h) reads ≡ record { header = h; payload = p; error = report h p }
unfolding Menvctl.with_header Menvctl.with_payload
with_header-frame h p rest reads n e = elim (Bool-cases (h.payload_len == 0)) [
  | inl z ↦
      if_true _ _ z
      ∙ ap (λ t. record { header = h; payload = t; error = report h t })
          (sym (no_bytes p (sym n ∙ (==_iff h.payload_len 0).0 z)))
  | inr z ↦
      if_false _ _ z
      ∙ ap (Menvctl.with_payload h) (read_full-append reads p rest e h.payload_len n).1
]

-- `readFrame` on a stream that starts with a valid frame, however the stream is cut into reads, gives
-- its header and its payload, and the error that an ERROR frame reports.
pub read_frame-encode_header :
    (h : Header) (p rest : List ℕ) (reads : List (List ℕ))
    → IsWords h
    → validate h max_payload_hard_cap ≡ none
    → h.payload_len ≡ length p
    → joined reads ≡ encode_header h ++ (p ++ rest)
    → read_frame reads ≡ record { header = h; payload = p; error = report h p }
unfolding read_frame Menvctl.checked
read_frame-encode_header h p rest reads w valid n e =
    let (body, got, body_eq) =
      read_full-append reads (encode_header h) (p ++ rest) e 32 (sym (length-encode_header h)) in
    ap Menvctl.checked got
    ∙ ap (λ d. Menvctl.with_header d body) (decoded h w ∙ ap (λ v. (v, h)) valid)
    ∙ with_header-frame h p rest body n body_eq

-- The header of the request that `runEcho` sends.
abbrev pub echo_header : ℕ → List ℕ → Header
echo_header route body = new_header op_data (route % 2 ^ 32) 1 (length body % 2 ^ 32) 42

echo_header-IsWords : (route : ℕ) (body : List ℕ) → IsWords (echo_header route body)
unfolding new_header
echo_header-IsWords route body = omega arith

echo_header_valid :
    (route : ℕ) (body : List ℕ)
    → length body ≤ max_payload_hard_cap
    → validate (echo_header route body) max_payload_hard_cap ≡ none
unfolding new_header
echo_header_valid route body h =
    (validate-IsWellFormed (echo_header route body) max_payload_hard_cap).1 (record {
      magic = refl;
      version = refl;
      flags = refl;
      header_len = refl;
      reserved = refl;
      opcode_ge = omega arith;
      opcode_le = omega arith;
      payload = omega arith;
    })

echo_header_refused :
    (route : ℕ) (body : List ℕ)
    → max_payload_hard_cap < length body
    → length body < 2 ^ 32
    → validate (echo_header route body) max_payload_hard_cap ≡ some payload_too_large
unfolding new_header
echo_header_refused route body h w =
    (validate-FirstFault payload_too_large (echo_header route body) max_payload_hard_cap).1
      (refl, refl, refl, refl, refl, omega arith, omega arith, omega arith)

-- Where no write fails, `writeFrame` sends the header and the payload.
write_frame_lem :
    (c : Conn) (h : Header) (p : List ℕ)
    → ((b : List ℕ) → c.takes b ≡ true)
    → c.sent ≡ []
    → Menvctl.write_frame c h p ≡ (record c { sent = encode_header h ++ p }, true)
unfolding Menvctl.write_frame Menvctl.write_hdr Menvctl.then_write Menvctl.write
write_frame_lem c h p t e =
    ap (λ w. Menvctl.then_write w p) (if_true _ _ (t (encode_header h)))
    ∙ if_true _ _ (t p)
    ∙ ap (λ b. (record c { sent = (b ++ encode_header h) ++ p }, true)) e

run_echo_lem :
    (c : Conn) (route : ℕ) (body : List ℕ)
    → ((b : List ℕ) → c.takes b ≡ true)
    → c.sent ≡ []
    → run_echo c route body
      ≡ Menvctl.print
          (record c { sent = encode_header (echo_header route body) ++ body })
          (Menvctl.echo_code (read_frame c.reads))
unfolding run_echo Menvctl.judge_echo
run_echo_lem c route body t e =
    ap Menvctl.judge_echo (write_frame_lem c (echo_header route body) body t e)

length-tag : (seq : ℕ) (p : List ℕ) → length (tag seq p) ≡ length p
unfolding tag
length-tag seq p = elim (Bool-cases (leb 8 (length p))) [
  | inl h ↦ ap length (if_true _ _ h) ∙ omega (arith, length-drop 8 p, leb→le _ _ h)
  | inr h ↦ ap length (if_false _ _ h)
]

unread :
    (reads : List (List ℕ)) → joined reads ≡ [] → Menvctl.echo_code (read_frame reads) ≡ (none, 1)
unfolding read_frame Menvctl.checked Menvctl.echo_code
unread reads e =
    ap (λ r. Menvctl.echo_code (Menvctl.checked r))
      (read_full_short 32 reads (omega (arith, ap length e)))

-- What the client reports where the upstream wrote one frame.
read_error :
    (h : Header) (code : ℕ) (msg : List ℕ) (reads : List (List ℕ))
    → IsWords h
    → joined reads ≡ encode_error [] h code msg
    → Menvctl.echo_code (read_frame reads) ≡ (none, 1)
unfolding Menvctl.echo_code report new_header
read_error h code msg reads w e =
    ap Menvctl.echo_code (
      read_frame-encode_header (error_header h n) body [] reads (error_header-IsWords h n w)
        (error_header_checked h n (omega (arith, length-take 256 msg))) sized
        (e
          ∙ encode_error_lem [] h code msg
          ∙ ap (λ t. encode_header (error_header h n) ++ t) (sym (append-nil body))))
    ∙ ap (λ e. Menvctl.echo_code (record { header = error_header h n; payload = body; error = e }))
        reported
  where
    n : ℕ
    n = length (take 256 msg)

    body : List ℕ
    body = (code / 2 ^ 8 % 256) ∷ (code % 256) ∷ take 256 msg

    sized : (error_header h n).payload_len ≡ length body
    sized = unfold new_header in omega (arith, length-take 256 msg)

    enough : (m : ℕ) → leb 2 (suc (suc m)) ≡ true
    enough m = ground arith

    reported :
        report (error_header h n) body ≡ some (Menvctl.reported (uint16 body 0) (drop 2 body))
    reported =
        if_true {b = (op_error == op_error) && leb 2 (length body)} _ _
          (enough (length (take 256 msg)))

read_echo :
    (route : ℕ) (body : List ℕ) (seq : ℕ) (reads : List (List ℕ))
    → length body ≤ max_payload_hard_cap
    → joined reads ≡ Mockup.write_frame (echo_header route body) (tag seq body)
    → Menvctl.echo_code (read_frame reads) ≡ (some (op_data, length body), 0)
unfolding Menvctl.echo_code Mockup.write_frame report new_header
read_echo route body seq reads h e =
    ap Menvctl.echo_code (
      read_frame-encode_header (echo_header route body) (tag seq body) [] reads
        (echo_header-IsWords route body) (echo_header_valid route body h)
        (omega (arith, length-tag seq body))
        (e
          ∙ ap (λ t. encode_header (echo_header route body) ++ t)
              (sym (append-nil (tag seq body)))))
    ∙ ap (λ l. (some (op_data, l), 0)) (length-tag seq body)

-- The upstream's answer to the client's request.
answer :
    (s : Settings) (n : ℕ) (route : ℕ) (body : List ℕ)
    → respond s n (echo_header route body) body
      ≡ reply ((n + 1) % 2 ^ 64) (answer_data s ((n + 1) % 2 ^ 64) (echo_header route body) body)
unfolding respond new_header
answer s n route body = refl

-- What `runEcho` exits with against the upstream: 0 for an echo.
abbrev pub echoed : Settings → ℕ → List ℕ → ℕ
echoed s n body =
    if leb (length body) max_payload_hard_cap
    then if injects s ((n + 1) % 2 ^ 64) then 1 else 0
    else 1

-- `menvctl echo` against the upstream for tests, over a network that loses nothing and cuts the two
-- streams into reads at will: the command exits with 0 where the payload is within the hard cap of
-- 8 MiB and the upstream does not inject a failure, and with 1 in every other case. A payload is
-- shorter than 2^32 bytes here.
pub run_echo-handle :
    (s : Settings) (n : ℕ) (c : Conn) (route : ℕ) (body : List ℕ) (requests : List (List ℕ))
    (r : Served)
    → ((b : List ℕ) → c.takes b ≡ true)
    → c.sent ≡ []
    → length body < 2 ^ 32
    → joined requests ≡ (run_echo c route body).0.sent
    → handle s requests n ≡ some r
    → joined c.reads ≡ r.written
    → (run_echo c route body).2 ≡ echoed s n body
unfolding Menvctl.print answer_data
run_echo-handle s n c route body requests r takes fresh small sent served got =
    elim (Bool-cases (leb (length body) max_payload_hard_cap)) [
      | inl e ↦
          let back = heard_back seq (answer_data s seq h body) (
            handle-reply s n seq (answer_data s seq h body) h body requests words
              (echo_header_valid route body (leb→le _ _ e)) (unfold new_header in omega arith) heard
              (answer s n route body)) in
          elim (Bool-cases (injects s seq)) [
            | inl f ↦
                rw (e, f)
                  (exit
                    ∙ ap (λ t. t.1)
                        (read_error h code_upstream_fail (s.id ++ text_bytes " injected fail")
                          c.reads words (back ∙ if_true _ _ f)))
            | inr f ↦
                rw (e, f)
                  (exit
                    ∙ ap (λ t. t.1)
                        (read_echo route body seq c.reads (leb→le _ _ e) (back ∙ if_false _ _ f)))
          ]
      | inr e ↦ rw e (
          exit
          ∙ ap (λ t. t.1)
              (unread c.reads (
                heard_back n [] (
                  handle-refused s n payload_too_large h body requests words
                    (echo_header_refused route body (ground arith) small) heard))))
    ]
  where
    seq : ℕ
    seq = (n + 1) % 2 ^ 64

    h : Header
    h = echo_header route body

    ran :
        run_echo c route body
        ≡ Menvctl.print
            (record c { sent = encode_header h ++ body })
            (Menvctl.echo_code (read_frame c.reads))
    ran = run_echo_lem c route body takes fresh

    exit : (run_echo c route body).2 ≡ (Menvctl.echo_code (read_frame c.reads)).1
    exit = ap (λ t. t.2) ran

    heard : joined requests ≡ encode_header h ++ body
    heard = sent ∙ ap (λ t. t.0.sent) ran

    words : IsWords h
    words = echo_header-IsWords route body

    heard_back :
        (k : ℕ) (bytes : List ℕ)
        → handle s requests n ≡ some (record { written = bytes; count = k })
        → joined c.reads ≡ bytes
    heard_back k bytes p =
        got
        ∙ ap (λ o. o.written)
            (some-injective r (record { written = bytes; count = k }) (sym served ∙ p))
