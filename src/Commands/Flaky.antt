-- ===== src/Commands/Flaky.antt =====
-- How often the upstream for tests injects a failure.
use native.Mathlib.Nat.{
  suc-mod, mod_self, mod-eq_of_lt, mod-lt, mul-suc, div-eq_of_lt, mul-add-div, zero-mod,
}
use mini_envoy.Base.{ℕ, suc, ◌+◌, ◌*◌, ◌/◌, ◌%◌, ◌^◌, ◌<◌, ◌≡◌, sym, ap, ◌∙◌, arith}
use mini_envoy.Base.{List, [], ◌∷◌, ◌++◌, length, Bool, true, false, All}
use mini_envoy.Base.{
  Bool-cases, inl, inr, ◌⊎◌, if_true, if_false, ◌&&◌, ltb, ◌==◌, ==_iff, if◌then◌else◌,
}
use mini_envoy.Base.Int.{pos}
use mini_envoy.Protocol.Opcode.{op_data, op_ping, op_close, op_error}
use mini_envoy.Protocol.Errors.{code_upstream_fail, text_bytes}
use mini_envoy.Protocol.Header.{Header, IsWords, decode_header, empty_header}
use mini_envoy.Protocol.Header.Codec.{decode_header-encode_header}
use mini_envoy.Protocol.Frame.{encode_error}
use mini_envoy.Protocol.Frame.Sent.{decode_header-encode_error}
use mini_envoy.Commands.Mockup.{
  Settings, Response, closing, reply, respond, answer_data, injects, write_frame, tag,
}

unfoldable pub then_replies : (ℕ → List (List ℕ)) → Response → List (List ℕ)
then_replies next closing = []
then_replies next (reply n bytes) = bytes ∷ next n

-- The frames written for a sequence of frames, which stand in the order in which their handlers take
-- the counter, whatever connections they are on.
unfoldable pub replies : Settings → ℕ → List (Header × List ℕ) → List (List ℕ)
unfolding then_replies
replies s n [] = []
replies s n ((h, p) ∷ frames) = then_replies (λ k. replies s k frames) (respond s n h p)

-- A peer reads an ERROR header.
unfoldable pub is_error : List ℕ → Bool
is_error bytes = (decode_header bytes empty_header).1.opcode == op_error

unfoldable pub errors : List (List ℕ) → ℕ
errors [] = 0
errors (f ∷ fs) = if is_error f then suc (errors fs) else errors fs

abbrev pub IsData : Header × List ℕ → Type 0
IsData (h, p) = (h.opcode ≡ op_data) × IsWords h

error_seen :
    (h : Header) (code : ℕ) (msg : List ℕ)
    → IsWords h
    → code < 2 ^ 16
    → is_error (encode_error [] h code msg) ≡ true
unfolding is_error
error_seen h code msg w c =
    (==_iff (decode_header (encode_error [] h code msg) empty_header).1.opcode op_error).1
      (decode_header-encode_error [] h code msg empty_header w c).1

echo_seen :
    (h : Header) (p : List ℕ) → IsWords h → h.opcode ≡ op_data → is_error (write_frame h p) ≡ false
unfolding is_error write_frame
echo_seen h p w d = rw (decode_header-encode_header h empty_header p w) (ap (λ o. o == op_error) d)

-- What the counter does to the remainder.
turn :
    (d n : ℕ)
    → 0 < d
    → (((suc n % d == 0) ≡ true) × (suc n % d ≡ 0) × (suc (n % d) ≡ d))
      ⊎ (((suc n % d == 0) ≡ false) × (suc n % d ≡ suc (n % d)))
turn d n h = elim (Bool-cases (suc (n % d) == d)) [
  | inl e ↦
      let last : suc (n % d) ≡ d = (==_iff _ _).0 e in
      let none_left : suc n % d ≡ 0 = suc-mod n d ∙ ap (λ t. t % d) last ∙ mod_self d in
      inl ((==_iff _ _).1 none_left, none_left, last)
  | inr e ↦
      let below : suc (n % d) < d = ground (arith, mod-lt n h) in
      let one_more : suc n % d ≡ suc (n % d) = suc-mod n d ∙ mod-eq_of_lt below in
      inr (ap (λ t. t == 0) one_more ∙ ground arith, one_more)
]

-- The reply to a DATA frame, where the counter does not wrap.
respond_data :
    (s : Settings) (n : ℕ) (h : Header) (p : List ℕ)
    → h.opcode ≡ op_data
    → suc n < 2 ^ 64
    → respond s n h p ≡ reply (suc n) (answer_data s (suc n) h p)
unfolding respond
respond_data s n h p d small =
    if_false _ _ (ap (λ o. o == op_ping) d)
    ∙ if_false _ _ (ap (λ o. o == op_close) d)
    ∙ if_true _ _ (ap (λ o. o == op_data) d)
    ∙ ap (λ k. reply k (answer_data s k h p)) {x = (n + 1) % 2 ^ 64} (omega arith)

answer_seen :
    (s : Settings) (seq : ℕ) (h : Header) (p : List ℕ)
    → IsWords h
    → h.opcode ≡ op_data
    → is_error (answer_data s seq h p) ≡ injects s seq
unfolding answer_data
answer_seen s seq h p w op = elim (Bool-cases (injects s seq)) [
  | inl e ↦
      rw e (error_seen h code_upstream_fail (s.id ++ text_bytes " injected fail") w (omega arith))
  | inr e ↦ rw e (echo_seen h (tag seq p) w op)
]

module _ (s : Settings) (d : ℕ) (some_d : 0 < d)
    (every : (seq : ℕ) → injects s seq ≡ (seq % d == 0)) where
  one_reply :
      (n m : ℕ) (h : Header) (p : List ℕ) (next : List (List ℕ))
      → IsWords h
      → h.opcode ≡ op_data
      → d * errors next + (suc n + m) % d ≡ m + suc n % d
      → d * errors (answer_data s (suc n) h p ∷ next) + (suc n + m) % d ≡ suc m + n % d
  unfolding errors
  one_reply n m h p next w op rest = elim (turn d n some_d) [
    | inl (z, zero_left, last) ↦
        ap (λ t. d * t + (suc n + m) % d)
          (if_true _ _ (answer_seen s (suc n) h p w op ∙ every (suc n) ∙ z))
        ∙ omega (arith, rest, zero_left, last, mul-suc d (errors next))
    | inr (z, one_more) ↦
        ap (λ t. d * t + (suc n + m) % d)
          (if_false _ _ (answer_seen s (suc n) h p w op ∙ every (suc n) ∙ z))
        ∙ omega (arith, rest, one_more)
  ]

  errors-replies :
      (frames : List (Header × List ℕ)) (n : ℕ)
      → All IsData frames
      → n + length frames < 2 ^ 64
      → d * errors (replies s n frames) + (n + length frames) % d ≡ length frames + n % d
  unfolding replies errors then_replies
  errors-replies [] n a small =
      ap (λ t. d * 0 + t % d) {x = n + 0} {y = n} (omega arith) ∙ omega arith
  errors-replies ((h, p) ∷ frames) n ((op, w), a) small =
      ap
        (λ r. d * errors (then_replies (λ k. replies s k frames) r) + (n + suc (length frames)) % d)
        (respond_data s n h p op (omega arith))
      ∙ ap (λ t. d * errors (answer_data s (suc n) h p ∷ replies s (suc n) frames) + t % d)
          {x = n + suc (length frames)} {y = suc n + length frames} (omega arith)
      ∙ one_reply n (length frames) h p (replies s (suc n) frames) w op
          (errors-replies frames (suc n) a (omega arith))

-- In the flaky mode, of the DATA frames that come in since the start, over all connections and in the
-- order in which their handlers take the counter, one in `failEvery` is answered with an ERROR frame:
-- rounded down, and exactly. The counter does not wrap here.
pub flaky-errors :
    (s : Settings) (d : ℕ) (frames : List (Header × List ℕ))
    → s.mode ≡ "flaky"
    → s.fail_every ≡ pos d
    → 0 < d
    → All IsData frames
    → length frames < 2 ^ 64
    → errors (replies s 0 frames) ≡ length frames / d
flaky-errors s d frames mode e h a small =
    sym (
      ap (λ t. errors (replies s 0 frames) + t) (div-eq_of_lt (mod-lt (length frames) h))
      ∙ omega arith)
    ∙ sym (mul-add-div h (errors (replies s 0 frames)) (length frames % d))
    ∙ ap (λ t. t / d)
        (ap (λ t. d * errors (replies s 0 frames) + t % d) {y = 0 + length frames} (omega arith)
          ∙ counted
          ∙ omega (arith, zero-mod d))
  where
    positive : (k : ℕ) → 0 < k → ltb 0 (k + 0) ≡ true
    positive k p = ground arith

    every : (seq : ℕ) → injects s seq ≡ (seq % d == 0)
    every seq = unfold injects in (rw (mode, e) (ap (λ b. b && (seq % d == 0)) (positive d h)))

    counted : d * errors (replies s 0 frames) + (0 + length frames) % d ≡ length frames + 0 % d
    counted = errors-replies s d h every frames 0 a (omega arith)
