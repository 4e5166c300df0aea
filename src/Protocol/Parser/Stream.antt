-- ===== src/Protocol/Parser/Stream.antt =====
-- The parser against the stream of bytes that it has not yet turned into frames.
use mini_envoy.Base.{ℕ, ◌+◌, ◌≤◌, ◌<◌, ◌≡◌, ap, ◌∙◌, arith, true, false}
use mini_envoy.Base.{not, List, ◌++◌, none, some, length, ltb, if◌then◌else◌, lt→ltb}
use mini_envoy.Buffer.Ring.{Ring, len}
use mini_envoy.Buffer.Ring.Bounds.{IsValid}
use mini_envoy.Buffer.Ring.Fifo.{contents}
use mini_envoy.Protocol.Errors.{Error}
use mini_envoy.Protocol.Header.{
  IsWords, header_size, max_payload_hard_cap, encode_header, validate, read_header,
}
use mini_envoy.Protocol.Parser.{Parser, Verdict, max}

-- The header kept by a parser was read whole and passed both checks.
pub record IsParser (p : Parser) : Type 0 where
  pub room : length p.scratch ≡ 32
  pub words : p.have_hdr ≡ true → IsWords p.hdr
  pub hard : p.have_hdr ≡ true → validate p.hdr max_payload_hard_cap ≡ none
  pub soft : p.have_hdr ≡ true → validate p.hdr (max p) ≡ none

-- What is still to be handed out as frames: the bytes in the ring, behind the header already taken
-- from it.
abbrev pub pending : Parser → Ring → List ℕ
pending p r = if p.have_hdr then encode_header p.hdr ++ contents r else contents r

-- The verdict on a stream of bytes, with nothing said of rings, cursors or earlier calls: an error
-- once a header is there that a check refuses, a frame once the payload is there too.
unfoldable pub verdict : ℕ → List ℕ → Verdict
verdict limit s =
    if ltb (length s) header_size
    then (false, none)
    else elim (validate (read_header s) max_payload_hard_cap) [
      | some x ↦ (false, some x)
      | none ↦ elim (validate (read_header s) limit) [
        | some x ↦ (false, some x)
        | none ↦ (not (ltb (length s) (header_size + (read_header s).payload_len)), none)
      ]
    ]

-- What a call of `Next` keeps to.
pub record NextOf (p : Parser) (r : Ring) (out : Verdict × Parser × Ring) : Type 0 where
  pub says : out.0 ≡ verdict (max p) (pending p r)
  pub keeps : out.0.1 ≡ none → pending out.1 out.2 ≡ pending p r
  pub parser : IsParser out.1
  pub ring : IsValid out.2
  pub limit : max out.1 ≡ max p
  pub ready : out.0.0 ≡ true → (out.1.have_hdr ≡ true) × (out.1.hdr.payload_len ≤ len out.2)

pub ltb_shift : (k a b : ℕ) → ltb (k + a) (k + b) ≡ ltb a b
ltb_shift k a b = ground arith

pub not-ltb : (a b : ℕ) → b ≤ a → ltb a b ≡ false
not-ltb a b h = ground arith

pub verdict_short : (m : ℕ) (s : List ℕ) → length s < 32 → verdict m s ≡ (false, none)
unfolding verdict
verdict_short m s h = rw (lt→ltb (length s) 32 h)

pub verdict_hard :
    (m : ℕ) (s : List ℕ) (x : Error)
    → 32 ≤ length s
    → validate (read_header s) max_payload_hard_cap ≡ some x
    → verdict m s ≡ (false, some x)
unfolding verdict
verdict_hard m s x h e = rw (not-ltb (length s) 32 h) (rw e)

pub verdict_soft :
    (m : ℕ) (s : List ℕ) (x : Error)
    → 32 ≤ length s
    → validate (read_header s) max_payload_hard_cap ≡ none
    → validate (read_header s) m ≡ some x
    → verdict m s ≡ (false, some x)
unfolding verdict
verdict_soft m s x h e f = rw (not-ltb (length s) 32 h) (rw e (rw f))

pub verdict_both :
    (m n : ℕ) (s : List ℕ)
    → length s ≡ 32 + n
    → validate (read_header s) max_payload_hard_cap ≡ none
    → validate (read_header s) m ≡ none
    → verdict m s ≡ (not (ltb n (read_header s).payload_len), none)
unfolding verdict
verdict_both m n s h e f = rw (not-ltb (length s) 32 (omega arith)) (
    rw e (
      rw f (
        ap (λ t. (not (ltb t (32 + (read_header s).payload_len)), none)) h
        ∙ ap (λ t. (not t, none)) (ltb_shift 32 n (read_header s).payload_len))))

pub pending_header :
    (p : Parser) (r : Ring) → p.have_hdr ≡ true → pending p r ≡ encode_header p.hdr ++ contents r
pending_header p r h = rw h

pub pending_none : (p : Parser) (r : Ring) → p.have_hdr ≡ false → pending p r ≡ contents r
pending_none p r h = rw h
