-- ===== src/Commands/Served.antt =====
-- How the upstream for tests reads a frame off its connection, and that its loop has enough fuel.
use mini_envoy.Base.{ℕ, zero, suc, ◌+◌, ◌<◌, ◌≤◌, ◌≡◌, refl, sym, ap, ◌∙◌, arith}
use mini_envoy.Base.{
  List, [], ◌∷◌, ◌++◌, Option, none, some, length, leb, length-append, append-nil,
}
use mini_envoy.Base.{Bool-cases, inl, inr, if_true, if_false, ◌==◌, ==_iff}
use mini_envoy.Protocol.Errors.{Error}
use mini_envoy.Protocol.Header.{
  Header, IsWords, encode_header, decode_header, empty_header, validate, max_payload_hard_cap,
}
use mini_envoy.Protocol.Header.Codec.{decode_header-encode_header, length-encode_header}
use mini_envoy.Commands.{read_full, joined}
use mathlib.Core.Path.{subst}
use mini_envoy.Base.{leb→le, length-drop}
use mini_envoy.Commands.Stream.{read_full-append, read_full-IsRead, read_full_short}
use mini_envoy.Commands.Mockup.{
  Settings, Request, Served, read_request, checked, with_header, with_payload, serve, handle,
  before, go_on, serve_request, respond, Response, closing, reply,
}

-- The header of a frame, as a peer that reads it sees it.
pub decoded :
    (h : Header)
    → IsWords h
    → decode_header (encode_header h) empty_header ≡ (validate h max_payload_hard_cap, h)
decoded h w =
    ap (λ b. decode_header b empty_header) (sym (append-nil (encode_header h)))
    ∙ decode_header-encode_header h empty_header [] w

pub no_bytes : (p : List ℕ) → length p ≡ 0 → p ≡ []
no_bytes [] h = refl
no_bytes (x ∷ p) h = absurd (omega arith)

with_header-frame :
    (h : Header) (p rest : List ℕ) (reads : List (List ℕ))
    → h.payload_len ≡ length p
    → joined reads ≡ p ++ rest
    → (left : List (List ℕ)) × (with_header (none, h) reads
        ≡ some (record { header = h; payload = p; reads = left }))
      × (joined left ≡ rest)
unfolding with_header with_payload
with_header-frame h p rest reads n e = elim (Bool-cases (h.payload_len == 0)) [
  | inl z ↦
      let empty : p ≡ [] = no_bytes p (sym n ∙ (==_iff h.payload_len 0).0 z) in
      (
        reads,
        if_true _ _ z
            ∙ ap (λ t. some (record { header = h; payload = t; reads = reads })) (sym empty),
        e ∙ ap (λ t. t ++ rest) empty,
      )
  | inr z ↦
      let (left, got, left_eq) = read_full-append reads p rest e h.payload_len n in
      (left, if_false _ _ z ∙ ap (with_payload h) got, left_eq)
]

pub read_request-frame :
    (h : Header) (p rest : List ℕ) (reads : List (List ℕ))
    → IsWords h
    → validate h max_payload_hard_cap ≡ none
    → h.payload_len ≡ length p
    → joined reads ≡ encode_header h ++ (p ++ rest)
    → (left : List (List ℕ)) × (read_request reads
        ≡ some (record { header = h; payload = p; reads = left }))
      × (joined left ≡ rest)
unfolding read_request checked
read_request-frame h p rest reads w valid n e =
    let (body, got, body_eq) =
      read_full-append reads (encode_header h) (p ++ rest) e 32 (sym (length-encode_header h)) in
    let (left, framed, left_eq) = with_header-frame h p rest body n body_eq in
    (
      left,
      ap checked got ∙ ap (λ d. with_header d body) (decoded h w ∙ ap (λ v. (v, h)) valid) ∙ framed,
      left_eq,
    )

-- What is left of the stream after so many bytes, or nothing where it ends first.
unfoldable Shrinks : ℕ → List (List ℕ) → Option (List ℕ × List (List ℕ)) → Type 0
Shrinks n reads none = Unit
Shrinks n reads (some (b, left)) = length (joined left) + n ≡ length (joined reads)

read_full-Shrinks : (n : ℕ) (reads : List (List ℕ)) → Shrinks n reads (read_full n reads)
unfolding Shrinks
read_full-Shrinks n reads = elim (Bool-cases (leb n (length (joined reads)))) [
  | inl e ↦
      let read = read_full-IsRead n reads (leb→le _ _ e) in
      subst (Shrinks n reads) (sym read.result)
        (omega (arith, ap length read.left_eq, length-drop n (joined reads), leb→le _ _ e))
  | inr e ↦ subst (Shrinks n reads) (sym (read_full_short n reads (ground arith))) tt
]

-- The stream has got shorter by as many bytes at least.
unfoldable Consumes : ℕ → List (List ℕ) → Option Request → Type 0
Consumes n reads none = Unit
Consumes n reads (some r) = length (joined r.reads) + n ≤ length (joined reads)

with_header-Consumes :
    (d : Option Error × Header) (n : ℕ) (all reads : List (List ℕ))
    → length (joined reads) + n ≡ length (joined all)
    → Consumes n all (with_header d reads)
unfolding with_header with_payload Consumes Shrinks
with_header-Consumes (some e, h) n all reads p = tt
with_header-Consumes (none, h) n all reads p = elim (Bool-cases (h.payload_len == 0)) [
  | inl z ↦ rw z (omega (arith, p))
  | inr z ↦ rw z (by_read (read_full h.payload_len reads) (read_full-Shrinks h.payload_len reads))
]
  where
    by_read :
        (r : Option (List ℕ × List (List ℕ)))
        → Shrinks h.payload_len reads r
        → Consumes n all (with_payload h r)
    by_read none s = tt
    by_read (some (b, left)) s = omega (arith, s, p)

read_request-Consumes : (reads : List (List ℕ)) → Consumes 32 reads (read_request reads)
unfolding read_request checked Consumes Shrinks
read_request-Consumes reads = by_read (read_full 32 reads) (read_full-Shrinks 32 reads)
  where
    by_read :
        (r : Option (List ℕ × List (List ℕ))) → Shrinks 32 reads r → Consumes 32 reads (checked r)
    by_read none s = tt
    by_read (some (b, left)) s = with_header-Consumes (decode_header b empty_header) 32 reads left s

unfoldable IsServed : Option Served → Type 0
IsServed o = (r : Served) × (o ≡ some r)

go_on-IsServed :
    (next : ℕ → Option Served) (n : ℕ) (r : Response)
    → ((k : ℕ) → IsServed (next k))
    → IsServed (go_on next n r)
unfolding go_on before IsServed
go_on-IsServed next n closing ih = (_, refl)
go_on-IsServed next n (reply k bytes) ih = (_, ap (before bytes) (ih k).1)

serve-IsServed :
    (s : Settings) (fuel : ℕ) (reads : List (List ℕ)) (n : ℕ)
    → length (joined reads) < fuel
    → IsServed (serve s fuel reads n)
unfolding serve serve_request Consumes IsServed
serve-IsServed s zero reads n h = elim h [ ]
serve-IsServed s (suc fuel) reads n h =
    by_request (read_request reads) (read_request-Consumes reads) (serve-IsServed s fuel)
  where
    by_request :
        (o : Option Request)
        → Consumes 32 reads o
        → ((left : List (List ℕ)) (k : ℕ)
            → length (joined left) < fuel
            → IsServed (serve s fuel left k))
        → IsServed (serve_request s (serve s fuel) n o)
    by_request none c again = (_, refl)
    by_request (some r) c again =
        go_on-IsServed (serve s fuel r.reads) n (respond s n r.header r.payload)
          (λ k. again r.reads k (omega (arith, c, h)))

-- The handler returns, however the stream is cut and whatever it holds: each turn of the loop takes a
-- header off the stream, so that a turn for each byte is enough.
pub handle_total :
    (s : Settings) (reads : List (List ℕ)) (n : ℕ) → (r : Served) × (handle s reads n ≡ some r)
unfolding handle IsServed
handle_total s reads n = serve-IsServed s (suc (length (joined reads))) reads n (omega arith)

no_request : (reads : List (List ℕ)) → joined reads ≡ [] → read_request reads ≡ none
unfolding read_request checked
no_request reads e = ap checked (read_full_short 32 reads (omega (arith, ap length e)))

-- One frame that is answered, and then the end of the stream.
pub handle-reply :
    (s : Settings) (n k : ℕ) (bytes : List ℕ) (h : Header) (p : List ℕ) (reads : List (List ℕ))
    → IsWords h
    → validate h max_payload_hard_cap ≡ none
    → h.payload_len ≡ length p
    → joined reads ≡ encode_header h ++ p
    → respond s n h p ≡ reply k bytes
    → handle s reads n ≡ some (record { written = bytes; count = k })
unfolding handle serve serve_request go_on before
handle-reply s n k bytes h p reads w valid len e answer =
    let (left, got, left_eq) =
      read_request-frame h p [] reads w valid len
        (e ∙ ap (λ t. encode_header h ++ t) (sym (append-nil p))) in
    ap (serve_request s (serve s (length (joined reads))) n) got
    ∙ ap (go_on (serve s (length (joined reads)) left) n) answer
    ∙ ap (λ f. before bytes (serve s f left k)) {y = suc (31 + length p)}
        (omega (arith, ap length e, length-append (encode_header h) p, length-encode_header h))
    ∙ ap (λ o. before bytes (serve_request s (serve s (31 + length p)) k o))
        (no_request left left_eq)
    ∙ ap (λ t. some (record { written = t; count = k })) (append-nil bytes)

-- A header that is refused ends the connection, and nothing is written.
pub handle-refused :
    (s : Settings) (n : ℕ) (e : Error) (h : Header) (p : List ℕ) (reads : List (List ℕ))
    → IsWords h
    → validate h max_payload_hard_cap ≡ some e
    → joined reads ≡ encode_header h ++ p
    → handle s reads n ≡ some (record { written = []; count = n })
unfolding handle serve serve_request read_request checked with_header
handle-refused s n e h p reads w refused q =
    let (body, got, body_eq) =
      read_full-append reads (encode_header h) p q 32 (sym (length-encode_header h)) in
    ap (serve_request s (serve s (length (joined reads))) n)
      (ap checked got ∙ ap (λ d. with_header d body) (decoded h w ∙ ap (λ v. (v, h)) refused))
