-- ===== src/Tests/Clients.antt =====
-- The client for operators and the upstream for tests at concrete values.
use mini_envoy.Base.{
  ℕ, refl, ◌≡◌, arith, List, [], ◌∷◌, ◌++◌, true, none, some, take, drop, append-nil, length, ◌/◌,
}
use mini_envoy.Base.Int.{pos}
use mini_envoy.Protocol.Opcode.{op_data}
use mini_envoy.Protocol.Header.{
  Header, IsWords, new_header, encode_header, validate, max_payload_hard_cap,
}
use mini_envoy.Commands.{joined}
use mini_envoy.Commands.Menvctl as Menvctl
use mini_envoy.Commands.Menvctl.{Conn, Reply, run_echo, read_frame, report}
use mini_envoy.Commands.Mockup.{Settings, Served, handle}
use mini_envoy.Commands.Served.{handle_total}
use mini_envoy.Commands.Echo.{run_echo-handle, read_frame-encode_header, echoed}
use mini_envoy.Commands.Flaky.{IsData, flaky-errors, errors, replies}

-- Every third DATA frame fails.
abbrev settings : Settings
settings = record { id = 117 ∷ 49 ∷ []; mode = "flaky"; fail_every = pos 3 }

abbrev body : List ℕ
body = 104 ∷ 101 ∷ 108 ∷ 108 ∷ 111 ∷ 32 ∷ 121 ∷ 111 ∷ 117 ∷ []

abbrev frame : List ℕ
unfolding encode_header new_header
frame = encode_header (new_header op_data 1 1 9 42) ++ body

-- The request in two reads, the first of which ends within the header.
abbrev requests : List (List ℕ)
requests = take 5 frame ∷ drop 5 frame ∷ []

handle_total_example : (r : Served) × (handle settings requests 0 ≡ some r)
handle_total_example = handle_total settings requests 0

answered : (r : Served) × (handle settings requests 0 ≡ some r)
answered = handle_total settings requests 0

abbrev client : Conn
client = record { takes = λ b. true; sent = []; reads = answered.0.written ∷ [] }

request_sent : joined requests ≡ (run_echo client 1 body).0.sent
unfolding run_echo Menvctl.write_frame Menvctl.write_hdr Menvctl.then_write Menvctl.write
    Menvctl.judge_echo Menvctl.print encode_header new_header
request_sent = refl

run_echo-handle_example : (run_echo client 1 body).2 ≡ echoed settings 0 body
run_echo-handle_example =
    run_echo-handle settings 0 client 1 body requests answered.0 (λ b. refl) refl (omega arith)
      request_sent answered.1 (append-nil answered.0.written)

header_words : IsWords (new_header op_data 1 1 9 42)
unfolding new_header
header_words = omega arith

header_valid : validate (new_header op_data 1 1 9 42) max_payload_hard_cap ≡ none
unfolding validate new_header
header_valid = refl

payload_len_eq : (new_header op_data 1 1 9 42).payload_len ≡ length body
unfolding new_header
payload_len_eq = refl

read_frame-encode_header_example : read_frame requests ≡ record {
  header = new_header op_data 1 1 9 42;
  payload = body;
  error = report (new_header op_data 1 1 9 42) body;
}
read_frame-encode_header_example =
    read_frame-encode_header (new_header op_data 1 1 9 42) body [] requests header_words
      header_valid payload_len_eq frame_eq
  where
    frame_eq : joined requests ≡ encode_header (new_header op_data 1 1 9 42) ++ (body ++ [])
    frame_eq = unfold encode_header new_header in refl

opcode_eq : (new_header op_data 1 1 9 42).opcode ≡ op_data
unfolding new_header
opcode_eq = refl

abbrev frames : List (Header × List ℕ)
frames =
    (new_header op_data 1 1 9 42, body)
    ∷ (new_header op_data 1 1 9 42, [])
    ∷ (new_header op_data 1 1 9 42, body)
    ∷ (new_header op_data 1 1 9 42, body)
    ∷ []

flaky-errors_example : errors (replies settings 0 frames) ≡ length frames / 3
flaky-errors_example =
    flaky-errors settings 3 frames refl refl (omega arith)
      (data_frame, (data_frame, (data_frame, (data_frame, tt)))) (omega arith)
  where
    data_frame : IsData (new_header op_data 1 1 9 42, body)
    data_frame = (opcode_eq, header_words)
