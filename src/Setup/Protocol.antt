-- ===== src/Setup/Protocol.antt =====
-- pkg/setup/protocol.go. A connection is the bytes that the peer sends before it closes its side,
-- and the bytes that were written to it.
pub mod Framing
pub mod Requests
use skywire_mainnet_old.Base.{
  ℕ, ◌+◌, ◌%◌, ◌^◌, Bool, true, false, List, [], ◌∷◌, ◌++◌, Option, none, some, Bytes, replicate,
  length, byte_at, from_be, Outcome, ok, err, panic, or_err, ◌>>=◌, ◌>>◌, put_be, copy_at,
  read_full, read_be, nat_beq, if◌then◌else◌, slice, empty_packet, resp_failure, malformed_json,
  deadline_exceeded, closed_pipe, wrong_number_of_ids, empty_response, Error,
}
use skywire_mainnet_old.Routing.Addr.{RouteId, LoopData, LoopDescriptor}
use skywire_mainnet_old.Routing.Rule.{Rule}
use skywire_mainnet_old.Setup.Json.{Json}

-- PacketAddRules and the types after it, by iota
abbrev pub add_rules_packet : ℕ
add_rules_packet = 0

abbrev pub delete_rules_packet : ℕ
delete_rules_packet = 1

abbrev pub create_loop_packet : ℕ
create_loop_packet = 2

abbrev pub confirm_loop_packet : ℕ
confirm_loop_packet = 3

abbrev pub close_loop_packet : ℕ
close_loop_packet = 4

abbrev pub loop_closed_packet : ℕ
loop_closed_packet = 5

abbrev pub request_route_id_packet : ℕ
request_route_id_packet = 6

abbrev pub failure_packet : ℕ
failure_packet = 0xfe

abbrev pub success_packet : ℕ
success_packet = 0xff

-- What the peer sends, what Read returns at its end, and what was written to the connection. After
-- an error every caller closes the connection, so what is left of it is dropped.
pub record Conn : Type 0 where
  pub input : Bytes
  pub at_end : Error
  pub output : Bytes

-- The packet's type and payload, and the input behind it.
unfoldable pub read_packet : Error → Bytes → Outcome (ℕ × Bytes × Bytes)
read_packet at_end input = do
  (h, input) ← read_full at_end 3 input
  t ← byte_at 0 h
  n ← read_be 1 2 h
  (pay, input) ← read_full at_end n input
  if nat_beq (length pay) 0 then err empty_packet else ok (t, pay, input)

-- The bytes of one packet; `pay` is what json.Marshal made of the body.
unfoldable pub packet_bytes : ℕ → Bytes → Outcome Bytes
packet_bytes t pay = do
  raw ← put_be 0 1 t (replicate (3 + length pay) 0)
  raw ← put_be 1 2 (length pay % 2 ^ 16) raw
  copy_at 3 pay raw

unfoldable pub write_packet : ℕ → Bytes → Conn → Outcome Conn
write_packet t pay c = do raw ← packet_bytes t pay; ok (record c { output = c.output ++ raw })

module _ {A : Type 0} where
  -- `decode` is json.Unmarshal into `v`; for a nil `v` it accepts everything.
  unfoldable pub read_and_decode_packet : (Bytes → Option A) → Conn → Outcome A
  read_and_decode_packet decode c = do
    (t, raw, input) ← read_packet c.at_end c.input
    if nat_beq t failure_packet then err resp_failure else or_err malformed_json (decode raw)

  -- io.ErrClosedPipe counts as success; `v` is then as it was.
  unfoldable pub ignore_closed_pipe : A → Outcome A → Outcome A
  ignore_closed_pipe v (err closed_pipe) = ok v
  ignore_closed_pipe v r = r

  -- `expired` says that the context ends before the response is read.
  unfoldable pub read_and_decode_packet_with_timeout :
      Bool → A → (Bytes → Option A) → Conn → Outcome A
  unfolding ignore_closed_pipe
  read_and_decode_packet_with_timeout expired v decode c =
      if expired
      then err deadline_exceeded
      else ignore_closed_pipe v (read_and_decode_packet decode c)

-- A request that wants no value back.
unfoldable pub request : Bool → ℕ → Bytes → Conn → Outcome (Conn × Unit {0})
request expired t body c = do
  c ← write_packet t body c
  r ← read_and_decode_packet_with_timeout expired tt (λ raw. some tt) c
  ok (c, r)

-- What encoding/json does with the bodies of the packets.
module _ (json : Json) where
  unfoldable pub request_route_ids : Bool → ℕ → Conn → Outcome (Conn × List RouteId)
  request_route_ids expired n c = do
    c ← write_packet request_route_id_packet (json.marshal_count n) c
    res ← read_and_decode_packet_with_timeout expired [] json.unmarshal_ids c
    if nat_beq (length res) n then ok (c, res) else err wrong_number_of_ids

  unfoldable pub add_rules : Bool → List Rule → Conn → Outcome (Conn × Unit {0})
  add_rules expired rules = request expired add_rules_packet (json.marshal_rules rules)

  unfoldable pub delete_rule : Bool → RouteId → Conn → Outcome Conn
  delete_rule expired route_id c = do
    c ← write_packet delete_rules_packet (json.marshal_ids (route_id ∷ [])) c
    res ← read_and_decode_packet_with_timeout expired [] json.unmarshal_ids c
    if nat_beq (length res) 0 then err empty_response else ok c

  unfoldable pub create_loop : Bool → LoopDescriptor → Conn → Outcome (Conn × Unit {0})
  create_loop expired ld = request expired create_loop_packet (json.marshal_descriptor ld)

  unfoldable pub confirm_loop : Bool → LoopData → Conn → Outcome (Conn × Unit {0})
  confirm_loop expired ld = request expired confirm_loop_packet (json.marshal_loop_data ld)

  unfoldable pub close_loop : Bool → LoopData → Conn → Outcome (Conn × Unit {0})
  close_loop expired ld = request expired close_loop_packet (json.marshal_loop_data ld)

  unfoldable pub loop_closed : Bool → LoopData → Conn → Outcome (Conn × Unit {0})
  loop_closed expired ld = request expired loop_closed_packet (json.marshal_loop_data ld)
