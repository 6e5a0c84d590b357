-- ===== src/Setup/Protocol/Requests.antt =====
-- protocol.go: what the requesters make of the response.
use skywire_mainnet_old.Base.{
  ℕ, ◌<◌, ◌≤◌, ◌^◌, ◌≡◌, refl, ap, sym, ◌∙◌, Bool, true, false, List, [], ◌∷◌, ◌++◌, Option, none,
  some, Bytes, length, Outcome, ok, err, panic, ◌>>=◌, bind_ok, >>=-eq-ok, or_err, nat_beq,
  if◌then◌else◌, Error, closed_pipe, wrong_number_of_ids, resp_failure, malformed_json, nat_beq_iff,
  deadline_exceeded, read_full, arith,
}
use skywire_mainnet_old.Routing.Addr.{RouteId}
use skywire_mainnet_old.Routing.Rule.{Rule}
use skywire_mainnet_old.Setup.Json.{Json, IsFaithful}
use skywire_mainnet_old.Setup.Protocol.{
  Conn, read_packet, packet_bytes, write_packet, request, request_route_ids, add_rules,
  read_and_decode_packet, read_and_decode_packet_with_timeout, ignore_closed_pipe,
  request_route_id_packet, add_rules_packet, success_packet, failure_packet,
}
use skywire_mainnet_old.Setup.Protocol.Framing.{packet_bytes-row, read_packet-packet_bytes}

count_checked :
    (n : ℕ) (c c' : Conn) (res ids : List RouteId)
    → (if◌then◌else◌ {A = Outcome (Conn × List RouteId)}
        (nat_beq (length res) n)
        (ok (c, res))
        (err wrong_number_of_ids))
      ≡ ok (c', ids)
    → (length ids ≡ n) × (c ≡ c')
count_checked n c c' res ids e = ground arith

written_bytes :
    (t : ℕ) (pay : Bytes) (c c' : Conn)
    → write_packet t pay c ≡ ok c'
    → (raw : Bytes) × (packet_bytes t pay ≡ ok raw) × (c'.output ≡ c.output ++ raw)
unfolding write_packet
written_bytes t pay c c' e =
    let (raw, made, put) = >>=-eq-ok (packet_bytes t pay) _ e in (raw, made, ground arith)

-- WritePacket never fails before the write, and leaves the input alone.
written :
    (t : ℕ) (pay : Bytes) (c : Conn)
    → (raw : Bytes) × (write_packet t pay c ≡ ok (record c { output = c.output ++ raw }))
unfolding write_packet
written t pay c = (_, bind_ok _ (packet_bytes-row t pay) refl)

-- When RequestRouteIDs returns IDs, there are as many as were asked for, whatever the peer sent, and
-- what it wrote is the one packet that asks for them.
pub request_route_ids_exact :
    (json : Json) (expired : Bool) (n : ℕ) (c c' : Conn) (ids : List RouteId)
    → request_route_ids json expired n c ≡ ok (c', ids)
    → (length ids ≡ n)
      × (raw : Bytes) × (packet_bytes request_route_id_packet (json.marshal_count n) ≡ ok raw)
      × (c'.output ≡ c.output ++ raw)
unfolding request_route_ids
request_route_ids_exact json expired n c c' ids e =
    let (c1, written, rest) =
      >>=-eq-ok (write_packet request_route_id_packet (json.marshal_count n) c) _ e in
    let (res, decoded, last) =
      >>=-eq-ok (read_and_decode_packet_with_timeout expired [] json.unmarshal_ids c1) _ rest in
    let (exact, same) = count_checked n c1 c' res ids last in
    let (raw, made, out) =
      written_bytes request_route_id_packet (json.marshal_count n) c c1 written in
    (exact, raw, made, ap (λ k. k.output) (sym same) ∙ out)

pub answer_read :
    (at_end : Error) (t : ℕ) (pay raw rest : Bytes)
    → packet_bytes t pay ≡ ok raw
    → t < 256
    → 1 ≤ length pay
    → length pay < 2 ^ 16
    → read_packet at_end (raw ++ rest) ≡ ok (t, pay, rest)
answer_read at_end t pay raw rest made byte some_bytes short =
    sym (bind_ok (λ r. read_packet at_end (r ++ rest)) made refl)
    ∙ read_packet-packet_bytes at_end t pay rest byte short
    ∙ ground arith

-- A decoded response is one success packet with the encoded value, whatever follows it.
pub answer_decoded :
    {A : Type 0} (decode : Bytes → Option A) (v a : A) (c : Conn) (pay raw rest : Bytes)
    → packet_bytes success_packet pay ≡ ok raw
    → c.input ≡ raw ++ rest
    → 1 ≤ length pay
    → length pay < 2 ^ 16
    → decode pay ≡ some a
    → read_and_decode_packet_with_timeout false v decode c ≡ ok a
unfolding read_and_decode_packet_with_timeout read_and_decode_packet ignore_closed_pipe
answer_decoded decode v a c pay raw rest made input some_bytes short back =
    ap (ignore_closed_pipe v) (
      bind_ok
        (λ p.
          if nat_beq p.0 failure_packet
          then err resp_failure
          else or_err malformed_json (decode p.1))
        (ap (read_packet c.at_end) input
          ∙ answer_read c.at_end success_packet pay raw rest made (omega arith) some_bytes short)
        (ap (or_err malformed_json) back))

same_count : (n : ℕ) → nat_beq n n ≡ true
same_count n = (nat_beq_iff n n).1 refl

-- RequestRouteIDs to a peer that answers with a success packet of `n` encoded IDs, in less than
-- 65536 bytes and before the context ends, returns these IDs.
pub request_route_ids_answered :
    (json : Json) (c : Conn) (ids : List RouteId) (raw rest : Bytes)
    → IsFaithful json
    → packet_bytes success_packet (json.marshal_ids ids) ≡ ok raw
    → c.input ≡ raw ++ rest
    → length (json.marshal_ids ids) < 2 ^ 16
    → (c' : Conn) × (request_route_ids json false (length ids) c ≡ ok (c', ids))
unfolding request_route_ids
request_route_ids_answered json c ids raw rest faithful made input short =
    let (sent, wrote) = written request_route_id_packet (json.marshal_count (length ids)) c in
    let c1 : Conn = record c { output = c.output ++ sent } in
    (
      c1,
      bind_ok (λ k. _) wrote
          (bind_ok (λ k. _)
            (answer_decoded json.unmarshal_ids [] ids c1 (json.marshal_ids ids) raw rest made input
              (faithful.ids_nonempty ids) short (faithful.ids_back ids))
            (rw (same_count (length ids)) refl)),
    )

-- AddRules reports success when the pipe is closed before any response has come.
pub add_rules_closed_pipe :
    (json : Json) (rules : List Rule) (c : Conn)
    → c.input ≡ []
    → c.at_end ≡ closed_pipe
    → (c' : Conn) × (add_rules json false rules c ≡ ok (c', tt))
unfolding add_rules request read_and_decode_packet_with_timeout read_and_decode_packet read_packet
    read_full skywire_mainnet_old.Base.shortage
add_rules_closed_pipe json rules c none_read closed =
    let (sent, wrote) = written add_rules_packet (json.marshal_rules rules) c in
    (record c { output = c.output ++ sent }, bind_ok (λ k. _) wrote (rw none_read (rw closed refl)))
