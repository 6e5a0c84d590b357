-- ===== src/Transport/Handshake.antt =====
-- pkg/transport/handshake.go: the settlement handshake. A connection is what the peer will send, what
-- Write returns, and what has been written.
pub mod Settlement
pub mod Refusal
use skywire_mainnet_old.Base.{
  >>=-eq-ok, All, AllBytes, Bool, Bool-cases, Bytes, Comparable, Distinct, Error, List, Map, Option,
  Option-cases, Outcome, Outcome-cases, [], accept_write_failed, ap, arith, bad_init, bad_signature,
  be_bytes, beq_refl, bind_ok, byte_at, callback_failed, clamp_uint64, closed_pipe, confirm_failed,
  conn_already_exists, contains, contains-append, copy_at, copy_at-end, corrupted_rule,
  deadline_exceeded, dial_failed, drop, drop-append_left, empty_packet, empty_response, eof, err,
  false, flat, flat-append, flat-snoc, from_be, from_be-be_bytes, from_be-inj, get_elem?, gtb,
  if◌then◌else◌, inl, inr, insert, insert-Distinct, invalid_port, invalid_remote_signature,
  invalid_summary, io_failed, leb, leb→le, length, length-append, length-be_bytes,
  length-insert_new, length-remove_present, length-replicate, length-take, le→leb, list_beq,
  list_beq_iff, list_eq, lookup, lookup-insert, lookup-insert_ne, lookup-insert_self, lookup-remove,
  lookup-remove_all, lookup-remove_ne, lookup-remove_self, ltb, ltb→lt, lt→ltb, malformed_json,
  manager_closing, map, nat_beq, nat_beq_iff, nat_eq, negsuc, no_available_route_ids,
  no_reserved_id, no_route_found, no_routes, no_setup_node, none, not, not_serving, ok, or_err,
  panic, port_already_bound, port_not_bound, pos, put_be, put_be-append, put_field, read_be,
  read_entry_failed, read_field, read_full, read_full-append, read_response_failed, refl, remove,
  remove-Distinct, remove_all, replicate, request_failed, reservation_failed, resp_failure,
  reverse_rule_not_forward, route_setup_failed, rule_not_found, rule_timed_out, rules_failed,
  settlement_rejected, shortage, sign_failed, slice, slice-append, slice_field, some, sub_ℕ, suc,
  sym, take, take-append-drop, take-append_left, to_int64, transport_failed, transport_not_found,
  true, unexpected_app, unexpected_eof, unexpected_frame, unexpected_version,
  unknown_foundation_packet, unknown_loop, unknown_rule, unknown_transport, unknown_transport_type,
  unsupported_version, write_entry_failed, wrong_entry_edges, wrong_entry_id, wrong_entry_public,
  wrong_entry_type, wrong_network, wrong_number_of_ids, zero, ℕ, ℤ, ◌%◌, ◌&&◌, ◌*◌, ◌++◌, ◌+◌, ◌-◌,
  ◌/◌, ◌<◌, ◌==◌, ◌^◌, ◌||◌, ◌↔◌, ◌∙◌, ◌∷◌, ◌≡◌, ◌≢◌, ◌≤◌, ◌⊎◌,
}
use skywire_mainnet_old.Base.{◌>>=◌ as ◌&>◌}
use skywire_mainnet_old.Base.Step.{Step, ◌>>=◌, ◌>>◌, lift, get, pure, logged, renamed, wrapped}
use skywire_mainnet_old.Routing.Addr.{PubKey, TransportId}
use skywire_mainnet_old.Transport.Entry.{
  Entry, SignedEntry, Sig, SecKey, Cipher, new_entry, signature, sign, new_signed_entry, to_binary,
}
use skywire_mainnet_old.Transport.Discovery.{Discovery, Status}

-- *snet.Conn
pub record Conn : Type 0 where
  pub local_pk : PubKey
  pub remote_pk : PubKey
  pub network : Bytes
  pub input : Bytes
  pub at_end : Error
  pub written : Outcome (Unit {0})
  pub output : Bytes

-- A decoded SignedEntry, whose entry is a pointer that may be nil.
pub record Received : Type 0 where
  pub entry : Option Entry
  pub signatures : Sig × Sig

-- What a decoder makes of a stream, and what of it is still to be read from the connection afterwards. The
-- decoder may have buffered more than the value.
pub record Decoded : Type 0 where
  pub value : Outcome Received
  pub unread : Bytes

-- encoding/json: a decoder reads the first value of a stream.
pub record EntryJson : Type 0 where
  pub encode : SignedEntry → Bytes
  pub decode : Error → Bytes → Decoded

unfoldable pub after_write : Bytes → Conn → Outcome (Unit {0}) → Conn × Outcome (Unit {0})
after_write b c (ok u) = (record c { output = c.output ++ b }, ok u)
after_write b c (err e) = (c, err e)
after_write b c panic = (c, panic)

unfoldable pub write : Bytes → Step Conn (Unit {0})
unfolding after_write
write b = λ c. after_write b c c.written

unfoldable pub after_read : Conn → Outcome (Bytes × Bytes) → Conn × Outcome Bytes
after_read c (ok (b, rest)) = (record c { input = rest }, ok b)
after_read c (err e) = (c, err e)
after_read c panic = (c, panic)

unfoldable pub read : ℕ → Step Conn Bytes
unfolding after_read
read n = λ c. after_read c (read_full c.at_end n c.input)

-- The connection and the discovery.
pub record HsState (D : Type 0) : Type 0 where
  pub conn : Conn
  pub dc : D

abbrev pub bool_beq : Bool → Bool → Bool
bool_beq true b = b
bool_beq false b = not b

unfoldable pub compare_entries : Entry → Entry → Outcome (Unit {0})
compare_entries expected received =
    if not (expected.id == received.id)
    then err wrong_entry_id
    else if not (expected.edges.0 == received.edges.0 && expected.edges.1 == received.edges.1)
    then err wrong_entry_edges
    else if not (expected.tp_type == received.tp_type)
    then err wrong_entry_type
    else if not (bool_beq expected.public received.public)
    then err wrong_entry_public
    else ok tt

-- A nil pointer that is followed.
abbrev pub deref {ℓ} : {A : Type ℓ} → Option A → Outcome A
deref none = panic
deref (some a) = ok a

unfoldable pub is_nil : {A : Type 0} → Outcome A → Bool
is_nil (err e) = false
is_nil r = true

module _ {D : Type 0} where
  abbrev pub on_conn {ℓ} : {A : Type ℓ} → Step Conn A → Step (HsState D) A
  on_conn m = λ s. let (c, r) = m s.conn in (record s { conn = c }, r)

  abbrev pub on_dc {ℓ} : {A : Type ℓ} → Step D A → Step (HsState D) A
  on_dc m = λ s. let (d, r) = m s.dc in (record s { dc = d }, r)

module _ (new_hash : Bytes → TransportId) (cipher : Cipher) (json : EntryJson) where
  unfoldable pub make_entry : PubKey → PubKey → Bytes → Entry
  make_entry pk1 pk2 tp_type = new_entry new_hash pk1 pk2 tp_type true

  unfoldable pub make_entry_from_conn : Conn → Entry
  unfolding make_entry
  make_entry_from_conn c = make_entry c.local_pk c.remote_pk c.network

  -- The checks of receiveAndVerifyEntry, on what was decoded.
  unfoldable pub verify_entry : Entry → PubKey → Outcome Received → Outcome SignedEntry
  verify_entry expected remote_pk decoded = renamed read_entry_failed decoded &> λ recv.
      deref recv.entry &> λ received. compare_entries expected received &> λ _.
      let se : SignedEntry = record { entry = received; signatures = recv.signatures } in
      or_err invalid_remote_signature (signature remote_pk se) &> λ sig.
      cipher.verify remote_pk sig (to_binary received) &> λ _. ok se

  unfoldable pub receive_and_verify_entry : Entry → PubKey → Step Conn SignedEntry
  unfolding verify_entry
  receive_and_verify_entry expected remote_pk = λ c.
      let d = json.decode c.at_end c.input in
      (record c { input = d.unread }, verify_entry expected remote_pk d.value)

  module _ {D : Type 0} (discovery : Discovery D) where
    unfoldable pub init_settle : Entry → SecKey → Step (HsState D) (Unit {0})
    init_settle entry sk = do
      s ← get
      (se, signed) ← lift (new_signed_entry cipher entry s.conn.local_pk sk)
      if signed then pure tt else lift (err sign_failed)
      on_conn (wrapped write_entry_failed (write (json.encode se)))
      accepted ← on_conn (wrapped read_response_failed (read 1))
      answer ← lift (byte_at 0 accepted)
      if nat_beq answer 0 then lift (err settlement_rejected) else pure tt

    -- The deferred report of the result. It runs in a panic too, when `err` is nil.
    unfoldable pub report_settled :
        TransportId → HsState D × Outcome (Unit {0}) → HsState D × Outcome (Unit {0})
    report_settled id (s, r) =
        let status : Status = record { id = id; is_up = is_nil r } in
        let (s', reported) = on_dc (discovery.update_statuses (status ∷ [])) s in
        (s', elim reported [ panic ↦ panic | _ ↦ r ])

    unfoldable pub init_hs : SecKey → Step (HsState D) (Unit {0})
    init_hs sk = λ s.
        let entry = make_entry_from_conn s.conn in report_settled entry.id (init_settle entry sk s)

    unfoldable pub resp_hs : SecKey → Step (HsState D) (Unit {0})
    resp_hs sk = do
      s ← get
      recv ← on_conn (receive_and_verify_entry (make_entry_from_conn s.conn) s.conn.remote_pk)
      (se, signed) ← lift (sign cipher s.conn.local_pk sk recv)
      if signed then pure tt else lift (err sign_failed)
      on_dc (logged (discovery.register_transports (se ∷ [])))
      on_conn (wrapped accept_write_failed (write (1 ∷ [])))

    -- MakeSettlementHS
    unfoldable pub make_settlement_hs : Bool → SecKey → Step (HsState D) (Unit {0})
    make_settlement_hs init = if init then init_hs else resp_hs

    -- SettlementHS.Do. `expired` says that the context ends first; the handshake goes on all the same.
    unfoldable pub do_settlement_hs : Bool → Bool → SecKey → Step (HsState D) (Unit {0})
    do_settlement_hs expired init sk = λ s.
        let (s', r) = make_settlement_hs init sk s in
        (s', if expired then err deadline_exceeded else r)
