-- ===== src/Transport/Tests.antt =====
-- Runs of pkg/transport at concrete inputs: a cipher whose signature is the key, a codec that puts a
-- length before each field, and the mock of the discovery.
mod Calls
use skywire_mainnet_old.Base.{
  >>=-eq-ok, All, AllBytes, Bool, Bool-cases, Bytes, Comparable, Distinct, Error, List, Map, Option,
  Option-cases, Outcome, Outcome-cases, [], accept_write_failed, ap, arith, bad_init, bad_signature,
  be_bytes, beq_refl, bind_ok, byte_at, callback_failed, clamp_uint64, closed_pipe, confirm_failed,
  conn_already_exists, contains, contains-append, copy_at, copy_at-end, corrupted_rule,
  deadline_exceeded, dial_failed, drop, drop-append_left, empty_packet, empty_response, eof, err,
  false, flat, flat-append, flat-snoc, from_be, from_be-be_bytes, from_be-inj, get_elem?, gtb,
  if◌then◌else◌, inl, inr, insert, insert-Distinct, invalid_port, invalid_remote_signature,
  invalid_summary, io_failed, leb, leb→le, length, length-append, length-be_bytes,
  length-insert_new, length-remove_present, length-replicate, length-take, le→leb, list_beq,
  list_beq_iff, list_eq, lookup, lookup-insert, lookup-insert_ne, lookup-insert_self, lookup-remove,
  lookup-remove_all, lookup-remove_ne, lookup-remove_self, ltb, ltb→lt, lt→ltb, malformed_json,
  manager_closing, map, nat_beq, nat_beq_iff, nat_eq, negsuc, no_available_route_ids,
  no_reserved_id, no_route_found, no_routes, no_setup_node, none, not, not_serving, ok, or_err,
  panic, port_already_bound, port_not_bound, pos, put_be, put_be-append, put_field, read_be,
  read_entry_failed, read_field, read_full, read_full-append, read_response_failed, redial_failed,
  refl, remove, remove-Distinct, remove_all, replicate, request_failed, reservation_failed,
  resp_failure, reverse_rule_not_forward, route_setup_failed, rule_not_found, rule_timed_out,
  rules_failed, settlement_failed, settlement_rejected, shortage, sign_failed, slice, slice-append,
  slice_field, some, sub_ℕ, suc, sym, take, take-append-drop, take-append_left, to_int64,
  transport_failed, transport_not_found, true, unexpected_app, unexpected_eof, unexpected_frame,
  unexpected_version, unknown_foundation_packet, unknown_loop, unknown_rule, unknown_transport,
  unknown_transport_type, unsupported_version, write_entry_failed, wrong_entry_edges,
  wrong_entry_id, wrong_entry_public, wrong_entry_type, wrong_network, wrong_number_of_ids, zero, ℕ,
  ℤ, ◌%◌, ◌&&◌, ◌*◌, ◌++◌, ◌+◌, ◌-◌, ◌/◌, ◌<◌, ◌==◌, ◌>>=◌, ◌>>◌, ◌^◌, ◌||◌, ◌↔◌, ◌∙◌, ◌∷◌, ◌≡◌,
  ◌≢◌, ◌≤◌, ◌⊎◌,
}
use mathlib.Core.List.{append_assoc}
use skywire_mainnet_old.Base.Step.{Step, after}
use skywire_mainnet_old.Routing.Addr.{PubKey, TransportId}
use skywire_mainnet_old.Transport.Entry.{
  Entry, SignedEntry, Sig, SecKey, Cipher, SignsFor, new_entry, no_sig, has_edge, to_binary, sign,
  signature,
}
use skywire_mainnet_old.Transport.Entry.Edges.{IsKey, new_entry_symmetric, HasEnds}
use skywire_mainnet_old.Transport.Entry.Signing.{sign-signature, to_binary_covers, HasSizes}
use skywire_mainnet_old.Transport.Discovery.{
  Discovery, Mock, Status, new_discovery_mock, mock_register, mock_update, mock_get,
}
use skywire_mainnet_old.Transport.Handshake.{
  Conn, EntryJson, HsState, Received, Decoded, make_entry, init_hs, resp_hs,
}
use skywire_mainnet_old.Transport.Handshake.Settlement.{
  IsFaithful, IsSignedBy, Returns, open_conn, sent, settles, reported_up, registered,
}

abbrev pub key_a : PubKey
key_a = replicate 33 1

abbrev pub key_b : PubKey
key_b = replicate 33 2

abbrev pub dmsg : Bytes
dmsg = 100 ∷ 109 ∷ 115 ∷ 103 ∷ []

abbrev pub toy_hash : Bytes → TransportId
toy_hash b = take 16 b

abbrev pub toy_cipher : Cipher
toy_cipher = record {
  sign_payload = λ payload sk. ok sk;
  verify = λ pk sig payload. if sig == pk then ok tt else err bad_signature;
}

pub toy_SignsFor : (pk : PubKey) → SignsFor toy_cipher pk pk
toy_SignsFor pk = record { signs = λ payload. (pk, refl, rw (beq_refl pk) refl) }

abbrev put : Bytes → Bytes → Bytes
put b rest = length b ∷ (b ++ rest)

get : Bytes → Outcome (Bytes × Bytes)
get [] = err eof
get (n ∷ b) = read_full eof n b

get-put : (b rest : Bytes) → get (put b rest) ≡ ok (b, rest)
unfolding get
get-put b rest = read_full-append eof (length b) b rest refl

abbrev bit : Bool → ℕ
bit true = 1
bit false = 0

abbrev pub put_entry : SignedEntry → Bytes → Bytes
put_entry se rest = put se.entry.id (
    put se.entry.edges.0 (
      put se.entry.edges.1 (
        put se.entry.tp_type
          (bit se.entry.public ∷ put se.signatures.0 (put se.signatures.1 rest)))))

abbrev pub encode_entry : SignedEntry → Bytes
encode_entry se = put_entry se []

get_bit : Bytes → Outcome (Bool × Bytes)
get_bit [] = err eof
get_bit (n ∷ b) = ok (nat_beq n 1, b)

get_bit-bit : (b : Bool) (rest : Bytes) → get_bit (bit b ∷ rest) ≡ ok (b, rest)
unfolding get_bit
get_bit-bit true rest = refl
get_bit-bit false rest = refl

read_entry : Bytes → Outcome (Received × Bytes)
read_entry b = do
  (id, b) ← get b
  (first, b) ← get b
  (second, b) ← get b
  (tp_type, b) ← get b
  (public, b) ← get_bit b
  (s, b) ← get b
  (t, b) ← get b
  ok (
    record {
      entry =
          some (record { id = id; edges = (first, second); tp_type = tp_type; public = public });
      signatures = (s, t);
    },
    b,
  )

decoded_from : Outcome (Received × Bytes) → Decoded
decoded_from (ok (recv, rest)) = record { value = ok recv; unread = rest }
decoded_from (err e) = record { value = err e; unread = [] }
decoded_from panic = record { value = panic; unread = [] }

pub decode_entry : Error → Bytes → Decoded
decode_entry at_end b = decoded_from (read_entry b)

read_entry-put :
    (se : SignedEntry) (rest : Bytes)
    → read_entry (put_entry se rest)
      ≡ ok (record { entry = some se.entry; signatures = se.signatures }, rest)
unfolding read_entry
read_entry-put se rest =
    bind_ok (λ r. _) (get-put se.entry.id _)
      (bind_ok (λ r. _) (get-put se.entry.edges.0 _)
        (bind_ok (λ r. _) (get-put se.entry.edges.1 _)
          (bind_ok (λ r. _) (get-put se.entry.tp_type _)
            (bind_ok (λ r. _) (get_bit-bit se.entry.public _)
              (bind_ok (λ r. _) (get-put se.signatures.0 _)
                (bind_ok (λ r. _) (get-put se.signatures.1 rest) refl))))))

abbrev pub toy_json : EntryJson
toy_json = record { encode = encode_entry; decode = decode_entry }

encode_append : (se : SignedEntry) (rest : Bytes) → put_entry se [] ++ rest ≡ put_entry se rest
encode_append se rest = simp append_assoc

pub toy_IsFaithful : (entry : Entry) → IsFaithful toy_json entry
unfolding decode_entry decoded_from
toy_IsFaithful entry = record {
  reads_back = λ at_end signatures rest.
      let se : SignedEntry = record { entry = entry; signatures = signatures } in
      ap (λ r. (decoded_from r).value)
        (ap read_entry (encode_append se rest) ∙ read_entry-put se rest);
}

returns_after :
    {A B : Type 0} (x : Error) (o : Option A) (f : A → Step Mock B) (td : Mock)
    → ((a : A) (td : Mock) → (f a td).1 ≢ panic)
    → (after (td, or_err x o) f).1 ≢ panic
returns_after x none f td h = λ e. cc
returns_after x (some a) f td h = h a td

mock_update_returns : (sts : List Status) (td : Mock) → (mock_update sts td).1 ≢ panic
unfolding mock_update mock_get
mock_update_returns [] td = λ e. cc
mock_update_returns (st ∷ sts) td =
    returns_after transport_not_found (lookup st.id td) _ td (λ e td. mock_update_returns sts _)

pub mock_Returns : Returns toy_hash toy_cipher toy_json (new_discovery_mock 7)
unfolding new_discovery_mock mock_register
mock_Returns = record { registers = λ ses td h. cc; updates = mock_update_returns }

replicate-AllBytes : (n a : ℕ) → a < 256 → AllBytes (replicate n a)
replicate-AllBytes zero a h = tt
replicate-AllBytes (suc n) a h = (h, replicate-AllBytes n a h)

key_a-IsKey : IsKey key_a
key_a-IsKey = record { size = refl; bytes = replicate-AllBytes 33 1 (omega arith) }

key_b-IsKey : IsKey key_b
key_b-IsKey = record { size = refl; bytes = replicate-AllBytes 33 2 (omega arith) }

first : Bytes → ℕ
first [] = 0
first (x ∷ b) = x

keys_differ : key_a ≢ key_b
keys_differ e = one_two (ap first e)
  where
    one_two : first key_a ≡ first key_b → ⊥
    one_two h = unfold first in omega arith

toy_entry : Entry
toy_entry = new_entry toy_hash key_a key_b dmsg true

-- The entry of two keys, from both ends.
new_entry_symmetric_example :
    (new_entry toy_hash key_a key_b dmsg true ≡ new_entry toy_hash key_b key_a dmsg true)
    × HasEnds (new_entry toy_hash key_a key_b dmsg true) key_a key_b
new_entry_symmetric_example =
    new_entry_symmetric toy_hash key_a key_b dmsg true key_a-IsKey key_b-IsKey keys_differ

abbrev toy_blank : SignedEntry
toy_blank = record {
  entry = record { id = replicate 16 9; edges = (key_a, key_b); tp_type = dmsg; public = true };
  signatures = (no_sig, no_sig);
}

toy_edge : has_edge key_b toy_blank.entry ≡ true
unfolding has_edge list_beq
toy_edge = refl

-- An entry signed for its second edge.
sign-signature_example :
    (se : SignedEntry) × (sig : Sig) × (sign toy_cipher key_b key_b toy_blank ≡ ok (se, true))
    × (se.entry ≡ toy_blank.entry)
    × (signature key_b se ≡ some sig)
    × (toy_cipher.verify key_b sig (to_binary se.entry) ≡ ok tt)
    × ((other : PubKey) → other ≢ key_b → signature other se ≡ signature other toy_blank)
sign-signature_example =
    sign-signature toy_cipher key_b key_b toy_blank (toy_SignsFor key_b) toy_edge

toy_HasSizes : HasSizes toy_blank.entry
toy_HasSizes = record { id_size = refl; first_size = refl; second_size = refl }

-- Two entries that differ in their type have different binary forms.
to_binary_covers_example :
    (to_binary toy_blank.entry ≡ to_binary (record (toy_blank.entry) { tp_type = [] })) ↔ (
      (toy_blank.entry.id ≡ toy_blank.entry.id)
      × (toy_blank.entry.edges ≡ toy_blank.entry.edges)
      × (dmsg ≡ []))
to_binary_covers_example =
    to_binary_covers toy_blank.entry (record (toy_blank.entry) { tp_type = [] }) toy_HasSizes
      (record { id_size = refl; first_size = refl; second_size = refl })

-- The visors of the two keys settle a transport over dmsg, with the mock of the discovery.
settles_example :
    (offer : SignedEntry) × (both : SignedEntry) × (init_hs toy_hash toy_cipher toy_json
        (new_discovery_mock 7)
        key_a
        (record { conn = open_conn key_a key_b dmsg (1 ∷ []) eof; dc = [] })
      ≡ (
        record {
          conn = sent (open_conn key_a key_b dmsg (1 ∷ []) eof) [] (encode_entry offer);
          dc =
              reported_up toy_hash toy_cipher toy_json
                (new_discovery_mock 7)
                (make_entry toy_hash toy_cipher toy_json key_a key_b dmsg).id
                [];
        },
        ok tt,
      ))
    × (resp_hs toy_hash toy_cipher toy_json
          (new_discovery_mock 7)
          key_b
          (record { conn = open_conn key_b key_a dmsg (encode_entry offer ++ []) eof; dc = [] })
        ≡ (
          record {
            conn =
                sent
                  (open_conn key_b key_a dmsg (encode_entry offer ++ []) eof)
                  (decode_entry eof (encode_entry offer ++ [])).unread
                  (1 ∷ []);
            dc = registered toy_hash toy_cipher toy_json (new_discovery_mock 7) both [];
          },
          ok tt,
        ))
    × (both.entry ≡ make_entry toy_hash toy_cipher toy_json key_a key_b dmsg)
    × (both.entry ≡ make_entry toy_hash toy_cipher toy_json key_b key_a dmsg)
    × IsSignedBy toy_cipher key_a both
    × IsSignedBy toy_cipher key_b both
settles_example =
    settles toy_hash toy_cipher toy_json (new_discovery_mock 7) key_a key_b key_a key_b dmsg [] []
      eof eof [] [] key_a-IsKey key_b-IsKey keys_differ (toy_SignsFor key_a) (toy_SignsFor key_b)
      (toy_IsFaithful _) mock_Returns
