-- ===== src/Transport/Entry.antt =====
-- pkg/transport/entry.go and transport.go. A [2]T is a pair. uuid.NewHash over SHA-256, the zero
-- namespace and version 0 is the parameter `new_hash`; package cipher's signatures are `Cipher`.
pub mod Edges
pub mod Signing
use skywire_mainnet_old.Base.{
  >>=-eq-ok, All, AllBytes, Bool, Bool-cases, Bytes, Comparable, Distinct, Error, List, Map, Option,
  Option-cases, Outcome, Outcome-cases, [], ap, arith, bad_init, be_bytes, beq_refl, bind_ok,
  byte_at, callback_failed, clamp_uint64, closed_pipe, confirm_failed, contains, contains-append,
  copy_at, copy_at-end, corrupted_rule, deadline_exceeded, dial_failed, drop, drop-append_left,
  empty_packet, empty_response, eof, err, false, flat, flat-append, flat-snoc, from_be,
  from_be-be_bytes, from_be-inj, get_elem?, gtb, if◌then◌else◌, inl, inr, insert, insert-Distinct,
  invalid_port, invalid_summary, io_failed, leb, leb→le, length, length-append, length-be_bytes,
  length-insert_new, length-remove_present, length-replicate, length-take, le→leb, list_beq,
  list_beq_iff, list_eq, lookup, lookup-insert, lookup-insert_ne, lookup-insert_self, lookup-remove,
  lookup-remove_all, lookup-remove_ne, lookup-remove_self, ltb, ltb→lt, lt→ltb, malformed_json, map,
  nat_beq, nat_beq_iff, nat_eq, negsuc, no_available_route_ids, no_reserved_id, no_route_found,
  no_routes, no_setup_node, none, not, ok, or_err, panic, port_already_bound, port_not_bound, pos,
  put_be, put_be-append, put_field, read_be, read_field, read_full, read_full-append, refl, remove,
  remove-Distinct, remove_all, replicate, request_failed, reservation_failed, resp_failure,
  reverse_rule_not_forward, route_setup_failed, rule_not_found, rule_timed_out, rules_failed,
  shortage, slice, slice-append, slice_field, some, sub_ℕ, suc, sym, take, take-append-drop,
  take-append_left, to_int64, transport_failed, true, unexpected_app, unexpected_eof,
  unexpected_frame, unexpected_version, unknown_foundation_packet, unknown_loop, unknown_rule,
  unknown_transport, unsupported_version, wrong_number_of_ids, zero, ℕ, ℤ, ◌%◌, ◌&&◌, ◌*◌, ◌++◌,
  ◌+◌, ◌-◌, ◌/◌, ◌<◌, ◌==◌, ◌>>=◌, ◌>>◌, ◌^◌, ◌||◌, ◌↔◌, ◌∙◌, ◌∷◌, ◌≡◌, ◌≢◌, ◌≤◌, ◌⊎◌,
}
use skywire_mainnet_old.Routing.Addr.{PubKey, TransportId}

abbrev pub Sig : Type 0
Sig = Bytes

abbrev pub SecKey : Type 0
SecKey = Bytes

pub record Entry : Type 0 where
  pub id : TransportId
  pub edges : PubKey × PubKey
  pub tp_type : Bytes
  pub public : Bool

-- The keys as big-endian numbers.
unfoldable pub sort_edges : PubKey → PubKey → PubKey × PubKey
sort_edges key_a key_b =
    if ltb (from_be key_a) (from_be key_b) then (key_a, key_b) else (key_b, key_a)

module _ (new_hash : Bytes → TransportId) where
  unfoldable pub make_transport_id : PubKey → PubKey → Bytes → TransportId
  make_transport_id key_a key_b tp_type =
      let keys = sort_edges key_a key_b in new_hash (keys.0 ++ (keys.1 ++ tp_type))

  unfoldable pub new_entry : PubKey → PubKey → Bytes → Bool → Entry
  new_entry local_pk remote_pk tp_type public = record {
    id = make_transport_id local_pk remote_pk tp_type;
    edges = sort_edges local_pk remote_pk;
    tp_type = tp_type;
    public = public;
  }

  unfoldable pub set_edges : PubKey → PubKey → Entry → Entry
  set_edges local_pk remote_pk e = record e {
    id = make_transport_id local_pk remote_pk e.tp_type;
    edges = sort_edges local_pk remote_pk;
  }

-- The first edge that is another key.
unfoldable pub remote_edge : PubKey → Entry → PubKey
remote_edge local e =
    if e.edges.0 == local then (if e.edges.1 == local then local else e.edges.1) else e.edges.0

-- `none` stands for -1.
unfoldable pub edge_index : PubKey → Entry → Option ℕ
edge_index pk e = if pk == e.edges.0 then some 0 else if pk == e.edges.1 then some 1 else none

unfoldable pub has_edge : PubKey → Entry → Bool
has_edge edge e = if e.edges.0 == edge then true else if e.edges.1 == edge then true else false

unfoldable pub to_binary : Entry → Bytes
to_binary e = e.id ++ (e.edges.0 ++ (e.edges.1 ++ e.tp_type))

-- cipher.SignPayload and cipher.VerifyPubKeySignedPayload.
pub record Cipher : Type 0 where
  pub sign_payload : Bytes → SecKey → Outcome Sig
  pub verify : PubKey → Sig → Bytes → Outcome (Unit {0})

-- The secret key signs for the public key: what it signs verifies.
pub record SignsFor (cipher : Cipher) (pk : PubKey) (sk : SecKey) : Type 0 where
  pub signs :
      (payload : Bytes)
      → (sig : Sig) × (cipher.sign_payload payload sk ≡ ok sig)
        × (cipher.verify pk sig payload ≡ ok tt)

pub record SignedEntry : Type 0 where
  pub entry : Entry
  pub signatures : Sig × Sig

abbrev pub no_sig : Sig
no_sig = replicate 65 0

-- `a[i]` and `a[i] = v`, for an index that EdgeIndex has found.
abbrev pub sig_at : ℕ → Sig × Sig → Sig
sig_at zero s = s.0
sig_at (suc i) s = s.1

abbrev pub put_sig : ℕ → Sig → Sig × Sig → Sig × Sig
put_sig zero v s = (v, s.1)
put_sig (suc i) v s = (s.0, v)

module _ (cipher : Cipher) where
  unfoldable pub entry_signature : SecKey → Entry → Outcome Sig
  entry_signature sk e = elim (cipher.sign_payload (to_binary e) sk) [
    | ok sig ↦ ok sig
    | err _ ↦ panic
    | panic ↦ panic
  ]

  unfoldable pub sign_at : Option ℕ → SecKey → SignedEntry → Outcome (SignedEntry × Bool)
  sign_at none sk se = ok (se, false)
  sign_at (some i) sk se = do
    sig ← entry_signature sk se.entry
    ok (record se { signatures = put_sig i sig se.signatures }, true)

  unfoldable pub sign : PubKey → SecKey → SignedEntry → Outcome (SignedEntry × Bool)
  unfolding sign_at
  sign pk sk se = sign_at (edge_index pk se.entry) sk se

  unfoldable pub new_signed_entry : Entry → PubKey → SecKey → Outcome (SignedEntry × Bool)
  new_signed_entry entry pk sk =
      sign pk sk (record { entry = entry; signatures = (no_sig, no_sig) })

unfoldable pub signature : PubKey → SignedEntry → Option Sig
signature pk se = elim (edge_index pk se.entry) [
  | none ↦ none
  | some i ↦ some (sig_at i se.signatures)
]
