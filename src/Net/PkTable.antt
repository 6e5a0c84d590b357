-- ===== src/Net/PkTable.antt =====
-- pkg/snet/stcp/pktable.go. The file is its lines, each as strings.Fields splits it; UnmarshalText of
-- package cipher is a parameter.
pub mod Reverse
use skywire_mainnet_old.Base.{
  >>=-eq-ok, All, AllBytes, Bool, Bool-cases, Bytes, Comparable, Distinct, Error, List, Map, Option,
  Option-cases, Outcome, Outcome-cases, [], accept_write_failed, ap, arith, bad_init, bad_signature,
  be_bytes, beq_refl, bind_ok, byte_at, callback_failed, clamp_uint64, closed_pipe, confirm_failed,
  conn_already_exists, contains, contains-append, copy_at, copy_at-end, corrupted_rule,
  deadline_exceeded, dial_failed, drop, drop-append_left, empty_packet, empty_response, eof, err,
  false, flat, flat-append, flat-snoc, from_be, from_be-be_bytes, from_be-inj, get_elem?, gtb,
  if◌then◌else◌, inl, inr, insert, insert-Distinct, invalid_pk_file, invalid_port,
  invalid_remote_signature, invalid_summary, io_failed, leb, leb→le, length, length-append,
  length-be_bytes, length-insert_new, length-remove_present, length-replicate, length-take, le→leb,
  list_beq, list_beq_iff, list_eq, lookup, lookup-insert, lookup-insert_ne, lookup-insert_self,
  lookup-remove, lookup-remove_all, lookup-remove_ne, lookup-remove_self, ltb, ltb→lt, lt→ltb,
  malformed_json, manager_closing, map, maximum_retries_reached, nat_beq, nat_beq_iff, nat_eq,
  negsuc, no_available_route_ids, no_reserved_id, no_route_found, no_routes, no_setup_node, none,
  not, not_serving, ok, or_err, panic, port_already_bound, port_not_bound, pos, put_be,
  put_be-append, put_field, read_be, read_entry_failed, read_field, read_full, read_full-append,
  read_response_failed, redial_failed, refl, remove, remove-Distinct, remove_all, replicate,
  request_failed, reservation_failed, resp_failure, reverse_rule_not_forward, route_setup_failed,
  rule_not_found, rule_timed_out, rules_failed, settlement_failed, settlement_rejected, shortage,
  sign_failed, slice, slice-append, slice_field, some, sub_ℕ, suc, sym, take, take-append-drop,
  take-append_left, to_int64, transport_failed, transport_not_found, true, unexpected_app,
  unexpected_eof, unexpected_frame, unexpected_version, unknown_foundation_packet, unknown_loop,
  unknown_rule, unknown_transport, unknown_transport_type, unsupported_version, write_entry_failed,
  wrong_entry_edges, wrong_entry_id, wrong_entry_public, wrong_entry_type, wrong_network,
  wrong_number_of_ids, zero, ℕ, ℤ, ◌%◌, ◌&&◌, ◌*◌, ◌++◌, ◌+◌, ◌-◌, ◌/◌, ◌<◌, ◌==◌, ◌>>=◌, ◌>>◌, ◌^◌,
  ◌||◌, ◌↔◌, ◌∙◌, ◌∷◌, ◌≡◌, ◌≢◌, ◌≤◌, ◌⊎◌,
}
use skywire_mainnet_old.Routing.Addr.{PubKey}

pub record PkTable : Type 0 where
  pub entries : Map PubKey Bytes
  pub reverse : Map Bytes PubKey

unfoldable pub reverse_all : Map PubKey Bytes → Map Bytes PubKey → Map Bytes PubKey
reverse_all [] reverse = reverse
reverse_all ((pk, addr) ∷ entries) reverse = reverse_all entries (insert addr pk reverse)

unfoldable pub new_table : Map PubKey Bytes → PkTable
unfolding reverse_all
new_table entries = record { entries = entries; reverse = reverse_all entries [] }

unfoldable pub addr : PubKey → PkTable → Option Bytes
addr pk t = lookup pk t.entries

unfoldable pub pub_key : Bytes → PkTable → Option PubKey
pub_key a t = lookup a t.reverse

unfoldable pub count : PkTable → ℕ
count t = length t.entries

module _ (unmarshal_text : Bytes → Option PubKey) where
  unfoldable pub scan_fields : List Bytes → Map PubKey Bytes → Outcome (Map PubKey Bytes)
  scan_fields (name ∷ a ∷ []) entries = do
    pk ← or_err invalid_pk_file (unmarshal_text name)
    ok (insert pk a entries)
  scan_fields _ entries = err invalid_pk_file

  unfoldable pub scan_lines : List (List Bytes) → Map PubKey Bytes → Outcome (Map PubKey Bytes)
  unfolding scan_fields
  scan_lines [] entries = ok entries
  scan_lines (fields ∷ lines) entries = do
    entries ← scan_fields fields entries
    scan_lines lines entries

  unfoldable pub new_table_from_file : Outcome (List (List Bytes)) → Outcome PkTable
  unfolding scan_lines
  new_table_from_file opened = do
    lines ← opened
    entries ← scan_lines lines []
    ok (new_table entries)
