-- ===== src/Net/Porter.antt =====
-- pkg/snet/stcp/porter.go. The set of ports is a map to the unit type. A function that portFreer makes
-- calls `free_port` the first time and does nothing after it.
pub mod Ephemeral
use skywire_mainnet_old.Base.{
  >>=-eq-ok, All, AllBytes, Bool, Bool-cases, Bytes, Comparable, Distinct, Error, List, Map, Option,
  Option-cases, Outcome, Outcome-cases, [], accept_write_failed, ap, arith, bad_init, bad_signature,
  be_bytes, beq_refl, bind_ok, byte_at, callback_failed, clamp_uint64, closed_pipe, confirm_failed,
  conn_already_exists, contains, contains-append, copy_at, copy_at-end, corrupted_rule,
  deadline_exceeded, dial_failed, drop, drop-append_left, empty_packet, empty_response, eof, err,
  false, flat, flat-append, flat-snoc, from_be, from_be-be_bytes, from_be-inj, get_elem?, gtb,
  if◌then◌else◌, inl, inr, insert, insert-Distinct, invalid_port, invalid_remote_signature,
  invalid_summary, io_failed, leb, leb→le, length, length-append, length-be_bytes,
  length-insert_new, length-remove_present, length-replicate, length-take, le→leb, list_beq,
  list_beq_iff, list_eq, lookup, lookup-insert, lookup-insert_ne, lookup-insert_self, lookup-remove,
  lookup-remove_all, lookup-remove_ne, lookup-remove_self, ltb, ltb→lt, lt→ltb, malformed_json,
  manager_closing, map, maximum_retries_reached, nat_beq, nat_beq_iff, nat_eq, negsuc,
  no_available_route_ids, no_reserved_id, no_route_found, no_routes, no_setup_node, none, not,
  not_serving, ok, or_err, panic, port_already_bound, port_not_bound, pos, put_be, put_be-append,
  put_field, read_be, read_entry_failed, read_field, read_full, read_full-append,
  read_response_failed, redial_failed, refl, remove, remove-Distinct, remove_all, replicate,
  request_failed, reservation_failed, resp_failure, reverse_rule_not_forward, route_setup_failed,
  rule_not_found, rule_timed_out, rules_failed, settlement_failed, settlement_rejected, shortage,
  sign_failed, slice, slice-append, slice_field, some, sub_ℕ, suc, sym, take, take-append-drop,
  take-append_left, to_int64, transport_failed, transport_not_found, true, unexpected_app,
  unexpected_eof, unexpected_frame, unexpected_version, unknown_foundation_packet, unknown_loop,
  unknown_rule, unknown_transport, unknown_transport_type, unsupported_version, write_entry_failed,
  wrong_entry_edges, wrong_entry_id, wrong_entry_public, wrong_entry_type, wrong_network,
  wrong_number_of_ids, zero, ℕ, ℤ, ◌%◌, ◌&&◌, ◌*◌, ◌++◌, ◌+◌, ◌-◌, ◌/◌, ◌<◌, ◌==◌, ◌>>=◌, ◌>>◌, ◌^◌,
  ◌||◌, ◌↔◌, ◌∙◌, ◌∷◌, ◌≡◌, ◌≢◌, ◌≤◌, ◌⊎◌,
}
use skywire_mainnet_old.Routing.Addr.{Port}

pub record Porter : Type 0 where
  pub eph : Port
  pub min_eph : Port
  pub ports : Map Port (Unit {0})

abbrev pub new_porter : Port → Porter
new_porter min_eph = record { eph = min_eph; min_eph = min_eph; ports = (0, tt) ∷ [] }

abbrev pub is_free : Port → Porter → Bool
is_free port p = elim (lookup port p.ports) [ none ↦ true | some u ↦ false ]

unfoldable pub reserve : Port → Porter → Porter × Bool
reserve port p =
    if is_free port p then (record p { ports = insert port tt p.ports }, true) else (p, false)

unfoldable pub free_port : Port → Porter → Porter
free_port port p = record p { ports = remove port p.ports }

-- `p.eph++`, and the least port again after the last.
unfoldable pub next_eph : Porter → Porter
next_eph p =
    let e = (p.eph + 1) % 2 ^ 16 in record p { eph = if ltb e p.min_eph then p.min_eph else e }

-- The loop of ReserveEphemeral, for at most as many rounds; `expired n` says whether the context has
-- ended with `n` rounds left. `none`: it still runs.
unfoldable pub reserve_ephemeral : (ℕ → Bool) → ℕ → Porter → Porter × Option (Outcome Port)
reserve_ephemeral expired zero p = (p, none)
reserve_ephemeral expired (suc n) p =
    let p' = next_eph p in
    let rest = reserve_ephemeral expired n p' in
    if is_free p'.eph p'
    then (p', some (ok p'.eph))
    else if expired n
    then (p', some (err deadline_exceeded))
    else rest
