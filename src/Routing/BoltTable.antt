-- ===== src/Routing/BoltTable.antt =====
-- pkg/routing/boltdb_routing_table.go: the routing table in a database, of which each method is one
-- transaction.
pub mod Holding
pub mod Agreement
use skywire_mainnet_old.Base.{
  >>=-eq-ok, All, AllBytes, Bool, Bool-cases, Bytes, Comparable, Distinct, Error, List, Map, Option,
  Option-cases, Outcome, Outcome-cases, [], accept_write_failed, ap, arith, bad_init, bad_signature,
  be_bytes, beq_refl, bind_ok, byte_at, callback_failed, clamp_uint64, closed_pipe, confirm_failed,
  conn_already_exists, contains, contains-append, copy_at, copy_at-end, corrupted_rule,
  deadline_exceeded, dial_failed, drop, drop-append_left, empty_packet, empty_response, eof, err,
  false, flat, flat-append, flat-snoc, from_be, from_be-be_bytes, from_be-inj, get_elem?, gtb,
  if◌then◌else◌, inl, inr, insert, insert-Distinct, invalid_pk_file, invalid_port,
  invalid_remote_signature, invalid_summary, io_failed, leb, leb→le, length, length-append,
  length-be_bytes, length-insert_new, length-remove_present, length-replicate, length-take, le→leb,
  list_beq, list_beq_iff, list_eq, lookup, lookup-insert, lookup-insert_ne, lookup-insert_self,
  lookup-remove, lookup-remove_all, lookup-remove_ne, lookup-remove_self, ltb, ltb→lt, lt→ltb,
  malformed_json, manager_closing, map, maximum_retries_reached, nat_beq, nat_beq_iff, nat_eq,
  negsuc, no_available_route_ids, no_reserved_id, no_route_found, no_routes, no_setup_node, none,
  not, not_serving, ok, or_err, panic, port_already_bound, port_not_bound, pos, put_be,
  put_be-append, put_field, read_be, read_entry_failed, read_field, read_full, read_full-append,
  read_response_failed, redial_failed, refl, remove, remove-Distinct, remove_all, replicate,
  request_failed, reservation_failed, resp_failure, reverse_rule_not_forward, route_setup_failed,
  rule_not_found, rule_timed_out, rules_failed, settlement_failed, settlement_rejected, shortage,
  sign_failed, slice, slice-append, slice_field, some, sub_ℕ, suc, sym, take, take-append-drop,
  take-append_left, to_int64, transport_failed, transport_not_found, true, unexpected_app,
  unexpected_eof, unexpected_frame, unexpected_version, unknown_foundation_packet, unknown_loop,
  unknown_rule, unknown_transport, unknown_transport_type, unsupported_version, write_entry_failed,
  wrong_entry_edges, wrong_entry_id, wrong_entry_public, wrong_entry_type, wrong_network,
  wrong_number_of_ids, zero, ℕ, ℤ, ◌%◌, ◌&&◌, ◌*◌, ◌++◌, ◌+◌, ◌-◌, ◌/◌, ◌<◌, ◌==◌, ◌^◌, ◌||◌, ◌↔◌,
  ◌∙◌, ◌∷◌, ◌≡◌, ◌≢◌, ◌≤◌, ◌⊎◌,
}
use skywire_mainnet_old.Base.Step.{Step, ◌>>=◌, ◌>>◌, pure, lift}
use skywire_mainnet_old.Base.Bolt.{Bolt}
use skywire_mainnet_old.Routing.Addr.{RouteId}
use skywire_mainnet_old.Routing.Rule.{Rule}
use skywire_mainnet_old.Routing.Table.{max_uint32}

abbrev pub binary_id : RouteId → Bytes
binary_id id = be_bytes 4 (id % 2 ^ 32)

-- `rule` stays nil when the view fails, and with it the rule is reported as missing.
unfoldable pub found_rule : Outcome (Option Rule) → Outcome Rule
found_rule (ok (some rule)) = ok rule
found_rule (ok none) = err rule_not_found
found_rule (err e) = err rule_not_found
found_rule panic = panic

-- A log line is all that is left of an error of ForEach.
unfoldable pub walk :
    {S : Type 0} → (RouteId → Rule → Step S Bool) → List (Bytes × Bytes) → Step S (Unit {0})
walk f [] = pure tt
walk f ((k, v) ∷ rest) = do
  id ← lift (read_be 0 4 k)
  next ← f id v
  if next then walk f rest else pure tt

module _ {B : Type 0} (db : Bolt B) where
  unfoldable pub take_id : Rule → ℕ → Step B RouteId
  take_id rule id =
      if ltb max_uint32 id
      then lift (err no_available_route_ids)
      else (do db.put (binary_id id) rule; pure id)

  unfoldable pub add_rule : Rule → Step B RouteId
  unfolding take_id
  add_rule rule = db.update (do id ← db.next_sequence; take_id rule id)

  unfoldable pub set_rule : RouteId → Rule → Step B (Unit {0})
  set_rule id rule = db.update (db.put (binary_id id) rule)

  unfoldable pub find_rule : RouteId → B → Outcome Rule
  unfolding found_rule
  find_rule id b = found_rule (db.view (λ b'. ok (db.get (binary_id id) b')) b)

  unfoldable pub range_rules :
      {S : Type 0} → (RouteId → Rule → Step S Bool) → S → B → Outcome (S × Outcome (Unit {0}))
  unfolding walk
  range_rules f s = db.view (λ b. ok (walk f (db.entries b) s))

  abbrev pub with_found : Option Rule → List Rule → List Rule
  with_found none rules = rules
  with_found (some rule) rules = rule ∷ rules

  unfoldable pub rules_of : List RouteId → B → List Rule
  rules_of [] b = []
  rules_of (id ∷ ids) b = with_found (db.get (binary_id id) b) (rules_of ids b)

  unfoldable pub rules : List RouteId → B → Outcome (List Rule)
  unfolding rules_of
  rules ids b = db.view (λ b'. ok (rules_of ids b')) b

  -- `failed` is the error so far. The loop goes on after one.
  abbrev pub go_on :
      (Outcome (Unit {0}) → Step B (Unit {0}))
      → Outcome (Unit {0})
      → B × Outcome (Unit {0})
      → B × Outcome (Unit {0})
  go_on rest failed (b, ok u) = rest failed b
  go_on rest failed (b, err e) = rest (err e) b
  go_on rest failed (b, panic) = (b, panic)

  unfoldable pub delete_each : List RouteId → Outcome (Unit {0}) → Step B (Unit {0})
  delete_each [] failed b = (b, failed)
  delete_each (id ∷ ids) failed b = go_on (delete_each ids) failed (db.delete (binary_id id) b)

  unfoldable pub delete_rules : List RouteId → Step B (Unit {0})
  unfolding delete_each
  delete_rules ids = db.update (delete_each ids (ok tt))

  or_zero : Outcome ℕ → ℕ
  or_zero (ok n) = n
  or_zero (err e) = 0
  or_zero panic = 0

  unfoldable pub count : B → ℕ
  unfolding or_zero
  count b = or_zero (db.view (λ b'. ok (db.key_n b')) b)
