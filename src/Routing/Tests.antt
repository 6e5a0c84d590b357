-- ===== src/Routing/Tests.antt =====
-- Runs of pkg/routing at concrete inputs.
use skywire_mainnet_old.Base.{
  >>=-eq-ok, All, AllBytes, Bool, Bool-cases, Bytes, Comparable, Distinct, Error, List, Map, Option,
  Option-cases, Outcome, Outcome-cases, [], accept_write_failed, ap, arith, bad_init, bad_signature,
  be_bytes, beq_refl, bind_ok, byte_at, callback_failed, clamp_uint64, closed_pipe, confirm_failed,
  conn_already_exists, contains, contains-append, copy_at, copy_at-end, corrupted_rule,
  deadline_exceeded, dial_failed, drop, drop-append_left, empty_packet, empty_response, eof, err,
  false, flat, flat-append, flat-snoc, from_be, from_be-be_bytes, from_be-inj, get_elem?, gtb,
  if◌then◌else◌, inl, inr, insert, insert-Distinct, invalid_pk_file, invalid_port,
  invalid_remote_signature, invalid_summary, io_failed, leb, leb→le, length, length-append,
  length-be_bytes, length-insert_new, length-remove_present, length-replicate, length-take, le→leb,
  list_beq, list_beq_iff, list_eq, lookup, lookup-insert, lookup-insert_ne, lookup-insert_self,
  lookup-remove, lookup-remove_all, lookup-remove_ne, lookup-remove_self, ltb, ltb→lt, lt→ltb,
  malformed_json, manager_closing, map, maximum_retries_reached, nat_beq, nat_beq_iff, nat_eq,
  negsuc, no_available_route_ids, no_reserved_id, no_route_found, no_routes, no_setup_node, none,
  not, not_serving, ok, or_err, panic, port_already_bound, port_not_bound, pos, put_be,
  put_be-append, put_field, read_be, read_entry_failed, read_field, read_full, read_full-append,
  read_response_failed, redial_failed, refl, remove, remove-Distinct, remove_all, replicate,
  request_failed, reservation_failed, resp_failure, reverse_rule_not_forward, route_setup_failed,
  rule_not_found, rule_timed_out, rules_failed, settlement_failed, settlement_rejected, shortage,
  sign_failed, slice, slice-append, slice_field, some, sub_ℕ, suc, sym, take, take-append-drop,
  take-append_left, to_int64, transport_failed, transport_not_found, true, unexpected_app,
  unexpected_eof, unexpected_frame, unexpected_version, unknown_foundation_packet, unknown_loop,
  unknown_rule, unknown_transport, unknown_transport_type, unsupported_version, write_entry_failed,
  wrong_entry_edges, wrong_entry_id, wrong_entry_public, wrong_entry_type, wrong_network,
  wrong_number_of_ids, zero, ℕ, ℤ, ◌%◌, ◌&&◌, ◌*◌, ◌++◌, ◌+◌, ◌-◌, ◌/◌, ◌<◌, ◌==◌, ◌>>=◌, ◌>>◌, ◌^◌,
  ◌||◌, ◌↔◌, ◌∙◌, ◌∷◌, ◌≡◌, ◌≢◌, ◌≤◌, ◌⊎◌,
}
use skywire_mainnet_old.Base.Bolt.Memory.{Memory, memory, memory-IsBolt}
use skywire_mainnet_old.Routing.BoltTable
use skywire_mainnet_old.Routing.Table
use skywire_mainnet_old.Routing.BoltTable.{binary_id}
use skywire_mainnet_old.Routing.BoltTable.Holding.{Holds, Agrees, binary_id_beq}
use skywire_mainnet_old.Routing.BoltTable.Agreement.{AddsOrFull, FindsOrFails, bolt_table-Agrees}
use skywire_mainnet_old.Routing.Addr.{PubKey, RouteId}
use skywire_mainnet_old.Routing.Rule.{
  Rule, RuleAppFields, RuleForwardFields, new_app_rule, keep_alive, rule_type, request_route_id,
  route_id,
}
use skywire_mainnet_old.Routing.Rule.ReadBack.{ReadsApp, new_app_rule-ReadsApp}
use skywire_mainnet_old.Routing.Table.{Table, add_rule, count, in_memory_routing_table}
use skywire_mainnet_old.Routing.Table.History.{Reach, new, call, add, apply, add_rule_fresh}

abbrev key : PubKey
key = replicate 33 2

abbrev uuid : Bytes
uuid = replicate 16 7

abbrev parse : Bytes → Option PubKey
parse b = some b

new_app_rule-ReadsApp_example :
    (r : Rule) × (new_app_rule (pos 60) 1 2 key 3 4 ≡ ok r) × ReadsApp parse r (pos 60) 1 2 key 3 4
new_app_rule-ReadsApp_example =
    new_app_rule-ReadsApp parse (pos 60) 1 2 key 3 4 refl refl (omega arith) (omega arith)
      (omega arith) (omega arith) (omega arith)

abbrev app_side : RuleAppFields
app_side = record { resp_rid = 2; remote_pk = key; remote_port = 4; local_port = 3 }

abbrev forward_side : RuleForwardFields
forward_side = record { next_rid = 5; next_tid = uuid }

-- A rule of 54 bytes, all of them 2.
abbrev odd_rule : Rule
odd_rule = replicate 54 2

odd_alive : keep_alive odd_rule ≡ ok (pos 144680345676153346)
unfolding keep_alive read_be slice skywire_mainnet_old.Base.from_be
odd_alive = refl

odd_type : rule_type odd_rule ≡ ok 2
unfolding rule_type byte_at
odd_type = refl

odd_request : request_route_id odd_rule ≡ ok 33686018
unfolding request_route_id read_be slice skywire_mainnet_old.Base.from_be
odd_request = refl

odd_route : route_id odd_rule ≡ ok 33686018
unfolding route_id read_be slice skywire_mainnet_old.Base.from_be
odd_route = refl

abbrev added : Table
added = apply (add odd_rule) in_memory_routing_table

added-Reach : Reach added
added-Reach = call (add odd_rule) new tt (omega arith)

add_rule_fresh_example :
    (id : RouteId) × ((add_rule (9 ∷ []) added).1 ≡ ok id)
    × (lookup id added.rules ≡ none)
    × (count (add_rule (9 ∷ []) added).0 ≡ count added + 1)
add_rule_fresh_example = add_rule_fresh (9 ∷ []) added-Reach room
  where
    room : added.next_id + 1 < 2 ^ 32
    room = unfold apply add_rule in omega arith

abbrev full : Table
full = record { next_id = 2 ^ 32 - 1; rules = (0, odd_rule) ∷ [] }

-- The database and the table in memory after AddRule of a rule and of another.
abbrev stored : Memory
stored = record { counter = 2; held = (binary_id 1, 5 ∷ []) ∷ (binary_id 2, 6 ∷ []) ∷ [] }

abbrev same_table : Table
same_table = record { next_id = 2; rules = (1, 5 ∷ []) ∷ (2, 6 ∷ []) ∷ [] }

stored-Holds : Holds memory (λ b. b.counter) (λ e. ⊥) memory-IsBolt stored same_table
unfolding lookup
stored-Holds = record {
  counts = refl;
  has = λ id small.
      rw (binary_id_beq 1 id (omega arith) small, binary_id_beq 2 id (omega arith) small) refl;
}

bolt_table-Agrees_example :
    AddsOrFull memory (λ b. b.counter) (λ e. ⊥) memory-IsBolt (7 ∷ []) stored same_table
    × Agrees memory
        (λ b. b.counter)
        (λ e. ⊥)
        memory-IsBolt
        stored
        (BoltTable.set_rule memory 2 (7 ∷ []) stored)
        (Table.set_rule 2 (7 ∷ []) same_table)
    × Agrees memory
        (λ b. b.counter)
        (λ e. ⊥)
        memory-IsBolt
        stored
        (BoltTable.delete_rules memory (1 ∷ []) stored)
        (Table.delete_rules (1 ∷ []) same_table)
    × FindsOrFails memory (λ b. b.counter) (λ e. ⊥) memory-IsBolt 2 stored same_table
bolt_table-Agrees_example =
    bolt_table-Agrees memory (λ b. b.counter) (λ e. ⊥) memory-IsBolt (7 ∷ []) 2 (1 ∷ []) stored
      same_table (omega arith) ((omega arith), tt) stored-Holds
