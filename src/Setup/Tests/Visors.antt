-- ===== src/Setup/Tests/Visors.antt =====
-- Runs of the setup node against its visors.
use skywire_mainnet_old.Base.{
  >>=-eq-ok, All, AllBytes, Bool, Bool-cases, Bytes, Comparable, Distinct, Error, List, Map, Option,
  Option-cases, Outcome, Outcome-cases, [], accept_write_failed, ap, arith, bad_init, bad_signature,
  be_bytes, beq_refl, bind_ok, byte_at, callback_failed, clamp_uint64, closed_pipe, confirm_failed,
  conn_already_exists, contains, contains-append, copy_at, copy_at-end, corrupted_rule,
  deadline_exceeded, dial_failed, drop, drop-append_left, empty_packet, empty_response, eof, err,
  false, flat, flat-append, flat-snoc, from_be, from_be-be_bytes, from_be-inj, get_elem?, gtb,
  if◌then◌else◌, inl, inr, insert, insert-Distinct, invalid_pk_file, invalid_port,
  invalid_remote_signature, invalid_summary, io_failed, leb, leb→le, length, length-append,
  length-be_bytes, length-insert_new, length-remove_present, length-replicate, length-take, le→leb,
  list_beq, list_beq_iff, list_eq, lookup, lookup-insert, lookup-insert_ne, lookup-insert_self,
  lookup-remove, lookup-remove_all, lookup-remove_ne, lookup-remove_self, ltb, ltb→lt, lt→ltb,
  malformed_json, manager_closing, map, maximum_retries_reached, nat_beq, nat_beq_iff, nat_eq,
  negsuc, no_available_route_ids, no_reserved_id, no_route_found, no_routes, no_setup_node,
  nonce_failed, none, not, not_serving, ok, or_err, panic, port_already_bound, port_not_bound, pos,
  put_be, put_be-append, put_field, read_be, read_entry_failed, read_field, read_full,
  read_full-append, read_response_failed, redial_failed, refl, remove, remove-Distinct, remove_all,
  replicate, request_failed, reservation_failed, resp_failure, reverse_rule_not_forward,
  route_setup_failed, rule_not_found, rule_timed_out, rules_failed, settlement_failed,
  settlement_rejected, shortage, sign_failed, slice, slice-append, slice_field, some, sub_ℕ, suc,
  sym, take, take-append-drop, take-append_left, to_int64, transport_failed, transport_not_found,
  true, unexpected_app, unexpected_eof, unexpected_frame, unexpected_version,
  unknown_foundation_packet, unknown_loop, unknown_rule, unknown_transport, unknown_transport_type,
  unsupported_version, write_entry_failed, wrong_entry_edges, wrong_entry_id, wrong_entry_public,
  wrong_entry_type, wrong_network, wrong_number_of_ids, zero, ℕ, ℤ, ◌%◌, ◌&&◌, ◌*◌, ◌++◌, ◌+◌, ◌-◌,
  ◌/◌, ◌<◌, ◌==◌, ◌^◌, ◌||◌, ◌↔◌, ◌∙◌, ◌∷◌, ◌≡◌, ◌≢◌, ◌≤◌, ◌⊎◌,
}
use mathlib.Core.List.{Perm}
use mathlib.Core.List.Perm
use skywire_mainnet_old.Routing.Addr.{PubKey, RouteId}
use skywire_mainnet_old.Routing.Rule.{Rule}
use skywire_mainnet_old.Router.Managed.{Time, ManagedTable}
use skywire_mainnet_old.Routing.Table.{in_memory_routing_table}
use skywire_mainnet_old.Router.RouteManager.{RmState, Callbacks, handle_setup_conn}
use skywire_mainnet_old.Router.RouteManager.Occupy.{ids_after, placeholder}
use skywire_mainnet_old.Router.RouteManager.Exchange.{route_ids_exchange}
use skywire_mainnet_old.Setup.Rules.{IdReservoir, RulesMap, Generated, generate_rules}
use skywire_mainnet_old.Setup.Protocol.{Conn, request_route_ids}
use skywire_mainnet_old.Base
use skywire_mainnet_old.Routing.Rule
use skywire_mainnet_old.Setup.Rules
use skywire_mainnet_old.Setup.Protocol
use skywire_mainnet_old.Setup.Node
use skywire_mainnet_old.Setup.Node.{Log, reserve_route_ids, handle_create_loop}
use skywire_mainnet_old.Setup.Node.Order.{LoopTold, handle_create_loop_order}
use skywire_mainnet_old.Setup.Tests.{
  codec, codec-IsFaithful, answered, descriptor, there, back, key_a, key_b,
}

abbrev parse : Bytes → Option PubKey
parse b = some b

abbrev no_callbacks : Callbacks ℕ
no_callbacks = record {
  on_confirm_loop = λ l rule s. (s, ok tt);
  on_loop_closed = λ l s. (s, ok tt);
}

abbrev clock : ℕ → Time
clock n = 7

abbrev new_visor : RmState ℕ
new_visor = record { host = 0; rt = record { table = in_memory_routing_table; activity = [] } }

route_ids_exchange_example :
    (asked : Bytes) × (given : Bytes) × (rt' : ManagedTable) × (handle_setup_conn parse codec
        no_callbacks clock
        (record { input = asked; at_end = eof; output = [] })
        new_visor
      ≡ (
        record new_visor { rt = rt' },
        record { input = asked; at_end = eof; output = given },
        ok tt,
      ))
    × (request_route_ids codec false 3 (record { input = given; at_end = eof; output = [] })
        ≡ ok (record { input = given; at_end = eof; output = asked }, ids_after 0 3))
    × (rt'.table.next_id ≡ 3)
    × ((j : RouteId)
        → lookup j rt'.table.rules
          ≡ (if contains j (ids_after 0 3) then some placeholder else lookup j []))
route_ids_exchange_example =
    route_ids_exchange parse codec no_callbacks clock codec-IsFaithful 3 (omega arith) new_visor eof
      (omega arith) (omega arith) (omega arith)

-- Every visor answers each request with the same packet, which carries two IDs.
abbrev dial : PubKey → Outcome Conn
dial pk = ok answered

-- The goroutines end in the order of the map.
abbrev as_made : RulesMap → RulesMap
as_made rules = rules

created : (handle_create_loop codec dial false as_made descriptor []).1 ≡ ok tt
unfolding Base.insert Base.list_beq Base.put_be Base.be_bytes Base.copy_at Base.byte_at Base.from_be
    Base.read_be Base.slice Base.lookup Base.read_full Base.shortage Rule.new_app_rule
    Rule.new_forward_rule Rules.reserve_ids Rules.new_id_reservoir Rules.bump Rules.append_rule
    Rules.bump_hops Rules.bump_routes Rules.generate_rules Rules.hops_loop Rules.pop_id
    Rules.pop_list Rules.pop_or_fail Rules.reserve_loop Rules.save_forward_rules
    Protocol.request_route_ids Protocol.write_packet Protocol.packet_bytes
    Protocol.read_and_decode_packet_with_timeout Protocol.read_and_decode_packet
    Protocol.read_packet Protocol.add_rules Protocol.confirm_loop Protocol.ignore_closed_pipe
    Protocol.request Node.handle_create_loop Node.reserve_route_ids Node.reserve_from
    Node.dial_and_create_proto Node.confirm_with Node.send_rules Node.with_visor
    skywire_mainnet_old.Setup.Tests.enc_rules
created = refl

handle_create_loop_order_example :
    (idr : IdReservoir) × (g : Generated) × (sent : RulesMap) × (reserve_route_ids codec dial false
        there back
      ≡ ok idr)
    × (generate_rules idr descriptor ≡ ok g)
    × Perm sent g.rules
    × LoopTold codec dial false sent descriptor g []
        (handle_create_loop codec dial false as_made descriptor []).0
handle_create_loop_order_example =
    handle_create_loop_order codec dial false as_made descriptor []
      (handle_create_loop codec dial false as_made descriptor []).0 (λ rules. Perm.refl rules)
      (ap (λ r. ((handle_create_loop codec dial false as_made descriptor []).0, r)) created)
