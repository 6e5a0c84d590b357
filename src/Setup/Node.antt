-- ===== src/Setup/Node.antt =====
-- pkg/setup/node.go: the setup node. A dialled connection is what the visor will answer; what was
-- written in each successful AddRules, ConfirmLoop and LoopClosed is kept in the state, the last first.
-- The goroutines of handleCreateLoop talk to different visors, share nothing but the channel of their
-- results, and are all waited for. `order` is the order in which they end, which can be any.
pub mod Order
use skywire_mainnet_old.Base.{
  ℕ, Bool, List, [], ◌∷◌, Bytes, Outcome, ok, err, panic, nat_beq, if◌then◌else◌, or_err,
  transport_failed, rules_failed, confirm_failed, malformed_json, unknown_foundation_packet,
}
use skywire_mainnet_old.Base.Step.{Step, ◌>>=◌, ◌>>◌, lift, renamed, wrapped}
use skywire_mainnet_old.Routing.Addr.{PubKey, RouteId, Route, LoopData, LoopDescriptor}
use skywire_mainnet_old.Setup.Rules.{
  IdReservoir, RulesMap, new_id_reservoir, reserve_ids, generate_rules,
}
use skywire_mainnet_old.Setup.Json.{Json}
use skywire_mainnet_old.Setup.Protocol.{
  Conn, read_packet, write_packet, request_route_ids, add_rules, confirm_loop, loop_closed,
  create_loop_packet, close_loop_packet, success_packet, failure_packet,
}

-- What has been written, to whom.
abbrev pub Log : Type 0
Log = List (PubKey × Bytes)

-- What a call on a connection leaves in the log.
abbrev pub logged_call {ℓ} : {A : Type ℓ} → PubKey → Outcome (Conn × A) → Step Log A
logged_call pk (ok (c, a)) = λ log. ((pk, c.output) ∷ log, ok a)
logged_call pk (err e) = λ log. (log, err e)
logged_call pk panic = λ log. (log, panic)

module _ (json : Json) (dial : PubKey → Outcome Conn) (expired : Bool) where
  unfoldable pub dial_and_create_proto : PubKey → Outcome Conn
  dial_and_create_proto pk = renamed transport_failed (dial pk)

  -- A request to one visor, on a connection of its own.
  unfoldable pub with_visor {ℓ} : {A : Type ℓ} → PubKey → (Conn → Outcome (Conn × A)) → Step Log A
  with_visor pk call = do c ← lift (dial_and_create_proto pk); logged_call pk (call c)

  -- The function that reserveRouteIDs hands to ReserveIDs.
  unfoldable pub reserve_from : PubKey → ℕ → Outcome (List RouteId)
  reserve_from pk n = elim (dial_and_create_proto pk) [
    | ok c ↦ elim (request_route_ids json expired n c) [
      | ok r ↦ ok (r.1)
      | err e ↦ err e
      | panic ↦ panic
    ]
    | err e ↦ err e
    | panic ↦ panic
  ]

  unfoldable pub reserve_route_ids : Route → Route → Outcome IdReservoir
  reserve_route_ids fwd rev =
      let (idr, r) = reserve_ids reserve_from (new_id_reservoir (fwd ∷ rev ∷ [])).0 in
      elim r [ ok u ↦ ok idr | err e ↦ err e | panic ↦ panic ]

  -- Every visor is sent its rules, whatever became of the others; `failed` is finalError's error.
  unfoldable pub send_rules : RulesMap → Outcome (Unit {0}) → Step Log (Unit {0})
  send_rules [] failed = lift failed
  send_rules ((pk, rules) ∷ rest) failed = λ log.
      let (log', r) = with_visor pk (add_rules json expired rules) log in
      elim r [
        | ok u ↦ send_rules rest failed log'
        | err e ↦ send_rules rest (err rules_failed) log'
        | panic ↦ (log', panic)
      ]

  unfoldable pub confirm_with : PubKey → LoopData → Step Log (Unit {0})
  confirm_with pk ld = wrapped confirm_failed (with_visor pk (confirm_loop json expired ld))

  unfoldable pub handle_close_loop : PubKey → LoopData → Step Log (Unit {0})
  handle_close_loop on ld = with_visor on (loop_closed json expired ld)

  -- The response is written whatever the outcome, unless the handler panics.
  unfoldable pub answer : Conn → Log × Outcome (Unit {0}) → Log × Outcome Conn
  answer c (log, ok u) = (log, write_packet success_packet json.marshal_null c)
  answer c (log, err e) = (log, write_packet failure_packet (json.marshal_message e) c)
  answer c (log, panic) = (log, panic)

  module _ (order : RulesMap → RulesMap) where
    unfoldable pub handle_create_loop : LoopDescriptor → Step Log (Unit {0})
    handle_create_loop ld = do
      let src = ld.loop.local
      let dst = ld.loop.remote
      idr ← lift (reserve_route_ids ld.forward ld.reverse)
      g ← lift (generate_rules idr ld)
      send_rules (order g.rules) (ok tt)
      confirm_with dst.pub_key
          (record { loop = record { local = dst; remote = src }; route_id = g.dst_fwd_id })
      confirm_with src.pub_key
          (record { loop = record { local = src; remote = dst }; route_id = g.src_fwd_id })

    unfoldable pub handle_setup_request : ℕ → Bytes → Step Log (Unit {0})
    handle_setup_request t body =
        if nat_beq t create_loop_packet
        then (do
          ld ← lift (or_err malformed_json (json.unmarshal_descriptor body))
          handle_create_loop ld)
        else if nat_beq t close_loop_packet
        then (do
          ld ← lift (or_err malformed_json (json.unmarshal_loop_data body))
          handle_close_loop ld.loop.remote.pub_key (record {
            loop = record { local = ld.loop.remote; remote = ld.loop.local };
            route_id = 0;
          }))
        else lift (err unknown_foundation_packet)

    unfoldable pub handle_request : Conn → Log → Log × Outcome Conn
    handle_request c log = elim (read_packet c.at_end c.input) [
      | ok p ↦ answer c (handle_setup_request p.0 p.1 log)
      | err e ↦ (log, err e)
      | panic ↦ (log, panic)
    ]
