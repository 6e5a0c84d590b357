-- ===== src/Router/RouteManager.antt =====
-- pkg/router/route_manager.go. The callbacks that the router gives to the route manager act on the
-- router's state and on the routing table, so both are the state here.
pub mod Occupy
pub mod Exchange
pub mod SetRules
pub mod Removal
use skywire_mainnet_old.Base.{
  ℕ, zero, suc, Bool, true, false, List, [], ◌∷◌, Option, none, some, Bytes, Outcome, ok, err,
  panic, ℤ, pos, replicate, length, contains, ltb, nat_beq, list_eq, nat_eq, if◌then◌else◌, ◌==◌,
  or_err, unknown_rule, corrupted_rule, unknown_loop, reverse_rule_not_forward, callback_failed,
  malformed_json, unknown_foundation_packet, dial_failed, ◌>>=◌ as ◌&>◌,
}
use skywire_mainnet_old.Base.Step.{Step, ◌>>=◌, ◌>>◌, pure, lift, get, wrapped}
use skywire_mainnet_old.Routing.Addr.{PubKey, RouteId, Loop, LoopData}
use skywire_mainnet_old.Routing.Rule.{
  Rule, rule_app, rule_forward, rule_header_size, rule_type, remote_pk, remote_port, local_port,
  request_route_id, set_route_id, new_forward_rule,
}
use skywire_mainnet_old.Routing.Table.{range_rules}
use skywire_mainnet_old.Router.Managed.{
  Time, ManagedTable, add_rule, find_rule, set_rule, delete_rules,
}
use skywire_mainnet_old.Setup.Json.{Json}
use skywire_mainnet_old.Setup.Protocol.{
  Conn, read_packet, write_packet, add_rules_packet, delete_rules_packet, confirm_loop_packet,
  loop_closed_packet, request_route_id_packet, success_packet, failure_packet,
}

-- DefaultRouteKeepAlive: two hours
abbrev pub default_route_keep_alive : ℤ
default_route_keep_alive = pos 7200000000000

abbrev pub setup_is_trusted : List PubKey → PubKey → Bool
setup_is_trusted setup_pks pk = contains pk setup_pks

-- The first setup node that answers; `dial` is Network.Dial.
unfoldable pub dial_setup_conn : (PubKey → Outcome Conn) → List PubKey → Outcome Conn
dial_setup_conn dial [] = err dial_failed
dial_setup_conn dial (pk ∷ pks) =
    let rest = dial_setup_conn dial pks in
    elim (dial pk) [ ok c ↦ ok c | err e ↦ rest | panic ↦ panic ]

-- The two tests behind the lookup; the nil rule is the empty one.
unfoldable pub checked_rule : Rule → Outcome Rule
checked_rule rule =
    if nat_beq (length rule) 0
    then err unknown_rule
    else if ltb (length rule) rule_header_size
    then err corrupted_rule
    else ok rule

unfoldable pub get_rule : Time → RouteId → Step ManagedTable Rule
get_rule now id = do rule ← find_rule now id; lift (checked_rule rule)

-- rule.RequestRouteID() and SetRule, for one rule after the other.
unfoldable pub set_rules : List Rule → Step ManagedTable (Unit {0})
set_rules [] = pure tt
set_rules (rule ∷ rules) = do id ← lift (request_route_id rule); set_rule id rule; set_rules rules

-- `make([]routing.RouteID, n)` and its loop; `clock n` is the time of the call with n rounds left.
unfoldable pub occupy_ids : (ℕ → Time) → ℕ → Step ManagedTable (List RouteId)
occupy_ids clock zero = pure []
occupy_ids clock (suc n) = do
  rule ← lift (new_forward_rule default_route_keep_alive 0 (replicate 16 0) 0)
  id ← add_rule (clock n) rule
  ids ← occupy_ids clock n
  pure (id ∷ ids)

module _ (unmarshal_pk : Bytes → Option PubKey) where
  -- The condition of both RangeRules calls, whose `||` reads one getter after the other.
  unfoldable pub is_loop_rule : Loop → Rule → Outcome Bool
  is_loop_rule loop rule = rule_type rule &> λ t.
      if nat_beq t rule_app
      then (remote_pk unmarshal_pk rule &> λ pk.
          if pk == loop.remote.pub_key
          then (remote_port rule &> λ rport.
              if nat_beq rport loop.remote.port
              then (local_port rule &> λ lport. ok (nat_beq lport loop.local.port))
              else ok false)
          else ok false)
      else ok false

  unfoldable pub match_rule :
      Loop → RouteId → Rule → Option (RouteId × Rule) → Outcome (Option (RouteId × Rule) × Bool)
  match_rule loop id rule found =
      is_loop_rule loop rule &> λ m. ok (if m then (some (id, rule), false) else (found, true))

  unfoldable pub find_loop_rule : Loop → ManagedTable → Outcome (Option (RouteId × Rule))
  find_loop_rule loop rt = range_rules (match_rule loop) rt.table none

  -- A rule that was found has a type byte, so `len(appRule) == 0` says that none was.
  unfoldable pub delete_found : Option (RouteId × Rule) → Step ManagedTable (Unit {0})
  delete_found none = pure tt
  delete_found (some (id, rule)) = delete_rules (id ∷ [])

  unfoldable pub remove_loop_rule : Loop → Step ManagedTable (Unit {0})
  unfolding delete_found
  remove_loop_rule loop = do rt ← get; found ← lift (find_loop_rule loop rt); delete_found found

pub record RmState (S : Type 0) : Type 0 where
  pub host : S
  pub rt : ManagedTable

module _ {S : Type 0} where
  -- A call on the routing table alone.
  abbrev pub on_table {ℓ} : {A : Type ℓ} → Step ManagedTable A → Step (RmState S) A
  on_table m = λ s. let (rt, r) = m s.rt in (record s { rt = rt }, r)

-- RMConfig's callbacks.
pub record Callbacks (S : Type 0) : Type 0 where
  pub on_confirm_loop : Loop → Rule → Step (RmState S) (Unit {0})
  pub on_loop_closed : Loop → Step (RmState S) (Unit {0})

module _ {S : Type 0} (unmarshal_pk : Bytes → Option PubKey) (json : Json) (callbacks : Callbacks S)
    (clock : ℕ → Time) where
  unfoldable pub set_routing_rules : Bytes → Step (RmState S) (Unit {0})
  set_routing_rules body = do
    rules ← lift (or_err malformed_json (json.unmarshal_rules body))
    on_table (set_rules rules)

  unfoldable pub delete_routing_rules : Bytes → Step (RmState S) (List RouteId)
  delete_routing_rules body = do
    ids ← lift (or_err malformed_json (json.unmarshal_ids body))
    on_table (delete_rules ids)
    pure ids

  -- What ConfirmLoop does with the app rule that it has found.
  unfoldable pub confirm_found : LoopData → RouteId → Rule → Step (RmState S) (Unit {0})
  confirm_found ld id app_rule = do
    rule ← on_table (find_rule (clock 0) ld.route_id)
    t ← lift (rule_type rule)
    if nat_beq t rule_forward then pure tt else lift (err reverse_rule_not_forward)
    wrapped callback_failed (callbacks.on_confirm_loop ld.loop rule)
    app_rule ← lift (set_route_id ld.route_id app_rule)
    on_table (set_rule id app_rule)

  unfoldable pub confirm_or_fail : LoopData → Option (RouteId × Rule) → Step (RmState S) (Unit {0})
  confirm_or_fail ld none = lift (err unknown_loop)
  confirm_or_fail ld (some (id, rule)) = confirm_found ld id rule

  unfoldable pub confirm_loop : Bytes → Step (RmState S) (Unit {0})
  confirm_loop body = do
    ld ← lift (or_err malformed_json (json.unmarshal_loop_data body))
    s ← get
    found ← lift (find_loop_rule unmarshal_pk ld.loop s.rt)
    confirm_or_fail ld found

  unfoldable pub loop_closed : Bytes → Step (RmState S) (Unit {0})
  loop_closed body = do
    ld ← lift (or_err malformed_json (json.unmarshal_loop_data body))
    callbacks.on_loop_closed ld.loop

  unfoldable pub occupy_route_id : Bytes → Step (RmState S) (List RouteId)
  occupy_route_id body = do
    n ← lift (or_err malformed_json (json.unmarshal_count body))
    on_table (occupy_ids clock n)

  -- The switch of handleSetupConn, with the encoded body of the response.
  unfoldable pub handle_setup_packet : ℕ → Bytes → Step (RmState S) Bytes
  handle_setup_packet t body =
      if nat_beq t add_rules_packet
      then (do set_routing_rules body; pure json.marshal_null)
      else if nat_beq t delete_rules_packet
      then (do ids ← delete_routing_rules body; pure (json.marshal_ids ids))
      else if nat_beq t confirm_loop_packet
      then (do confirm_loop body; pure json.marshal_null)
      else if nat_beq t loop_closed_packet
      then (do loop_closed body; pure json.marshal_null)
      else if nat_beq t request_route_id_packet
      then (do ids ← occupy_route_id body; pure (json.marshal_ids ids))
      else lift (err unknown_foundation_packet)

  -- WritePacket, whose error is dropped.
  abbrev pub written_or_not : Conn → Outcome Conn → Conn
  written_or_not c (ok c') = c'
  written_or_not c _ = c

  unfoldable pub respond : Conn → RmState S × Outcome Bytes → RmState S × Conn × Outcome (Unit {0})
  respond c (s, ok body) = (s, written_or_not c (write_packet success_packet body c), ok tt)
  respond c (s, err e) =
      (s, written_or_not c (write_packet failure_packet (json.marshal_message e) c), err e)
  respond c (s, panic) = (s, c, panic)

  -- The connection is closed at the end.
  unfoldable pub handle_setup_conn : Conn → RmState S → RmState S × Conn × Outcome (Unit {0})
  handle_setup_conn c s = elim (read_packet c.at_end c.input) [
    | ok p ↦ respond c (handle_setup_packet p.0 p.1 s)
    | err e ↦ (s, c, err e)
    | panic ↦ (s, c, panic)
  ]

  -- What serveConn does with a connection that it has accepted.
  unfoldable pub serve_conn :
      List PubKey → PubKey → Conn → RmState S → RmState S × Conn × Outcome (Unit {0})
  serve_conn setup_pks remote c s =
      if setup_is_trusted setup_pks remote then handle_setup_conn c s else (s, c, ok tt)
