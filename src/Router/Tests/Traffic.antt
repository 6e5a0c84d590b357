-- ===== src/Router/Tests/Traffic.antt =====
-- Runs of the router at concrete inputs.
use skywire_mainnet_old.Base.{
  ℕ, ◌+◌, ◌^◌, ◌<◌, ◌≡◌, refl, ap, true, false, Bytes, List, [], ◌∷◌, ◌++◌, Outcome, ok, err,
  Option, none, some, replicate, lookup, arith, if◌then◌else◌, nat_beq, nat_eq, length, Error,
  dial_failed, no_route_found, read_be, slice, pos,
}
use skywire_mainnet_old.Routing.Addr.{LoopData, PubKey, RouteId}
use skywire_mainnet_old.Routing.Rule.{
  Rule, rule_app, rule_forward, keep_alive, rule_type, route_id, transport_id, local_port,
  remote_port, remote_pk, set_route_id,
}
use skywire_mainnet_old.Routing.Packet.{Packet, make_packet}
use skywire_mainnet_old.Routing.Table
use skywire_mainnet_old.Router.Ports.{PortBind, PortList, alloc, get_port, get_loop}
use skywire_mainnet_old.Router.Managed.Window.{IsActive, touched}
use skywire_mainnet_old.Router.RouteManager
use skywire_mainnet_old.Router.RouteManager.{RmState}
use skywire_mainnet_old.Router.State.{Outside, State}
use skywire_mainnet_old.Router.Packets.{handle_packet}
use skywire_mainnet_old.Router.Packets.Handling.{
  IsUsable, app_frame, handle_packet_forwards, handle_packet_consumes,
}
use skywire_mainnet_old.Router.Loops.{request_loop, fetch_best_routes, callbacks}
use skywire_mainnet_old.Router.Loops.Confirm.{told, IsConfirmable, confirm_loop_confirms}
use skywire_mainnet_old.Router.Loops.Request.{request_loop_leaks}
use skywire_mainnet_old.Router.Tests.{far, bind}
use skywire_mainnet_old.Router.Tests.Requests.{clock, parse, app_rule, loop}
use skywire_mainnet_old.Setup.Json.{Json}

-- Route 4, which goes on as route 7 over the transport of sevens.
abbrev forward_rule : Rule
forward_rule =
    (0 ∷ 0 ∷ 0 ∷ 0 ∷ 0 ∷ 0 ∷ 0 ∷ 5 ∷ 1 ∷ 0 ∷ 0 ∷ 0 ∷ 7 ∷ [])
    ++ (replicate 16 7 ++ (replicate 21 0 ++ (0 ∷ 0 ∷ 0 ∷ 4 ∷ [])))

abbrev visor : State
visor = record {
  host = record {
    pm = record { min_port = 65534; ports = (3, bind) ∷ [] };
    static_ports = [];
    sent = [];
    forwarded = [];
  };
  rt = record {
    table = record { next_id = 10; rules = (4, forward_rule) ∷ (9, app_rule) ∷ [] };
    activity = (4, 100) ∷ (9, 100) ∷ [];
  };
}

abbrev pub outside : Outside
outside = record {
  send = λ conn frame. ok tt;
  has_transport = λ tid. true;
  write_transport = λ tid rid pay. ok tt;
  dial = λ pk. err dial_failed;
  expired = false;
  first_routes = λ a b. err no_route_found;
  more_routes = λ a b. [];
}

abbrev pub own_key : PubKey
own_key = replicate 33 1

abbrev confirm_data : LoopData
confirm_data = record { loop = loop; route_id = 4 }

-- A decoder that reads this one body.
abbrev json : Json
json = record {
  marshal_count = λ n. [];
  unmarshal_count = λ b. none;
  marshal_ids = λ ids. [];
  unmarshal_ids = λ b. none;
  marshal_rules = λ rules. [];
  unmarshal_rules = λ b. none;
  marshal_loop_data = λ ld. [];
  unmarshal_loop_data = λ b. some confirm_data;
  marshal_descriptor = λ ld. [];
  unmarshal_descriptor = λ b. none;
  marshal_null = [];
  marshal_message = λ e. [];
}

forward_rule-alive : keep_alive forward_rule ≡ ok (pos 5)
unfolding keep_alive skywire_mainnet_old.Base.read_be skywire_mainnet_old.Base.slice
    skywire_mainnet_old.Base.from_be
forward_rule-alive = refl

forward_rule-type : rule_type forward_rule ≡ ok rule_forward
unfolding rule_type skywire_mainnet_old.Base.byte_at
forward_rule-type = refl

forward_rule-transport : transport_id forward_rule ≡ ok (replicate 16 7)
unfolding transport_id rule_type skywire_mainnet_old.Base.byte_at skywire_mainnet_old.Base.slice
forward_rule-transport = refl

forward_rule-route : route_id forward_rule ≡ ok 7
unfolding route_id skywire_mainnet_old.Base.read_be skywire_mainnet_old.Base.slice
    skywire_mainnet_old.Base.from_be
forward_rule-route = refl

forward-IsActive : IsActive visor.rt 4 forward_rule 100 5
forward-IsActive = record {
  stored = unfold Table.find_rule lookup in refl;
  used = unfold lookup in refl;
  kept = forward_rule-alive;
}

forward-IsUsable : IsUsable visor.rt 104 4 forward_rule
forward-IsUsable = record {
  last = 100;
  kept = 5;
  active = forward-IsActive;
  past = omega arith;
  in_time = omega arith;
  long = omega arith;
}

handle_packet_forwards_example :
    (p : Packet) × (make_packet 4 (1 ∷ 2 ∷ []) ≡ ok p)
    × (handle_packet parse outside own_key 104 p visor ≡ (
      record visor {
        rt = touched visor.rt 4 104;
        host = record (visor.host) { forwarded = (replicate 16 7, 7, 1 ∷ 2 ∷ []) ∷ [] };
      },
      ok tt,
    ))
handle_packet_forwards_example =
    handle_packet_forwards parse outside own_key visor 104 4 forward_rule (1 ∷ 2 ∷ [])
      (replicate 16 7) 7 (omega arith) (omega arith) forward-IsUsable forward_rule-type
      forward_rule-transport forward_rule-route refl

app_rule-alive : keep_alive app_rule ≡ ok (pos 5)
unfolding keep_alive skywire_mainnet_old.Base.read_be skywire_mainnet_old.Base.slice
    skywire_mainnet_old.Base.from_be
app_rule-alive = refl

app_rule-type : rule_type app_rule ≡ ok rule_app
unfolding rule_type skywire_mainnet_old.Base.byte_at
app_rule-type = refl

app_rule-local : local_port app_rule ≡ ok 3
unfolding local_port rule_type skywire_mainnet_old.Base.byte_at skywire_mainnet_old.Base.read_be
    skywire_mainnet_old.Base.slice skywire_mainnet_old.Base.from_be
app_rule-local = refl

app_rule-remote : remote_port app_rule ≡ ok 80
unfolding remote_port rule_type skywire_mainnet_old.Base.byte_at skywire_mainnet_old.Base.read_be
    skywire_mainnet_old.Base.slice skywire_mainnet_old.Base.from_be
app_rule-remote = refl

app_rule-key : remote_pk parse app_rule ≡ ok (replicate 33 2)
unfolding remote_pk rule_type skywire_mainnet_old.Base.byte_at skywire_mainnet_old.Base.slice
app_rule-key = refl

app-IsUsable : IsUsable visor.rt 104 9 app_rule
app-IsUsable = record {
  last = 100;
  kept = 5;
  active = record {
    stored = unfold Table.find_rule lookup in refl;
    used = unfold lookup in refl;
    kept = app_rule-alive;
  };
  past = omega arith;
  in_time = omega arith;
  long = omega arith;
}

handle_packet_consumes_example :
    (p : Packet) × (make_packet 9 (1 ∷ 2 ∷ []) ≡ ok p)
    × (handle_packet parse outside own_key 104 p visor ≡ (
      record visor {
        rt = touched visor.rt 9 104;
        host = record (visor.host) {
          sent = (1, app_frame (1 ∷ 2 ∷ []) 3 (replicate 33 2) 80) ∷ [];
        };
      },
      ok tt,
    ))
handle_packet_consumes_example =
    handle_packet_consumes parse outside own_key visor 104 9 app_rule (1 ∷ 2 ∷ []) 3 80
      (replicate 33 2) bind (omega arith) (omega arith) app-IsUsable app_rule-type app_rule-local
      app_rule-key app_rule-remote (unfold get_port lookup in refl)

-- The app rule with route 4.
abbrev renumbered : Rule
renumbered =
    (0 ∷ 0 ∷ 0 ∷ 0 ∷ 0 ∷ 0 ∷ 0 ∷ 5 ∷ 0 ∷ 0 ∷ 0 ∷ 0 ∷ 4 ∷ [])
    ++ (replicate 33 2 ++ (0 ∷ 80 ∷ 0 ∷ 3 ∷ 0 ∷ 0 ∷ 0 ∷ 9 ∷ []))

visor-IsConfirmable :
    IsConfirmable parse 104 visor confirm_data 9 app_rule forward_rule bind
      (record { tr_id = replicate 16 7; route_id = 7 })
unfolding RouteManager.find_loop_rule Table.range_rules RouteManager.match_rule
    RouteManager.is_loop_rule rule_type skywire_mainnet_old.Base.byte_at remote_pk slice
    skywire_mainnet_old.Base.list_beq remote_port read_be skywire_mainnet_old.Base.from_be
    local_port
visor-IsConfirmable = record {
  last = 100;
  kept = 5;
  found = refl;
  active = forward-IsActive;
  past = omega arith;
  in_time = omega arith;
  forward = forward_rule-type;
  tid = forward_rule-transport;
  rid = forward_rule-route;
  bound = unfold get_port lookup in refl;
}

app_rule-renumbered : set_route_id 4 app_rule ≡ ok renumbered
unfolding set_route_id skywire_mainnet_old.Base.put_be skywire_mainnet_old.Base.be_bytes
app_rule-renumbered = refl

confirm_loop_confirms_example :
    (s' : State) × (RouteManager.confirm_loop parse json
        (callbacks parse json outside own_key [])
        clock
        []
        visor
      ≡ (s', ok tt))
    × (get_loop 3 far s'.host.pm ≡ ok (record { tr_id = replicate 16 7; route_id = 7 }))
    × (s'.host.sent ≡ (1, told parse json outside own_key [] loop) ∷ [])
    × ((j : RouteId)
        → lookup j s'.rt.table.rules
          ≡ (if nat_beq 9 j then some renumbered else lookup j visor.rt.table.rules))
confirm_loop_confirms_example =
    confirm_loop_confirms parse json outside own_key [] clock [] visor confirm_data 9 app_rule
      forward_rule renumbered bind (record { tr_id = replicate 16 7; route_id = 7 }) refl
      visor-IsConfirmable app_rule-renumbered refl

abbrev with_port : PortList
with_port = record {
  min_port = 65534;
  ports = (3, bind) ∷ (65534, record { conn = 6; loops = [] }) ∷ [];
}

port-allocated : alloc 6 visor.host.pm ≡ ok (65534, with_port)
unfolding alloc skywire_mainnet_old.Router.Ports.add_port skywire_mainnet_old.Router.Ports.add_from
    lookup skywire_mainnet_old.Base.insert
port-allocated = refl

request_loop_leaks_example :
    (s' : State) × (request_loop parse json outside own_key [] 6 far visor
      ≡ (s', err no_route_found))
    × (get_loop 65534 far s'.host.pm ≡ ok (record { tr_id = replicate 16 0; route_id = 0 }))
request_loop_leaks_example =
    request_loop_leaks parse json outside own_key [] 6 far visor 65534 with_port
      (record { conn = 6; loops = [] }) no_route_found port-allocated
      (unfold get_port lookup in refl) (unfold skywire_mainnet_old.Base.list_beq in refl)
      (unfold fetch_best_routes in refl)
