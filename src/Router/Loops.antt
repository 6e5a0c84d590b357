-- ===== src/Router/Loops.antt =====
-- pkg/router/router.go: how a visor makes and ends loops.
pub mod Confirm
pub mod Request
use skywire_mainnet_old.Base.{
  List, [], ◌∷◌, Option, Bytes, Outcome, ok, err, panic, replicate, contains, list_eq, nat_eq,
  if◌then◌else◌, ◌==◌, route_setup_failed, no_route_found, callback_failed,
}
use skywire_mainnet_old.Base.Step.{Step, ◌>>=◌, ◌>>◌, pure, lift, wrapped, logged}
use skywire_mainnet_old.Routing.Addr.{Addr, PubKey, Route, Loop, LoopDescriptor}
use skywire_mainnet_old.Routing.Rule.{Rule, route_id, transport_id}
use skywire_mainnet_old.Router.Ports.{
  ConnId, LoopEntry, close_port, get_bind, set_loop, remove_loop,
}
use skywire_mainnet_old.Router.RouteManager.{
  Callbacks, on_table, remove_loop_rule, dial_setup_conn, default_route_keep_alive,
}
use skywire_mainnet_old.Setup.Json.{Json}
use skywire_mainnet_old.Setup.Protocol.{create_loop, close_loop}
use skywire_mainnet_old.Router.State.{
  frame_confirm_loop, frame_close, Router, Outside, State, on_ports, from_ports, alloc_port,
  send_frame,
}

-- `routes[0]`
unfoldable pub first_route : List Route → Outcome Route
first_route [] = panic
first_route (r ∷ rs) = ok r

unfoldable pub first_pair : List Route × List Route → Outcome (Route × Route)
first_pair (fwd, rev) = elim (first_route fwd) [
  | ok f ↦ elim (first_route rev) [ ok r ↦ ok (f, r) | err e ↦ err e | panic ↦ panic ]
  | err e ↦ err e
  | panic ↦ panic
]

-- The `goto` of fetchBestRoutes: an error is returned when the timer has fired.
unfoldable pub fetch_best_routes :
    Outcome (List Route × List Route)
    → List (Outcome (List Route × List Route))
    → Outcome (Route × Route)
fetch_best_routes (ok routes) more = first_pair routes
fetch_best_routes (err e) [] = err e
fetch_best_routes (err e) (r ∷ more) = fetch_best_routes r more
fetch_best_routes panic more = panic

module _ (unmarshal_pk : Bytes → Option PubKey) (json : Json) (outside : Outside) (own_key : PubKey)
    (setup_nodes : List PubKey) where
  unfoldable pub confirm_local_loop : Addr → Addr → Step State (Unit {0})
  confirm_local_loop laddr raddr = do
    b ← from_ports (get_bind raddr.port)
    send_frame outside b.conn (frame_confirm_loop raddr laddr)

  -- `&loop{}`: the zero transport ID and route ID
  abbrev pub zero_entry : LoopEntry
  zero_entry = record { tr_id = replicate 16 0; route_id = 0 }

  -- CreateLoop on a new connection to a setup node, which is then closed.
  unfoldable pub set_up_loop : LoopDescriptor → Outcome (Unit {0})
  set_up_loop ld = elim (dial_setup_conn outside.dial setup_nodes) [
    | ok c ↦ elim (create_loop json outside.expired ld c) [
      | ok r ↦ ok tt
      | err e ↦ err route_setup_failed
      | panic ↦ panic
    ]
    | err e ↦ err e
    | panic ↦ panic
  ]

  unfoldable pub request_loop : ConnId → Addr → Step State Addr
  request_loop conn raddr = do
    lport ← alloc_port conn
    on_ports (set_loop lport raddr zero_entry)
    let laddr : Addr = record { pub_key = own_key; port = lport }
    if raddr.pub_key == own_key
        then (do wrapped callback_failed (confirm_local_loop laddr raddr); pure laddr)
        else (do
          routes ← wrapped no_route_found (
              lift (
                fetch_best_routes (outside.first_routes own_key raddr.pub_key)
                  (outside.more_routes own_key raddr.pub_key)))
          lift (
              set_up_loop (record {
                loop = record { local = laddr; remote = raddr };
                forward = routes.0;
                reverse = routes.1;
                keep_alive = default_route_keep_alive;
              }))
          pure laddr)

  -- An app that cannot be told of the loop is no error.
  unfoldable pub confirm_loop : Loop → Rule → Step State (Unit {0})
  confirm_loop l rule = do
    b ← from_ports (get_bind l.local.port)
    tid ← lift (transport_id rule)
    rid ← lift (route_id rule)
    on_ports (set_loop l.local.port l.remote (record { tr_id = tid; route_id = rid }))
    logged (
        send_frame outside b.conn
          (frame_confirm_loop (record { pub_key = own_key; port = l.local.port }) l.remote))

  -- A port that ServeApp opened keeps its bind.
  unfoldable pub drop_loop : Loop → Step State (Unit {0})
  drop_loop loop = λ s.
      if contains loop.local.port s.host.static_ports
      then logged (on_ports (remove_loop loop.local.port loop.remote)) s
      else (
        record s { host = record (s.host) { pm = (close_port loop.local.port s.host.pm).0 } },
        ok tt,
      )

  unfoldable pub destroy_loop : Loop → Step State (Unit {0})
  destroy_loop loop = do drop_loop loop; on_table (remove_loop_rule unmarshal_pk loop)

  unfoldable pub take_down_loop : Loop → Outcome (Unit {0})
  take_down_loop loop = elim (dial_setup_conn outside.dial setup_nodes) [
    | ok c ↦ elim (close_loop json outside.expired (record { loop = loop; route_id = 0 }) c) [
      | ok r ↦ ok tt
      | err e ↦ err route_setup_failed
      | panic ↦ panic
    ]
    | err e ↦ err e
    | panic ↦ panic
  ]

  unfoldable pub close_app_loop : Loop → Step State (Unit {0})
  close_app_loop loop = do logged (destroy_loop loop); lift (take_down_loop loop)

  unfoldable pub loop_closed : Loop → Step State (Unit {0})
  loop_closed loop = λ s. elim (get_bind loop.local.port s.host.pm) [
    | ok b ↦ (do logged (destroy_loop loop); send_frame outside b.conn (frame_close loop)) s
    | err e ↦ (s, ok tt)
    | panic ↦ (s, panic)
  ]

  -- What New gives to the route manager.
  abbrev pub callbacks : Callbacks Router
  callbacks = record { on_confirm_loop = confirm_loop; on_loop_closed = loop_closed }
