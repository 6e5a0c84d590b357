-- ===== src/Router/Loops/Confirm.antt =====
-- ConfirmLoop at a visor: confirmLoop of route_manager.go with the callback of router.go.
use skywire_mainnet_old.Base.{
  ℕ, ◌+◌, ◌≤◌, ◌≡◌, refl, ap, ◌∙◌, List, ◌∷◌, Option, some, Bytes, ok, or_err, malformed_json,
  lookup, insert, lookup-insert, nat_eq, nat_beq, nat_beq_iff, if◌then◌else◌, port_not_bound,
  lookup-insert_self, callback_failed,
}
use skywire_mainnet_old.Base.Step.{after-ok, or_log, renamed}
use skywire_mainnet_old.Routing.Addr.{Addr, addr_eq, Port, PubKey, RouteId, Loop, LoopData}
use skywire_mainnet_old.Routing.Rule.{
  Rule, rule_forward, rule_type, route_id, transport_id, set_route_id,
}
use skywire_mainnet_old.Routing.Table
use skywire_mainnet_old.Router.Ports.{
  PortBind, PortList, LoopEntry, get_port, get_bind, get_loop, set_port,
}
use skywire_mainnet_old.Router.Ports.Loops.{set_loop_bound, get_loop-set_port}
use skywire_mainnet_old.Router.Managed.{Time, set_rule}
use skywire_mainnet_old.Router.Managed.Window.{IsActive, touched, find_rule-in_time}
use skywire_mainnet_old.Router.RouteManager
use skywire_mainnet_old.Router.RouteManager.{
  RmState, Callbacks, find_loop_rule, confirm_found, confirm_or_fail,
}
use skywire_mainnet_old.Router.State.{
  Router, Outside, State, AppFrame, frame_confirm_loop, send_frame,
}
use skywire_mainnet_old.Router.Loops.{confirm_loop, callbacks}
use skywire_mainnet_old.Setup.Json.{Json}

pub loop_there :
    (port : Port) (a : Addr) (pm : PortList) (b : PortBind) (e : LoopEntry)
    → get_loop port a (set_port port (record b { loops = insert a e b.loops }) pm) ≡ ok e
loop_there port a pm b e =
    get_loop-set_port port a pm (record b { loops = insert a e b.loops }) port a
    ∙ rw ((nat_beq_iff port port).1 refl) (rw (lookup-insert_self a e b.loops) refl)

module _ (unmarshal_pk : Bytes → Option PubKey) (json : Json) (outside : Outside) (own_key : PubKey)
    (setup_nodes : List PubKey) where
  abbrev pub told : Loop → AppFrame
  told l = frame_confirm_loop (record { pub_key = own_key; port = l.local.port }) l.remote

  -- The router's state after confirmLoop.
  abbrev pub confirmed : Loop → PortBind → LoopEntry → Router → Router
  confirmed l b e r = record r {
    pm = set_port l.local.port (record b { loops = insert l.remote e b.loops }) r.pm;
    sent = (b.conn, told l) ∷ r.sent;
  }

  confirm_bound :
      (l : Loop) (rule : Rule) (b : PortBind) (e : LoopEntry) (s : State)
      → get_port l.local.port s.host.pm ≡ some b
      → transport_id rule ≡ ok e.tr_id
      → route_id rule ≡ ok e.route_id
      → or_log (outside.send b.conn (told l)) ≡ ok tt
      → confirm_loop unmarshal_pk json outside own_key setup_nodes l rule s
        ≡ (record s { host = confirmed l b e s.host }, ok tt)
  unfolding confirm_loop get_bind send_frame
  confirm_bound l rule b e s bound tid rid send =
      after-ok (λ k. _) (ap (λ o. (s, or_err port_not_bound o)) bound)
        (after-ok (λ k. _) (ap (λ r. (s, r)) tid)
          (after-ok (λ k. _) (ap (λ r. (s, r)) rid)
            (after-ok (λ k. _)
              (ap (λ p. (record s { host = record (s.host) { pm = p.0 } }, p.1))
                (set_loop_bound l.local.port l.remote s.host.pm e b bound))
              (ap (λ r. (record s { host = confirmed l b e s.host }, r)) send))))

-- A visor that can confirm a loop: `app_rule` is the first app rule of the loop in its table, `rev` the
-- forward rule under the ID that ConfirmLoop names, which is in use, and the local port is bound.
pub record IsConfirmable (unmarshal_pk : Bytes → Option PubKey) (now : Time) (s : State)
    (ld : LoopData) (id : RouteId) (app_rule rev : Rule) (b : PortBind) (e : LoopEntry)
    : Type 0 where
  pub last : Time
  pub kept : ℕ
  pub found : find_loop_rule unmarshal_pk ld.loop s.rt ≡ ok (some (id, app_rule))
  pub active : IsActive s.rt ld.route_id rev last kept
  pub past : last ≤ now
  pub in_time : now ≤ last + kept
  pub forward : rule_type rev ≡ ok rule_forward
  pub tid : transport_id rev ≡ ok e.tr_id
  pub rid : route_id rev ≡ ok e.route_id
  pub bound : get_port ld.loop.local.port s.host.pm ≡ some b

module _ (unmarshal_pk : Bytes → Option PubKey) (json : Json) (outside : Outside) (own_key : PubKey)
    (setup_nodes : List PubKey) (clock : ℕ → Time) where
  abbrev router : Callbacks Router
  router = callbacks unmarshal_pk json outside own_key setup_nodes

  -- The state after confirmLoop of the route manager.
  abbrev pub after_confirm : LoopData → RouteId → Rule → PortBind → LoopEntry → State → State
  after_confirm ld id new b e s = record {
    host = confirmed unmarshal_pk json outside own_key setup_nodes ld.loop b e s.host;
    rt = (set_rule id new (touched s.rt ld.route_id (clock 0))).0;
  }

  confirmed_found :
      (s : State) (ld : LoopData) (id : RouteId) (app_rule rev new : Rule) (b : PortBind)
      (e : LoopEntry)
      → IsConfirmable unmarshal_pk (clock 0) s ld id app_rule rev b e
      → set_route_id ld.route_id app_rule ≡ ok new
      → or_log (outside.send b.conn (told unmarshal_pk json outside own_key setup_nodes ld.loop))
        ≡ ok tt
      → confirm_found unmarshal_pk json router clock ld id app_rule s
        ≡ (after_confirm ld id new b e s, ok tt)
  unfolding confirm_found set_rule Table.set_rule
  confirmed_found s ld id app_rule rev new b e h renumbered send =
      let s1 : State = record s { rt = touched s.rt ld.route_id (clock 0) } in
      let s2 : State = record s1 {
        host = confirmed unmarshal_pk json outside own_key setup_nodes ld.loop b e s.host;
      } in
      after-ok (λ k. _)
        (ap (λ p. (record s { rt = p.0 }, p.1))
          (find_rule-in_time s.rt ld.route_id rev h.last h.kept (clock 0) h.active h.past
            h.in_time))
        (after-ok (λ k. _) (ap (λ r. (s1, r)) h.forward)
          (after-ok (λ k. _)
            (ap (λ p. (p.0, renamed callback_failed p.1))
              (confirm_bound unmarshal_pk json outside own_key setup_nodes ld.loop rev b e s1
                h.bound h.tid h.rid send))
            (after-ok (λ k. _) (ap (λ r. (s2, r)) renumbered) refl)))

  -- ConfirmLoop at a visor that has the loop's app rule, the reverse forward rule in use and the local
  -- port bound, and whose app can be told or refuses with an error, succeeds. GetLoop then
  -- finds the transport and route of the reverse rule for the loop, the app has been told, the app
  -- rule carries the reverse route ID, and no other rule has changed.
  pub confirm_loop_confirms :
      (body : Bytes) (s : State) (ld : LoopData) (id : RouteId) (app_rule rev new : Rule)
      (b : PortBind) (e : LoopEntry)
      → json.unmarshal_loop_data body ≡ some ld
      → IsConfirmable unmarshal_pk (clock 0) s ld id app_rule rev b e
      → set_route_id ld.route_id app_rule ≡ ok new
      → or_log (outside.send b.conn (told unmarshal_pk json outside own_key setup_nodes ld.loop))
        ≡ ok tt
      → (s' : State) × (RouteManager.confirm_loop unmarshal_pk json router clock body s
          ≡ (s', ok tt))
        × (get_loop ld.loop.local.port ld.loop.remote s'.host.pm ≡ ok e)
        × (s'.host.sent
            ≡ (b.conn, told unmarshal_pk json outside own_key setup_nodes ld.loop) ∷ s.host.sent)
        × ((j : RouteId)
            → lookup j s'.rt.table.rules
              ≡ (if nat_beq id j then some new else lookup j s.rt.table.rules))
  unfolding RouteManager.confirm_loop confirm_or_fail
  confirm_loop_confirms body s ld id app_rule rev new b e decoded h renumbered send = (
    after_confirm ld id new b e s,
    after-ok (λ k. _) (ap (λ o. (s, or_err malformed_json o)) decoded)
        (after-ok (λ k. _) (ap (λ r. (s, r)) h.found)
          (confirmed_found s ld id app_rule rev new b e h renumbered send)),
    loop_there ld.loop.local.port ld.loop.remote s.host.pm b e,
    refl,
    λ j. unfold set_rule Table.set_rule in lookup-insert id j new s.rt.table.rules,
  )
