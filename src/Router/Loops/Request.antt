-- ===== src/Router/Loops/Request.antt =====
-- requestLoop of router.go when no route is found.
use skywire_mainnet_old.Base.{
  ◌≡◌, refl, ap, List, Option, some, Bytes, ok, err, Error, false, ◌==◌, list_eq, nat_eq,
  no_route_found, insert, replicate,
}
use skywire_mainnet_old.Base.Step.{after-ok}
use skywire_mainnet_old.Routing.Addr.{Addr, addr_eq, PubKey, Port}
use skywire_mainnet_old.Router.Ports.{
  ConnId, LoopEntry, PortList, PortBind, alloc, get_port, get_loop, set_port,
}
use skywire_mainnet_old.Router.Ports.Loops.{set_loop_bound}
use skywire_mainnet_old.Router.State.{Outside, State, alloc_port}
use skywire_mainnet_old.Router.Loops.{request_loop, fetch_best_routes}
use skywire_mainnet_old.Router.Loops.Confirm.{loop_there}
use skywire_mainnet_old.Setup.Json.{Json}

module _ (unmarshal_pk : Bytes → Option PubKey) (json : Json) (outside : Outside) (own_key : PubKey)
    (setup_nodes : List PubKey) where
  allocated_port :
      (conn : ConnId) (s : State) (p : Port) (pm : PortList)
      → alloc conn s.host.pm ≡ ok (p, pm)
      → alloc_port conn s ≡ (record s { host = record (s.host) { pm = pm } }, ok p)
  unfolding alloc_port
  allocated_port conn s p pm e = rw (e, alloc_port)

  -- A requestLoop to another visor that finds no route fails, and leaves the port that it has
  -- allocated bound, with a loop of zero transport and route.
  pub request_loop_leaks :
      (conn : ConnId) (raddr : Addr) (s : State) (p : Port) (pm : PortList) (b : PortBind)
      (e : Error)
      → alloc conn s.host.pm ≡ ok (p, pm)
      → get_port p pm ≡ some b
      → (raddr.pub_key == own_key) ≡ false
      → fetch_best_routes
          (outside.first_routes own_key raddr.pub_key)
          (outside.more_routes own_key raddr.pub_key)
        ≡ err e
      → (s' : State) × (request_loop unmarshal_pk json outside own_key setup_nodes conn raddr s
          ≡ (s', err no_route_found))
        × (get_loop p raddr s'.host.pm ≡ ok (record { tr_id = replicate 16 0; route_id = 0 }))
  unfolding request_loop
  request_loop_leaks conn raddr s p pm b e allocated bound other nothing =
      let pm2 : PortList = set_port p (record b { loops = insert raddr zero b.loops }) pm in
      let s1 : State = record s { host = record (s.host) { pm = pm } } in
      let s2 : State = record s { host = record (s.host) { pm = pm2 } } in
      (
        s2,
        after-ok (λ k. _) (allocated_port conn s p pm allocated)
            (after-ok (λ k. _)
              (ap (λ q. (record s1 { host = record (s1.host) { pm = q.0 } }, q.1))
                (set_loop_bound p raddr pm zero b bound))
              (rw other (rw nothing refl))),
        loop_there p raddr pm b zero,
      )
    where
      zero : LoopEntry
      zero = record { tr_id = replicate 16 0; route_id = 0 }
