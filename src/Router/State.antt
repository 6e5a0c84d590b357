-- ===== src/Router/State.antt =====
-- pkg/router/router.go: the state of a router and what it calls. What was sent to an app or written
-- to a transport is kept in the state, the last first.
use skywire_mainnet_old.Base.{
  Bool, List, ◌∷◌, Bytes, Outcome, ok, err, panic, replicate, list_eq, nat_eq, if◌then◌else◌,
  unknown_transport,
}
use skywire_mainnet_old.Base.Step.{Step, lift}
use skywire_mainnet_old.Routing.Addr.{Addr, Port, PubKey, RouteId, TransportId, Route, Loop}
use skywire_mainnet_old.Router.Ports.{ConnId, PortList, alloc}
use skywire_mainnet_old.Router.RouteManager.{RmState}
use skywire_mainnet_old.Setup.Protocol.{Conn}

-- app.Packet
pub record AppPacket : Type 0 where
  pub loop : Loop
  pub payload : Bytes

-- What the router sends to an app.
pub data AppFrame : Type 0 where
  frame_send : AppPacket → AppFrame
  frame_confirm_loop : Addr → Addr → AppFrame
  frame_close : Loop → AppFrame

pub record Router : Type 0 where
  pub pm : PortList
  pub static_ports : List Port
  pub sent : List (ConnId × AppFrame)
  pub forwarded : List (TransportId × RouteId × Bytes)

-- `send` is app.Protocol.Send and `close_conn` is app.Protocol.Close; `has_transport` says whether
-- Manager.Transport finds a transport, and `write_transport` is its WritePacket; `dial` is
-- Network.Dial; `expired` says that a request's context ends before its response.
pub record Outside : Type 0 where
  pub send : ConnId → AppFrame → Outcome (Unit {0})
  pub has_transport : TransportId → Bool
  pub write_transport : TransportId → RouteId → Bytes → Outcome (Unit {0})
  pub dial : PubKey → Outcome Conn
  pub expired : Bool
  -- The results of PairedRoutes, up to the one after which the timer has fired.
  pub first_routes : PubKey → PubKey → Outcome (List Route × List Route)
  pub more_routes : PubKey → PubKey → List (Outcome (List Route × List Route))

abbrev pub State : Type 0
State = RmState Router

abbrev pub zero_key : PubKey
zero_key = replicate 33 0

-- A call on the port manager.
abbrev pub on_ports {ℓ} : {A : Type ℓ} → Step PortList A → Step State A
on_ports m = λ s. let (pm, r) = m s.host.pm in (record s { host = record (s.host) { pm = pm } }, r)

abbrev pub from_ports {ℓ} : {A : Type ℓ} → (PortList → Outcome A) → Step State A
from_ports f = λ s. (s, f s.host.pm)

-- Alloc, whose state is lost when it panics.
unfoldable pub alloc_port : ConnId → Step State Port
alloc_port conn = λ s. elim (alloc conn s.host.pm) [
  | ok p ↦ (record s { host = record (s.host) { pm = p.1 } }, ok (p.0))
  | err e ↦ (s, err e)
  | panic ↦ (s, panic)
]

module _ (outside : Outside) where
  unfoldable pub send_frame : ConnId → AppFrame → Step State (Unit {0})
  send_frame conn frame = λ s. (
    record s { host = record (s.host) { sent = (conn, frame) ∷ s.host.sent } },
    outside.send conn frame,
  )

  -- `tp.WritePacket` on the transport with this ID, if there is one.
  unfoldable pub write_to : TransportId → RouteId → Bytes → Step State (Unit {0})
  write_to tid rid pay =
      if outside.has_transport tid
      then (λ s. (
        record s { host = record (s.host) { forwarded = (tid, rid, pay) ∷ s.host.forwarded } },
        outside.write_transport tid rid pay,
      ))
      else lift (err unknown_transport)
