-- ===== src/Router/Packets.antt =====
-- pkg/router/router.go: packets from the transports and from the apps.
pub mod Handling
pub mod Relay
use skywire_mainnet_old.Base.{
  Option, Bytes, ok, err, panic, nat_beq, list_eq, nat_eq, if◌then◌else◌, ◌==◌,
}
use skywire_mainnet_old.Base.Step.{Step, ◌>>=◌, lift}
use skywire_mainnet_old.Routing.Addr.{PubKey}
use skywire_mainnet_old.Routing.Rule.{
  Rule, rule_forward, rule_type, route_id, transport_id, remote_pk, remote_port, local_port,
}
use skywire_mainnet_old.Routing.Packet.{Packet, packet_route_id, payload}
use skywire_mainnet_old.Router.Ports.{get_bind, get_loop}
use skywire_mainnet_old.Router.Managed.{Time}
use skywire_mainnet_old.Router.RouteManager.{on_table, get_rule}
use skywire_mainnet_old.Router.State.{
  AppPacket, frame_send, Outside, State, zero_key, from_ports, send_frame, write_to,
}

module _ (unmarshal_pk : Bytes → Option PubKey) (outside : Outside) (own_key : PubKey) where
  unfoldable pub forward_packet : Bytes → Rule → Step State (Unit {0})
  forward_packet pay rule = do
    tid ← lift (transport_id rule)
    rid ← lift (route_id rule)
    write_to outside tid rid pay

  unfoldable pub consume_packet : Bytes → Rule → Step State (Unit {0})
  consume_packet pay rule = do
    lport ← lift (local_port rule)
    rpk ← lift (remote_pk unmarshal_pk rule)
    rport ← lift (remote_port rule)
    b ← from_ports (get_bind lport)
    send_frame outside b.conn (
        frame_send (record {
          loop = record {
            local = record { pub_key = zero_key; port = lport };
            remote = record { pub_key = rpk; port = rport };
          };
          payload = pay;
        }))

  unfoldable pub handle_packet : Time → Packet → Step State (Unit {0})
  handle_packet now packet = do
    id ← lift (packet_route_id packet)
    rule ← on_table (get_rule now id)
    t ← lift (rule_type rule)
    pay ← lift (payload packet)
    if nat_beq t rule_forward then forward_packet pay rule else consume_packet pay rule

  unfoldable pub local_app_packet : AppPacket → AppPacket
  local_app_packet packet = record {
    loop = record {
      local = record { pub_key = zero_key; port = packet.loop.remote.port };
      remote = record { pub_key = packet.loop.remote.pub_key; port = packet.loop.local.port };
    };
    payload = packet.payload;
  }

  -- An unbound port is no error.
  unfoldable pub forward_local_app_packet : AppPacket → Step State (Unit {0})
  forward_local_app_packet packet = λ s. elim (get_bind packet.loop.remote.port s.host.pm) [
    | ok b ↦ send_frame outside b.conn (frame_send (local_app_packet packet)) s
    | err e ↦ (s, ok tt)
    | panic ↦ (s, panic)
  ]

  unfoldable pub forward_app_packet : AppPacket → Step State (Unit {0})
  forward_app_packet packet =
      if packet.loop.remote.pub_key == own_key then forward_local_app_packet packet else (do
        l ← from_ports (get_loop packet.loop.local.port packet.loop.remote)
        write_to outside l.tr_id l.route_id packet.payload)
