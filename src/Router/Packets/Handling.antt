-- ===== src/Router/Packets/Handling.antt =====
-- router.go: what handlePacket does with a packet that has a rule.
use skywire_mainnet_old.Base.{
  ℕ, ◌+◌, ◌≤◌, ◌^◌, ◌<◌, ◌≡◌, refl, ap, ◌∙◌, ◌∷◌, Option, some, Bytes, ok, or_err, arith, length,
  true, if◌then◌else◌, port_not_bound, nat_beq, Bool-cases, inl, inr,
}
use skywire_mainnet_old.Base.Step.{after-ok}
use skywire_mainnet_old.Routing.Addr.{PubKey, RouteId, TransportId, Port}
use skywire_mainnet_old.Routing.Rule.{
  Rule, rule_app, rule_forward, rule_type, route_id, transport_id, local_port, remote_port,
  remote_pk,
}
use skywire_mainnet_old.Routing.Packet.{
  Packet, make_packet, payload, packet_route_id, max_uint16, make_packet_reads,
}
use skywire_mainnet_old.Router.Ports.{PortBind, get_port, get_bind}
use skywire_mainnet_old.Router.Managed.{Time, ManagedTable}
use skywire_mainnet_old.Router.Managed.Window.{IsActive, touched, find_rule-in_time}
use skywire_mainnet_old.Router.RouteManager.{get_rule, checked_rule}
use skywire_mainnet_old.Router.State.{
  Outside, State, AppFrame, frame_send, zero_key, send_frame, write_to,
}
use skywire_mainnet_old.Router.Packets.{handle_packet, forward_packet, consume_packet}

-- A rule under `id` that was last used at most its keep-alive time ago.
pub record IsUsable (rt : ManagedTable) (now : Time) (id : RouteId) (rule : Rule) : Type 0 where
  pub last : Time
  pub kept : ℕ
  pub active : IsActive rt id rule last kept
  pub past : last ≤ now
  pub in_time : now ≤ last + kept
  pub long : 13 ≤ length rule

checked : (rule : Rule) → 13 ≤ length rule → checked_rule rule ≡ ok rule
unfolding checked_rule
checked rule long = ground arith

pub get_rule_usable :
    (rt : ManagedTable) (now : Time) (id : RouteId) (rule : Rule)
    → IsUsable rt now id rule
    → get_rule now id rt ≡ (touched rt id now, ok rule)
unfolding get_rule
get_rule_usable rt now id rule u =
    after-ok (λ k. _) (find_rule-in_time rt id rule u.last u.kept now u.active u.past u.in_time)
      (ap (λ r. (touched rt id now, r)) (checked rule u.long))

-- What the app is sent.
abbrev pub app_frame : Bytes → Port → PubKey → Port → AppFrame
app_frame pay lport pk rport = frame_send (record {
  loop = record {
    local = record { pub_key = zero_key; port = lport };
    remote = record { pub_key = pk; port = rport };
  };
  payload = pay;
})

module _ (unmarshal_pk : Bytes → Option PubKey) (outside : Outside) (own_key : PubKey) (s : State)
    (now : Time) (id : RouteId) (rule : Rule) (pay : Bytes) where
  -- The state when the rule has been found.
  abbrev looked_up : State
  looked_up = record s { rt = touched s.rt id now }

  handled :
      (p : Packet) (t : ℕ)
      → packet_route_id p ≡ ok id
      → payload p ≡ ok pay
      → IsUsable s.rt now id rule
      → rule_type rule ≡ ok t
      → handle_packet unmarshal_pk outside own_key now p s ≡ (
          if nat_beq t rule_forward
          then forward_packet unmarshal_pk outside own_key pay rule looked_up
          else consume_packet unmarshal_pk outside own_key pay rule looked_up)
  unfolding handle_packet
  handled p t rid paid u type =
      after-ok (λ k. _) (ap (λ r. (s, r)) rid)
        (after-ok (λ k. _)
          (ap (λ q. (record s { rt = q.0 }, q.1)) (get_rule_usable s.rt now id rule u))
          (after-ok (λ k. _) (ap (λ r. (looked_up, r)) type)
            (after-ok (λ k. _) (ap (λ r. (looked_up, r)) paid)
              (elim (Bool-cases (nat_beq t rule_forward)) [
                | inl fwd ↦ rw fwd refl
                | inr app ↦ rw app refl
              ]))))

  -- A packet with a route ID that has a usable forward rule is written to the rule's transport, if
  -- the visor has it, with the rule's next route ID and the same payload; the rule's last use is now.
  -- The result is that of the transport. The packet is the one that MakePacket makes of a uint32
  -- route ID and a payload of at most 65535 bytes.
  pub handle_packet_forwards :
      (tid : TransportId) (next : RouteId)
      → id < 2 ^ 32
      → length pay ≤ max_uint16
      → IsUsable s.rt now id rule
      → rule_type rule ≡ ok rule_forward
      → transport_id rule ≡ ok tid
      → route_id rule ≡ ok next
      → outside.has_transport tid ≡ true
      → (p : Packet) × (make_packet id pay ≡ ok p)
        × (handle_packet unmarshal_pk outside own_key now p s ≡ (
          record s {
            rt = touched s.rt id now;
            host = record (s.host) { forwarded = (tid, next, pay) ∷ s.host.forwarded };
          },
          outside.write_transport tid next pay,
        ))
  unfolding forward_packet write_to
  handle_packet_forwards tid next fits short u type transport route there =
      let (p, made, size_read, rid, paid) = make_packet_reads id pay fits short in
      (
        p,
        made,
        handled p rule_forward rid paid u type
            ∙ after-ok (λ k. _) (ap (λ r. (looked_up, r)) transport)
                (after-ok (λ k. _) (ap (λ r. (looked_up, r)) route) (rw there refl)),
      )

  -- A packet with a route ID that has a usable app rule is sent to the connection of the rule's local
  -- port, if the port is bound, as a frame with the rule's remote address and the same payload; the
  -- rule's last use is now. The result is that of the app. The packet is the one that MakePacket makes
  -- of a uint32 route ID and a payload of at most 65535 bytes.
  pub handle_packet_consumes :
      (lport rport : Port) (pk : PubKey) (b : PortBind)
      → id < 2 ^ 32
      → length pay ≤ max_uint16
      → IsUsable s.rt now id rule
      → rule_type rule ≡ ok rule_app
      → local_port rule ≡ ok lport
      → remote_pk unmarshal_pk rule ≡ ok pk
      → remote_port rule ≡ ok rport
      → get_port lport s.host.pm ≡ some b
      → (p : Packet) × (make_packet id pay ≡ ok p)
        × (handle_packet unmarshal_pk outside own_key now p s ≡ (
          record s {
            rt = touched s.rt id now;
            host = record (s.host) { sent = (b.conn, app_frame pay lport pk rport) ∷ s.host.sent };
          },
          outside.send b.conn (app_frame pay lport pk rport),
        ))
  unfolding consume_packet send_frame get_bind
  handle_packet_consumes lport rport pk b fits short u type lp key rp bound =
      let (p, made, size_read, rid, paid) = make_packet_reads id pay fits short in
      (
        p,
        made,
        handled p rule_app rid paid u type
            ∙ after-ok (λ k. _) (ap (λ r. (looked_up, r)) lp)
                (after-ok (λ k. _) (ap (λ r. (looked_up, r)) key)
                  (after-ok (λ k. _) (ap (λ r. (looked_up, r)) rp)
                    (after-ok (λ k. _) (ap (λ o. (looked_up, or_err port_not_bound o)) bound)
                      refl))),
      )
