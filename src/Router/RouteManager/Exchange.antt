-- ===== src/Router/RouteManager/Exchange.antt =====
-- A request for route IDs from end to end: RequestRouteIDs of protocol.go at the setup node, and
-- handleSetupConn of route_manager.go at the visor.
use mathlib.Core.List.{append-nil}
use skywire_mainnet_old.Base.{
  Bytes, Error, List, Option, [], ap, arith, bind_ok, contains, false, flat, if◌then◌else◌, length,
  list_eq, lookup, nat_beq_iff, nat_eq, ok, refl, some, sym, ℕ, ◌%◌, ◌++◌, ◌+◌, ◌<◌, ◌^◌, ◌∙◌, ◌≡◌,
  ◌≤◌,
}
use skywire_mainnet_old.Routing.Addr.{PubKey, RouteId}
use skywire_mainnet_old.Router.Managed.{Time, ManagedTable}
use skywire_mainnet_old.Router.RouteManager.{
  RmState, Callbacks, occupy_route_id, handle_setup_packet, handle_setup_conn, respond,
}
use skywire_mainnet_old.Router.RouteManager.Occupy.{
  ids_after, Occupied, occupy_ids-Occupied, length-ids_after, ids_after-contains, placeholder,
}
use skywire_mainnet_old.Setup.Json.{Json, IsFaithful}
use skywire_mainnet_old.Setup.Protocol.{
  read_packet, write_packet, request_route_ids, request_route_id_packet, success_packet,
}
use skywire_mainnet_old.Setup.Protocol.Framing.{header, packet_bytes-row}
use skywire_mainnet_old.Setup.Protocol.Requests.{answer_read, answer_decoded}

-- The bytes of one packet.
abbrev pub packet : ℕ → Bytes → Bytes
packet t pay = flat (header t (length pay % 2 ^ 16)) ++ pay

read_one :
    (at_end : Error) (t : ℕ) (pay : Bytes)
    → t < 256
    → 1 ≤ length pay
    → length pay < 2 ^ 16
    → read_packet at_end (packet t pay) ≡ ok (t, pay, [])
read_one at_end t pay byte some_bytes short =
    ap (read_packet at_end) (sym (append-nil (packet t pay)))
    ∙ answer_read at_end t pay (packet t pay) [] (packet_bytes-row t pay) byte some_bytes short

module _ {S : Type 0} (unmarshal_pk : Bytes → Option PubKey) (json : Json) (callbacks : Callbacks S)
    (clock : ℕ → Time) (faithful : IsFaithful json) (n : ℕ) (small : n < 256) (s : RmState S) where
  handled_request :
      (o : Occupied clock n s.rt)
      → handle_setup_packet unmarshal_pk json callbacks clock request_route_id_packet
          (json.marshal_count n)
          s
        ≡ (record s { rt = o.rt' }, ok (json.marshal_ids (ids_after s.rt.table.next_id n)))
  unfolding handle_setup_packet occupy_route_id
  handled_request o = rw (faithful.count_back n small) (rw o.returned refl)

  served :
      (at_end : Error) (o : Occupied clock n s.rt)
      → length (json.marshal_count n) < 2 ^ 16
      → handle_setup_conn unmarshal_pk json callbacks clock
          (record {
            input = packet request_route_id_packet (json.marshal_count n);
            at_end = at_end;
            output = [];
          })
          s
        ≡ (
          record s { rt = o.rt' },
          record {
            input = packet request_route_id_packet (json.marshal_count n);
            at_end = at_end;
            output = packet success_packet (json.marshal_ids (ids_after s.rt.table.next_id n));
          },
          ok tt,
        )
  unfolding handle_setup_conn respond write_packet
  served at_end o short =
      rw
        (
          read_one at_end request_route_id_packet (json.marshal_count n) (omega arith)
              (faithful.count_nonempty n) short,
          handle_setup_conn,
        )
        (rw (handled_request o) (
          rw (packet_bytes-row success_packet (json.marshal_ids (ids_after s.rt.table.next_id n)))
            refl))

  request_answered :
      (at_end : Error)
      → length (json.marshal_ids (ids_after s.rt.table.next_id n)) < 2 ^ 16
      → request_route_ids json false n (record {
        input = packet success_packet (json.marshal_ids (ids_after s.rt.table.next_id n));
        at_end = at_end;
        output = [];
      })
        ≡ ok (
          record {
            input = packet success_packet (json.marshal_ids (ids_after s.rt.table.next_id n));
            at_end = at_end;
            output = packet request_route_id_packet (json.marshal_count n);
          },
          ids_after s.rt.table.next_id n,
        )
  unfolding request_route_ids write_packet
  request_answered at_end short =
      bind_ok _ (bind_ok _ (packet_bytes-row request_route_id_packet (json.marshal_count n)) refl) (
        bind_ok _
          (answer_decoded json.unmarshal_ids [] ids _ (json.marshal_ids ids)
            (packet success_packet (json.marshal_ids ids)) []
            (packet_bytes-row success_packet (json.marshal_ids ids)) (sym (append-nil _))
            (faithful.ids_nonempty ids) short (faithful.ids_back ids))
          (rw (length-ids_after s.rt.table.next_id n) (rw ((nat_beq_iff n n).1 refl) refl)))
    where
      ids : List RouteId
      ids = ids_after s.rt.table.next_id n

  -- RequestRouteIDs at the setup node writes a request of fewer than 256 IDs; handleSetupConn at a
  -- visor with room in its counter reads it, occupies the IDs after the counter and writes a
  -- response: each of these IDs has the placeholder rule then, every other ID is looked up as before,
  -- the counter stands at the last of them, and the rest of the host is as it was. And RequestRouteIDs
  -- returns these IDs from that response. The encodings of the count and of the IDs are shorter than
  -- 65536 bytes.
  pub route_ids_exchange :
      (at_end : Error)
      → s.rt.table.next_id + n < 2 ^ 32
      → length (json.marshal_count n) < 2 ^ 16
      → length (json.marshal_ids (ids_after s.rt.table.next_id n)) < 2 ^ 16
      → (asked : Bytes) × (answered : Bytes) × (rt' : ManagedTable) × (handle_setup_conn
            unmarshal_pk json callbacks clock
            (record { input = asked; at_end = at_end; output = [] })
            s
          ≡ (
            record s { rt = rt' },
            record { input = asked; at_end = at_end; output = answered },
            ok tt,
          ))
        × (request_route_ids json false n
              (record { input = answered; at_end = at_end; output = [] })
            ≡ ok (
              record { input = answered; at_end = at_end; output = asked },
              ids_after s.rt.table.next_id n,
            ))
        × (rt'.table.next_id ≡ s.rt.table.next_id + n)
        × ((j : RouteId)
            → lookup j rt'.table.rules ≡ (
                if contains j (ids_after s.rt.table.next_id n)
                then some placeholder
                else lookup j s.rt.table.rules))
  route_ids_exchange at_end room short answer_short =
      let o = occupy_ids-Occupied clock n s.rt room in
      (
        packet request_route_id_packet (json.marshal_count n),
        packet success_packet (json.marshal_ids (ids_after s.rt.table.next_id n)),
        o.rt',
        served at_end o short,
        request_answered at_end answer_short,
        o.counter,
        λ j. ground (arith, o.stored j, ids_after-contains s.rt.table.next_id j n),
      )
