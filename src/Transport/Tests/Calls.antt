-- ===== src/Transport/Tests/Calls.antt =====
-- Runs of the handshake's refusals, of a managed transport and of its manager.
use skywire_mainnet_old.Base.{
  [], arith, contains, eof, err, false, from_be, insert, io_failed, list_beq, list_eq, lookup,
  nat_eq, ok, refl, some, ◌++◌, ◌∷◌, ◌≡◌, ◌⊎◌,
}
use skywire_mainnet_old.Routing.Addr.{PubKey, TransportId}
use skywire_mainnet_old.Routing.Packet.{Packet, make_packet}
use skywire_mainnet_old.Transport.Entry.{Entry, SignedEntry, Sig, no_sig, make_transport_id}
use skywire_mainnet_old.Transport.Discovery.{Mock, new_discovery_mock}
use skywire_mainnet_old.Transport.Handshake.{Conn, make_entry, resp_hs}
use skywire_mainnet_old.Transport.Handshake.Settlement.{open_conn}
use skywire_mainnet_old.Transport.Handshake.Refusal.{IsOffered, resp_hs-IsOffered}
use skywire_mainnet_old.Transport.Managed
use skywire_mainnet_old.Transport.Managed.{
  ManagedTransport, MtState, new_managed_transport, write_packet, read_packet,
}
use skywire_mainnet_old.Transport.Managed.Keeping.{Serving, Ended}
use skywire_mainnet_old.Transport.Managed.Traffic.{
  write_packet-read_packet, serving, serving_sent, serving_received,
}
use skywire_mainnet_old.Transport.Managed.Steps
use skywire_mainnet_old.Transport.Managed.Steps.{new_managed_transport-Reach, Reach-Ended}
use skywire_mainnet_old.Transport.Manager
use skywire_mainnet_old.Transport.Manager.{new_manager, transport, save_and_dial, close}
use skywire_mainnet_old.Transport.Manager.Life
use skywire_mainnet_old.Transport.Manager.Life.{new_manager-transport}
use skywire_mainnet_old.Transport.Tests.{key_a, key_b, dmsg, toy_hash, toy_cipher, toy_json}

-- A peer that sends no bytes is refused, and nothing has changed.
resp_hs-IsOffered_example :
    ((resp_hs toy_hash toy_cipher toy_json
        (new_discovery_mock 7)
        key_b
        (record { conn = open_conn key_b key_a dmsg [] eof; dc = [] })).0
      ≡ record {
        conn = record (open_conn key_b key_a dmsg [] eof) {
          input = (toy_json.decode eof []).unread;
        };
        dc = [];
      })
    ⊎ ((se : SignedEntry) × IsOffered toy_hash toy_cipher toy_json
          (open_conn key_b key_a dmsg [] eof)
          se)
resp_hs-IsOffered_example =
    resp_hs-IsOffered toy_hash toy_cipher toy_json (new_discovery_mock 7) key_b
      (record { conn = open_conn key_b key_a dmsg [] eof; dc = [] })

abbrev fresh : PubKey → PubKey → MtState Mock
fresh local remote = record {
  tp = new_managed_transport toy_hash toy_cipher toy_json local remote dmsg;
  dc = [];
  closed = [];
  recorded = [];
}

abbrev conn_a : Conn
conn_a = open_conn key_a key_b dmsg [] eof

abbrev conn_b : Conn
conn_b = open_conn key_b key_a dmsg [] eof

-- Two bytes of payload, on route 5.
write_packet-read_packet_example :
    (packet : Packet) × (make_packet 5 (8 ∷ 9 ∷ []) ≡ ok packet)
    × (write_packet toy_hash toy_cipher toy_json key_a
          (new_discovery_mock 7)
          false
          (err io_failed)
          5
          (8 ∷ 9 ∷ [])
          (serving conn_a (fresh key_a key_b))
        ≡ (serving_sent (record conn_a { output = packet }) 2 (fresh key_a key_b), ok tt))
    × (read_packet toy_hash toy_cipher toy_json key_a
          (new_discovery_mock 7)
          (serving (record conn_b { input = packet ++ 4 ∷ [] }) (fresh key_b key_a))
        ≡ (
          serving_received (record conn_b { input = 4 ∷ [] }) 2 (fresh key_b key_a),
          ok (some packet),
        ))
write_packet-read_packet_example =
    write_packet-read_packet toy_hash toy_cipher toy_json key_a (new_discovery_mock 7)
      (fresh key_a key_b) (fresh key_b key_a) conn_a conn_b false (err io_failed) 5 (8 ∷ 9 ∷ [])
      (4 ∷ []) refl (omega arith)

abbrev a_closed : MtState Mock
a_closed =
    (Managed.close toy_hash toy_cipher toy_json key_a (new_discovery_mock 7) (fresh key_a key_b)).0

-- A transport that is closed at once.
new_managed_transport-Reach_example :
    Serving (new_managed_transport toy_hash toy_cipher toy_json key_a key_b dmsg) a_closed.tp
    ⊎ Ended (new_managed_transport toy_hash toy_cipher toy_json key_a key_b dmsg) a_closed.tp
new_managed_transport-Reach_example =
    new_managed_transport-Reach toy_hash toy_cipher toy_json key_a (new_discovery_mock 7) key_a
      key_b dmsg [] a_closed (Steps.Reach.next Steps.Reach.here Steps.Event.closes)

abbrev saved : Manager.Manager Mock
saved =
    (save_and_dial toy_hash toy_cipher toy_json key_a key_a (new_discovery_mock 7) key_b dmsg false
      (err io_failed) (new_manager (dmsg ∷ []) [])).0

abbrev b_id : TransportId
b_id = make_transport_id toy_hash key_a key_b dmsg

abbrev b_tp : ManagedTransport
b_tp = new_managed_transport toy_hash toy_cipher toy_json key_a key_b dmsg

saved_transport :
    transport toy_hash toy_cipher toy_json key_a key_a (new_discovery_mock 7) b_id saved ≡ some b_tp
unfolding transport save_and_dial lookup Manager.save_transport contains list_beq Manager.save_on
    Manager.dial_saved insert make_transport_id skywire_mainnet_old.Transport.Entry.sort_edges
    from_be Managed.dial_once Managed.dial
saved_transport = refl

-- The transport that was saved under the ID of the two keys.
new_manager-transport_example :
    (b_id ≡ make_transport_id toy_hash key_a b_tp.remote_pk b_tp.net_name)
    × (b_tp.entry ≡ make_entry toy_hash toy_cipher toy_json key_a b_tp.remote_pk b_tp.net_name)
    × (b_tp.entry.id ≡ b_id)
new_manager-transport_example =
    new_manager-transport toy_hash toy_cipher toy_json key_a key_a (new_discovery_mock 7)
      (dmsg ∷ []) [] saved b_id b_tp
      (Life.Reach.next Life.Reach.here (Life.Event.saves key_b dmsg false (err io_failed)))
      saved_transport

abbrev holding : Manager.Manager Mock
holding = record (new_manager (dmsg ∷ []) []) { tps = (b_id, b_tp) ∷ [] }

abbrev over : Manager.Manager Mock
over = (close toy_hash toy_cipher toy_json key_a key_a (new_discovery_mock 7) holding).0

abbrev served : Manager.Manager Mock
served =
    (Manager.init_transports toy_hash toy_cipher toy_json key_a key_a (new_discovery_mock 7) over).0

abbrev later : Manager.Manager Mock
later =
    (Manager.delete_transport toy_hash toy_cipher toy_json key_a key_a (new_discovery_mock 7) b_id
      served).0
