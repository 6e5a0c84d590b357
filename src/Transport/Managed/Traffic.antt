-- ===== src/Transport/Managed/Traffic.antt =====
-- managed_transport.go: what one end writes, the other end reads.
use skywire_mainnet_old.Base.{
  Bool, Bytes, Outcome, ap, arith, false, if◌then◌else◌, length, length-append, list_eq, ltb,
  nat_eq, ok, read_full, read_full-append, refl, some, true, ℕ, ◌++◌, ◌+◌, ◌-◌, ◌∙◌, ◌≡◌, ◌≤◌,
}
use skywire_mainnet_old.Base.{◌>>=◌ as ◌&>◌}
use mathlib.Core.List.{append_assoc}
use skywire_mainnet_old.Base.Step.{after-ok, pure}
use skywire_mainnet_old.Routing.Addr.{TransportId, RouteId}
use skywire_mainnet_old.Routing.Packet.{
  Packet, packet_header_size, max_uint16, make_packet, make_packet_parts, size,
}
use skywire_mainnet_old.Transport.Entry.{SecKey, Cipher}
use skywire_mainnet_old.Transport.Discovery.{Discovery}
use skywire_mainnet_old.Transport.Handshake.{Conn, EntryJson, read, after_read}
use skywire_mainnet_old.Transport.Handshake.Settlement.{write_open}
use skywire_mainnet_old.Transport.Managed.{
  ManagedTransport, MtState, on_tp, log_sent, log_recv, write_packet, after_packet, read_bytes,
  counted, read_from, read_or_wait, read_packet,
}

-- A connection held, and so many payload bytes counted; an empty payload counts for nothing.
abbrev pub sent_on : Conn → ℕ → ManagedTransport → ManagedTransport
sent_on c n mt = let mt' = record mt { conn = some c } in if ltb 0 n then log_sent n mt' else mt'

-- A transport that is served and holds the connection.
abbrev pub serving : {D : Type 0} → Conn → MtState D → MtState D
serving c s = record s { tp = record (s.tp) { conn = some c; done = false } }

abbrev pub serving_sent : {D : Type 0} → Conn → ℕ → MtState D → MtState D
serving_sent c n s = record s { tp = sent_on c n (record (s.tp) { done = false }) }

abbrev pub received_on : Conn → ℕ → ManagedTransport → ManagedTransport
received_on c n mt =
    let mt' = record mt { conn = some c } in if ltb 0 n then log_recv n mt' else mt'

abbrev pub serving_received : {D : Type 0} → Conn → ℕ → MtState D → MtState D
serving_received c n s = record s { tp = received_on c n (record (s.tp) { done = false }) }

header_ltb : (n : ℕ) → ltb packet_header_size (packet_header_size + n) ≡ ltb 0 n
header_ltb n = ground arith

header_sub : (n : ℕ) → packet_header_size + n - packet_header_size ≡ n
header_sub n = omega arith

counted_if :
    {D : Type 0} (b : Bool) (f : ManagedTransport → ManagedTransport) (s : MtState D)
    → (if b then on_tp f else pure tt) s ≡ (record s { tp = if b then f s.tp else s.tp }, ok tt)
counted_if true f s = refl
counted_if false f s = refl

module _ (new_hash : Bytes → TransportId) (cipher : Cipher) (json : EntryJson) (local_sk : SecKey)
    {D : Type 0} (discovery : Discovery D) where
  read_bytes_lem :
      (b rest : Bytes) (n : ℕ) (c : Conn)
      → length b ≡ n
      → c.input ≡ b ++ rest
      → read_bytes new_hash cipher json local_sk discovery n c ≡ ok (record c { input = rest }, b)
  unfolding read_bytes read
  read_bytes_lem b rest n c wide is =
      ap (λ r. (r.1 &> λ b'. ok (r.0, b')))
        (ap (λ input. after_read c (read_full c.at_end n input)) is
          ∙ ap (after_read c) (read_full-append c.at_end n b rest wide))

  after_packet_sent :
      (h pay : Bytes) (c : Conn) (s : MtState D)
      → length h ≡ packet_header_size
      → after_packet new_hash cipher json local_sk discovery (length (h ++ pay)) (c, ok tt) s
        ≡ (record s { tp = sent_on c (length pay) s.tp }, ok tt)
  unfolding after_packet
  after_packet_sent h pay c s wide =
      rw (length-append h pay, wide, header_ltb (length pay), header_sub (length pay))
        (counted_if (ltb 0 (length pay)) (log_sent (length pay))
          (record s { tp = record (s.tp) { conn = some c } }))

  counted_received :
      (h pay : Bytes) (s : MtState D)
      → length h ≡ packet_header_size
      → counted new_hash cipher json local_sk discovery (h ++ pay) s ≡ (
        record s { tp = if ltb 0 (length pay) then log_recv (length pay) s.tp else s.tp },
        ok (h ++ pay),
      )
  unfolding counted
  counted_received h pay s wide =
      rw (length-append h pay, wide, header_ltb (length pay), header_sub (length pay))
        (after-ok (λ u. _) (counted_if (ltb 0 (length pay)) (log_recv (length pay)) s) refl)

  write_packet_open :
      (s : MtState D) (c : Conn) (expired : Bool) (dialled : Outcome Conn) (id : RouteId)
      (pay h : Bytes)
      → c.written ≡ ok tt
      → make_packet id pay ≡ ok (h ++ pay)
      → length h ≡ packet_header_size
      → write_packet new_hash cipher json local_sk discovery expired dialled id pay (serving c s)
        ≡ (serving_sent (record c { output = c.output ++ (h ++ pay) }) (length pay) s, ok tt)
  unfolding write_packet
  write_packet_open s c expired dialled id pay h writes made wide =
      rw (made, write_open (h ++ pay) c writes) (after_packet_sent h pay _ (serving c s) wide)

  read_packet_open :
      (s : MtState D) (c : Conn) (pay h rest : Bytes)
      → s.tp.conn ≡ some c
      → c.input ≡ h ++ (pay ++ rest)
      → length h ≡ packet_header_size
      → size h ≡ ok (length pay)
      → read_packet new_hash cipher json local_sk discovery s ≡ (
        record s { tp = received_on (record c { input = rest }) (length pay) s.tp },
        ok (some (h ++ pay)),
      )
  unfolding read_packet read_or_wait read_from
  read_packet_open s c pay h rest held is wide sized =
      rw
        (
          held,
          read_bytes_lem h (pay ++ rest) packet_header_size c wide is,
          sized,
          read_bytes_lem pay rest (length pay) (record c { input = pay ++ rest }) refl refl,
        )
        (after-ok (λ p. _)
          (counted_received h pay
            (record s { tp = record (s.tp) { conn = some (record c { input = rest }) } }) wide)
          refl)

  -- What one end of a transport writes, the other end reads. A transport that is served, and has a
  -- connection on which Write succeeds, writes a packet of at most 65535 bytes of payload: it appends
  -- the packet to the connection and counts the payload as sent. A transport whose connection's input
  -- begins with what was written reads exactly this packet, leaves the rest, and counts the same
  -- number of bytes as received.
  pub write_packet-read_packet :
      (s t : MtState D) (c d : Conn) (expired : Bool) (dialled : Outcome Conn) (id : RouteId)
      (pay rest : Bytes)
      → c.written ≡ ok tt
      → length pay ≤ max_uint16
      → (packet : Packet) × (make_packet id pay ≡ ok packet)
        × (write_packet new_hash cipher json local_sk discovery expired dialled id pay (serving c s)
            ≡ (serving_sent (record c { output = c.output ++ packet }) (length pay) s, ok tt))
        × (read_packet new_hash cipher json local_sk discovery
              (serving (record d { input = packet ++ rest }) t)
            ≡ (serving_received (record d { input = rest }) (length pay) t, ok (some packet)))
  write_packet-read_packet s t c d expired dialled id pay rest writes fits =
      let (h, made, wide, sized) = make_packet_parts id pay fits in
      (
        h ++ pay,
        made,
        write_packet_open s c expired dialled id pay h writes made wide,
        read_packet_open (serving (record d { input = (h ++ pay) ++ rest }) t)
            (record d { input = (h ++ pay) ++ rest }) pay h rest refl (append_assoc h pay rest) wide
            sized,
      )
