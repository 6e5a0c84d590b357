-- ===== src/Routing/Packet.antt =====
-- pkg/routing/packet.go: a packet is a six-byte header and a payload.
use skywire_mainnet_old.Base.{
  ℕ, ◌≤◌, ◌<◌, ◌^◌, ◌≡◌, refl, List, [], ◌∷◌, ◌++◌, Bytes, replicate, Outcome, ok, panic, ◌>>=◌,
  bind_ok, length, drop, ltb, leb, if◌then◌else◌, put_be, read_be, be_bytes, length-be_bytes, flat,
  flat-snoc, put_field, read_field, drop-append_left, length-append, arith,
}
use skywire_mainnet_old.Routing.Addr.{RouteId}

abbrev pub Packet : Type 0
Packet = Bytes

abbrev pub packet_header_size : ℕ
packet_header_size = 6

abbrev pub max_uint16 : ℕ
max_uint16 = 65535

unfoldable pub make_packet : RouteId → Bytes → Outcome Packet
make_packet id payload = if ltb max_uint16 (length payload) then panic else do
  packet ← put_be 0 2 (length payload) (replicate packet_header_size 0)
  packet ← put_be 2 4 id packet
  ok (packet ++ payload)

unfoldable pub size : Packet → Outcome ℕ
size p = read_be 0 2 p

unfoldable pub packet_route_id : Packet → Outcome RouteId
packet_route_id p = read_be 2 4 p

-- `p[PacketHeaderSize:]`
unfoldable pub payload : Packet → Outcome Bytes
payload p = if leb packet_header_size (length p) then ok (drop packet_header_size p) else panic

abbrev packet_row : RouteId → Bytes → List Bytes
packet_row id pay = be_bytes 2 (length pay) ∷ be_bytes 4 id ∷ []

length-packet_row : (id : RouteId) (pay : Bytes) → length (flat (packet_row id pay)) ≡ 6
length-packet_row id pay = simp (length-append, length-be_bytes)

put_header :
    (id : RouteId) (pay : Bytes)
    → (do
      packet ← put_be 0 2 (length pay) (replicate packet_header_size 0)
      packet ← put_be 2 4 id packet
      ok (packet ++ pay))
      ≡ ok (flat (packet_row id pay) ++ pay)
put_header id pay =
    bind_ok _ (put_field [] (replicate 2 0) (replicate 4 0 ∷ []) 0 2 (length pay) refl refl) (
      bind_ok (λ p. ok (p ++ pay))
        (put_field (be_bytes 2 (length pay) ∷ []) (replicate 4 0) [] 2 4 id
          (simp (length-append, length-be_bytes)) refl)
        refl)

make_packet-row :
    (id : RouteId) (pay : Bytes)
    → length pay ≤ max_uint16
    → make_packet id pay ≡ ok (flat (packet_row id pay) ++ pay)
unfolding make_packet
make_packet-row id pay h = ground (arith, put_header id pay)

row_size :
    (id : RouteId) (pay : Bytes)
    → length pay ≤ max_uint16
    → size (flat (packet_row id pay) ++ pay) ≡ ok (length pay)
unfolding size
row_size id pay h =
    rw (flat-snoc (packet_row id pay) pay)
      (read_field [] (be_bytes 4 id ∷ pay ∷ []) 0 2 (length pay) refl (omega arith))

row_id :
    (id : RouteId) (pay : Bytes)
    → id < 2 ^ 32
    → packet_route_id (flat (packet_row id pay) ++ pay) ≡ ok id
unfolding packet_route_id
row_id id pay h = rw (flat-snoc (packet_row id pay) pay) (
    read_field (be_bytes 2 (length pay) ∷ []) (pay ∷ []) 2 4 id
      (simp (length-append, length-be_bytes)) h)

row_payload : (id : RouteId) (pay : Bytes) → payload (flat (packet_row id pay) ++ pay) ≡ ok pay
unfolding payload
row_payload id pay =
    rw
      (drop-append_left packet_header_size (flat (packet_row id pay)) pay
        (length-packet_row id pay))
      (ground (arith, length-append (flat (packet_row id pay)) pay, length-packet_row id pay))

-- MakePacket of a uint32 route ID and at most 65535 bytes returns a packet, and Size, RouteID and
-- Payload read back the payload's length, the route ID and the payload.
pub make_packet_reads :
    (id : RouteId) (pay : Bytes)
    → id < 2 ^ 32
    → length pay ≤ max_uint16
    → (p : Packet) × (make_packet id pay ≡ ok p)
      × (size p ≡ ok (length pay))
      × (packet_route_id p ≡ ok id)
      × (payload p ≡ ok pay)
make_packet_reads id pay hid hlen = (
  flat (packet_row id pay) ++ pay,
  make_packet-row id pay hlen,
  row_size id pay hlen,
  row_id id pay hid,
  row_payload id pay,
)

-- A packet is a header, which tells the payload's length by itself, and the payload.
pub make_packet_parts :
    (id : RouteId) (pay : Bytes)
    → length pay ≤ max_uint16
    → (h : Bytes) × (make_packet id pay ≡ ok (h ++ pay))
      × (length h ≡ packet_header_size)
      × (size h ≡ ok (length pay))
unfolding size
make_packet_parts id pay fits = (
  flat (packet_row id pay),
  make_packet-row id pay fits,
  length-packet_row id pay,
  read_field [] (be_bytes 4 id ∷ []) 0 2 (length pay) refl (omega arith),
)
