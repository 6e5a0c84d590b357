-- ===== src/Setup/Protocol/Framing.antt =====
-- protocol.go: ReadPacket against WritePacket.
use mathlib.Core.List.{append_assoc, append-nil}
use native.Mathlib.Nat.{mod-eq_of_lt}
use skywire_mainnet_old.Base.{
  ℕ, suc, ◌+◌, ◌%◌, ◌^◌, ◌<◌, ◌≤◌, ◌≡◌, ◌≢◌, refl, ap, sym, ◌∙◌, List, [], ◌∷◌, ◌++◌, Bytes,
  replicate, length, length-append, length-replicate, length-be_bytes, ok, err, ◌>>=◌, bind_ok,
  be_bytes, byte_at, copy_at-end, flat, flat-append, put_field, read_field, read_full,
  read_full-append, take, drop, take-append-drop, nat_beq, if◌then◌else◌, empty_packet, Error,
  arith, length-take,
}
use skywire_mainnet_old.Setup.Protocol.{read_packet, packet_bytes}

abbrev pub header : ℕ → ℕ → List Bytes
header t n = be_bytes 1 t ∷ be_bytes 2 n ∷ []

length-header : (t n : ℕ) → length (flat (header t n)) ≡ 3
length-header t n = simp (length-append, length-be_bytes)

blank : (n : ℕ) → replicate (3 + n) 0 ≡ flat (replicate 1 0 ∷ replicate 2 0 ∷ replicate n 0 ∷ [])
blank n = let three : 3 + n ≡ suc (suc (suc n)) = omega arith in rw three (rw append-nil)

pub packet_bytes-row :
    (t : ℕ) (pay : Bytes) → packet_bytes t pay ≡ ok (flat (header t (length pay % 2 ^ 16)) ++ pay)
unfolding packet_bytes
packet_bytes-row t pay =
    let n : ℕ = length pay % 2 ^ 16 in
    let body : Bytes = replicate (length pay) 0 in
    rw (blank (length pay)) (
      bind_ok _ (put_field [] (replicate 1 0) (replicate 2 0 ∷ body ∷ []) 0 1 t refl refl) (
        bind_ok _
          (put_field (be_bytes 1 t ∷ []) (replicate 2 0) (body ∷ []) 1 2 n
            (simp (length-append, length-be_bytes)) refl)
          (rw (flat-append (header t n) (body ∷ [])) (
            copy_at-end 3 (flat (header t n)) (body ++ []) pay (length-header t n)
              (rw append-nil (sym (length-replicate (length pay) 0)))))))

module _ (at_end : Error) (t n : ℕ) (tail : Bytes) (byte : t < 256) (short : n < 2 ^ 16) where
  read_header : read_packet at_end (flat (header t n) ++ tail) ≡ (do
    (pay, input) ← read_full at_end n tail
    if nat_beq (length pay) 0 then err empty_packet else ok (t, pay, input))
  unfolding read_packet
  read_header = bind_ok _ (read_full-append at_end 3 (flat (header t n)) tail (length-header t n)) (
      bind_ok _ type_byte (
        bind_ok _
          (read_field (be_bytes 1 t ∷ []) [] 1 2 n (simp (length-append, length-be_bytes))
            (omega arith))
          refl))
    where
      type_byte : byte_at 0 (flat (header t n)) ≡ ok t
      type_byte = unfold byte_at be_bytes in ap ok (mod-eq_of_lt byte)

  read_row :
      (pay rest : Bytes)
      → tail ≡ pay ++ rest
      → length pay ≡ n
      → read_packet at_end (flat (header t n) ++ tail)
        ≡ (if nat_beq n 0 then err empty_packet else ok (t, pay, rest))
  read_row pay rest split wide =
      read_header
      ∙ bind_ok _ (ap (read_full at_end n) split ∙ read_full-append at_end n pay rest wide)
          (ap (λ k. if nat_beq k 0 then err empty_packet else ok (t, pay, rest)) wide)

-- ReadPacket gives back the type and the payload of a packet that WritePacket wrote, and leaves what
-- follows it, for a type that is a byte and a payload of 1 to 65535 bytes; for an empty payload it
-- reports an empty packet.
pub read_packet-packet_bytes :
    (at_end : Error) (t : ℕ) (pay rest : Bytes)
    → t < 256
    → length pay < 2 ^ 16
    → (packet_bytes t pay >>= λ raw. read_packet at_end (raw ++ rest))
      ≡ (if nat_beq (length pay) 0 then err empty_packet else ok (t, pay, rest))
read_packet-packet_bytes at_end t pay rest byte short = bind_ok _ (packet_bytes-row t pay) (
    rw (mod-eq_of_lt short) (
      ap (read_packet at_end) (append_assoc (flat (header t (length pay))) pay rest)
      ∙ read_row at_end t (length pay) (pay ++ rest) byte short pay rest refl refl))

-- WritePacket accepts a payload of 65536 bytes or more, and writes its length modulo 65536: where
-- that is not 0, ReadPacket returns only so many bytes as the payload and leaves the others on the
-- connection, in front of what follows.
pub read_packet_cut :
    (at_end : Error) (t : ℕ) (pay rest : Bytes)
    → t < 256
    → 2 ^ 16 ≤ length pay
    → length pay % 2 ^ 16 ≢ 0
    → (packet_bytes t pay >>= λ raw. read_packet at_end (raw ++ rest))
      ≡ ok (t, take (length pay % 2 ^ 16) pay, drop (length pay % 2 ^ 16) pay ++ rest)
read_packet_cut at_end t pay rest byte long nonzero = bind_ok _ (packet_bytes-row t pay) (
    ap (read_packet at_end) (append_assoc (flat (header t n)) pay rest)
    ∙ read_row at_end t n (pay ++ rest) byte (omega arith) (take n pay) (drop n pay ++ rest)
        (ap (λ p. p ++ rest) (sym (take-append-drop n pay))
          ∙ append_assoc (take n pay) (drop n pay) rest)
        (length-take n pay (omega arith))
    ∙ ground arith)
  where
    n : ℕ
    n = length pay % 2 ^ 16
