-- ===== src/Base/Stream.antt =====
-- io.ReadFull on what a peer has sent before it closed its side, and copy into a slice.
use Prim.Native.Nat.{ℕ, zero, suc, ◌+◌, ◌-◌, ◌≤◌}
use mathlib.Core.Path.{◌≡◌, refl, ap}
use mathlib.Core.List.{[], ◌∷◌, ◌++◌, append-nil}
use native.Mathlib.Omega.{arith}
use skywire_mainnet_old.Base.Tests.{if◌then◌else◌, leb, nat_beq}
use skywire_mainnet_old.Base.Lists.{
  length, take, drop, length-append, take-append_left, drop-append_left,
}
use skywire_mainnet_old.Base.Results.{Outcome, Error, ok, err, panic, eof, unexpected_eof}
use skywire_mainnet_old.Base.ByteSlice.{Bytes}

-- io.ReadFull's error at the end of the input, where Read returns `at_end`: after io.EOF it tells
-- nothing read (io.EOF) from too little (io.ErrUnexpectedEOF).
unfoldable pub shortage : Error → Bytes → Error
shortage eof s = if nat_beq (length s) 0 then eof else unexpected_eof
shortage e s = e

-- The bytes read and the bytes that follow.
unfoldable pub read_full : Error → ℕ → Bytes → Outcome (Bytes × Bytes)
read_full at_end n s = if leb n (length s) then ok (take n s, drop n s) else err (shortage at_end s)

pub read_full-append :
    (at_end : Error) (n : ℕ) (b rest : Bytes)
    → length b ≡ n
    → read_full at_end n (b ++ rest) ≡ ok (b, rest)
unfolding read_full
read_full-append at_end n b rest h =
    rw (take-append_left n b rest h, drop-append_left n b rest h)
      (ground (arith, length-append b rest))

-- `copy(b[lo:], src)`
unfoldable pub copy_at : ℕ → Bytes → Bytes → Outcome Bytes
copy_at lo src b =
    if leb lo (length b)
    then ok (take lo b ++ (take (length b - lo) src ++ drop (lo + length src) b))
    else panic

take_all : (n : ℕ) (b : Bytes) → length b ≤ n → take n b ≡ b
take_all zero [] h = refl
take_all zero (x ∷ b) h = absurd (omega arith)
take_all (suc n) [] h = refl
take_all (suc n) (x ∷ b) h = ap (◌∷◌ x) (take_all n b (omega arith))

drop_all : (n : ℕ) (b : Bytes) → length b ≤ n → drop n b ≡ []
drop_all zero [] h = refl
drop_all zero (x ∷ b) h = absurd (omega arith)
drop_all (suc n) [] h = refl
drop_all (suc n) (x ∷ b) h = drop_all n b (omega arith)

pub copy_at-end :
    (lo : ℕ) (a b src : Bytes)
    → length a ≡ lo
    → length src ≡ length b
    → copy_at lo src (a ++ b) ≡ ok (a ++ src)
unfolding copy_at
copy_at-end lo a b src at wide = rw (take-append_left lo a b at) (
    rw
      (
        take_all (length (a ++ b) - lo) src (omega (arith, length-append a b)),
        drop_all (lo + length src) (a ++ b) (omega (arith, length-append a b)),
        append-nil,
      )
      (ground (arith, length-append a b)))
