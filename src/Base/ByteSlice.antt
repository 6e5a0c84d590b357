-- ===== src/Base/ByteSlice.antt =====
-- Byte slices, and encoding/binary's BigEndian over them. The capacity of a slice is its length.
use Prim.Native.Nat.{ℕ, zero, suc, ◌+◌, ◌*◌, ◌/◌, ◌%◌, ◌^◌, ◌<◌}
use mathlib.Core.Path.{◌≡◌, refl, ◌∙◌}
use mathlib.Core.List.{List, [], ◌∷◌, ◌++◌, append_assoc}
use mathlib.Core.Option.{none, some}
use native.Mathlib.Omega.{arith}
use native.Mathlib.Nat.{pow-suc}
use skywire_mainnet_old.Base.Tests.{if◌then◌else◌, leb}
use skywire_mainnet_old.Base.Lists.{
  All, length, get_elem?, take, drop, length-append, take-append_left, drop-append_left,
}
use skywire_mainnet_old.Base.Results.{Outcome, ok, panic, ◌>>=◌}

abbrev pub Bytes : Type 0
Bytes = List ℕ

-- The `k` bytes of `v`, highest first; higher digits of `v` are cut off.
unfoldable pub be_bytes : ℕ → ℕ → Bytes
be_bytes zero v = []
be_bytes (suc k) v = be_bytes k (v / 256) ++ (v % 256) ∷ []

from_be_loop : ℕ → Bytes → ℕ
from_be_loop acc [] = acc
from_be_loop acc (b ∷ bs) = from_be_loop (acc * 256 + b) bs

unfoldable pub from_be : Bytes → ℕ
unfolding from_be_loop
from_be = from_be_loop 0

-- `b[i]`
unfoldable pub byte_at : ℕ → Bytes → Outcome ℕ
byte_at i b = elim (get_elem? b i) [ none ↦ panic | some x ↦ ok x ]

-- `b[lo:lo+k]`
unfoldable pub slice : ℕ → ℕ → Bytes → Outcome Bytes
slice lo k b = if leb (lo + k) (length b) then ok (take k (drop lo b)) else panic

-- `binary.BigEndian.Uint…(b[lo:])`, of `k` bytes
unfoldable pub read_be : ℕ → ℕ → Bytes → Outcome ℕ
unfolding slice
read_be lo k b = do s ← slice lo k b; ok (from_be s)

-- `binary.BigEndian.PutUint…(b[lo:], v)`, of `k` bytes
unfoldable pub put_be : ℕ → ℕ → ℕ → Bytes → Outcome Bytes
put_be lo k v b =
    if leb (lo + k) (length b) then ok (take lo b ++ (be_bytes k v ++ drop (lo + k) b)) else panic

pub length-be_bytes : (k v : ℕ) → length (be_bytes k v) ≡ k
unfolding be_bytes
length-be_bytes zero v = refl
length-be_bytes (suc k) v =
    omega
      (arith, length-append (be_bytes k (v / 256)) ((v % 256) ∷ []), length-be_bytes k (v / 256))

from_be_loop-append :
    (acc b : ℕ) (xs : Bytes) → from_be_loop acc (xs ++ b ∷ []) ≡ from_be_loop acc xs * 256 + b
unfolding from_be_loop
from_be_loop-append acc b [] = refl
from_be_loop-append acc b (x ∷ xs) = from_be_loop-append (acc * 256 + x) b xs

-- Decoding the bytes of a value that fits gives the value back.
pub from_be-be_bytes : (k v : ℕ) → v < 256 ^ k → from_be (be_bytes k v) ≡ v
unfolding from_be be_bytes
from_be-be_bytes zero v h = unfold from_be_loop in omega arith
from_be-be_bytes (suc k) v h =
    from_be_loop-append 0 (v % 256) (be_bytes k (v / 256))
    ∙ omega (arith, from_be-be_bytes k (v / 256) (omega (arith, pow-suc 256 k)))

-- The elements are bytes.
abbrev pub AllBytes : Bytes → Type 0
AllBytes b = All (λ x. x < 256) b

from_be_loop-inj :
    (m n : ℕ) (xs ys : Bytes)
    → length xs ≡ length ys
    → AllBytes xs
    → AllBytes ys
    → from_be_loop m xs ≡ from_be_loop n ys
    → (m ≡ n) × (xs ≡ ys)
unfolding from_be_loop
from_be_loop-inj m n [] [] wide p q e = (e, refl)
from_be_loop-inj m n [] (y ∷ ys) wide p q e = absurd (omega arith)
from_be_loop-inj m n (x ∷ xs) [] wide p q e = absurd (omega arith)
from_be_loop-inj m n (x ∷ xs) (y ∷ ys) wide p q e =
    let (heads, tails) =
      from_be_loop-inj (m * 256 + x) (n * 256 + y) xs ys (omega arith) p.1 q.1 e in
    let same : x ≡ y = omega (arith, heads, p.0, q.0) in
    (omega (arith, heads, p.0, q.0), rw (same, tails) refl)

-- Two slices of one length that are the same number are the same slice.
pub from_be-inj :
    (xs ys : Bytes)
    → length xs ≡ length ys
    → AllBytes xs
    → AllBytes ys
    → from_be xs ≡ from_be ys
    → xs ≡ ys
unfolding from_be
from_be-inj xs ys wide p q e = (from_be_loop-inj 0 0 xs ys wide p q e).1

module _ (a b c : Bytes) where
  module _ (lo k : ℕ) (at : length a ≡ lo) (wide : length b ≡ k) where
    pub slice-append : slice lo k (a ++ (b ++ c)) ≡ ok b
    unfolding slice
    slice-append =
        rw (drop-append_left lo a (b ++ c) at, take-append_left k b c wide)
          (ground (arith, length-append a (b ++ c), length-append b c))

    pub put_be-append : (v : ℕ) → put_be lo k v (a ++ (b ++ c)) ≡ ok (a ++ (be_bytes k v ++ c))
    unfolding put_be
    put_be-append v =
        rw (take-append_left lo a (b ++ c) at, ← append_assoc a b c)
          (rw (drop-append_left (lo + k) (a ++ b) c both)
            (ground (arith, both, length-append (a ++ b) c)))
      where
        both : length (a ++ b) ≡ lo + k
        both = omega (arith, length-append a b)
