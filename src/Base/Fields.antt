-- ===== src/Base/Fields.antt =====
-- A byte slice as a row of fields: reading and writing one of them.
use Prim.Native.Nat.{ℕ, ◌<◌, ◌^◌}
use mathlib.Core.Path.{◌≡◌, refl, sym, ap}
use mathlib.Core.List.{List, [], ◌∷◌, ◌++◌, append_assoc, append-nil}
use skywire_mainnet_old.Base.Lists.{length}
use skywire_mainnet_old.Base.Results.{ok, bind_ok}
use skywire_mainnet_old.Base.ByteSlice.{
  Bytes, be_bytes, slice, read_be, put_be, slice-append, put_be-append, from_be-be_bytes,
  length-be_bytes,
}

abbrev pub flat : List Bytes → Bytes
flat [] = []
flat (x ∷ xs) = x ++ flat xs

pub flat-append : (xs ys : List Bytes) → flat (xs ++ ys) ≡ flat xs ++ flat ys
flat-append [] ys = refl
flat-append (x ∷ xs) ys = rw (flat-append xs ys) (sym (append_assoc x (flat xs) (flat ys)))

-- `append(b, x...)`
pub flat-snoc : (xs : List Bytes) (x : Bytes) → flat xs ++ x ≡ flat (xs ++ x ∷ [])
flat-snoc xs x = rw (flat-append xs (x ∷ []), append-nil)

module _ (xs : List Bytes) (b : Bytes) (ys : List Bytes) where
  pub slice_field :
      (lo k : ℕ) → length (flat xs) ≡ lo → length b ≡ k → slice lo k (flat (xs ++ b ∷ ys)) ≡ ok b
  slice_field lo k at wide =
      rw (flat-append xs (b ∷ ys)) (slice-append (flat xs) b (flat ys) lo k at wide)

  pub put_field :
      (lo k v : ℕ)
      → length (flat xs) ≡ lo
      → length b ≡ k
      → put_be lo k v (flat (xs ++ b ∷ ys)) ≡ ok (flat (xs ++ be_bytes k v ∷ ys))
  put_field lo k v at wide =
      rw (flat-append xs (b ∷ ys), flat-append xs (be_bytes k v ∷ ys))
        (put_be-append (flat xs) b (flat ys) lo k at wide v)

pub read_field :
    (xs ys : List Bytes) (lo k v : ℕ)
    → length (flat xs) ≡ lo
    → v < 256 ^ k
    → read_be lo k (flat (xs ++ be_bytes k v ∷ ys)) ≡ ok v
unfolding read_be
read_field xs ys lo k v at fits =
    bind_ok _ (slice_field xs (be_bytes k v) ys lo k at (length-be_bytes k v))
      (ap ok (from_be-be_bytes k v fits))
