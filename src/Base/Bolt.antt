-- ===== src/Base/Bolt.antt =====
-- The bbolt database that pkg/routing and pkg/hypervisor keep their records in. Its operations are those
-- that they call; `B` is the state of the bucket that they use. A function that is given to `update` or
-- `view` returns the value that the Go function stores in a variable outside of it.
pub mod Memory
use skywire_mainnet_old.Base.Tests.{if◌then◌else◌, ◌==◌, list_eq, nat_eq}
use skywire_mainnet_old.Base.Results.{Error, Outcome, ok, err}
use skywire_mainnet_old.Base.Step.{Step}
use skywire_mainnet_old.Base.ByteSlice.{Bytes}
use Prim.Native.Nat.{ℕ, ◌+◌, ◌^◌, ◌<◌}
use mathlib.Core.Path.{◌≡◌}
use mathlib.Core.Logic.{◌⊎◌}
use mathlib.Core.Option.{Option, none, some}
use mathlib.Core.List.{List}

pub record Bolt (B : Type 0) : Type 1 where
  pub get : Bytes → B → Option Bytes
  pub put : Bytes → Bytes → Step B (Unit {0})
  pub delete : Bytes → Step B (Unit {0})
  pub next_sequence : Step B ℕ
  pub entries : B → List (Bytes × Bytes)
  pub key_n : B → ℕ
  pub update : {A : Type 0} → Step B A → Step B A
  pub view : {A : Type 0} → (B → Outcome A) → B → Outcome A

-- A call that returns a value, with which `Q` holds, or else an error of the database.
abbrev pub Tries : {B A : Type 0} → (Error → Type 0) → B × Outcome A → (B → A → Type 0) → Type 0
Tries {B} {A} Failure m Q =
    ((b : B) × (a : A) × (m ≡ (b, ok a)) × Q b a)
    ⊎ ((b : B) × (e : Error) × (m ≡ (b, err e)) × Failure e)

-- What bbolt documents. `sequence` is the bucket's counter, and `Failure` holds of the errors with which
-- the database fails.
pub record IsBolt {B : Type 0} (db : Bolt B) (sequence : B → ℕ) (Failure : Error → Type 0)
    : Type 1 where
  pub put_tries :
      (k v : Bytes) (b : B)
      → Tries Failure (db.put k v b) (λ b' _.
        ((j : Bytes) → db.get j b' ≡ (if k == j then some v else db.get j b))
        × (sequence b' ≡ sequence b))
  pub delete_tries :
      (k : Bytes) (b : B)
      → Tries Failure (db.delete k b) (λ b' _.
        ((j : Bytes) → db.get j b' ≡ (if k == j then none else db.get j b))
        × (sequence b' ≡ sequence b))
  pub next_tries :
      (b : B)
      → Tries Failure (db.next_sequence b) (λ b' n.
        (n ≡ sequence b + 1) × (sequence b' ≡ n) × ((j : Bytes) → db.get j b' ≡ db.get j b))
  pub commits :
      {A : Type 0} (f : Step B A) (b b' : B) (a : A)
      → f b ≡ (b', ok a)
      → (db.update f b ≡ (b', ok a)) ⊎ ((e : Error) × Failure e × (db.update f b ≡ (b, err e)))
  pub rolls_back :
      {A : Type 0} (f : Step B A) (b b' : B) (e : Error)
      → f b ≡ (b', err e)
      → db.update f b ≡ (b, err e)
  pub views :
      {A : Type 0} (f : B → Outcome A) (b : B)
      → (db.view f b ≡ f b) ⊎ ((e : Error) × Failure e × (db.view f b ≡ err e))
