-- ===== src/Base/Maps.antt =====
-- A Go map as an association list with one entry for a key. `range` takes the entries in some
-- order; the order of the list stands for it, and theorems are about every list.
use mathlib.Core.Path.{◌≡◌, refl, subst}
use mathlib.Core.Logic.{◌≢◌}
use mathlib.Core.List.{List, [], ◌∷◌}
use mathlib.Core.Option.{Option, none, some}
use native.Mathlib.Omega.{arith}
use Prim.Native.Nat.{◌+◌}
use mathlib.Core.Bool.{false}
use mathlib.Core.Logic.{inl, inr}
use skywire_mainnet_old.Base.Lists.{length}
use skywire_mainnet_old.Base.Tests.{if◌then◌else◌, Comparable, ◌==◌, Bool-cases, beq_refl, contains}

abbrev pub Map {ℓ κ} : Type ℓ → Type κ → Type (ℓ ⊔ κ)
Map K V = List (K × V)

module _ {ℓ κ} {K : Type ℓ} {V : Type κ} ⦃e : Comparable K⦄ where
  -- `v, ok := m[k]`
  unfoldable pub lookup : K → Map K V → Option V
  lookup k [] = none
  lookup k ((j, v) ∷ m) = if j == k then some v else lookup k m

  -- `m[k] = v`
  unfoldable pub insert : K → V → Map K V → Map K V
  insert key new [] = (key, new) ∷ []
  insert key new ((j, old) ∷ rest) =
      let after = insert key new rest in if j == key then (key, new) ∷ rest else (j, old) ∷ after

  -- `delete(m, k)`
  unfoldable pub remove : K → Map K V → Map K V
  remove k [] = []
  remove k ((j, v) ∷ m) = let rest = remove k m in if j == k then rest else (j, v) ∷ rest

  pub lookup-insert :
      (key asked : K) (new : V) (entries : Map K V)
      → lookup asked (insert key new entries)
        ≡ (if key == asked then some new else lookup asked entries)
  unfolding insert lookup
  lookup-insert key asked new ((i, old) ∷ rest) = ground (
    arith,
    e.agrees i asked,
    e.agrees i key,
    e.agrees key asked,
    lookup-insert key asked new rest,
  )
  lookup-insert key asked new [] = refl

  pub lookup-remove :
      (k j : K) (m : Map K V) → lookup j (remove k m) ≡ (if k == j then none else lookup j m)
  unfolding lookup remove
  lookup-remove k j [] = ground arith
  lookup-remove k j ((i, w) ∷ m) =
      ground (arith, e.agrees k j, e.agrees i k, e.agrees i j, lookup-remove k j m)

  pub lookup-insert_self : (k : K) (v : V) (m : Map K V) → lookup k (insert k v m) ≡ some v
  lookup-insert_self k v m = simp (lookup-insert, beq_refl)

  pub lookup-remove_self : (k : K) (m : Map K V) → lookup k (remove k m) ≡ none
  lookup-remove_self k m = simp (lookup-remove, beq_refl)

  pub lookup-insert_ne :
      (k j : K) (v : V) (m : Map K V) → k ≢ j → lookup j (insert k v m) ≡ lookup j m
  lookup-insert_ne k j v m h = rw lookup-insert (ground (arith, e.agrees k j))

  pub lookup-remove_ne : (k j : K) (m : Map K V) → k ≢ j → lookup j (remove k m) ≡ lookup j m
  lookup-remove_ne k j m h = rw lookup-remove (ground (arith, e.agrees k j))

  pub length-insert_new :
      (k : K) (v : V) (m : Map K V) → lookup k m ≡ none → length (insert k v m) ≡ length m + 1
  unfolding lookup insert
  length-insert_new k v [] h = refl
  length-insert_new k v ((j, w) ∷ m) h = ground (arith, length-insert_new k v m)

  -- `for _, k := range ks { delete(m, k) }`
  unfoldable pub remove_all : List K → Map K V → Map K V
  remove_all [] m = m
  remove_all (k ∷ ks) m = remove_all ks (remove k m)

  pub lookup-remove_all :
      (ks : List K) (j : K) (m : Map K V)
      → lookup j (remove_all ks m) ≡ (if contains j ks then none else lookup j m)
  unfolding remove_all contains
  lookup-remove_all [] j m = refl
  lookup-remove_all (k ∷ ks) j m =
      ground (arith, lookup-remove_all ks j (remove k m), lookup-remove k j m)

  -- Each key has one entry, as in every Go map.
  abbrev pub Distinct : Map K V → Type κ
  Distinct [] = Unit {κ}
  Distinct ((k, v) ∷ m) = (lookup k m ≡ none) × Distinct m

  absent_after_insert :
      (k j : K) (v : V) (m : Map K V)
      → (j == k) ≡ false
      → lookup j m ≡ none
      → lookup j (insert k v m) ≡ none
  absent_after_insert k j v m ne h =
      ground (arith, lookup-insert k j v m, e.agrees j k, e.agrees k j)

  absent_after_remove : (k j : K) (m : Map K V) → lookup j m ≡ none → lookup j (remove k m) ≡ none
  absent_after_remove k j m h = ground (arith, lookup-remove k j m)

  pub insert-Distinct : (k : K) (v : V) (m : Map K V) → Distinct m → Distinct (insert k v m)
  unfolding insert
  insert-Distinct k v [] h = (unfold lookup in refl, tt)
  insert-Distinct k v ((j, w) ∷ m) h = elim (Bool-cases (j == k)) [
    | inl same ↦ rw same (subst (λ x. lookup x m ≡ none) ((e.agrees j k).0 same) h.0, h.1)
    | inr other ↦ rw other (absent_after_insert k j v m other h.0, insert-Distinct k v m h.1)
  ]

  pub remove-Distinct : (k : K) (m : Map K V) → Distinct m → Distinct (remove k m)
  unfolding remove
  remove-Distinct k [] h = h
  remove-Distinct k ((j, w) ∷ m) h = elim (Bool-cases (j == k)) [
    | inl same ↦ rw same (remove-Distinct k m h.1)
    | inr other ↦ rw other (absent_after_remove k j m h.0, remove-Distinct k m h.1)
  ]

  remove_absent : (k : K) (m : Map K V) → lookup k m ≡ none → remove k m ≡ m
  unfolding remove lookup
  remove_absent k [] h = refl
  remove_absent k ((j, w) ∷ m) h = ground (arith, remove_absent k m)

  -- Deleting a key that is there leaves one entry less.
  pub length-remove_present :
      (k : K) (v : V) (m : Map K V)
      → Distinct m
      → lookup k m ≡ some v
      → length (remove k m) + 1 ≡ length m
  unfolding remove lookup
  length-remove_present k v [] d h = cc
  length-remove_present k v ((j, w) ∷ m) d h =
      ground (arith, e.agrees j k, remove_absent k m, length-remove_present k v m d.1)
