-- ===== src/Routing/BoltTable/Holding.antt =====
-- boltdb_routing_table.go: what it is for a database to hold a table, and what a transaction keeps.
use skywire_mainnet_old.Base.{
  Bool-cases, Bytes, Error, Outcome, ap, arith, beq_refl, err, from_be, from_be-be_bytes,
  if◌then◌else◌, inl, inr, insert, list_eq, lookup, lookup-insert, nat_eq, ok, refl, some, sym, ℕ,
  ◌%◌, ◌<◌, ◌==◌, ◌^◌, ◌∙◌, ◌≡◌, ◌⊎◌,
}
use skywire_mainnet_old.Base.Step.{Step}
use skywire_mainnet_old.Base.Bolt.{Bolt, IsBolt}
use skywire_mainnet_old.Routing.Addr.{RouteId}
use skywire_mainnet_old.Routing.Rule.{Rule}
use skywire_mainnet_old.Routing.Table.{Table}
use skywire_mainnet_old.Routing.BoltTable.{binary_id}

abbrev pub IsId : RouteId → Type 0
IsId id = id < 2 ^ 32

binary_id_back : (i : RouteId) → IsId i → from_be (binary_id i) ≡ i
binary_id_back i small = from_be-be_bytes 4 (i % 2 ^ 32) (omega arith) ∙ omega arith

binary_id-inj : (i j : RouteId) → IsId i → IsId j → binary_id i ≡ binary_id j → i ≡ j
binary_id-inj i j small_i small_j p =
    sym (binary_id_back i small_i) ∙ ap from_be p ∙ binary_id_back j small_j

pub binary_id_beq : (i j : RouteId) → IsId i → IsId j → (binary_id i == binary_id j) ≡ (i == j)
binary_id_beq i j small_i small_j = elim (Bool-cases (i == j)) [
  | inl same ↦
      ap (λ k. binary_id i == binary_id k) (sym ((nat_eq.agrees i j).0 same))
      ∙ beq_refl (binary_id i)
      ∙ sym same
  | inr other ↦ elim (Bool-cases (binary_id i == binary_id j)) [
    | inl equal ↦
        let p =
          binary_id-inj i j small_i small_j
            ((list_eq.agrees (binary_id i) (binary_id j)).0 equal) in
        equal ∙ sym ((nat_eq.agrees i j).1 p)
    | inr unequal ↦ unequal ∙ sym other
  ]
]

module _ {B : Type 0} (db : Bolt B) (sequence : B → ℕ) (Failure : Error → Type 0)
    (bolt : IsBolt db sequence Failure) where
  -- The database and the table in memory hold the same rules, and the same counter.
  pub record Holds (b : B) (t : Table) : Type 0 where
    pub counts : sequence b ≡ t.next_id
    pub has : (id : RouteId) → IsId id → db.get (binary_id id) b ≡ lookup id t.rules

  -- The database fails, the call with it, and all is as before, or it does what the table in memory does.
  abbrev pub Agrees : {A : Type 0} → B → B × Outcome A → Table × Outcome A → Type 0
  Agrees b (b', r) (t', r') =
      ((e : Error) × (r ≡ err e) × Failure e × (b' ≡ b)) ⊎ ((r ≡ r') × Holds b' t')

  pub update_ok :
      {A : Type 0} (f : Step B A) (b b' : B) (a : A) (t' : Table)
      → f b ≡ (b', ok a)
      → Holds b' t'
      → Agrees b (db.update f b) (t', ok a)
  update_ok f b b' a t' done held = elim (bolt.commits f b b' a done) [
    | inl p ↦ rw p (inr (refl, held))
    | inr q ↦ let (e, fails, p) = q in rw p (inl (e, refl, fails, refl))
  ]

  pub update_err :
      {A : Type 0} (f : Step B A) (b b' : B) (e : Error) (r : Table × Outcome A)
      → Failure e
      → f b ≡ (b', err e)
      → Agrees b (db.update f b) r
  update_err f b b' e r fails done = rw (bolt.rolls_back f b b' e done) (inl (e, refl, fails, refl))

  pub put_Holds :
      (id : RouteId) (rule : Rule) (b b' : B) (t : Table) (n : ℕ)
      → IsId id
      → ((j : Bytes) → db.get j b' ≡ (if binary_id id == j then some rule else db.get j b))
      → sequence b' ≡ n
      → ((j : RouteId) → IsId j → db.get (binary_id j) b ≡ lookup j t.rules)
      → Holds b' (record { next_id = n; rules = insert id rule t.rules })
  put_Holds id rule b b' t n small got kept held = record {
    counts = kept;
    has = λ j small_j.
        rw (got (binary_id j), binary_id_beq id j small small_j, held j small_j)
          (sym (lookup-insert id j rule t.rules));
  }
