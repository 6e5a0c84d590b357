-- ===== src/Routing/BoltTable/Agreement.antt =====
-- boltdb_routing_table.go: the table in a database against the table in memory.
use skywire_mainnet_old.Base.{
  All, Bool-cases, Bytes, Error, List, Option, Outcome, [], ap, arith, err, false, if◌then◌else◌,
  inl, inr, insert, list_eq, lookup, lookup-remove, ltb, nat_eq, no_available_route_ids, none, ok,
  or_err, refl, remove, remove_all, rule_not_found, some, sym, true, ℕ, ◌%◌, ◌+◌, ◌==◌, ◌^◌, ◌∙◌,
  ◌∷◌, ◌≡◌, ◌≤◌, ◌⊎◌,
}
use skywire_mainnet_old.Base.Step.{after, after-ok, pure}
use skywire_mainnet_old.Base.Bolt.{Bolt, IsBolt, Tries}
use skywire_mainnet_old.Routing.Addr.{RouteId}
use skywire_mainnet_old.Routing.Rule.{Rule}
use skywire_mainnet_old.Routing.Table
use skywire_mainnet_old.Routing.Table.{Table, max_uint32}
use skywire_mainnet_old.Routing.BoltTable.{
  binary_id, found_rule, take_id, add_rule, set_rule, find_rule, delete_each, delete_rules, go_on,
}
use skywire_mainnet_old.Routing.BoltTable.Holding.{
  IsId, binary_id_beq, Holds, Agrees, update_ok, update_err, put_Holds,
}

module _ {B : Type 0} (db : Bolt B) (sequence : B → ℕ) (Failure : Error → Type 0)
    (bolt : IsBolt db sequence Failure) where
  take_id_late :
      (rule : Rule) (n : ℕ) (c : B)
      → ltb max_uint32 n ≡ true
      → take_id db rule n c ≡ (c, err no_available_route_ids)
  unfolding take_id
  take_id_late rule n c late = rw late refl

  take_id_put :
      (rule : Rule) (n : ℕ) (c d : B)
      → ltb max_uint32 n ≡ false
      → db.put (binary_id n) rule c ≡ (d, ok tt)
      → take_id db rule n c ≡ (d, ok n)
  unfolding take_id
  take_id_put rule n c d free put = rw free (after-ok (λ _. pure n) put refl)

  take_id_fails :
      (rule : Rule) (n : ℕ) (c d : B) (e : Error)
      → ltb max_uint32 n ≡ false
      → db.put (binary_id n) rule c ≡ (d, err e)
      → take_id db rule n c ≡ (d, err e)
  unfolding take_id
  take_id_fails rule n c d e free failed = rw (free, failed) refl

  add_in_memory :
      (rule : Rule) (t : Table) (n : ℕ)
      → n ≡ t.next_id + 1
      → ltb max_uint32 n ≡ false
      → Table.add_rule rule t ≡ (record { next_id = n; rules = insert n rule t.rules }, ok n)
  unfolding Table.add_rule
  add_in_memory rule t n next free = rw (wraps (ground arith)) refl
    where
      wraps : n ≤ max_uint32 → (t.next_id + 1) % 2 ^ 32 ≡ n
      wraps small = omega arith

  -- No ID is left and the database is as before, or the call agrees.
  abbrev pub AddsOrFull : Rule → B → Table → Type 0
  AddsOrFull rule b t =
      ((ltb max_uint32 (t.next_id + 1) ≡ true)
        × (add_rule db rule b ≡ (b, err no_available_route_ids)))
      ⊎ Agrees db sequence Failure bolt b (add_rule db rule b) (Table.add_rule rule t)

  take_id-AddsOrFull :
      (rule : Rule) (b c : B) (t : Table) (n : ℕ)
      → Holds db sequence Failure bolt b t
      → n ≡ sequence b + 1
      → sequence c ≡ n
      → ((j : Bytes) → db.get j c ≡ db.get j b)
      → db.next_sequence b ≡ (c, ok n)
      → AddsOrFull rule b t
  unfolding add_rule
  take_id-AddsOrFull rule b c t n held next counted same called =
      elim (Bool-cases (ltb max_uint32 n)) [
        | inl late ↦ inl (
          ap (ltb max_uint32) (sym (next ∙ ap (λ k. k + 1) held.counts)) ∙ late,
          bolt.rolls_back _ b c no_available_route_ids
              (after-ok (take_id db rule) called (take_id_late rule n c late)),
        )
        | inr free ↦ elim (bolt.put_tries (binary_id n) rule c) [
          | inl (d, u, put, (got, kept)) ↦ inr (
              rw (add_in_memory rule t n (next ∙ ap (λ k. k + 1) held.counts) free) (
                update_ok db sequence Failure bolt _ b d n _
                  (after-ok (take_id db rule) called (take_id_put rule n c d free put))
                  (put_Holds db sequence Failure bolt n rule c d t n (small free) got
                    (kept ∙ counted) (λ j small_j. same (binary_id j) ∙ held.has j small_j))))
          | inr (d, e, failed, fails) ↦ inr (
              update_err db sequence Failure bolt _ b d e _ fails
                (after-ok (take_id db rule) called (take_id_fails rule n c d e free failed)))
        ]
      ]
    where
      small : ltb max_uint32 n ≡ false → IsId n
      small free = ground arith

  add_rule-AddsOrFull :
      (rule : Rule) (b : B) (t : Table) → Holds db sequence Failure bolt b t → AddsOrFull rule b t
  unfolding add_rule
  add_rule-AddsOrFull rule b t held = elim (bolt.next_tries b) [
    | inl (c, n, called, (next, counted, same)) ↦
        take_id-AddsOrFull rule b c t n held next counted same called
    | inr (c, e, failed, fails) ↦ inr (
        update_err db sequence Failure bolt _ b c e _ fails
          (ap (λ m. after m (take_id db rule)) failed))
  ]

  set_rule-Agrees :
      (id : RouteId) (rule : Rule) (b : B) (t : Table)
      → IsId id
      → Holds db sequence Failure bolt b t
      → Agrees db sequence Failure bolt b (set_rule db id rule b) (Table.set_rule id rule t)
  unfolding set_rule Table.set_rule
  set_rule-Agrees id rule b t small held = elim (bolt.put_tries (binary_id id) rule b) [
    | inl (d, u, put, (got, kept)) ↦ update_ok db sequence Failure bolt _ b d u _ put (
        put_Holds db sequence Failure bolt id rule b d t t.next_id small got (kept ∙ held.counts)
          held.has)
    | inr (d, e, failed, fails) ↦ update_err db sequence Failure bolt _ b d e _ fails failed
  ]

  remove-Holds :
      (id : RouteId) (b b' : B) (t : Table)
      → IsId id
      → Holds db sequence Failure bolt b t
      → ((j : Bytes) → db.get j b' ≡ (if binary_id id == j then none else db.get j b))
      → sequence b' ≡ sequence b
      → Holds db sequence Failure bolt b' (record t { rules = remove id t.rules })
  remove-Holds id b b' t small held got kept = record {
    counts = kept ∙ held.counts;
    has = λ j small_j.
        rw (got (binary_id j), binary_id_beq id j small small_j, held.has j small_j)
          (sym (lookup-remove id j t.rules));
  }

  delete_done :
      (id : RouteId) (ids : List RouteId) (failed : Outcome (Unit {0})) (b c : B) (u : Unit {0})
      → db.delete (binary_id id) b ≡ (c, ok u)
      → delete_each db (id ∷ ids) failed b ≡ delete_each db ids failed c
  unfolding delete_each
  delete_done id ids failed b c u done = ap (go_on db (delete_each db ids) failed) done

  delete_failed :
      (id : RouteId) (ids : List RouteId) (failed : Outcome (Unit {0})) (b c : B) (e : Error)
      → db.delete (binary_id id) b ≡ (c, err e)
      → delete_each db (id ∷ ids) failed b ≡ delete_each db ids (err e) c
  unfolding delete_each
  delete_failed id ids failed b c e done = ap (go_on db (delete_each db ids) failed) done

  -- After an error the loop ends with one, whatever the other deletions do.
  delete_each_failed :
      (ids : List RouteId) (e : Error) (b : B)
      → Failure e
      → (b' : B) × (e' : Error) × (delete_each db ids (err e) b ≡ (b', err e')) × Failure e'
  unfolding delete_each
  delete_each_failed [] e b fails = (b, e, refl, fails)
  delete_each_failed (id ∷ ids) e b fails = elim (bolt.delete_tries (binary_id id) b) [
    | inl (c, u, done, kept) ↦
        let (d, e', ended, stays) = delete_each_failed ids e c fails in
        (d, e', delete_done id ids (err e) b c u done ∙ ended, stays)
    | inr (c, e', failed, fails') ↦
        let (d, e'', ended, stays) = delete_each_failed ids e' c fails' in
        (d, e'', delete_failed id ids (err e) b c e' failed ∙ ended, stays)
  ]

  delete_each_tries :
      (ids : List RouteId) (b : B) (t : Table)
      → All IsId ids
      → Holds db sequence Failure bolt b t
      → Tries Failure
          (delete_each db ids (ok tt) b)
          (λ b' _. Holds db sequence Failure bolt b' (record t { rules = remove_all ids t.rules }))
  unfolding delete_each remove_all
  delete_each_tries [] b t small held = inl (b, tt, refl, held)
  delete_each_tries (id ∷ ids) b t small held = elim (bolt.delete_tries (binary_id id) b) [
    | inl (c, u, done, (got, kept)) ↦ rw (delete_done id ids (ok tt) b c u done) (
        delete_each_tries ids c (record t { rules = remove id t.rules }) (small.1)
          (remove-Holds id b c t (small.0) held got kept))
    | inr (c, e, failed, fails) ↦
        rw (delete_failed id ids (ok tt) b c e failed) (inr (delete_each_failed ids e c fails))
  ]

  delete_rules-Agrees :
      (ids : List RouteId) (b : B) (t : Table)
      → All IsId ids
      → Holds db sequence Failure bolt b t
      → Agrees db sequence Failure bolt b (delete_rules db ids b) (Table.delete_rules ids t)
  unfolding delete_rules Table.delete_rules
  delete_rules-Agrees ids b t small held = elim (delete_each_tries ids b t small held) [
    | inl (d, u, done, left) ↦ update_ok db sequence Failure bolt _ b d u _ done left
    | inr (d, e, failed, fails) ↦ update_err db sequence Failure bolt _ b d e _ fails failed
  ]

  -- What Rule returns: the rule in memory, unless the view has failed.
  abbrev pub FindsOrFails : RouteId → B → Table → Type 0
  FindsOrFails id b t =
      (find_rule db id b ≡ Table.find_rule id t)
      ⊎ ((e : Error) × Failure e
          × (db.view (λ b'. ok (db.get (binary_id id) b')) b ≡ err e)
          × (find_rule db id b ≡ err rule_not_found))

  find_rule-FindsOrFails :
      (id : RouteId) (b : B) (t : Table)
      → IsId id
      → Holds db sequence Failure bolt b t
      → FindsOrFails id b t
  unfolding find_rule Table.find_rule
  find_rule-FindsOrFails id b t small held =
      elim (bolt.views (λ b'. ok (db.get (binary_id id) b')) b) [
        | inl seen ↦ inl (rw (seen, held.has id small) (found (lookup id t.rules)))
        | inr (e, fails, failed) ↦ inr (e, fails, failed, rw failed refl)
      ]
    where
      found : (o : Option Rule) → found_rule (ok o) ≡ or_err rule_not_found o
      found none = refl
      found (some rule) = refl

  -- The database holds what a table in memory holds. Then each of AddRule, SetRule and DeleteRules, on IDs
  -- below 2^32, returns what the method of the table in memory returns, after which the two hold the same
  -- again; or the database has failed, its error is returned, and all is as it was. AddRule fails besides
  -- when the next ID is above 2^32 - 1, and all is as it was. Rule returns what the table in memory
  -- returns, unless the view of the database fails, when it reports that the rule does not exist. The
  -- database has put and deleted what it was told to or has failed, and a transaction with an error
  -- changes nothing.
  pub bolt_table-Agrees :
      (rule : Rule) (id : RouteId) (ids : List RouteId) (b : B) (t : Table)
      → IsId id
      → All IsId ids
      → Holds db sequence Failure bolt b t
      → AddsOrFull rule b t
        × Agrees db sequence Failure bolt b (set_rule db id rule b) (Table.set_rule id rule t)
        × Agrees db sequence Failure bolt b (delete_rules db ids b) (Table.delete_rules ids t)
        × FindsOrFails id b t
  bolt_table-Agrees rule id ids b t small all_small held = (
    add_rule-AddsOrFull rule b t held,
    set_rule-Agrees id rule b t small held,
    delete_rules-Agrees ids b t all_small held,
    find_rule-FindsOrFails id b t small held,
  )
