-- ===== src/Router/Managed/Cleanup.antt =====
-- managed_routing_table.go: Cleanup removes the rules that have timed out, and no other.
use skywire_mainnet_old.Base.{
  ◌≤◌, ◌≡◌, refl, ap, ◌∙◌, Bool, true, false, ◌||◌, List, [], ◌∷◌, ◌++◌, Option, none, some, Map,
  lookup, lookup-remove_all, ok, err, or_err, rule_not_found, nat_eq, nat_beq, nat_beq_iff, sub_ℕ,
  gtb, if◌then◌else◌, arith, ℤ, length, read_be, slice, from_be, take, to_int64, contains,
  contains-append, Distinct, Bool-cases, inl, inr, Option-cases,
}
use mathlib.Core.Option.{some-injective}
use skywire_mainnet_old.Routing.Addr.{RouteId}
use skywire_mainnet_old.Routing.Rule.{Rule, keep_alive}
use skywire_mainnet_old.Routing.Table
use skywire_mainnet_old.Routing.Table.{Table, range_entries}
use skywire_mainnet_old.Router.Managed.{
  Time, ManagedTable, find_rule, rule_is_timed_out, touch, cleanup, collect_expired,
  delete_activity,
}

-- The keep-alive time of a rule that is long enough to have one.
abbrev pub alive_for : Rule → ℤ
alive_for rule = to_int64 (from_be (take 8 rule))

-- Whether the rule under `id` has timed out at `now`, as the source's comment has it.
abbrev pub timed_out : Time → Map RouteId Time → RouteId → Rule → Bool
timed_out now activity id rule = elim (lookup id activity) [
  | none ↦ true
  | some last ↦ gtb (sub_ℕ now last) (alive_for rule)
]

-- Every stored rule has a keep-alive field.
abbrev pub AllReadable : Map RouteId Rule → Type 0
AllReadable [] = Unit
AllReadable ((id, rule) ∷ m) = (8 ≤ length rule) × AllReadable m

keep_alive_readable : (rule : Rule) → 8 ≤ length rule → keep_alive rule ≡ ok (alive_for rule)
unfolding keep_alive read_be slice
keep_alive_readable rule h = ground arith

rule_is_timed_out_lem :
    (now : Time) (id : RouteId) (rule : Rule) (rt : ManagedTable)
    → 8 ≤ length rule
    → rule_is_timed_out now id rule rt ≡ ok (timed_out now rt.activity id rule)
unfolding rule_is_timed_out
rule_is_timed_out_lem now id rule rt h = elim (Option-cases (lookup id rt.activity)) [
  | inl e ↦ rw (e, rule_is_timed_out, timed_out)
  | inr (last, e) ↦ rw (e, rule_is_timed_out, timed_out) (rw (keep_alive_readable rule h))
]

module _ (now : Time) (rt : ManagedTable) where
  expired_ids : Map RouteId Rule → List RouteId → List RouteId
  expired_ids [] acc = acc
  expired_ids ((id, rule) ∷ m) acc =
      expired_ids m (if timed_out now rt.activity id rule then acc ++ id ∷ [] else acc)

  range_entries-expired :
      (m : Map RouteId Rule) (acc : List RouteId)
      → AllReadable m
      → range_entries (collect_expired now rt) m acc ≡ ok (expired_ids m acc)
  unfolding range_entries collect_expired expired_ids
  range_entries-expired [] acc h = refl
  range_entries-expired ((id, rule) ∷ m) acc h = rw (rule_is_timed_out_lem now id rule rt h.0) (
      range_entries-expired m (if timed_out now rt.activity id rule then acc ++ id ∷ [] else acc)
        h.1)

  abbrev pub is_expired : RouteId → Option Rule → Bool
  is_expired id none = false
  is_expired id (some rule) = timed_out now rt.activity id rule

  -- One entry `j` in front of the rest of the table.
  expired_head :
      (m : Map RouteId Rule) (acc : List RouteId) (j id : RouteId) (rule : Rule)
      → lookup j m ≡ none
      → (contains id (if timed_out now rt.activity j rule then acc ++ j ∷ [] else acc)
          || is_expired id (lookup id m))
        ≡ (contains id acc || is_expired id (lookup id ((j, rule) ∷ m)))
  unfolding lookup contains
  expired_head m acc j id rule first = elim (Bool-cases (nat_beq j id)) [
    | inl same ↦
        let here : j ≡ id = (nat_beq_iff j id).0 same in
        rw same
          (rw (← here) (rw first (ground (arith, contains-append j acc (j ∷ []), nat_beq_iff j j))))
    | inr other ↦ rw other (ground (arith, contains-append id acc (j ∷ [])))
  ]

  expired_ids-contains :
      (m : Map RouteId Rule) (acc : List RouteId) (id : RouteId)
      → Distinct m
      → contains id (expired_ids m acc) ≡ (contains id acc || is_expired id (lookup id m))
  unfolding expired_ids
  expired_ids-contains [] acc id d = unfold lookup in ground arith
  expired_ids-contains ((j, rule) ∷ m) acc id d =
      expired_ids-contains m (if timed_out now rt.activity j rule then acc ++ j ∷ [] else acc) id
        d.1
      ∙ expired_head m acc j id rule d.0

  cleanup_lem :
      AllReadable rt.table.rules
      → cleanup now rt ≡ (
        delete_activity
            (expired_ids rt.table.rules [])
            (record rt { table = (Table.delete_rules (expired_ids rt.table.rules []) rt.table).0 }),
        ok tt,
      )
  unfolding cleanup Table.range_rules
  cleanup_lem h = rw (range_entries-expired rt.table.rules [] h, cleanup)

  -- Cleanup of a table whose rules all have at least eight bytes, with one rule for an ID, succeeds.
  -- Afterwards an ID has no rule if its rule had timed out, and the rule it had otherwise; the
  -- activity records of the timed-out rules are gone too, and all others are kept.
  pub cleanup_exact :
      (id : RouteId)
      → AllReadable rt.table.rules
      → Distinct rt.table.rules
      → ((cleanup now rt).1 ≡ ok tt)
        × (lookup id (cleanup now rt).0.table.rules
            ≡ (if is_expired id (lookup id rt.table.rules) then none else lookup id rt.table.rules))
        × (lookup id (cleanup now rt).0.activity
            ≡ (if is_expired id (lookup id rt.table.rules) then none else lookup id rt.activity))
  unfolding Table.delete_rules delete_activity
  cleanup_exact id h d = rw (cleanup_lem h) (
    refl,
    rw (lookup-remove_all (expired_ids rt.table.rules []) id rt.table.rules, in_list) refl,
    rw (lookup-remove_all (expired_ids rt.table.rules []) id rt.activity, in_list) refl,
  )
    where
      in_list :
          contains id (expired_ids rt.table.rules []) ≡ is_expired id (lookup id rt.table.rules)
      in_list = expired_ids-contains rt.table.rules [] id d ∙ unfold contains in refl

readable_found :
    (m : Map RouteId Rule) (id : RouteId) (rule : Rule)
    → AllReadable m
    → lookup id m ≡ some rule
    → 8 ≤ length rule
unfolding lookup
readable_found [] id rule h e = cc
readable_found ((j, r) ∷ m) id rule h e = elim (Bool-cases (nat_beq j id)) [
  | inl here ↦ let same : r ≡ rule = some-injective r rule (rw here at e) in rw (← same) h.0
  | inr there ↦ readable_found m id rule h.1 (rw there at e)
]

found_in_time :
    (now : Time) (rt : ManagedTable) (id : RouteId) (rule : Rule)
    → lookup id rt.table.rules ≡ some rule
    → 8 ≤ length rule
    → timed_out now rt.activity id rule ≡ false
    → (find_rule now id rt).1 ≡ ok rule
unfolding find_rule Table.find_rule touch
found_in_time now rt id rule e long young =
    rw (e, find_rule) (rw (rule_is_timed_out_lem now id rule rt long ∙ ap ok young))

not_found :
    (now : Time) (rt : ManagedTable) (id : RouteId)
    → lookup id rt.table.rules ≡ none
    → (find_rule now id rt).1 ≡ err rule_not_found
unfolding find_rule Table.find_rule
not_found now rt id e = rw (e, find_rule)

same_timeout :
    (now : Time) (a b : Map RouteId Time) (id : RouteId) (rule : Rule)
    → lookup id a ≡ lookup id b
    → timed_out now a id rule ≡ timed_out now b id rule
same_timeout now a b id rule e =
    ap (λ o. elim o [ none ↦ true | some last ↦ gtb (sub_ℕ now last) (alive_for rule) ]) e

-- Right after a Cleanup of a table whose rules all have at least eight bytes, with one rule for an
-- ID, a lookup at the same time finds the ID's rule exactly if it had not timed out, and otherwise
-- reports that there is none; it never reports a timeout.
pub cleanup-find_rule :
    (now : Time) (rt : ManagedTable) (id : RouteId)
    → AllReadable rt.table.rules
    → Distinct rt.table.rules
    → (find_rule now id (cleanup now rt).0).1 ≡ (
        if is_expired now rt id (lookup id rt.table.rules)
        then err rule_not_found
        else or_err rule_not_found (lookup id rt.table.rules))
cleanup-find_rule now rt id h d =
    let (done, rules, activity) = cleanup_exact now rt id h d in
    elim (Option-cases (lookup id rt.table.rules)) [
      | inl e ↦ rw e (not_found now (cleanup now rt).0 id (rules ∙ rw e))
      | inr (rule, e) ↦ elim (Bool-cases (timed_out now rt.activity id rule)) [
        | inl old ↦ rw e (rw old (not_found now (cleanup now rt).0 id (rules ∙ rw e (rw old))))
        | inr young ↦ rw e (
            rw young (
              found_in_time now (cleanup now rt).0 id rule (rules ∙ rw e (rw young))
                (readable_found rt.table.rules id rule h e)
                (same_timeout now (cleanup now rt).0.activity rt.activity id rule
                    (activity ∙ rw e (rw young))
                  ∙ young)))
      ]
    ]
