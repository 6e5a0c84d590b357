-- ===== src/Routing/Table/History.antt =====
-- routing_table.go: what holds after any calls on a new table.
use skywire_mainnet_old.Base.{
  ◌+◌, ◌-◌, ◌^◌, ◌<◌, ◌≤◌, ◌≡◌, refl, none, List, ◌∷◌, [], Map, lookup, lookup-insert,
  lookup-remove_all, remove_all, ok, nat_eq, remove, arith, length-insert_new, Distinct,
  insert-Distinct, remove-Distinct,
}
use skywire_mainnet_old.Routing.Addr.{RouteId}
use skywire_mainnet_old.Routing.Rule.{Rule}
use skywire_mainnet_old.Routing.Table.{
  Table, add_rule, set_rule, find_rule, delete_rules, count, in_memory_routing_table,
}
use skywire_mainnet_old.Routing.Table.Laws.{next}

-- The calls that change a table. `set` is SetRule on an ID that the table has handed out.
pub data Call : Type 0 where
  add : Rule → Call
  set : RouteId → Rule → Call
  delete : List RouteId → Call

unfoldable pub apply : Call → Table → Table
apply (add rule) t = (add_rule rule t).0
apply (set id rule) t = (set_rule id rule t).0
apply (delete ids) t = (delete_rules ids t).0

-- The setup protocol sets rules under IDs that it has reserved before.
abbrev pub IsReserved : Call → Table → Type 0
IsReserved (set id rule) t = id ≤ t.next_id
IsReserved _ t = Unit

pub data Reach : Table → Type 0 where
  new : Reach in_memory_routing_table
  call :
      {t : Table} (c : Call) → Reach t → IsReserved c t → t.next_id + 1 < 2 ^ 32 → Reach (apply c t)

-- No ID above the counter is in use, and each ID is used once.
pub record IsFresh (t : Table) : Type 0 where
  pub above : (id : RouteId) → t.next_id < id → lookup id t.rules ≡ none
  pub distinct : Distinct t.rules

remove_all-Distinct :
    (ids : List RouteId) (m : Map RouteId Rule) → Distinct m → Distinct (remove_all ids m)
unfolding remove_all
remove_all-Distinct [] m h = h
remove_all-Distinct (id ∷ ids) m h = remove_all-Distinct ids (remove id m) (remove-Distinct id m h)

apply-IsFresh :
    (c : Call) (t : Table)
    → IsReserved c t
    → t.next_id + 1 < 2 ^ 32
    → IsFresh t
    → IsFresh (apply c t)
unfolding apply add_rule set_rule delete_rules
apply-IsFresh (add rule) t r room h = record {
  above = λ id below. ground (arith, lookup-insert (next t) id rule t.rules, h.above id);
  distinct = insert-Distinct (next t) rule t.rules h.distinct;
}
apply-IsFresh (set j rule) t r room h = record {
  above = λ id below. ground (arith, lookup-insert j id rule t.rules, h.above id);
  distinct = insert-Distinct j rule t.rules h.distinct;
}
apply-IsFresh (delete ids) t r room h = record {
  above = λ id below. ground (arith, lookup-remove_all ids id t.rules, h.above id);
  distinct = remove_all-Distinct ids t.rules h.distinct;
}

pub Reach-IsFresh : {t : Table} → Reach t → IsFresh t
Reach-IsFresh new = record { above = λ id below. unfold lookup in refl; distinct = tt }
Reach-IsFresh (call {t} c before r room) = apply-IsFresh c t r room (Reach-IsFresh before)

-- After any calls on a new table, each made with the counter below 2^32 - 1 and each SetRule on an
-- ID handed out before, a further AddRule below that limit returns an ID that no rule has, and
-- Count grows by one.
pub add_rule_fresh :
    {t : Table} (rule : Rule)
    → Reach t
    → t.next_id + 1 < 2 ^ 32
    → (id : RouteId) × ((add_rule rule t).1 ≡ ok id)
      × (lookup id t.rules ≡ none)
      × (count (add_rule rule t).0 ≡ count t + 1)
unfolding add_rule count
add_rule_fresh {t} rule reach room =
    (next t, refl, unused, length-insert_new (next t) rule t.rules unused)
  where
    unused : lookup (next t) t.rules ≡ none
    unused = (Reach-IsFresh reach).above (next t) (omega arith)

-- When the counter has reached 2^32 - 1, AddRule reports no error: it hands out ID 0, counts from
-- there, and replaces the rule that the table may have under 0.
pub add_rule_wraps :
    (rule : Rule) (t : Table)
    → t.next_id ≡ 2 ^ 32 - 1
    → ((add_rule rule t).1 ≡ ok 0)
      × ((add_rule rule t).0.next_id ≡ 0)
      × (find_rule 0 (add_rule rule t).0 ≡ ok rule)
unfolding add_rule find_rule
add_rule_wraps rule t h = ground (arith, lookup-insert (next t) 0 rule t.rules)
