-- ===== src/Router/Managed.antt =====
-- pkg/router/managed_routing_table.go: the routing table with the time of each rule's last use.
-- A time is a number of nanoseconds, and `now` is what time.Now() returns in the call. Each method
-- holds the mutex, so it is one step.
pub mod Window
pub mod Cleanup
use skywire_mainnet_old.Base.{
  ℕ, Bool, true, false, List, [], ◌∷◌, ◌++◌, Option, none, some, Map, lookup, insert, remove_all,
  Outcome, ok, err, panic, ◌>>=◌, rule_timed_out, nat_eq, sub_ℕ, gtb, if◌then◌else◌,
}
use skywire_mainnet_old.Routing.Addr.{RouteId}
use skywire_mainnet_old.Routing.Rule.{Rule, keep_alive}
use skywire_mainnet_old.Routing.Table
use skywire_mainnet_old.Routing.Table.{Table}

abbrev pub Time : Type 0
Time = ℕ

pub record ManagedTable : Type 0 where
  pub table : Table
  pub activity : Map RouteId Time

unfoldable pub manage_routing_table : Table → ManagedTable
manage_routing_table rt = record { table = rt; activity = [] }

unfoldable pub record_add :
    Time → ManagedTable → Table → Outcome RouteId → ManagedTable × Outcome RouteId
record_add now rt t (ok id) = (record { table = t; activity = insert id now rt.activity }, ok id)
record_add now rt t (err e) = (record rt { table = t }, err e)
record_add now rt t panic = (record rt { table = t }, panic)

unfoldable pub add_rule : Time → Rule → ManagedTable → ManagedTable × Outcome RouteId
unfolding record_add
add_rule now rule rt = let (t, r) = Table.add_rule rule rt.table in record_add now rt t r

-- `!ok || time.Since(lastActivity) > rule.KeepAlive()`: KeepAlive is read only on the right side.
unfoldable pub rule_is_timed_out : Time → RouteId → Rule → ManagedTable → Outcome Bool
rule_is_timed_out now id rule rt = elim (lookup id rt.activity) [
  | none ↦ ok true
  | some last ↦ (do alive ← keep_alive rule; ok (gtb (sub_ℕ now last) alive))
]

unfoldable pub touch :
    Time → RouteId → Rule → ManagedTable → Outcome Bool → ManagedTable × Outcome Rule
touch now id rule rt (ok true) = (rt, err rule_timed_out)
touch now id rule rt (ok false) = (record rt { activity = insert id now rt.activity }, ok rule)
touch now id rule rt (err e) = (rt, err e)
touch now id rule rt panic = (rt, panic)

unfoldable pub find_rule : Time → RouteId → ManagedTable → ManagedTable × Outcome Rule
find_rule now id rt = elim (Table.find_rule id rt.table) [
  | ok rule ↦ touch now id rule rt (rule_is_timed_out now id rule rt)
  | err e ↦ (rt, err e)
  | panic ↦ (rt, panic)
]

unfoldable pub collect_expired :
    Time → ManagedTable → RouteId → Rule → List RouteId → Outcome (List RouteId × Bool)
collect_expired now rt id rule expired_ids = do
  timed_out ← rule_is_timed_out now id rule rt
  ok (if timed_out then expired_ids ++ id ∷ [] else expired_ids, true)

unfoldable pub delete_activity : List RouteId → ManagedTable → ManagedTable
delete_activity ids rt = record rt { activity = remove_all ids rt.activity }

unfoldable pub cleanup : Time → ManagedTable → ManagedTable × Outcome (Unit {0})
cleanup now rt = elim (Table.range_rules (collect_expired now rt) rt.table []) [
  | ok expired_ids ↦ (
    delete_activity expired_ids (record rt { table = (Table.delete_rules expired_ids rt.table).0 }),
    ok tt,
  )
  | err e ↦ (rt, err e)
  | panic ↦ (rt, panic)
]

-- The methods of the embedded table.

unfoldable pub set_rule : RouteId → Rule → ManagedTable → ManagedTable × Outcome (Unit {0})
set_rule id rule rt = let (t, r) = Table.set_rule id rule rt.table in (record rt { table = t }, r)

unfoldable pub delete_rules : List RouteId → ManagedTable → ManagedTable × Outcome (Unit {0})
delete_rules ids rt = let (t, r) = Table.delete_rules ids rt.table in (record rt { table = t }, r)
