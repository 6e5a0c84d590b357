-- ===== src/Routing/Table.antt =====
-- pkg/routing/routing_table.go: the in-memory routing table. Each method holds the table's lock, so
-- it is one step on the state. The atomic counter wraps at 2^32.
pub mod Laws
pub mod History
use skywire_mainnet_old.Base.{
  ℕ, ◌+◌, ◌%◌, ◌^◌, Bool, true, false, List, [], ◌∷◌, Map, lookup, insert, remove_all, length,
  Outcome, ok, err, or_err, ◌>>=◌, rule_not_found, no_available_route_ids, nat_eq, nat_beq,
  if◌then◌else◌,
}
use skywire_mainnet_old.Routing.Addr.{RouteId}
use skywire_mainnet_old.Routing.Rule.{Rule}

pub record Table : Type 0 where
  pub next_id : ℕ
  pub rules : Map RouteId Rule

abbrev pub in_memory_routing_table : Table
in_memory_routing_table = record { next_id = 0; rules = [] }

abbrev pub max_uint32 : ℕ
max_uint32 = 4294967295

-- The test is on the named result, which is still 0.
unfoldable pub add_rule : Rule → Table → Table × Outcome RouteId
add_rule rule t =
    let route_id : RouteId = 0 in
    let id = (t.next_id + 1) % 2 ^ 32 in
    if nat_beq route_id max_uint32
    then (t, err no_available_route_ids)
    else (record { next_id = id; rules = insert id rule t.rules }, ok id)

unfoldable pub set_rule : RouteId → Rule → Table → Table × Outcome (Unit {0})
set_rule id rule t = (record t { rules = insert id rule t.rules }, ok tt)

unfoldable pub find_rule : RouteId → Table → Outcome Rule
find_rule id t = or_err rule_not_found (lookup id t.rules)

-- The loop of RangeRules: `f` acts on a state of its own, and says whether to go on.
module _ {S : Type 0} (f : RouteId → Rule → S → Outcome (S × Bool)) where
  unfoldable pub range_entries : Map RouteId Rule → S → Outcome S
  range_entries [] s = ok s
  range_entries ((id, rule) ∷ m) s = do
    (s', next) ← f id rule s
    if next then range_entries m s' else ok s'

  unfoldable pub range_rules : Table → S → Outcome S
  unfolding range_entries
  range_rules t s = range_entries t.rules s

unfoldable pub delete_rules : List RouteId → Table → Table × Outcome (Unit {0})
delete_rules ids t = (record t { rules = remove_all ids t.rules }, ok tt)

unfoldable pub count : Table → ℕ
count t = length t.rules
