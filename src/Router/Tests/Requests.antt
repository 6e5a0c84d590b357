-- ===== src/Router/Tests/Requests.antt =====
-- Runs of the route manager at concrete inputs.
use skywire_mainnet_old.Base.{
  ℕ, ◌+◌, ◌^◌, ◌<◌, ◌≡◌, ◌⊎◌, refl, ap, true, false, Bytes, List, [], ◌∷◌, ◌++◌, Outcome, ok, err,
  Option, none, some, replicate, lookup, arith, if◌then◌else◌, nat_beq, contains, nat_eq, length,
  Error, clamp_uint64, pos, bind_ok,
}
use skywire_mainnet_old.Routing.Addr.{Loop, PubKey, RouteId}
use skywire_mainnet_old.Routing.Rule.{Rule, request_route_id}
use skywire_mainnet_old.Routing.Table.{in_memory_routing_table}
use skywire_mainnet_old.Routing.Table.History.{Reach-IsFresh, new}
use skywire_mainnet_old.Router.Managed.{Time, ManagedTable}
use skywire_mainnet_old.Router.RouteManager.{occupy_ids, set_rules, is_loop_rule, remove_loop_rule}
use skywire_mainnet_old.Router.RouteManager.Occupy.{ids_after, placeholder, occupy_ids_fresh}
use skywire_mainnet_old.Router.RouteManager.SetRules.{last_set, set_rules-last_set}
use skywire_mainnet_old.Router.RouteManager.Removal.{NoneMatches, remove_loop_rule_cases}
use skywire_mainnet_old.Router.Tests.{far, rule, managed}

abbrev pub clock : ℕ → Time
clock n = 104

abbrev pub parse : Bytes → Option PubKey
parse b = some b

abbrev empty_table : ManagedTable
empty_table = record { table = in_memory_routing_table; activity = [] }

occupy_ids_fresh_example :
    (rt' : ManagedTable) × (occupy_ids clock 3 empty_table ≡ (rt', ok (ids_after 0 3)))
    × ((j : RouteId)
        → (lookup j rt'.table.rules ≡ (
            if contains j (ids_after 0 3)
            then some placeholder
            else lookup j empty_table.table.rules))
          × (lookup j empty_table.table.rules
              ≡ (if contains j (ids_after 0 3) then none else lookup j empty_table.table.rules)))
occupy_ids_fresh_example = occupy_ids_fresh clock 3 empty_table (omega arith) (Reach-IsFresh new)

-- The app rule of the loop between port 3 and port 80 of `far`: 5 to keep alive, route 1, request 9.
abbrev pub app_rule : Rule
app_rule =
    (0 ∷ 0 ∷ 0 ∷ 0 ∷ 0 ∷ 0 ∷ 0 ∷ 5 ∷ 0 ∷ 0 ∷ 0 ∷ 0 ∷ 1 ∷ [])
    ++ (replicate 33 2 ++ (0 ∷ 80 ∷ 0 ∷ 3 ∷ 0 ∷ 0 ∷ 0 ∷ 9 ∷ []))

abbrev pub loop : Loop
loop = record { local = record { pub_key = replicate 33 1; port = 3 }; remote = far }

app_rule-request : request_route_id app_rule ≡ ok 9
unfolding request_route_id skywire_mainnet_old.Base.read_be skywire_mainnet_old.Base.slice
    skywire_mainnet_old.Base.from_be
app_rule-request = refl

set_rules-last_set_example :
    (rt' : ManagedTable) × (set_rules (app_rule ∷ []) managed ≡ (rt', ok tt))
    × ((j : RouteId)
        → lookup j rt'.table.rules
          ≡ last_set j (9 ∷ []) (app_rule ∷ []) (lookup j managed.table.rules))
    × (rt'.activity ≡ managed.activity)
set_rules-last_set_example =
    set_rules-last_set (app_rule ∷ []) (9 ∷ []) managed (app_rule-request, tt)

rule-other : is_loop_rule parse loop rule ≡ ok false
unfolding is_loop_rule skywire_mainnet_old.Routing.Rule.rule_type skywire_mainnet_old.Base.byte_at
rule-other = refl

app_rule-loop : is_loop_rule parse loop app_rule ≡ ok true
unfolding is_loop_rule skywire_mainnet_old.Routing.Rule.rule_type skywire_mainnet_old.Base.byte_at
    skywire_mainnet_old.Routing.Rule.remote_pk skywire_mainnet_old.Base.slice
    skywire_mainnet_old.Base.list_beq skywire_mainnet_old.Routing.Rule.remote_port
    skywire_mainnet_old.Base.read_be skywire_mainnet_old.Base.from_be
    skywire_mainnet_old.Routing.Rule.local_port
app_rule-loop = refl

abbrev pub visor_table : ManagedTable
visor_table = record {
  table = record { next_id = 10; rules = (1, rule) ∷ (9, app_rule) ∷ [] };
  activity = (1, 100) ∷ (9, 100) ∷ [];
}

remove_loop_rule_cases_example :
    (NoneMatches parse loop visor_table.table.rules
      × (remove_loop_rule parse loop visor_table ≡ (visor_table, ok tt)))
    ⊎ ((id : RouteId) × (found : Rule) × (rt' : ManagedTable) × (remove_loop_rule parse loop
            visor_table
          ≡ (rt', ok tt))
        × (lookup id visor_table.table.rules ≡ some found)
        × (is_loop_rule parse loop found ≡ ok true)
        × ((j : RouteId)
            → lookup j rt'.table.rules
              ≡ (if nat_beq id j then none else lookup j visor_table.table.rules))
        × (rt'.activity ≡ visor_table.activity))
remove_loop_rule_cases_example =
    remove_loop_rule_cases parse loop visor_table ((false, rule-other), ((true, app_rule-loop), tt))
      (unfold lookup in (refl, (refl, tt)))
