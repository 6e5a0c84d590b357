-- ===== src/Router/Tests.antt =====
-- Runs of pkg/router at concrete inputs.
pub mod Requests
pub mod Traffic
mod Way
use skywire_mainnet_old.Base.{
  ℕ, ◌+◌, ◌≤◌, ◌<◌, ◌≡◌, ◌↔◌, ◌⊎◌, refl, true, leb, Bytes, List, [], ◌∷◌, Outcome, ok, err, panic,
  Option, none, some, replicate, length, pos, lookup, arith, if◌then◌else◌, nat_beq, or_err,
  rule_not_found, rule_timed_out, contains, nat_eq, read_be, slice, port_already_bound,
  port_not_bound, unknown_loop, Distinct,
}
use skywire_mainnet_old.Routing.Addr.{Addr, addr_eq, Port, RouteId}
use skywire_mainnet_old.Routing.Rule.{Rule, keep_alive}
use skywire_mainnet_old.Routing.Table
use skywire_mainnet_old.Router.Ports.{
  LoopEntry, PortBind, PortList, alloc, open_port, close_port, get_port, set_loop, remove_loop,
  get_loop, app_ports, app_conns, max_port,
}
use skywire_mainnet_old.Router.Ports.Alloc.{IsFirstFree, AllBound, new_bind, alloc_cases}
use skywire_mainnet_old.Router.Ports.Loops.{
  at, is_ok, set_loop-get_loop, remove_loop-get_loop, close_port-get_loop,
}
use skywire_mainnet_old.Router.Ports.Conns.{is_of, NoRepeat, app_ports-contains, app_conns_lem}
use skywire_mainnet_old.Router.Managed.{ManagedTable, add_rule, find_rule, cleanup}
use skywire_mainnet_old.Router.Managed.Window.{
  IsActive, touched, lookups, find_rule_window, add_rule_kept_alive, find_rule_short_panics,
}
use skywire_mainnet_old.Router.Managed.Cleanup.{is_expired, cleanup_exact, cleanup-find_rule}

abbrev pub far : Addr
far = record { pub_key = replicate 33 2; port = 80 }

abbrev pub entry : LoopEntry
entry = record { tr_id = replicate 16 7; route_id = 5 }

abbrev pub bind : PortBind
bind = record { conn = 1; loops = (far, entry) ∷ [] }

abbrev bound : PortList
bound = record { min_port = 10; ports = (10, bind) ∷ (12, record bind { conn = 2 }) ∷ [] }

bound-Distinct : Distinct bound.ports
bound-Distinct = unfold lookup in (refl, (refl, tt))

alloc_cases_example :
    ((p : Port) × (pm' : PortList) × (alloc 3 bound ≡ ok (p, pm'))
      × IsFirstFree 10 p bound.ports
      × ((q : Port)
          → get_port q pm' ≡ (if nat_beq p q then some (new_bind 3) else get_port q bound)))
    ⊎ ((alloc 3 bound ≡ panic) × AllBound 10 max_port bound.ports)
alloc_cases_example = alloc_cases 3 bound (omega arith)

-- A rule whose keep-alive field says 5.
abbrev pub rule : Rule
rule = 0 ∷ 0 ∷ 0 ∷ 0 ∷ 0 ∷ 0 ∷ 0 ∷ 5 ∷ 1 ∷ 0 ∷ 0 ∷ 0 ∷ 0 ∷ []

rule-keep_alive : keep_alive rule ≡ ok (pos 5)
unfolding keep_alive read_be slice skywire_mainnet_old.Base.from_be
rule-keep_alive = refl

abbrev pub managed : ManagedTable
managed = record {
  table = record { next_id = 2; rules = (1, rule) ∷ (2, rule) ∷ [] };
  activity = (1, 100) ∷ (2, 90) ∷ [];
}

managed-IsActive : IsActive managed 1 rule 100 5
managed-IsActive = record {
  stored = unfold Table.find_rule lookup in refl;
  used = unfold lookup in refl;
  kept = rule-keep_alive;
}

add_rule_kept_alive_example :
    (id : RouteId) × ((add_rule 200 rule managed).1 ≡ ok id)
    × ((find_rule 209 id (lookups (203 ∷ 207 ∷ []) id (add_rule 200 rule managed).0)).1 ≡ ok rule)
add_rule_kept_alive_example =
    add_rule_kept_alive 200 rule managed 5 (203 ∷ 207 ∷ []) 209 rule-keep_alive
      (omega arith, omega arith, (omega arith, omega arith, tt)) (omega arith) (omega arith)

abbrev short_rule : ManagedTable
short_rule = record {
  table = record { next_id = 1; rules = (1, 9 ∷ []) ∷ [] };
  activity = (1, 100) ∷ [];
}

cleanup_exact_example :
    ((cleanup 104 managed).1 ≡ ok tt)
    × (lookup 2 (cleanup 104 managed).0.table.rules ≡ (
        if is_expired 104 managed 2 (lookup 2 managed.table.rules)
        then none
        else lookup 2 managed.table.rules))
    × (lookup 2 (cleanup 104 managed).0.activity ≡ (
        if is_expired 104 managed 2 (lookup 2 managed.table.rules)
        then none
        else lookup 2 managed.activity))
cleanup_exact_example =
    cleanup_exact 104 managed 2 (omega arith, (omega arith, tt))
      (unfold lookup in (refl, (refl, tt)))
