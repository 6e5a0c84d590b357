-- ===== src/Router/RouteManager/SetRules.antt =====
-- route_manager.go: what setRoutingRules leaves in the table.
use skywire_mainnet_old.Base.{
  ◌≡◌, refl, ap, ◌∙◌, List, [], ◌∷◌, Option, some, ok, lookup, lookup-insert, nat_eq, nat_beq,
  if◌then◌else◌,
}
use skywire_mainnet_old.Base.Step.{after-ok}
use skywire_mainnet_old.Routing.Addr.{RouteId}
use skywire_mainnet_old.Routing.Rule.{Rule, request_route_id}
use skywire_mainnet_old.Routing.Table
use skywire_mainnet_old.Router.Managed.{ManagedTable, set_rule}
use skywire_mainnet_old.Router.RouteManager.{set_rules}

-- The rules with the IDs that they were requested under.
abbrev pub Requested : List Rule → List RouteId → Type 0
Requested [] [] = Unit
Requested (rule ∷ rules) (id ∷ ids) = (request_route_id rule ≡ ok id) × Requested rules ids
Requested _ _ = ⊥

-- The rule that the last of these requests for `j` brings, and otherwise the one before them.
abbrev pub last_set : RouteId → List RouteId → List Rule → Option Rule → Option Rule
last_set j (id ∷ ids) (rule ∷ rules) before =
    last_set j ids rules (if nat_beq id j then some rule else before)
last_set j _ _ before = before

-- SetRoutingRules of rules that are long enough to say their request ID succeeds. Afterwards each ID
-- has the last of the rules that were requested under it, or the rule that it had before if none was;
-- the activity records are as before.
pub set_rules-last_set :
    (rules : List Rule) (ids : List RouteId) (rt : ManagedTable)
    → Requested rules ids
    → (rt' : ManagedTable) × (set_rules rules rt ≡ (rt', ok tt))
      × ((j : RouteId) → lookup j rt'.table.rules ≡ last_set j ids rules (lookup j rt.table.rules))
      × (rt'.activity ≡ rt.activity)
unfolding set_rules set_rule Table.set_rule
set_rules-last_set [] [] rt h = (rt, refl, λ j. refl, refl)
set_rules-last_set [] (id ∷ ids) rt h = absurd h
set_rules-last_set (rule ∷ rules) [] rt h = absurd h
set_rules-last_set (rule ∷ rules) (id ∷ ids) rt h =
    let rt1 : ManagedTable = (set_rule id rule rt).0 in
    let (rt', returned, found, kept) = set_rules-last_set rules ids rt1 h.1 in
    (
      rt',
      after-ok (λ k. _) (ap (λ r. (rt, r)) h.0) returned,
      λ j. found j ∙ ap (last_set j ids rules) (lookup-insert id j rule rt.table.rules),
      kept,
    )
