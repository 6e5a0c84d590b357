-- ===== src/Setup/Rules/Whole.antt =====
-- idreservoir.go: the whole path from the routes to the rules.
use skywire_mainnet_old.Base.{ℕ, ◌<◌, ◌≡◌, ◌∙◌, List, [], ◌∷◌, Outcome, ok, nat_eq, list_eq, arith}
use native.Mathlib.Nat.{mod-eq_of_lt}
use skywire_mainnet_old.Routing.Addr.{PubKey, RouteId, LoopDescriptor}
use skywire_mainnet_old.Setup.Rules.{reserve_ids, new_id_reservoir}
use skywire_mainnet_old.Setup.Rules.Trace.{left, demand}
use skywire_mainnet_old.Setup.Rules.Counts.{Grants, reserved, reserve_ids_supply, all_visors}
use skywire_mainnet_old.Setup.Rules.Generate.{IsDescriptor, RulesDone, all_rules, nothing_left}

-- For a well-sized loop descriptor in which no visor is passed 256 times or more, and visors that
-- grant what they are asked for, the setup node's path from the two routes to the rules succeeds:
-- the reservation does, GenerateRules makes the chained rules and the two app rules, and every
-- reserved route ID has been used.
pub create_loop_rules :
    (reserve : PubKey → ℕ → Outcome (List RouteId)) (ld : LoopDescriptor)
    → Grants reserve
    → IsDescriptor ld
    → ((pk : PubKey) → demand pk (all_visors (ld.forward ∷ ld.reverse ∷ [])) < 256)
    → ((reserve_ids reserve (new_id_reservoir (ld.forward ∷ ld.reverse ∷ [])).0).1 ≡ ok tt)
      × (d : RulesDone ld
          (reserve_ids reserve (new_id_reservoir (ld.forward ∷ ld.reverse ∷ [])).0).0)
      × ((pk : PubKey) → left pk d.generated.left_over ≡ [])
create_loop_rules reserve ld g v few =
    let (done, stock) = reserve_ids_supply reserve g (ld.forward ∷ ld.reverse ∷ []) in
    let d =
      all_rules ld (reserved reserve g (ld.forward ∷ ld.reverse ∷ [])).0 v
        (λ pk. omega (arith, stock pk, few pk)) in
    (done, d, λ pk. nothing_left ld _ v d pk (stock pk ∙ mod-eq_of_lt (few pk)))
