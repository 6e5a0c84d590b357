-- ===== src/Router/RouteManager/Removal.antt =====
-- route_manager.go: RemoveLoopRule removes the first rule of a loop, and no other.
use skywire_mainnet_old.Base.{
  ◌≡◌, refl, ap, ◌∙◌, Bool, true, false, [], ◌∷◌, Option, none, some, ok, lookup, lookup-remove_all,
  nat_eq, nat_beq, nat_beq_iff, arith, if◌then◌else◌, inl, inr, ◌⊎◌, Map, Bytes, Distinct, bind_ok,
  contains,
}
use skywire_mainnet_old.Base.Step.{after-ok}
use skywire_mainnet_old.Routing.Addr.{PubKey, RouteId, Loop}
use skywire_mainnet_old.Routing.Rule.{Rule}
use skywire_mainnet_old.Routing.Table
use skywire_mainnet_old.Routing.Table.{range_entries}
use skywire_mainnet_old.Router.Managed.{ManagedTable, delete_rules}
use skywire_mainnet_old.Router.RouteManager.{
  is_loop_rule, match_rule, find_loop_rule, delete_found, remove_loop_rule,
}

module _ (unmarshal_pk : Bytes → Option PubKey) (loop : Loop) where
  -- Every stored rule can be tested: an app rule has all its fields.
  abbrev pub AllTestable : Map RouteId Rule → Type 0
  AllTestable [] = Unit
  AllTestable ((id, rule) ∷ m) =
      ((b : Bool) × (is_loop_rule unmarshal_pk loop rule ≡ ok b)) × AllTestable m

  -- No stored rule is a rule of the loop.
  abbrev pub NoneMatches : Map RouteId Rule → Type 0
  NoneMatches [] = Unit
  NoneMatches ((id, rule) ∷ m) = (is_loop_rule unmarshal_pk loop rule ≡ ok false) × NoneMatches m

  abbrev pub Found : Map RouteId Rule → Type 0
  Found m =
      (id : RouteId) × (rule : Rule) × (range_entries (match_rule unmarshal_pk loop) m none
        ≡ ok (some (id, rule)))
      × (lookup id m ≡ some rule)
      × (is_loop_rule unmarshal_pk loop rule ≡ ok true)

  abbrev pub Searched : Map RouteId Rule → Type 0
  Searched m =
      ((range_entries (match_rule unmarshal_pk loop) m none ≡ ok none) × NoneMatches m) ⊎ Found m

  search_here :
      (id : RouteId) (rule : Rule) (m : Map RouteId Rule)
      → is_loop_rule unmarshal_pk loop rule ≡ ok true
      → Found ((id, rule) ∷ m)
  unfolding range_entries match_rule lookup
  search_here id rule m e = (
    id,
    rule,
    bind_ok (λ k. _) (bind_ok (λ b. _) e refl) refl,
    rw ((nat_beq_iff id id).1 refl) refl,
    e,
  )

  search_later :
      (id : RouteId) (rule : Rule) (m : Map RouteId Rule)
      → is_loop_rule unmarshal_pk loop rule ≡ ok false
      → lookup id m ≡ none
      → Searched m
      → Searched ((id, rule) ∷ m)
  unfolding range_entries match_rule lookup
  search_later id rule m e first (inl (ran, others)) =
      inl (bind_ok (λ k. _) (bind_ok (λ b. _) e refl) ran, (e, others))
  search_later id rule m e first (inr (i, r, ran, found, hit)) =
      inr (
        i,
        r,
        bind_ok (λ k. _) (bind_ok (λ b. _) e refl) ran,
        ground (arith, nat_beq_iff id i),
        hit,
      )

  search_cases : (m : Map RouteId Rule) → AllTestable m → Distinct m → Searched m
  search_cases [] t d = inl (unfold range_entries in refl, tt)
  search_cases ((id, rule) ∷ m) ((true, e), t) d = inr (search_here id rule m e)
  search_cases ((id, rule) ∷ m) ((false, e), t) d =
      search_later id rule m e d.0 (search_cases m t d.1)

  -- RemoveLoopRule on a table with one rule for an ID, all of whose rules can be tested, succeeds. If
  -- no rule is an app rule of the loop, it changes nothing; otherwise it removes one such rule, and
  -- every other ID is looked up as before. The activity records stay.
  pub remove_loop_rule_cases :
      (rt : ManagedTable)
      → AllTestable rt.table.rules
      → Distinct rt.table.rules
      → (NoneMatches rt.table.rules × (remove_loop_rule unmarshal_pk loop rt ≡ (rt, ok tt)))
        ⊎ ((id : RouteId) × (rule : Rule) × (rt' : ManagedTable) × (remove_loop_rule unmarshal_pk
                loop rt
              ≡ (rt', ok tt))
            × (lookup id rt.table.rules ≡ some rule)
            × (is_loop_rule unmarshal_pk loop rule ≡ ok true)
            × ((j : RouteId)
                → lookup j rt'.table.rules
                  ≡ (if nat_beq id j then none else lookup j rt.table.rules))
            × (rt'.activity ≡ rt.activity))
  unfolding remove_loop_rule find_loop_rule delete_found delete_rules Table.range_rules
      Table.delete_rules
  remove_loop_rule_cases rt t d = elim (search_cases rt.table.rules t d) [
    | inl (ran, others) ↦ inl (others, after-ok (λ o. _) (ap (λ r. (rt, r)) ran) refl)
    | inr (id, rule, ran, found, hit) ↦ inr (
      id,
      rule,
      (delete_rules (id ∷ []) rt).0,
      after-ok (λ o. _) (ap (λ r. (rt, r)) ran) refl,
      found,
      hit,
      λ j. lookup-remove_all (id ∷ []) j rt.table.rules ∙ (unfold contains in ground arith),
      refl,
    )
  ]
