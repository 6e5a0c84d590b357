-- ===== src/Router/RouteManager/Occupy.antt =====
-- route_manager.go: the route IDs that a visor hands out.
use skywire_mainnet_old.Base.{
  ℕ, zero, suc, ◌+◌, ◌^◌, ◌<◌, ◌≡◌, refl, ap, List, [], ◌∷◌, none, some, ok, lookup, lookup-insert,
  nat_eq, nat_beq, replicate, arith, if◌then◌else◌, length, flat, clamp_uint64, contains, ltb, leb,
  ◌&&◌,
}
use native.Mathlib.Nat.{mod-eq_of_lt}
use skywire_mainnet_old.Base.Step.{after-ok}
use skywire_mainnet_old.Routing.Addr.{RouteId}
use skywire_mainnet_old.Routing.Rule.{Rule}
use skywire_mainnet_old.Routing.Rule.Layout.{forward_row, new_forward_rule-row}
use skywire_mainnet_old.Routing.Table
use skywire_mainnet_old.Routing.Table.{Table}
use skywire_mainnet_old.Routing.Table.History.{IsFresh}
use skywire_mainnet_old.Router.Managed.{Time, ManagedTable, add_rule, record_add}
use skywire_mainnet_old.Router.RouteManager.{occupy_ids, default_route_keep_alive}

-- `n` consecutive IDs after `id`.
abbrev pub ids_after : RouteId → ℕ → List RouteId
ids_after id zero = []
ids_after id (suc n) = (id + 1) ∷ ids_after (id + 1) n

abbrev pub placeholder : Rule
placeholder = flat (forward_row (clamp_uint64 default_route_keep_alive) 0 (replicate 16 0) 0)

add_rule_next :
    (now : Time) (rule : Rule) (rt : ManagedTable)
    → rt.table.next_id + 1 < 2 ^ 32
    → (rt' : ManagedTable) × (add_rule now rule rt ≡ (rt', ok (rt.table.next_id + 1)))
      × (rt'.table.next_id ≡ rt.table.next_id + 1)
      × ((j : RouteId)
          → lookup j rt'.table.rules
            ≡ (if nat_beq (rt.table.next_id + 1) j then some rule else lookup j rt.table.rules))
      × ((j : RouteId)
          → lookup j rt'.activity
            ≡ (if nat_beq (rt.table.next_id + 1) j then some now else lookup j rt.activity))
unfolding add_rule record_add Table.add_rule
add_rule_next now rule rt room = rw (mod-eq_of_lt room) (
  _,
  refl,
  refl,
  λ j. lookup-insert (rt.table.next_id + 1) j rule rt.table.rules,
  λ j. lookup-insert (rt.table.next_id + 1) j now rt.activity,
)

pub ids_after-contains :
    (id j : RouteId) (n : ℕ) → contains j (ids_after id n) ≡ (ltb id j && leb j (id + n))
unfolding contains
ids_after-contains id j zero = ground arith
ids_after-contains id j (suc n) = ground (arith, ids_after-contains (id + 1) j n)

pub length-ids_after : (id : RouteId) (n : ℕ) → length (ids_after id n) ≡ n
length-ids_after id zero = refl
length-ids_after id (suc n) = ap suc (length-ids_after (id + 1) n)

-- What a run of `n` AddRules has left: the IDs after the counter carry the placeholder.
pub record Occupied (clock : ℕ → Time) (n : ℕ) (rt : ManagedTable) : Type 0 where
  pub rt' : ManagedTable
  pub returned : occupy_ids clock n rt ≡ (rt', ok (ids_after rt.table.next_id n))
  pub counter : rt'.table.next_id ≡ rt.table.next_id + n
  pub stored :
      (j : RouteId)
      → lookup j rt'.table.rules ≡ (
          if ltb rt.table.next_id j && leb j (rt.table.next_id + n)
          then some placeholder
          else lookup j rt.table.rules)

Occupied-nil : (clock : ℕ → Time) (rt : ManagedTable) → Occupied clock zero rt
unfolding occupy_ids
Occupied-nil clock rt = record {
  rt' = rt;
  returned = refl;
  counter = omega arith;
  stored = λ j. ground arith;
}

Occupied-step :
    (clock : ℕ → Time) (n : ℕ) (rt rt1 : ManagedTable)
    → add_rule (clock n) placeholder rt ≡ (rt1, ok (rt.table.next_id + 1))
    → rt1.table.next_id ≡ rt.table.next_id + 1
    → ((j : RouteId)
        → lookup j rt1.table.rules ≡ (
            if nat_beq (rt.table.next_id + 1) j then some placeholder else lookup j rt.table.rules))
    → Occupied clock n rt1
    → Occupied clock (suc n) rt
unfolding occupy_ids
Occupied-step clock n rt rt1 added next stored o = record {
  rt' = o.rt';
  returned =
      after-ok (λ rule. _)
        (ap (λ r. (rt, r))
          (new_forward_rule-row default_route_keep_alive 0 (replicate 16 0) 0 refl))
        (after-ok (λ id. _) added
          (after-ok (λ ids. _) o.returned
            (ap (λ k. (o.rt', ok ((rt.table.next_id + 1) ∷ ids_after k n))) next)));
  counter = omega (arith, o.counter);
  stored = λ j. ground (arith, o.stored j, stored j);
}

pub occupy_ids-Occupied :
    (clock : ℕ → Time) (n : ℕ) (rt : ManagedTable)
    → rt.table.next_id + n < 2 ^ 32
    → Occupied clock n rt
occupy_ids-Occupied clock zero rt room = Occupied-nil clock rt
occupy_ids-Occupied clock (suc n) rt room =
    let (rt1, added, next, stored, used) = add_rule_next (clock n) placeholder rt (omega arith) in
    Occupied-step clock n rt rt1 added next stored (occupy_ids-Occupied clock n rt1 (omega arith))

-- With room in the counter, and no rule under an ID above it, occupyRouteID's loop returns the `n`
-- IDs after the counter. No rule was stored under them, each now has the placeholder rule, and every
-- other ID is looked up as before.
pub occupy_ids_fresh :
    (clock : ℕ → Time) (n : ℕ) (rt : ManagedTable)
    → rt.table.next_id + n < 2 ^ 32
    → IsFresh rt.table
    → (rt' : ManagedTable) × (occupy_ids clock n rt ≡ (rt', ok (ids_after rt.table.next_id n)))
      × ((j : RouteId)
          → (lookup j rt'.table.rules ≡ (
              if contains j (ids_after rt.table.next_id n)
              then some placeholder
              else lookup j rt.table.rules))
            × (lookup j rt.table.rules ≡ (
                if contains j (ids_after rt.table.next_id n)
                then none
                else lookup j rt.table.rules)))
occupy_ids_fresh clock n rt room fresh =
    let o = occupy_ids-Occupied clock n rt room in
    (
      o.rt',
      o.returned,
      λ j. (
        ground (arith, o.stored j, ids_after-contains rt.table.next_id j n),
        ground (arith, fresh.above j, ids_after-contains rt.table.next_id j n),
      ),
    )
