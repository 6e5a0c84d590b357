-- ===== src/Setup/Rules.antt =====
-- pkg/setup/idreservoir.go. The goroutines of ReserveIDs write entries of different visors under a
-- lock and are all waited for, so they are run here in the order of the map.
pub mod Trace
pub mod Supply
pub mod Counts
pub mod Generate
pub mod Whole
use skywire_mainnet_old.Base.{
  ℕ, ◌+◌, ◌%◌, Bool, true, false, List, [], ◌∷◌, ◌++◌, Option, none, some, Map, lookup, insert,
  length, Outcome, ok, err, panic, ◌>>=◌, reservation_failed, no_reserved_id, nat_eq, list_eq, ℤ,
}
use skywire_mainnet_old.Routing.Addr.{PubKey, RouteId, Route, Hop, Loop, Addr, LoopDescriptor}
use skywire_mainnet_old.Routing.Rule.{Rule, new_app_rule, new_forward_rule}

pub record IdReservoir : Type 0 where
  pub rec : Map PubKey ℕ
  pub ids : Map PubKey (List RouteId)

-- The zero value of a missing key.
abbrev pub or_zero : Option ℕ → ℕ
or_zero none = 0
or_zero (some n) = n

abbrev pub or_nil {ℓ} : {A : Type ℓ} → Option (List A) → List A
or_nil none = []
or_nil (some l) = l

-- `rec[pk]++`, on a uint8
unfoldable pub bump : PubKey → Map PubKey ℕ → Map PubKey ℕ
bump pk rec = insert pk ((or_zero (lookup pk rec) + 1) % 256) rec

unfoldable pub bump_hops : Route → Map PubKey ℕ → Map PubKey ℕ
bump_hops [] rec = rec
bump_hops (hop ∷ hops) rec = bump_hops hops (bump hop.to rec)

unfoldable pub bump_routes : List Route → Map PubKey ℕ → ℕ → Map PubKey ℕ × ℕ
bump_routes [] rec total = (rec, total)
bump_routes ([] ∷ routes) rec total = bump_routes routes rec total
bump_routes ((hop ∷ hops) ∷ routes) rec total =
    bump_routes routes (bump_hops (hop ∷ hops) (bump hop.from rec))
      (total + (length (hop ∷ hops) + 1))

unfoldable pub new_id_reservoir : List Route → IdReservoir × ℕ
unfolding bump_routes bump_hops
new_id_reservoir routes =
    let (rec, total) = bump_routes routes [] 0 in (record { rec = rec; ids = [] }, total)

-- `reserve` asks a visor for so many route IDs; `failed` is finalError's error so far.
module _ (reserve : PubKey → ℕ → Outcome (List RouteId)) where
  unfoldable pub reserve_loop :
      Map PubKey ℕ
      → Map PubKey (List RouteId)
      → Outcome (Unit {0})
      → Map PubKey (List RouteId) × Outcome (Unit {0})
  reserve_loop [] ids failed = (ids, failed)
  reserve_loop ((pk, n) ∷ rec) ids failed = elim (reserve pk n) [
    | ok got ↦ reserve_loop rec (insert pk got ids) failed
    | err e ↦ reserve_loop rec ids (err reservation_failed)
    | panic ↦ (ids, panic)
  ]

  unfoldable pub reserve_ids : IdReservoir → IdReservoir × Outcome (Unit {0})
  unfolding reserve_loop
  reserve_ids idr =
      let (ids, r) = reserve_loop idr.rec idr.ids (ok tt) in (record idr { ids = ids }, r)

-- `none` is the result (0, false).
unfoldable pub pop_list : PubKey → List RouteId → IdReservoir → Option (RouteId × IdReservoir)
pop_list pk [] idr = none
pop_list pk (id ∷ rest) idr = some (id, record idr { ids = insert pk rest idr.ids })

unfoldable pub pop_id : PubKey → IdReservoir → Option (RouteId × IdReservoir)
unfolding pop_list
pop_id pk idr = pop_list pk (or_nil (lookup pk idr.ids)) idr

unfoldable pub pop_or_fail : PubKey → IdReservoir → Outcome (RouteId × IdReservoir)
pop_or_fail pk idr = elim (pop_id pk idr) [ none ↦ err no_reserved_id | some p ↦ ok p ]

abbrev pub RulesMap : Type 0
RulesMap = Map PubKey (List Rule)

-- `rules[pk] = append(rules[pk], rule)`
unfoldable pub append_rule : PubKey → Rule → RulesMap → RulesMap
append_rule pk rule rules = insert pk (or_nil (lookup pk rules) ++ rule ∷ []) rules

-- What a stage leaves: the reservoir, the rules, and the route ID of the last visor.
abbrev pub Stage : Type 0
Stage = IdReservoir × RulesMap × RouteId

unfoldable pub hops_loop : ℤ → Route → RouteId → RulesMap → IdReservoir → Outcome Stage
hops_loop keep_alive [] id rules idc = ok (idc, rules, id)
hops_loop keep_alive (hop ∷ hops) id rules idc = do
  (next_id, idc') ← pop_or_fail hop.to idc
  rule ← new_forward_rule keep_alive next_id hop.transport id
  hops_loop keep_alive hops next_id (append_rule hop.from rule rules) idc'

-- The result is the first visor's route ID with the stage. `route[0]` panics on an empty route.
unfoldable pub save_forward_rules : ℤ → Route → RulesMap → IdReservoir → Outcome (RouteId × Stage)
save_forward_rules keep_alive [] rules idc = panic
save_forward_rules keep_alive (hop ∷ hops) rules idc = do
  (first_id, idc') ← pop_or_fail hop.from idc
  stage ← hops_loop keep_alive (hop ∷ hops) first_id rules idc'
  ok (first_id, stage)

pub record Generated : Type 0 where
  pub rules : RulesMap
  pub src_fwd_id : RouteId
  pub dst_fwd_id : RouteId
  pub left_over : IdReservoir

unfoldable pub generate_rules : IdReservoir → LoopDescriptor → Outcome Generated
generate_rules idc ld = do
  (first_fwd, (idc, rules, last_fwd)) ← save_forward_rules ld.keep_alive ld.forward [] idc
  (first_rev, (idc, rules, last_rev)) ← save_forward_rules ld.keep_alive ld.reverse rules idc
  let src = ld.loop.local
  let dst = ld.loop.remote
  to_dst ← new_app_rule ld.keep_alive last_rev first_fwd dst.pub_key src.port dst.port
  to_src ← new_app_rule ld.keep_alive last_fwd first_rev src.pub_key dst.port src.port
  ok (record {
    rules = append_rule dst.pub_key to_src (append_rule src.pub_key to_dst rules);
    src_fwd_id = first_fwd;
    dst_fwd_id = first_rev;
    left_over = idc;
  })
