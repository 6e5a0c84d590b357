-- ===== src/Setup/Rules/Trace.antt =====
-- idreservoir.go: the rules of one route as a chain of reserved route IDs.
use skywire_mainnet_old.Base.{
  ℕ, ◌≤◌, ◌≡◌, refl, sym, List, [], ◌∷◌, ◌++◌, some, lookup, insert, lookup-insert, length, ok,
  nat_eq, list_eq, ℤ, arith, if◌then◌else◌, ◌==◌, inl, inr, Bool-cases, list_beq_iff, suc,
}
use skywire_mainnet_old.Routing.Addr.{PubKey, RouteId, Route}
use skywire_mainnet_old.Routing.Rule.{Rule, new_forward_rule}
use skywire_mainnet_old.Setup.Rules.{
  IdReservoir, RulesMap, or_nil, pop_list, pop_id, pop_or_fail, append_rule, hops_loop,
}

-- The route IDs that a visor still has in reserve, and the rules that are made for it.
abbrev pub left : PubKey → IdReservoir → List RouteId
left pk idr = or_nil (lookup pk idr.ids)

abbrev pub rules_of : PubKey → RulesMap → List Rule
rules_of pk rules = or_nil (lookup pk rules)

pub rules_of-append_rule :
    (pk q : PubKey) (rule : Rule) (rules : RulesMap)
    → rules_of q (append_rule pk rule rules)
      ≡ (if pk == q then rules_of pk rules ++ rule ∷ [] else rules_of q rules)
unfolding append_rule
rules_of-append_rule pk q rule rules = rw lookup-insert (ground arith)

-- PopID takes the first ID of the visor, and the IDs of all others stay.
pub record IsPopped (pk : PubKey) (idr : IdReservoir) (id : RouteId) (idr' : IdReservoir)
    : Type 0 where
  pub popped : pop_or_fail pk idr ≡ ok (id, idr')
  pub kept : (q : PubKey) → (if pk == q then id ∷ left q idr' else left q idr') ≡ left q idr

module _ (pk : PubKey) (idr : IdReservoir) (id : RouteId) (rest : List RouteId) where
  abbrev pub popped_from : IdReservoir
  popped_from = record idr { ids = insert pk rest idr.ids }

  pop_id-cons : left pk idr ≡ id ∷ rest → pop_id pk idr ≡ some (id, popped_from)
  unfolding pop_id pop_list
  pop_id-cons e = rw e

  pop_IsPopped : left pk idr ≡ id ∷ rest → IsPopped pk idr id popped_from
  pop_IsPopped e = record {
    popped = unfold pop_or_fail in rw (pop_id-cons e, pop_or_fail);
    kept = λ q. elim (Bool-cases (pk == q)) [
      | inl same ↦
          let here : pk ≡ q = (list_beq_iff pk q).0 same in
          rw (lookup-insert pk q rest idr.ids) (rw same (rw (← here) (sym e)))
      | inr other ↦ rw (lookup-insert pk q rest idr.ids) (rw other)
    ];
  }

-- How often a list of visors names one.
abbrev pub demand : PubKey → List PubKey → ℕ
demand pk [] = 0
demand pk (q ∷ qs) = if q == pk then suc (demand pk qs) else demand pk qs

-- The IDs that were popped for one visor, of those popped for a list of visors in turn.
abbrev pub ids_at : PubKey → List PubKey → List RouteId → List RouteId
ids_at pk (q ∷ qs) (id ∷ ids) = if q == pk then id ∷ ids_at pk qs ids else ids_at pk qs ids
ids_at pk _ _ = []

nonempty :
    (xs : List RouteId) → 1 ≤ length xs → (x : RouteId) × (rest : List RouteId) × (xs ≡ x ∷ rest)
nonempty [] h = absurd (omega arith)
nonempty (x ∷ rest) h = (x, rest, refl)

-- With an ID in reserve, PopID succeeds.
pub pop_total :
    (pk : PubKey) (idr : IdReservoir)
    → 1 ≤ length (left pk idr)
    → (id : RouteId) × (idr' : IdReservoir) × IsPopped pk idr id idr'
pop_total pk idr h =
    let (id, rest, e) = nonempty (left pk idr) h in
    (id, popped_from pk idr id rest, pop_IsPopped pk idr id rest e)

-- A row of visors and rules that chains the IDs of a route: each rule is for the hop's first visor,
-- is requested under the ID before it and forwards to the ID after it.
abbrev pub Chained : ℤ → Route → RouteId → List RouteId → List (PubKey × Rule) → Type 0
Chained ka [] id [] [] = Unit
Chained ka (hop ∷ hops) id (next ∷ ids) ((pk, rule) ∷ links) =
    (pk ≡ hop.from)
    × (new_forward_rule ka next hop.transport id ≡ ok rule)
    × Chained ka hops next ids links
Chained _ _ _ _ _ = ⊥

abbrev pub last_of : RouteId → List RouteId → RouteId
last_of id [] = id
last_of id (next ∷ ids) = last_of next ids

-- The rules of one visor, of a row.
abbrev pub rules_at : PubKey → List (PubKey × Rule) → List Rule
rules_at pk [] = []
rules_at pk ((q, rule) ∷ links) = if q == pk then rule ∷ rules_at pk links else rules_at pk links

abbrev pub ends : Route → List PubKey
ends [] = []
ends (hop ∷ hops) = hop.to ∷ ends hops

-- The transport IDs are UUIDs.
abbrev pub HasUuids : Route → Type 0
HasUuids [] = Unit
HasUuids (hop ∷ hops) = (length hop.transport ≡ 16) × HasUuids hops

-- What the loop of SaveForwardRules has done when it ends.
pub record HopsDone (ka : ℤ) (hops : Route) (id : RouteId) (rules : RulesMap) (idc : IdReservoir)
    : Type 0 where
  pub idc' : IdReservoir
  pub rules' : RulesMap
  pub ids : List RouteId
  pub links : List (PubKey × Rule)
  pub returned : hops_loop ka hops id rules idc ≡ ok (idc', rules', last_of id ids)
  pub chained : Chained ka hops id ids links
  pub added : (pk : PubKey) → rules_of pk rules' ≡ rules_of pk rules ++ rules_at pk links
  pub used : (pk : PubKey) → ids_at pk (ends hops) ids ++ left pk idc' ≡ left pk idc
