-- ===== src/Setup/Rules/Supply.antt =====
-- idreservoir.go: with enough IDs in reserve SaveForwardRules succeeds, and makes the chain.
use skywire_mainnet_old.Base.{
  ◌≤◌, ◌≡◌, refl, ◌∙◌, sym, ap, List, [], ◌∷◌, ◌++◌, length, ok, bind_ok, nat_eq, list_eq, ℤ, flat,
  clamp_uint64, arith, if◌then◌else◌, ◌==◌, inl, inr, Bool-cases, list_beq_iff, suc,
}
use mathlib.Core.List.{append_assoc, append-nil}
use skywire_mainnet_old.Routing.Addr.{PubKey, RouteId, Route, Hop}
use skywire_mainnet_old.Routing.Rule.{Rule, new_forward_rule}
use skywire_mainnet_old.Routing.Rule.Layout.{new_forward_rule-row, forward_row}
use skywire_mainnet_old.Setup.Rules.{IdReservoir, RulesMap, append_rule, hops_loop}
use skywire_mainnet_old.Setup.Rules.{save_forward_rules}
use skywire_mainnet_old.Base.{beq_refl}
use skywire_mainnet_old.Setup.Rules.Trace.{
  left, rules_of, rules_of-append_rule, IsPopped, pop_total, demand, ids_at, Chained, last_of,
  rules_at, ends, HasUuids, HopsDone,
}

-- Each visor has an ID for every time that the list names it.
abbrev pub IsSupplied : List PubKey → IdReservoir → Type 0
IsSupplied qs idc = (pk : PubKey) → demand pk qs ≤ length (left pk idc)

IsSupplied-first :
    (q : PubKey) (qs : List PubKey) (idc : IdReservoir)
    → IsSupplied (q ∷ qs) idc
    → 1 ≤ length (left q idc)
IsSupplied-first q qs idc h =
    let enough : suc (demand q qs) ≤ length (left q idc) = rw (beq_refl q) at (h q) in omega arith

IsSupplied-rest :
    (q : PubKey) (qs : List PubKey) (idc idc' : IdReservoir) (id : RouteId)
    → IsSupplied (q ∷ qs) idc
    → IsPopped q idc id idc'
    → IsSupplied qs idc'
IsSupplied-rest q qs idc idc' id h p pk = elim (Bool-cases (q == pk)) [
  | inl same ↦
      let enough : suc (demand pk qs) ≤ length (left pk idc) = rw same at (h pk) in
      let kept : id ∷ left pk idc' ≡ left pk idc = rw same at (p.kept pk) in
      omega (arith, ap length kept)
  | inr other ↦
      let enough : demand pk qs ≤ length (left pk idc) = rw other at (h pk) in
      let kept : left pk idc' ≡ left pk idc = rw other at (p.kept pk) in
      omega (arith, ap length kept)
]

used_step :
    (q : PubKey) (next : RouteId) (idc idc' last : IdReservoir) (pk : PubKey) (ids : List RouteId)
    → IsPopped q idc next idc'
    → ids ++ left pk last ≡ left pk idc'
    → (if q == pk then next ∷ ids else ids) ++ left pk last ≡ left pk idc
used_step q next idc idc' last pk ids p e = elim (Bool-cases (q == pk)) [
  | inl same ↦ rw same (ap (◌∷◌ next) e ∙ (rw same at (p.kept pk)))
  | inr other ↦ rw other (e ∙ (rw other at (p.kept pk)))
]

pub added_step :
    (q pk : PubKey) (rule : Rule) (rules : RulesMap) (links : List (PubKey × Rule))
    → rules_of pk (append_rule q rule rules) ++ rules_at pk links
      ≡ rules_of pk rules ++ rules_at pk ((q, rule) ∷ links)
added_step q pk rule rules links = elim (Bool-cases (q == pk)) [
  | inl same ↦
      let here : q ≡ pk = (list_beq_iff q pk).0 same in
      rw (rules_of-append_rule q pk rule rules) (
        rw same (
          append_assoc (rules_of q rules) (rule ∷ []) (rules_at pk links)
          ∙ ap (λ k. rules_of k rules ++ rule ∷ rules_at pk links) here))
  | inr other ↦ rw (rules_of-append_rule q pk rule rules) (rw other)
]

module _ (ka : ℤ) (hop : Hop) (hops : Route) (id next : RouteId) (rules : RulesMap)
    (idc idc' : IdReservoir) (rule : Rule) where
  done_step :
      IsPopped hop.to idc next idc'
      → new_forward_rule ka next hop.transport id ≡ ok rule
      → HopsDone ka hops next (append_rule hop.from rule rules) idc'
      → HopsDone ka (hop ∷ hops) id rules idc
  unfolding hops_loop
  done_step p made d = record {
    idc' = d.idc';
    rules' = d.rules';
    ids = next ∷ d.ids;
    links = (hop.from, rule) ∷ d.links;
    returned = bind_ok _ p.popped (bind_ok _ made d.returned);
    chained = (refl, made, d.chained);
    added = λ pk. d.added pk ∙ added_step hop.from pk rule rules d.links;
    used =
        λ pk. used_step hop.to next idc idc' d.idc' pk (ids_at pk (ends hops) d.ids) p (d.used pk);
  }

done_nil :
    (ka : ℤ) (id : RouteId) (rules : RulesMap) (idc : IdReservoir) → HopsDone ka [] id rules idc
unfolding hops_loop
done_nil ka id rules idc = record {
  idc' = idc;
  rules' = rules;
  ids = [];
  links = [];
  returned = refl;
  chained = tt;
  added = λ pk. sym (append-nil (rules_of pk rules));
  used = λ pk. refl;
}

pub hops_loop-HopsDone :
    (ka : ℤ) (hops : Route) (id : RouteId) (rules : RulesMap) (idc : IdReservoir)
    → HasUuids hops
    → IsSupplied (ends hops) idc
    → HopsDone ka hops id rules idc
hops_loop-HopsDone ka [] id rules idc u h = done_nil ka id rules idc
hops_loop-HopsDone ka (hop ∷ hops) id rules idc u h =
    let (next, idc', p) = pop_total hop.to idc (IsSupplied-first hop.to (ends hops) idc h) in
    let rule = flat (forward_row (clamp_uint64 ka) next hop.transport id) in
    done_step ka hop hops id next rules idc idc' rule p
      (new_forward_rule-row ka next hop.transport id u.0)
      (hops_loop-HopsDone ka hops next (append_rule hop.from rule rules) idc' u.1
        (IsSupplied-rest hop.to (ends hops) idc idc' next h p))

-- The visors that a route takes an ID from: the first one, and the end of each hop.
abbrev pub visors : Route → List PubKey
visors [] = []
visors (hop ∷ hops) = hop.from ∷ ends (hop ∷ hops)

abbrev pub IsNonempty : Route → Type 0
IsNonempty [] = ⊥
IsNonempty (hop ∷ hops) = Unit

-- What SaveForwardRules has done when it returns.
pub record RouteDone (ka : ℤ) (route : Route) (rules : RulesMap) (idc : IdReservoir) : Type 0 where
  pub idc' : IdReservoir
  pub rules' : RulesMap
  pub first : RouteId
  pub ids : List RouteId
  pub links : List (PubKey × Rule)
  pub returned :
      save_forward_rules ka route rules idc ≡ ok (first, (idc', rules', last_of first ids))
  pub chained : Chained ka route first ids links
  pub added : (pk : PubKey) → rules_of pk rules' ≡ rules_of pk rules ++ rules_at pk links
  pub used : (pk : PubKey) → ids_at pk (visors route) (first ∷ ids) ++ left pk idc' ≡ left pk idc

-- SaveForwardRules of a route with hops over UUIDs, with as many IDs in reserve at each visor as the
-- route passes it, returns the first and the last ID. The rules that it adds to the visors' lists,
-- in the order of the route, chain the IDs between: rule k is requested under ID k and forwards to
-- ID k + 1 over its hop's transport. What was popped at a visor is the front of its reserve, and the
-- rest is still there.
pub save_forward_rules-RouteDone :
    (ka : ℤ) (route : Route) (rules : RulesMap) (idc : IdReservoir)
    → IsNonempty route
    → HasUuids route
    → IsSupplied (visors route) idc
    → RouteDone ka route rules idc
unfolding save_forward_rules
save_forward_rules-RouteDone ka [] rules idc n u h = absurd n
save_forward_rules-RouteDone ka (hop ∷ hops) rules idc n u h =
    let (first, idc1, p) =
      pop_total hop.from idc (IsSupplied-first hop.from (ends (hop ∷ hops)) idc h) in
    let d =
      hops_loop-HopsDone ka (hop ∷ hops) first rules idc1 u
        (IsSupplied-rest hop.from (ends (hop ∷ hops)) idc idc1 first h p) in
    record {
      idc' = d.idc';
      rules' = d.rules';
      first = first;
      ids = d.ids;
      links = d.links;
      returned = bind_ok _ p.popped (bind_ok _ d.returned refl);
      chained = d.chained;
      added = d.added;
      used = λ pk.
          used_step hop.from first idc idc1 d.idc' pk (ids_at pk (ends (hop ∷ hops)) d.ids) p
            (d.used pk);
    }
