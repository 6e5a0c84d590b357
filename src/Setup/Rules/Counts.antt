-- ===== src/Setup/Rules/Counts.antt =====
-- idreservoir.go: how many IDs are asked for, and what ReserveIDs stores.
use skywire_mainnet_old.Base.{
  ℕ, ◌+◌, ◌%◌, ◌<◌, ◌≡◌, refl, ◌∙◌, ap, List, [], ◌∷◌, ◌++◌, Option, none, some, Map, lookup,
  insert, lookup-insert, length, Outcome, ok, nat_eq, list_eq, arith, if◌then◌else◌, ◌==◌, inl, inr,
  Bool-cases, list_beq_iff, Distinct, insert-Distinct,
}
use skywire_mainnet_old.Routing.Addr.{PubKey, RouteId, Route}
use skywire_mainnet_old.Setup.Rules.{
  IdReservoir, or_nil, or_zero, bump, bump_hops, bump_routes, new_id_reservoir, reserve_loop,
  reserve_ids,
}
use skywire_mainnet_old.Setup.Rules.Trace.{left, demand, ends}
use skywire_mainnet_old.Setup.Rules.Supply.{visors}

abbrev pub counted : PubKey → Map PubKey ℕ → ℕ
counted pk rec = or_zero (lookup pk rec)

bump-counted :
    (q pk : PubKey) (rec : Map PubKey ℕ)
    → counted pk (bump q rec) ≡ (if q == pk then (counted pk rec + 1) % 256 else counted pk rec)
unfolding bump
bump-counted q pk rec = elim (Bool-cases (q == pk)) [
  | inl same ↦
      let here : q ≡ pk = (list_beq_iff q pk).0 same in
      rw (lookup-insert q pk ((counted q rec + 1) % 256) rec) (rw same (rw here))
  | inr other ↦ rw (lookup-insert q pk ((counted q rec + 1) % 256) rec) (rw other)
]

pub demand-append :
    (pk : PubKey) (qs rs : List PubKey) → demand pk (qs ++ rs) ≡ demand pk qs + demand pk rs
demand-append pk [] rs = omega arith
demand-append pk (q ∷ qs) rs = ground (arith, demand-append pk qs rs)

-- All the visors that the routes take an ID from.
abbrev pub all_visors : List Route → List PubKey
all_visors [] = []
all_visors (route ∷ routes) = visors route ++ all_visors routes

bump_hops-counted :
    (hops : Route) (pk : PubKey) (rec : Map PubKey ℕ)
    → counted pk rec < 256
    → counted pk (bump_hops hops rec) ≡ (counted pk rec + demand pk (ends hops)) % 256
unfolding bump_hops
bump_hops-counted [] pk rec h = omega arith
bump_hops-counted (hop ∷ hops) pk rec h =
    ground (arith, bump-counted hop.to pk rec, bump_hops-counted hops pk (bump hop.to rec))

bump_routes-counted :
    (routes : List Route) (pk : PubKey) (rec : Map PubKey ℕ) (total : ℕ)
    → counted pk rec < 256
    → counted pk (bump_routes routes rec total).0
      ≡ (counted pk rec + demand pk (all_visors routes)) % 256
unfolding bump_routes
bump_routes-counted [] pk rec total h = omega arith
bump_routes-counted ([] ∷ routes) pk rec total h = bump_routes-counted routes pk rec total h
bump_routes-counted ((hop ∷ hops) ∷ routes) pk rec total h = ground (
  arith,
  bump-counted hop.from pk rec,
  bump_hops-counted (hop ∷ hops) pk (bump hop.from rec),
  bump_routes-counted routes pk (bump_hops (hop ∷ hops) (bump hop.from rec))
      (total + (length (hop ∷ hops) + 1)),
  demand-append pk (visors (hop ∷ hops)) (all_visors routes),
)

-- newIDReservoir counts, for each visor, modulo 256, how many IDs the routes take from it.
pub new_id_reservoir-counted :
    (routes : List Route) (pk : PubKey)
    → counted pk (new_id_reservoir routes).0.rec ≡ demand pk (all_visors routes) % 256
unfolding new_id_reservoir
new_id_reservoir-counted routes pk =
    bump_routes-counted routes pk [] 0 (unfold lookup in omega arith) ∙ unfold lookup in omega arith

bump-Distinct : (pk : PubKey) (rec : Map PubKey ℕ) → Distinct rec → Distinct (bump pk rec)
unfolding bump
bump-Distinct pk rec d = insert-Distinct pk _ rec d

bump_hops-Distinct :
    (hops : Route) (rec : Map PubKey ℕ) → Distinct rec → Distinct (bump_hops hops rec)
unfolding bump_hops
bump_hops-Distinct [] rec d = d
bump_hops-Distinct (hop ∷ hops) rec d =
    bump_hops-Distinct hops (bump hop.to rec) (bump-Distinct hop.to rec d)

bump_routes-Distinct :
    (routes : List Route) (rec : Map PubKey ℕ) (total : ℕ)
    → Distinct rec
    → Distinct (bump_routes routes rec total).0
unfolding bump_routes
bump_routes-Distinct [] rec total d = d
bump_routes-Distinct ([] ∷ routes) rec total d = bump_routes-Distinct routes rec total d
bump_routes-Distinct ((hop ∷ hops) ∷ routes) rec total d =
    bump_routes-Distinct routes (bump_hops (hop ∷ hops) (bump hop.from rec))
      (total + (length (hop ∷ hops) + 1))
      (bump_hops-Distinct (hop ∷ hops) (bump hop.from rec) (bump-Distinct hop.from rec d))

pub new_id_reservoir-Distinct : (routes : List Route) → Distinct (new_id_reservoir routes).0.rec
unfolding new_id_reservoir
new_id_reservoir-Distinct routes = bump_routes-Distinct routes [] 0 tt

new_id_reservoir-ids : (routes : List Route) → (new_id_reservoir routes).0.ids ≡ []
unfolding new_id_reservoir
new_id_reservoir-ids routes = refl

-- Every visor grants the number of IDs that it is asked for: RequestRouteIDs refuses any other
-- number, and this run meets no refusal.
pub record Grants (reserve : PubKey → ℕ → Outcome (List RouteId)) : Type 0 where
  pub granted : PubKey → ℕ → List RouteId
  pub answers : (pk : PubKey) (n : ℕ) → reserve pk n ≡ ok (granted pk n)
  pub exact : (pk : PubKey) (n : ℕ) → length (granted pk n) ≡ n

module _ (reserve : PubKey → ℕ → Outcome (List RouteId)) (g : Grants reserve) where
  abbrev stored : PubKey → Option ℕ → Option (List RouteId) → Option (List RouteId)
  stored pk none before = before
  stored pk (some n) before = some (g.granted pk n)

  stored_head :
      (q pk : PubKey) (n : ℕ) (rec : Map PubKey ℕ) (ids : Map PubKey (List RouteId))
      → lookup q rec ≡ none
      → stored pk (lookup pk rec) (lookup pk (insert q (g.granted q n) ids))
        ≡ stored pk (lookup pk ((q, n) ∷ rec)) (lookup pk ids)
  unfolding lookup
  stored_head q pk n rec ids first = elim (Bool-cases (q == pk)) [
    | inl same ↦
        let here : q ≡ pk = (list_beq_iff q pk).0 same in
        let absent : lookup pk rec ≡ none = rw here at first in
        rw (lookup-insert q pk (g.granted q n) ids)
          (rw same (rw absent (ap (λ k. some (g.granted k n)) here)))
    | inr other ↦ rw (lookup-insert q pk (g.granted q n) ids) (rw other)
  ]

  reserve_loop_step :
      (q : PubKey) (n : ℕ) (rec : Map PubKey ℕ) (ids : Map PubKey (List RouteId))
      (failed : Outcome (Unit {0}))
      → reserve_loop reserve ((q, n) ∷ rec) ids failed
        ≡ reserve_loop reserve rec (insert q (g.granted q n) ids) failed
  unfolding reserve_loop
  reserve_loop_step q n rec ids failed = rw (g.answers q n, reserve_loop)

  reserve_loop-lookup :
      (rec : Map PubKey ℕ) (ids : Map PubKey (List RouteId)) (failed : Outcome (Unit {0}))
      → Distinct rec
      → ((reserve_loop reserve rec ids failed).1 ≡ failed)
        × ((pk : PubKey)
            → lookup pk (reserve_loop reserve rec ids failed).0
              ≡ stored pk (lookup pk rec) (lookup pk ids))
  reserve_loop-lookup [] ids failed d =
      (unfold reserve_loop in refl, λ pk. unfold reserve_loop lookup in refl)
  reserve_loop-lookup ((q, n) ∷ rec) ids failed d =
      let (kept, found) = reserve_loop-lookup rec (insert q (g.granted q n) ids) failed d.1 in
      (
        rw (reserve_loop_step q n rec ids failed) kept,
        λ pk. rw (reserve_loop_step q n rec ids failed) (found pk ∙ stored_head q pk n rec ids d.0),
      )

  stored_exact : (pk : PubKey) (o : Option ℕ) → length (or_nil (stored pk o none)) ≡ or_zero o
  stored_exact pk none = refl
  stored_exact pk (some n) = g.exact pk n

  abbrev pub reserved : List Route → IdReservoir × Outcome (Unit {0})
  reserved routes = reserve_ids reserve (new_id_reservoir routes).0

  -- When every visor grants what it is asked for, ReserveIDs on a new reservoir succeeds, and each
  -- visor then has, modulo 256, as many IDs in reserve as the routes take from it.
  pub reserve_ids_supply :
      (routes : List Route)
      → ((reserved routes).1 ≡ ok tt)
        × ((pk : PubKey)
            → length (left pk (reserved routes).0) ≡ demand pk (all_visors routes) % 256)
  unfolding reserve_ids lookup
  reserve_ids_supply routes =
      let idr = (new_id_reservoir routes).0 in
      let (kept, found) =
        reserve_loop-lookup idr.rec idr.ids (ok tt) (new_id_reservoir-Distinct routes) in
      (
        kept,
        λ pk.
            ap (λ o. length (or_nil o))
              (found pk
                ∙ ap (λ m. stored pk (lookup pk idr.rec) (lookup pk m))
                    (new_id_reservoir-ids routes))
            ∙ stored_exact pk (lookup pk idr.rec)
            ∙ new_id_reservoir-counted routes pk,
      )
