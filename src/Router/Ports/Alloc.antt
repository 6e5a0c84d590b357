-- ===== src/Router/Ports/Alloc.antt =====
-- port_list.go and port_manager.go: which port Alloc binds.
use skywire_mainnet_old.Base.{
  ℕ, zero, suc, ◌+◌, ◌-◌, ◌≤◌, ◌<◌, ◌≡◌, ◌≢◌, refl, [], none, some, Map, lookup, insert,
  lookup-insert, ok, panic, nat_eq, if◌then◌else◌, nat_beq, arith, ◌⊎◌, inl, inr, Option-cases, ◌∙◌,
}
use native.Mathlib.Decide.{dec_lt}
use skywire_mainnet_old.Routing.Addr.{Port}
use skywire_mainnet_old.Router.Ports.{
  PortBind, PortList, ConnId, add_from, add_port, alloc, get_port, max_port,
}

-- All ports from `lo` up to `hi` are bound.
abbrev pub AllBound : Port → Port → Map Port PortBind → Type 0
AllBound lo hi ports = (q : Port) → lo ≤ q → q < hi → lookup q ports ≢ none

-- `i` is the first port that is free from `lo` on.
pub record IsFirstFree (lo i : Port) (ports : Map Port PortBind) : Type 0 where
  pub above : lo ≤ i
  pub in_range : i < max_port
  pub free : lookup i ports ≡ none
  pub first : AllBound lo i ports

module _ (b : PortBind) (ports : Map Port PortBind) where
  abbrev Added : ℕ → Port → Type 0
  Added rounds i =
      ((p : Port) × (add_from rounds i b ports ≡ ok (p, insert p b ports)) × IsFirstFree i p ports)
      ⊎ ((add_from rounds i b ports ≡ panic) × AllBound i max_port ports)

  still_bound :
      {i hi : Port} (q : PortBind)
      → lookup i ports ≡ some q
      → AllBound (i + 1) hi ports
      → AllBound i hi ports
  still_bound {i} q here above p lo hi unbound = elim (dec_lt i p) [
    | yes later ↦ above p (omega arith) hi unbound
    | no later ↦ let same : p ≡ i = omega arith in cc same
  ]

  add_from_free :
      (rounds : ℕ) (i : Port)
      → lookup i ports ≡ none
      → add_from (suc rounds) i b ports ≡ ok (i, insert i b ports)
  unfolding add_from
  add_from_free rounds i e = rw (e, add_from)

  add_from_taken :
      (rounds : ℕ) (i : Port) (q : PortBind)
      → lookup i ports ≡ some q
      → add_from (suc rounds) i b ports ≡ add_from rounds (i + 1) b ports
  unfolding add_from
  add_from_taken rounds i q e = rw (e, add_from)

  taken_first :
      (rounds : ℕ) (i : Port) (q : PortBind)
      → lookup i ports ≡ some q
      → Added rounds (i + 1)
      → Added (suc rounds) i
  taken_first rounds i q e (inl (p, r, v)) = inl (
    p,
    add_from_taken rounds i q e ∙ r,
    record {
      above = omega (arith, v.above);
      in_range = v.in_range;
      free = v.free;
      first = still_bound q e v.first;
    },
  )
  taken_first rounds i q e (inr (r, bound)) =
      inr (add_from_taken rounds i q e ∙ r, still_bound q e bound)

  add_from-Added : (rounds : ℕ) (i : Port) → i + rounds ≡ max_port → Added rounds i
  add_from-Added zero i h = inr (unfold add_from in refl, λ q lo hi. absurd (omega arith))
  add_from-Added (suc rounds) i h =
      let more : Added rounds (i + 1) = add_from-Added rounds (i + 1) (omega arith) in
      elim (Option-cases (lookup i ports)) [
        | inl e ↦ inl (
          i,
          add_from_free rounds i e,
          record {
            above = omega arith;
            in_range = omega arith;
            free = e;
            first = λ q lo hi. absurd (omega arith);
          },
        )
        | inr (q, e) ↦ taken_first rounds i q e more
      ]

abbrev pub new_bind : ConnId → PortBind
new_bind conn = record { conn = conn; loops = [] }

-- With a lowest port of at most 65535, Alloc either returns the first free port from the lowest one
-- on, always below 65535, which the connection then has with no loops while every other port is as
-- before; or every port from the lowest one up to 65534 is bound, and it panics.
pub alloc_cases :
    (conn : ConnId) (pm : PortList)
    → pm.min_port ≤ max_port
    → ((p : Port) × (pm' : PortList) × (alloc conn pm ≡ ok (p, pm'))
        × IsFirstFree pm.min_port p pm.ports
        × ((q : Port)
            → get_port q pm' ≡ (if nat_beq p q then some (new_bind conn) else get_port q pm)))
      ⊎ ((alloc conn pm ≡ panic) × AllBound pm.min_port max_port pm.ports)
alloc_cases conn pm h =
    elim (add_from-Added b pm.ports (max_port - pm.min_port) pm.min_port (omega arith)) [
      | inl (p, r, v) ↦ inl (
        p,
        record pm { ports = insert p b pm.ports },
        unfold alloc add_port in rw r,
        v,
        λ q. unfold get_port in lookup-insert p q b pm.ports,
      )
      | inr (r, bound) ↦ inr (unfold alloc add_port in rw r, bound)
    ]
  where
    b : PortBind
    b = new_bind conn
