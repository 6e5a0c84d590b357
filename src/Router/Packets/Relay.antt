-- ===== src/Router/Packets/Relay.antt =====
-- A packet on its way along a route: router.go at each visor, with the rules that idreservoir.go has
-- made for it.
use skywire_mainnet_old.Base.{
  ◌≤◌, ◌^◌, ◌<◌, ◌≡◌, refl, ap, sym, ◌∙◌, List, [], ◌∷◌, Option, Bytes, Outcome, ok, err, panic,
  ◌>>=◌, ◌>>◌, bind_ok, length, true, if◌then◌else◌, ◌==◌, list_eq, nat_eq, unknown_transport, ℤ,
  beq_refl,
}
use mathlib.Core.Path.{subst}
use skywire_mainnet_old.Routing.Addr.{PubKey, RouteId, TransportId, Route, Hop}
use skywire_mainnet_old.Routing.Rule.{Rule, new_forward_rule}
use skywire_mainnet_old.Routing.Rule.Fields.{IsDuration}
use skywire_mainnet_old.Routing.Rule.ReadBack.{ReadsForward, new_forward_rule-ReadsForward}
use skywire_mainnet_old.Routing.Packet.{make_packet, max_uint16}
use skywire_mainnet_old.Router.Managed.{Time}
use skywire_mainnet_old.Router.Managed.Window.{touched}
use skywire_mainnet_old.Router.State.{Outside, State}
use skywire_mainnet_old.Router.Packets.{handle_packet}
use skywire_mainnet_old.Router.Packets.Handling.{IsUsable, handle_packet_forwards}
use skywire_mainnet_old.Setup.Rules.Trace.{Chained, last_of, HasUuids}

-- What a visor has written last.
abbrev pub written_last : State × Outcome (Unit {0}) → Outcome (TransportId × RouteId × Bytes)
written_last (s, ok u) = elim s.host.forwarded [ [] ↦ err unknown_transport | x ∷ xs ↦ ok x ]
written_last (s, err e) = err e
written_last (s, panic) = panic

-- Each visor of a route in turn, as it is when the packet comes.
abbrev pub Visors : Type 0
Visors = List (Outside × State)

module _ (unmarshal_pk : Bytes → Option PubKey) (own_key : PubKey) (now : Time) where
  -- A packet at the first visor of the route is handled there; what the visor writes to the hop's
  -- transport comes to the next visor as a packet. The result is what comes to the end of the route.
  unfoldable pub carry : Visors → Route → RouteId → Bytes → Outcome (RouteId × Bytes)
  carry [] [] id pay = ok (id, pay)
  carry ((outside, s) ∷ visors) (hop ∷ hops) id pay = do
    p ← make_packet id pay
    out ← written_last (handle_packet unmarshal_pk outside own_key now p s)
    if out.0 == hop.transport then ok tt else err unknown_transport
    carry visors hops out.1 out.2
  carry _ _ id pay = err unknown_transport

  -- Each visor has the rule of its hop in use, and the hop's transport, which takes the packet.
  abbrev pub Ready : Bytes → Visors → Route → RouteId → List RouteId → List (PubKey × Rule) → Type 0
  Ready pay [] [] id [] [] = id < 2 ^ 32
  Ready pay ((outside, s) ∷ visors) (hop ∷ hops) id (next ∷ ids) ((pk, rule) ∷ links) =
      (id < 2 ^ 32)
      × IsUsable s.rt now id rule
      × (outside.has_transport hop.transport ≡ true)
      × (outside.write_transport hop.transport next pay ≡ ok tt)
      × Ready pay visors hops next ids links
  Ready _ _ _ _ _ _ = ⊥

  Ready-fits :
      (pay : Bytes) (visors : Visors) (hops : Route) (id : RouteId) (ids : List RouteId)
      (links : List (PubKey × Rule))
      → Ready pay visors hops id ids links
      → id < 2 ^ 32
  Ready-fits pay [] [] id [] [] r = r
  Ready-fits pay (v ∷ visors) (hop ∷ hops) id (next ∷ ids) (l ∷ links) r = r.0
  Ready-fits pay _ _ id _ _ r = absurd r

  same_rule : {a b : Rule} → ok a ≡ ok b → a ≡ b
  same_rule p = cc

  reads :
      (ka : ℤ) (next id : RouteId) (tid : TransportId) (rule : Rule)
      → new_forward_rule ka next tid id ≡ ok rule
      → length tid ≡ 16
      → IsDuration ka
      → next < 2 ^ 32
      → id < 2 ^ 32
      → ReadsForward rule ka next tid id
  reads ka next id tid rule made wide duration hnext hid =
      let (r, made', f) = new_forward_rule-ReadsForward ka next tid id wide duration hnext hid in
      subst (λ k. ReadsForward k ka next tid id) (same_rule (sym made' ∙ made)) f

  same_key : (tid : TransportId) → (tid == tid) ≡ true
  same_key tid = beq_refl tid

  -- The state of a visor that has forwarded the packet.
  abbrev passed : Outside → State → RouteId → TransportId → RouteId → Bytes → State
  passed outside s id tid next pay = record s {
    rt = touched s.rt id now;
    host = record (s.host) { forwarded = (tid, next, pay) ∷ s.host.forwarded };
  }

  carry_step :
      (ka : ℤ) (pay : Bytes) (outside : Outside) (s : State) (visors : Visors) (hop : Hop)
      (hops : Route) (id next : RouteId) (rule : Rule)
      → length pay ≤ max_uint16
      → id < 2 ^ 32
      → IsUsable s.rt now id rule
      → ReadsForward rule ka next hop.transport id
      → outside.has_transport hop.transport ≡ true
      → outside.write_transport hop.transport next pay ≡ ok tt
      → carry ((outside, s) ∷ visors) (hop ∷ hops) id pay ≡ carry visors hops next pay
  unfolding carry
  carry_step ka pay outside s visors hop hops id next rule short fits u f there takes =
      let (p, made, done) =
        handle_packet_forwards unmarshal_pk outside own_key s now id rule pay hop.transport next
          fits short u f.kind f.tid_field f.next_rid there in
      bind_ok (λ k. _) made
        (bind_ok (λ k. _)
          (ap written_last done
            ∙ ap (λ o. written_last (passed outside s id hop.transport next pay, o)) takes)
          (bind_ok (λ k. _)
            (ap (λ b. if◌then◌else◌ {A = Outcome (Unit {0})} b (ok tt) (err unknown_transport))
              (same_key hop.transport))
            refl))

  -- A packet of at most 65535 bytes with the first ID of a chain of forward rules, which visors along
  -- the route have in use, is carried to the end of the route, with the last ID of the chain
  -- and the payload that it had.
  pub carry_along :
      (ka : ℤ) (pay : Bytes) (visors : Visors) (hops : Route) (id : RouteId) (ids : List RouteId)
      (links : List (PubKey × Rule))
      → IsDuration ka
      → length pay ≤ max_uint16
      → HasUuids hops
      → Chained ka hops id ids links
      → Ready pay visors hops id ids links
      → carry visors hops id pay ≡ ok (last_of id ids, pay)
  unfolding carry
  carry_along ka pay [] [] id [] [] d short u c r = refl
  carry_along ka pay ((outside, s) ∷ visors) (hop ∷ hops) id (next ∷ ids) ((pk, rule) ∷ links) d
        short u c r =
      carry_step ka pay outside s visors hop hops id next rule short r.0 r.1
        (reads ka next id hop.transport rule c.1 u.0 d
          (Ready-fits pay visors hops next ids links r.4) r.0)
        r.2 r.3
      ∙ carry_along ka pay visors hops next ids links d short u.1 c.2 r.4
  carry_along ka pay [] [] id [] (l ∷ links) d short u c r = absurd c
  carry_along ka pay [] [] id (next ∷ ids) links d short u c r = absurd c
  carry_along ka pay [] (hop ∷ hops) id ids links d short u c r = absurd r
  carry_along ka pay (v ∷ visors) [] id ids links d short u c r = absurd r
  carry_along ka pay (v ∷ visors) (hop ∷ hops) id [] links d short u c r = absurd c
  carry_along ka pay (v ∷ visors) (hop ∷ hops) id (next ∷ ids) [] d short u c r = absurd c
