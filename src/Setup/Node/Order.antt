-- ===== src/Setup/Node/Order.antt =====
-- node.go: what handleCreateLoop writes to the visors, and in which order.
use skywire_mainnet_old.Base.{
  Bool, Error, List, Outcome, Outcome-cases, [], ap, err, inl, inr, list_eq, nat_eq, ok, panic,
  refl, rules_failed, sym, ◌∙◌, ◌∷◌, ◌≡◌,
}
use mathlib.Core.List.{Perm}
use mathlib.Core.Path.{subst}
use skywire_mainnet_old.Base.Step.{after, after-eq-ok, ◌>>◌, Step, renamed}
use skywire_mainnet_old.Routing.Addr.{PubKey, LoopDescriptor, LoopData}
use skywire_mainnet_old.Routing.Rule.{Rule}
use skywire_mainnet_old.Setup.Rules.{IdReservoir, RulesMap, Generated, generate_rules}
use skywire_mainnet_old.Setup.Json.{Json}
use skywire_mainnet_old.Setup.Protocol.{Conn, add_rules, confirm_loop}
use skywire_mainnet_old.Setup.Node.{
  Log, logged_call, dial_and_create_proto, with_visor, send_rules, confirm_with, reserve_route_ids,
  handle_create_loop,
}

module _ (json : Json) (dial : PubKey → Outcome Conn) (expired : Bool) where
  -- The call has succeeded on a connection to the visor, and what it has written is the log's next entry.
  abbrev pub Told : PubKey → (Conn → Outcome (Conn × Unit {0})) → Log → Log → Type 0
  Told pk call before log =
      (c : Conn) × (c' : Conn) × (dial_and_create_proto json dial expired pk ≡ ok c)
      × (call c ≡ ok (c', tt))
      × (log ≡ (pk, c'.output) ∷ before)

  -- Each visor has been sent its rules.
  abbrev pub RulesTold : RulesMap → Log → Log → Type 0
  RulesTold [] before log = log ≡ before
  RulesTold ((pk, rules) ∷ rest) before log =
      (between : Log) × Told pk (add_rules json expired rules) before between
      × RulesTold rest between log

  logged_call-Told :
      (pk : PubKey) (call : Conn → Outcome (Conn × Unit {0})) (c : Conn)
      (r : Outcome (Conn × Unit {0})) (log log' : Log) (a : Unit {0})
      → dial_and_create_proto json dial expired pk ≡ ok c
      → call c ≡ r
      → logged_call pk r log ≡ (log', ok a)
      → Told pk call log log'
  logged_call-Told pk call c (ok (c', tt)) log log' a dialled called e =
      (c, c', dialled, called, sym (ap (λ p. p.0) e))
  logged_call-Told pk call c (err x) log log' a dialled called e = cc
  logged_call-Told pk call c panic log log' a dialled called e = cc

  with_visor-Told :
      (pk : PubKey) (call : Conn → Outcome (Conn × Unit {0})) (log log' : Log) (a : Unit {0})
      → with_visor json dial expired pk call log ≡ (log', ok a)
      → Told pk call log log'
  unfolding with_visor
  with_visor-Told pk call log log' a e =
      let (log1, c, dialled, called) = after-eq-ok _ (λ c. logged_call pk (call c)) e in
      subst (λ l. Told pk call l log') (sym (ap (λ p. p.0) dialled))
        (logged_call-Told pk call c (call c) log1 log' a (ap (λ p. p.1) dialled) refl called)

  abbrev asked : PubKey → List Rule → Step Log (Unit {0})
  asked pk rs = with_visor json dial expired pk (add_rules json expired rs)

  -- The error of one visor stays until the end.
  failed_stays :
      (rules : RulesMap) (log log' : Log) (x : Error)
      → send_rules json dial expired rules (err x) log ≡ (log', ok tt)
      → ⊥
  unfolding send_rules
  failed_stays [] log log' x e = cc
  failed_stays ((pk, rs) ∷ rest) log log' x e = elim (Outcome-cases (asked pk rs log).1) [
    | inl (u, q) ↦ failed_stays rest _ log' x (rw (q, send_rules) at e)
    | inr (inl (y, q)) ↦ failed_stays rest _ log' rules_failed (rw (q, send_rules) at e)
    | inr (inr q) ↦
        let stopped : ((asked pk rs log).0, panic) ≡ (log', ok tt) = rw (q, send_rules) at e in
        cc stopped
  ]

  send_rules-RulesTold :
      (rules : RulesMap) (log log' : Log)
      → send_rules json dial expired rules (ok tt) log ≡ (log', ok tt)
      → RulesTold rules log log'
  unfolding send_rules
  send_rules-RulesTold [] log log' e = sym (ap (λ p. p.0) e)
  send_rules-RulesTold ((pk, rs) ∷ rest) log log' e = elim (Outcome-cases (asked pk rs log).1) [
    | inl (u, q) ↦ (
      (asked pk rs log).0,
      with_visor-Told pk (add_rules json expired rs) log (asked pk rs log).0 u
          (ap (λ r. ((asked pk rs log).0, r)) q),
      send_rules-RulesTold rest (asked pk rs log).0 log' (rw (q, send_rules) at e),
    )
    | inr (inl (y, q)) ↦
        absurd (failed_stays rest (asked pk rs log).0 log' rules_failed (rw (q, send_rules) at e))
    | inr (inr q) ↦
        let stopped : ((asked pk rs log).0, panic) ≡ (log', ok tt) = rw (q, send_rules) at e in
        cc stopped
  ]

  unwrapped :
      {A : Type 0} (r : Outcome A) (x : Error) (log log' : Log) (a : A)
      → ◌≡◌ {A = Log × Outcome A} (log, renamed x r) (log', ok a)
      → ◌≡◌ {A = Log × Outcome A} (log, r) (log', ok a)
  unwrapped (ok b) x log log' a e = e
  unwrapped (err y) x log log' a e = cc
  unwrapped panic x log log' a e = cc

  confirm_with-Told :
      (pk : PubKey) (ld : LoopData) (log log' : Log)
      → confirm_with json dial expired pk ld log ≡ (log', ok tt)
      → Told pk (confirm_loop json expired ld) log log'
  unfolding confirm_with
  confirm_with-Told pk ld log log' e =
      with_visor-Told pk (confirm_loop json expired ld) log log' tt (unwrapped _ _ _ log' tt e)

  -- The rules, then the responder, then the initiator.
  abbrev pub LoopTold : RulesMap → LoopDescriptor → Generated → Log → Log → Type 0
  LoopTold sent ld g log log' =
      (log1 : Log) × (log2 : Log) × RulesTold sent log log1
      × Told ld.loop.remote.pub_key
          (confirm_loop json expired (record {
            loop = record { local = ld.loop.remote; remote = ld.loop.local };
            route_id = g.dst_fwd_id;
          }))
          log1 log2
      × Told ld.loop.local.pub_key
          (confirm_loop json expired (record {
            loop = record { local = ld.loop.local; remote = ld.loop.remote };
            route_id = g.src_fwd_id;
          }))
          log2 log'

  in_turn :
      (rules : RulesMap) (dst src : PubKey) (to_dst to_src : LoopData) (log log' : Log)
      → after (send_rules json dial expired rules (ok tt) log) (λ u.
        confirm_with json dial expired dst to_dst >> confirm_with json dial expired src to_src)
        ≡ (log', ok tt)
      → (log1 : Log) × (log2 : Log) × RulesTold rules log log1
        × Told dst (confirm_loop json expired to_dst) log1 log2
        × Told src (confirm_loop json expired to_src) log2 log'
  in_turn rules dst src to_dst to_src log log' e =
      let (log1, u, sent, e1) =
        after-eq-ok (send_rules json dial expired rules (ok tt) log)
          (λ u.
            confirm_with json dial expired dst to_dst >> confirm_with json dial expired src to_src)
          e in
      let (log2, v, told, e2) =
        after-eq-ok (confirm_with json dial expired dst to_dst log1)
          (λ v. confirm_with json dial expired src to_src) e1 in
      (
        log1,
        log2,
        send_rules-RulesTold rules log log1 sent,
        confirm_with-Told dst to_dst log1 log2 told,
        confirm_with-Told src to_src log2 log' e2,
      )

  -- When handleCreateLoop succeeds, the IDs were reserved and the rules generated. Then each visor of the
  -- rules has been sent its rules, in the order in which the goroutines ended, and AddRules has succeeded
  -- for all of them; after that the responder has been told to confirm the loop, with its own address as
  -- the local one and its forward route ID; and last the initiator, with its address and its ID. Nothing
  -- else was written. The order is an order of the rules' visors.
  pub handle_create_loop_order :
      (order : RulesMap → RulesMap) (ld : LoopDescriptor) (log log' : Log)
      → ((rules : RulesMap) → Perm (order rules) rules)
      → handle_create_loop json dial expired order ld log ≡ (log', ok tt)
      → (idr : IdReservoir) × (g : Generated) × (sent : RulesMap) × (reserve_route_ids json dial
            expired ld.forward ld.reverse
          ≡ ok idr)
        × (generate_rules idr ld ≡ ok g)
        × Perm sent g.rules
        × LoopTold sent ld g log log'
  unfolding handle_create_loop
  handle_create_loop_order order ld log log' shuffles e =
      let (log1, idr, reserved, e1) = after-eq-ok _ _ e in
      let (log2, g, generated, e2) = after-eq-ok _ _ e1 in
      let same : log2 ≡ log = sym (ap (λ p. p.0) generated) ∙ sym (ap (λ p. p.0) reserved) in
      (
        idr,
        g,
        order g.rules,
        ap (λ p. p.1) reserved,
        ap (λ p. p.1) generated,
        shuffles g.rules,
        subst (λ l. LoopTold (order g.rules) ld g l log') same
            (in_turn (order g.rules) _ _ _ _ log2 log' e2),
      )
