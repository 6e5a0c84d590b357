-- ===== src/Routing/Table/Laws.antt =====
-- routing_table.go: the table as a partial function from route IDs to rules.
use skywire_mainnet_old.Base.{
  ◌+◌, ◌%◌, ◌^◌, ◌≡◌, refl, lookup-insert, ok, nat_eq, nat_beq, if◌then◌else◌, arith,
}
use skywire_mainnet_old.Routing.Addr.{RouteId}
use skywire_mainnet_old.Routing.Rule.{Rule}
use skywire_mainnet_old.Routing.Table.{Table, add_rule, find_rule}

abbrev pub next : Table → RouteId
next t = (t.next_id + 1) % 2 ^ 32

-- AddRule never fails: it returns the next ID modulo 2^32, under which the table then has the rule,
-- and every other ID is looked up as before.
pub add_rule-find_rule :
    (rule : Rule) (t : Table) (id : RouteId)
    → ((add_rule rule t).1 ≡ ok (next t))
      × (find_rule id (add_rule rule t).0
          ≡ (if nat_beq (next t) id then ok rule else find_rule id t))
unfolding add_rule find_rule
add_rule-find_rule rule t id = (refl, rw lookup-insert (ground arith))
