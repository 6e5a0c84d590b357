-- ===== src/Router/Managed/Window.antt =====
-- managed_routing_table.go: when Rule answers, and when it reports a timeout.
use skywire_mainnet_old.Base.{
  ℕ, ◌+◌, ◌≤◌, ◌<◌, ◌≡◌, refl, ap, leb, if◌then◌else◌, true, false, List, some, lookup, insert,
  lookup-insert_self, ok, err, panic, rule_timed_out, nat_eq, arith, pos, length, read_be, slice,
  nat_beq_iff, ◌∙◌, [], ◌∷◌,
}
use skywire_mainnet_old.Routing.Addr.{RouteId}
use skywire_mainnet_old.Routing.Rule.{Rule, keep_alive}
use skywire_mainnet_old.Routing.Table
use skywire_mainnet_old.Routing.Table.{Table}
use skywire_mainnet_old.Routing.Table.Laws.{next, add_rule-find_rule}
use skywire_mainnet_old.Router.Managed.{
  Time, ManagedTable, find_rule, add_rule, rule_is_timed_out, touch, record_add,
}

-- A rule that was last used at `last` and is kept alive for `k`.
pub record IsActive (rt : ManagedTable) (id : RouteId) (rule : Rule) (last : Time) (k : ℕ)
    : Type 0 where
  pub stored : Table.find_rule id rt.table ≡ ok rule
  pub used : lookup id rt.activity ≡ some last
  pub kept : keep_alive rule ≡ ok (pos k)

-- The table after a use of the rule at `now`.
abbrev pub touched : ManagedTable → RouteId → Time → ManagedTable
touched rt id now = record rt { activity = insert id now rt.activity }

module _ (rt : ManagedTable) (id : RouteId) (rule : Rule) (last k : Time) (now : Time)
    (h : IsActive rt id rule last k) (past : last ≤ now) where
  timed_out-late : last + k < now → rule_is_timed_out now id rule rt ≡ ok true
  unfolding rule_is_timed_out
  timed_out-late late = rw (h.used, rule_is_timed_out) (rw h.kept (ground arith))

  timed_out-in_time : now ≤ last + k → rule_is_timed_out now id rule rt ≡ ok false
  unfolding rule_is_timed_out
  timed_out-in_time early = rw (h.used, rule_is_timed_out) (rw h.kept (ground arith))

  pub find_rule-in_time : now ≤ last + k → find_rule now id rt ≡ (touched rt id now, ok rule)
  unfolding find_rule touch
  find_rule-in_time early = rw (h.stored, find_rule) (rw (timed_out-in_time early))

  find_rule-late : last + k < now → find_rule now id rt ≡ (rt, err rule_timed_out)
  unfolding find_rule touch
  find_rule-late late = rw (h.stored, find_rule) (rw (timed_out-late late))

  touched-IsActive : IsActive (touched rt id now) id rule now k
  touched-IsActive = record {
    stored = h.stored;
    used = lookup-insert_self id now rt.activity;
    kept = h.kept;
  }

  -- Rule finds a rule up to `k` after its last use and moves that use to now; later it reports the
  -- timeout and changes nothing.
  pub find_rule_window :
      find_rule now id rt
      ≡ (if leb now (last + k) then (touched rt id now, ok rule) else (rt, err rule_timed_out))
  find_rule_window = ground (arith, find_rule-in_time, find_rule-late)

-- Calls of Rule for one ID at the given times.
abbrev pub lookups : List Time → RouteId → ManagedTable → ManagedTable
lookups [] id rt = rt
lookups (now ∷ later) id rt = lookups later id (find_rule now id rt).0

-- Each time is at most `k` after the one before it.
abbrev pub KeepsUp : ℕ → Time → List Time → Type 0
KeepsUp k last [] = Unit
KeepsUp k last (now ∷ later) = (last ≤ now) × (now ≤ last + k) × KeepsUp k now later

abbrev pub last_of : Time → List Time → Time
last_of last [] = last
last_of last (now ∷ later) = last_of now later

lookups-IsActive :
    (times : List Time) (rt : ManagedTable) (id : RouteId) (rule : Rule) (last k : Time)
    → IsActive rt id rule last k
    → KeepsUp k last times
    → IsActive (lookups times id rt) id rule (last_of last times) k
lookups-IsActive [] rt id rule last k h u = h
lookups-IsActive (now ∷ times) rt id rule last k h (past, early, u) =
    let found = find_rule-in_time rt id rule last k now h past early in
    lookups-IsActive times (find_rule now id rt).0 id rule now k
      (rw found (touched-IsActive rt id rule last k now h past)) u

add_rule-IsActive :
    (now : Time) (rule : Rule) (rt : ManagedTable) (k : ℕ)
    → keep_alive rule ≡ ok (pos k)
    → IsActive (add_rule now rule rt).0 (next rt.table) rule now k
unfolding add_rule record_add Table.add_rule
add_rule-IsActive now rule rt k kept = record {
  stored =
      (add_rule-find_rule rule rt.table (next rt.table)).1
      ∙ rw ((nat_beq_iff (next rt.table) (next rt.table)).1 refl);
  used = lookup-insert_self (next rt.table) now rt.activity;
  kept = kept;
}

-- A rule that AddRule stored, and that is looked up at gaps of at most its keep-alive time, is found
-- each time and once more within that time, however long ago it was added.
pub add_rule_kept_alive :
    (now : Time) (rule : Rule) (rt : ManagedTable) (k : ℕ) (times : List Time) (at : Time)
    → keep_alive rule ≡ ok (pos k)
    → KeepsUp k now times
    → last_of now times ≤ at
    → at ≤ last_of now times + k
    → (id : RouteId) × ((add_rule now rule rt).1 ≡ ok id)
      × ((find_rule at id (lookups times id (add_rule now rule rt).0)).1 ≡ ok rule)
add_rule_kept_alive now rule rt k times at kept u past early = (
  next rt.table,
  unfold add_rule record_add Table.add_rule in refl,
  ap (λ p. p.1)
      (find_rule-in_time _ (next rt.table) rule (last_of now times) k at
        (lookups-IsActive times _ (next rt.table) rule now k (add_rule-IsActive now rule rt k kept)
          u)
        past early),
)

keep_alive_short : (rule : Rule) → length rule < 8 → keep_alive rule ≡ panic
unfolding keep_alive read_be slice
keep_alive_short rule short = ground arith

timed_out_short :
    (rt : ManagedTable) (id : RouteId) (rule : Rule) (last now : Time)
    → lookup id rt.activity ≡ some last
    → length rule < 8
    → rule_is_timed_out now id rule rt ≡ panic
unfolding rule_is_timed_out
timed_out_short rt id rule last now used short =
    rw (used, rule_is_timed_out) (rw (keep_alive_short rule short))

-- Rule on a rule of fewer than eight bytes whose ID has an activity record panics in KeepAlive.
pub find_rule_short_panics :
    (rt : ManagedTable) (id : RouteId) (rule : Rule) (last now : Time)
    → Table.find_rule id rt.table ≡ ok rule
    → lookup id rt.activity ≡ some last
    → length rule < 8
    → find_rule now id rt ≡ (rt, panic)
unfolding find_rule touch
find_rule_short_panics rt id rule last now stored used short =
    rw (stored, find_rule) (rw (timed_out_short rt id rule last now used short))
