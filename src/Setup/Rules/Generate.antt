-- ===== src/Setup/Rules/Generate.antt =====
-- idreservoir.go: what GenerateRules makes of a reservoir with enough IDs.
use skywire_mainnet_old.Base.{
  ℕ, ◌≡◌, refl, ◌∙◌, sym, ap, List, [], ◌∷◌, ◌++◌, lookup, length, length-append, suc, ok, bind_ok,
  nat_eq, list_eq, ℤ, arith, flat, clamp_uint64,
}
use mathlib.Core.List.{append_assoc, append-nil}
use skywire_mainnet_old.Routing.Addr.{PubKey, RouteId, Route, LoopDescriptor}
use skywire_mainnet_old.Routing.Rule.{Rule, new_app_rule}
use skywire_mainnet_old.Routing.Rule.Layout.{new_app_rule-row, app_row}
use skywire_mainnet_old.Setup.Rules.{IdReservoir, RulesMap, Generated, append_rule, generate_rules}
use skywire_mainnet_old.Setup.Rules.Trace.{
  left, rules_of, demand, ids_at, Chained, last_of, rules_at, HasUuids, ends,
}
use skywire_mainnet_old.Setup.Rules.Supply.{
  IsSupplied, visors, IsNonempty, RouteDone, added_step, save_forward_rules-RouteDone,
}
use skywire_mainnet_old.Setup.Rules.Counts.{all_visors, demand-append}

-- A loop descriptor whose keys and transports have their sizes, and whose routes have hops.
pub record IsDescriptor (ld : LoopDescriptor) : Type 0 where
  pub forward_hops : IsNonempty ld.forward
  pub reverse_hops : IsNonempty ld.reverse
  pub forward_ids : HasUuids ld.forward
  pub reverse_ids : HasUuids ld.reverse
  pub src_key : length ld.loop.local.pub_key ≡ 33
  pub dst_key : length ld.loop.remote.pub_key ≡ 33

-- What GenerateRules has made: the two chains, and an app rule at each end of the loop.
pub record RulesDone (ld : LoopDescriptor) (idc : IdReservoir) : Type 0 where
  pub generated : Generated
  pub returned : generate_rules idc ld ≡ ok generated
  pub fwd_ids : List RouteId
  pub fwd_links : List (PubKey × Rule)
  pub rev_ids : List RouteId
  pub rev_links : List (PubKey × Rule)
  pub src_rule : Rule
  pub dst_rule : Rule
  pub fwd_chain : Chained ld.keep_alive ld.forward generated.src_fwd_id fwd_ids fwd_links
  pub rev_chain : Chained ld.keep_alive ld.reverse generated.dst_fwd_id rev_ids rev_links
  pub src_app :
      new_app_rule ld.keep_alive
        (last_of generated.dst_fwd_id rev_ids)
        generated.src_fwd_id
        ld.loop.remote.pub_key
        ld.loop.local.port
        ld.loop.remote.port
      ≡ ok src_rule
  pub dst_app :
      new_app_rule ld.keep_alive
        (last_of generated.src_fwd_id fwd_ids)
        generated.dst_fwd_id
        ld.loop.local.pub_key
        ld.loop.remote.port
        ld.loop.local.port
      ≡ ok dst_rule
  pub rules_made :
      (pk : PubKey)
      → rules_of pk generated.rules
        ≡ rules_at pk fwd_links
          ++ (rules_at pk rev_links
              ++ rules_at pk
                  ((ld.loop.local.pub_key, src_rule) ∷ (ld.loop.remote.pub_key, dst_rule) ∷ []))
  pub ids_used :
      (pk : PubKey)
      → ids_at pk (visors ld.forward) (generated.src_fwd_id ∷ fwd_ids)
          ++ (ids_at pk (visors ld.reverse) (generated.dst_fwd_id ∷ rev_ids)
              ++ left pk generated.left_over)
        ≡ left pk idc

Chained-length :
    (ka : ℤ) (hops : Route) (id : RouteId) (ids : List RouteId) (links : List (PubKey × Rule))
    → Chained ka hops id ids links
    → length ids ≡ length (ends hops)
Chained-length ka [] id [] [] c = refl
Chained-length ka [] id [] (l ∷ ls) c = absurd c
Chained-length ka [] id (i ∷ ids) ls c = absurd c
Chained-length ka (hop ∷ hops) id [] ls c = absurd c
Chained-length ka (hop ∷ hops) id (i ∷ ids) [] c = absurd c
Chained-length ka (hop ∷ hops) id (i ∷ ids) ((pk, rule) ∷ ls) c =
    ap suc (Chained-length ka hops i ids ls c.2)

length-ids_at :
    (pk : PubKey) (qs : List PubKey) (ids : List RouteId)
    → length ids ≡ length qs
    → length (ids_at pk qs ids) ≡ demand pk qs
length-ids_at pk [] [] h = refl
length-ids_at pk [] (i ∷ ids) h = refl
length-ids_at pk (q ∷ qs) [] h = absurd (omega arith)
length-ids_at pk (q ∷ qs) (i ∷ ids) h = ground (arith, length-ids_at pk qs ids)

visors-length : (hops : Route) → IsNonempty hops → suc (length (ends hops)) ≡ length (visors hops)
visors-length [] n = absurd n
visors-length (hop ∷ hops) n = refl

-- How many IDs a route has taken from a visor.
module _ (ka : ℤ) (hops : Route) (first : RouteId) (ids : List RouteId)
    (links : List (PubKey × Rule)) where
  taken :
      IsNonempty hops
      → Chained ka hops first ids links
      → (pk : PubKey) → length (ids_at pk (visors hops) (first ∷ ids)) ≡ demand pk (visors hops)
  taken n c pk =
      length-ids_at pk (visors hops) (first ∷ ids)
        (ap suc (Chained-length ka hops first ids links c) ∙ visors-length hops n)

module _ (qs rs : List PubKey) (idc idc' : IdReservoir) where
  IsSupplied-left : IsSupplied (qs ++ (rs ++ [])) idc → IsSupplied qs idc
  IsSupplied-left h pk = omega (arith, h pk, demand-append pk qs (rs ++ []))

  -- What is left after `qs` were served is enough for `rs`.
  IsSupplied-right :
      (popped : PubKey → List RouteId)
      → ((pk : PubKey) → length (popped pk) ≡ demand pk qs)
      → ((pk : PubKey) → popped pk ++ left pk idc' ≡ left pk idc)
      → IsSupplied (qs ++ (rs ++ [])) idc
      → IsSupplied rs idc'
  IsSupplied-right popped len used h pk = omega (
    arith,
    h pk,
    len pk,
    ap length (used pk),
    length-append (popped pk) (left pk idc'),
    demand-append pk qs (rs ++ []),
    demand-append pk rs [],
  )

app_rules_added :
    (src dst pk : PubKey) (to_dst to_src : Rule) (rules : RulesMap) (a b : List Rule)
    → rules_of pk rules ≡ a ++ b
    → rules_of pk (append_rule dst to_src (append_rule src to_dst rules))
      ≡ a ++ (b ++ rules_at pk ((src, to_dst) ∷ (dst, to_src) ∷ []))
app_rules_added src dst pk to_dst to_src rules a b e =
    sym (append-nil (rules_of pk (append_rule dst to_src (append_rule src to_dst rules))))
    ∙ added_step dst pk to_src (append_rule src to_dst rules) []
    ∙ added_step src pk to_dst rules ((dst, to_src) ∷ [])
    ∙ ap (λ l. l ++ rules_at pk ((src, to_dst) ∷ (dst, to_src) ∷ [])) e
    ∙ append_assoc a b (rules_at pk ((src, to_dst) ∷ (dst, to_src) ∷ []))

empty_of_length : (xs : List RouteId) → length xs ≡ 0 → xs ≡ []
empty_of_length [] h = refl
empty_of_length (x ∷ xs) h = absurd (omega arith)

module _ (ld : LoopDescriptor) (idc : IdReservoir) (v : IsDescriptor ld) where
  both_rules :
      (f : RouteDone ld.keep_alive ld.forward [] idc)
      → RouteDone ld.keep_alive ld.reverse f.rules' f.idc'
      → RulesDone ld idc
  unfolding generate_rules lookup
  both_rules f r = record {
    generated = record {
      rules = append_rule dst to_src (append_rule src to_dst r.rules');
      src_fwd_id = f.first;
      dst_fwd_id = r.first;
      left_over = r.idc';
    };
    returned =
        bind_ok _ f.returned (bind_ok _ r.returned (bind_ok _ made_dst (bind_ok _ made_src refl)));
    fwd_ids = f.ids;
    fwd_links = f.links;
    rev_ids = r.ids;
    rev_links = r.links;
    src_rule = to_dst;
    dst_rule = to_src;
    fwd_chain = f.chained;
    rev_chain = r.chained;
    src_app = made_dst;
    dst_app = made_src;
    rules_made = λ pk.
        app_rules_added src dst pk to_dst to_src r.rules' (rules_at pk f.links)
          (rules_at pk r.links) (r.added pk ∙ ap (λ l. l ++ rules_at pk r.links) (f.added pk));
    ids_used =
        λ pk. ap (◌++◌ (ids_at pk (visors ld.forward) (f.first ∷ f.ids))) (r.used pk) ∙ f.used pk;
  }
    where
      src : PubKey
      src = ld.loop.local.pub_key

      dst : PubKey
      dst = ld.loop.remote.pub_key

      ka : ℕ
      ka = clamp_uint64 ld.keep_alive

      to_dst : Rule
      to_dst =
          flat
            (app_row ka (last_of r.first r.ids) f.first dst ld.loop.local.port ld.loop.remote.port)

      to_src : Rule
      to_src =
          flat
            (app_row ka (last_of f.first f.ids) r.first src ld.loop.remote.port ld.loop.local.port)

      made_dst :
          new_app_rule ld.keep_alive
            (last_of r.first r.ids)
            f.first
            dst
            ld.loop.local.port
            ld.loop.remote.port
          ≡ ok to_dst
      made_dst =
          new_app_rule-row ld.keep_alive _ _ dst ld.loop.local.port ld.loop.remote.port v.dst_key

      made_src :
          new_app_rule ld.keep_alive
            (last_of f.first f.ids)
            r.first
            src
            ld.loop.remote.port
            ld.loop.local.port
          ≡ ok to_src
      made_src =
          new_app_rule-row ld.keep_alive _ _ src ld.loop.remote.port ld.loop.local.port v.src_key

  pub all_rules : IsSupplied (all_visors (ld.forward ∷ ld.reverse ∷ [])) idc → RulesDone ld idc
  all_rules h = both_rules f r
    where
      f : RouteDone ld.keep_alive ld.forward [] idc
      f =
          save_forward_rules-RouteDone ld.keep_alive ld.forward [] idc v.forward_hops v.forward_ids
            (IsSupplied-left (visors ld.forward) (visors ld.reverse) idc idc h)

      r : RouteDone ld.keep_alive ld.reverse f.rules' f.idc'
      r =
          save_forward_rules-RouteDone ld.keep_alive ld.reverse f.rules' f.idc' v.reverse_hops
            v.reverse_ids
            (IsSupplied-right (visors ld.forward) (visors ld.reverse) idc f.idc'
              (λ pk. ids_at pk (visors ld.forward) (f.first ∷ f.ids))
              (taken ld.keep_alive ld.forward f.first f.ids f.links v.forward_hops f.chained) f.used
              h)

  pub nothing_left :
      (d : RulesDone ld idc) (pk : PubKey)
      → length (left pk idc) ≡ demand pk (all_visors (ld.forward ∷ ld.reverse ∷ []))
      → left pk d.generated.left_over ≡ []
  nothing_left d pk e = empty_of_length (left pk d.generated.left_over) (
      omega (
        arith,
        e,
        ap length (d.ids_used pk),
        length-append fwd (rev ++ left pk d.generated.left_over),
        length-append rev (left pk d.generated.left_over),
        taken ld.keep_alive ld.forward d.generated.src_fwd_id d.fwd_ids d.fwd_links v.forward_hops
            d.fwd_chain pk,
        taken ld.keep_alive ld.reverse d.generated.dst_fwd_id d.rev_ids d.rev_links v.reverse_hops
            d.rev_chain pk,
        demand-append pk (visors ld.forward) (visors ld.reverse ++ []),
        demand-append pk (visors ld.reverse) [],
      ))
    where
      fwd : List RouteId
      fwd = ids_at pk (visors ld.forward) (d.generated.src_fwd_id ∷ d.fwd_ids)

      rev : List RouteId
      rev = ids_at pk (visors ld.reverse) (d.generated.dst_fwd_id ∷ d.rev_ids)
