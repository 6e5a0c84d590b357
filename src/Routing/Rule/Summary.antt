-- ===== src/Routing/Rule/Summary.antt =====
-- rule.go: RuleSummary.ToRule against Rule.Summary.
use skywire_mainnet_old.Base.{
  ℕ, ◌≡◌, ◌≢◌, Bytes, ok, panic, bind_ok, Option, none, some, length, ◌>>=◌, ◌<◌, ◌^◌, ℤ, pos,
  arith,
}
use skywire_mainnet_old.Routing.Addr.{PubKey, RouteId}
use skywire_mainnet_old.Routing.Rule.{
  Rule, RuleSummary, RuleAppFields, RuleForwardFields, rule_app, rule_forward, to_rule, summary,
  keep_alive, rule_type, request_route_id, route_id, transport_id,
}
use skywire_mainnet_old.Routing.Rule.Fields.{IsU16, IsU32}
use skywire_mainnet_old.Routing.Rule.ReadBack.{
  ReadsApp, ReadsForward, new_app_rule-ReadsApp, new_forward_rule-ReadsForward,
}

-- An app summary whose numbers fit their fields and whose key parses.
pub record IsAppSummary (unmarshal_pk : Bytes → Option PubKey) (ka : ℕ) (req : RouteId)
    (f : RuleAppFields) : Type 0 where
  pub alive : ka < 2 ^ 63
  pub req_fits : IsU32 req
  pub resp_fits : IsU32 f.resp_rid
  pub lport_fits : IsU16 f.local_port
  pub rport_fits : IsU16 f.remote_port
  pub key_wide : length f.remote_pk ≡ 33
  pub key_parses : unmarshal_pk f.remote_pk ≡ some f.remote_pk

pub record IsForwardSummary (ka : ℕ) (req : RouteId) (f : RuleForwardFields) : Type 0 where
  pub alive : ka < 2 ^ 63
  pub req_fits : IsU32 req
  pub next_fits : IsU32 f.next_rid
  pub tid_wide : length f.next_tid ≡ 16

abbrev pub app_summary : ℕ → RouteId → RuleAppFields → RuleSummary
app_summary ka req f = record {
  keep_alive = pos ka;
  type = rule_app;
  app_fields = some f;
  forward_fields = none;
  request_route_id = req;
}

abbrev pub forward_summary : ℕ → RouteId → RuleForwardFields → RuleSummary
forward_summary ka req f = record {
  keep_alive = pos ka;
  type = rule_forward;
  app_fields = none;
  forward_fields = some f;
  request_route_id = req;
}

module _ (unmarshal_pk : Bytes → Option PubKey) where
  summary-ReadsApp :
      (r : Rule) (ka : ℕ) (req : RouteId) (f : RuleAppFields)
      → ReadsApp unmarshal_pk r (pos ka) req f.resp_rid f.remote_pk f.local_port f.remote_port
      → summary unmarshal_pk r ≡ ok (app_summary ka req f)
  unfolding summary
  summary-ReadsApp r ka req f h =
      rw (h.alive, h.kind, h.req_rid, h.resp_rid, h.key, h.rport_field, h.lport_field)

  -- ToRule makes a rule from every app summary whose numbers fit and whose key parses, and Summary
  -- of that rule is the summary again.
  pub to_rule-summary_app :
      (ka : ℕ) (req : RouteId) (f : RuleAppFields)
      → IsAppSummary unmarshal_pk ka req f
      → (to_rule (app_summary ka req f) >>= summary unmarshal_pk) ≡ ok (app_summary ka req f)
  unfolding to_rule
  to_rule-summary_app ka req f h =
      let (r, made, reads) =
        new_app_rule-ReadsApp unmarshal_pk (pos ka) req f.resp_rid f.remote_pk f.local_port
          f.remote_port h.key_wide h.key_parses h.alive h.req_fits h.resp_fits h.lport_fits
          h.rport_fits in
      bind_ok (summary unmarshal_pk) made (summary-ReadsApp r ka req f reads)

  summary-ReadsForward :
      (r : Rule) (ka : ℕ) (req : RouteId) (f : RuleForwardFields)
      → ReadsForward r (pos ka) f.next_rid f.next_tid req
      → summary unmarshal_pk r ≡ ok (forward_summary ka req f)
  unfolding summary
  summary-ReadsForward r ka req f h = rw (h.alive, h.kind, h.req_rid, h.next_rid, h.tid_field)

  -- ToRule makes a rule from every forward summary whose numbers fit and whose transport ID has 16
  -- bytes, and Summary of that rule is the summary again.
  pub to_rule-summary_forward :
      (ka : ℕ) (req : RouteId) (f : RuleForwardFields)
      → IsForwardSummary ka req f
      → (to_rule (forward_summary ka req f) >>= summary unmarshal_pk)
        ≡ ok (forward_summary ka req f)
  unfolding to_rule
  to_rule-summary_forward ka req f h =
      let (r, made, reads) =
        new_forward_rule-ReadsForward (pos ka) f.next_rid f.next_tid req h.tid_wide h.alive
          h.next_fits h.req_fits in
      bind_ok (summary unmarshal_pk) made (summary-ReadsForward r ka req f reads)

  -- Summary never returns for a rule whose type byte is neither App nor Forward: where the earlier
  -- reads succeed, it panics in TransportID.
  pub summary_unknown_type :
      (r : Rule) (ka : ℤ) (t : ℕ) (req next : RouteId)
      → keep_alive r ≡ ok ka
      → rule_type r ≡ ok t
      → request_route_id r ≡ ok req
      → route_id r ≡ ok next
      → t ≢ rule_app
      → t ≢ rule_forward
      → summary unmarshal_pk r ≡ panic
  unfolding summary transport_id
  summary_unknown_type r ka t req next ha ht hq hn napp nfwd = rw (ha, ht, hq, hn) (ground arith)
