-- ===== src/Routing/Rule/ReadBack.antt =====
-- rule.go: the getters and setters of a rule against its two constructors.
use skywire_mainnet_old.Base.{
  ℕ, ◌≡◌, Bytes, ok, bind_ok, Option, some, length, ◌>>=◌, flat, ℤ, pos, clamp_uint64, arith,
}
use skywire_mainnet_old.Routing.Addr.{PubKey, TransportId, RouteId, Port}
use skywire_mainnet_old.Routing.Rule.{
  Rule, rule_app, rule_forward, new_app_rule, new_forward_rule, keep_alive, rule_type, route_id,
  set_route_id, set_request_route_id, transport_id, remote_pk, remote_port, local_port,
  request_route_id,
}
use skywire_mainnet_old.Routing.Rule.Layout.{
  app_row, app_tail, forward_row, forward_tail, new_app_rule-row, new_forward_rule-row,
}
use skywire_mainnet_old.Routing.Rule.Fields.{
  keep_alive-row, rule_type-row, route_id-row, set_route_id-row, remote_pk-row, remote_port-row,
  local_port-row, request_route_id-row, set_request_route_id-row, transport_id-row,
  request_route_id-forward, IsU16, IsU32, IsDuration,
}

-- What an app rule says when it is read back.
pub record ReadsApp (unmarshal_pk : Bytes → Option PubKey) (r : Rule) (d : ℤ) (req resp : RouteId)
    (pk : PubKey) (lport rport : Port) : Type 0 where
  pub alive : keep_alive r ≡ ok (pos (clamp_uint64 d))
  pub kind : rule_type r ≡ ok rule_app
  pub resp_rid : route_id r ≡ ok resp
  pub key : remote_pk unmarshal_pk r ≡ ok pk
  pub rport_field : remote_port r ≡ ok rport
  pub lport_field : local_port r ≡ ok lport
  pub req_rid : request_route_id r ≡ ok req

-- AppRule with a 33-byte key that parses, a duration, uint32 IDs and uint16 ports returns a rule,
-- and every getter of an app rule reads back the argument (a negative keep-alive reads as 0).
pub new_app_rule-ReadsApp :
    (unmarshal_pk : Bytes → Option PubKey) (d : ℤ) (req resp : RouteId) (pk : PubKey)
    (lport rport : Port)
    → length pk ≡ 33
    → unmarshal_pk pk ≡ some pk
    → IsDuration d
    → IsU32 req
    → IsU32 resp
    → IsU16 lport
    → IsU16 rport
    → (r : Rule) × (new_app_rule d req resp pk lport rport ≡ ok r)
      × ReadsApp unmarshal_pk r d req resp pk lport rport
new_app_rule-ReadsApp unmarshal_pk d req resp pk lport rport wide known hd hreq hresp hl hr = (
  flat (app_row ka req resp pk lport rport),
  new_app_rule-row d req resp pk lport rport wide,
  record {
    alive = keep_alive-row ka rule_app resp (app_tail req pk lport rport) hd;
    kind = rule_type-row ka rule_app resp (app_tail req pk lport rport) (omega arith);
    resp_rid = route_id-row ka rule_app resp (app_tail req pk lport rport) hresp;
    key = remote_pk-row ka req resp pk lport rport wide unmarshal_pk known;
    rport_field = remote_port-row ka req resp pk lport rport wide hr;
    lport_field = local_port-row ka req resp pk lport rport wide hl;
    req_rid = request_route_id-row ka req resp pk lport rport wide hreq;
  },
)
  where
    ka : ℕ
    ka = clamp_uint64 d

-- What a forward rule says when it is read back.
pub record ReadsForward (r : Rule) (d : ℤ) (next : RouteId) (tid : TransportId) (req : RouteId)
    : Type 0 where
  pub alive : keep_alive r ≡ ok (pos (clamp_uint64 d))
  pub kind : rule_type r ≡ ok rule_forward
  pub next_rid : route_id r ≡ ok next
  pub tid_field : transport_id r ≡ ok tid
  pub req_rid : request_route_id r ≡ ok req

-- ForwardRule with a 16-byte transport ID, a duration and uint32 IDs returns a rule, and every
-- getter of a forward rule reads back the argument (a negative keep-alive reads as 0).
pub new_forward_rule-ReadsForward :
    (d : ℤ) (next : RouteId) (tid : TransportId) (req : RouteId)
    → length tid ≡ 16
    → IsDuration d
    → IsU32 next
    → IsU32 req
    → (r : Rule) × (new_forward_rule d next tid req ≡ ok r) × ReadsForward r d next tid req
new_forward_rule-ReadsForward d next tid req wide hd hnext hreq = (
  flat (forward_row ka next tid req),
  new_forward_rule-row d next tid req wide,
  record {
    alive = keep_alive-row ka rule_forward next (forward_tail tid req) hd;
    kind = rule_type-row ka rule_forward next (forward_tail tid req) (omega arith);
    next_rid = route_id-row ka rule_forward next (forward_tail tid req) hnext;
    tid_field = transport_id-row ka next tid req wide;
    req_rid = request_route_id-forward ka next tid req wide hreq;
  },
)
  where
    ka : ℕ
    ka = clamp_uint64 d

-- SetRouteID and SetRequestRouteID on a new app rule for a 33-byte key give the rule that AppRule
-- makes from the new IDs: no other field changes.
pub new_app_rule-set_ids :
    (d : ℤ) (req resp req' resp' : RouteId) (pk : PubKey) (lport rport : Port)
    → length pk ≡ 33
    → (new_app_rule d req resp pk lport rport >>= set_route_id resp' >>= set_request_route_id req')
      ≡ new_app_rule d req' resp' pk lport rport
new_app_rule-set_ids d req resp req' resp' pk lport rport wide =
    rw
      (
        new_app_rule-row d req resp pk lport rport wide,
        new_app_rule-row d req' resp' pk lport rport wide,
      )
      (bind_ok (set_request_route_id req')
        (set_route_id-row ka rule_app resp (app_tail req pk lport rport) resp')
        (set_request_route_id-row ka req resp' pk lport rport wide req'))
  where
    ka : ℕ
    ka = clamp_uint64 d
