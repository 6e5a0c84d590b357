-- ===== src/Routing/Rule.antt =====
-- pkg/routing/rule.go: a routing rule is a byte slice that is read and written in place.
pub mod Layout
pub mod Fields
pub mod ReadBack
pub mod Summary
use skywire_mainnet_old.Base.{
  ℕ, ◌+◌, Bool, true, false, ◌&&◌, not, Option, none, some, List, [], ◌∷◌, ◌++◌, Bytes, replicate,
  Outcome, ok, err, panic, ◌>>=◌, ◌>>◌, invalid_summary, byte_at, slice, read_be, put_be, ℤ,
  to_int64, clamp_uint64, nat_beq, if◌then◌else◌,
}
use skywire_mainnet_old.Routing.Addr.{PubKey, TransportId, RouteId, Port}

abbrev pub Rule : Type 0
Rule = Bytes

abbrev pub rule_header_size : ℕ
rule_header_size = 13

-- RuleApp and RuleForward
abbrev pub rule_app : ℕ
rule_app = 0

abbrev pub rule_forward : ℕ
rule_forward = 1

unfoldable pub keep_alive : Rule → Outcome ℤ
keep_alive r = do v ← read_be 0 8 r; ok (to_int64 v)

unfoldable pub rule_type : Rule → Outcome ℕ
rule_type r = byte_at 8 r

unfoldable pub route_id : Rule → Outcome RouteId
route_id r = read_be 9 4 r

unfoldable pub set_route_id : RouteId → Rule → Outcome Rule
set_route_id id r = put_be 9 4 id r

-- `if r.Type() != t { panic("invalid rule") }`
unfoldable pub require_type : ℕ → Rule → Outcome (Unit {0})
unfolding rule_type
require_type t r = do u ← rule_type r; if nat_beq u t then ok tt else panic

unfoldable pub transport_id : Rule → Outcome TransportId
unfolding require_type
transport_id r = do require_type rule_forward r; slice 13 16 r

-- What is left of `pk := cipher.PubKey{}` after `pk.UnmarshalBinary(…)`, whose error is only logged.
abbrev pub or_zero_key : Option PubKey → PubKey
or_zero_key none = replicate 33 0
or_zero_key (some pk) = pk

-- `unmarshal_pk` is cipher.PubKey.UnmarshalBinary.
module _ (unmarshal_pk : Bytes → Option PubKey) where
  unfoldable pub remote_pk : Rule → Outcome PubKey
  unfolding require_type
  remote_pk r = do require_type rule_app r; b ← slice 13 33 r; ok (or_zero_key (unmarshal_pk b))

unfoldable pub remote_port : Rule → Outcome Port
unfolding require_type
remote_port r = do require_type rule_app r; read_be 46 2 r

unfoldable pub local_port : Rule → Outcome Port
unfolding require_type
local_port r = do require_type rule_app r; read_be 48 2 r

unfoldable pub request_route_id : Rule → Outcome RouteId
request_route_id r = read_be 50 4 r

unfoldable pub set_request_route_id : RouteId → Rule → Outcome Rule
set_request_route_id id r = put_be 50 4 id r

unfoldable pub new_app_rule : ℤ → RouteId → RouteId → PubKey → Port → Port → Outcome Rule
new_app_rule keep_alive req_route resp_route remote_pk local_port remote_port = do
  rule ← put_be 0 8 (clamp_uint64 keep_alive) (replicate rule_header_size 0)
  rule ← put_be 8 1 rule_app rule
  rule ← put_be 9 4 resp_route rule
  let rule = rule ++ remote_pk
  let rule = rule ++ replicate 8 0
  rule ← put_be 46 2 remote_port rule
  rule ← put_be 48 2 local_port rule
  put_be 50 4 req_route rule

unfoldable pub new_forward_rule : ℤ → RouteId → TransportId → RouteId → Outcome Rule
new_forward_rule keep_alive next_route next_tr_id request_route_id = do
  rule ← put_be 0 8 (clamp_uint64 keep_alive) (replicate rule_header_size 0)
  rule ← put_be 8 1 rule_forward rule
  rule ← put_be 9 4 next_route rule
  let rule = rule ++ next_tr_id
  let rule = rule ++ replicate 25 0
  put_be 50 4 request_route_id rule

pub record RuleAppFields : Type 0 where
  pub resp_rid : RouteId
  pub remote_pk : PubKey
  pub remote_port : Port
  pub local_port : Port

pub record RuleForwardFields : Type 0 where
  pub next_rid : RouteId
  pub next_tid : TransportId

pub record RuleSummary : Type 0 where
  pub keep_alive : ℤ
  pub type : ℕ
  pub app_fields : Option RuleAppFields
  pub forward_fields : Option RuleForwardFields
  pub request_route_id : RouteId

abbrev pub to_rule_app : RuleSummary → RuleAppFields → Outcome Rule
to_rule_app s f =
    new_app_rule s.keep_alive s.request_route_id f.resp_rid f.remote_pk f.local_port f.remote_port

abbrev pub to_rule_forward : RuleSummary → RuleForwardFields → Outcome Rule
to_rule_forward s f = new_forward_rule s.keep_alive f.next_rid f.next_tid s.request_route_id

-- The `nil` tests are the patterns.
unfoldable pub to_rule_fields :
    RuleSummary → Option RuleAppFields → Option RuleForwardFields → Outcome Rule
to_rule_fields s (some f) none =
    if nat_beq s.type rule_app then to_rule_app s f else err invalid_summary
to_rule_fields s none (some f) =
    if nat_beq s.type rule_forward then to_rule_forward s f else err invalid_summary
to_rule_fields s _ _ = err invalid_summary

unfoldable pub to_rule : RuleSummary → Outcome Rule
unfolding to_rule_fields
to_rule s = to_rule_fields s s.app_fields s.forward_fields

module _ (unmarshal_pk : Bytes → Option PubKey) where
  unfoldable pub app_fields : Rule → Outcome RuleAppFields
  app_fields r = do
    resp ← route_id r
    pk ← remote_pk unmarshal_pk r
    rport ← remote_port r
    lport ← local_port r
    ok (record { resp_rid = resp; remote_pk = pk; remote_port = rport; local_port = lport })

  unfoldable pub forward_fields : Rule → Outcome RuleForwardFields
  forward_fields r = do
    next ← route_id r
    tid ← transport_id r
    ok (record { next_rid = next; next_tid = tid })

  unfoldable pub summary : Rule → Outcome RuleSummary
  unfolding app_fields forward_fields
  summary r = do
    alive ← keep_alive r
    t ← rule_type r
    req ← request_route_id r
    if nat_beq t rule_app
        then (do
          f ← app_fields r
          ok (record {
            keep_alive = alive;
            type = t;
            app_fields = some f;
            forward_fields = none;
            request_route_id = req;
          }))
        else (do
          f ← forward_fields r
          ok (record {
            keep_alive = alive;
            type = t;
            app_fields = none;
            forward_fields = some f;
            request_route_id = req;
          }))
