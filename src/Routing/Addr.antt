-- ===== src/Routing/Addr.antt =====
-- pkg/routing/addr.go, route.go and loop.go. A public key is its 33 bytes, a UUID its 16 bytes.
use skywire_mainnet_old.Base.{
  ℕ, ◌≡◌, ◌↔◌, Bool, true, ◌&&◌, List, [], ◌∷◌, Bytes, ℤ, Comparable, nat_eq, list_eq, list_beq_iff,
  ◌==◌, arith, Outcome, ok, panic,
}

abbrev pub PubKey : Type 0
PubKey = Bytes

abbrev pub TransportId : Type 0
TransportId = Bytes

abbrev pub RouteId : Type 0
RouteId = ℕ

abbrev pub Port : Type 0
Port = ℕ

pub record Addr : Type 0 where
  pub pub_key : PubKey
  pub port : Port

unfoldable pub addr_beq : Addr → Addr → Bool
addr_beq a b = a.pub_key == b.pub_key && a.port == b.port

pub addr_beq_iff : (a b : Addr) → (addr_beq a b ≡ true) ↔ (a ≡ b)
unfolding addr_beq
addr_beq_iff a b = (
  λ h. ground (arith, list_beq_iff a.pub_key b.pub_key),
  λ p. rw p (ground (arith, list_beq_iff b.pub_key b.pub_key)),
)

instance abbrev pub addr_eq : Comparable Addr
addr_eq = record { same = addr_beq; agrees = addr_beq_iff }

pub record Loop : Type 0 where
  pub local : Addr
  pub remote : Addr

pub record Hop : Type 0 where
  pub from : PubKey
  pub to : PubKey
  pub transport : TransportId

abbrev pub Route : Type 0
Route = List Hop

pub record LoopDescriptor : Type 0 where
  pub loop : Loop
  pub forward : Route
  pub reverse : Route
  pub keep_alive : ℤ

pub record LoopData : Type 0 where
  pub loop : Loop
  pub route_id : RouteId

route_start : Route → Outcome PubKey
route_start [] = panic
route_start (h ∷ hs) = ok h.from

unfoldable pub initiator : LoopDescriptor → Outcome PubKey
unfolding route_start
initiator l = route_start l.forward

unfoldable pub responder : LoopDescriptor → Outcome PubKey
unfolding route_start
responder l = route_start l.reverse
