-- ===== src/Setup/Json.antt =====
-- What the setup protocol uses of encoding/json, which is Go's library: an encoder and a decoder for
-- each body. `none` is a decoding error.
use skywire_mainnet_old.Base.{ℕ, ◌<◌, ◌≤◌, ◌≡◌, List, Option, some, Bytes, length, Error}
use skywire_mainnet_old.Routing.Addr.{RouteId, LoopData, LoopDescriptor}
use skywire_mainnet_old.Routing.Rule.{Rule}

pub record Json : Type 0 where
  pub marshal_count : ℕ → Bytes
  pub unmarshal_count : Bytes → Option ℕ
  pub marshal_ids : List RouteId → Bytes
  pub unmarshal_ids : Bytes → Option (List RouteId)
  pub marshal_rules : List Rule → Bytes
  pub unmarshal_rules : Bytes → Option (List Rule)
  pub marshal_loop_data : LoopData → Bytes
  pub unmarshal_loop_data : Bytes → Option LoopData
  pub marshal_descriptor : LoopDescriptor → Bytes
  pub unmarshal_descriptor : Bytes → Option LoopDescriptor
  pub marshal_null : Bytes
  pub marshal_message : Error → Bytes

-- Decoding what was encoded gives the value back, and no encoding is empty.
pub record IsFaithful (json : Json) : Type 0 where
  pub count_back : (n : ℕ) → n < 256 → json.unmarshal_count (json.marshal_count n) ≡ some n
  pub ids_back : (ids : List RouteId) → json.unmarshal_ids (json.marshal_ids ids) ≡ some ids
  pub rules_back :
      (rules : List Rule) → json.unmarshal_rules (json.marshal_rules rules) ≡ some rules
  pub count_nonempty : (n : ℕ) → 1 ≤ length (json.marshal_count n)
  pub ids_nonempty : (ids : List RouteId) → 1 ≤ length (json.marshal_ids ids)
  pub rules_nonempty : (rules : List Rule) → 1 ≤ length (json.marshal_rules rules)
