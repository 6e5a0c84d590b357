-- ===== src/Routing/Rule/Fields.antt =====
-- The getters and setters of rule.go on what its two constructors write.
use skywire_mainnet_old.Base.{
  ℕ, ◌^◌, ◌<◌, ◌≡◌, refl, ap, List, [], ◌∷◌, ◌++◌, Bytes, replicate, ok, bind_ok, Option, some,
  length, be_bytes, length-be_bytes, flat, put_field, slice_field, read_field, byte_at, slice,
  nat_beq_iff, ℤ, pos, clamp_uint64, arith,
}
use native.Mathlib.Nat.{mod-eq_of_lt}
use skywire_mainnet_old.Routing.Addr.{PubKey, TransportId, RouteId, Port}
use skywire_mainnet_old.Routing.Rule.{
  Rule, rule_app, rule_forward, keep_alive, rule_type, route_id, set_route_id, set_request_route_id,
  transport_id, remote_pk, remote_port, local_port, request_route_id, require_type, or_zero_key,
}
use skywire_mainnet_old.Routing.Rule.Layout.{
  app_row, app_tail, forward_row, forward_tail, head_fields, row_lengths,
}

abbrev pub IsU16 : ℕ → Type 0
IsU16 n = n < 2 ^ 16

abbrev pub IsU32 : ℕ → Type 0
IsU32 n = n < 2 ^ 32

-- What a time.Duration can hold, from above.
abbrev pub IsDuration : ℤ → Type 0
IsDuration d = clamp_uint64 d < 2 ^ 63

module _ (ka t id : ℕ) (rest : List Bytes) where
  pub keep_alive-row : ka < 2 ^ 63 → keep_alive (flat (head_fields ka t id rest)) ≡ ok (pos ka)
  unfolding keep_alive
  keep_alive-row h =
      bind_ok _ (read_field [] (be_bytes 1 t ∷ be_bytes 4 id ∷ rest) 0 8 ka refl (omega arith))
        (ground arith)

  pub rule_type-row : t < 256 → rule_type (flat (head_fields ka t id rest)) ≡ ok t
  unfolding rule_type byte_at be_bytes
  rule_type-row h = ap ok (mod-eq_of_lt h)

  pub route_id-row : IsU32 id → route_id (flat (head_fields ka t id rest)) ≡ ok id
  unfolding route_id
  route_id-row h = read_field (be_bytes 8 ka ∷ be_bytes 1 t ∷ []) rest 9 4 id (simp row_lengths) h

  pub set_route_id-row :
      (new : RouteId)
      → set_route_id new (flat (head_fields ka t id rest)) ≡ ok (flat (head_fields ka t new rest))
  unfolding set_route_id
  set_route_id-row new =
      put_field (be_bytes 8 ka ∷ be_bytes 1 t ∷ []) (be_bytes 4 id) rest 9 4 new (simp row_lengths)
        (length-be_bytes 4 id)

  pub require_type-row : t < 256 → require_type t (flat (head_fields ka t id rest)) ≡ ok tt
  unfolding require_type
  require_type-row h = bind_ok _ (rule_type-row h) (rw ((nat_beq_iff t t).1 refl))

module _ (ka : ℕ) (req resp : RouteId) (pk : PubKey) (lport rport : Port)
    (wide : length pk ≡ 33) where
  abbrev row_head : List Bytes
  row_head = head_fields ka rule_app resp []

  abbrev row : Rule
  row = flat (app_row ka req resp pk lport rport)

  is_app : require_type rule_app row ≡ ok tt
  is_app = require_type-row ka rule_app resp (app_tail req pk lport rport) (omega arith)

  pub remote_pk-row :
      (unmarshal_pk : Bytes → Option PubKey)
      → unmarshal_pk pk ≡ some pk
      → remote_pk unmarshal_pk row ≡ ok pk
  unfolding remote_pk
  remote_pk-row unmarshal_pk known = bind_ok _ is_app (
      bind_ok (λ b. ok (or_zero_key (unmarshal_pk b)))
        (slice_field row_head pk (be_bytes 2 rport ∷ be_bytes 2 lport ∷ be_bytes 4 req ∷ []) 13 33
          (simp row_lengths) wide)
        (rw known))

  pub remote_port-row : IsU16 rport → remote_port row ≡ ok rport
  unfolding remote_port
  remote_port-row h = bind_ok _ is_app (
      read_field (row_head ++ pk ∷ []) (be_bytes 2 lport ∷ be_bytes 4 req ∷ []) 46 2 rport
        (simp (row_lengths, wide)) h)

  pub local_port-row : IsU16 lport → local_port row ≡ ok lport
  unfolding local_port
  local_port-row h = bind_ok _ is_app (
      read_field (row_head ++ pk ∷ be_bytes 2 rport ∷ []) (be_bytes 4 req ∷ []) 48 2 lport
        (simp (row_lengths, wide)) h)

  pub request_route_id-row : IsU32 req → request_route_id row ≡ ok req
  unfolding request_route_id
  request_route_id-row h =
      read_field (row_head ++ pk ∷ be_bytes 2 rport ∷ be_bytes 2 lport ∷ []) [] 50 4 req
        (simp (row_lengths, wide)) h

  pub set_request_route_id-row :
      (new : RouteId)
      → set_request_route_id new row ≡ ok (flat (app_row ka new resp pk lport rport))
  unfolding set_request_route_id
  set_request_route_id-row new =
      put_field (row_head ++ pk ∷ be_bytes 2 rport ∷ be_bytes 2 lport ∷ []) (be_bytes 4 req) [] 50 4
        new (simp (row_lengths, wide)) (length-be_bytes 4 req)

module _ (ka : ℕ) (next : RouteId) (tid : TransportId) (req : RouteId)
    (wide : length tid ≡ 16) where
  abbrev forward : Rule
  forward = flat (forward_row ka next tid req)

  pub transport_id-row : transport_id forward ≡ ok tid
  unfolding transport_id
  transport_id-row =
      bind_ok (λ _. slice 13 16 forward)
        (require_type-row ka rule_forward next (forward_tail tid req) (omega arith))
        (slice_field (head_fields ka rule_forward next []) tid
          (replicate 21 0 ∷ be_bytes 4 req ∷ []) 13 16 (simp row_lengths) wide)

  pub request_route_id-forward : IsU32 req → request_route_id forward ≡ ok req
  unfolding request_route_id
  request_route_id-forward h =
      read_field (head_fields ka rule_forward next (tid ∷ replicate 21 0 ∷ [])) [] 50 4 req
        (simp (row_lengths, wide)) h

  pub set_request_route_id-forward :
      (new : RouteId) → set_request_route_id new forward ≡ ok (flat (forward_row ka next tid new))
  unfolding set_request_route_id
  set_request_route_id-forward new =
      put_field (head_fields ka rule_forward next (tid ∷ replicate 21 0 ∷ [])) (be_bytes 4 req) []
        50 4 new (simp (row_lengths, wide)) (length-be_bytes 4 req)
