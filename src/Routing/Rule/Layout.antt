-- ===== src/Routing/Rule/Layout.antt =====
-- What the two constructors of rule.go write: a row of fields.
use skywire_mainnet_old.Base.{
  ℕ, ◌+◌, ◌≡◌, refl, ap, List, [], ◌∷◌, ◌++◌, Bytes, replicate, Outcome, ok, bind_ok, length,
  length-append, be_bytes, length-be_bytes, flat, flat-snoc, put_field, ℤ, clamp_uint64, arith,
  put_be,
}
use skywire_mainnet_old.Routing.Addr.{PubKey, TransportId, RouteId, Port}
use skywire_mainnet_old.Routing.Rule.{
  rule_app, rule_forward, new_app_rule, new_forward_rule, rule_header_size,
}

-- The first three fields: keep-alive, type, route ID.
abbrev pub head_fields : ℕ → ℕ → RouteId → List Bytes → List Bytes
head_fields ka t id rest = be_bytes 8 ka ∷ be_bytes 1 t ∷ be_bytes 4 id ∷ rest

abbrev pub app_tail : RouteId → PubKey → Port → Port → List Bytes
app_tail req pk lport rport = pk ∷ be_bytes 2 rport ∷ be_bytes 2 lport ∷ be_bytes 4 req ∷ []

abbrev pub app_row : ℕ → RouteId → RouteId → PubKey → Port → Port → List Bytes
app_row ka req resp pk lport rport = head_fields ka rule_app resp (app_tail req pk lport rport)

abbrev pub forward_tail : TransportId → RouteId → List Bytes
forward_tail tid req = tid ∷ replicate 21 0 ∷ be_bytes 4 req ∷ []

abbrev pub forward_row : ℕ → RouteId → TransportId → RouteId → List Bytes
forward_row ka next tid req = head_fields ka rule_forward next (forward_tail tid req)

pub ruleset row_lengths = (length-append, length-be_bytes)

module _ (ka t id : ℕ) where
  put_keep_alive :
      put_be 0 8 ka (replicate rule_header_size 0) ≡ ok (flat (be_bytes 8 ka ∷ replicate 5 0 ∷ []))
  put_keep_alive = put_field [] (replicate 8 0) (replicate 5 0 ∷ []) 0 8 ka refl refl

  put_type :
      put_be 8 1 t (flat (be_bytes 8 ka ∷ replicate 5 0 ∷ []))
      ≡ ok (flat (be_bytes 8 ka ∷ be_bytes 1 t ∷ replicate 4 0 ∷ []))
  put_type =
      put_field (be_bytes 8 ka ∷ []) (replicate 1 0) (replicate 4 0 ∷ []) 8 1 t (simp row_lengths)
        refl

  put_id :
      put_be 9 4 id (flat (be_bytes 8 ka ∷ be_bytes 1 t ∷ replicate 4 0 ∷ []))
      ≡ ok (flat (head_fields ka t id []))
  put_id =
      put_field (be_bytes 8 ka ∷ be_bytes 1 t ∷ []) (replicate 4 0) [] 9 4 id (simp row_lengths)
        refl

module _ (d : ℤ) (req resp : RouteId) (pk : PubKey) (lport rport : Port)
    (wide : length pk ≡ 33) where
  -- The row after the appends, its last eight bytes still to be written.
  app_head : List Bytes
  app_head = head_fields (clamp_uint64 d) rule_app resp (pk ∷ [])

  length-app_head : length (flat app_head) ≡ 46
  unfolding app_head
  length-app_head = simp (row_lengths, wide)

  pub new_app_rule-row :
      new_app_rule d req resp pk lport rport
      ≡ ok (flat (app_row (clamp_uint64 d) req resp pk lport rport))
  unfolding new_app_rule app_head
  new_app_rule-row = bind_ok _ (put_keep_alive ka rule_app resp) (
      bind_ok _ (put_type ka rule_app resp) (
        bind_ok _ (put_id ka rule_app resp) (
          rw (flat-snoc (head_fields ka rule_app resp []) pk, flat-snoc app_head (replicate 8 0))
            (bind_ok _
              (put_field app_head (replicate 2 0) (replicate 6 0 ∷ []) 46 2 rport length-app_head
                refl)
              (bind_ok _
                (put_field (app_head ++ be_bytes 2 rport ∷ []) (replicate 2 0) (replicate 4 0 ∷ [])
                  48 2 lport (simp (row_lengths, wide)) refl)
                (put_field (app_head ++ be_bytes 2 rport ∷ be_bytes 2 lport ∷ []) (replicate 4 0) []
                  50 4 req (simp (row_lengths, wide)) refl))))))
    where
      ka : ℕ
      ka = clamp_uint64 d

pub new_forward_rule-row :
    (d : ℤ) (next : RouteId) (tid : TransportId) (req : RouteId)
    → length tid ≡ 16
    → new_forward_rule d next tid req ≡ ok (flat (forward_row (clamp_uint64 d) next tid req))
unfolding new_forward_rule
new_forward_rule-row d next tid req wide = bind_ok _ (put_keep_alive ka rule_forward next) (
    bind_ok _ (put_type ka rule_forward next) (
      bind_ok _ (put_id ka rule_forward next) (
        rw
          (
            flat-snoc (head_fields ka rule_forward next []) tid,
            flat-snoc (head_fields ka rule_forward next (tid ∷ [])) (replicate 25 0),
          )
          (put_field (head_fields ka rule_forward next (tid ∷ replicate 21 0 ∷ [])) (replicate 4 0)
            [] 50 4 req (simp (row_lengths, wide)) refl))))
  where
    ka : ℕ
    ka = clamp_uint64 d
