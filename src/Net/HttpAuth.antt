-- ===== src/Net/HttpAuth.antt =====
-- internal/httpauth/client.go and the signing of auth.go. The HTTP client, encoding/json and the
-- signatures of cipher are parameters; `W` is the state of what is behind the HTTP client.
pub mod Nonces
use skywire_mainnet_old.Base.{
  >>=-eq-ok, All, AllBytes, Bool, Bool-cases, Bytes, Comparable, Distinct, Error, List, Map, Option,
  Option-cases, Outcome, Outcome-cases, [], accept_write_failed, ap, arith, bad_init, bad_signature,
  be_bytes, beq_refl, bind_ok, byte_at, callback_failed, clamp_uint64, closed_pipe, confirm_failed,
  conn_already_exists, contains, contains-append, copy_at, copy_at-end, corrupted_rule,
  deadline_exceeded, dial_failed, drop, drop-append_left, empty_packet, empty_response, eof, err,
  false, flat, flat-append, flat-snoc, from_be, from_be-be_bytes, from_be-inj, get_elem?, gtb,
  if◌then◌else◌, inl, inr, insert, insert-Distinct, invalid_pk_file, invalid_port,
  invalid_remote_signature, invalid_summary, io_failed, leb, leb→le, length, length-append,
  length-be_bytes, length-insert_new, length-remove_present, length-replicate, length-take, le→leb,
  list_beq, list_beq_iff, list_eq, lookup, lookup-insert, lookup-insert_ne, lookup-insert_self,
  lookup-remove, lookup-remove_all, lookup-remove_ne, lookup-remove_self, ltb, ltb→lt, lt→ltb,
  malformed_json, manager_closing, map, maximum_retries_reached, nat_beq, nat_beq_iff, nat_eq,
  negsuc, no_available_route_ids, no_reserved_id, no_route_found, no_routes, no_setup_node,
  nonce_failed, none, not, not_serving, ok, or_err, panic, port_already_bound, port_not_bound, pos,
  put_be, put_be-append, put_field, read_be, read_entry_failed, read_field, read_full,
  read_full-append, read_response_failed, redial_failed, refl, remove, remove-Distinct, remove_all,
  replicate, request_failed, reservation_failed, resp_failure, reverse_rule_not_forward,
  route_setup_failed, rule_not_found, rule_timed_out, rules_failed, settlement_failed,
  settlement_rejected, shortage, sign_failed, slice, slice-append, slice_field, some, sub_ℕ, suc,
  sym, take, take-append-drop, take-append_left, to_int64, transport_failed, transport_not_found,
  true, unexpected_app, unexpected_eof, unexpected_frame, unexpected_version,
  unknown_foundation_packet, unknown_loop, unknown_rule, unknown_transport, unknown_transport_type,
  unsupported_version, write_entry_failed, wrong_entry_edges, wrong_entry_id, wrong_entry_public,
  wrong_entry_type, wrong_network, wrong_number_of_ids, zero, ℕ, ℤ, ◌%◌, ◌&&◌, ◌*◌, ◌++◌, ◌+◌, ◌-◌,
  ◌/◌, ◌<◌, ◌==◌, ◌^◌, ◌||◌, ◌↔◌, ◌∙◌, ◌∷◌, ◌≡◌, ◌≢◌, ◌≤◌, ◌⊎◌,
}
use skywire_mainnet_old.Base.Step.{Step, ◌>>=◌, ◌>>◌, pure, get, lift}
use skywire_mainnet_old.Routing.Addr.{PubKey}

pub record HttpError : Type 0 where
  pub message : Bytes
  pub code : ℕ

-- `body` is what reading the body gives, `closed` what closing it does.
pub record Response : Type 0 where
  pub status : ℕ
  pub body : Outcome Bytes
  pub closed : Outcome (Unit {0})

-- A request to the API has its nonce, signature, key and content length, what is left in the buffer that
-- is its body, and what its GetBody gives, if it has one. Which of them is sent is up to the HTTP client.
pub data HttpRequest : Type 0 where
  nonce_request : Bytes → PubKey → HttpRequest
  signed_request : ℕ → Bytes → PubKey → ℕ → Bytes → Option Bytes → HttpRequest

pub record Client : Type 0 where
  pub key : PubKey
  pub sec : Bytes
  pub addr : Bytes
  pub nonce : ℕ

-- The client and the request that it is given.
pub record ClientState (W : Type 0) : Type 0 where
  pub client : Client
  pub unread : Bytes
  pub get_body : Option Bytes
  pub world : W

-- What a body is decoded to: an HTTPResponse, with or without an error, and a NextNonceResponse.
pub record HttpJson : Type 0 where
  pub response : Bytes → Option (Option HttpError)
  pub next_nonce : Bytes → Outcome ℕ

-- `%d`, for at most as many digits.
unfoldable pub decimal : ℕ → ℕ → Bytes
decimal zero n = []
decimal (suc k) n =
    let high = decimal k (n / 10) in if ltb n 10 then (48 + n) ∷ [] else high ++ (48 + n % 10) ∷ []

unfoldable pub payload_with_nonce : Bytes → ℕ → Bytes
payload_with_nonce payload nonce = payload ++ decimal 20 nonce

abbrev pub http_ok : ℕ
http_ok = 200

abbrev pub http_unauthorized : ℕ
http_unauthorized = 401

-- "SW-Nonce does not match"
abbrev pub invalid_nonce_error_message : Bytes
invalid_nonce_error_message =
    83 ∷ 87 ∷ 45 ∷ 78 ∷ 111 ∷ 110 ∷ 99 ∷ 101 ∷ 32 ∷ 100 ∷ 111 ∷ 101 ∷ 115 ∷ 32 ∷ 110 ∷ 111 ∷ 116
    ∷ 32 ∷ 109 ∷ 97 ∷ 116 ∷ 99 ∷ 104 ∷ []

module _ (json : HttpJson) where
  unfoldable pub no_nonce_error : Option (Option HttpError) → Bool
  no_nonce_error none = true
  no_nonce_error (some none) = true
  no_nonce_error (some (some e)) =
      not (nat_beq e.code http_unauthorized) && not (e.message == invalid_nonce_error_message)

  unfoldable pub is_nonce_valid : Response → Outcome Bool
  unfolding no_nonce_error
  is_nonce_valid res = elim res.body [
    | ok b ↦ elim res.closed [
      | ok u ↦ ok (no_nonce_error (json.response b))
      | err e ↦ err e
      | panic ↦ panic
    ]
    | err e ↦ err e
    | panic ↦ panic
  ]

  -- extractError reads the message of the error, which is nil if the body has none.
  unfoldable pub extract_error : Outcome Bytes → Outcome ℕ
  extract_error (ok b) = elim (json.response b) [
    | none ↦ err nonce_failed
    | some e ↦ elim e [ none ↦ panic | some e ↦ err nonce_failed ]
  ]
  extract_error (err e) = err nonce_failed
  extract_error panic = panic

  unfoldable pub read_nonce : Outcome Bytes → Outcome ℕ
  read_nonce (ok b) = json.next_nonce b
  read_nonce (err e) = err e
  read_nonce panic = panic

  module _ {W : Type 0} (http : HttpRequest → Step W Response)
      (sign_payload : Bytes → Bytes → Outcome Bytes) where
    -- The method Nonce.
    unfoldable pub ask_nonce : Bytes → PubKey → Step W ℕ
    unfolding extract_error read_nonce
    ask_nonce addr key = do
      resp ← http (nonce_request addr key)
      if nat_beq resp.status http_ok
          then lift (read_nonce resp.body)
          else lift (extract_error resp.body)

    abbrev pub on_world {ℓ} : {A : Type ℓ} → Step W A → Step (ClientState W) A
    on_world m s = let (w, r) = m s.world in (record s { world = w }, r)

    abbrev pub set_nonce : ℕ → Step (ClientState W) (Unit {0})
    set_nonce n s = (record s { client = record (s.client) { nonce = n } }, ok tt)

    abbrev pub set_body : Bytes → Step (ClientState W) (Unit {0})
    set_body b s = (record s { unread = b }, ok tt)

    abbrev pub sign_body : Bytes → ℕ → Bytes → Outcome Bytes
    sign_body payload nonce sec = sign_payload (payload_with_nonce payload nonce) sec

    -- The HTTP client reads the buffer to its end.
    unfoldable pub do_request : Bytes → Step (ClientState W) Response
    do_request body = do
      s ← get
      sig ← lift (sign_body body s.client.nonce s.client.sec)
      res ←
          on_world (
            http (signed_request s.client.nonce sig s.client.key (length body) s.unread s.get_body))
      set_body []
      pure res

    unfoldable pub renew_nonce : Step (ClientState W) (Unit {0})
    renew_nonce = do s ← get; n ← on_world (ask_nonce s.client.addr s.client.key); set_nonce n

    unfoldable pub retried : Bytes → Response → Bool → Step (ClientState W) Response
    unfolding do_request renew_nonce
    retried body res true = pure res
    retried body res false = do renew_nonce; do_request body

    unfoldable pub counted_nonce : Response → Step (ClientState W) Response
    counted_nonce res = do
      s ← get
      if nat_beq res.status http_ok then set_nonce ((s.client.nonce + 1) % 2 ^ 64) else pure tt
      pure res

    -- The method Do, on the body of the request.
    unfoldable pub do_authenticated : Outcome Bytes → Step (ClientState W) Response
    unfolding retried counted_nonce
    do_authenticated read = do
      body ← lift read
      set_body body
      res ← do_request body
      valid ← lift (is_nonce_valid res)
      res ← retried body res valid
      counted_nonce res

    unfoldable pub new_client : Bytes → PubKey → Bytes → Step W Client
    new_client addr key sec = do
      n ← ask_nonce addr key
      pure (record { key = key; sec = sec; addr = addr; nonce = n })
