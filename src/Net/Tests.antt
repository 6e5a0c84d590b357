-- ===== src/Net/Tests.antt =====
-- Runs of the porter, the key table and the retrier at concrete inputs.
use skywire_mainnet_old.Base.{
  Bytes, Distinct, Map, Option, Outcome, [], ap, arith, eof, err, false, if◌then◌else◌, inl, inr,
  io_failed, length, list_beq, list_eq, lookup, ltb, nat_eq, none, ok, refl, some, suc, true, zero,
  ℕ, ◌%◌, ◌+◌, ◌==◌, ◌^◌, ◌∙◌, ◌∷◌, ◌≡◌, ◌≢◌, ◌⊎◌,
}
use skywire_mainnet_old.Net.HttpAuth.{
  Response, HttpRequest, nonce_request, signed_request, Client, HttpJson, is_nonce_valid, http_ok,
  http_unauthorized, invalid_nonce_error_message, read_nonce,
}
use skywire_mainnet_old.Net.HttpAuth.Nonces.{IsNonceServer, IsSendable, InStep, do-InStep}
use skywire_mainnet_old.Base.Step.{Step}
use skywire_mainnet_old.Routing.Addr.{PubKey, Port}
use skywire_mainnet_old.Net.Porter.{Porter, new_porter, is_free, reserve, reserve_ephemeral}
use skywire_mainnet_old.Net.Porter.Ephemeral.{Found, reserve_ephemeral_ends}
use skywire_mainnet_old.Net.PkTable.{new_table, pub_key, addr}
use skywire_mainnet_old.Net.PkTable.Reverse.{new_table-pub_key}
use skywire_mainnet_old.Net.Retrier.{Retrier, Run, new_retrier, next_backoff, do_retry}
use skywire_mainnet_old.Net.Retrier.Attempts.{Fails, do_retry_succeeds}

abbrev least_ephemeral : ℕ
least_ephemeral = 49152

-- The first search of a new porter.
reserve_ephemeral_ends_example :
    (port : Port) × (p' : Porter) × (reserve_ephemeral
        (λ i. false)
        (2 ^ 16)
        (new_porter least_ephemeral)
      ≡ (p', some (ok port)))
    × Found (new_porter least_ephemeral) p' port
    × (p'.ports ≡ (0, tt) ∷ [])
    × ((reserve port p').1 ≡ true)
reserve_ephemeral_ends_example =
    reserve_ephemeral_ends (new_porter least_ephemeral) 50000 (omega arith) (omega arith)
      (omega arith) (omega arith) free
  where
    free : is_free 50000 (new_porter least_ephemeral) ≡ true
    free = unfold lookup in refl

abbrev two_keys : Map PubKey Bytes
two_keys = (1 ∷ [], 5 ∷ []) ∷ (2 ∷ [], 5 ∷ []) ∷ []

two_keys-Distinct : Distinct two_keys
unfolding lookup list_beq
two_keys-Distinct = (refl, (refl, tt))

-- Two keys at one address.
new_table-pub_key_example :
    ((pk : PubKey) × (pub_key (5 ∷ []) (new_table two_keys) ≡ some pk)
      × (addr pk (new_table two_keys) ≡ some (5 ∷ [])))
    ⊎ ((pub_key (5 ∷ []) (new_table two_keys) ≡ none)
        × ((pk : PubKey) → addr pk (new_table two_keys) ≢ some (5 ∷ [])))
new_table-pub_key_example = new_table-pub_key two_keys (5 ∷ []) two_keys-Distinct

-- It fails the first time.
abbrev second_time : Step ℕ (Unit {0})
second_time zero = (1, err io_failed)
second_time (suc n) = (suc n, ok tt)

abbrev thrice : Retrier
thrice = new_retrier 100 3 2

abbrev after_one : Run ℕ
after_one = record { state = 1; slept = 200 ∷ [] }

failed_once : Fails thrice second_time 100 (record { state = 0; slept = [] }) 1 200 after_one
unfolding next_backoff
failed_once = Fails.again 1 io_failed refl refl (Fails.no_more 200 after_one)

do_retry_succeeds_example :
    (do_retry thrice second_time 2 (record { state = 0; slept = [] }) ≡ (after_one, some (ok tt)))
    × (length after_one.slept ≡ 1)
do_retry_succeeds_example =
    do_retry_succeeds thrice second_time 1 200 1 0 after_one (inr (omega arith)) failed_once refl

abbrev once : Retrier
once = new_retrier 100 1 2

failed_at_once : Fails once second_time 100 (record { state = 0; slept = [] }) 1 200 after_one
unfolding next_backoff
failed_at_once = Fails.again 1 io_failed refl refl (Fails.no_more 200 after_one)

-- A server that has one nonce. The body of a response is empty, or it is the nonce or an error.
abbrev toy_json : HttpJson
toy_json = record {
  response = λ b. elim b [
    | [] ↦ none
    | c ∷ rest ↦
        some (some (record { message = invalid_nonce_error_message; code = http_unauthorized }))
  ];
  next_nonce = λ b. elim b [ [] ↦ err eof | n ∷ rest ↦ ok n ];
}

abbrev with_body : ℕ → Bytes → Response
with_body status b = record { status = status; body = ok b; closed = ok tt }

-- A body that has been read is rewound by GetBody.
abbrev sent_body : ℕ → Bytes → Option Bytes → Bytes
sent_body declared unread none = unread
sent_body declared unread (some body) = if ltb (length unread) declared then body else unread

toy_http : HttpRequest → ℕ → ℕ × Outcome Response
toy_http (nonce_request addr key) w = (w, ok (with_body http_ok (w ∷ [])))
toy_http (signed_request n sig key declared unread get_body) w =
    if ltb (length (sent_body declared unread get_body)) declared
    then (w, err io_failed)
    else if n == w
    then ((w + 1) % 2 ^ 64, ok (with_body http_ok []))
    else (w, ok (with_body http_unauthorized (1 ∷ [])))

abbrev toy_client : Client
toy_client = record { key = []; sec = []; addr = []; nonce = 3 }

whole_body :
    (body unread : Bytes) (get_body : Option Bytes)
    → IsSendable toy_json toy_http (λ payload sec. ok payload) body unread get_body
    → ltb (length (sent_body (length body) unread get_body)) (length body) ≡ false
whole_body body unread none (inl there) =
    ap (λ u. ltb (length u) (length body)) there ∙ ground arith
whole_body body unread none (inr again) = cc
whole_body body unread (some b) (inl there) =
    ap (λ u. ltb (length (if ltb (length u) (length body) then b else u)) (length body)) there
    ∙ ground arith
whole_body body unread (some b) (inr again) = ground arith

toy_server : IsNonceServer toy_json toy_http (λ payload sec. ok payload) [] (λ w. w)
unfolding toy_http is_nonce_valid read_nonce
toy_server = record {
  refuses = λ w n sig body unread g sends other. (
    w,
    with_body http_unauthorized (1 ∷ []),
    rw (whole_body body unread g sends, other) refl,
    refl,
    refl,
  );
  takes = λ w n sig body unread g sends same. (
    (w + 1) % 2 ^ 64,
    with_body http_ok [],
    rw (whole_body body unread g sends, same) refl,
    refl,
    refl,
  );
  tells = λ w addr. (w, with_body http_ok (w ∷ []), refl, refl, refl, refl);
}

-- The client has the nonce 3, the server expects 8; the request has a body and a GetBody.
do-InStep_example :
    InStep toy_json toy_http
      (λ payload sec. ok payload)
      toy_client
      (some (5 ∷ []))
      (λ w. w)
      toy_server
      (λ payload sec. (payload, refl))
      (5 ∷ [])
      3
      []
      8
do-InStep_example =
    do-InStep toy_json toy_http (λ payload sec. ok payload) toy_client (some (5 ∷ [])) (λ w. w)
      toy_server (λ payload sec. (payload, refl)) (5 ∷ []) [] 3 8 (inl (inr refl))
