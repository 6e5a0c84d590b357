-- ===== src/Net/HttpAuth/Nonces.antt =====
-- client.go: the nonce of the client against that of the server.
use skywire_mainnet_old.Base.{
  Bool, Bool-cases, Bytes, Option, Outcome, [], ap, beq_refl, false, if◌then◌else◌, inl, inr,
  length, list_eq, nat_beq, nat_eq, ok, refl, some, sym, true, ℕ, ◌%◌, ◌+◌, ◌==◌, ◌^◌, ◌∙◌, ◌≡◌,
  ◌⊎◌,
}
use skywire_mainnet_old.Base.Step.{Step}
use skywire_mainnet_old.Routing.Addr.{PubKey}
use skywire_mainnet_old.Net.HttpAuth.{
  Response, HttpRequest, nonce_request, signed_request, Client, ClientState, HttpJson,
  is_nonce_valid, ask_nonce, do_request, renew_nonce, retried, counted_nonce, do_authenticated,
  http_ok, payload_with_nonce, read_nonce,
}

module _ (json : HttpJson) {W : Type 0} (http : HttpRequest → Step W Response)
    (sign_payload : Bytes → Bytes → Outcome Bytes) where
  -- The body can be sent: it is in the buffer, or GetBody gives it.
  abbrev pub IsSendable : Bytes → Bytes → Option Bytes → Type 0
  IsSendable body unread get_body = (unread ≡ body) ⊎ (get_body ≡ some body)

  -- A server that counts the nonces of a key, behind net/http, which rewinds a body that has been read by
  -- GetBody. It refuses a request with another nonce, takes one with this nonce, after which it counts on
  -- if its status is OK, and tells the nonce when it is asked.
  pub record IsNonceServer (key : PubKey) (expected : W → ℕ) : Type 0 where
    pub refuses :
        (w : W) (n : ℕ) (sig body unread : Bytes) (get_body : Option Bytes)
        → IsSendable body unread get_body
        → (n == expected w) ≡ false
        → (w' : W) × (res : Response) × (http
              (signed_request n sig key (length body) unread get_body)
              w
            ≡ (w', ok res))
          × (is_nonce_valid json res ≡ ok false)
          × (expected w' ≡ expected w)
    pub takes :
        (w : W) (n : ℕ) (sig body unread : Bytes) (get_body : Option Bytes)
        → IsSendable body unread get_body
        → (n == expected w) ≡ true
        → (w' : W) × (res : Response) × (http
              (signed_request n sig key (length body) unread get_body)
              w
            ≡ (w', ok res))
          × (is_nonce_valid json res ≡ ok true)
          × (expected w'
              ≡ (if nat_beq res.status http_ok then (expected w + 1) % 2 ^ 64 else expected w))
    pub tells :
        (w : W) (addr : Bytes)
        → (w' : W) × (res : Response) × (http (nonce_request addr key) w ≡ (w', ok res))
          × (res.status ≡ http_ok)
          × (read_nonce json res.body ≡ ok (expected w))
          × (expected w' ≡ expected w)

  module _ (c : Client) (get_body : Option Bytes) (expected : W → ℕ)
      (server : IsNonceServer c.key expected)
      (signs : (payload sec : Bytes) → (sig : Bytes) × (sign_payload payload sec ≡ ok sig)) where
    abbrev pub at_nonce : ℕ → Bytes → W → ClientState W
    at_nonce n unread w = record {
      client = record c { nonce = n };
      unread = unread;
      get_body = get_body;
      world = w;
    }

    request_answered :
        (body unread sig : Bytes) (n : ℕ) (w w' : W) (res : Response)
        → sign_payload (payload_with_nonce body n) c.sec ≡ ok sig
        → http (signed_request n sig c.key (length body) unread get_body) w ≡ (w', ok res)
        → do_request json http sign_payload body (at_nonce n unread w) ≡ (at_nonce n [] w', ok res)
    unfolding do_request
    request_answered body unread sig n w w' res signed answers = rw (signed, answers) refl

    request_taken :
        (body unread : Bytes) (n : ℕ) (w : W)
        → IsSendable body unread get_body
        → (n == expected w) ≡ true
        → (w' : W) × (res : Response) × (do_request json http sign_payload body
              (at_nonce n unread w)
            ≡ (at_nonce n [] w', ok res))
          × (is_nonce_valid json res ≡ ok true)
          × (expected w'
              ≡ (if nat_beq res.status http_ok then (expected w + 1) % 2 ^ 64 else expected w))
    request_taken body unread n w sendable same =
        let (sig, signed) = signs (payload_with_nonce body n) c.sec in
        let (w', res, answers, valid, counts) =
          server.takes w n sig body unread get_body sendable same in
        (w', res, request_answered body unread sig n w w' res signed answers, valid, counts)

    request_refused :
        (body unread : Bytes) (n : ℕ) (w : W)
        → IsSendable body unread get_body
        → (n == expected w) ≡ false
        → (w' : W) × (res : Response) × (do_request json http sign_payload body
              (at_nonce n unread w)
            ≡ (at_nonce n [] w', ok res))
          × (is_nonce_valid json res ≡ ok false)
          × (expected w' ≡ expected w)
    request_refused body unread n w sendable other =
        let (sig, signed) = signs (payload_with_nonce body n) c.sec in
        let (w', res, answers, refused, kept) =
          server.refuses w n sig body unread get_body sendable other in
        (w', res, request_answered body unread sig n w w' res signed answers, refused, kept)

    ask_nonce_lem :
        (w w' : W) (res : Response)
        → http (nonce_request c.addr c.key) w ≡ (w', ok res)
        → res.status ≡ http_ok
        → read_nonce json res.body ≡ ok (expected w)
        → ask_nonce json http sign_payload c.addr c.key w ≡ (w', ok (expected w))
    unfolding ask_nonce
    ask_nonce_lem w w' res answers fine told = rw (answers, fine, told) refl

    renewed :
        (n : ℕ) (u : Bytes) (w : W)
        → (w' : W) × (renew_nonce json http sign_payload (at_nonce n u w)
            ≡ (at_nonce (expected w) u w', ok tt))
          × (expected w' ≡ expected w)
    unfolding renew_nonce
    renewed n u w =
        let (w', res, answers, fine, told, kept) = server.tells w c.addr in
        (w', rw (ask_nonce_lem w w' res answers fine told) refl, kept)

    counted_lem :
        (n : ℕ) (w w' : W) (res : Response)
        → n ≡ expected w
        → expected w'
          ≡ (if nat_beq res.status http_ok then (expected w + 1) % 2 ^ 64 else expected w)
        → counted_nonce json http sign_payload res (at_nonce n [] w')
          ≡ (at_nonce (expected w') [] w', ok res)
    unfolding counted_nonce
    counted_lem n w w' res same counts = elim (Bool-cases (nat_beq res.status http_ok)) [
      | inl fine ↦
          rw
            (
              fine,
              same,
              counts ∙ ap (λ b. if b then (expected w + 1) % 2 ^ 64 else expected w) fine,
            )
            refl
      | inr other ↦
          rw
            (
              other,
              same,
              counts ∙ ap (λ b. if b then (expected w + 1) % 2 ^ 64 else expected w) other,
            )
            refl
    ]

    -- Do has the response to a request that the server has taken, and the nonce that the server expects
    -- next.
    abbrev pub InStep : Bytes → ℕ → Bytes → W → Type 0
    InStep body n unread w =
        (w' : W) × (res : Response) × (do_authenticated json http sign_payload (ok body)
            (at_nonce n unread w)
          ≡ (at_nonce (expected w') [] w', ok res))
        × (is_nonce_valid json res ≡ ok true)

    retried_afresh :
        (body : Bytes) (first : Response) (n : ℕ) (w w1 w2 : W) (r : Outcome Response)
        → renew_nonce json http sign_payload (at_nonce n [] w)
          ≡ (at_nonce (expected w) [] w1, ok tt)
        → do_request json http sign_payload body (at_nonce (expected w) [] w1)
          ≡ (at_nonce (expected w) [] w2, r)
        → retried json http sign_payload body first false (at_nonce n [] w)
          ≡ (at_nonce (expected w) [] w2, r)
    unfolding retried
    retried_afresh body first n w w1 w2 r renews answers = rw (renews, answers) refl

    -- Do from the outcomes of its parts.
    do_parts :
        (body unread : Bytes) (n m : ℕ) (w w1 w2 : W) (first res : Response) (valid : Bool)
        → do_request json http sign_payload body (at_nonce n body w) ≡ (at_nonce n [] w1, ok first)
        → is_nonce_valid json first ≡ ok valid
        → retried json http sign_payload body first valid (at_nonce n [] w1)
          ≡ (at_nonce m [] w2, ok res)
        → counted_nonce json http sign_payload res (at_nonce m [] w2)
          ≡ (at_nonce (expected w2) [] w2, ok res)
        → do_authenticated json http sign_payload (ok body) (at_nonce n unread w)
          ≡ (at_nonce (expected w2) [] w2, ok res)
    unfolding do_authenticated
    do_parts body unread n m w w1 w2 first res valid answers judged again counts =
        rw (answers, judged, again, counts) refl

    do_known :
        (body unread : Bytes) (n : ℕ) (w : W) → (n == expected w) ≡ true → InStep body n unread w
    do_known body unread n w same =
        let (w', res, answers, valid, counts) = request_taken body body n w (inl refl) same in
        (
          w',
          res,
          do_parts body unread n n w w' w' res res true answers valid (unfold retried in refl)
              (counted_lem n w w' res ((nat_eq.agrees n (expected w)).0 same) counts),
          valid,
        )

    do_stale :
        (body unread : Bytes) (n : ℕ) (w : W)
        → IsSendable body [] get_body
        → (n == expected w) ≡ false
        → InStep body n unread w
    do_stale body unread n w again other =
        let (w1, first, answers, refused, kept) = request_refused body body n w (inl refl) other in
        let (w2, renews, told) = renewed n [] w1 in
        let fresh = ap (λ k. k == expected w2) (sym told) ∙ beq_refl (expected w2) in
        let (w3, res, taken, valid, counts) = request_taken body [] (expected w1) w2 again fresh in
        (
          w3,
          res,
          do_parts body unread n (expected w1) w w1 w3 first res false answers refused
              (retried_afresh body first n w1 w2 w3 (ok res) renews taken)
              (counted_lem (expected w1) w2 w3 res (sym told) counts),
          valid,
        )

    -- Do succeeds, with the response to a request that the server has taken, and leaves the client with the
    -- nonce that the server expects next, modulo 2^64: on a request without a body or one whose GetBody
    -- gives the body, whatever nonce the client has, and on any request if the client has the nonce that
    -- the server expects. The server counts the nonces of the client's key, refuses a request with another
    -- nonce, and tells the nonce when it is asked; net/http sends a body that is in the buffer or that
    -- GetBody gives; and each payload can be signed.
    pub do-InStep :
        (body unread : Bytes) (n : ℕ) (w : W)
        → IsSendable body [] get_body ⊎ ((n == expected w) ≡ true)
        → InStep body n unread w
    do-InStep body unread n w (inr same) = do_known body unread n w same
    do-InStep body unread n w (inl again) = elim (Bool-cases (n == expected w)) [
      | inl same ↦ do_known body unread n w same
      | inr other ↦ do_stale body unread n w again other
    ]
