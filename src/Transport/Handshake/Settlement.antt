-- ===== src/Transport/Handshake/Settlement.antt =====
-- handshake.go: the two sides of a settlement.
use skywire_mainnet_old.Base.{
  Bytes, Error, List, Outcome, [], ap, byte_at, err, inl, inr, list_eq, nat_eq, ok, panic,
  read_full, read_full-append, read_response_failed, refl, some, sym, true, ℕ, ◌++◌, ◌∙◌, ◌∷◌, ◌≡◌,
  ◌≢◌,
}
use mathlib.Core.Path.{subst}
use skywire_mainnet_old.Base.Step.{after-ok, renamed, or_log}
use skywire_mainnet_old.Routing.Addr.{PubKey, TransportId}
use skywire_mainnet_old.Transport.Entry.{
  Entry, SignedEntry, Sig, SecKey, Cipher, SignsFor, has_edge, signature, sign, new_signed_entry,
  no_sig, to_binary,
}
use skywire_mainnet_old.Transport.Entry.Edges.{IsKey, HasEnds, new_entry_symmetric}
use skywire_mainnet_old.Transport.Entry.Signing.{sign-signature}
use skywire_mainnet_old.Transport.Discovery.{Discovery, Status}
use skywire_mainnet_old.Transport.Handshake.{
  Conn, EntryJson, HsState, make_entry, make_entry_from_conn, after_write, after_read,
  report_settled, is_nil, receive_and_verify_entry, verify_entry, init_settle, init_hs, resp_hs,
  write, read,
}
use skywire_mainnet_old.Transport.Handshake.Refusal.{compare_entries_refl}

-- A decoder reads back what an encoder has written of this entry, whatever its signatures and whatever
-- follows.
pub record IsFaithful (json : EntryJson) (entry : Entry) : Type 0 where
  pub reads_back :
      (at_end : Error) (signatures : Sig × Sig) (rest : Bytes)
      → (json.decode at_end
          (json.encode (record { entry = entry; signatures = signatures }) ++ rest)).value
        ≡ ok (record { entry = some entry; signatures = signatures })

-- The key has a signature in the entry, which verifies.
abbrev pub IsSignedBy : Cipher → PubKey → SignedEntry → Type 0
IsSignedBy cipher pk se =
    (sig : Sig) × (signature pk se ≡ some sig) × (cipher.verify pk sig (to_binary se.entry) ≡ ok tt)

-- A connection on which Write succeeds.
abbrev pub open_conn : PubKey → PubKey → Bytes → Bytes → Error → Conn
open_conn local remote network input at_end = record {
  local_pk = local;
  remote_pk = remote;
  network = network;
  input = input;
  at_end = at_end;
  written = ok tt;
  output = [];
}

abbrev pub sent : Conn → Bytes → Bytes → Conn
sent c input output = record c { input = input; output = output }

IsSignedBy-eq :
    (cipher : Cipher) (pk : PubKey) (d e : SignedEntry)
    → signature pk e ≡ signature pk d
    → e.entry ≡ d.entry
    → IsSignedBy cipher pk d
    → IsSignedBy cipher pk e
IsSignedBy-eq cipher pk d e same entries (sig, there, good) =
    (sig, same ∙ there, ap (λ x. cipher.verify pk sig (to_binary x)) entries ∙ good)

pub write_open :
    (b : Bytes) (c : Conn)
    → c.written ≡ ok tt
    → write b c ≡ (record c { output = c.output ++ b }, ok tt)
unfolding write
write_open b c h = ap (after_write b c) h

read_first :
    (b : ℕ) (rest : Bytes) (c : Conn)
    → c.input ≡ b ∷ rest
    → read 1 c ≡ (record c { input = rest }, ok (b ∷ []))
unfolding read
read_first b rest c h =
    ap (λ input. after_read c (read_full c.at_end 1 input)) h
    ∙ ap (after_read c) (read_full-append c.at_end 1 (b ∷ []) rest refl)

if_returned :
    {A : Type 0} (r : Outcome A) → r ≢ panic → (elim r [ panic ↦ panic | _ ↦ ok (tt {0}) ]) ≡ ok tt
if_returned (ok a) h = refl
if_returned (err e) h = refl
if_returned panic h = absurd (h refl)

or_log_returned : (r : Outcome (Unit {0})) → r ≢ panic → or_log r ≡ ok tt
or_log_returned (ok a) h = refl
or_log_returned (err e) h = refl
or_log_returned panic h = absurd (h refl)

module _ (new_hash : Bytes → TransportId) (cipher : Cipher) (json : EntryJson) where
  made_alike :
      (a b : PubKey) (net : Bytes)
      → IsKey a
      → IsKey b
      → a ≢ b
      → (make_entry new_hash cipher json a b net ≡ make_entry new_hash cipher json b a net)
        × HasEnds (make_entry new_hash cipher json a b net) a b
  unfolding make_entry
  made_alike a b net key_a key_b ne = new_entry_symmetric new_hash a b net true key_a key_b ne

  receive_signed :
      (at_end : Error) (se : SignedEntry) (pk : PubKey) (rest : Bytes)
      → IsFaithful json se.entry
      → IsSignedBy cipher pk se
      → verify_entry new_hash cipher json se.entry pk
          (json.decode at_end (json.encode se ++ rest)).value
        ≡ ok se
  unfolding verify_entry
  receive_signed at_end se pk rest faithful (sig, there, good) =
      rw (faithful.reads_back at_end se.signatures rest)
        (rw (compare_entries_refl se.entry, there) (rw good refl))

  module _ {D : Type 0} (discovery : Discovery D) where
    init_settle_sends :
        (entry : Entry) (sk : SecKey) (se : SignedEntry) (a b : PubKey) (net rest : Bytes)
        (at_end : Error) (d : D)
        → new_signed_entry cipher entry a sk ≡ ok (se, true)
        → init_settle new_hash cipher json discovery entry sk
            (record { conn = open_conn a b net (1 ∷ rest) at_end; dc = d })
          ≡ (
            record {
              conn = sent (open_conn a b net (1 ∷ rest) at_end) rest (json.encode se);
              dc = d;
            },
            ok tt,
          )
    unfolding init_settle write byte_at
    init_settle_sends entry sk se a b net rest at_end d made =
        let c = sent (open_conn a b net (1 ∷ rest) at_end) (1 ∷ rest) (json.encode se) in
        rw made (
          after-ok (λ r. _)
            (ap (λ r. (record { conn = r.0; dc = d }, renamed read_response_failed (r.1)))
              (read_first 1 rest c refl))
            refl)

    -- Calls of the discovery may fail, but they return.
    pub record Returns : Type 0 where
      pub registers :
          (ses : List SignedEntry) (d : D) → (discovery.register_transports ses d).1 ≢ panic
      pub updates :
          (statuses : List Status) (d : D) → (discovery.update_statuses statuses d).1 ≢ panic

    -- What the initiator's report leaves in the discovery.
    abbrev pub reported_up : TransportId → D → D
    reported_up id d = (discovery.update_statuses (record { id = id; is_up = true } ∷ []) d).0

    abbrev pub registered : SignedEntry → D → D
    registered se d = (discovery.register_transports (se ∷ []) d).0

    report_settled_up :
        (id : TransportId) (c : Conn) (d : D)
        → Returns
        → report_settled new_hash cipher json discovery id (record { conn = c; dc = d }, ok tt)
          ≡ (record { conn = c; dc = reported_up id d }, ok tt)
    unfolding report_settled is_nil
    report_settled_up id c d returns =
        ap (λ r. (record { conn = c; dc = reported_up id d }, r))
          (if_returned _ (returns.updates _ d))

    resp_hs_accepts :
        (sk : SecKey) (se both : SignedEntry) (s : HsState D)
        → Returns
        → s.conn.written ≡ ok tt
        → verify_entry new_hash cipher json
            (make_entry_from_conn new_hash cipher json s.conn)
            s.conn.remote_pk
            (json.decode s.conn.at_end s.conn.input).value
          ≡ ok se
        → sign cipher s.conn.local_pk sk se ≡ ok (both, true)
        → resp_hs new_hash cipher json discovery sk s ≡ (
          record {
            conn = record (s.conn) {
              input = (json.decode s.conn.at_end s.conn.input).unread;
              output = s.conn.output ++ 1 ∷ [];
            };
            dc = registered both s.dc;
          },
          ok tt,
        )
    unfolding resp_hs receive_and_verify_entry
    resp_hs_accepts sk se both s returns writes received signed = rw received (
        rw signed (
          rw
            (
              or_log_returned _ (returns.registers (both ∷ []) s.dc),
              write_open (1 ∷ [])
                  (record (s.conn) { input = (json.decode s.conn.at_end s.conn.input).unread })
                  writes,
            )
            refl))

    init_hs_sends :
        (entry : Entry) (sk : SecKey) (se : SignedEntry) (a b : PubKey) (net rest : Bytes)
        (at_end : Error) (d : D)
        → make_entry new_hash cipher json a b net ≡ entry
        → new_signed_entry cipher entry a sk ≡ ok (se, true)
        → Returns
        → init_hs new_hash cipher json discovery sk
            (record { conn = open_conn a b net (1 ∷ rest) at_end; dc = d })
          ≡ (
            record {
              conn = sent (open_conn a b net (1 ∷ rest) at_end) rest (json.encode se);
              dc = reported_up entry.id d;
            },
            ok tt,
          )
    unfolding init_hs make_entry_from_conn
    init_hs_sends entry sk se a b net rest at_end d from made returns = rw from (
        ap (report_settled new_hash cipher json discovery entry.id)
          (init_settle_sends entry sk se a b net rest at_end d made)
        ∙ report_settled_up entry.id _ d returns)

    -- Two visors, with different keys of 33 bytes and their own secret keys, settle a transport: the
    -- initiator sends an entry that it has signed and succeeds once its peer has answered 1; the
    -- responder, reading what the initiator has sent, succeeds, answers 1, and registers the entry. The
    -- registered entry is the one that each of them makes of its connection, and it is signed by both.
    -- The responder's connection is left with what the decoder has not read. The decoder reads back what
    -- the encoder writes of this entry, and the discovery's calls return, if with an error.
    pub settles :
        (a b : PubKey) (sk_a sk_b : SecKey) (net rest more : Bytes) (at_a at_b : Error)
        (d_a d_b : D)
        → IsKey a
        → IsKey b
        → a ≢ b
        → SignsFor cipher a sk_a
        → SignsFor cipher b sk_b
        → IsFaithful json (make_entry new_hash cipher json a b net)
        → Returns
        → (offer : SignedEntry) × (both : SignedEntry) × (init_hs new_hash cipher json discovery
              sk_a
              (record { conn = open_conn a b net (1 ∷ rest) at_a; dc = d_a })
            ≡ (
              record {
                conn = sent (open_conn a b net (1 ∷ rest) at_a) rest (json.encode offer);
                dc = reported_up (make_entry new_hash cipher json a b net).id d_a;
              },
              ok tt,
            ))
          × (resp_hs new_hash cipher json discovery sk_b
                (record { conn = open_conn b a net (json.encode offer ++ more) at_b; dc = d_b })
              ≡ (
                record {
                  conn =
                      sent
                        (open_conn b a net (json.encode offer ++ more) at_b)
                        (json.decode at_b (json.encode offer ++ more)).unread
                        (1 ∷ []);
                  dc = registered both d_b;
                },
                ok tt,
              ))
          × (both.entry ≡ make_entry new_hash cipher json a b net)
          × (both.entry ≡ make_entry new_hash cipher json b a net)
          × IsSignedBy cipher a both
          × IsSignedBy cipher b both
    unfolding new_signed_entry make_entry_from_conn
    settles a b sk_a sk_b net rest more at_a at_b d_a d_b key_a key_b ne own_a own_b faithful
          returns =
        let entry = make_entry new_hash cipher json a b net in
        let (same, ends) = made_alike a b net key_a key_b ne in
        let blank : SignedEntry = record { entry = entry; signatures = (no_sig, no_sig) } in
        let (offer, sig, made, is, there, good, others) =
          sign-signature cipher a sk_a blank own_a ((ends.2 a).1 (inl refl)) in
        let (both, sig', made', is', there', good', others') =
          sign-signature cipher b sk_b offer own_b
            (subst (λ e. has_edge b e ≡ true) (sym is) ((ends.2 b).1 (inr refl))) in
        let by_a = IsSignedBy-eq cipher a offer both (others' a ne) is' (sig, there, good) in
        let c_b = open_conn b a net (json.encode offer ++ more) at_b in
        let read =
          receive_signed at_b offer a more (subst (IsFaithful json) (sym is) faithful)
            (sig, there, good) in
        (
          offer,
          both,
          init_hs_sends entry sk_a offer a b net rest at_a d_a refl made returns,
          resp_hs_accepts sk_b offer both (record { conn = c_b; dc = d_b }) returns refl
              (subst
                (λ e.
                  verify_entry new_hash cipher json e a
                    (json.decode at_b (json.encode offer ++ more)).value
                  ≡ ok offer)
                (is ∙ same) read)
              made',
          is' ∙ is,
          is' ∙ (is ∙ same),
          by_a,
          (sig', there', good'),
        )
