-- ===== src/Transport/Handshake/Refusal.antt =====
-- handshake.go: what the responder demands of an entry before it does anything.
use skywire_mainnet_old.Base.{
  >>=-eq-ok, Bool, Bytes, Error, Option, Outcome, Outcome-cases, ap, arith, beq_refl, err, false,
  inl, inr, invalid_remote_signature, list_beq_iff, list_eq, nat_eq, none, ok, or_err, panic,
  read_entry_failed, refl, some, sym, true, ◌↔◌, ◌∙◌, ◌≡◌, ◌⊎◌,
}
use mathlib.Core.Path.{subst}
use skywire_mainnet_old.Base.Step.{renamed}
use skywire_mainnet_old.Routing.Addr.{TransportId}
use skywire_mainnet_old.Transport.Entry.{
  Entry, SignedEntry, Sig, SecKey, Cipher, signature, to_binary,
}
use skywire_mainnet_old.Transport.Discovery.{Discovery}
use skywire_mainnet_old.Transport.Handshake.{
  Conn, EntryJson, HsState, bool_beq, compare_entries, deref, make_entry_from_conn,
  receive_and_verify_entry, verify_entry, resp_hs,
}

bool_beq_iff : (a b : Bool) → (bool_beq a b ≡ true) ↔ (a ≡ b)
bool_beq_iff true true = ground arith
bool_beq_iff true false = ground arith
bool_beq_iff false true = ground arith
bool_beq_iff false false = ground arith

pub compare_entries_refl : (e : Entry) → compare_entries e e ≡ ok tt
unfolding compare_entries
compare_entries_refl e =
    rw
      (
        beq_refl e.id,
        beq_refl e.edges.0,
        beq_refl e.edges.1,
        beq_refl e.tp_type,
        (bool_beq_iff e.public e.public).1 refl,
      )
      refl

entry_ext :
    (d e : Entry)
    → d.id ≡ e.id
    → d.edges ≡ e.edges
    → d.tp_type ≡ e.tp_type
    → d.public ≡ e.public
    → d ≡ e
entry_ext d e p q r s = λ i. record { id = p i; edges = q i; tp_type = r i; public = s i }

compare_entries_fields :
    (d e : Entry)
    → compare_entries d e ≡ ok tt
    → (d.id ≡ e.id)
      × (d.edges.0 ≡ e.edges.0)
      × (d.edges.1 ≡ e.edges.1)
      × (d.tp_type ≡ e.tp_type)
      × (d.public ≡ e.public)
unfolding compare_entries
compare_entries_fields d e h = ground (
  arith,
  list_beq_iff d.id e.id,
  list_beq_iff d.edges.0 e.edges.0,
  list_beq_iff d.edges.1 e.edges.1,
  list_beq_iff d.tp_type e.tp_type,
  bool_beq_iff d.public e.public,
)

compare_entries_eq : (d e : Entry) → compare_entries d e ≡ ok tt → d ≡ e
compare_entries_eq d e h =
    let (a, b, c, t, v) = compare_entries_fields d e h in entry_ext d e a (λ i. (b i, c i)) t v

renamed-eq-ok : {A : Type 0} (x : Error) (r : Outcome A) {a : A} → renamed x r ≡ ok a → r ≡ ok a
renamed-eq-ok x (ok a) h = h
renamed-eq-ok x (err e) h = cc
renamed-eq-ok x panic h = cc

ok-inj : {A : Type 0} {a b : A} → ok a ≡ ok b → a ≡ b
ok-inj h = ground arith

deref-eq-ok : {A : Type 0} (o : Option A) {a : A} → deref o ≡ ok a → o ≡ some a
deref-eq-ok none h = cc
deref-eq-ok (some b) h = ground arith

or_err-eq-ok : {A : Type 0} (x : Error) (o : Option A) {a : A} → or_err x o ≡ ok a → o ≡ some a
or_err-eq-ok x none h = cc
or_err-eq-ok x (some b) h = ground arith

module _ (new_hash : Bytes → TransportId) (cipher : Cipher) (json : EntryJson) where
  -- What the responder reads is its own entry, signed by the remote key.
  abbrev pub IsOffered : Conn → SignedEntry → Type 0
  IsOffered c se =
      ((json.decode c.at_end c.input).value
        ≡ ok (record { entry = some se.entry; signatures = se.signatures }))
      × (se.entry ≡ make_entry_from_conn new_hash cipher json c)
      × ((sig : Sig) × (signature c.remote_pk se ≡ some sig)
          × (cipher.verify c.remote_pk sig (to_binary se.entry) ≡ ok tt))

  receive-IsOffered :
      (c : Conn) (se : SignedEntry)
      → verify_entry new_hash cipher json
          (make_entry_from_conn new_hash cipher json c)
          c.remote_pk
          (json.decode c.at_end c.input).value
        ≡ ok se
      → IsOffered c se
  unfolding verify_entry
  receive-IsOffered c se h =
      let expected = make_entry_from_conn new_hash cipher json c in
      let (recv, read, h) =
        >>=-eq-ok (renamed read_entry_failed (json.decode c.at_end c.input).value) (λ r. _) h in
      let (received, there, h) = >>=-eq-ok (deref recv.entry) (λ r. _) h in
      let (u, compared, h) = >>=-eq-ok (compare_entries expected received) (λ r. _) h in
      let se' : SignedEntry = record { entry = received; signatures = recv.signatures } in
      let (sig, signed, h) =
        >>=-eq-ok (or_err invalid_remote_signature (signature c.remote_pk se')) (λ r. _) h in
      let (v, verified, h) =
        >>=-eq-ok (cipher.verify c.remote_pk sig (to_binary received)) (λ r. _) h in
      subst (IsOffered c) (ok-inj h) (
        renamed-eq-ok read_entry_failed _ read
            ∙ ap (λ o. ok (record { entry = o; signatures = recv.signatures }))
                (deref-eq-ok _ there),
        sym (compare_entries_eq expected received compared),
        (sig, or_err-eq-ok invalid_remote_signature _ signed, verified),
      )

  module _ {D : Type 0} (discovery : Discovery D) where
    -- Whatever the responder reads and however its handshake ends: it has changed nothing but what is left
    -- to read on the connection, neither the connection's output nor the discovery, unless it was offered
    -- the entry that it makes of its own connection, with a signature by the connection's remote key that
    -- verifies for this entry.
    pub resp_hs-IsOffered :
        (sk : SecKey) (s : HsState D)
        → ((resp_hs new_hash cipher json discovery sk s).0 ≡ record s {
          conn = record (s.conn) { input = (json.decode s.conn.at_end s.conn.input).unread };
        })
          ⊎ ((se : SignedEntry) × IsOffered s.conn se)
    unfolding resp_hs receive_and_verify_entry
    resp_hs-IsOffered sk s =
        let conn = s.conn in
        elim (Outcome-cases (
          verify_entry new_hash cipher json (make_entry_from_conn new_hash cipher json conn)
            conn.remote_pk (json.decode conn.at_end conn.input).value)) [
              | inl (se, received) ↦ inr (se, receive-IsOffered conn se received)
              | inr (inl (e, failed)) ↦ inl (rw failed refl)
              | inr (inr failed) ↦ inl (rw failed refl)
            ]
