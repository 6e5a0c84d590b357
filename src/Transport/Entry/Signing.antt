-- ===== src/Transport/Entry/Signing.antt =====
-- entry.go: what the two signatures of an entry cover, and where they are kept.
use skywire_mainnet_old.Base.{
  Bool-cases, Bytes, Option-cases, ap, arith, bind_ok, drop, drop-append_left, inl, inr, length,
  list_beq_iff, list_eq, nat_eq, ok, refl, some, suc, sym, take, take-append_left, true, zero, ℕ,
  ◌++◌, ◌==◌, ◌↔◌, ◌∙◌, ◌≡◌, ◌≢◌, ◌⊎◌,
}
use skywire_mainnet_old.Routing.Addr.{PubKey}
use skywire_mainnet_old.Transport.Entry.{
  Entry, SignedEntry, Sig, SecKey, Cipher, SignsFor, edge_index, has_edge, to_binary,
  entry_signature, sign_at, sign, signature, sig_at, put_sig,
}

pub has_edge-edge_index :
    (pk : PubKey) (e : Entry) → has_edge pk e ≡ true → (i : ℕ) × (edge_index pk e ≡ some i)
unfolding has_edge edge_index
has_edge-edge_index pk e h = elim (Bool-cases (pk == e.edges.0)) [
  | inl first ↦ (0, rw first refl)
  | inr other ↦ (
    1,
    ground (
      arith,
      list_beq_iff pk e.edges.0,
      list_beq_iff e.edges.0 pk,
      list_beq_iff pk e.edges.1,
      list_beq_iff e.edges.1 pk,
    ),
  )
]

-- Two keys at one index are one key.
edge_index-inj :
    (pk other : PubKey) (e : Entry) (i : ℕ)
    → edge_index pk e ≡ some i
    → edge_index other e ≡ some i
    → other ≡ pk
unfolding edge_index
edge_index-inj pk other e i p q = ground (
  arith,
  list_beq_iff pk e.edges.0,
  list_beq_iff pk e.edges.1,
  list_beq_iff other e.edges.0,
  list_beq_iff other e.edges.1,
)

edge_index_below : (pk : PubKey) (e : Entry) (i : ℕ) → edge_index pk e ≡ some i → (i ≡ 0) ⊎ (i ≡ 1)
unfolding edge_index
edge_index_below pk e i h = ground arith

sig_at-put_sig : (i : ℕ) (v : Sig) (s : Sig × Sig) → sig_at i (put_sig i v s) ≡ v
sig_at-put_sig zero v s = refl
sig_at-put_sig (suc i) v s = refl

sig_at-put_sig_ne :
    (i j : ℕ) (v : Sig) (s : Sig × Sig)
    → (i ≡ 0) ⊎ (i ≡ 1)
    → (j ≡ 0) ⊎ (j ≡ 1)
    → i ≢ j
    → sig_at j (put_sig i v s) ≡ sig_at j s
sig_at-put_sig_ne zero zero v s p q ne = absurd (ne refl)
sig_at-put_sig_ne zero (suc j) v s p q ne = refl
sig_at-put_sig_ne (suc i) zero v s p q ne = refl
sig_at-put_sig_ne (suc i) (suc j) v s p q ne = absurd (omega arith)

signature-edge_index :
    (pk : PubKey) (se : SignedEntry) (i : ℕ)
    → edge_index pk se.entry ≡ some i
    → signature pk se ≡ some (sig_at i se.signatures)
unfolding signature
signature-edge_index pk se i at = rw (at, signature) refl

signature_other :
    (pk other : PubKey) (se : SignedEntry) (i : ℕ) (v : Sig)
    → other ≢ pk
    → edge_index pk se.entry ≡ some i
    → signature other (record se { signatures = put_sig i v se.signatures }) ≡ signature other se
unfolding signature
signature_other pk other se i v ne at = elim (Option-cases (edge_index other se.entry)) [
  | inl absent ↦ rw (absent, signature) refl
  | inr (j, there) ↦
      rw (there, signature)
        (ap some (
          sig_at-put_sig_ne i j v se.signatures (edge_index_below pk se.entry i at)
            (edge_index_below other se.entry j there)
            (λ same. ne (edge_index-inj pk other se.entry i at (rw same there)))))
]

entry_signature_made :
    (cipher : Cipher) (sk : SecKey) (e : Entry) (sig : Sig)
    → cipher.sign_payload (to_binary e) sk ≡ ok sig
    → entry_signature cipher sk e ≡ ok sig
unfolding entry_signature
entry_signature_made cipher sk e sig made = rw (made, entry_signature) refl

sign_found :
    (cipher : Cipher) (pk : PubKey) (sk : SecKey) (se : SignedEntry) (i : ℕ) (sig : Sig)
    → edge_index pk se.entry ≡ some i
    → cipher.sign_payload (to_binary se.entry) sk ≡ ok sig
    → sign cipher pk sk se ≡ ok (record se { signatures = put_sig i sig se.signatures }, true)
unfolding sign sign_at
sign_found cipher pk sk se i sig at made =
    rw at (bind_ok (λ k. _) (entry_signature_made cipher sk se.entry sig made) refl)

-- What Sign and Signature do for an edge of the entry and its own secret key: Sign succeeds and
-- leaves the entry alone, Signature then gives that edge a signature which verifies for the binary
-- form of the entry, and what it gives for every other key is as before.
pub sign-signature :
    (cipher : Cipher) (pk : PubKey) (sk : SecKey) (se : SignedEntry)
    → SignsFor cipher pk sk
    → has_edge pk se.entry ≡ true
    → (se' : SignedEntry) × (sig : Sig) × (sign cipher pk sk se ≡ ok (se', true))
      × (se'.entry ≡ se.entry)
      × (signature pk se' ≡ some sig)
      × (cipher.verify pk sig (to_binary se'.entry) ≡ ok tt)
      × ((other : PubKey) → other ≢ pk → signature other se' ≡ signature other se)
sign-signature cipher pk sk se own edge =
    let (i, at) = has_edge-edge_index pk se.entry edge in
    let (sig, made, good) = own.signs (to_binary se.entry) in
    let se' = record se { signatures = put_sig i sig se.signatures } in
    (
      se',
      sig,
      sign_found cipher pk sk se i sig at made,
      refl,
      signature-edge_index pk se' i at ∙ ap some (sig_at-put_sig i sig se.signatures),
      good,
      λ other ne. signature_other pk other se i sig ne at,
    )

pub record HasSizes (e : Entry) : Type 0 where
  pub id_size : length e.id ≡ 16
  pub first_size : length e.edges.0 ≡ 33
  pub second_size : length e.edges.1 ≡ 33

append-inj : (a b c d : Bytes) → length a ≡ length c → a ++ b ≡ c ++ d → (a ≡ c) × (b ≡ d)
append-inj a b c d wide e = (
  sym (take-append_left (length a) a b refl)
      ∙ (ap (take (length a)) e ∙ take-append_left (length a) c d (sym wide)),
  sym (drop-append_left (length a) a b refl)
      ∙ (ap (drop (length a)) e ∙ drop-append_left (length a) c d (sym wide)),
)

-- A signature covers all of an entry but its visibility: two entries whose IDs have 16 bytes and whose
-- edges have 33 have the same binary form exactly if their IDs, edges and types are the same.
pub to_binary_covers :
    (d e : Entry)
    → HasSizes d
    → HasSizes e
    → (to_binary d ≡ to_binary e) ↔ ((d.id ≡ e.id) × (d.edges ≡ e.edges) × (d.tp_type ≡ e.tp_type))
unfolding to_binary
to_binary_covers d e p q = (
  λ same.
      let (ids, rest) = append-inj d.id _ e.id _ (p.id_size ∙ sym q.id_size) same in
      let (firsts, rest) =
        append-inj d.edges.0 _ e.edges.0 _ (p.first_size ∙ sym q.first_size) rest in
      let (seconds, types) =
        append-inj d.edges.1 _ e.edges.1 _ (p.second_size ∙ sym q.second_size) rest in
      (ids, rw (firsts, seconds) refl, types),
  λ h. rw (h.0, h.1, h.2) refl,
)
