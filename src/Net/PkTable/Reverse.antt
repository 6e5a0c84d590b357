-- ===== src/Net/PkTable/Reverse.antt =====
-- pktable.go: the two maps of a table agree.
use skywire_mainnet_old.Base.{
  Bool-cases, Bytes, Distinct, Map, Option-cases, [], ap, arith, false, inl, inr, insert,
  list_beq_iff, list_eq, lookup, lookup-insert, lookup-insert_self, nat_eq, none, refl, some, sym,
  true, ◌==◌, ◌∙◌, ◌∷◌, ◌≡◌, ◌≢◌, ◌⊎◌,
}
use skywire_mainnet_old.Routing.Addr.{PubKey}
use skywire_mainnet_old.Net.PkTable.{reverse_all, new_table, addr, pub_key}

reverse_all_sound :
    (m : Map PubKey Bytes) (r : Map Bytes PubKey) (a : Bytes) (pk : PubKey)
    → Distinct m
    → lookup a (reverse_all m r) ≡ some pk
    → (lookup pk m ≡ some a) ⊎ (lookup a r ≡ some pk)
unfolding reverse_all lookup
reverse_all_sound [] r a pk d h = inr h
reverse_all_sound ((k, v) ∷ m) r a pk d h = elim (reverse_all_sound m (insert v k r) a pk d.1 h) [
  | inl later ↦ inl (ground (arith, list_beq_iff k pk))
  | inr now ↦ elim (Bool-cases (v == a)) [
    | inl same ↦
        inl (ground (arith, sym (lookup-insert v a k r) ∙ now, list_beq_iff v a, list_beq_iff k pk))
    | inr other ↦ inr (ground (arith, sym (lookup-insert v a k r) ∙ now))
  ]
]

reverse_all_keeps :
    (m : Map PubKey Bytes) (r : Map Bytes PubKey) (a : Bytes) (pk : PubKey)
    → lookup a r ≡ some pk
    → (pk' : PubKey) × (lookup a (reverse_all m r) ≡ some pk')
unfolding reverse_all
reverse_all_keeps [] r a pk h = (pk, h)
reverse_all_keeps ((k, v) ∷ m) r a pk h = elim (Bool-cases (v == a)) [
  | inl same ↦ reverse_all_keeps m (insert v k r) a k (lookup-insert v a k r ∙ (rw same refl))
  | inr other ↦ reverse_all_keeps m (insert v k r) a pk (lookup-insert v a k r ∙ (rw other h))
]

first_addr :
    (k pk : PubKey) (v a : Bytes) (m : Map PubKey Bytes)
    → (k == pk) ≡ true
    → lookup pk ((k, v) ∷ m) ≡ some a
    → v ≡ a
unfolding lookup
first_addr k pk v a m same h = ground (arith)

later_addr :
    (k pk : PubKey) (v : Bytes) (m : Map PubKey Bytes)
    → (k == pk) ≡ false
    → lookup pk ((k, v) ∷ m) ≡ lookup pk m
unfolding lookup
later_addr k pk v m other = rw other refl

no_addr : (pk : PubKey) (a : Bytes) → lookup {V = Bytes} pk [] ≡ some a → ⊥
unfolding lookup
no_addr pk a h = cc

absent_ne : {A : Type 0} {x : A} → none ≡ some x → ⊥
absent_ne h = cc

reverse_all_complete :
    (m : Map PubKey Bytes) (r : Map Bytes PubKey) (a : Bytes) (pk : PubKey)
    → lookup pk m ≡ some a
    → (pk' : PubKey) × (lookup a (reverse_all m r) ≡ some pk')
unfolding reverse_all
reverse_all_complete [] r a pk h = absurd (no_addr pk a h)
reverse_all_complete ((k, v) ∷ m) r a pk h = elim (Bool-cases (k == pk)) [
  | inl same ↦
      reverse_all_keeps m (insert v k r) a k (
        ap (λ x. lookup a (insert x k r)) (first_addr k pk v a m same h) ∙ lookup-insert_self a k r)
  | inr other ↦ reverse_all_complete m (insert v k r) a pk (sym (later_addr k pk v m other) ∙ h)
]

-- The two maps of a table with one entry for a key agree. For each address, either PubKey gives a key
-- and Addr gives this address for the key, or PubKey gives none and no key has this address. Where
-- several keys share an address, PubKey gives one of them.
pub new_table-pub_key :
    (entries : Map PubKey Bytes) (a : Bytes)
    → Distinct entries
    → ((pk : PubKey) × (pub_key a (new_table entries) ≡ some pk)
        × (addr pk (new_table entries) ≡ some a))
      ⊎ ((pub_key a (new_table entries) ≡ none)
          × ((pk : PubKey) → addr pk (new_table entries) ≢ some a))
unfolding new_table addr pub_key
new_table-pub_key entries a d = elim (Option-cases (lookup a (reverse_all entries []))) [
  | inl absent ↦ inr (
    absent,
    λ pk h. let (pk', q) = reverse_all_complete entries [] a pk h in absent_ne (sym absent ∙ q),
  )
  | inr (pk, found) ↦ inl (
    pk,
    found,
    elim (reverse_all_sound entries [] a pk d found) [
      | inl q ↦ q
      | inr q ↦ absurd (no_addr a pk q)
    ],
  )
]
