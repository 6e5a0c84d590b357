-- ===== src/Transport/Entry/Edges.antt =====
-- entry.go: the two ends of a transport make the same entry.
use skywire_mainnet_old.Base.{
  AllBytes, Bool, Bool-cases, Bytes, arith, beq_refl, from_be, from_be-inj, inl, inr, length,
  list_beq_iff, list_eq, ltb, nat_eq, refl, sym, true, ◌↔◌, ◌≡◌, ◌≢◌, ◌⊎◌,
}
use skywire_mainnet_old.Routing.Addr.{PubKey, TransportId}
use skywire_mainnet_old.Transport.Entry.{
  Entry, sort_edges, make_transport_id, new_entry, remote_edge, has_edge,
}

pub record IsKey (pk : PubKey) : Type 0 where
  pub size : length pk ≡ 33
  pub bytes : AllBytes pk

pub sort_edges_comm : (a b : PubKey) → IsKey a → IsKey b → sort_edges a b ≡ sort_edges b a
unfolding sort_edges
sort_edges_comm a b p q =
    ground (arith, from_be-inj a b (ground (arith, p.size, q.size)) p.bytes q.bytes)

sort_edges_cases : (a b : PubKey) → (sort_edges a b ≡ (a, b)) ⊎ (sort_edges a b ≡ (b, a))
unfolding sort_edges
sort_edges_cases a b = elim (Bool-cases (ltb (from_be a) (from_be b))) [
  | inl less ↦ inl (rw less refl)
  | inr other ↦ inr (rw other refl)
]

module _ (e : Entry) (x y : PubKey) (is : e.edges ≡ (x, y)) where
  remote_edge_first : remote_edge x e ≡ y
  unfolding remote_edge
  remote_edge_first = rw is (rw (beq_refl x) (ground (arith, list_beq_iff y x)))

  remote_edge_second : x ≢ y → remote_edge y e ≡ x
  unfolding remote_edge
  remote_edge_second ne = rw is (ground (arith, list_beq_iff x y))

  has_edge_iff : (pk : PubKey) → (has_edge pk e ≡ true) ↔ ((pk ≡ x) ⊎ (pk ≡ y))
  unfolding has_edge
  has_edge_iff pk = rw is (ground (arith, list_beq_iff x pk, list_beq_iff y pk))

abbrev pub HasEnds : Entry → PubKey → PubKey → Type 0
HasEnds e a b =
    (remote_edge a e ≡ b)
    × (remote_edge b e ≡ a)
    × ((pk : PubKey) → (has_edge pk e ≡ true) ↔ ((pk ≡ a) ⊎ (pk ≡ b)))

swapped : {P Q : Type 0} → P ⊎ Q → Q ⊎ P
swapped (inl p) = inr p
swapped (inr q) = inl q

edges-HasEnds :
    (e : Entry) (a b : PubKey) → a ≢ b → (e.edges ≡ (a, b)) ⊎ (e.edges ≡ (b, a)) → HasEnds e a b
edges-HasEnds e a b ne (inl is) =
    (remote_edge_first e a b is, remote_edge_second e a b is ne, has_edge_iff e a b is)
edges-HasEnds e a b ne (inr is) = (
  remote_edge_second e b a is (λ r. ne (sym r)),
  remote_edge_first e b a is,
  λ pk. (
    λ h. swapped ((has_edge_iff e b a is pk).0 h),
    λ h. (has_edge_iff e b a is pk).1 (swapped h),
  ),
)

-- NewEntry gives the two ends of a transport, each of which names itself first, the same entry: the
-- same ID, edges, type and visibility. Its edges are exactly the two keys, and from each end
-- RemoteEdge is the other one. The keys are different keys of 33 bytes.
pub new_entry_symmetric :
    (new_hash : Bytes → TransportId) (a b : PubKey) (tp_type : Bytes) (public : Bool)
    → IsKey a
    → IsKey b
    → a ≢ b
    → (new_entry new_hash a b tp_type public ≡ new_entry new_hash b a tp_type public)
      × HasEnds (new_entry new_hash a b tp_type public) a b
unfolding new_entry make_transport_id
new_entry_symmetric new_hash a b tp_type public p q ne = (
  rw (sort_edges_comm a b p q) refl,
  edges-HasEnds (new_entry new_hash a b tp_type public) a b ne (sort_edges_cases a b),
)
