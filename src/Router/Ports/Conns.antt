-- ===== src/Router/Ports/Conns.antt =====
-- port_manager.go: AppConns and AppPorts list the connections and the ports of the binds.
use skywire_mainnet_old.Base.{
  ◌≡◌, ◌↔◌, refl, sym, Bool, true, false, ◌||◌, List, [], ◌∷◌, ◌++◌, Option, none, some, Map,
  lookup, nat_eq, if◌then◌else◌, nat_beq, nat_beq_iff, contains, contains-append, arith, ◌∙◌,
  Distinct, inl, inr, Bool-cases,
}
use skywire_mainnet_old.Routing.Addr.{Port}
use skywire_mainnet_old.Router.Ports.{
  PortBind, PortList, ConnId, app_conns, app_conns_loop, app_ports, app_ports_loop, get_port,
}

-- Whether the bind under a port belongs to a connection.
abbrev pub is_of : ConnId → Option PortBind → Bool
is_of conn none = false
is_of conn (some b) = nat_beq b.conn conn

app_ports_loop-contains :
    (conn : ConnId) (ports : Map Port PortBind) (res : List Port) (p : Port)
    → Distinct ports
    → contains p (app_ports_loop conn ports res) ≡ (contains p res || is_of conn (lookup p ports))
unfolding app_ports_loop lookup contains
app_ports_loop-contains conn [] res p d = ground arith
app_ports_loop-contains conn ((q, b) ∷ ports) res p d = ground (
  arith,
  app_ports_loop-contains conn ports (res ++ q ∷ []) p d.1,
  app_ports_loop-contains conn ports res p d.1,
  contains-append p res (q ∷ []),
  nat_beq_iff q p,
)

-- On a port list with one entry for each port, AppPorts lists a port exactly when the port is bound
-- to that connection.
pub app_ports-contains :
    (conn : ConnId) (pm : PortList) (p : Port)
    → Distinct pm.ports
    → contains p (app_ports conn pm) ≡ is_of conn (get_port p pm)
unfolding app_ports get_port
app_ports-contains conn pm p d =
    app_ports_loop-contains conn pm.ports [] p d ∙ unfold contains in refl

-- No entry stands twice.
abbrev pub NoRepeat : List ConnId → Type 0
NoRepeat [] = Unit
NoRepeat (x ∷ xs) = (contains x xs ≡ false) × NoRepeat xs

NoRepeat-snoc :
    (x : ConnId) (xs : List ConnId) → contains x xs ≡ false → NoRepeat xs → NoRepeat (xs ++ x ∷ [])
unfolding contains
NoRepeat-snoc x [] h d = (refl, tt)
NoRepeat-snoc x (y ∷ xs) h d = (
  ground (arith, contains-append y xs (x ∷ []), nat_beq_iff y x, nat_beq_iff x y),
  NoRepeat-snoc x xs (ground arith) d.1,
)

-- Some bind belongs to the connection.
abbrev owns : ConnId → Map Port PortBind → Bool
owns c [] = false
owns c ((p, b) ∷ ports) = nat_beq b.conn c || owns c ports

-- AppConns keeps one set in two forms.
abbrev SameSet : List ConnId → List ConnId → Type 0
SameSet set res = (c : ConnId) → contains c set ≡ contains c res

SameSet-add :
    (x : ConnId) (set res : List ConnId) → SameSet set res → SameSet (x ∷ set) (res ++ x ∷ [])
unfolding contains
SameSet-add x set res h c = ground (arith, h c, contains-append c res (x ∷ []))

app_conns_loop-contains :
    (ports : Map Port PortBind) (set res : List ConnId) (c : ConnId)
    → SameSet set res
    → contains c (app_conns_loop ports set res) ≡ (contains c res || owns c ports)
unfolding app_conns_loop
app_conns_loop-contains [] set res c h = ground arith
app_conns_loop-contains ((p, b) ∷ ports) set res c h = elim (Bool-cases (contains b.conn set)) [
  | inl seen ↦ rw seen (
      app_conns_loop-contains ports set res c h
      ∙ ground (arith, h c, nat_beq_iff b.conn c, h b.conn))
  | inr fresh ↦ rw fresh (
      app_conns_loop-contains ports (b.conn ∷ set) (res ++ b.conn ∷ []) c
        (SameSet-add b.conn set res h)
      ∙ unfold contains in ground (arith, contains-append c res (b.conn ∷ [])))
]

app_conns_loop-NoRepeat :
    (ports : Map Port PortBind) (set res : List ConnId)
    → SameSet set res
    → NoRepeat res
    → NoRepeat (app_conns_loop ports set res)
unfolding app_conns_loop
app_conns_loop-NoRepeat [] set res h d = d
app_conns_loop-NoRepeat ((p, b) ∷ ports) set res h d = elim (Bool-cases (contains b.conn set)) [
  | inl seen ↦ rw seen (app_conns_loop-NoRepeat ports set res h d)
  | inr fresh ↦ rw fresh (
      app_conns_loop-NoRepeat ports (b.conn ∷ set) (res ++ b.conn ∷ [])
        (SameSet-add b.conn set res h) (NoRepeat-snoc b.conn res (sym (h b.conn) ∙ fresh) d))
]

module _ (c : ConnId) (q : Port) (b : PortBind) (ports : Map Port PortBind) where
  abbrev head_or_rest : Port → Option PortBind
  head_or_rest p = if nat_beq q p then some b else lookup p ports

  found_later :
      (p : Port) (b' : PortBind)
      → lookup q ports ≡ none
      → lookup p ports ≡ some b'
      → head_or_rest p ≡ some b'
  found_later p b' first e = ground (arith, nat_beq_iff q p)

  found_there :
      (p : Port) (b' : PortBind)
      → (lookup p ports ≡ some b' → b'.conn ≡ c → owns c ports ≡ true)
      → head_or_rest p ≡ some b'
      → b'.conn ≡ c
      → (nat_beq b.conn c || owns c ports) ≡ true
  found_there p b' rest e k = ground arith

owns-lookup :
    (c : ConnId) (ports : Map Port PortBind)
    → Distinct ports
    → (owns c ports ≡ true)
      ↔ ((p : Port) × (b : PortBind) × (lookup p ports ≡ some b) × (b.conn ≡ c))
unfolding lookup
owns-lookup c [] d = (λ h. cc, λ h. cc (h.2))
owns-lookup c ((q, b) ∷ ports) d = (
  λ h. elim (Bool-cases (nat_beq b.conn c)) [
    | inl mine ↦ (q, b, rw ((nat_beq_iff q q).1 refl), ground arith)
    | inr other ↦
        let (p, b', e, k) = (owns-lookup c ports d.1).0 (rw other at h) in
        (p, b', found_later c q b ports p b' d.0 e, k)
  ],
  λ h.
      let (p, b', e, k) = h in
      found_there c q b ports p b' (λ x y. (owns-lookup c ports d.1).1 (p, b', x, y)) e k,
)

-- On a port list with one entry for each port, AppConns lists each connection once, and lists
-- exactly the connections that some port is bound to.
pub app_conns_lem :
    (pm : PortList) (c : ConnId)
    → Distinct pm.ports
    → NoRepeat (app_conns pm)
      × ((contains c (app_conns pm) ≡ true)
          ↔ ((p : Port) × (b : PortBind) × (get_port p pm ≡ some b) × (b.conn ≡ c)))
unfolding app_conns get_port
app_conns_lem pm c d = (
  app_conns_loop-NoRepeat pm.ports [] [] (λ x. refl) tt,
  rw (app_conns_loop-contains pm.ports [] [] c (λ x. refl))
      (unfold contains in owns-lookup c pm.ports d),
)
