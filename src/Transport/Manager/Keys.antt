-- ===== src/Transport/Manager/Keys.antt =====
-- manager.go: the map of transports has each of them under the ID of its two keys and its network.
use skywire_mainnet_old.Base.{
  Bool, Bool-cases, Bytes, Map, Option, Outcome, [], ap, arith, contains, err, false, if◌then◌else◌,
  inl, inr, insert, list_beq_iff, list_eq, lookup, nat_eq, none, ok, panic, refl, remove, some, sym,
  true, wrong_network, ◌==◌, ◌∙◌, ◌∷◌, ◌≡◌,
}
use mathlib.Core.Path.{subst}
use skywire_mainnet_old.Base.Step.{Step, pure}
use skywire_mainnet_old.Routing.Addr.{PubKey, TransportId}
use skywire_mainnet_old.Transport.Entry.{SecKey, Cipher, make_transport_id}
use skywire_mainnet_old.Transport.Discovery.{Discovery}
use skywire_mainnet_old.Transport.Handshake.{Conn, EntryJson, make_entry}
use skywire_mainnet_old.Transport.Managed.{
  ManagedTransport, MtState, log_sent, log_recv, accept, close_once, serve_end,
}
use skywire_mainnet_old.Transport.Managed.Keeping.{
  IsLoose, Keeps, Keeps-accept, Keeps-bind, Keeps-if,
}
use skywire_mainnet_old.Transport.Managed.Ending.{Keeps-serve_end}
use skywire_mainnet_old.Transport.Manager.{
  Manager, run_on, on_held, put_if_ok, new_transport, accept_on, accept_transport, save_on,
  save_transport,
}

pub Keeps-close_once :
    {D : Type 0} (P : ManagedTransport → Type 0)
    → IsLoose P
    → ((mt : ManagedTransport) → P mt → P (record mt { done = true }))
    → Keeps {D = D} P close_once
unfolding close_once
Keeps-close_once P loose over s p =
    Keeps-if P s.tp.done _ _ (λ t q. q)
      (λ t q.
        Keeps-bind P serve_end (λ u. pure true) (Keeps-serve_end P loose) (λ u t q. q)
          (record t { tp = record (t.tp) { done = true } }) (over t.tp q))
      s p

pub some-inj : {A : Type 0} {a b : A} → some a ≡ some b → a ≡ b
some-inj h = ground arith

-- A property of each entry of the map.
abbrev pub Each :
    (TransportId → ManagedTransport → Type 0) → Map TransportId ManagedTransport → Type 0
Each P [] = Unit
Each P ((id, tp) ∷ m) = P id tp × Each P m

module _ (P : TransportId → ManagedTransport → Type 0) where
  pub Each-lookup :
      (id : TransportId) (tp : ManagedTransport) (m : Map TransportId ManagedTransport)
      → Each P m
      → lookup id m ≡ some tp
      → P id tp
  unfolding lookup
  Each-lookup id tp [] h q = cc
  Each-lookup id tp ((j, v) ∷ m) h q = elim (Bool-cases (j == id)) [
    | inl same ↦
        subst (λ x. P x tp) ((list_beq_iff j id).0 same)
          (subst (P j) (some-inj (sym (ap (λ b. if b then some v else lookup id m) same) ∙ q)) h.0)
    | inr other ↦
        Each-lookup id tp m h.1 (sym (ap (λ b. if b then some v else lookup id m) other) ∙ q)
  ]

  pub Each-insert :
      (id : TransportId) (tp : ManagedTransport) (m : Map TransportId ManagedTransport)
      → Each P m
      → P id tp
      → Each P (insert id tp m)
  unfolding insert
  Each-insert id tp [] h p = (p, tt)
  Each-insert id tp ((j, v) ∷ m) h p = elim (Bool-cases (j == id)) [
    | inl same ↦ rw same (p, h.1)
    | inr other ↦ rw other (h.0, Each-insert id tp m h.1 p)
  ]

  pub Each-remove :
      (id : TransportId) (m : Map TransportId ManagedTransport) → Each P m → Each P (remove id m)
  unfolding remove
  Each-remove id [] h = h
  Each-remove id ((j, v) ∷ m) h = elim (Bool-cases (j == id)) [
    | inl same ↦ rw same (Each-remove id m h.1)
    | inr other ↦ rw other (h.0, Each-remove id m h.1)
  ]

-- Either branch of a test.
pub if_either {ℓ} :
    {D : Type 0} {A : Type ℓ} (P : Manager D → Type 0) (b : Bool) (m n : Step (Manager D) A)
    (s : Manager D)
    → P ((m s).0)
    → P ((n s).0)
    → P (((if b then m else n) s).0)
if_either P true m n s p q = p
if_either P false m n s p q = q

module _ (new_hash : Bytes → TransportId) (cipher : Cipher) (json : EntryJson) (own_pk : PubKey)
    (own_sk : SecKey) {D : Type 0} (discovery : Discovery D) where
  -- The transport is the one of these two keys and this network.
  abbrev pub IsKeyed : TransportId → ManagedTransport → Type 0
  IsKeyed id tp =
      (id ≡ make_transport_id new_hash own_pk tp.remote_pk tp.net_name)
      × (tp.entry ≡ make_entry new_hash cipher json own_pk tp.remote_pk tp.net_name)

  pub IsKeyed-IsLoose : (id : TransportId) → IsLoose (IsKeyed id)
  unfolding log_sent log_recv
  IsKeyed-IsLoose id = record {
    any_conn = λ mt c h. h;
    any_signal = λ mt b h. h;
    no_updates = λ mt h. h;
    sent = λ mt n h. h;
    received = λ mt n h. h;
  }

  pub put_if_ok-IsKeyed :
      (id : TransportId) (r : ManagedTransport × Manager D × Outcome (Unit {0}))
      → Each IsKeyed (r.1.tps)
      → IsKeyed id r.0
      → Each IsKeyed ((put_if_ok id r).0.tps)
  unfolding put_if_ok
  put_if_ok-IsKeyed id (tp, s, ok u) h k = Each-insert IsKeyed id tp s.tps h k
  put_if_ok-IsKeyed id (tp, s, err e) h k = h
  put_if_ok-IsKeyed id (tp, s, panic) h k = h

  pub new_transport-IsKeyed :
      (remote : PubKey) (net : Bytes)
      → IsKeyed
          (make_transport_id new_hash own_pk remote net)
          (new_transport new_hash cipher json own_pk own_sk discovery remote net)
  new_transport-IsKeyed remote net = (refl, refl)

  pub save_on-IsKeyed :
      (o : Option ManagedTransport) (remote : PubKey) (net : Bytes) (s : Manager D)
      → Each IsKeyed s.tps
      → Each IsKeyed (
          (save_on new_hash cipher json own_pk own_sk discovery
            (make_transport_id new_hash own_pk remote net)
            o
            remote
            net
            s).0.tps)
  unfolding save_on
  save_on-IsKeyed none remote net s h =
      Each-insert IsKeyed _ _ s.tps h (new_transport-IsKeyed remote net)
  save_on-IsKeyed (some tp) remote net s h = h

  pub accept_wrong :
      (expired : Bool) (conn : Conn) (t : MtState D)
      → (conn.network == t.tp.net_name) ≡ false
      → accept new_hash cipher json own_sk discovery expired conn t ≡ (t, err wrong_network)
  unfolding accept
  accept_wrong expired conn t other = rw other refl

  -- A new transport accepts a connection of its own network only.
  pub accept_on-IsKeyed_new :
      (net : Bytes) (expired : Bool) (conn : Conn) (s : Manager D)
      → Each IsKeyed s.tps
      → Each IsKeyed (
          (accept_on new_hash cipher json own_pk own_sk discovery
            (make_transport_id new_hash own_pk conn.remote_pk conn.network)
            none
            net
            expired
            conn
            s).0.tps)
  unfolding accept_on run_on put_if_ok
  accept_on-IsKeyed_new net expired conn s h = elim (Bool-cases (conn.network == net)) [
    | inl same ↦ put_if_ok-IsKeyed _ _ h (
        Keeps-accept new_hash cipher json own_sk discovery _ (IsKeyed-IsLoose _) expired conn _ (
          subst
            (λ n.
              IsKeyed (make_transport_id new_hash own_pk conn.remote_pk n)
                (new_transport new_hash cipher json own_pk own_sk discovery conn.remote_pk net))
            (sym ((list_beq_iff conn.network net).0 same))
            (new_transport-IsKeyed conn.remote_pk net)))
    | inr other ↦
        subst
          (λ q. Each IsKeyed (
            (put_if_ok (make_transport_id new_hash own_pk conn.remote_pk conn.network) (
              q.0.tp,
              record s { dc = q.0.dc; closed = q.0.closed; recorded = q.0.recorded },
              q.1,
            )).0.tps))
          (sym (
            accept_wrong expired conn
              (record {
                tp = new_transport new_hash cipher json own_pk own_sk discovery conn.remote_pk net;
                dc = s.dc;
                closed = s.closed;
                recorded = s.recorded;
              })
              other))
          h
  ]

  pub on_held-IsKeyed {ℓ} :
      {A : Type ℓ} (id : TransportId) (tp : ManagedTransport) (m : Step (MtState D) A)
      → Keeps (IsKeyed id) m
      → (s : Manager D) → Each IsKeyed s.tps
      → IsKeyed id tp
      → Each IsKeyed ((on_held id tp m s).0.tps)
  unfolding on_held run_on
  on_held-IsKeyed id tp m keeps s h k = Each-insert IsKeyed id _ s.tps h (keeps _ k)

  pub accept_on-IsKeyed :
      (o : Option ManagedTransport) (net : Bytes) (expired : Bool) (conn : Conn) (s : Manager D)
      → Each IsKeyed s.tps
      → lookup (make_transport_id new_hash own_pk conn.remote_pk conn.network) s.tps ≡ o
      → Each IsKeyed (
          (accept_on new_hash cipher json own_pk own_sk discovery
            (make_transport_id new_hash own_pk conn.remote_pk conn.network)
            o
            net
            expired
            conn
            s).0.tps)
  unfolding accept_on
  accept_on-IsKeyed none net expired conn s h q = accept_on-IsKeyed_new net expired conn s h
  accept_on-IsKeyed (some tp) net expired conn s h q =
      on_held-IsKeyed _ tp (accept new_hash cipher json own_sk discovery expired conn)
        (Keeps-accept new_hash cipher json own_sk discovery _ (IsKeyed-IsLoose _) expired conn) s h
        (Each-lookup IsKeyed _ tp s.tps h q)

  pub accept_transport-IsKeyed :
      (net : Bytes) (expired : Bool) (accepted : Outcome Conn) (s : Manager D)
      → Each IsKeyed s.tps
      → Each IsKeyed (
          (accept_transport new_hash cipher json own_pk own_sk discovery net expired accepted
            s).0.tps)
  unfolding accept_transport
  accept_transport-IsKeyed net expired (err e) s h = h
  accept_transport-IsKeyed net expired panic s h = h
  accept_transport-IsKeyed net expired (ok conn) s h =
      if_either (λ t. Each IsKeyed t.tps) s.closing _ _ s h
        (accept_on-IsKeyed _ net expired conn s h refl)

  pub save_transport-IsKeyed :
      (remote : PubKey) (net : Bytes) (s : Manager D)
      → Each IsKeyed s.tps
      → Each IsKeyed
          ((save_transport new_hash cipher json own_pk own_sk discovery remote net s).0.tps)
  unfolding save_transport
  save_transport-IsKeyed remote net s h =
      if_either (λ t. Each IsKeyed t.tps) (contains net s.nets) _ _ s
        (save_on-IsKeyed (lookup (make_transport_id new_hash own_pk remote net) s.tps) remote net s
          h)
        h
