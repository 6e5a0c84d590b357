-- ===== src/Transport/Manager/Final.antt =====
-- manager.go: what initTransports does to a manager that is closing.
use skywire_mainnet_old.Base.{
  Bool-cases, Bytes, List, Option, Outcome, [], ap, contains, err, inl, inr, list_beq_iff, list_eq,
  lookup, lookup-insert, nat_eq, none, ok, panic, refl, some, sym, true, ◌==◌, ◌∙◌, ◌∷◌, ◌≡◌, ◌⊎◌,
}
use skywire_mainnet_old.Base.Step.{Step, after}
use skywire_mainnet_old.Routing.Addr.{PubKey, TransportId}
use skywire_mainnet_old.Transport.Entry.{SecKey, Cipher, make_transport_id, remote_edge}
use skywire_mainnet_old.Transport.Discovery.{Discovery, EntryWithStatus}
use skywire_mainnet_old.Transport.Handshake.{EntryJson}
use skywire_mainnet_old.Transport.Managed.{ManagedTransport}
use skywire_mainnet_old.Transport.Manager.{
  Manager, new_transport, save_on, save_transport, init_all, init_from, init_transports,
}
use skywire_mainnet_old.Transport.Manager.Keys.{if_either, some-inj}

absent_some : {A : Type 0} {a : A} → none ≡ some a → ⊥
absent_some h = cc

module _ (new_hash : Bytes → TransportId) (cipher : Cipher) (json : EntryJson) (own_pk : PubKey)
    (own_sk : SecKey) {D : Type 0} (discovery : Discovery D) where
  -- What can become of a manager that is closing. Its transports stay, as they are; the others are new
  -- ones, without a connection; and no connection is closed and no log entry recorded.
  pub record IsFinal (c t : Manager D) : Type 0 where
    pub shut : t.closing ≡ true
    pub stays :
        (id : TransportId) (tp : ManagedTransport)
        → lookup id c.tps ≡ some tp
        → lookup id t.tps ≡ some tp
    pub others :
        (id : TransportId) (tp : ManagedTransport)
        → lookup id t.tps ≡ some tp
        → (lookup id c.tps ≡ some tp)
          ⊎ ((remote : PubKey) × (net : Bytes) × (tp
                ≡ new_transport new_hash cipher json own_pk own_sk discovery remote net))
    pub conns : t.closed ≡ c.closed
    pub records : t.recorded ≡ c.recorded

  IsFinal-save_on :
      (c s : Manager D) (id : TransportId) (o : Option ManagedTransport) (remote : PubKey)
      (net : Bytes)
      → lookup id s.tps ≡ o
      → IsFinal c s
      → IsFinal c (save_on new_hash cipher json own_pk own_sk discovery id o remote net s).0
  unfolding save_on
  IsFinal-save_on c s id (some tp) remote net q f = f
  IsFinal-save_on c s id none remote net q f = record {
    shut = f.shut;
    stays = λ j tp found. elim (Bool-cases (id == j)) [
      | inl same ↦ absurd (
          absent_some
            (sym q ∙ ap (λ k. lookup k s.tps) ((list_beq_iff id j).0 same) ∙ f.stays j tp found))
      | inr other ↦ rw (lookup-insert id j made s.tps, other) (f.stays j tp found)
    ];
    others = λ j tp found. elim (Bool-cases (id == j)) [
      | inl same ↦
          inr (remote, net, some-inj (sym found ∙ rw (lookup-insert id j made s.tps, same) refl))
      | inr other ↦ f.others j tp (sym (rw (lookup-insert id j made s.tps, other) refl) ∙ found)
    ];
    conns = f.conns;
    records = f.records;
  }
    where
      made : ManagedTransport
      made = new_transport new_hash cipher json own_pk own_sk discovery remote net

  IsFinal-save_transport :
      (c s : Manager D) (remote : PubKey) (net : Bytes)
      → IsFinal c s
      → IsFinal c (save_transport new_hash cipher json own_pk own_sk discovery remote net s).0
  unfolding save_transport
  IsFinal-save_transport c s remote net f =
      if_either (IsFinal c) (contains net s.nets) _ _ s
        (IsFinal-save_on c s _ (lookup (make_transport_id new_hash own_pk remote net) s.tps) remote
          net refl f)
        f

  IsFinal-after :
      (c : Manager D) (r : Manager D × Outcome (Unit {0})) (f : Step (Manager D) (Unit {0}))
      → IsFinal c r.0
      → ((t : Manager D) → IsFinal c t → IsFinal c (f t).0)
      → IsFinal c (after r (λ _. f)).0
  IsFinal-after c (s, ok a) f h k = k s h
  IsFinal-after c (s, err e) f h k = h
  IsFinal-after c (s, panic) f h k = h

  IsFinal-init_all :
      (c : Manager D) (es : List EntryWithStatus) (s : Manager D)
      → IsFinal c s
      → IsFinal c (init_all new_hash cipher json own_pk own_sk discovery es s).0
  unfolding init_all
  IsFinal-init_all c [] s f = f
  IsFinal-init_all c (e ∷ es) s f =
      IsFinal-after c _ (init_all new_hash cipher json own_pk own_sk discovery es)
        (IsFinal-save_transport c s (remote_edge own_pk e.entry) e.entry.tp_type f)
        (IsFinal-init_all c es)

  IsFinal-init_from :
      (c : Manager D) (r : Outcome (List EntryWithStatus)) (s : Manager D)
      → IsFinal c s
      → IsFinal c (init_from new_hash cipher json own_pk own_sk discovery r s).0
  unfolding init_from
  IsFinal-init_from c (ok es) s f = IsFinal-init_all c es s f
  IsFinal-init_from c (err e) s f = f
  IsFinal-init_from c panic s f = f

  pub IsFinal-init_transports :
      (c s : Manager D)
      → IsFinal c s
      → IsFinal c (init_transports new_hash cipher json own_pk own_sk discovery s).0
  unfolding init_transports
  IsFinal-init_transports c s f =
      let (d, r) = discovery.get_transports_by_edge own_pk s.dc in
      IsFinal-init_from c r (record s { dc = d })
        (record {
          shut = f.shut;
          stays = f.stays;
          others = f.others;
          conns = f.conns;
          records = f.records;
        })
