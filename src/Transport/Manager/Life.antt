-- ===== src/Transport/Manager/Life.antt =====
-- manager.go: the life of a manager as steps.
use skywire_mainnet_old.Base.{Bool, Bytes, List, Outcome, ap, list_eq, nat_eq, some, sym, ◌∙◌, ◌≡◌}
use skywire_mainnet_old.Routing.Addr.{PubKey, TransportId}
use skywire_mainnet_old.Transport.Entry.{SecKey, Cipher, make_transport_id, new_entry}
use skywire_mainnet_old.Transport.Discovery.{Discovery}
use skywire_mainnet_old.Transport.Handshake.{Conn, EntryJson, make_entry}
use skywire_mainnet_old.Transport.Managed.{ManagedTransport}
use skywire_mainnet_old.Transport.Manager.{
  Manager, new_manager, accept_transport, save_and_dial, init_transports, delete_transport, close,
  transport,
}
use skywire_mainnet_old.Transport.Manager.Keys.{
  Each, Each-lookup, IsKeyed, accept_transport-IsKeyed,
}
use skywire_mainnet_old.Transport.Manager.Calls.{
  save_and_dial-Keyed, init_transports-Keyed, delete_transport-Keyed, close-Keyed,
}

module _ (new_hash : Bytes → TransportId) (cipher : Cipher) (json : EntryJson) (own_pk : PubKey)
    (own_sk : SecKey) {D : Type 0} (discovery : Discovery D) where
  -- One call of a method. Serve calls initTransports at its start, whether the manager is closing or not.
  pub data Event (s : Manager D) : Manager D → Type 0 where
    accepts :
        (net : Bytes) (expired : Bool) (accepted : Outcome Conn)
        → Event s
            (accept_transport new_hash cipher json own_pk own_sk discovery net expired accepted s).0
    saves :
        (remote : PubKey) (net : Bytes) (expired : Bool) (dialled : Outcome Conn)
        → Event s
            (save_and_dial new_hash cipher json own_pk own_sk discovery remote net expired dialled
              s).0
    starts : Event s (init_transports new_hash cipher json own_pk own_sk discovery s).0
    deletes :
        (id : TransportId)
        → Event s (delete_transport new_hash cipher json own_pk own_sk discovery id s).0
    closes : Event s (close new_hash cipher json own_pk own_sk discovery s).0

  pub data Reach (s : Manager D) : Manager D → Type 0 where
    here : Reach s s
    next : {t u : Manager D} → Reach s t → Event t u → Reach s u

  abbrev Keyed : TransportId → ManagedTransport → Type 0
  Keyed = IsKeyed new_hash cipher json own_pk own_sk discovery

  Event-Keyed : (s t : Manager D) → Event s t → Each Keyed s.tps → Each Keyed t.tps
  Event-Keyed s _ (accepts net expired o) h =
      accept_transport-IsKeyed new_hash cipher json own_pk own_sk discovery net expired o s h
  Event-Keyed s _ (saves remote net expired o) h =
      save_and_dial-Keyed new_hash cipher json own_pk own_sk discovery remote net expired o s h
  Event-Keyed s _ starts h = init_transports-Keyed new_hash cipher json own_pk own_sk discovery s h
  Event-Keyed s _ (deletes id) h =
      delete_transport-Keyed new_hash cipher json own_pk own_sk discovery id s h
  Event-Keyed s _ closes h = close-Keyed new_hash cipher json own_pk own_sk discovery s h

  Reach-Keyed : (s t : Manager D) → Reach s t → Each Keyed s.tps → Each Keyed t.tps
  Reach-Keyed s _ here h = h
  Reach-Keyed s _ (next {t} {u} r e) h = Event-Keyed t u e (Reach-Keyed s t r h)

  -- After any calls of the methods of a new manager, in any order: a transport that Transport finds
  -- under an ID was made for the two keys and the network whose transport ID this is, and its entry is
  -- the entry of these keys and this network, so the entry's own ID is the ID it was found under.
  pub new_manager-transport :
      (nets : List Bytes) (dc : D) (s : Manager D) (id : TransportId) (tp : ManagedTransport)
      → Reach (new_manager nets dc) s
      → transport new_hash cipher json own_pk own_sk discovery id s ≡ some tp
      → (id ≡ make_transport_id new_hash own_pk tp.remote_pk tp.net_name)
        × (tp.entry ≡ make_entry new_hash cipher json own_pk tp.remote_pk tp.net_name)
        × (tp.entry.id ≡ id)
  unfolding transport
  new_manager-transport nets dc s id tp r found =
      let (key, entry) = Each-lookup Keyed id tp s.tps (Reach-Keyed _ s r tt) found in
      (key, entry, ap (λ e. e.id) entry ∙ (unfold make_entry new_entry in sym key))
