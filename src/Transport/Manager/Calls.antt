-- ===== src/Transport/Manager/Calls.antt =====
-- manager.go: each method keeps the transports under their IDs.
use skywire_mainnet_old.Base.{
  Bool, Bytes, List, Map, Option, Outcome, [], err, list_eq, lookup, nat_eq, none, ok, panic, refl,
  some, ◌∷◌, ◌≡◌,
}
use skywire_mainnet_old.Base.Step.{Step, after, pure, logged}
use skywire_mainnet_old.Routing.Addr.{PubKey, TransportId}
use skywire_mainnet_old.Transport.Entry.{SecKey, Cipher, remote_edge}
use skywire_mainnet_old.Transport.Discovery.{Discovery, EntryWithStatus}
use skywire_mainnet_old.Transport.Handshake.{Conn, EntryJson}
use skywire_mainnet_old.Transport.Managed.{ManagedTransport, dial_once}
use skywire_mainnet_old.Transport.Managed.Keeping.{Keeps-dial_once}
use skywire_mainnet_old.Transport.Manager.{
  Manager, run_on, save_transport, dial_saved, save_and_dial, init_all, init_from, dial_found,
  close_now, init_transports, delete_found, delete_transport, close_tps, close,
}
use skywire_mainnet_old.Transport.Manager.Keys.{
  Each, Each-lookup, Each-remove, IsKeyed, IsKeyed-IsLoose, Keeps-close_once, if_either,
  on_held-IsKeyed, save_transport-IsKeyed,
}

module _ (new_hash : Bytes → TransportId) (cipher : Cipher) (json : EntryJson) (own_pk : PubKey)
    (own_sk : SecKey) {D : Type 0} (discovery : Discovery D) where
  abbrev Keyed : TransportId → ManagedTransport → Type 0
  Keyed = IsKeyed new_hash cipher json own_pk own_sk discovery

  pub dial_found-Keyed :
      (id : TransportId) (o : Option ManagedTransport) (expired : Bool) (dialled : Outcome Conn)
      (s : Manager D)
      → Each Keyed s.tps
      → lookup id s.tps ≡ o
      → Each Keyed
          ((dial_found new_hash cipher json own_pk own_sk discovery id o expired dialled s).0.tps)
  unfolding dial_found
  dial_found-Keyed id none expired dialled s h q = h
  dial_found-Keyed id (some tp) expired dialled s h q =
      on_held-IsKeyed new_hash cipher json own_pk own_sk discovery id tp
        (logged (dial_once new_hash cipher json own_sk discovery expired dialled))
        (Keeps-dial_once new_hash cipher json own_sk discovery (Keyed id)
          (IsKeyed-IsLoose new_hash cipher json own_pk own_sk discovery id) expired dialled)
        s h (Each-lookup Keyed id tp s.tps h q)

  pub dial_saved-Keyed :
      (id : TransportId) (expired : Bool) (dialled : Outcome Conn) (s : Manager D)
      → Each Keyed s.tps
      → Each Keyed
          ((dial_saved new_hash cipher json own_pk own_sk discovery id expired dialled s).0.tps)
  unfolding dial_saved
  dial_saved-Keyed id expired dialled s h = dial_found-Keyed id _ expired dialled s h refl

  pub after-Keyed {ℓ κ} :
      {A : Type ℓ} {B : Type κ} (r : Manager D × Outcome A) (f : A → Step (Manager D) B)
      → Each Keyed (r.0.tps)
      → ((a : A) (t : Manager D) → Each Keyed (t.tps) → Each Keyed ((f a t).0.tps))
      → Each Keyed ((after r f).0.tps)
  after-Keyed (s, ok a) f h k = k a s h
  after-Keyed (s, err e) f h k = h
  after-Keyed (s, panic) f h k = h

  pub save_and_dial-Keyed :
      (remote : PubKey) (net : Bytes) (expired : Bool) (dialled : Outcome Conn) (s : Manager D)
      → Each Keyed s.tps
      → Each Keyed (
          (save_and_dial new_hash cipher json own_pk own_sk discovery remote net expired dialled
            s).0.tps)
  unfolding save_and_dial
  save_and_dial-Keyed remote net expired dialled s h =
      if_either (λ t. Each Keyed t.tps) s.closing _ _ s h
        (after-Keyed (save_transport new_hash cipher json own_pk own_sk discovery remote net s) _
          (save_transport-IsKeyed new_hash cipher json own_pk own_sk discovery remote net s h)
          (λ id t q.
            after-Keyed
              (dial_saved new_hash cipher json own_pk own_sk discovery id expired dialled t)
              (λ u. pure id) (dial_saved-Keyed id expired dialled t q) (λ u t q. q)))

  pub init_all-Keyed :
      (es : List EntryWithStatus) (s : Manager D)
      → Each Keyed s.tps
      → Each Keyed ((init_all new_hash cipher json own_pk own_sk discovery es s).0.tps)
  unfolding init_all
  init_all-Keyed [] s h = h
  init_all-Keyed (e ∷ es) s h =
      after-Keyed _ (λ u. init_all new_hash cipher json own_pk own_sk discovery es)
        (save_transport-IsKeyed new_hash cipher json own_pk own_sk discovery
          (remote_edge own_pk e.entry) e.entry.tp_type s h)
        (λ u t q. init_all-Keyed es t q)

  pub init_from-Keyed :
      (r : Outcome (List EntryWithStatus)) (s : Manager D)
      → Each Keyed s.tps
      → Each Keyed ((init_from new_hash cipher json own_pk own_sk discovery r s).0.tps)
  unfolding init_from
  init_from-Keyed (ok es) s h = init_all-Keyed es s h
  init_from-Keyed (err e) s h = h
  init_from-Keyed panic s h = h

  pub init_transports-Keyed :
      (s : Manager D)
      → Each Keyed s.tps
      → Each Keyed ((init_transports new_hash cipher json own_pk own_sk discovery s).0.tps)
  unfolding init_transports
  init_transports-Keyed s h = init_from-Keyed _ _ h

  pub delete_found-Keyed :
      (id : TransportId) (o : Option ManagedTransport) (s : Manager D)
      → Each Keyed s.tps
      → Each Keyed ((delete_found new_hash cipher json own_pk own_sk discovery id o s).0.tps)
  unfolding delete_found run_on
  delete_found-Keyed id none s h = h
  delete_found-Keyed id (some tp) s h = Each-remove Keyed id s.tps h

  pub delete_transport-Keyed :
      (id : TransportId) (s : Manager D)
      → Each Keyed s.tps
      → Each Keyed ((delete_transport new_hash cipher json own_pk own_sk discovery id s).0.tps)
  unfolding delete_transport
  delete_transport-Keyed id s h =
      if_either (λ t. Each Keyed t.tps) s.closing _ _ s h
        (delete_found-Keyed id (lookup id s.tps) s h)

  pub close_tps-Keyed :
      (m : Map TransportId ManagedTransport) (s : Manager D)
      → Each Keyed m
      → Each Keyed ((close_tps new_hash cipher json own_pk own_sk discovery m s).0)
  unfolding close_tps run_on
  close_tps-Keyed [] s h = h
  close_tps-Keyed ((id, tp) ∷ m) s h = (
    Keeps-close_once (Keyed id) (IsKeyed-IsLoose new_hash cipher json own_pk own_sk discovery id)
        (λ mt q. q) _ h.0,
    close_tps-Keyed m _ h.1,
  )

  pub close-Keyed :
      (s : Manager D)
      → Each Keyed s.tps
      → Each Keyed ((close new_hash cipher json own_pk own_sk discovery s).0.tps)
  unfolding close close_now
  close-Keyed s h =
      if_either (λ t. Each Keyed t.tps) s.closing (pure tt) _ s h (close_tps-Keyed s.tps _ h)
