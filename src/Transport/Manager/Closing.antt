-- ===== src/Transport/Manager/Closing.antt =====
-- manager.go: what is final about Close.
use skywire_mainnet_old.Base.{Bytes, list_eq, nat_eq, true, ◌≡◌, ◌⊎◌}
use skywire_mainnet_old.Base.Step.{Step}
use skywire_mainnet_old.Routing.Addr.{PubKey, TransportId}
use skywire_mainnet_old.Transport.Entry.{SecKey, Cipher}
use skywire_mainnet_old.Transport.Discovery.{Discovery}
use skywire_mainnet_old.Transport.Handshake.{EntryJson}
use skywire_mainnet_old.Transport.Managed.{ManagedTransport}
use skywire_mainnet_old.Transport.Manager.{Manager, init_transports}

abbrev pub IsDone : TransportId → ManagedTransport → Type 0
IsDone id mt = mt.done ≡ true

module _ (new_hash : Bytes → TransportId) (cipher : Cipher) (json : EntryJson) (own_pk : PubKey)
    (own_sk : SecKey) {D : Type 0} (discovery : Discovery D) where
  -- Nothing has changed, or initTransports was called.
  abbrev pub Rests : Manager D → Manager D → Type 0
  Rests s t = (t ≡ s) ⊎ (t ≡ (init_transports new_hash cipher json own_pk own_sk discovery s).0)
