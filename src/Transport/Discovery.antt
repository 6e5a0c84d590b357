-- ===== src/Transport/Discovery.antt =====
-- pkg/transport/discovery.go: the interface of a transport discovery, with its own state, and the mock
-- of it. What RegisterTransports writes to an entry's `Registered` is read by no caller, and is left out.
use skywire_mainnet_old.Base.{
  Bool, List, Map, [], if◌then◌else◌, insert, list_eq, lookup, nat_eq, ok, or_err,
  transport_not_found, true, ℕ, ◌∷◌,
}
use skywire_mainnet_old.Base.Step.{Step, ◌>>=◌, ◌>>◌, pure}
use skywire_mainnet_old.Routing.Addr.{PubKey, TransportId}
use skywire_mainnet_old.Transport.Entry.{Entry, SignedEntry, has_edge}

pub record Status : Type 0 where
  pub id : TransportId
  pub is_up : Bool

pub record EntryWithStatus : Type 0 where
  pub entry : Entry
  pub is_up : Bool
  pub registered : ℕ
  pub statuses : Bool × Bool

-- DiscoveryClient
pub record Discovery (D : Type 0) : Type 0 where
  pub register_transports : List SignedEntry → Step D (Unit {0})
  pub get_transport_by_id : TransportId → Step D EntryWithStatus
  pub get_transports_by_edge : PubKey → Step D (List EntryWithStatus)
  pub update_statuses : List Status → Step D (List EntryWithStatus)

-- mockDiscoveryClient
abbrev pub Mock : Type 0
Mock = Map TransportId EntryWithStatus

module _ (now : ℕ) where
  abbrev pub new_entry_with_status : Entry → EntryWithStatus
  new_entry_with_status e = record {
    entry = e;
    is_up = true;
    registered = now;
    statuses = (true, true);
  }

  unfoldable pub register_all : List SignedEntry → Mock → Mock
  register_all [] td = td
  register_all (se ∷ ses) td =
      register_all ses (insert se.entry.id (new_entry_with_status se.entry) td)

  unfoldable pub mock_register : List SignedEntry → Step Mock (Unit {0})
  mock_register ses = λ td. (register_all ses td, ok tt)

unfoldable pub mock_get : TransportId → Step Mock EntryWithStatus
mock_get id = λ td. (td, or_err transport_not_found (lookup id td))

unfoldable pub with_edge : PubKey → Mock → List EntryWithStatus
with_edge pk [] = []
with_edge pk ((id, e) ∷ td) =
    let rest = with_edge pk td in if has_edge pk e.entry then e ∷ rest else rest

unfoldable pub mock_get_by_edge : PubKey → Step Mock (List EntryWithStatus)
mock_get_by_edge pk = λ td. (td, ok (with_edge pk td))

-- `res` stays empty.
unfoldable pub mock_update : List Status → Step Mock (List EntryWithStatus)
mock_update [] = pure []
mock_update (status ∷ rest) = do
  entry ← mock_get status.id
  (λ td. (insert status.id (record entry { is_up = status.is_up }) td, ok tt))
  mock_update rest

unfoldable pub new_discovery_mock : ℕ → Discovery Mock
new_discovery_mock now = record {
  register_transports = mock_register now;
  get_transport_by_id = mock_get;
  get_transports_by_edge = mock_get_by_edge;
  update_statuses = mock_update;
}
