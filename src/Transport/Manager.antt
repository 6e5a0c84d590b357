-- ===== src/Transport/Manager.antt =====
-- pkg/transport/manager.go: the manager of transports. A method holds the manager's lock, so it is one
-- step. A pointer to a transport of the manager is the transport's ID, its key in the map. What
-- Network.Dial and AcceptConn return is an argument, and so is whether a handshake's time is over.
pub mod Keys
pub mod Calls
pub mod Life
pub mod Final
pub mod Closing
use skywire_mainnet_old.Base.{
  >>=-eq-ok, All, AllBytes, Bool, Bool-cases, Bytes, Comparable, Distinct, Error, List, Map, Option,
  Option-cases, Outcome, Outcome-cases, [], accept_write_failed, ap, arith, bad_init, bad_signature,
  be_bytes, beq_refl, bind_ok, byte_at, callback_failed, clamp_uint64, closed_pipe, confirm_failed,
  conn_already_exists, contains, contains-append, copy_at, copy_at-end, corrupted_rule,
  deadline_exceeded, dial_failed, drop, drop-append_left, empty_packet, empty_response, eof, err,
  false, flat, flat-append, flat-snoc, from_be, from_be-be_bytes, from_be-inj, get_elem?, gtb,
  if◌then◌else◌, inl, inr, insert, insert-Distinct, invalid_port, invalid_remote_signature,
  invalid_summary, io_failed, leb, leb→le, length, length-append, length-be_bytes,
  length-insert_new, length-remove_present, length-replicate, length-take, le→leb, list_beq,
  list_beq_iff, list_eq, lookup, lookup-insert, lookup-insert_ne, lookup-insert_self, lookup-remove,
  lookup-remove_all, lookup-remove_ne, lookup-remove_self, ltb, ltb→lt, lt→ltb, malformed_json,
  manager_closing, map, nat_beq, nat_beq_iff, nat_eq, negsuc, no_available_route_ids,
  no_reserved_id, no_route_found, no_routes, no_setup_node, none, not, not_serving, ok, or_err,
  panic, port_already_bound, port_not_bound, pos, put_be, put_be-append, put_field, read_be,
  read_entry_failed, read_field, read_full, read_full-append, read_response_failed, redial_failed,
  refl, remove, remove-Distinct, remove_all, replicate, request_failed, reservation_failed,
  resp_failure, reverse_rule_not_forward, route_setup_failed, rule_not_found, rule_timed_out,
  rules_failed, settlement_failed, settlement_rejected, shortage, sign_failed, slice, slice-append,
  slice_field, some, sub_ℕ, suc, sym, take, take-append-drop, take-append_left, to_int64,
  transport_failed, transport_not_found, true, unexpected_app, unexpected_eof, unexpected_frame,
  unexpected_version, unknown_foundation_packet, unknown_loop, unknown_rule, unknown_transport,
  unknown_transport_type, unsupported_version, write_entry_failed, wrong_entry_edges,
  wrong_entry_id, wrong_entry_public, wrong_entry_type, wrong_network, wrong_number_of_ids, zero, ℕ,
  ℤ, ◌%◌, ◌&&◌, ◌*◌, ◌++◌, ◌+◌, ◌-◌, ◌/◌, ◌<◌, ◌==◌, ◌^◌, ◌||◌, ◌↔◌, ◌∙◌, ◌∷◌, ◌≡◌, ◌≢◌, ◌≤◌, ◌⊎◌,
}
use skywire_mainnet_old.Base.Step.{Step, ◌>>=◌, ◌>>◌, lift, get, pure, logged, or_log}
use skywire_mainnet_old.Routing.Addr.{PubKey, TransportId}
use skywire_mainnet_old.Transport.Entry.{SecKey, Cipher, make_transport_id, remote_edge}
use skywire_mainnet_old.Transport.Discovery.{Discovery, Status, EntryWithStatus}
use skywire_mainnet_old.Transport.Handshake.{Conn, EntryJson}
use skywire_mainnet_old.Transport.Managed
use skywire_mainnet_old.Transport.Managed.{
  ManagedTransport, MtState, LogEntry, new_managed_transport, accept, dial_once, close_once,
}

pub record Manager (D : Type 0) : Type 0 where
  pub nets : List Bytes
  pub tps : Map TransportId ManagedTransport
  pub closing : Bool
  pub dc : D
  pub closed : List Conn
  pub recorded : List (TransportId × LogEntry)

abbrev pub new_manager : {D : Type 0} → List Bytes → D → Manager D
new_manager nets dc = record {
  nets = nets;
  tps = [];
  closing = false;
  dc = dc;
  closed = [];
  recorded = [];
}

module _ {D : Type 0} where
  -- A call of a method of a transport; the transport is returned as it is afterwards.
  unfoldable pub run_on {ℓ} :
      {A : Type ℓ}
      → ManagedTransport
      → Step (MtState D) A
      → Manager D
      → ManagedTransport × Manager D × Outcome A
  run_on tp m s =
      let (t, r) = m (record { tp = tp; dc = s.dc; closed = s.closed; recorded = s.recorded }) in
      (t.tp, record s { dc = t.dc; closed = t.closed; recorded = t.recorded }, r)

  -- A call of a method of a transport of the map.
  unfoldable pub on_held {ℓ} :
      {A : Type ℓ} → TransportId → ManagedTransport → Step (MtState D) A → Step (Manager D) A
  unfolding run_on
  on_held id tp m =
      λ s. let (tp', s', r) = run_on tp m s in (record s' { tps = insert id tp' s'.tps }, r)

  -- A new transport is put in the map once the call has succeeded.
  unfoldable pub put_if_ok :
      TransportId
      → ManagedTransport × Manager D × Outcome (Unit {0})
      → Manager D × Outcome (Unit {0})
  put_if_ok id (tp, s, ok u) = (record s { tps = insert id tp s.tps }, ok u)
  put_if_ok id (tp, s, err e) = (s, err e)
  put_if_ok id (tp, s, panic) = (s, panic)

module _ (new_hash : Bytes → TransportId) (cipher : Cipher) (json : EntryJson) (own_pk : PubKey)
    (own_sk : SecKey) {D : Type 0} (discovery : Discovery D) where
  abbrev pub tp_id_from_pk : PubKey → Bytes → TransportId
  tp_id_from_pk pk tp_type = make_transport_id new_hash own_pk pk tp_type

  abbrev pub new_transport : PubKey → Bytes → ManagedTransport
  new_transport remote net = new_managed_transport new_hash cipher json own_pk remote net

  unfoldable pub accept_on :
      TransportId → Option ManagedTransport → Bytes → Bool → Conn → Step (Manager D) (Unit {0})
  unfolding run_on on_held put_if_ok
  accept_on id none lis_net expired conn = λ s. put_if_ok id (
      run_on (new_transport conn.remote_pk lis_net)
        (accept new_hash cipher json own_sk discovery expired conn) s)
  accept_on id (some tp) lis_net expired conn =
      on_held id tp (accept new_hash cipher json own_sk discovery expired conn)

  -- `lis_net` is the listener's network, `accepted` what AcceptConn returns.
  unfoldable pub accept_transport : Bytes → Bool → Outcome Conn → Step (Manager D) (Unit {0})
  accept_transport lis_net expired accepted = do
    conn ← lift accepted
    s ← get
    if s.closing then lift (err manager_closing) else (do
      let id = tp_id_from_pk conn.remote_pk conn.network
      accept_on id (lookup id s.tps) lis_net expired conn)

  unfoldable pub save_on :
      TransportId → Option ManagedTransport → PubKey → Bytes → Step (Manager D) TransportId
  save_on id none remote net =
      λ s. (record s { tps = insert id (new_transport remote net) s.tps }, ok id)
  save_on id (some tp) remote net = pure id

  unfoldable pub save_transport : PubKey → Bytes → Step (Manager D) TransportId
  save_transport remote net = do
    s ← get
    if contains net s.nets
        then (do let id = tp_id_from_pk remote net; save_on id (lookup id s.tps) remote net)
        else lift (err unknown_transport_type)

  -- The call of Dial on the transport that was saved; its error is only logged.
  unfoldable pub dial_found :
      TransportId → Option ManagedTransport → Bool → Outcome Conn → Step (Manager D) (Unit {0})
  unfolding on_held
  dial_found id none expired dialled = lift panic
  dial_found id (some tp) expired dialled =
      on_held id tp (logged (dial_once new_hash cipher json own_sk discovery expired dialled))

  unfoldable pub dial_saved : TransportId → Bool → Outcome Conn → Step (Manager D) (Unit {0})
  unfolding dial_found
  dial_saved id expired dialled = λ s. dial_found id (lookup id s.tps) expired dialled s

  -- The method SaveTransport.
  unfoldable pub save_and_dial : PubKey → Bytes → Bool → Outcome Conn → Step (Manager D) TransportId
  save_and_dial remote net expired dialled = do
    s ← get
    if s.closing
        then lift (err closed_pipe)
        else (do id ← save_transport remote net; dial_saved id expired dialled; pure id)

  unfoldable pub init_all : List EntryWithStatus → Step (Manager D) (Unit {0})
  init_all [] = pure tt
  init_all (e ∷ es) = do
    (λ s.
        let (s', r) = save_transport (remote_edge own_pk e.entry) e.entry.tp_type s in
        (s', elim r [ ok id ↦ ok tt | err x ↦ ok tt | panic ↦ panic ]))
    init_all es

  -- After an error of the discovery there are no entries.
  unfoldable pub init_from : Outcome (List EntryWithStatus) → Step (Manager D) (Unit {0})
  unfolding init_all
  init_from (ok es) = init_all es
  init_from (err e) = pure tt
  init_from panic = lift panic

  unfoldable pub init_transports : Step (Manager D) (Unit {0})
  unfolding init_from
  init_transports = λ s.
      let (d, r) = discovery.get_transports_by_edge own_pk s.dc in init_from r (record s { dc = d })

  unfoldable pub delete_found : TransportId → Option ManagedTransport → Step (Manager D) (Unit {0})
  delete_found id none = pure tt
  delete_found id (some tp) = λ s.
      let (tp', s', r) = run_on tp (Managed.close new_hash cipher json own_sk discovery) s in
      (record s' { tps = remove id s'.tps }, r)

  unfoldable pub delete_transport : TransportId → Step (Manager D) (Unit {0})
  delete_transport id = do s ← get; if s.closing then pure tt else delete_found id (lookup id s.tps)

  -- The loop of close: the transports as they are afterwards, and the statuses to report.
  unfoldable pub close_tps :
      Map TransportId ManagedTransport
      → Manager D
      → Map TransportId ManagedTransport × Manager D × List Status
  unfolding run_on
  close_tps [] s = ([], s, [])
  close_tps ((id, tp) ∷ tps) s =
      let (tp', s', r) = run_on tp close_once s in
      let (rest, s', statuses) = close_tps tps s' in
      (
        (id, tp') ∷ rest,
        s',
        elim r [
          | ok closed ↦
              if closed then record { id = tp.entry.id; is_up = false } ∷ statuses else statuses
          | err e ↦ statuses
          | panic ↦ statuses
        ],
      )

  -- The method close; the error of UpdateStatuses is only logged.
  unfoldable pub close_now : Step (Manager D) (Unit {0})
  close_now = λ s.
      let (tps, s', statuses) = close_tps s.tps (record s { closing = true }) in
      let (d, r) = discovery.update_statuses statuses s'.dc in
      (record s' { tps = tps; dc = d }, elim r [ panic ↦ panic | _ ↦ ok tt ])

  -- The method Close, with its closeOnce.
  unfoldable pub close : Step (Manager D) (Unit {0})
  unfolding close_now
  close = do s ← get; if s.closing then pure tt else close_now

  unfoldable pub transport : TransportId → Manager D → Option ManagedTransport
  transport id s = lookup id s.tps
