-- ===== src/Transport/Managed.antt =====
-- pkg/transport/managed_transport.go and the counters of log.go. The lock of a transport makes each
-- method one step. Errors of Conn.Close and of the log store are only logged: what is kept is which
-- connections were closed and what was recorded, the last first. mt.dial's connection is an argument,
-- what Network.Dial returns this time; so is whether a handshake's 20 seconds are over.
pub mod Traffic
pub mod Keeping
pub mod Ending
pub mod Steps
use skywire_mainnet_old.Base.{
  >>=-eq-ok, All, AllBytes, Bool, Bool-cases, Bytes, Comparable, Distinct, Error, List, Map, Option,
  Option-cases, Outcome, Outcome-cases, [], accept_write_failed, ap, arith, bad_init, bad_signature,
  be_bytes, beq_refl, bind_ok, byte_at, callback_failed, clamp_uint64, closed_pipe, confirm_failed,
  conn_already_exists, contains, contains-append, copy_at, copy_at-end, corrupted_rule,
  deadline_exceeded, dial_failed, drop, drop-append_left, empty_packet, empty_response, eof, err,
  false, flat, flat-append, flat-snoc, from_be, from_be-be_bytes, from_be-inj, get_elem?, gtb,
  if◌then◌else◌, inl, inr, insert, insert-Distinct, invalid_port, invalid_remote_signature,
  invalid_summary, io_failed, leb, leb→le, length, length-append, length-be_bytes,
  length-insert_new, length-remove_present, length-replicate, length-take, le→leb, list_beq,
  list_beq_iff, list_eq, lookup, lookup-insert, lookup-insert_ne, lookup-insert_self, lookup-remove,
  lookup-remove_all, lookup-remove_ne, lookup-remove_self, ltb, ltb→lt, lt→ltb, malformed_json,
  manager_closing, map, nat_beq, nat_beq_iff, nat_eq, negsuc, no_available_route_ids,
  no_reserved_id, no_route_found, no_routes, no_setup_node, none, not, not_serving, ok, or_err,
  panic, port_already_bound, port_not_bound, pos, put_be, put_be-append, put_field, read_be,
  read_entry_failed, read_field, read_full, read_full-append, read_response_failed, redial_failed,
  refl, remove, remove-Distinct, remove_all, replicate, request_failed, reservation_failed,
  resp_failure, reverse_rule_not_forward, route_setup_failed, rule_not_found, rule_timed_out,
  rules_failed, settlement_failed, settlement_rejected, shortage, sign_failed, slice, slice-append,
  slice_field, some, sub_ℕ, suc, sym, take, take-append-drop, take-append_left, to_int64,
  transport_failed, transport_not_found, true, unexpected_app, unexpected_eof, unexpected_frame,
  unexpected_version, unknown_foundation_packet, unknown_loop, unknown_rule, unknown_transport,
  unknown_transport_type, unsupported_version, write_entry_failed, wrong_entry_edges,
  wrong_entry_id, wrong_entry_public, wrong_entry_type, wrong_network, wrong_number_of_ids, zero, ℕ,
  ℤ, ◌%◌, ◌&&◌, ◌*◌, ◌++◌, ◌+◌, ◌-◌, ◌/◌, ◌<◌, ◌==◌, ◌^◌, ◌||◌, ◌↔◌, ◌∙◌, ◌∷◌, ◌≡◌, ◌≢◌, ◌≤◌, ◌⊎◌,
}
use skywire_mainnet_old.Base.{◌>>=◌ as ◌&>◌}
use skywire_mainnet_old.Base.Step.{Step, ◌>>=◌, ◌>>◌, lift, get, pure, logged, renamed, wrapped}
use skywire_mainnet_old.Routing.Addr.{PubKey, TransportId, RouteId}
use skywire_mainnet_old.Routing.Packet.{Packet, packet_header_size, make_packet, size}
use skywire_mainnet_old.Transport.Entry.{Entry, SecKey, Cipher}
use skywire_mainnet_old.Transport.Discovery.{Discovery, Status}
use skywire_mainnet_old.Transport.Handshake.{
  Conn, EntryJson, HsState, make_entry, do_settlement_hs, write, read, deref,
}

pub record LogEntry : Type 0 where
  pub recv_bytes : ℕ
  pub sent_bytes : ℕ

unfoldable pub add_recv : ℕ → LogEntry → LogEntry
add_recv n le = record le { recv_bytes = (le.recv_bytes + n) % 2 ^ 64 }

unfoldable pub add_sent : ℕ → LogEntry → LogEntry
add_sent n le = record le { sent_bytes = (le.sent_bytes + n) % 2 ^ 64 }

-- `signal` says that connCh holds an element; `done` that mt.done is closed.
pub record ManagedTransport : Type 0 where
  pub remote_pk : PubKey
  pub net_name : Bytes
  pub entry : Entry
  pub log_entry : LogEntry
  pub log_updates : ℕ
  pub conn : Option Conn
  pub signal : Bool
  pub done : Bool

-- A transport, the discovery that it reports to, and what became of connections and log entries.
pub record MtState (D : Type 0) : Type 0 where
  pub tp : ManagedTransport
  pub dc : D
  pub closed : List Conn
  pub recorded : List (TransportId × LogEntry)

unfoldable pub log_sent : ℕ → ManagedTransport → ManagedTransport
log_sent b mt = record mt {
  log_entry = add_sent b mt.log_entry;
  log_updates = (mt.log_updates + 1) % 2 ^ 32;
}

unfoldable pub log_recv : ℕ → ManagedTransport → ManagedTransport
log_recv b mt = record mt {
  log_entry = add_recv b mt.log_entry;
  log_updates = (mt.log_updates + 1) % 2 ^ 32;
}

module _ {D : Type 0} where
  abbrev pub on_tp : (ManagedTransport → ManagedTransport) → Step (MtState D) (Unit {0})
  on_tp f = λ s. (record s { tp = f s.tp }, ok tt)

  abbrev pub with_dc {ℓ} : {A : Type ℓ} → Step D A → Step (MtState D) A
  with_dc m = λ s. let (d, r) = m s.dc in (record s { dc = d }, r)

  unfoldable pub close_conn : Conn → Step (MtState D) (Unit {0})
  close_conn c = λ s. (record s { closed = c ∷ s.closed }, ok tt)

  -- Closes mt.conn, if there is one, and sets it to nil.
  unfoldable pub drop_conn : Option Conn → Step (MtState D) (Unit {0})
  unfolding close_conn
  drop_conn none = pure tt
  drop_conn (some c) = do close_conn c; on_tp (λ mt. record mt { conn = none })

  unfoldable pub log_mod : Step (MtState D) Bool
  log_mod = λ s. (record s { tp = record (s.tp) { log_updates = 0 } }, ok (ltb 0 s.tp.log_updates))

  unfoldable pub record_entry : Step (MtState D) (Unit {0})
  record_entry = λ s. (record s { recorded = (s.tp.entry.id, s.tp.log_entry) ∷ s.recorded }, ok tt)

  -- Serve's deferred function.
  unfoldable pub serve_end : Step (MtState D) (Unit {0})
  serve_end = do
    modified ← log_mod
    if modified then record_entry else pure tt
    s ← get
    drop_conn s.tp.conn

  -- close, by the first of its callers: Serve has returned when it returns.
  unfoldable pub close_once : Step (MtState D) Bool
  close_once = do
    s ← get
    if s.tp.done
        then pure false
        else (do on_tp (λ mt. record mt { done = true }); serve_end; pure true)

abbrev pub new_managed_transport :
    (Bytes → TransportId) → Cipher → EntryJson → PubKey → PubKey → Bytes → ManagedTransport
new_managed_transport new_hash cipher json local_pk remote_pk net_name = record {
  remote_pk = remote_pk;
  net_name = net_name;
  entry = make_entry new_hash cipher json local_pk remote_pk net_name;
  log_entry = record { recv_bytes = 0; sent_bytes = 0 };
  log_updates = 0;
  conn = none;
  signal = false;
  done = false;
}

module _ (new_hash : Bytes → TransportId) (cipher : Cipher) (json : EntryJson) (local_sk : SecKey)
    {D : Type 0} (discovery : Discovery D) where
  -- UpdateStatuses for this transport.
  unfoldable pub update_status : Bool → Step (MtState D) (Unit {0})
  update_status is_up = do
    s ← get
    es ← with_dc (discovery.update_statuses (record { id = s.tp.entry.id; is_up = is_up } ∷ []))
    pure tt

  -- The loop of setIfConnNil, with `n` tries left.
  unfoldable pub report_up : ℕ → Step (MtState D) (Unit {0})
  report_up zero = pure tt
  report_up (suc n) = λ s.
      let (s', r) = update_status true s in
      let retried = report_up n s' in
      elim r [ ok u ↦ (s', ok tt) | err e ↦ retried | panic ↦ (s', panic) ]

  unfoldable pub set_conn : Conn → Option Conn → Step (MtState D) (Unit {0})
  set_conn conn (some c) = do close_conn conn; lift (err conn_already_exists)
  set_conn conn none = do report_up 3; on_tp (λ mt. record mt { conn = some conn; signal = true })

  unfoldable pub set_if_conn_nil : Conn → Step (MtState D) (Unit {0})
  unfolding set_conn
  set_if_conn_nil conn = do s ← get; set_conn conn s.tp.conn

  unfoldable pub clear_conn : Step (MtState D) (Unit {0})
  clear_conn = do s ← get; drop_conn s.tp.conn; logged (update_status false)

  -- The settlement handshake on a new connection, which it returns as it is then.
  unfoldable pub settle : Bool → Bool → Conn → Step (MtState D) Conn
  settle init expired conn = λ s.
      let (h, r) =
        do_settlement_hs new_hash cipher json discovery expired init local_sk
          (record { conn = conn; dc = s.dc }) in
      (
        record s { dc = h.dc },
        renamed settlement_failed (elim r [ ok u ↦ ok h.conn | err e ↦ err e | panic ↦ panic ]),
      )

  unfoldable pub accept : Bool → Conn → Step (MtState D) (Unit {0})
  accept expired conn = do
    s ← get
    if not (conn.network == s.tp.net_name)
        then lift (err wrong_network)
        else if s.tp.done
        then (do close_conn conn; lift (err not_serving))
        else (do conn ← settle false expired conn; set_if_conn_nil conn)

  unfoldable pub dial : Bool → Outcome Conn → Step (MtState D) (Unit {0})
  dial expired dialled = do
    conn ← lift dialled
    conn ← settle true expired conn
    set_if_conn_nil conn

  abbrev pub is_some : {A : Type 0} → Option A → Bool
  is_some none = false
  is_some (some a) = true

  -- The method Dial.
  unfoldable pub dial_once : Bool → Outcome Conn → Step (MtState D) (Unit {0})
  dial_once expired dialled = do
    s ← get
    if s.tp.done
        then lift (err not_serving)
        else if is_some s.tp.conn
        then pure tt
        else dial expired dialled

  -- What WritePacket does with the result of conn.Write.
  unfoldable pub after_packet : ℕ → Conn × Outcome (Unit {0}) → Step (MtState D) (Unit {0})
  after_packet n (c, ok u) = do
    on_tp (λ mt. record mt { conn = some c })
    if ltb packet_header_size n then on_tp (log_sent (n - packet_header_size)) else pure tt
  after_packet n (c, err e) = do clear_conn; lift (err e)
  after_packet n (c, panic) = lift panic

  unfoldable pub write_packet : Bool → Outcome Conn → RouteId → Bytes → Step (MtState D) (Unit {0})
  unfolding after_packet
  write_packet expired dialled id payload = do
    s ← get
    if s.tp.done then lift (err not_serving) else pure tt
    if is_some s.tp.conn then pure tt else wrapped redial_failed (dial expired dialled)
    s ← get
    conn ← lift (deref s.tp.conn)
    packet ← lift (make_packet id payload)
    after_packet (length packet) (write packet conn)

  -- io.ReadFull. After an error the read loop clears the connection.
  unfoldable pub read_bytes : ℕ → Conn → Outcome (Conn × Bytes)
  read_bytes n conn = let (conn, r) = read n conn in r &> λ b. ok (conn, b)

  unfoldable pub counted : Packet → Step (MtState D) Packet
  counted packet = do
    if ltb packet_header_size (length packet)
        then on_tp (log_recv (length packet - packet_header_size))
        else pure tt
    pure packet

  -- The two reads of readPacket.
  unfoldable pub read_from : Conn → Step (MtState D) Packet
  read_from conn = do
    (conn, h) ← lift (read_bytes packet_header_size conn)
    n ← lift (size h)
    (conn, p) ← lift (read_bytes n conn)
    on_tp (λ mt. record mt { conn = some conn })
    counted (h ++ p)

  -- `none`: without a connection, readPacket waits for one, or for the end of the service.
  unfoldable pub read_or_wait : Option Conn → Step (MtState D) (Option Packet)
  read_or_wait none = do
    s ← get
    on_tp (λ mt. record mt { signal = false })
    if s.tp.done then lift (err not_serving) else pure none
  read_or_wait (some conn) = do packet ← read_from conn; pure (some packet)

  unfoldable pub read_packet : Step (MtState D) (Option Packet)
  unfolding read_or_wait
  read_packet = do s ← get; read_or_wait s.tp.conn

  -- A tick of the redial loop.
  unfoldable pub tick : Bool → Outcome Conn → Step (MtState D) (Unit {0})
  tick expired dialled = do
    modified ← log_mod
    s ← get
    if modified
        then record_entry
        else if is_some s.tp.conn
        then pure tt
        else logged (dial expired dialled)

  -- The method Close.
  unfoldable pub close : Step (MtState D) (Unit {0})
  close = do closed ← close_once; if closed then logged (update_status false) else pure tt
