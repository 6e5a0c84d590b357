-- ===== src/Transport/Managed/Keeping.antt =====
-- managed_transport.go: what the methods leave as it is, by rules for the steps that they are made of.
use skywire_mainnet_old.Base.{
  Bool, Bytes, Option, Outcome, [], err, false, if◌then◌else◌, length, list_eq, ltb, nat_eq, none,
  not, not_serving, ok, panic, redial_failed, some, suc, true, zero, ℕ, ◌++◌, ◌-◌, ◌<◌, ◌==◌, ◌^◌,
  ◌∷◌, ◌≡◌,
}
use skywire_mainnet_old.Base.Step.{Step, after, ◌>>=◌, ◌>>◌, pure, lift, logged, wrapped}
use skywire_mainnet_old.Routing.Addr.{TransportId, RouteId}
use skywire_mainnet_old.Transport.Entry.{SecKey, Cipher}
use skywire_mainnet_old.Transport.Discovery.{Discovery}
use skywire_mainnet_old.Transport.Handshake.{Conn, EntryJson, write, deref}
use skywire_mainnet_old.Routing.Packet.{Packet, packet_header_size, make_packet, size}
use skywire_mainnet_old.Transport.Managed.{
  ManagedTransport, MtState, on_tp, with_dc, close_conn, drop_conn, log_mod, record_entry, log_sent,
  log_recv, update_status, report_up, set_conn, set_if_conn_nil, clear_conn, settle, accept, dial,
  dial_once, after_packet, write_packet, counted, read_bytes, read_from, read_or_wait, read_packet,
  tick, is_some,
}

-- What a transport was made for, and counters that are machine numbers.
pub record IsFor (mt0 mt : ManagedTransport) : Type 0 where
  pub same_entry : mt.entry ≡ mt0.entry
  pub same_remote : mt.remote_pk ≡ mt0.remote_pk
  pub same_network : mt.net_name ≡ mt0.net_name
  pub recv_fits : mt.log_entry.recv_bytes < 2 ^ 64
  pub sent_fits : mt.log_entry.sent_bytes < 2 ^ 64
  pub updates_fit : mt.log_updates < 2 ^ 32

abbrev pub Serving : ManagedTransport → ManagedTransport → Type 0
Serving mt0 mt = (mt.done ≡ false) × IsFor mt0 mt

-- The service has ended, and no connection is held.
abbrev pub Ended : ManagedTransport → ManagedTransport → Type 0
Ended mt0 mt = (mt.done ≡ true) × (mt.conn ≡ none) × IsFor mt0 mt

abbrev pub Keeps {ℓ} :
    {D : Type 0} {A : Type ℓ} → (ManagedTransport → Type 0) → Step (MtState D) A → Type 0
Keeps {D = D} P m = (s : MtState D) → P s.tp → P (m s).0.tp

module _ {D : Type 0} (P : ManagedTransport → Type 0) where
  pub keeps_after {ℓ κ} :
      {A : Type ℓ} {B : Type κ} (r : MtState D × Outcome A) (f : A → Step (MtState D) B)
      → P (r.0.tp)
      → ((a : A) → Keeps P (f a))
      → P ((after r f).0.tp)
  keeps_after (s, ok a) f h k = k a s h
  keeps_after (s, err e) f h k = h
  keeps_after (s, panic) f h k = h

  pub Keeps-bind {ℓ κ} :
      {A : Type ℓ} {B : Type κ} (m : Step (MtState D) A) (f : A → Step (MtState D) B)
      → Keeps P m
      → ((a : A) → Keeps P (f a))
      → Keeps P (m >>= f)
  Keeps-bind m f h k s p = keeps_after (m s) f (h s p) k

  pub Keeps-then {κ} :
      {B : Type κ} (m : Step (MtState D) (Unit {0})) (f : Step (MtState D) B)
      → Keeps P m
      → Keeps P f
      → Keeps P (m >> f)
  Keeps-then m f h k s p = keeps_after (m s) (λ u. f) (h s p) (λ u. k)

  pub Keeps-if {ℓ} :
      {A : Type ℓ} (b : Bool) (m n : Step (MtState D) A)
      → Keeps P m
      → Keeps P n
      → Keeps P (if b then m else n)
  Keeps-if true m n h k = h
  Keeps-if false m n h k = k

  pub Keeps-lift {ℓ} : {A : Type ℓ} (r : Outcome A) → Keeps {D = D} P (lift r)
  Keeps-lift r s p = p

  pub Keeps-dc {ℓ} : {A : Type ℓ} (m : Step D A) → Keeps P (with_dc m)
  Keeps-dc m s p = p

-- A property that does not depend on the connection, and that counting keeps.
pub record IsLoose (P : ManagedTransport → Type 0) : Type 0 where
  pub any_conn : (mt : ManagedTransport) (c : Option Conn) → P mt → P (record mt { conn = c })
  pub any_signal : (mt : ManagedTransport) (b : Bool) → P mt → P (record mt { signal = b })
  pub no_updates : (mt : ManagedTransport) → P mt → P (record mt { log_updates = 0 })
  pub sent : (mt : ManagedTransport) (n : ℕ) → P mt → P (log_sent n mt)
  pub received : (mt : ManagedTransport) (n : ℕ) → P mt → P (log_recv n mt)

module _ (new_hash : Bytes → TransportId) (cipher : Cipher) (json : EntryJson) (local_sk : SecKey)
    {D : Type 0} (discovery : Discovery D) (P : ManagedTransport → Type 0) where
  pub Keeps-update :
      (up : Bool) → Keeps P (update_status new_hash cipher json local_sk discovery up)
  unfolding update_status
  Keeps-update up s p =
      Keeps-bind P
        (with_dc (discovery.update_statuses (record { id = s.tp.entry.id; is_up = up } ∷ [])))
        (λ es. pure tt) (λ s p. p) (λ es s p. p) s p

  pub keeps_try :
      (r : Outcome (Unit {0})) (s : MtState D) (t : MtState D × Outcome (Unit {0}))
      → P s.tp
      → P (t.0.tp)
      → P (
          (elim r as (λ x. MtState D × Outcome (Unit {0})) [
            | ok u ↦ (s, ok tt)
            | err e ↦ t
            | panic ↦ (s, panic)
          ]).0.tp)
  keeps_try (ok u) s t p q = p
  keeps_try (err e) s t p q = q
  keeps_try panic s t p q = p

  pub Keeps-report_up : (n : ℕ) → Keeps P (report_up new_hash cipher json local_sk discovery n)
  unfolding report_up
  Keeps-report_up zero s p = p
  Keeps-report_up (suc n) s p =
      keeps_try (update_status new_hash cipher json local_sk discovery true s).1 _ _
        (Keeps-update true s p) (Keeps-report_up n _ (Keeps-update true s p))

  module _ (loose : IsLoose P) where
    pub Keeps-drop : (o : Option Conn) → Keeps {D = D} P (drop_conn o)
    unfolding drop_conn close_conn
    Keeps-drop none s p = p
    Keeps-drop (some c) s p = loose.any_conn s.tp none p

    pub Keeps-set_conn :
        (c : Conn) (o : Option Conn)
        → Keeps P (set_conn new_hash cipher json local_sk discovery c o)
    unfolding set_conn close_conn
    Keeps-set_conn c (some d) = λ s p. p
    Keeps-set_conn c none =
        Keeps-then P (report_up new_hash cipher json local_sk discovery 3)
          (on_tp (λ mt. record mt { conn = some c; signal = true })) (Keeps-report_up 3)
          (λ s p.
            loose.any_signal (record (s.tp) { conn = some c }) true
              (loose.any_conn s.tp (some c) p))

    pub Keeps-set_if_conn_nil :
        (c : Conn) → Keeps P (set_if_conn_nil new_hash cipher json local_sk discovery c)
    unfolding set_if_conn_nil
    Keeps-set_if_conn_nil c s = Keeps-set_conn c s.tp.conn s

    pub Keeps-clear : Keeps P (clear_conn new_hash cipher json local_sk discovery)
    unfolding clear_conn
    Keeps-clear s =
        Keeps-then P (drop_conn s.tp.conn)
          (logged (update_status new_hash cipher json local_sk discovery false))
          (Keeps-drop s.tp.conn) (Keeps-update false) s

    pub Keeps-settled :
        (init expired : Bool) (c : Conn)
        → Keeps P (
            settle new_hash cipher json local_sk discovery init expired c
            >>= set_if_conn_nil new_hash cipher json local_sk discovery)
    unfolding settle
    Keeps-settled init expired c =
        Keeps-bind P (settle new_hash cipher json local_sk discovery init expired c)
          (set_if_conn_nil new_hash cipher json local_sk discovery) (λ s p. p) Keeps-set_if_conn_nil

    pub Keeps-dial :
        (expired : Bool) (dialled : Outcome Conn)
        → Keeps P (dial new_hash cipher json local_sk discovery expired dialled)
    unfolding dial
    Keeps-dial expired dialled =
        Keeps-bind P (lift dialled) _ (λ s p. p) (λ c. Keeps-settled true expired c)

    pub Keeps-accept :
        (expired : Bool) (c : Conn)
        → Keeps P (accept new_hash cipher json local_sk discovery expired c)
    unfolding accept close_conn
    Keeps-accept expired c s =
        Keeps-if P (not (c.network == s.tp.net_name)) _ _ (λ s p. p)
          (Keeps-if P s.tp.done _ _ (λ s p. p) (Keeps-settled false expired c)) s

    pub Keeps-dial_once :
        (expired : Bool) (dialled : Outcome Conn)
        → Keeps P (dial_once new_hash cipher json local_sk discovery expired dialled)
    unfolding dial_once
    Keeps-dial_once expired dialled s =
        Keeps-if P s.tp.done _ _ (λ s p. p)
          (Keeps-if P (is_some new_hash cipher json local_sk discovery s.tp.conn) _ _ (λ s p. p)
            (Keeps-dial expired dialled))
          s

    pub Keeps-after_packet :
        (n : ℕ) (r : Conn × Outcome (Unit {0}))
        → Keeps P (after_packet new_hash cipher json local_sk discovery n r)
    unfolding after_packet
    Keeps-after_packet n (c, ok u) = λ s p.
        Keeps-if P (ltb packet_header_size n) (on_tp (log_sent (n - packet_header_size))) (pure tt)
          (λ t q. loose.sent t.tp (n - packet_header_size) q) (λ t q. q)
          (record s { tp = record (s.tp) { conn = some c } }) (loose.any_conn s.tp (some c) p)
    Keeps-after_packet n (c, err e) =
        Keeps-then P (clear_conn new_hash cipher json local_sk discovery) (lift (err e)) Keeps-clear
          (λ s p. p)
    Keeps-after_packet n (c, panic) = λ s p. p

    pub Keeps-write :
        (expired : Bool) (dialled : Outcome Conn) (id : RouteId) (pay : Bytes)
        → Keeps P (write_packet new_hash cipher json local_sk discovery expired dialled id pay)
    unfolding write_packet
    Keeps-write expired dialled id pay s =
        Keeps-then P (if s.tp.done then lift (err not_serving) else pure tt) _
          (Keeps-if P s.tp.done _ _ (λ s p. p) (λ s p. p))
          (Keeps-then P
            (if is_some new_hash cipher json local_sk discovery s.tp.conn
              then pure tt
              else wrapped redial_failed
                  (dial new_hash cipher json local_sk discovery expired dialled))
            _
            (Keeps-if P (is_some new_hash cipher json local_sk discovery s.tp.conn) _ _ (λ s p. p)
              (Keeps-dial expired dialled))
            (λ t.
              Keeps-bind P (lift (deref t.tp.conn)) _ (λ s p. p)
                (λ c.
                  Keeps-bind P (lift (make_packet id pay)) _ (λ s p. p)
                    (λ packet. Keeps-after_packet (length packet) (write packet c)))
                t))
          s

    pub Keeps-counted :
        (packet : Packet) → Keeps P (counted new_hash cipher json local_sk discovery packet)
    unfolding counted
    Keeps-counted packet =
        Keeps-then P
          (if ltb packet_header_size (length packet)
            then on_tp (log_recv (length packet - packet_header_size))
            else pure tt)
          (pure packet)
          (Keeps-if P (ltb packet_header_size (length packet)) _ _
            (λ s p. loose.received s.tp (length packet - packet_header_size) p) (λ s p. p))
          (λ s p. p)

    pub Keeps-read_from : (c : Conn) → Keeps P (read_from new_hash cipher json local_sk discovery c)
    unfolding read_from
    Keeps-read_from c =
        Keeps-bind P
          (lift (read_bytes new_hash cipher json local_sk discovery packet_header_size c)) _
          (λ s p. p)
          (λ r.
            Keeps-bind P (lift (size (r.1))) _ (λ s p. p)
              (λ n.
                Keeps-bind P (lift (read_bytes new_hash cipher json local_sk discovery n (r.0))) _
                  (λ s p. p)
                  (λ q s p.
                    Keeps-counted (r.1 ++ q.1)
                      (record s { tp = record (s.tp) { conn = some (q.0) } })
                      (loose.any_conn s.tp (some (q.0)) p))))

    pub Keeps-read_or_wait :
        (o : Option Conn) → Keeps P (read_or_wait new_hash cipher json local_sk discovery o)
    unfolding read_or_wait
    Keeps-read_or_wait none = λ s p.
        Keeps-if P s.tp.done (lift (err not_serving)) (pure none) (λ s p. p) (λ s p. p)
          (record s { tp = record (s.tp) { signal = false } }) (loose.any_signal s.tp false p)
    Keeps-read_or_wait (some c) =
        Keeps-bind P (read_from new_hash cipher json local_sk discovery c) _ (Keeps-read_from c)
          (λ packet s p. p)

    pub Keeps-read : Keeps P (read_packet new_hash cipher json local_sk discovery)
    unfolding read_packet
    Keeps-read s = Keeps-read_or_wait s.tp.conn s

    pub Keeps-log_mod : Keeps {D = D} P log_mod
    unfolding log_mod
    Keeps-log_mod s p = loose.no_updates s.tp p

    pub Keeps-tick :
        (expired : Bool) (dialled : Outcome Conn)
        → Keeps P (tick new_hash cipher json local_sk discovery expired dialled)
    unfolding tick record_entry
    Keeps-tick expired dialled = Keeps-bind P log_mod _ Keeps-log_mod (λ modified s.
        Keeps-if P modified record_entry
          (if is_some new_hash cipher json local_sk discovery s.tp.conn
            then pure tt
            else logged (dial new_hash cipher json local_sk discovery expired dialled))
          (λ s p. p)
          (Keeps-if P (is_some new_hash cipher json local_sk discovery s.tp.conn) (pure tt)
            (logged (dial new_hash cipher json local_sk discovery expired dialled)) (λ s p. p)
            (Keeps-dial expired dialled))
          s)
