-- ===== src/Transport/Managed/Ending.antt =====
-- managed_transport.go: what Close does, and what every method does afterwards.
use skywire_mainnet_old.Base.{
  Bool, Bool-cases, Bytes, Error, Option, Outcome, arith, err, false, if◌then◌else◌, inl, inr,
  list_eq, ltb, nat_eq, none, not, not_serving, refl, some, sym, true, ◌<◌, ◌==◌, ◌^◌, ◌∙◌, ◌≡◌,
}
use mathlib.Core.Path.{subst}
use skywire_mainnet_old.Base.Step.{Step, after, ◌>>◌, pure, lift, logged}
use skywire_mainnet_old.Routing.Addr.{TransportId, RouteId}
use skywire_mainnet_old.Transport.Entry.{SecKey, Cipher}
use skywire_mainnet_old.Transport.Discovery.{Discovery}
use skywire_mainnet_old.Transport.Handshake.{Conn, EntryJson}
use skywire_mainnet_old.Transport.Managed.{
  ManagedTransport, MtState, close_conn, add_recv, add_sent, on_tp, drop_conn, log_mod,
  record_entry, serve_end, close_once, log_sent, log_recv, clear_conn, accept, dial_once,
  write_packet, read_or_wait, read_packet, close, update_status,
}
use skywire_mainnet_old.Transport.Managed.Keeping.{
  IsFor, Serving, Ended, IsLoose, Keeps, Keeps-if, Keeps-then, Keeps-bind, Keeps-update,
  keeps_after,
}

-- `Serving`, or the same with the service over.
abbrev pub At : Bool → ManagedTransport → ManagedTransport → Type 0
At d mt0 mt = (mt.done ≡ d) × IsFor mt0 mt

pub At-IsLoose : (d : Bool) (mt0 : ManagedTransport) → IsLoose (At d mt0)
unfolding log_sent log_recv add_sent add_recv
At-IsLoose d mt0 = record {
  any_conn = λ mt c h. (
    h.0,
    kept mt h.1 (record mt { conn = c }) refl refl refl h.1.recv_fits h.1.sent_fits h.1.updates_fit,
  );
  any_signal = λ mt b h. (
    h.0,
    kept mt h.1 (record mt { signal = b }) refl refl refl h.1.recv_fits h.1.sent_fits
        h.1.updates_fit,
  );
  no_updates = λ mt h. (
    h.0,
    kept mt h.1 (record mt { log_updates = 0 }) refl refl refl h.1.recv_fits h.1.sent_fits
        (omega arith),
  );
  sent = λ mt n h.
      (h.0, kept mt h.1 (log_sent n mt) refl refl refl h.1.recv_fits (omega arith) (omega arith));
  received = λ mt n h.
      (h.0, kept mt h.1 (log_recv n mt) refl refl refl (omega arith) h.1.sent_fits (omega arith));
}
  where
    kept :
        (mt : ManagedTransport)
        → IsFor mt0 mt
        → (mt' : ManagedTransport) → mt'.entry ≡ mt.entry
        → mt'.remote_pk ≡ mt.remote_pk
        → mt'.net_name ≡ mt.net_name
        → mt'.log_entry.recv_bytes < 2 ^ 64
        → mt'.log_entry.sent_bytes < 2 ^ 64
        → mt'.log_updates < 2 ^ 32
        → IsFor mt0 mt'
    kept mt h mt' p q r a b c = record {
      same_entry = p ∙ h.same_entry;
      same_remote = q ∙ h.same_remote;
      same_network = r ∙ h.same_network;
      recv_fits = a;
      sent_fits = b;
      updates_fit = c;
    }

module _ {D : Type 0} where
  drop_conn-none :
      (o : Option Conn) (s : MtState D) → s.tp.conn ≡ o → ((drop_conn o s).0.tp.conn) ≡ none
  unfolding drop_conn
  drop_conn-none none s h = h
  drop_conn-none (some c) s h = refl

  drop_after :
      (b : Bool) (s : MtState D)
      → (((if b then record_entry else pure tt) >> (λ t. drop_conn t.tp.conn t)) s).0.tp.conn ≡ none
  unfolding record_entry
  drop_after true s = drop_conn-none s.tp.conn _ refl
  drop_after false s = drop_conn-none s.tp.conn s refl

  pub Keeps-serve_end : (P : ManagedTransport → Type 0) → IsLoose P → Keeps {D = D} P serve_end
  unfolding serve_end record_entry log_mod drop_conn
  Keeps-serve_end P loose =
      Keeps-bind P log_mod
        (λ m. (if m then record_entry else pure tt) >> (λ t. drop_conn t.tp.conn t))
        (λ s p. loose.no_updates s.tp p)
        (λ modified.
          Keeps-then P (if modified then record_entry else pure tt) (λ t. drop_conn t.tp.conn t)
            (Keeps-if P modified record_entry (pure tt) (λ s p. p) (λ s p. p))
            (λ s. drop_keeps s.tp.conn s))
    where
      drop_keeps : (o : Option Conn) → Keeps {D = D} P (drop_conn o)
      drop_keeps none s p = p
      drop_keeps (some c) s p = loose.any_conn s.tp none p

  serve_end-none : (s : MtState D) → (serve_end s).0.tp.conn ≡ none
  unfolding serve_end log_mod
  serve_end-none s =
      drop_after (ltb 0 s.tp.log_updates) (record s { tp = record (s.tp) { log_updates = 0 } })

  chosen {ℓ} :
      {A : Type ℓ} (P : ManagedTransport → Type 0) (b c : Bool) (m n : Step (MtState D) A)
      (s : MtState D)
      → b ≡ c
      → P (((if c then m else n) s).0.tp)
      → P (((if b then m else n) s).0.tp)
  chosen P b c m n s e h = subst (λ x. P (((if x then m else n) s).0.tp)) (sym e) h

  stops {ℓ} :
      {A : Type ℓ} (P : ManagedTransport → Type 0) (b : Bool) (e : Error)
      (rest : Step (MtState D) A) (s : MtState D)
      → b ≡ true
      → P s.tp
      → P (((if b then lift (err e) else pure tt) >> rest) s).0.tp
  stops P true e rest s q p = p
  stops P false e rest s q p = cc

  -- What close_once does for the first caller, and what Close does after it.
  abbrev pub close_first : Step (MtState D) Bool
  close_first = do on_tp (λ mt. record mt { done = true }); serve_end; pure true

abbrev reported :
    (Bytes → TransportId)
    → Cipher
    → EntryJson
    → SecKey
    → {D : Type 0} → Discovery D
    → Bool
    → Step (MtState D) (Unit {0})
reported new_hash cipher json local_sk discovery closed =
    if closed then logged (update_status new_hash cipher json local_sk discovery false) else pure tt

module _ (new_hash : Bytes → TransportId) (cipher : Cipher) (json : EntryJson) (local_sk : SecKey)
    {D : Type 0} (discovery : Discovery D) (mt0 : ManagedTransport) where
  module _ (s : MtState D) (h : Ended mt0 s.tp) where
    pub ended_accept :
        (expired : Bool) (c : Conn)
        → Ended mt0 ((accept new_hash cipher json local_sk discovery expired c s).0.tp)
    unfolding accept close_conn
    ended_accept expired c = elim (Bool-cases (not (c.network == s.tp.net_name))) [
      | inl wrong ↦ chosen (Ended mt0) _ true _ _ s wrong h
      | inr right ↦
          chosen (Ended mt0) _ false _ _ s right (chosen (Ended mt0) s.tp.done true _ _ s h.0 h)
    ]

    pub ended_dial :
        (expired : Bool) (dialled : Outcome Conn)
        → Ended mt0 ((dial_once new_hash cipher json local_sk discovery expired dialled s).0.tp)
    unfolding dial_once
    ended_dial expired dialled = chosen (Ended mt0) s.tp.done true _ _ s h.0 h

    pub ended_write :
        (expired : Bool) (dialled : Outcome Conn) (id : RouteId) (pay : Bytes)
        → Ended mt0
            ((write_packet new_hash cipher json local_sk discovery expired dialled id pay s).0.tp)
    unfolding write_packet
    ended_write expired dialled id pay = stops (Ended mt0) s.tp.done not_serving _ s h.0 h

    pub ended_read : Ended mt0 ((read_packet new_hash cipher json local_sk discovery s).0.tp)
    unfolding read_packet read_or_wait
    ended_read =
        subst (λ o. Ended mt0 ((read_or_wait new_hash cipher json local_sk discovery o s).0.tp))
          (sym h.1)
          (chosen (Ended mt0) s.tp.done true (lift (err not_serving)) (pure none)
            (record s { tp = record (s.tp) { signal = false } }) h.0 (h.0, h.1, unsignalled))
      where
        unsignalled : IsFor mt0 (record (s.tp) { signal = false })
        unsignalled = record {
          same_entry = h.2.same_entry;
          same_remote = h.2.same_remote;
          same_network = h.2.same_network;
          recv_fits = h.2.recv_fits;
          sent_fits = h.2.sent_fits;
          updates_fit = h.2.updates_fit;
        }

    pub ended_clear : Ended mt0 ((clear_conn new_hash cipher json local_sk discovery s).0.tp)
    unfolding clear_conn drop_conn
    ended_clear =
        subst
          (λ o.
            Ended mt0
              ((drop_conn o >> logged (update_status new_hash cipher json local_sk discovery false))
                s).0.tp)
          (sym h.1) (Keeps-update new_hash cipher json local_sk discovery (Ended mt0) false s h)

    pub ended_close : Ended mt0 ((close new_hash cipher json local_sk discovery s).0.tp)
    unfolding close close_once
    ended_close =
        subst
          (λ b. Ended mt0 (
            (after ((if b then pure false else close_first) s)
              (reported new_hash cipher json local_sk discovery)).0.tp))
          (sym h.0) h

  -- Close ends the service of a transport and drops its connection.
  pub closing :
      (s : MtState D)
      → Serving mt0 s.tp
      → Ended mt0 ((close new_hash cipher json local_sk discovery s).0.tp)
  unfolding close close_once
  closing s h =
      let over : MtState D = record s { tp = record (s.tp) { done = true } } in
      let start : At true mt0 over.tp = (
        refl,
        record {
          same_entry = h.1.same_entry;
          same_remote = h.1.same_remote;
          same_network = h.1.same_network;
          recv_fits = h.1.recv_fits;
          sent_fits = h.1.sent_fits;
          updates_fit = h.1.updates_fit;
        },
      ) in
      let end = Keeps-serve_end (At true mt0) (At-IsLoose true mt0) over start in
      subst
        (λ b. Ended mt0 (
          (after ((if b then pure false else close_first) s)
            (reported new_hash cipher json local_sk discovery)).0.tp))
        (sym h.0)
        (keeps_after (Ended mt0) (close_first s) (reported new_hash cipher json local_sk discovery)
          (keeps_after (Ended mt0) (serve_end over) (λ u. pure true)
            (end.0, serve_end-none over, end.1) (λ u s p. p))
          (λ b.
            Keeps-if (Ended mt0) b _ _
              (Keeps-update new_hash cipher json local_sk discovery (Ended mt0) false) (λ s p. p)))
