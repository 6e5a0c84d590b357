-- ===== src/Transport/Managed/Steps.antt =====
-- managed_transport.go: the life of a transport as steps, one for each call of a method.
use skywire_mainnet_old.Base.{
  Bool, Bytes, Outcome, [], arith, false, inl, inr, list_eq, nat_eq, refl, sym, true, ◌∙◌, ◌≡◌, ◌⊎◌,
}
use skywire_mainnet_old.Routing.Addr.{PubKey, TransportId, RouteId}
use skywire_mainnet_old.Transport.Entry.{SecKey, Cipher}
use skywire_mainnet_old.Transport.Discovery.{Discovery}
use skywire_mainnet_old.Transport.Handshake.{Conn, EntryJson}
use skywire_mainnet_old.Transport.Managed.{
  ManagedTransport, MtState, clear_conn, accept, dial_once, write_packet, read_packet, tick, close,
  new_managed_transport,
}
use skywire_mainnet_old.Transport.Managed.Keeping.{
  Serving, Ended, Keeps-accept, Keeps-dial_once, Keeps-write, Keeps-read, Keeps-clear, Keeps-tick,
}
use skywire_mainnet_old.Transport.Managed.Ending.{
  At-IsLoose, ended_accept, ended_dial, ended_write, ended_read, ended_clear, ended_close, closing,
}

true-false : true ≡ false → ⊥
true-false h = cc

module _ (new_hash : Bytes → TransportId) (cipher : Cipher) (json : EntryJson) (local_sk : SecKey)
    {D : Type 0} (discovery : Discovery D) where
  -- Another holder of the transport calls one of its methods, or its loops go on. The redial loop
  -- ends with the service.
  pub data Event (s : MtState D) : MtState D → Type 0 where
    accepts :
        (expired : Bool) (c : Conn)
        → Event s (accept new_hash cipher json local_sk discovery expired c s).0
    dials :
        (expired : Bool) (dialled : Outcome Conn)
        → Event s (dial_once new_hash cipher json local_sk discovery expired dialled s).0
    writes :
        (expired : Bool) (dialled : Outcome Conn) (id : RouteId) (pay : Bytes)
        → Event s (write_packet new_hash cipher json local_sk discovery expired dialled id pay s).0
    reads : Event s (read_packet new_hash cipher json local_sk discovery s).0
    clears : Event s (clear_conn new_hash cipher json local_sk discovery s).0
    ticks :
        (expired : Bool) (dialled : Outcome Conn)
        → s.tp.done ≡ false
        → Event s (tick new_hash cipher json local_sk discovery expired dialled s).0
    closes : Event s (close new_hash cipher json local_sk discovery s).0

  pub data Reach (s : MtState D) : MtState D → Type 0 where
    here : Reach s s
    next : {t u : MtState D} → Reach s t → Event t u → Reach s u

  module _ (mt0 : ManagedTransport) where
    Ended-Event : (s t : MtState D) → Event s t → Ended mt0 s.tp → Ended mt0 t.tp
    Ended-Event s _ (accepts expired c) h =
        ended_accept new_hash cipher json local_sk discovery mt0 s h expired c
    Ended-Event s _ (dials expired o) h =
        ended_dial new_hash cipher json local_sk discovery mt0 s h expired o
    Ended-Event s _ (writes expired o id pay) h =
        ended_write new_hash cipher json local_sk discovery mt0 s h expired o id pay
    Ended-Event s _ reads h = ended_read new_hash cipher json local_sk discovery mt0 s h
    Ended-Event s _ clears h = ended_clear new_hash cipher json local_sk discovery mt0 s h
    Ended-Event s _ (ticks expired o serving) h = absurd (true-false (sym h.0 ∙ serving))
    Ended-Event s _ closes h = ended_close new_hash cipher json local_sk discovery mt0 s h

    Event-cases :
        (s t : MtState D) → Event s t → Serving mt0 s.tp → Serving mt0 t.tp ⊎ Ended mt0 t.tp
    Event-cases s _ (accepts expired c) h = inl (
        Keeps-accept new_hash cipher json local_sk discovery (Serving mt0) (At-IsLoose false mt0)
          expired c s h)
    Event-cases s _ (dials expired o) h = inl (
        Keeps-dial_once new_hash cipher json local_sk discovery (Serving mt0) (At-IsLoose false mt0)
          expired o s h)
    Event-cases s _ (writes expired o id pay) h = inl (
        Keeps-write new_hash cipher json local_sk discovery (Serving mt0) (At-IsLoose false mt0)
          expired o id pay s h)
    Event-cases s _ reads h = inl (
        Keeps-read new_hash cipher json local_sk discovery (Serving mt0) (At-IsLoose false mt0) s h)
    Event-cases s _ clears h = inl (
        Keeps-clear new_hash cipher json local_sk discovery (Serving mt0) (At-IsLoose false mt0) s
          h)
    Event-cases s _ (ticks expired o serving) h = inl (
        Keeps-tick new_hash cipher json local_sk discovery (Serving mt0) (At-IsLoose false mt0)
          expired o s h)
    Event-cases s _ closes h = inr (closing new_hash cipher json local_sk discovery mt0 s h)

    -- Once a transport has ended it stays so, and never holds a connection again, whatever calls
    -- follow.
    pub Reach-Ended : (s t : MtState D) → Reach s t → Ended mt0 s.tp → Ended mt0 t.tp
    Reach-Ended s _ here h = h
    Reach-Ended s _ (next {t} {u} r e) h = Ended-Event t u e (Reach-Ended s t r h)

    Reach-cases :
        (s t : MtState D) → Reach s t → Serving mt0 s.tp → Serving mt0 t.tp ⊎ Ended mt0 t.tp
    Reach-cases s _ here h = inl h
    Reach-cases s _ (next {t} {u} r e) h = elim (Reach-cases s t r h) [
      | inl serving ↦ Event-cases t u e serving
      | inr ended ↦ inr (Ended-Event t u e ended)
    ]

  -- After any calls of the methods of a new transport, in any order and whatever the peer, the
  -- network and the discovery do: either it is served, or its service has ended and it holds no
  -- connection. Its entry, remote key and network are those it was made with, its byte counters are
  -- below 2^64 and its count of log updates is below 2^32.
  pub new_managed_transport-Reach :
      (local_pk remote_pk : PubKey) (net_name : Bytes) (dc : D) (t : MtState D)
      → Reach
          (record {
            tp = new_managed_transport new_hash cipher json local_pk remote_pk net_name;
            dc = dc;
            closed = [];
            recorded = [];
          })
          t
      → Serving (new_managed_transport new_hash cipher json local_pk remote_pk net_name) t.tp
        ⊎ Ended (new_managed_transport new_hash cipher json local_pk remote_pk net_name) t.tp
  new_managed_transport-Reach local_pk remote_pk net_name dc t r =
      Reach-cases (new_managed_transport new_hash cipher json local_pk remote_pk net_name) _ t r (
        refl,
        record {
          same_entry = refl;
          same_remote = refl;
          same_network = refl;
          recv_fits = omega arith;
          sent_fits = omega arith;
          updates_fit = omega arith;
        },
      )
