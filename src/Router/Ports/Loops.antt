-- ===== src/Router/Ports/Loops.antt =====
-- loop_list.go and port_manager.go: the loops of the bound ports.
use skywire_mainnet_old.Base.{
  ◌≡◌, refl, Bool, true, false, ◌&&◌, [], ◌∷◌, Option, none, some, Map, lookup, insert, remove, map,
  lookup-insert, lookup-remove, Outcome, ok, err, panic, or_err, ◌>>=◌, port_not_bound,
  unknown_loop, nat_eq, if◌then◌else◌, nat_beq, nat_beq_iff, contains, arith, ◌⊎◌, inl, inr,
  Option-cases, ◌∙◌,
}
use skywire_mainnet_old.Routing.Addr.{Addr, addr_eq, addr_beq, Port}
use skywire_mainnet_old.Router.Ports.{
  LoopEntry, PortBind, PortList, set_loop, remove_loop, get_loop, get_bind, get_port, set_port,
  close_port, remove_port, drop_all,
}

-- What GetLoop answers from an optional bind.
abbrev pub loop_in : Addr → Option PortBind → Outcome LoopEntry
loop_in a o = do b ← or_err port_not_bound o; or_err unknown_loop (lookup a b.loops)

abbrev pub at : Port → Addr → Port → Addr → Bool
at p a q c = nat_beq p q && addr_beq a c

module _ (port : Port) (raddr : Addr) (pm : PortList) where
  pub set_loop_bound :
      (l : LoopEntry) (b : PortBind)
      → get_port port pm ≡ some b
      → set_loop port raddr l pm
        ≡ (set_port port (record b { loops = insert raddr l b.loops }) pm, ok tt)
  unfolding set_loop
  set_loop_bound l b e = rw (e, set_loop)

  pub get_loop-set_port :
      (b : PortBind) (q : Port) (a : Addr)
      → get_loop q a (set_port port b pm)
        ≡ (if nat_beq port q then loop_in a (some b) else get_loop q a pm)
  unfolding get_loop get_bind get_port set_port
  get_loop-set_port b q a = rw (lookup-insert port q b pm.ports) (ground arith)

  get_loop_bound :
      (b : PortBind) (a : Addr)
      → get_port port pm ≡ some b
      → get_loop port a pm ≡ loop_in a (some b)
  unfolding get_loop get_bind
  get_loop_bound b a e = rw e

  -- SetLoop on a bound port succeeds, and GetLoop then finds the loop at that port and address, and
  -- answers as before everywhere else; on a port that is not bound it fails and changes nothing.
  pub set_loop-get_loop :
      (l : LoopEntry)
      → ((get_port port pm ≡ none) × (set_loop port raddr l pm ≡ (pm, err port_not_bound)))
        ⊎ (((set_loop port raddr l pm).1 ≡ ok tt)
            × ((q : Port) (a : Addr)
                → get_loop q a (set_loop port raddr l pm).0
                  ≡ (if at port raddr q a then ok l else get_loop q a pm)))
  set_loop-get_loop l = elim (Option-cases (get_port port pm)) [
    | inl e ↦ inl (e, unfold set_loop in rw (e, set_loop))
    | inr (b, e) ↦ inr (
      rw (set_loop_bound l b e),
      λ q a. rw (set_loop_bound l b e) (
          get_loop-set_port (record b { loops = insert raddr l b.loops }) q a
          ∙ ground
              (arith, nat_beq_iff port q, lookup-insert raddr a l b.loops, get_loop_bound b a e)),
    )
  ]

  remove_loop_bound :
      (b : PortBind)
      → get_port port pm ≡ some b
      → remove_loop port raddr pm
        ≡ (set_port port (record b { loops = remove raddr b.loops }) pm, ok tt)
  unfolding remove_loop get_bind
  remove_loop_bound b e = rw (e, remove_loop)

  -- RemoveLoop on a bound port succeeds, and GetLoop then answers `unknown loop` at that port and
  -- address and as before everywhere else; on a port that is not bound it fails and changes nothing.
  pub remove_loop-get_loop :
      ((get_port port pm ≡ none) × (remove_loop port raddr pm ≡ (pm, err port_not_bound)))
      ⊎ (((remove_loop port raddr pm).1 ≡ ok tt)
          × ((q : Port) (a : Addr)
              → get_loop q a (remove_loop port raddr pm).0
                ≡ (if at port raddr q a then err unknown_loop else get_loop q a pm)))
  remove_loop-get_loop = elim (Option-cases (get_port port pm)) [
    | inl e ↦ inl (e, unfold remove_loop get_bind in rw (e, remove_loop))
    | inr (b, e) ↦ inr (
      rw (remove_loop_bound b e),
      λ q a. rw (remove_loop_bound b e) (
          get_loop-set_port (record b { loops = remove raddr b.loops }) q a
          ∙ ground
              (arith, nat_beq_iff port q, lookup-remove raddr a b.loops, get_loop_bound b a e)),
    )
  ]

contains-keys {κ} :
    {V : Type κ} (a : Addr) (m : Map Addr V)
    → contains a (map (λ e. e.0) m) ≡ elim (lookup a m) [ none ↦ false | some _ ↦ true ]
unfolding contains lookup
contains-keys a [] = refl
contains-keys a ((b, v) ∷ m) = ground (arith, contains-keys a m)

abbrev pub is_ok {ℓ} : {A : Type ℓ} → Outcome A → Bool
is_ok (ok a) = true
is_ok (err e) = false
is_ok panic = false

-- Close returns an address exactly when GetLoop found a loop at it on that port; after it GetLoop
-- fails with `port is not bound` on that port, and answers as before on all others.
pub close_port-get_loop :
    (port : Port) (pm : PortList) (a : Addr) (q : Port)
    → (contains a (close_port port pm).1 ≡ is_ok (get_loop port a pm))
      × (get_loop q a (close_port port pm).0
          ≡ (if nat_beq port q then err port_not_bound else get_loop q a pm))
unfolding close_port remove_port get_loop get_bind get_port drop_all
close_port-get_loop port pm a q = (
  elim (Option-cases (lookup port pm.ports)) [
    | inl e ↦ rw e (unfold contains in refl)
    | inr (b, e) ↦ rw e (contains-keys a b.loops ∙ ground arith)
  ],
  rw (lookup-remove port q pm.ports) (ground arith),
)
