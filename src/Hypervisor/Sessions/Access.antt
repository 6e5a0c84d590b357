-- ===== src/Hypervisor/Sessions/Access.antt =====
-- user_manager.go: who has a session.
use skywire_mainnet_old.Base.{
  Bool-cases, Bytes, Option, Outcome, ap, arith, err, false, inl, inr, list_eq, lookup, ltb, nat_eq,
  none, ok, panic, refl, remove, some, sym, true, ℕ, ◌∙◌, ◌≡◌, ◌≤◌,
}
use mathlib.Core.Path.{subst}
use skywire_mainnet_old.Base.Step.{after-eq-ok}
use skywire_mainnet_old.Hypervisor.Users.{User, UserStore}
use skywire_mainnet_old.Hypervisor.Sessions.{
  SessionId, Session, UserManager, session, session_at, session_of, drop_session,
}

absent_ne : {A : Type 0} {x : A} → ok none ≡ ok (some x) → ⊥
absent_ne h = cc

pick : {A : Type 0} → A → Outcome (Option A) → A
pick a (ok (some b)) = b
pick a (ok none) = a
pick a (err e) = a
pick a panic = a

module _ (sum_sha256 : Bytes → Bytes) {S : Type 0} (store : UserStore S)
    (expires_duration : ℕ) where
  -- What a request must have for its user to be known.
  abbrev pub HasSession : ℕ → Option SessionId → UserManager S → User → Session → Type 0
  HasSession now cookie s user found =
      (sid : SessionId) × (cookie ≡ some sid)
      × (lookup sid s.sessions ≡ some found)
      × (store.user found.user s.db ≡ ok (some user))
      × (now ≤ found.expiry)

  pub session_of_late :
      (now : ℕ) (sid : SessionId) (held : Session) (u : User) (s : UserManager S)
      → ltb held.expiry now ≡ true
      → session_of sum_sha256 store expires_duration now sid held (some u) s
        ≡ (record s { sessions = remove sid s.sessions }, ok none)
  unfolding session_of drop_session
  session_of_late now sid held u s late = rw late refl

  pub session_of_early :
      (now : ℕ) (sid : SessionId) (held : Session) (u : User) (s : UserManager S)
      → ltb held.expiry now ≡ false
      → session_of sum_sha256 store expires_duration now sid held (some u) s
        ≡ (s, ok (some (u, held)))
  unfolding session_of
  session_of_early now sid held u s early = rw early refl

  session_of_found :
      (now : ℕ) (sid : SessionId) (held : Session) (o : Option User) (s s' : UserManager S)
      (user : User) (found : Session)
      → session_of sum_sha256 store expires_duration now sid held o s
        ≡ (s', ok (some (user, found)))
      → (s' ≡ s) × (held ≡ found) × (o ≡ some user) × (now ≤ held.expiry)
  unfolding session_of pick
  session_of_found now sid held none s s' user found h = absurd (absent_ne (ap (λ q. q.1) h))
  session_of_found now sid held (some u) s s' user found h =
      elim (Bool-cases (ltb held.expiry now)) [
        | inl late ↦
            absurd (absent_ne (ap (λ q. q.1) (sym (session_of_late now sid held u s late) ∙ h)))
        | inr early ↦
            (let e = sym (session_of_early now sid held u s early) ∙ h in
              let both = ap (λ q. pick (u, held) q.1) e in
              (sym (ap (λ q. q.0) e), ap (λ q. q.1) both, ap (λ q. some (q.0)) both, ground arith))
      ]

  session_at_found :
      (now : ℕ) (sid : SessionId) (o : Option Session) (s s' : UserManager S) (user : User)
      (found : Session)
      → session_at sum_sha256 store expires_duration now sid o s ≡ (s', ok (some (user, found)))
      → (s' ≡ s)
        × (o ≡ some found)
        × (store.user found.user s.db ≡ ok (some user))
        × (now ≤ found.expiry)
  unfolding session_at
  session_at_found now sid none s s' user found h = absurd (absent_ne (ap (λ q. q.1) h))
  session_at_found now sid (some held) s s' user found h =
      let (t, o, ran, rest) =
        after-eq-ok (s, store.user held.user s.db)
          (session_of sum_sha256 store expires_duration now sid held) h in
      let (same, is, there, early) = session_of_found now sid held o t s' user found rest in
      (
        same ∙ sym (ap (λ q. q.0) ran),
        ap some is,
        ap (λ x. store.user x.user s.db) (sym is) ∙ (ap (λ q. q.1) ran ∙ ap ok there),
        subst (λ x. now ≤ x.expiry) is early,
      )

  -- A request gets a user only with a session: if `session` finds a user and a session for a request,
  -- the session is kept under the ID in the request's cookie and has not expired, the user is the
  -- stored user of the session's name, and nothing has changed.
  pub session-HasSession :
      (now : ℕ) (cookie : Option SessionId) (s s' : UserManager S) (user : User) (found : Session)
      → session sum_sha256 store expires_duration now cookie s ≡ (s', ok (some (user, found)))
      → (s' ≡ s) × HasSession now cookie s user found
  unfolding session
  session-HasSession now none s s' user found h = absurd (absent_ne (ap (λ q. q.1) h))
  session-HasSession now (some sid) s s' user found h =
      let (same, held, stored, early) =
        session_at_found now sid (lookup sid s.sessions) s s' user found h in
      (same, (sid, refl, held, stored, early))
