-- ===== src/Hypervisor/Sessions/Changes.antt =====
-- user_manager.go: what a login and a change of the password do to the sessions.
use skywire_mainnet_old.Base.{
  Bool-cases, Bytes, Distinct, Map, [], arith, false, if◌then◌else◌, inl, inr, insert, list_beq_iff,
  list_eq, lookup, lookup-insert_self, ltb, nat_eq, none, ok, refl, remove, some, true, ℕ, ◌++◌,
  ◌+◌, ◌↔◌, ◌∙◌, ◌∷◌, ◌≡◌, ◌≢◌, ◌⊎◌,
}
use skywire_mainnet_old.Hypervisor.Users.{User, UserStore, verify_password, password_format_okay}
use skywire_mainnet_old.Hypervisor.Users.Passwords.{set_password-verify_password}
use skywire_mainnet_old.Hypervisor.Sessions.{
  SessionId, Session, UserManager, Credentials, Passwords, status_ok, session, session_at,
  session_of, is_verified, login, login_with, new_session, change_password,
  del_all_sessions_of_user, without_user,
}
use skywire_mainnet_old.Hypervisor.Sessions.Access.{session_of_late, session_of_early}

module _ (sum_sha256 : Bytes → Bytes) {S : Type 0} (store : UserStore S)
    (expires_duration : ℕ) where
  without_user_absent :
      (name : Bytes) (sid : SessionId) (m : Map SessionId Session)
      → lookup sid m ≡ none
      → lookup sid (without_user sum_sha256 store expires_duration name m) ≡ none
  unfolding without_user lookup
  without_user_absent name sid [] h = refl
  without_user_absent name sid ((j, held) ∷ m) h = ground (arith, without_user_absent name sid m)

  without_user-lookup :
      (name : Bytes) (sid : SessionId) (found : Session) (m : Map SessionId Session)
      → Distinct m
      → (lookup sid (without_user sum_sha256 store expires_duration name m) ≡ some found)
        ↔ ((lookup sid m ≡ some found) × (found.user ≢ name))
  unfolding without_user lookup
  without_user-lookup name sid found [] d = ground arith
  without_user-lookup name sid found ((j, held) ∷ m) d = ground (
    arith,
    list_beq_iff j sid,
    list_beq_iff held.user name,
    without_user_absent name sid m,
    without_user-lookup name sid found m d.1,
  )

  login_with_opens :
      (now : ℕ) (sid : SessionId) (rb : Credentials) (u : User) (s : UserManager S)
      → store.user rb.username s.db ≡ ok (some u)
      → verify_password sum_sha256 rb.password u ≡ true
      → login_with sum_sha256 store expires_duration now sid (some rb) s ≡ (
        record s {
          sessions =
              insert sid
                (record { sid = sid; user = rb.username; expiry = now + expires_duration })
                s.sessions;
        },
        ok status_ok,
      )
  unfolding login_with new_session is_verified
  login_with_opens now sid rb u s stored good = rw stored (rw good refl)

  session_held :
      (later : ℕ) (sid : SessionId) (held : Session) (u : User) (s : UserManager S)
      → lookup sid s.sessions ≡ some held
      → store.user held.user s.db ≡ ok (some u)
      → session sum_sha256 store expires_duration later (some sid) s
        ≡ session_of sum_sha256 store expires_duration later sid held (some u) s
  unfolding session session_at
  session_held later sid held u s there stored = rw there (rw stored refl)

  -- A login opens a session. With no cookie, and the name and the right password of a stored user, Login
  -- succeeds; from then on a request with the new session's cookie is the user's until the session
  -- expires, and the first one after that is nobody's and removes the session.
  pub login-session :
      (now : ℕ) (sid : SessionId) (rb : Credentials) (u : User) (s : UserManager S)
      → store.user rb.username s.db ≡ ok (some u)
      → verify_password sum_sha256 rb.password u ≡ true
      → (s' : UserManager S) × (opened : Session) × (login sum_sha256 store expires_duration now sid
            none
            (some rb)
            s
          ≡ (s', ok status_ok))
        × (opened ≡ record { sid = sid; user = rb.username; expiry = now + expires_duration })
        × ((later : ℕ)
            → session sum_sha256 store expires_duration later (some sid) s' ≡ (
                if ltb (now + expires_duration) later
                then (record s' { sessions = remove sid s'.sessions }, ok none)
                else (s', ok (some (u, opened)))))
  unfolding login session
  login-session now sid rb u s stored good =
      let held : Session = record {
        sid = sid;
        user = rb.username;
        expiry = now + expires_duration;
      } in
      let s' : UserManager S = record s { sessions = insert sid held s.sessions } in
      (
        s',
        held,
        login_with_opens now sid rb u s stored good,
        refl,
        λ later.
            session_held later sid held u s' (lookup-insert_self sid held s.sessions) stored
            ∙ split later sid held u s' (Bool-cases (ltb held.expiry later)),
      )
    where
      split :
          (later : ℕ) (sid : SessionId) (held : Session) (u : User) (s : UserManager S)
          → (ltb held.expiry later ≡ true) ⊎ (ltb held.expiry later ≡ false)
          → session_of sum_sha256 store expires_duration later sid held (some u) s ≡ (
              if ltb held.expiry later
              then (record s { sessions = remove sid s.sessions }, ok none)
              else (s, ok (some (u, held))))
      split later sid held u s (inl late) =
          session_of_late sum_sha256 store expires_duration later sid held u s late ∙ rw late refl
      split later sid held u s (inr early) =
          session_of_early sum_sha256 store expires_duration later sid held u s early
          ∙ rw early refl

  -- Changing the password ends every session of the user. With the right old password and a new one of
  -- 6 to 64 bytes, and a store that takes the changed user, ChangePassword succeeds; the new password
  -- then verifies for the user that was stored, whose name is as before; and the sessions that are left
  -- are exactly those of other users.
  pub change_password-without_user :
      (salt : Bytes) (rb : Passwords) (u : User) (current : Session) (s : UserManager S) (d : S)
      → Distinct s.sessions
      → verify_password sum_sha256 rb.old_password u ≡ true
      → password_format_okay rb.new_password ≡ true
      → store.set_user
          (record u { pw_salt = salt; pw_hash = sum_sha256 (rb.new_password ++ salt) })
          s.db
        ≡ (d, ok true)
      → (s' : UserManager S) × (change_password sum_sha256 store expires_duration salt
            (some rb)
            u
            current
            s
          ≡ (s', ok status_ok))
        × (s'.db ≡ d)
        × (verify_password sum_sha256 rb.new_password
              (record u { pw_salt = salt; pw_hash = sum_sha256 (rb.new_password ++ salt) })
            ≡ true)
        × ((sid : SessionId) (found : Session)
            → (lookup sid s'.sessions ≡ some found)
              ↔ ((lookup sid s.sessions ≡ some found) × (found.user ≢ u.name)))
  unfolding change_password del_all_sessions_of_user
  change_password-without_user salt rb u current s d distinct old good stored =
      let (accepted, verifies) =
        set_password-verify_password sum_sha256 salt rb.new_password u good in
      (
        record s {
          db = d;
          sessions = without_user sum_sha256 store expires_duration u.name s.sessions;
        },
        rw (old, accepted) (rw stored refl),
        refl,
        verifies,
        λ sid found. without_user-lookup u.name sid found s.sessions distinct,
      )
