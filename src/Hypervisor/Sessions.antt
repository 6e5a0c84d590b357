-- ===== src/Hypervisor/Sessions.antt =====
-- pkg/hypervisor/user_manager.go: the HTTP handlers as steps on the users and sessions, which give the
-- status of the response. A request's cookie is the session ID that securecookie reads from it, none
-- without a cookie or with a bad one; its body is what encoding/json reads. New session IDs, salts and
-- the time are arguments. What is set in the response's cookie and the bodies of responses are left out.
pub mod Access
pub mod Changes
use skywire_mainnet_old.Base.{
  >>=-eq-ok, All, AllBytes, Bool, Bool-cases, Bytes, Comparable, Distinct, Error, List, Map, Option,
  Option-cases, Outcome, Outcome-cases, [], accept_write_failed, ap, arith, bad_init, bad_signature,
  be_bytes, beq_refl, bind_ok, byte_at, callback_failed, clamp_uint64, closed_pipe, confirm_failed,
  conn_already_exists, contains, contains-append, copy_at, copy_at-end, corrupted_rule,
  deadline_exceeded, dial_failed, drop, drop-append_left, empty_packet, empty_response, eof, err,
  false, flat, flat-append, flat-snoc, from_be, from_be-be_bytes, from_be-inj, get_elem?, gtb,
  if◌then◌else◌, inl, inr, insert, insert-Distinct, invalid_pk_file, invalid_port,
  invalid_remote_signature, invalid_summary, io_failed, leb, leb→le, length, length-append,
  length-be_bytes, length-insert_new, length-remove_present, length-replicate, length-take, le→leb,
  list_beq, list_beq_iff, list_eq, lookup, lookup-insert, lookup-insert_ne, lookup-insert_self,
  lookup-remove, lookup-remove_all, lookup-remove_ne, lookup-remove_self, ltb, ltb→lt, lt→ltb,
  malformed_json, manager_closing, map, maximum_retries_reached, nat_beq, nat_beq_iff, nat_eq,
  negsuc, no_available_route_ids, no_reserved_id, no_route_found, no_routes, no_setup_node, none,
  not, not_serving, ok, or_err, panic, port_already_bound, port_not_bound, pos, put_be,
  put_be-append, put_field, read_be, read_entry_failed, read_field, read_full, read_full-append,
  read_response_failed, redial_failed, refl, remove, remove-Distinct, remove_all, replicate,
  request_failed, reservation_failed, resp_failure, reverse_rule_not_forward, route_setup_failed,
  rule_not_found, rule_timed_out, rules_failed, settlement_failed, settlement_rejected, shortage,
  sign_failed, slice, slice-append, slice_field, some, sub_ℕ, suc, sym, take, take-append-drop,
  take-append_left, to_int64, transport_failed, transport_not_found, true, unexpected_app,
  unexpected_eof, unexpected_frame, unexpected_version, unknown_foundation_packet, unknown_loop,
  unknown_rule, unknown_transport, unknown_transport_type, unsupported_version, write_entry_failed,
  wrong_entry_edges, wrong_entry_id, wrong_entry_public, wrong_entry_type, wrong_network,
  wrong_number_of_ids, zero, ℕ, ℤ, ◌%◌, ◌&&◌, ◌*◌, ◌++◌, ◌+◌, ◌-◌, ◌/◌, ◌<◌, ◌==◌, ◌^◌, ◌||◌, ◌↔◌,
  ◌∙◌, ◌∷◌, ◌≡◌, ◌≢◌, ◌≤◌, ◌⊎◌,
}
use skywire_mainnet_old.Base.{◌>>=◌ as ◌&>◌}
use skywire_mainnet_old.Base.Step.{Step, ◌>>=◌, ◌>>◌, get, pure, lift}
use skywire_mainnet_old.Hypervisor.Users.{
  User, UserStore, no_user, set_name, set_password, verify_password,
}

abbrev pub SessionId : Type 0
SessionId = Bytes

pub record Session : Type 0 where
  pub sid : SessionId
  pub user : Bytes
  pub expiry : ℕ

pub record UserManager (S : Type 0) : Type 0 where
  pub db : S
  pub sessions : Map SessionId Session

abbrev pub new_user_manager : {S : Type 0} → S → UserManager S
new_user_manager users = record { db = users; sessions = [] }

-- The two fields of the bodies.
pub record Credentials : Type 0 where
  pub username : Bytes
  pub password : Bytes

pub record Passwords : Type 0 where
  pub old_password : Bytes
  pub new_password : Bytes

-- http.StatusOK and the others that the handlers write
pub data Reply : Type 0 where
  status_ok bad_request unauthorized forbidden : Reply

module _ (sum_sha256 : Bytes → Bytes) {S : Type 0} (store : UserStore S)
    (expires_duration : ℕ) where
  abbrev pub on_db {ℓ} : {A : Type ℓ} → Step S A → Step (UserManager S) A
  on_db m = λ s. let (d, r) = m s.db in (record s { db = d }, r)

  unfoldable pub new_session : SessionId → Session → Step (UserManager S) (Unit {0})
  new_session sid session =
      λ s. (record s { sessions = insert sid (record session { sid = sid }) s.sessions }, ok tt)

  unfoldable pub drop_session : SessionId → Step (UserManager S) (Unit {0})
  drop_session sid = λ s. (record s { sessions = remove sid s.sessions }, ok tt)

  -- delSession; an error without a cookie, or with a bad one.
  unfoldable pub del_session : Option SessionId → Step (UserManager S) Bool
  unfolding drop_session
  del_session none = pure false
  del_session (some sid) = do drop_session sid; pure true

  unfoldable pub without_user : Bytes → Map SessionId Session → Map SessionId Session
  without_user name [] = []
  without_user name ((sid, session) ∷ rest) =
      let others = without_user name rest in
      if session.user == name then others else (sid, session) ∷ others

  unfoldable pub del_all_sessions_of_user : Bytes → Step (UserManager S) (Unit {0})
  del_all_sessions_of_user name = λ s. (record s { sessions = without_user name s.sessions }, ok tt)

  -- What `session` does with the session and the user that it has found.
  unfoldable pub session_of :
      ℕ → SessionId → Session → Option User → Step (UserManager S) (Option (User × Session))
  unfolding drop_session
  session_of now sid session none = pure none
  session_of now sid session (some user) =
      if ltb session.expiry now
      then (do drop_session sid; pure none)
      else pure (some (user, session))

  unfoldable pub session_at :
      ℕ → SessionId → Option Session → Step (UserManager S) (Option (User × Session))
  unfolding session_of
  session_at now sid none = pure none
  session_at now sid (some session) = do
    s ← get
    user ← lift (store.user session.user s.db)
    session_of now sid session user

  -- The method session.
  unfoldable pub session : ℕ → Option SessionId → Step (UserManager S) (Option (User × Session))
  unfolding session_at
  session now none = pure none
  session now (some sid) = do s ← get; session_at now sid (lookup sid s.sessions)

  unfoldable pub is_verified : Bytes → Option User → Bool
  is_verified password none = false
  is_verified password (some user) = verify_password sum_sha256 password user

  -- Login without a session.
  unfoldable pub login_with : ℕ → SessionId → Option Credentials → Step (UserManager S) Reply
  unfolding is_verified
  login_with now sid none = pure bad_request
  login_with now sid (some rb) = do
    s ← get
    user ← lift (store.user rb.username s.db)
    if is_verified rb.password user
        then (do
          new_session sid (record { sid = []; user = rb.username; expiry = now + expires_duration })
          pure status_ok)
        else pure unauthorized

  unfoldable pub login :
      ℕ → SessionId → Option SessionId → Option Credentials → Step (UserManager S) Reply
  unfolding login_with
  login now sid cookie body = do
    current ← session now cookie
    elim current [ some c ↦ pure forbidden | none ↦ login_with now sid body ]

  unfoldable pub logout : Option SessionId → Step (UserManager S) Reply
  logout cookie = do deleted ← del_session cookie; pure (if deleted then status_ok else bad_request)

  -- `next` is the handler behind the middleware.
  unfoldable pub authorize :
      ℕ
      → Option SessionId
      → (User → Session → Step (UserManager S) Reply)
      → Step (UserManager S) Reply
  authorize now cookie next = do
    current ← session now cookie
    elim current [ some c ↦ next c.0 c.1 | none ↦ pure unauthorized ]

  unfoldable pub change_password :
      Bytes → Option Passwords → User → Session → Step (UserManager S) Reply
  change_password salt none user current = pure bad_request
  change_password salt (some rb) user current =
      if not (verify_password sum_sha256 rb.old_password user)
      then pure unauthorized
      else (let (user, accepted) = set_password sum_sha256 salt rb.new_password user in
          if not accepted then pure bad_request else (do
            stored ← on_db (store.set_user user)
            if not stored
                then pure forbidden
                else (do del_all_sessions_of_user user.name; pure status_ok)))

  unfoldable pub create_account : Bytes → Option Credentials → Step (UserManager S) Reply
  create_account salt none = pure bad_request
  create_account salt (some rb) =
      let (user, named) = set_name rb.username no_user in
      if not named
      then pure bad_request
      else (let (user, accepted) = set_password sum_sha256 salt rb.password user in
          if not accepted then pure bad_request else (do
            added ← on_db (store.add_user user)
            pure (if added then status_ok else forbidden)))

  -- The sessions that UserInfo lists beside the current one.
  unfoldable pub other_sessions : User → Session → Map SessionId Session → List Session
  other_sessions user current [] = []
  other_sessions user current ((sid, s) ∷ rest) =
      let others = other_sessions user current rest in
      if s.user == user.name && not (s.sid == current.sid) then s ∷ others else others
