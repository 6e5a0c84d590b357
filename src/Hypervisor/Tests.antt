-- ===== src/Hypervisor/Tests.antt =====
-- Runs of the user store and the session handlers, with a hash that is the identity and a codec that
-- puts the lengths before the fields.
use skywire_mainnet_old.Base.{
  Bool, Bytes, Distinct, Error, Outcome, [], bind_ok, eof, err, false, if◌then◌else◌, length,
  list_beq, list_eq, lookup, ltb, nat_eq, none, not, ok, panic, read_full, read_full-append, refl,
  remove, replicate, some, true, ℕ, ◌++◌, ◌==◌, ◌>>=◌, ◌↔◌, ◌∷◌, ◌≡◌, ◌≢◌, ◌⊎◌,
}
use skywire_mainnet_old.Base.Bolt.Memory.{Memory, memory, memory-IsBolt}
use skywire_mainnet_old.Hypervisor.Users.{
  User, UserCodec, UserStore, password_format_okay, bolt_user, bolt_add_user, bolt_set_user,
  bolt_remove_user, verify_password, catch_read,
}
use skywire_mainnet_old.Hypervisor.Users.Storage.{
  IsFaithful, Ends, IsChanged, user_at, bolt_user_refines,
}
use skywire_mainnet_old.Hypervisor.Sessions.{
  SessionId, Session, UserManager, status_ok, new_user_manager, session, login, change_password,
}
use skywire_mainnet_old.Hypervisor.Sessions.Access.{HasSession, session-HasSession}
use skywire_mainnet_old.Hypervisor.Sessions.Changes.{login-session, change_password-without_user}

get : Bytes → Outcome (Bytes × Bytes)
get [] = err eof
get (n ∷ b) = read_full eof n b

decode_user : Bytes → Outcome User
decode_user b = do
  (name, b) ← get b
  (salt, b) ← get b
  (hash, b) ← get b
  ok (record { name = name; pw_salt = salt; pw_hash = hash })

abbrev put : Bytes → Bytes → Bytes
put b rest = length b ∷ (b ++ rest)

get-put : (b rest : Bytes) → get (put b rest) ≡ ok (b, rest)
unfolding get
get-put b rest = read_full-append eof (length b) b rest refl

abbrev toy_codec : UserCodec
toy_codec = record {
  encode = λ u. put u.name (put u.pw_salt (put u.pw_hash []));
  decode = decode_user;
}

toy_IsFaithful : IsFaithful toy_codec
unfolding decode_user
toy_IsFaithful = record {
  user_back = λ u.
      bind_ok (λ r. _) (get-put u.name _)
        (bind_ok (λ r. _) (get-put u.pw_salt _) (bind_ok (λ r. _) (get-put u.pw_hash []) refl));
}

abbrev same_hash : Bytes → Bytes
same_hash b = b

-- The name "admin", the password "secret".
abbrev admin : Bytes
admin = 97 ∷ 100 ∷ 109 ∷ 105 ∷ 110 ∷ []

abbrev secret : Bytes
secret = 115 ∷ 101 ∷ 99 ∷ 114 ∷ 101 ∷ 116 ∷ []

abbrev admin_user : User
admin_user = record { name = admin; pw_salt = []; pw_hash = secret }

abbrev one_user : Memory
one_user = record { counter = 0; held = (admin, toy_codec.encode admin_user) ∷ [] }

bolt_user_refines_example :
    (taken : Bool) × ((taken ≡ false) ↔ (user_at memory toy_codec admin one_user ≡ ok none))
    × Ends
        (λ e. ⊥)
        one_user
        (bolt_add_user memory toy_codec admin_user one_user)
        (λ users' added.
          (added ≡ not taken) × IsChanged memory toy_codec (not taken) admin_user one_user users')
    × Ends
        (λ e. ⊥)
        one_user
        (bolt_set_user memory toy_codec admin_user one_user)
        (λ users' put. (put ≡ taken) × IsChanged memory toy_codec taken admin_user one_user users')
    × Ends
        (λ e. ⊥)
        one_user
        (bolt_remove_user memory toy_codec admin one_user)
        (λ users' _.
          (name : Bytes)
          → user_at memory toy_codec name users'
            ≡ (if admin == name then ok none else user_at memory toy_codec name one_user))
    × ((bolt_user memory toy_codec admin one_user
          ≡ catch_read (user_at memory toy_codec admin one_user))
        ⊎ ((e : Error) × ⊥ × (bolt_user memory toy_codec admin one_user ≡ panic)))
bolt_user_refines_example =
    bolt_user_refines memory (λ b. b.counter) (λ e. ⊥) memory-IsBolt toy_codec toy_IsFaithful
      admin_user admin admin one_user

-- A store of one user that takes every change.
abbrev toy_store : UserStore User
toy_store = record {
  user = λ name u. ok (if name == u.name then some u else none);
  add_user = λ u s. (s, ok false);
  set_user = λ u s. (u, ok true);
  remove_user = λ name s. (s, ok tt);
}

abbrev sid_1 : SessionId
sid_1 = replicate 16 1

abbrev held : Session
held = record { sid = sid_1; user = admin; expiry = 50 }

abbrev logged_in : UserManager User
logged_in = record { db = admin_user; sessions = (sid_1, held) ∷ [] }

admin_stored : toy_store.user admin admin_user ≡ ok (some admin_user)
unfolding list_beq
admin_stored = refl

secret_verifies : verify_password same_hash secret admin_user ≡ true
unfolding verify_password list_beq
secret_verifies = refl

has_session :
    session same_hash toy_store 10 40 (some sid_1) logged_in
    ≡ (logged_in, ok (some (admin_user, held)))
unfolding session lookup list_beq
has_session = refl

session-HasSession_example :
    (logged_in ≡ logged_in)
    × HasSession same_hash toy_store 10 40 (some sid_1) logged_in admin_user held
session-HasSession_example =
    session-HasSession same_hash toy_store 10 40 (some sid_1) logged_in logged_in admin_user held
      has_session

login-session_example :
    (s' : UserManager User) × (opened : Session) × (login same_hash toy_store 10 40 sid_1 none
        (some (record { username = admin; password = secret }))
        (new_user_manager admin_user)
      ≡ (s', ok status_ok))
    × (opened ≡ held)
    × ((later : ℕ)
        → session same_hash toy_store 10 later (some sid_1) s' ≡ (
            if ltb 50 later
            then (record s' { sessions = remove sid_1 s'.sessions }, ok none)
            else (s', ok (some (admin_user, opened)))))
login-session_example =
    login-session same_hash toy_store 10 40 sid_1 (record { username = admin; password = secret })
      admin_user (new_user_manager admin_user) admin_stored secret_verifies

abbrev fresh_salt : Bytes
fresh_salt = replicate 16 3

logged_in-Distinct : Distinct logged_in.sessions
logged_in-Distinct = (unfold lookup in refl, tt)

change_password-without_user_example :
    (s' : UserManager User) × (change_password same_hash toy_store 10 fresh_salt
        (some (record { old_password = secret; new_password = replicate 6 7 }))
        admin_user
        held
        logged_in
      ≡ (s', ok status_ok))
    × (s'.db ≡ record admin_user { pw_salt = fresh_salt; pw_hash = replicate 6 7 ++ fresh_salt })
    × (verify_password same_hash
          (replicate 6 7)
          (record admin_user { pw_salt = fresh_salt; pw_hash = replicate 6 7 ++ fresh_salt })
        ≡ true)
    × ((sid : SessionId) (found : Session)
        → (lookup sid s'.sessions ≡ some found)
          ↔ ((lookup sid logged_in.sessions ≡ some found) × (found.user ≢ admin)))
change_password-without_user_example =
    change_password-without_user same_hash toy_store 10 fresh_salt
      (record { old_password = secret; new_password = replicate 6 7 }) admin_user held logged_in
      (record admin_user { pw_salt = fresh_salt; pw_hash = replicate 6 7 ++ fresh_salt })
      logged_in-Distinct secret_verifies long_enough refl
  where
    long_enough : password_format_okay (replicate 6 7) ≡ true
    long_enough = unfold password_format_okay in refl
