-- ===== src/Hypervisor/Users/Storage.antt =====
-- user.go: the database of users as a partial function from names to users.
use skywire_mainnet_old.Base.{
  >>=-eq-ok, Bool, Bool-cases, Bytes, Error, Option, Outcome, ap, bind_ok, err, false,
  if◌then◌else◌, inl, inr, list_eq, nat_eq, none, not, ok, panic, refl, some, true, ℕ, ◌&&◌, ◌==◌,
  ◌↔◌, ◌∙◌, ◌≡◌, ◌⊎◌,
}
use skywire_mainnet_old.Base.Step.{Step, after-ok, after, pure}
use skywire_mainnet_old.Base.Bolt.{Bolt, IsBolt}
use skywire_mainnet_old.Hypervisor.Users.{
  User, UserCodec, catch, catch_read, decode_found, bolt_user, is_there, put_user, add_if_new,
  set_if_there, bolt_add_user, bolt_set_user, bolt_remove_user,
}

-- A user is decoded from its encoding.
pub record IsFaithful (codec : UserCodec) : Type 0 where
  pub user_back : (u : User) → codec.decode (codec.encode u) ≡ ok u

-- The database has failed, the process has ended and the state is as before; or a value is returned for which `Q` holds.
abbrev pub Ends : {B A : Type 0} → (Error → Type 0) → B → B × Outcome A → (B → A → Type 0) → Type 0
Ends {B} {A} Failure b m Q =
    ((e : Error) × Failure e × (m ≡ (b, panic))) ⊎ ((b' : B) × (a : A) × (m ≡ (b', ok a)) × Q b' a)

abbrev pub user_at : {B : Type 0} → Bolt B → UserCodec → Bytes → B → Outcome (Option User)
user_at db codec name b = decode_found db codec (db.get name b)

-- The users after a call, of which `b` says whether it has put `u`.
abbrev pub IsChanged : {B : Type 0} → Bolt B → UserCodec → Bool → User → B → B → Type 0
IsChanged db codec b u users users' =
    (name : Bytes)
    → user_at db codec name users'
      ≡ (if b && u.name == name then ok (some u) else user_at db codec name users)

module _ {B : Type 0} (db : Bolt B) (sequence : B → ℕ) (Failure : Error → Type 0)
    (bolt : IsBolt db sequence Failure) where
  update_ends :
      {A : Type 0} (f : Step B A) (b b' : B) (a : A) (Q : B → A → Type 0)
      → f b ≡ (b', ok a)
      → Q b' a
      → Ends Failure b (catch (db.update f b)) Q
  update_ends f b b' a Q done holds = elim (bolt.commits f b b' a done) [
    | inl p ↦ rw p (inr (b', a, refl, holds))
    | inr q ↦ let (e, fails, p) = q in rw p (inl (e, fails, refl))
  ]

  update_dies :
      {A : Type 0} (f : Step B A) (b b' : B) (e : Error) (Q : B → A → Type 0)
      → Failure e
      → f b ≡ (b', err e)
      → Ends Failure b (catch (db.update f b)) Q
  update_dies f b b' e Q fails done = rw (bolt.rolls_back f b b' e done) (inl (e, fails, refl))

  module _ (codec : UserCodec) (faithful : IsFaithful codec) where
    put_IsChanged :
        (u : User) (users users' : B)
        → ((j : Bytes)
            → db.get j users' ≡ (if u.name == j then some (codec.encode u) else db.get j users))
        → IsChanged db codec true u users users'
    put_IsChanged u users users' got name = elim (Bool-cases (u.name == name)) [
      | inl same ↦ rw (got name, same) put_back
      | inr other ↦ rw (got name, other) refl
    ]
      where
        put_back : decode_found db codec (some (codec.encode u)) ≡ ok (some u)
        put_back = unfold decode_found in bind_ok (λ v. ok (some v)) (faithful.user_back u) refl

    put_user_ends :
        (f : Step B Bool) (u : User) (users : B)
        → f users ≡ put_user db codec u users
        → Ends Failure users
            (catch (db.update f users))
            (λ users' done. (done ≡ true) × IsChanged db codec true u users users')
    put_user_ends f u users puts = elim (bolt.put_tries u.name (codec.encode u) users) [
      | inl (c, v, put, (got, kept)) ↦
          update_ends f users c true _ (puts ∙ after-ok (λ _. pure true) put refl)
            (refl, put_IsChanged u users c got)
      | inr (c, e, failed, fails) ↦
          update_dies f users c e _ fails (puts ∙ ap (λ m. after m (λ _. pure true)) failed)
    ]

    add_ends :
        (u : User) (users : B) (taken : Bool)
        → is_there db codec u.name users ≡ taken
        → Ends Failure users
            (bolt_add_user db codec u users)
            (λ users' added. (added ≡ not taken) × IsChanged db codec (not taken) u users users')
    unfolding bolt_add_user
    add_ends u users true h =
        update_ends (add_if_new db codec u) users users false _ (rw h refl) (refl, λ name. refl)
    add_ends u users false h = put_user_ends (add_if_new db codec u) u users (rw h refl)

    set_ends :
        (u : User) (users : B) (taken : Bool)
        → is_there db codec u.name users ≡ taken
        → Ends Failure users
            (bolt_set_user db codec u users)
            (λ users' put. (put ≡ taken) × IsChanged db codec taken u users users')
    unfolding bolt_set_user
    set_ends u users false h =
        update_ends (set_if_there db codec u) users users false _ (rw h refl) (refl, λ name. refl)
    set_ends u users true h = put_user_ends (set_if_there db codec u) u users (rw h refl)

    remove_ends :
        (gone : Bytes) (users : B)
        → Ends Failure users (bolt_remove_user db codec gone users) (λ users' _.
          (name : Bytes)
          → user_at db codec name users'
            ≡ (if gone == name then ok none else user_at db codec name users))
    unfolding bolt_remove_user
    remove_ends gone users = elim (bolt.delete_tries gone users) [
      | inl (c, v, done, (got, kept)) ↦
          update_ends (db.delete gone) users c v _ done (λ name. without c got name)
      | inr (c, e, failed, fails) ↦ update_dies (db.delete gone) users c e _ fails failed
    ]
      where
        without :
            (c : B)
            → ((j : Bytes) → db.get j c ≡ (if gone == j then none else db.get j users))
            → (name : Bytes)
            → user_at db codec name c
              ≡ (if gone == name then ok none else user_at db codec name users)
        without c got name = elim (Bool-cases (gone == name)) [
          | inl same ↦ rw (got name, same) (unfold decode_found in refl)
          | inr other ↦ rw (got name, other) refl
        ]

    user_read :
        (asked : Bytes) (users : B)
        → (bolt_user db codec asked users ≡ catch_read (user_at db codec asked users))
          ⊎ ((e : Error) × Failure e × (bolt_user db codec asked users ≡ panic))
    unfolding bolt_user
    user_read asked users = elim (bolt.views (λ b. decode_found db codec (db.get asked b)) users) [
      | inl seen ↦ inl (ap catch_read seen)
      | inr (e, fails, failed) ↦ inr (e, fails, ap catch_read failed)
    ]

    found_or_not :
        (o : Option Bytes)
        → ((elim o [ none ↦ false | some raw ↦ true ]) ≡ false)
          ↔ (decode_found db codec o ≡ ok none)
    unfolding decode_found
    found_or_not none = (λ h. refl, λ h. refl)
    found_or_not (some raw) = (
      λ h. cc,
      λ h. let (u, decoded, found) = >>=-eq-ok (codec.decode raw) (λ u. ok (some u)) h in cc found,
    )

    -- The database implements a partial function from names to users, of which `taken` says whether it
    -- is defined at the user's name. Each call returns, or the database has failed, the process ends and
    -- the database is as it was. When they return, AddUser has succeeded exactly if the name was not taken, and SetUser exactly if it
    -- was; where they succeed, the function is changed at the user's name to this user, and otherwise not
    -- at all; RemoveUser has made it undefined at the name; and User is its value. What was encoded is
    -- decoded to the same user, the database has put and deleted what it was told to or has failed,
    -- and a transaction with an error changes nothing.
    pub bolt_user_refines :
        (u : User) (gone asked : Bytes) (users : B)
        → (taken : Bool) × ((taken ≡ false) ↔ (user_at db codec u.name users ≡ ok none))
          × Ends Failure users
              (bolt_add_user db codec u users)
              (λ users' added. (added ≡ not taken) × IsChanged db codec (not taken) u users users')
          × Ends Failure users
              (bolt_set_user db codec u users)
              (λ users' put. (put ≡ taken) × IsChanged db codec taken u users users')
          × Ends Failure users (bolt_remove_user db codec gone users) (λ users' _.
            (name : Bytes)
            → user_at db codec name users'
              ≡ (if gone == name then ok none else user_at db codec name users))
          × ((bolt_user db codec asked users ≡ catch_read (user_at db codec asked users))
              ⊎ ((e : Error) × Failure e × (bolt_user db codec asked users ≡ panic)))
    bolt_user_refines u gone asked users =
        let taken = is_there db codec u.name users in
        (
          taken,
          found_or_not (db.get u.name users),
          add_ends u users taken refl,
          set_ends u users taken refl,
          remove_ends gone users,
          user_read asked users,
        )
