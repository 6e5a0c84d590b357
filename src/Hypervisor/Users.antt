-- ===== src/Hypervisor/Users.antt =====
-- pkg/hypervisor/user.go. SHA-256 and the encoding of a user (encoding/gob) are parameters, the random
-- salt is an argument.
pub mod Passwords
pub mod Storage
use skywire_mainnet_old.Base.{
  >>=-eq-ok, All, AllBytes, Bool, Bool-cases, Bytes, Comparable, Distinct, Error, List, Map, Option,
  Option-cases, Outcome, Outcome-cases, [], accept_write_failed, ap, arith, bad_init, bad_signature,
  be_bytes, beq_refl, bind_ok, byte_at, callback_failed, clamp_uint64, closed_pipe, confirm_failed,
  conn_already_exists, contains, contains-append, copy_at, copy_at-end, corrupted_rule,
  deadline_exceeded, dial_failed, drop, drop-append_left, empty_packet, empty_response, eof, err,
  false, flat, flat-append, flat-snoc, from_be, from_be-be_bytes, from_be-inj, get_elem?, gtb,
  if◌then◌else◌, inl, inr, insert, insert-Distinct, invalid_pk_file, invalid_port,
  invalid_remote_signature, invalid_summary, io_failed, leb, leb→le, length, length-append,
  length-be_bytes, length-insert_new, length-remove_present, length-replicate, length-take, le→leb,
  list_beq, list_beq_iff, list_eq, lookup, lookup-insert, lookup-insert_ne, lookup-insert_self,
  lookup-remove, lookup-remove_all, lookup-remove_ne, lookup-remove_self, ltb, ltb→lt, lt→ltb,
  malformed_json, manager_closing, map, maximum_retries_reached, nat_beq, nat_beq_iff, nat_eq,
  negsuc, no_available_route_ids, no_reserved_id, no_route_found, no_routes, no_setup_node, none,
  not, not_serving, ok, or_err, panic, port_already_bound, port_not_bound, pos, put_be,
  put_be-append, put_field, read_be, read_entry_failed, read_field, read_full, read_full-append,
  read_response_failed, redial_failed, refl, remove, remove-Distinct, remove_all, replicate,
  request_failed, reservation_failed, resp_failure, reverse_rule_not_forward, route_setup_failed,
  rule_not_found, rule_timed_out, rules_failed, settlement_failed, settlement_rejected, shortage,
  sign_failed, slice, slice-append, slice_field, some, sub_ℕ, suc, sym, take, take-append-drop,
  take-append_left, to_int64, transport_failed, transport_not_found, true, unexpected_app,
  unexpected_eof, unexpected_frame, unexpected_version, unknown_foundation_packet, unknown_loop,
  unknown_rule, unknown_transport, unknown_transport_type, unsupported_version, write_entry_failed,
  wrong_entry_edges, wrong_entry_id, wrong_entry_public, wrong_entry_type, wrong_network,
  wrong_number_of_ids, zero, ℕ, ℤ, ◌%◌, ◌&&◌, ◌*◌, ◌++◌, ◌+◌, ◌-◌, ◌/◌, ◌<◌, ◌==◌, ◌>>=◌, ◌>>◌, ◌^◌,
  ◌||◌, ◌↔◌, ◌∙◌, ◌∷◌, ◌≡◌, ◌≢◌, ◌≤◌, ◌⊎◌,
}
use skywire_mainnet_old.Base.Step.{Step, after, pure}
use skywire_mainnet_old.Base.Bolt.{Bolt}

pub record User : Type 0 where
  pub name : Bytes
  pub pw_salt : Bytes
  pub pw_hash : Bytes

abbrev pub no_user : User
no_user = record { name = []; pw_salt = []; pw_hash = [] }

abbrev between : ℕ → ℕ → ℕ → Bool
between lo hi n = leb lo n && leb n hi

-- [a-z0-9_-]
abbrev is_name_byte : ℕ → Bool
is_name_byte b = between 97 122 b || (between 48 57 b || (nat_beq b 95 || nat_beq b 45))

all_name_bytes : Bytes → Bool
all_name_bytes [] = true
all_name_bytes (b ∷ bs) = is_name_byte b && all_name_bytes bs

unfoldable pub username_format_okay : Bytes → Bool
unfolding all_name_bytes
username_format_okay name = between 4 21 (length name) && all_name_bytes name

unfoldable pub password_format_okay : Bytes → Bool
password_format_okay pass = if ltb (length pass) 6 || ltb 64 (length pass) then false else true

unfoldable pub set_name : Bytes → User → User × Bool
set_name name u =
    if not (username_format_okay name) then (u, false) else (record u { name = name }, true)

module _ (sum_sha256 : Bytes → Bytes) where
  unfoldable pub set_password : Bytes → Bytes → User → User × Bool
  set_password salt password u =
      if not (password_format_okay password)
      then (u, false)
      else (record u { pw_salt = salt; pw_hash = sum_sha256 (password ++ salt) }, true)

  unfoldable pub verify_password : Bytes → User → Bool
  verify_password password u = sum_sha256 (password ++ u.pw_salt) == u.pw_hash

-- The interface UserStore.
pub record UserStore (S : Type 0) : Type 0 where
  pub user : Bytes → S → Outcome (Option User)
  pub add_user : User → Step S Bool
  pub set_user : User → Step S Bool
  pub remove_user : Bytes → Step S (Unit {0})

-- User.Encode and DecodeUser, which panics on an error.
pub record UserCodec : Type 0 where
  pub encode : User → Bytes
  pub decode : Bytes → Outcome User

-- catch, which ends the process after an error.
abbrev pub catch_read {ℓ} : {A : Type ℓ} → Outcome A → Outcome A
catch_read (err e) = panic
catch_read r = r

abbrev pub catch {ℓ} : {B : Type 0} {A : Type ℓ} → B × Outcome A → B × Outcome A
catch (b, r) = (b, catch_read r)

-- The BoltUserStore over the bucket of a database.
module _ {B : Type 0} (db : Bolt B) (codec : UserCodec) where
  unfoldable pub decode_found : Option Bytes → Outcome (Option User)
  decode_found none = ok none
  decode_found (some raw) = do u ← codec.decode raw; ok (some u)

  unfoldable pub bolt_user : Bytes → B → Outcome (Option User)
  unfolding decode_found
  bolt_user name b = catch_read (db.view (λ users. decode_found (db.get name users)) b)

  abbrev pub is_there : Bytes → B → Bool
  is_there name users = elim (db.get name users) [ none ↦ false | some raw ↦ true ]

  abbrev pub put_user : User → Step B Bool
  put_user u = λ users. after (db.put u.name (codec.encode u) users) (λ _. pure true)

  abbrev pub add_if_new : User → Step B Bool
  add_if_new u = λ users. if is_there u.name users then (users, ok false) else put_user u users

  abbrev pub set_if_there : User → Step B Bool
  set_if_there u = λ users. if is_there u.name users then put_user u users else (users, ok false)

  unfoldable pub bolt_add_user : User → Step B Bool
  bolt_add_user u = λ b. catch (db.update (add_if_new u) b)

  unfoldable pub bolt_set_user : User → Step B Bool
  bolt_set_user u = λ b. catch (db.update (set_if_there u) b)

  unfoldable pub bolt_remove_user : Bytes → Step B (Unit {0})
  bolt_remove_user name = λ b. catch (db.update (db.delete name) b)

  abbrev pub new_bolt_user_store : UserStore B
  new_bolt_user_store = record {
    user = bolt_user;
    add_user = bolt_add_user;
    set_user = bolt_set_user;
    remove_user = bolt_remove_user;
  }

module _ {S : Type 0} (username : Bytes) (users : UserStore S) where
  abbrev pub allow_name : Bytes → Bool
  allow_name name = name == username

  unfoldable pub single_user : Bytes → S → Outcome (Option User)
  single_user name s = if allow_name name then users.user name s else ok none

  unfoldable pub single_add_user : User → Step S Bool
  single_add_user u = λ s. if allow_name u.name then users.add_user u s else (s, ok false)

  unfoldable pub single_set_user : User → Step S Bool
  single_set_user u = λ s. if allow_name u.name then users.set_user u s else (s, ok false)

  unfoldable pub single_remove_user : Bytes → Step S (Unit {0})
  single_remove_user name = λ s. if allow_name name then users.remove_user name s else (s, ok tt)

  abbrev pub new_single_user_store : UserStore S
  new_single_user_store = record {
    user = single_user;
    add_user = single_add_user;
    set_user = single_set_user;
    remove_user = single_remove_user;
  }
