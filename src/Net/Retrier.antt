-- ===== src/Net/Retrier.antt =====
-- internal/netutil/retrier.go. The function that is retried acts on a state; what is slept is kept, the
-- last first. A time.Duration is its 64 bits.
pub mod Attempts
use skywire_mainnet_old.Base.{
  >>=-eq-ok, All, AllBytes, Bool, Bool-cases, Bytes, Comparable, Distinct, Error, List, Map, Option,
  Option-cases, Outcome, Outcome-cases, [], accept_write_failed, ap, arith, bad_init, bad_signature,
  be_bytes, beq_refl, bind_ok, byte_at, callback_failed, clamp_uint64, closed_pipe, confirm_failed,
  conn_already_exists, contains, contains-append, copy_at, copy_at-end, corrupted_rule,
  deadline_exceeded, dial_failed, drop, drop-append_left, empty_packet, empty_response, eof, err,
  false, flat, flat-append, flat-snoc, from_be, from_be-be_bytes, from_be-inj, get_elem?, gtb,
  if◌then◌else◌, inl, inr, insert, insert-Distinct, invalid_pk_file, invalid_port,
  invalid_remote_signature, invalid_summary, io_failed, leb, leb→le, length, length-append,
  length-be_bytes, length-insert_new, length-remove_present, length-replicate, length-take, le→leb,
  list_beq, list_beq_iff, list_eq, lookup, lookup-insert, lookup-insert_ne, lookup-insert_self,
  lookup-remove, lookup-remove_all, lookup-remove_ne, lookup-remove_self, ltb, ltb→lt, lt→ltb,
  malformed_json, manager_closing, map, maximum_retries_reached, nat_beq, nat_beq_iff, nat_eq,
  negsuc, no_available_route_ids, no_reserved_id, no_route_found, no_routes, no_setup_node, none,
  not, not_serving, ok, or_err, panic, port_already_bound, port_not_bound, pos, put_be,
  put_be-append, put_field, read_be, read_entry_failed, read_field, read_full, read_full-append,
  read_response_failed, redial_failed, refl, remove, remove-Distinct, remove_all, replicate,
  request_failed, reservation_failed, resp_failure, reverse_rule_not_forward, route_setup_failed,
  rule_not_found, rule_timed_out, rules_failed, settlement_failed, settlement_rejected, shortage,
  sign_failed, slice, slice-append, slice_field, some, sub_ℕ, suc, sym, take, take-append-drop,
  take-append_left, to_int64, transport_failed, transport_not_found, true, unexpected_app,
  unexpected_eof, unexpected_frame, unexpected_version, unknown_foundation_packet, unknown_loop,
  unknown_rule, unknown_transport, unknown_transport_type, unsupported_version, write_entry_failed,
  wrong_entry_edges, wrong_entry_id, wrong_entry_public, wrong_entry_type, wrong_network,
  wrong_number_of_ids, zero, ℕ, ℤ, ◌%◌, ◌&&◌, ◌*◌, ◌++◌, ◌+◌, ◌-◌, ◌/◌, ◌<◌, ◌==◌, ◌^◌, ◌||◌, ◌↔◌,
  ◌∙◌, ◌∷◌, ◌≡◌, ◌≢◌, ◌≤◌, ◌⊎◌,
}
use skywire_mainnet_old.Base.Step.{Step}

pub record Retrier : Type 0 where
  pub exponential_backoff : ℕ
  pub exponential_factor : ℕ
  pub times : ℕ
  pub is_whitelisted : Error → Bool

abbrev pub new_retrier : ℕ → ℕ → ℕ → Retrier
new_retrier backoff times factor = record {
  exponential_backoff = backoff;
  exponential_factor = factor;
  times = times;
  is_whitelisted = λ e. false;
}

-- `errors` is the set of the errors given.
abbrev pub with_err_whitelist : (Error → Bool) → Retrier → Retrier
with_err_whitelist errors r = record r { is_whitelisted = errors }

unfoldable pub next_backoff : Retrier → ℕ → ℕ
next_backoff r current = (current * r.exponential_factor) % 2 ^ 64

-- The state of the function, and what was slept.
pub record Run (S : Type 0) : Type 0 where
  pub state : S
  pub slept : List ℕ

module _ {S : Type 0} (r : Retrier) (f : Step S (Unit {0})) where
  -- One attempt; `none` says that another is to follow.
  unfoldable pub judge : ℕ → List ℕ → S × Outcome (Unit {0}) → Run S × Option (Outcome (Unit {0}))
  judge backoff slept (s, ok u) = (record { state = s; slept = slept }, some (ok u))
  judge backoff slept (s, panic) = (record { state = s; slept = slept }, some panic)
  judge backoff slept (s, err e) =
      if r.is_whitelisted e
      then (record { state = s; slept = slept }, some (err e))
      else (record { state = s; slept = backoff ∷ slept }, none)

  unfoldable pub attempt : ℕ → Run S → Run S × Option (Outcome (Unit {0}))
  unfolding judge
  attempt backoff run = judge backoff run.slept (f run.state)

  -- What follows an attempt.
  unfoldable pub or_again :
      {B : Type 0}
      → (Run S → B)
      → (Run S → Outcome (Unit {0}) → B)
      → Run S × Option (Outcome (Unit {0}))
      → B
  or_again again done (run, none) = again run
  or_again again done (run, some o) = done run o

  -- The loop with `n` attempts left.
  unfoldable pub retry_n_times : ℕ → ℕ → Run S → Run S × Outcome (Unit {0})
  unfolding or_again
  retry_n_times zero current run = (run, err maximum_retries_reached)
  retry_n_times (suc n) current run =
      let backoff = next_backoff r current in
      or_again (retry_n_times n backoff) (λ run o. (run, o)) (attempt backoff run)

  -- The endless loop, for `n` rounds; `none`: it still runs.
  unfoldable pub retry_until_success : ℕ → ℕ → Run S → Run S × Option (Outcome (Unit {0}))
  unfolding or_again
  retry_until_success zero current run = (run, none)
  retry_until_success (suc n) current run =
      let backoff = next_backoff r current in
      or_again (retry_until_success n backoff) (λ run o. (run, some o)) (attempt backoff run)

  -- Do, for at most `n` rounds when it retries for ever.
  unfoldable pub do_retry : ℕ → Run S → Run S × Option (Outcome (Unit {0}))
  do_retry n run =
      if nat_beq r.times 0
      then retry_until_success n r.exponential_backoff run
      else (let (run', o) = retry_n_times r.times r.exponential_backoff run in (run', some o))
