-- ===== src/Base/Results.antt =====
-- What a Go call returns: a value, an error, or a panic.
use mathlib.Core.Path.{◌≡◌, refl}
use mathlib.Core.Logic.{◌⊎◌, inl, inr}
use mathlib.Core.Option.{Option, none, some}

-- One constructor for each error that the modelled code makes (errors.New, fmt.Errorf).
pub data Error : Type 0 where
  invalid_summary no_available_route_ids rule_not_found rule_timed_out : Error
  port_already_bound port_not_bound unknown_loop corrupted_rule unknown_rule : Error
  reverse_rule_not_forward unknown_foundation_packet malformed_json callback_failed : Error
  reservation_failed no_reserved_id empty_packet eof unexpected_eof closed_pipe : Error
  resp_failure wrong_number_of_ids empty_response no_setup_node unknown_transport : Error
  invalid_port io_failed no_routes deadline_exceeded unexpected_frame : Error
  request_failed transport_failed rules_failed confirm_failed route_setup_failed no_route_found
        transport_not_found read_entry_failed wrong_entry_id wrong_entry_edges wrong_entry_type
        wrong_entry_public invalid_remote_signature bad_signature sign_failed write_entry_failed
        read_response_failed settlement_rejected accept_write_failed not_serving conn_already_exists
        wrong_network invalid_pk_file maximum_retries_reached settlement_failed redial_failed
        unknown_transport_type manager_closing dial_failed nonce_failed bad_init unsupported_version
        unexpected_app unexpected_version :
      Error

pub data Outcome {ℓ} (A : Type ℓ) : Type ℓ where
  ok : A → Outcome A
  err : Error → Outcome A
  panic : Outcome A

infixl 5 ◌>>=◌ ◌>>◌
abbrev pub ◌>>=◌ {ℓ κ} : {A : Type ℓ} {B : Type κ} → Outcome A → (A → Outcome B) → Outcome B
ok a >>= f = f a
err e >>= f = err e
panic >>= f = panic

abbrev pub ◌>>◌ {ℓ} : {B : Type ℓ} → Outcome (Unit {0}) → Outcome B → Outcome B
m >> k = m >>= λ _. k

-- The value that is there, or else the error.
abbrev pub or_err {ℓ} : {A : Type ℓ} → Error → Option A → Outcome A
or_err e none = err e
or_err e (some a) = ok a

-- Inversion of a successful bind, where the parts stay shut.
pub >>=-eq-ok {ℓ κ} :
    {A : Type ℓ} {B : Type κ} (call : Outcome A) (next : A → Outcome B) {r : B}
    → (call >>= next) ≡ ok r
    → (v : A) × (call ≡ ok v) × (next v ≡ ok r)
>>=-eq-ok (ok v) next e = (v, refl, e)
>>=-eq-ok panic next e = cc
>>=-eq-ok (err _) next e = cc

pub bind_ok {ℓ κ} :
    {A : Type ℓ} {B : Type κ} {m : Outcome A} {a : A} (f : A → Outcome B) {r : Outcome B}
    → m ≡ ok a
    → f a ≡ r
    → (m >>= f) ≡ r
bind_ok f p q = rw p q

pub Outcome-cases {ℓ} :
    {A : Type ℓ} (r : Outcome A)
    → ((a : A) × (r ≡ ok a)) ⊎ (((e : Error) × (r ≡ err e)) ⊎ (r ≡ panic))
Outcome-cases (ok a) = inl (a, refl)
Outcome-cases (err e) = inr (inl (e, refl))
Outcome-cases panic = inr (inr refl)
