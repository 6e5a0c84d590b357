-- ===== src/Hypervisor/Users/Passwords.antt =====
-- user.go: a password that has been set is verified.
use skywire_mainnet_old.Base.{Bytes, beq_refl, list_eq, nat_eq, refl, true, ◌++◌, ◌≡◌}
use skywire_mainnet_old.Hypervisor.Users.{User, password_format_okay, set_password, verify_password}

pub set_password-verify_password :
    (sum_sha256 : Bytes → Bytes) (salt password : Bytes) (u : User)
    → password_format_okay password ≡ true
    → (set_password sum_sha256 salt password u
        ≡ (record u { pw_salt = salt; pw_hash = sum_sha256 (password ++ salt) }, true))
      × (verify_password sum_sha256 password
            (record u { pw_salt = salt; pw_hash = sum_sha256 (password ++ salt) })
          ≡ true)
unfolding set_password verify_password
set_password-verify_password sum_sha256 salt password u good =
    (rw good refl, beq_refl (sum_sha256 (password ++ salt)))
