-- ===== src/Net/Porter/Ephemeral.antt =====
-- porter.go: the search for an ephemeral port.
use skywire_mainnet_old.Base.{
  Bool-cases, ap, arith, false, if◌then◌else◌, inl, inr, list_eq, ltb, nat_eq, ok, refl, some, suc,
  sym, true, zero, ℕ, ◌+◌, ◌-◌, ◌<◌, ◌^◌, ◌∙◌, ◌≡◌, ◌≤◌, ◌⊎◌,
}
use skywire_mainnet_old.Routing.Addr.{Port}
use skywire_mainnet_old.Net.Porter.{Porter, is_free, reserve, next_eph, reserve_ephemeral}

-- The rounds until the search comes to the port `q`.
abbrev pub rounds : ℕ → ℕ → ℕ → ℕ
rounds least e q = if ltb e q then q - e else (q - least) + (2 ^ 16 - e)

next_eph_in_range :
    (p : Porter) → p.min_eph < 2 ^ 16 → (p.min_eph ≤ (next_eph p).eph) × ((next_eph p).eph < 2 ^ 16)
unfolding next_eph
next_eph_in_range p h = ground arith

next_eph_closer :
    (p : Porter) (q : ℕ)
    → p.min_eph ≤ p.eph
    → p.eph < 2 ^ 16
    → p.min_eph ≤ q
    → q < 2 ^ 16
    → ((next_eph p).eph ≡ q) ⊎ (rounds p.min_eph (next_eph p).eph q < rounds p.min_eph p.eph q)
unfolding next_eph
next_eph_closer p q a b c d = ground arith

rounds_positive : (least e q : ℕ) → e < 2 ^ 16 → 1 ≤ rounds least e q
rounds_positive least e q h = ground arith

rounds_bound : (least e q : ℕ) → least ≤ e → e < 2 ^ 16 → q < 2 ^ 16 → rounds least e q ≤ 2 ^ 16
rounds_bound least e q a b c = ground arith

-- A port that the search has found: free, of the range, and the search stands at it.
abbrev pub Found : Porter → Porter → Port → Type 0
Found p p' port =
    (p.min_eph ≤ port) × (port < 2 ^ 16) × (is_free port p ≡ true) × (p' ≡ record p { eph = port })

next_eph_same : (p : Porter) → next_eph p ≡ record p { eph = (next_eph p).eph }
unfolding next_eph
next_eph_same p = refl

is_free-next_eph : (p : Porter) (port : Port) → is_free port (next_eph p) ≡ is_free port p
unfolding next_eph
is_free-next_eph p port = refl

min_eph-next_eph : (p : Porter) → (next_eph p).min_eph ≡ p.min_eph
unfolding next_eph
min_eph-next_eph p = refl

round_found :
    (n : ℕ) (p : Porter)
    → is_free (next_eph p).eph (next_eph p) ≡ true
    → reserve_ephemeral (λ i. false) (suc n) p ≡ (next_eph p, some (ok (next_eph p).eph))
unfolding reserve_ephemeral
round_found n p h = rw h refl

round_taken :
    (n : ℕ) (p : Porter)
    → is_free (next_eph p).eph (next_eph p) ≡ false
    → reserve_ephemeral (λ i. false) (suc n) p ≡ reserve_ephemeral (λ i. false) n (next_eph p)
unfolding reserve_ephemeral
round_taken n p h = rw h refl

true-false : true ≡ false → ⊥
true-false h = cc

Found-next_eph : (p p' : Porter) (port : Port) → Found (next_eph p) p' port → Found p p' port
unfolding next_eph
Found-next_eph p p' port h = h

-- The loop ends within the rounds that a free port is away.
reserve_ephemeral_within :
    (n : ℕ) (p : Porter) (q : Port)
    → rounds p.min_eph p.eph q ≤ n
    → p.min_eph ≤ p.eph
    → p.eph < 2 ^ 16
    → p.min_eph ≤ q
    → q < 2 ^ 16
    → is_free q p ≡ true
    → (port : Port) × (p' : Porter) × (reserve_ephemeral (λ i. false) n p ≡ (p', some (ok port)))
      × Found p p' port
reserve_ephemeral_within zero p q near a b c d free =
    absurd (omega (arith, rounds_positive p.min_eph p.eph q b))
reserve_ephemeral_within (suc n) p q near a b c d free =
    let range = next_eph_in_range p (omega arith) in
    elim (Bool-cases (is_free (next_eph p).eph (next_eph p))) [
      | inl found ↦ (
        (next_eph p).eph,
        next_eph p,
        round_found n p found,
        (range.0, range.1, sym (is_free-next_eph p _) ∙ found, next_eph_same p),
      )
      | inr taken ↦ elim (next_eph_closer p q a b c d) [
        | inl at ↦ absurd (
            true-false
              (sym free ∙ (ap (λ x. is_free x p) (sym at) ∙ (sym (is_free-next_eph p _) ∙ taken))))
        | inr closer ↦
            (let (port, p', ran, found) =
                reserve_ephemeral_within n (next_eph p) q
                  (rw (min_eph-next_eph p) (omega (arith, closer, near)))
                  (rw (min_eph-next_eph p) range.0) range.1 (rw (min_eph-next_eph p) c) d
                  (is_free-next_eph p q ∙ free) in
              (port, p', round_taken n p taken ∙ ran, Found-next_eph p p' port found))
      ]
    ]

-- ReserveEphemeral ends while its context has not, and gives a port: if any port from the least
-- ephemeral one to 65535 is free, and the search stands in this range, then 2^16 rounds are enough, and
-- the port is a free one of this range. But it is not reserved: the set of ports is as it was, and
-- Reserve of the same port succeeds.
pub reserve_ephemeral_ends :
    (p : Porter) (q : Port)
    → p.min_eph ≤ p.eph
    → p.eph < 2 ^ 16
    → p.min_eph ≤ q
    → q < 2 ^ 16
    → is_free q p ≡ true
    → (port : Port) × (p' : Porter) × (reserve_ephemeral (λ i. false) (2 ^ 16) p
        ≡ (p', some (ok port)))
      × Found p p' port
      × (p'.ports ≡ p.ports)
      × ((reserve port p').1 ≡ true)
unfolding reserve
reserve_ephemeral_ends p q a b c d free =
    let (port, p', ran, found) =
      reserve_ephemeral_within (2 ^ 16) p q (rounds_bound p.min_eph p.eph q a b d) a b c d free in
    let same = found.3 in
    (port, p', ran, found, ap (λ r. r.ports) same, rw same (rw (found.2) refl))
