-- ===== src/App/Frames/Pending.antt =====
-- protocol.go: the channel that a response is handed to.
use skywire_mainnet_old.Base.{
  ℕ, zero, suc, ◌+◌, ◌≤◌, ◌<◌, ◌≡◌, ◌≢◌, refl, ◌∙◌, none, some, ok, panic, lookup, insert,
  lookup-insert, lookup-remove, lookup-insert_self, nat_eq, nat_beq_iff, Option-cases, inl, inr,
  ◌⊎◌, arith,
}
use native.Mathlib.Decide.{dec_lt}
use skywire_mainnet_old.App.Frames.{ChanId, ChanList, add_chan, add_chan_from, pull_chan}

-- The ID is below 255, was free, and now has the new channel.
pub record IsAdded (i hi : ℕ) (c : ChanList) (p : ℕ) : Type 0 where
  pub above : i ≤ p
  pub below : p < hi
  pub free : lookup p c.chans ≡ none

abbrev added : ChanList → ℕ → ChanList
added c p = record { next = c.next + 1; chans = insert p c.next c.chans }

module _ (c : ChanList) where
  abbrev Result : ℕ → ℕ → Type 0
  Result rounds i =
      ((p : ℕ) × (add_chan_from rounds i c ≡ ok (p, c.next, added c p))
        × IsAdded i (i + rounds) c p)
      ⊎ ((add_chan_from rounds i c ≡ panic)
          × ((q : ℕ) → i ≤ q → q < i + rounds → lookup q c.chans ≢ none))

  taken :
      (rounds i : ℕ) (ch : ChanId)
      → lookup i c.chans ≡ some ch
      → add_chan_from (suc rounds) i c ≡ add_chan_from rounds (i + 1) c
  unfolding add_chan_from
  taken rounds i ch e = rw (e, add_chan_from)

  still_taken :
      (rounds i : ℕ) (ch : ChanId)
      → lookup i c.chans ≡ some ch
      → ((q : ℕ) → i + 1 ≤ q → q < i + 1 + rounds → lookup q c.chans ≢ none)
      → (q : ℕ) → i ≤ q
      → q < i + suc rounds
      → lookup q c.chans ≢ none
  still_taken rounds i ch e later q lo hi unbound = elim (dec_lt i q) [
    | yes above ↦ later q (omega arith) (omega arith) unbound
    | no here ↦ let same : q ≡ i = omega arith in cc same
  ]

  search : (rounds i : ℕ) → Result rounds i
  search zero i = inr (unfold add_chan_from in refl, λ q lo hi. absurd (omega arith))
  search (suc rounds) i =
      let more : Result rounds (i + 1) = search rounds (i + 1) in
      elim (Option-cases (lookup i c.chans)) [
        | inl e ↦ inl (
          i,
          unfold add_chan_from in rw (e, add_chan_from),
          record { above = omega arith; below = omega arith; free = e },
        )
        | inr (ch, e) ↦ elim more [
          | inl (p, r, v) ↦ inl (
            p,
            taken rounds i ch e ∙ r,
            record {
              above = omega (arith, v.above);
              below = omega (arith, v.below);
              free = v.free;
            },
          )
          | inr (r, all) ↦ inr (taken rounds i ch e ∙ r, still_taken rounds i ch e all)
        ]
      ]

-- A request takes an ID below 255 that no other request waits under; the response with this ID is
-- then handed to the channel of the request, once, and the channels of all other IDs stay. When
-- all 255 IDs are taken, it panics.
pub add_chan-pull_chan :
    (c : ChanList)
    → ((p : ℕ) × (c' : ChanList) × (add_chan c ≡ ok (p, c.next, c'))
        × (p < 255)
        × (lookup p c.chans ≡ none)
        × ((pull_chan p c').0 ≡ some c.next)
        × ((q : ℕ) → lookup q (pull_chan p c').1.chans ≡ lookup q c.chans))
      ⊎ ((add_chan c ≡ panic) × ((q : ℕ) → q < 255 → lookup q c.chans ≢ none))
unfolding add_chan pull_chan
add_chan-pull_chan c = elim (search c 255 0) [
  | inl (p, r, v) ↦ inl (
    p,
    added c p,
    r,
    v.below,
    v.free,
    lookup-insert_self p c.next c.chans,
    λ q. ground (
      arith,
      lookup-remove p q (insert p c.next c.chans),
      lookup-insert p q c.next c.chans,
      v.free,
      nat_beq_iff p q,
    ),
  )
  | inr (r, all) ↦ inr (r, λ q below. all q (omega arith) below)
]
