-- ===== src/App/Frames/RoundTrip.antt =====
-- protocol.go: readFrame against writeFrame.
use mathlib.Core.List.{append_assoc}
use native.Mathlib.Nat.{mod-eq_of_lt}
use skywire_mainnet_old.Base.{
  ℕ, ◌+◌, ◌%◌, ◌^◌, ◌<◌, ◌≡◌, refl, ap, ◌∙◌, [], ◌∷◌, ◌++◌, Bytes, Error, ok, ◌>>=◌, bind_ok,
  replicate, length, be_bytes, length-be_bytes, length-append, read_full, read_full-append,
  put_field, read_field, flat, arith,
}
use skywire_mainnet_old.App.Frames.{frame_bytes, read_frame}

frame_bytes-row :
    (t id : ℕ) (pay : Bytes)
    → length pay + 2 < 2 ^ 16
    → frame_bytes t id pay ≡ ok (flat (be_bytes 2 (length (t ∷ id ∷ pay)) ∷ []) ++ (t ∷ id ∷ pay))
unfolding frame_bytes
frame_bytes-row t id pay short =
    let fits : length (t ∷ id ∷ pay) < 2 ^ 16 = omega arith in
    bind_ok (λ k. _)
      (put_field [] (replicate 2 0) [] 0 2 (length (t ∷ id ∷ pay) % 2 ^ 16) refl refl)
      (ap (λ n. ok (flat (be_bytes 2 n ∷ []) ++ (t ∷ id ∷ pay))) (mod-eq_of_lt fits))

-- readFrame gives back the frame that writeFrame wrote, type and ID first, and leaves what follows it,
-- for a payload of at most 65533 bytes.
pub read_frame-frame_bytes :
    (at_end : Error) (t id : ℕ) (pay rest : Bytes)
    → length pay + 2 < 2 ^ 16
    → (frame_bytes t id pay >>= λ raw. read_frame at_end (raw ++ rest)) ≡ ok (t ∷ id ∷ pay, rest)
unfolding read_frame
read_frame-frame_bytes at_end t id pay rest short = bind_ok _ (frame_bytes-row t id pay short) (
    bind_ok (λ k. _)
      (ap (read_full at_end 2) (append_assoc size_field (t ∷ id ∷ pay) rest)
        ∙ read_full-append at_end 2 size_field ((t ∷ id ∷ pay) ++ rest)
            (simp (length-append, length-be_bytes)))
      (bind_ok (λ k. _) (read_field [] [] 0 2 (length (t ∷ id ∷ pay)) refl fits)
        (read_full-append at_end (length (t ∷ id ∷ pay)) (t ∷ id ∷ pay) rest refl)))
  where
    fits : length (t ∷ id ∷ pay) < 2 ^ 16
    fits = omega arith

    size_field : Bytes
    size_field = flat (be_bytes 2 (length (t ∷ id ∷ pay)) ∷ [])
