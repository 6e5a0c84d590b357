-- ===== src/App/Tests.antt =====
-- Runs of pkg/app at concrete inputs.
use skywire_mainnet_old.Base.{[], arith, eof, list_eq, nat_eq, ok, ◌++◌, ◌>>=◌, ◌∷◌, ◌≡◌}
use skywire_mainnet_old.App.Frames.{frame_bytes, read_frame}
use skywire_mainnet_old.App.Frames.RoundTrip.{read_frame-frame_bytes}

read_frame-frame_bytes_example :
    (frame_bytes 3 7 (1 ∷ 2 ∷ []) >>= λ raw. read_frame eof (raw ++ 9 ∷ []))
    ≡ ok (3 ∷ 7 ∷ 1 ∷ 2 ∷ [], 9 ∷ [])
read_frame-frame_bytes_example = read_frame-frame_bytes eof 3 7 (1 ∷ 2 ∷ []) (9 ∷ []) (omega arith)
