-- ===== src/App/Frames.antt =====
-- pkg/app/protocol.go: frames on the connection, and the channels that wait for a response. A channel
-- is a number that stands for it; `next` is the number of channels made so far.
pub mod RoundTrip
pub mod Pending
use skywire_mainnet_old.Base.{
  ℕ, zero, suc, ◌+◌, ◌%◌, ◌^◌, Bool, true, false, ◌||◌, List, [], ◌∷◌, ◌++◌, map, Option, none,
  some, Bytes, Error, Outcome, ok, err, panic, ◌>>=◌, replicate, length, put_be, read_be, read_full,
  Map, lookup, insert, remove, nat_eq, nat_beq, if◌then◌else◌, request_failed,
}

-- FrameFailure and FrameSuccess
abbrev pub frame_failure : ℕ
frame_failure = 0xfe

abbrev pub frame_success : ℕ
frame_success = 0xff

-- What writeFrame writes; `pay` is the error's text or the encoded payload.
unfoldable pub frame_bytes : ℕ → ℕ → Bytes → Outcome Bytes
frame_bytes frame id pay = do
  let packet = frame ∷ id ∷ pay
  buf ← put_be 0 2 (length packet % 2 ^ 16) (replicate 2 0)
  ok (buf ++ packet)

-- The frame, and the input behind it.
unfoldable pub read_frame : Error → Bytes → Outcome (Bytes × Bytes)
read_frame at_end input = do
  (size, input) ← read_full at_end 2 input
  n ← read_be 0 2 size
  read_full at_end n input

abbrev pub ChanId : Type 0
ChanId = ℕ

pub record ChanList : Type 0 where
  pub next : ChanId
  pub chans : Map ℕ ChanId

-- `for i := byte(0); i < 255; i++` with the rounds left; the panic is the end of the loop.
unfoldable pub add_chan_from : ℕ → ℕ → ChanList → Outcome (ℕ × ChanId × ChanList)
add_chan_from zero i c = panic
add_chan_from (suc rounds) i c =
    let rest = add_chan_from rounds (i + 1) c in
    elim (lookup i c.chans) [
      | none ↦ ok (i, c.next, record { next = c.next + 1; chans = insert i c.next c.chans })
      | some _ ↦ rest
    ]

unfoldable pub add_chan : ChanList → Outcome (ℕ × ChanId × ChanList)
add_chan c = add_chan_from 255 0 c

unfoldable pub pull_chan : ℕ → ChanList → Option ChanId × ChanList
pull_chan id c = (lookup id c.chans, record c { chans = remove id c.chans })

-- The channels that are closed.
unfoldable pub close_all : ChanList → List ChanId × ChanList
close_all c = (map (λ e. e.1) c.chans, record c { chans = [] })

-- What Serve does with a frame: it hands a response to the channel that waits for it, drops one that
-- none waits for, or calls the handler in a goroutine of its own.
pub data Served : Type 0 where
  response : ChanId → Bytes → Served
  dropped : Served
  request : ℕ → ℕ → Bytes → Served

unfoldable pub to_waiting : Bytes → Option ChanId × ChanList → Served × ChanList
to_waiting frame (none, c) = (dropped, c)
to_waiting frame (some ch, c) = (response ch frame, c)

-- frame[0] and frame[1] panic on a shorter frame.
unfoldable pub serve_frame : Bytes → ChanList → Outcome (Served × ChanList)
serve_frame (t ∷ id ∷ body) c =
    if nat_beq t frame_failure || nat_beq t frame_success
    then ok (to_waiting (t ∷ id ∷ body) (pull_chan id c))
    else ok (request t id body, c)
serve_frame _ c = panic

-- The answer to a request, as it is written: the handler's result or its error, both encoded.
unfoldable pub answer_bytes : ℕ → Outcome Bytes → (Error → Bytes) → Outcome Bytes
answer_bytes id (ok res) message = frame_bytes frame_success id res
answer_bytes id (err e) message = frame_bytes frame_failure id (message e)
answer_bytes id panic message = panic

-- Send when its response has come; `decode` is json.Unmarshal into the result.
module _ {A : Type 0} where
  unfoldable pub receive : (Bytes → Outcome A) → Bytes → Outcome A
  receive decode (t ∷ id ∷ body) =
      if nat_beq t frame_failure then err request_failed else decode body
  receive decode _ = panic
