-- ===== src/Transport/Fifo.antt =====
-- The pipe of common/Fifo.h and common/Fifo.cpp.
use client_server.Base.{
  ℕ, zero, suc, ◌-◌, List, [], ◌∷◌, ◌++◌, Bool, true, false, ◌&&◌, ◌||◌, not, Option, none, some,
  if◌then◌else◌, ltb, leb, Bytes, length, take, drop,
}
use client_server.Charconv.{Charconv}
use client_server.Header.{Header, serialize}
use client_server.Message.{Processed}
use client_server.Transport.Defs.{
  end_of_message, ends_with, Received, complete, refused, raised, incomplete, Payloads,
  process_received,
}

-- What `poll` answers: its result is above 0, and the bits of `revents`.
pub record PollAnswer : Type 0 where
  pub positive : Bool
  pub error : Bool
  pub invalid : Bool
  pub expected : Bool
  pub hung_up : Bool

-- What `pollFd` returns: `expected`, `POLLHUP` or -1; or it throws.
pub data Polled : Type 0 where
  poll_ready poll_hup poll_nothing poll_threw : Polled

unfoldable pub poll_fd : PollAnswer → Polled
poll_fd a =
    if not a.positive || (a.error || a.invalid)
    then poll_threw
    else (if a.expected then poll_ready else (if a.hung_up then poll_hup else poll_nothing))

-- What `read` answers: the bytes that it transferred, none at the end of the pipe; `EAGAIN`, with
-- the answer of the `poll` that follows; or another error.
pub data ReadResult : Type 0 where
  transferred : Bytes → ReadResult
  read_again : PollAnswer → ReadResult
  read_failed : ReadResult

-- The test behind an `append`: either the string is complete or the loop goes on.
unfoldable pub completed : Bytes → Received → Received
completed payload later =
    if ends_with payload end_of_message
    then complete (take (length payload - length end_of_message) payload)
    else later

unfoldable pub read_string_block : Bytes → List ReadResult → Received
unfolding completed
read_string_block payload [] = incomplete payload
read_string_block payload (transferred [] ∷ reads) = refused
read_string_block payload (transferred (c ∷ s) ∷ reads) =
    completed (payload ++ (c ∷ s)) (read_string_block (payload ++ (c ∷ s)) reads)
read_string_block payload (read_again a ∷ reads) = raised
read_string_block payload (read_failed ∷ reads) = raised

-- The loop behind a poll.
unfoldable pub resumed : Polled → Received → Received
resumed poll_ready later = later
resumed poll_hup later = refused
resumed poll_nothing later = refused
resumed poll_threw later = raised

-- A `read` of no bytes is not tested: the loop tries again.
unfoldable pub read_string_non_block : Bytes → List ReadResult → Received
unfolding completed resumed
read_string_non_block payload [] = incomplete payload
read_string_non_block payload (transferred [] ∷ reads) = read_string_non_block payload reads
read_string_non_block payload (transferred (c ∷ s) ∷ reads) =
    completed (payload ++ (c ∷ s)) (read_string_non_block (payload ++ (c ∷ s)) reads)
read_string_non_block payload (read_again a ∷ reads) =
    resumed (poll_fd a) (read_string_non_block payload reads)
read_string_non_block payload (read_failed ∷ reads) = raised

-- `readMessage` into a string; `none` where `open` fails.
unfoldable pub read_fifo_string : Bool → Option (List ReadResult) → Bytes → Received
read_fifo_string block none payload = refused
read_fifo_string block (some reads) payload =
    if block then read_string_block payload reads else read_string_non_block payload reads

unfoldable pub read_fifo_message :
    ⦃conv : Charconv⦄ → Bool → Option (List ReadResult) → Header → List Bytes → Option Processed
read_fifo_message block reads h array = process_received (read_fifo_string block reads []) h array

-- What `write` answers: the number of bytes it took; `EAGAIN`, with the answer of the `poll` that
-- follows; or another error.
pub data WriteResult : Type 0 where
  took : ℕ → WriteResult
  write_again : PollAnswer → WriteResult
  write_failed : WriteResult

-- How a writer ends: it returns true or false, it throws, or it still waits.
pub data WriteOutcome : Type 0 where
  write_done write_refused write_threw write_waiting : WriteOutcome

-- The bytes that stand on the pipe after a call, and the answers that are left.
pub record Written : Type 0 where
  pub ending : WriteOutcome
  pub wire : Bytes
  pub rest : List WriteResult

abbrev pub stopped_with : WriteOutcome → List WriteResult → Written
stopped_with o answers = record { ending = o; wire = []; rest = answers }

abbrev pub put_before : Bytes → Written → Written
put_before s w = record w { wire = s ++ w.wire }

unfoldable pub resumed_write : Polled → List WriteResult → Written → Written
resumed_write poll_ready answers later = later
resumed_write poll_hup answers later = stopped_with write_refused answers
resumed_write poll_nothing answers later = stopped_with write_refused answers
resumed_write poll_threw answers later = stopped_with write_threw answers

unfoldable pub write_string : Bytes → List WriteResult → Written
unfolding resumed_write
write_string [] answers = stopped_with write_done answers
write_string (c ∷ s) [] = stopped_with write_waiting []
write_string (c ∷ s) (took n ∷ answers) =
    put_before (take n (c ∷ s)) (write_string (drop n (c ∷ s)) answers)
write_string (c ∷ s) (write_again a ∷ answers) =
    resumed_write (poll_fd a) answers (write_string (c ∷ s) answers)
write_string (c ∷ s) (write_failed ∷ answers) = stopped_with write_threw answers

-- The next string is written whether the last one was written or refused.
unfoldable pub next_write : Written → (List WriteResult → Written) → Written
next_write w next = elim w.ending [
  | write_done ↦ put_before w.wire (next w.rest)
  | write_refused ↦ put_before w.wire (next w.rest)
  | write_threw ↦ w
  | write_waiting ↦ w
]

unfoldable pub write_strings : List Bytes → List WriteResult → Written
unfolding next_write
write_strings [] answers = stopped_with write_done answers
write_strings (s ∷ strings) answers = next_write (write_string s answers) (write_strings strings)

-- `sendMessage`; `none` where the pipe is not opened.
unfoldable pub send_fifo_message :
    ⦃conv : Charconv⦄ → Option (List WriteResult) → Header → Payloads → Written
send_fifo_message none h p = stopped_with write_refused []
send_fifo_message (some answers) h p =
    write_strings
      (serialize h ∷ p.payload1 ∷ p.payload2 ∷ p.payload3 ∷ p.payload4 ∷ end_of_message ∷ [])
      answers

-- What `open` answers to a writer: a descriptor, `ENXIO`, `ENOENT`, or another error.
pub data OpenResult : Type 0 where
  descriptor no_reader no_entry open_error : OpenResult

pub data Opened : Type 0 where
  pipe_open pipe_shut pipe_waiting : Opened

-- The loop of `openWriteNonBlock`, with the repetitions that are left.
unfoldable pub open_write_non_block : ℕ → List OpenResult → Opened
open_write_non_block left [] = pipe_waiting
open_write_non_block left (descriptor ∷ answers) = pipe_open
open_write_non_block zero (no_reader ∷ answers) = pipe_shut
open_write_non_block (suc left) (no_reader ∷ answers) = open_write_non_block left answers
open_write_non_block left (no_entry ∷ answers) = pipe_shut
open_write_non_block left (open_error ∷ answers) = pipe_shut

-- `setPipeSize`, of the options and of what `fcntl` answers: the size before, whether it is set,
-- and the size after, `none` for -1. The result is `none` where the source throws.
unfoldable pub set_pipe_size : Bool → ℕ → Option ℕ → Bool → Option ℕ → Option Bool
set_pipe_size false size before taken after = some false
set_pipe_size true size none taken after = none
set_pipe_size true size (some current) taken none = some false
set_pipe_size true size (some current) taken (some new) =
    some (ltb current size && (taken && (leb size new || ltb size current)))
