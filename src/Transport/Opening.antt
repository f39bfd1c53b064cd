-- ===== src/Transport/Opening.antt =====
-- How long a writer waits for a reader.
use client_server.Base.{
  ℕ, zero, suc, ◌≤◌, ◌<◌, List, [], ◌∷◌, ◌++◌, replicate, ◌≡◌, refl, arith, length, ◌≢◌,
}
use client_server.Transport.Fifo.{
  OpenResult, descriptor, no_reader, no_entry, open_error, pipe_open, pipe_shut, pipe_waiting,
  open_write_non_block,
}

-- After k answers that there is no reader, the pipe is open if the next call succeeds and k is at
-- most the number of repetitions, and with more such answers it stays shut.
pub open_write_non_block-replicate :
    (n k : ℕ) (answers : List OpenResult)
    → (k ≤ n → open_write_non_block n (replicate k no_reader ++ (descriptor ∷ answers)) ≡ pipe_open)
      × (n < k → open_write_non_block n (replicate k no_reader ++ answers) ≡ pipe_shut)
unfolding open_write_non_block
open_write_non_block-replicate n zero answers = (λ h. refl, λ h. absurd (omega arith))
open_write_non_block-replicate zero (suc k) answers = (λ h. absurd (omega arith), λ h. refl)
open_write_non_block-replicate (suc n) (suc k) answers =
    let later = open_write_non_block-replicate n k answers in
    (λ h. later.0 (omega arith), λ h. later.1 (omega arith))

-- The loop that opens a pipe for writing has ended when open was called more often than there are
-- repetitions.
pub open_write_non_block_ends :
    (n : ℕ) (answers : List OpenResult)
    → n < length answers
    → open_write_non_block n answers ≢ pipe_waiting
unfolding open_write_non_block
open_write_non_block_ends n [] h = absurd (omega arith)
open_write_non_block_ends n (descriptor ∷ answers) h = λ e. cc
open_write_non_block_ends zero (no_reader ∷ answers) h = λ e. cc
open_write_non_block_ends (suc n) (no_reader ∷ answers) h =
    open_write_non_block_ends n answers (omega arith)
open_write_non_block_ends n (no_entry ∷ answers) h = λ e. cc
open_write_non_block_ends n (open_error ∷ answers) h = λ e. cc
