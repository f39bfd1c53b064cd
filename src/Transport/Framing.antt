-- ===== src/Transport/Framing.antt =====
-- A reader finds the string before the mark, however the bytes are cut into reads.
use client_server.Base.{
  ℕ, zero, suc, ◌-◌, ◌+◌, ◌<◌, List, [], ◌∷◌, ◌++◌, Bool, true, false, not, ◌&&◌, some, ltb, Bytes,
  length, take, drop, ◌≡◌, refl, sym, ap, ◌∙◌, arith, bytes_eq_iff, length-append, drop-append_eq,
  take-append_eq, append_assoc, append-nil, Bool-cases, inl, inr, ◌==◌, ==_iff, ltb→lt, ltb-false,
  ◌≤◌,
}
use client_server.Transport.Defs.{end_of_message, ends_with, Received, complete}
use client_server.Transport.Fifo.{
  ReadResult, transferred, read_again, read_failed, poll_ready, poll_fd, completed, resumed,
  read_string_block, read_string_non_block, read_fifo_string,
}

-- No part in front of the first `n` bytes ends with the mark.
unfoldable pub unmarked : ℕ → Bytes → Bool
unmarked zero s = true
unmarked (suc n) s = not (ends_with (take n s) end_of_message) && unmarked n s

-- With the mark behind it, a string holds the mark only at its end.
abbrev pub IsFramed : Bytes → Type 0
IsFramed s = unmarked (length (s ++ end_of_message)) (s ++ end_of_message) ≡ true

-- The answers of a pipe that brings bytes only, some in each read.
abbrev pub IsBlocking : List ReadResult → Type 0
IsBlocking [] = Unit
IsBlocking (transferred [] ∷ reads) = ⊥
IsBlocking (transferred (c ∷ s) ∷ reads) = IsBlocking reads
IsBlocking (read_again a ∷ reads) = ⊥
IsBlocking (read_failed ∷ reads) = ⊥

-- The answers of a pipe that has bytes, has none yet, or asks to wait until it has some.
abbrev pub IsOpen : List ReadResult → Type 0
IsOpen [] = Unit
IsOpen (transferred s ∷ reads) = IsOpen reads
IsOpen (read_again a ∷ reads) = (poll_fd a ≡ poll_ready) × IsOpen reads
IsOpen (read_failed ∷ reads) = ⊥

-- The bytes that a list of reads brings.
abbrev pub data_of : List ReadResult → Bytes
data_of [] = []
data_of (transferred s ∷ reads) = s ++ data_of reads
data_of (read_again a ∷ reads) = data_of reads
data_of (read_failed ∷ reads) = data_of reads

ends_with-append : (s mark : Bytes) → ends_with (s ++ mark) mark ≡ true
unfolding ends_with
ends_with-append s mark =
    let size : length (s ++ mark) ≡ length s + length mark = length-append s mark in
    let cut : length s ≡ length (s ++ mark) - length mark = omega (arith, size) in
    let whole : drop (length (s ++ mark) - length mark) (s ++ mark) ≡ mark =
      drop-append_eq _ s mark cut in
    rw (ends_with, whole, (bytes_eq_iff mark mark).1 refl) (ground (arith, size))

and_not : (a b : Bool) → (not a && b) ≡ true → (a ≡ false) × (b ≡ true)
and_not true b h = cc
and_not false b h = (refl, h)

pub unmarked-before :
    (n k : ℕ) (s : Bytes)
    → unmarked n s ≡ true
    → k < n
    → ends_with (take k s) end_of_message ≡ false
unfolding unmarked
unmarked-before zero k s h lt = absurd (omega arith)
unmarked-before (suc n) k s h lt =
    let parts = and_not (ends_with (take n s) end_of_message) (unmarked n s) h in
    elim (Bool-cases (k == n)) [
      | inl e ↦ ap (λ (i : ℕ). ends_with (take i s) end_of_message) ((==_iff k n).0 e) ∙ parts.0
      | inr e ↦ unmarked-before n k s parts.1 (ground arith)
    ]

-- A part in front that is as long as the whole is the whole.
pub whole_part :
    (part more all : Bytes) → part ++ more ≡ all → length all ≤ length part → part ≡ all
whole_part part [] all e h = sym (append-nil part) ∙ e
whole_part part (c ∷ more) all e h =
    absurd (omega (arith, length-append part (c ∷ more), ap (λ (s : Bytes). length s) e))

module _ (body : Bytes) (framed : IsFramed body) where
  abbrev whole : Bytes
  whole = body ++ end_of_message

  pub completed_last :
      (payload : Bytes) (later : Received)
      → payload ≡ whole
      → completed payload later ≡ complete body
  unfolding completed
  completed_last payload later e =
      let cut : length body ≡ length whole - length end_of_message =
        omega (arith, length-append body end_of_message) in
      rw (e, completed, ends_with-append body end_of_message)
        (ap complete (take-append_eq _ body end_of_message cut))

  completed_before :
      (payload more : Bytes) (later : Received)
      → payload ++ more ≡ whole
      → length payload < length whole
      → completed payload later ≡ later
  unfolding completed
  completed_before payload more later e lt =
      let part : take (length payload) whole ≡ payload =
        ap (λ (s : Bytes). take (length payload) s) (sym e)
        ∙ take-append_eq (length payload) payload more refl in
      let going : ends_with payload end_of_message ≡ false =
        ap (λ (s : Bytes). ends_with s end_of_message) (sym part)
        ∙ unmarked-before (length whole) (length payload) whole framed lt in
      rw (completed, going) refl

  -- One more read, where the loop goes on with `later` and is right if it does.
  completed_next :
      (payload more : Bytes) (later : Received)
      → payload ++ more ≡ whole
      → (length payload < length whole → later ≡ complete body)
      → completed payload later ≡ complete body
  completed_next payload more later e next =
      elim (Bool-cases (ltb (length payload) (length whole))) [
        | inl lt ↦ completed_before payload more later e (ltb→lt _ _ lt) ∙ next (ltb→lt _ _ lt)
        | inr ge ↦ completed_last payload later (whole_part payload more whole e (ltb-false _ _ ge))
      ]

  pub read_string_block_from :
      (payload : Bytes) (reads : List ReadResult)
      → IsBlocking reads
      → payload ++ data_of reads ≡ whole
      → length payload < length whole
      → read_string_block payload reads ≡ complete body
  unfolding read_string_block
  read_string_block_from payload [] b e lt =
      absurd (omega (arith, ap (λ (s : Bytes). length s) (sym (append-nil payload) ∙ e)))
  read_string_block_from payload (transferred [] ∷ reads) b e lt = elim b [ ]
  read_string_block_from payload (transferred (c ∷ s) ∷ reads) b e lt =
      let e' = append_assoc payload (c ∷ s) (data_of reads) ∙ e in
      completed_next (payload ++ (c ∷ s)) (data_of reads) _ e'
        (read_string_block_from (payload ++ (c ∷ s)) reads b e')
  read_string_block_from payload (read_again a ∷ reads) b e lt = elim b [ ]
  read_string_block_from payload (read_failed ∷ reads) b e lt = elim b [ ]

  pub read_string_non_block_from :
      (payload : Bytes) (reads : List ReadResult)
      → IsOpen reads
      → payload ++ data_of reads ≡ whole
      → length payload < length whole
      → read_string_non_block payload reads ≡ complete body
  unfolding read_string_non_block resumed
  read_string_non_block_from payload [] b e lt =
      absurd (omega (arith, ap (λ (s : Bytes). length s) (sym (append-nil payload) ∙ e)))
  read_string_non_block_from payload (transferred [] ∷ reads) b e lt =
      read_string_non_block_from payload reads b e lt
  read_string_non_block_from payload (transferred (c ∷ s) ∷ reads) b e lt =
      let e' = append_assoc payload (c ∷ s) (data_of reads) ∙ e in
      completed_next (payload ++ (c ∷ s)) (data_of reads) _ e'
        (read_string_non_block_from (payload ++ (c ∷ s)) reads b e')
  read_string_non_block_from payload (read_again a ∷ reads) b e lt =
      ap (λ p. resumed p (read_string_non_block payload reads)) b.0
      ∙ read_string_non_block_from payload reads b.1 e lt
  read_string_non_block_from payload (read_failed ∷ reads) b e lt = elim b [ ]

  marked_nonempty : 0 < length whole
  marked_nonempty = omega (arith, length-append body end_of_message)

  pub read_fifo_string-complete :
      (reads : List ReadResult)
      → IsOpen reads
      → data_of reads ≡ body ++ end_of_message
      → read_fifo_string false (some reads) [] ≡ complete body
  unfolding read_fifo_string
  read_fifo_string-complete reads o e = read_string_non_block_from [] reads o e marked_nonempty

  pub read_fifo_string_block-complete :
      (reads : List ReadResult)
      → IsBlocking reads
      → data_of reads ≡ body ++ end_of_message
      → read_fifo_string true (some reads) [] ≡ complete body
  unfolding read_fifo_string
  read_fifo_string_block-complete reads o e = read_string_block_from [] reads o e marked_nonempty
