-- ===== src/Lines/Refilling.antt =====
-- The buffer is moved and filled where a line goes on behind it.
use client_server.Base.{
  ℕ, ◌+◌, ◌-◌, ◌≤◌, [], ◌++◌, ltb, Bytes, length, take, drop, min, ◌≡◌, sym, ap, ◌∙◌, arith,
  Bool-cases, inl, inr, ◌⊎◌, append_assoc, length-append, length-take, length-drop, take-append_eq,
  take-append-drop, drop_all, ltb→lt, ltb-false,
}
use client_server.Lines.Defs.{BufferedLines, refill_buffer}
use client_server.Lines.Reading.{Holds}

-- How much is read into the rest of the buffer.
abbrev pub room : BufferedLines → ℕ
room r = min (length r.unread) (length r.buffer - r.size_in_use)

module _ (r : BufferedLines) (part tail : Bytes) (start : r.processed ≡ 0)
    (size : r.size_in_use ≡ length part) (at_front : r.buffer ≡ part ++ tail) where
  abbrev pub chunk : Bytes
  chunk = take (room r) r.unread

  pub length-chunk : length chunk ≡ room r
  length-chunk = omega (arith, length-take (room r) r.unread)

  part_fits : r.size_in_use ≤ length r.buffer
  part_fits = omega (arith, size, ap (λ (s : Bytes). length s) at_front, length-append part tail)

  front : take r.size_in_use r.buffer ≡ part
  front =
      ap (λ (s : Bytes). take r.size_in_use s) at_front
      ∙ take-append_eq r.size_in_use part tail (sym size)

  abbrev pub kept_tail : Bytes
  kept_tail = drop (r.size_in_use + room r) r.buffer

  new_buffer : (refill_buffer r).buffer ≡ (part ++ chunk) ++ kept_tail
  unfolding refill_buffer
  new_buffer =
      ap (λ (s : Bytes). s ++ (chunk ++ kept_tail)) front ∙ sym (append_assoc part chunk kept_tail)

  pub length-new_buffer : length (refill_buffer r).buffer ≡ length r.buffer
  length-new_buffer = omega (
    arith,
    ap (λ (s : Bytes). length s) new_buffer,
    length-append (part ++ chunk) kept_tail,
    length-append part chunk,
    length-chunk,
    length-drop (r.size_in_use + room r) r.buffer,
    part_fits,
    size,
  )

  -- The new buffer is full or all was read.
  all_or_full :
      ((refill_buffer r).unread ≡ [])
      ⊎ ((refill_buffer r).size_in_use ≡ length (refill_buffer r).buffer)
  unfolding refill_buffer
  all_or_full = elim (Bool-cases (ltb (length r.buffer - r.size_in_use) (length r.unread))) [
    | inl more ↦
        let lt = ltb→lt (length r.buffer - r.size_in_use) (length r.unread) more in
        inr (omega (arith, lt, part_fits, length-new_buffer))
    | inr fit ↦
        let le = ltb-false (length r.buffer - r.size_in_use) (length r.unread) fit in
        inl (drop_all (room r) r.unread (omega (arith, le)))
  ]

  pub refill_buffer-Holds : Holds (refill_buffer r) (part ++ chunk) kept_tail
  unfolding refill_buffer
  refill_buffer-Holds = record {
    in_buffer = ap (λ (n : ℕ). drop n (refill_buffer r).buffer) start ∙ new_buffer;
    part_size = omega (arith, start, size, length-append part chunk, length-chunk);
    fits = omega (arith, length-new_buffer, part_fits);
    filled = all_or_full;
  }

  pub refill_buffer-unread : (part ++ chunk) ++ (refill_buffer r).unread ≡ part ++ r.unread
  unfolding refill_buffer
  refill_buffer-unread =
      append_assoc part chunk (drop (room r) r.unread)
      ∙ ap (λ (s : Bytes). part ++ s) (take-append-drop (room r) r.unread)
