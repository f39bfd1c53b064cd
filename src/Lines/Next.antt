-- ===== src/Lines/Next.antt =====
-- The next line of a reader.
use client_server.Base.{
  ℕ, suc, ◌+◌, ◌-◌, ◌≤◌, ◌<◌, true, false, ◌&&◌, [], ◌∷◌, ◌++◌, some, ltb, leb, ◌==◌, Bytes, length,
  drop, ◌≡◌, refl, sym, ap, ◌∙◌, arith, subst, Bool-cases, inl, inr, length-append, length-drop,
  ==_iff, ltb→lt, ltb-false,
}
use client_server.Lines.Defs.{
  BufferedLines, distance, line_end, remove_processed_lines, refill_buffer, is_empty_input,
  take_out, refilled, get_line_impl,
}
use client_server.Lines.Reading.{
  Without, Holds, in_use-Holds, line_inside, line_beyond, distance_all, behind_line, given,
  line_end-line, take_out-line, behind_line-Holds,
}
use client_server.Lines.Refilling.{
  chunk, kept_tail, length-chunk, length-new_buffer, refill_buffer-Holds, refill_buffer-unread,
}

-- The reader behind a line holds the rest of the input, knows whether that is empty, and is the
-- same otherwise.
pub record IsBehind (l : BufferedLines) (rest : Bytes) (l' : BufferedLines) : Type 0 where
  pub part : Bytes
  pub stale : Bytes
  pub holds : Holds l' part stale
  pub remaining : part ++ l'.unread ≡ rest
  pub at_last : l'.last ≡ is_empty_input rest
  pub one_more : l'.lines_read ≡ suc l.lines_read
  pub same_buffer : length l'.buffer ≡ length l.buffer
  pub same_delimiter : l'.delimiter ≡ l.delimiter
  pub same_keep : l'.keep_delimiter ≡ l.keep_delimiter

last_if_empty :
    (size processed : ℕ) (part unread rest : Bytes)
    → size ≡ processed + length part
    → part ++ unread ≡ rest
    → (processed == size && is_empty_input unread) ≡ is_empty_input rest
last_if_empty size processed [] unread rest e f =
    let done : (processed == size) ≡ true = ground (arith, e) in
    ap (λ b. b && is_empty_input unread) done ∙ ap is_empty_input f
last_if_empty size processed (c ∷ part) unread rest e f =
    let more : (processed == size) ≡ false = ground (arith, e) in
    ap (λ b. b && is_empty_input unread) more ∙ ap is_empty_input f

-- A line that ends in the buffer.
next_inside :
    (l : BufferedLines) (part stale line rest : Bytes)
    → Holds l part stale
    → part ++ l.unread ≡ line ++ (l.delimiter ∷ rest)
    → Without l.delimiter line
    → 0 < length line
    → length line < length part
    → (take_out l ≡ (some (given l line), behind_line l line))
      × IsBehind l rest (behind_line l line)
next_inside l part stale line rest h e w some_line inside =
    let (more, split, rest_is) = line_inside l.delimiter part l.unread line rest e inside in
    let h' = subst (λ (s : Bytes). Holds l s stale) split h in
    let behind = behind_line-Holds l line more stale h' w some_line in
    (
      take_out-line l line more stale h' w some_line,
      record {
        part = more;
        stale = stale;
        holds = behind;
        remaining = rest_is;
        at_last = last_if_empty _ _ more l.unread rest behind.part_size rest_is;
        one_more = refl;
        same_buffer = refl;
        same_delimiter = refl;
        same_keep = refl;
      },
    )

not_empty : (s : Bytes) → 0 < length s → is_empty_input s ≡ false
not_empty [] h = absurd (omega arith)
not_empty (c ∷ s) h = refl

-- The result of a call.
abbrev pub GivesLine : BufferedLines → Bytes → Bytes → Type 0
GivesLine l line rest =
    (l' : BufferedLines) × (get_line_impl l ≡ some (some (given l line), l')) × IsBehind l rest l'

module _ (l : BufferedLines) (part stale line rest : Bytes) (h : Holds l part stale)
    (e : part ++ l.unread ≡ line ++ (l.delimiter ∷ rest)) (w : Without l.delimiter line)
    (some_line : 0 < length line) where
  whole_length : length part + length l.unread ≡ length line + suc (length rest)
  whole_length = omega (
    arith,
    length-append part l.unread,
    ap (λ (s : Bytes). length s) e,
    length-append line (l.delimiter ∷ rest),
  )

  at_hand : length line < length part → GivesLine l line rest
  unfolding get_line_impl
  at_hand inside =
      let (more, split, rest_is) = line_inside l.delimiter part l.unread line rest e inside in
      let h' = subst (λ (s : Bytes). Holds l s stale) split h in
      let (out, behind) = next_inside l part stale line rest h e w some_line inside in
      let there : (line_end l == length l.buffer) ≡ false =
        ground (arith, line_end-line l line more stale h' w some_line, h.part_size, h.fits) in
      (behind_line l line, rw (get_line_impl, there) (ap some out), behind)

  -- The part stands at the start of the buffer.
  abbrev moved : BufferedLines
  moved = record l {
    buffer = part ++ drop (length part) l.buffer;
    size_in_use = length part;
    processed = 0;
  }

  remove_processed_lines-moved :
      0 < l.processed → 0 < length part → remove_processed_lines l ≡ some moved
  unfolding remove_processed_lines
  remove_processed_lines-moved more some_part =
      let started : (l.processed == 0) ≡ false = ground arith in
      let inside : leb l.size_in_use l.processed ≡ false = ground (arith, h.part_size) in
      let size : l.size_in_use - l.processed ≡ length part = omega (arith, h.part_size) in
      rw (remove_processed_lines, started, inside, in_use-Holds l part stale h, size) refl

  length-moved : length moved.buffer ≡ length l.buffer
  length-moved = omega (
    arith,
    h.part_size,
    h.fits,
    length-append part (drop (length part) l.buffer),
    length-drop (length part) l.buffer,
  )

  some_unread : length part ≤ length line → is_empty_input l.unread ≡ false
  some_unread beyond = not_empty l.unread (omega (arith, whole_length, beyond))

  full : length part ≤ length line → l.size_in_use ≡ length l.buffer
  full beyond = elim h.filled [
    | inl none_left ↦
        absurd (omega (arith, whole_length, beyond, ap (λ (s : Bytes). length s) none_left))
    | inr size ↦ size
  ]

  line_end-beyond : length part ≤ length line → line_end l ≡ l.size_in_use
  line_end-beyond beyond =
      ap (λ (s : Bytes). l.processed + distance l.delimiter s) (in_use-Holds l part stale h)
      ∙ ap (λ (n : ℕ). l.processed + n)
          (distance_all l.delimiter part
            (line_beyond l.delimiter part l.unread line rest e beyond w))
      ∙ sym h.part_size

  abbrev refreshed : BufferedLines
  refreshed = refill_buffer moved

  refreshed_part :
      length part ≤ length line
      → length line < length l.buffer
      → length line < length (part ++ chunk moved part (drop (length part) l.buffer) refl refl refl)
  refreshed_part beyond short = omega (
    arith,
    length-append part (chunk moved part (drop (length part) l.buffer) refl refl refl),
    length-chunk moved part (drop (length part) l.buffer) refl refl refl,
    length-moved,
    whole_length,
    beyond,
    short,
  )

  goes_beyond :
      0 < length part
      → length line < length l.buffer
      → length part ≤ length line
      → GivesLine l line rest
  unfolding get_line_impl refilled refill_buffer
  goes_beyond some_part short beyond =
      let tail = drop (length part) l.buffer in
      let (out, behind) =
        next_inside refreshed (part ++ chunk moved part tail refl refl refl)
          (kept_tail moved part tail refl refl refl) line rest
          (refill_buffer-Holds moved part tail refl refl refl)
          (refill_buffer-unread moved part tail refl refl refl ∙ e) w some_line
          (refreshed_part beyond short) in
      let here : (line_end l == length l.buffer) ≡ true =
        (==_iff _ _).1 (line_end-beyond beyond ∙ full beyond) in
      (
        behind_line refreshed line,
        rw
            (
              get_line_impl,
              here,
              some_unread beyond,
              remove_processed_lines-moved (omega (arith, full beyond, h.part_size, short, beyond))
                  some_part,
              refilled,
            )
            (ap some out),
        record {
          part = behind.part;
          stale = behind.stale;
          holds = behind.holds;
          remaining = behind.remaining;
          at_last = behind.at_last;
          one_more = behind.one_more;
          same_buffer =
              behind.same_buffer ∙ length-new_buffer moved part tail refl refl refl ∙ length-moved;
          same_delimiter = behind.same_delimiter;
          same_keep = behind.same_keep;
        },
      )

  -- If the buffer holds a part of the input that is not processed and not empty, the buffer is
  -- full or all was read, and part and unread input begin with a line that is not empty, holds no
  -- delimiter, is shorter than the buffer and is followed by the delimiter: a call gives the
  -- line, with its delimiter if that is kept, and leaves a reader that holds just the rest of the
  -- input, in the same state otherwise, which is marked as at the last line if and only if the
  -- rest is empty.
  pub get_line_impl-next : 0 < length part → length line < length l.buffer → GivesLine l line rest
  get_line_impl-next some_part short = elim (Bool-cases (ltb (length line) (length part))) [
    | inl inside ↦ at_hand (ltb→lt _ _ inside)
    | inr beyond ↦ goes_beyond some_part short (ltb-false _ _ beyond)
  ]
