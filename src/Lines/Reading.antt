-- ===== src/Lines/Reading.antt =====
-- A reader is a queue of bytes from which lines are taken.
use client_server.Base.{
  ℕ, zero, suc, ◌+◌, ◌-◌, ◌≤◌, ◌<◌, Bool, true, false, ◌&&◌, [], ◌∷◌, ◌++◌, some, if◌then◌else◌,
  ltb, ◌==◌, Bytes, length, take, drop, get_or, ◌≡◌, refl, sym, ap, ◌∙◌, arith, All, ◌⊎◌, lt→ltb,
  ==_iff, append_assoc, length-append, take-append_eq, drop-drop, get_or-skip,
}
use client_server.Lines.Defs.{
  BufferedLines, distance, in_use, line_end, is_empty_input, ends_with_delimiter, take_with,
  take_out,
}

abbrev pub Without : ℕ → Bytes → Type 0
Without delim = All (λ c. (c == delim) ≡ false)

-- The reader has `part` in its buffer, not yet processed; the buffer is full or all was read.
pub record Holds (l : BufferedLines) (part stale : Bytes) : Type 0 where
  pub in_buffer : drop l.processed l.buffer ≡ part ++ stale
  pub part_size : l.size_in_use ≡ l.processed + length part
  pub fits : l.size_in_use ≤ length l.buffer
  pub filled : (l.unread ≡ []) ⊎ (l.size_in_use ≡ length l.buffer)

list_head : {a b : ℕ} {s t : Bytes} → (a ∷ s) ≡ (b ∷ t) → a ≡ b
list_head {a} e = ap (λ l. get_or l 0 a) e

list_tail : {a b : ℕ} {s t : Bytes} → (a ∷ s) ≡ (b ∷ t) → s ≡ t
list_tail e = ap (λ (l : Bytes). drop 1 l) e

distance-line :
    (delim : ℕ) (line more : Bytes)
    → Without delim line
    → distance delim (line ++ (delim ∷ more)) ≡ length line
distance-line delim [] more w = rw ((==_iff delim delim).1 refl) refl
distance-line delim (c ∷ line) more w = rw w.0 (ap suc (distance-line delim line more w.1))

pub distance_all : (delim : ℕ) (s : Bytes) → Without delim s → distance delim s ≡ length s
distance_all delim [] w = refl
distance_all delim (c ∷ s) w = rw w.0 (ap suc (distance_all delim s w.1))

-- The line ends in the part.
pub line_inside :
    (delim : ℕ) (part unread line rest : Bytes)
    → part ++ unread ≡ line ++ (delim ∷ rest)
    → length line < length part
    → (more : Bytes) × (part ≡ line ++ (delim ∷ more)) × (more ++ unread ≡ rest)
line_inside delim [] unread line rest e lt = absurd (omega arith)
line_inside delim (c ∷ part) unread [] rest e lt =
    (part, ap (λ x. x ∷ part) (list_head e), list_tail e)
line_inside delim (c ∷ part) unread (b ∷ line) rest e lt =
    let later = line_inside delim part unread line rest (list_tail e) (omega arith) in
    (later.0, ap (λ x. x ∷ part) (list_head e) ∙ ap (◌∷◌ b) later.1, later.2)

-- The line goes on behind the part.
pub line_beyond :
    (delim : ℕ) (part unread line rest : Bytes)
    → part ++ unread ≡ line ++ (delim ∷ rest)
    → length part ≤ length line
    → Without delim line
    → Without delim part
line_beyond delim [] unread line rest e h w = tt
line_beyond delim (c ∷ part) unread [] rest e h w = absurd (omega arith)
line_beyond delim (c ∷ part) unread (b ∷ line) rest e h w = (
  ap (λ x. x == delim) (list_head e) ∙ w.0,
  line_beyond delim part unread line rest (list_tail e) (omega arith) w.1,
)

pub in_use-Holds : (l : BufferedLines) (part stale : Bytes) → Holds l part stale → in_use l ≡ part
in_use-Holds l part stale h =
    ap (λ (s : Bytes). take (l.size_in_use - l.processed) s) h.in_buffer
    ∙ take-append_eq (l.size_in_use - l.processed) part stale (omega (arith, h.part_size))

get_or-drop : (n k : ℕ) (s : Bytes) → get_or s (n + k) 0 ≡ get_or (drop n s) k 0
get_or-drop zero k s = ap (λ (i : ℕ). get_or s i 0) (omega arith)
get_or-drop (suc n) k [] = refl
get_or-drop (suc n) k (c ∷ s) =
    ap (λ (i : ℕ). get_or (c ∷ s) i 0) {y = suc (n + k)} (omega arith) ∙ get_or-drop n k s

drop-line :
    (line : Bytes) (c : ℕ) (more : Bytes) → drop (suc (length line)) (line ++ (c ∷ more)) ≡ more
drop-line [] c more = refl
drop-line (b ∷ line) c more = drop-line line c more

take-line :
    (line : Bytes) (c : ℕ) (more : Bytes)
    → take (suc (length line)) (line ++ (c ∷ more)) ≡ line ++ (c ∷ [])
take-line [] c more = refl
take-line (b ∷ line) c more = ap (◌∷◌ b) (take-line line c more)

-- The reader behind a line.
abbrev pub behind_line : BufferedLines → Bytes → BufferedLines
behind_line l line = record l {
  processed = l.processed + suc (length line);
  lines_read = suc l.lines_read;
  last = l.processed + suc (length line) == l.size_in_use && is_empty_input l.unread;
}

-- The line as it is given out.
abbrev pub given : BufferedLines → Bytes → Bytes
given l line = if l.keep_delimiter then line ++ (l.delimiter ∷ []) else line

module _ (l : BufferedLines) (line more stale : Bytes)
    (h : Holds l (line ++ (l.delimiter ∷ more)) stale) (w : Without l.delimiter line)
    (some_line : 0 < length line) where
  part_length : length (line ++ (l.delimiter ∷ more)) ≡ length line + suc (length more)
  part_length = length-append line (l.delimiter ∷ more)

  pub line_end-line : line_end l ≡ l.processed + length line
  line_end-line =
      ap (λ (s : Bytes). l.processed + distance l.delimiter s)
        (in_use-Holds l (line ++ (l.delimiter ∷ more)) stale h)
      ∙ ap (λ (n : ℕ). l.processed + n) (distance-line l.delimiter line more w)

  rest_of_buffer : drop l.processed l.buffer ≡ line ++ (l.delimiter ∷ (more ++ stale))
  rest_of_buffer = h.in_buffer ∙ append_assoc line (l.delimiter ∷ more) stale

  byte_there : get_or l.buffer (l.processed + length line) 0 ≡ l.delimiter
  byte_there =
      get_or-drop l.processed (length line) l.buffer
      ∙ ap (λ (s : Bytes). get_or s (length line) 0) rest_of_buffer
      ∙ ap (λ (n : ℕ). get_or (line ++ (l.delimiter ∷ (more ++ stale))) n 0) {y = length line + 0}
          (omega arith)
      ∙ get_or-skip (length line) 0 line (l.delimiter ∷ (more ++ stale)) 0 refl

  ends-line : ends_with_delimiter l ≡ true
  ends-line =
      let below : ltb (line_end l) (length l.buffer) ≡ true =
        lt→ltb _ _ (omega (arith, line_end-line, h.part_size, h.fits, part_length)) in
      let there : (get_or l.buffer (line_end l) 0 == l.delimiter) ≡ true =
        (==_iff _ _).1 (ap (λ (n : ℕ). get_or l.buffer n 0) line_end-line ∙ byte_there) in
      rw (below, there) refl

  text_of_line :
      (keep : Bool)
      → take (length line + (if keep then 1 else 0)) (drop l.processed l.buffer)
        ≡ (if keep then line ++ (l.delimiter ∷ []) else line)
  text_of_line true =
      ap (λ (n : ℕ). take n (drop l.processed l.buffer)) {y = suc (length line)} (omega arith)
      ∙ ap (λ (s : Bytes). take (suc (length line)) s) rest_of_buffer
      ∙ take-line line l.delimiter (more ++ stale)
  text_of_line false =
      ap (λ (n : ℕ). take n (drop l.processed l.buffer)) {y = length line} (omega arith)
      ∙ ap (λ (s : Bytes). take (length line) s) rest_of_buffer
      ∙ take-append_eq (length line) line (l.delimiter ∷ (more ++ stale)) refl

  take_with-line : take_with l (length line) true ≡ (some (given l line), behind_line l line)
  unfolding take_with
  take_with-line =
      let some_distance : (length line == 0) ≡ false = ground arith in
      let next : length line + 1 ≡ suc (length line) = omega arith in
      rw (take_with, some_distance, text_of_line l.keep_delimiter, next) refl

  pub take_out-line : take_out l ≡ (some (given l line), behind_line l line)
  unfolding take_out
  take_out-line =
      ap (λ (n : ℕ). take_with l n (ends_with_delimiter l)) {y = length line}
        (omega (arith, line_end-line))
      ∙ ap (take_with l (length line)) ends-line
      ∙ take_with-line

  pub behind_line-Holds : Holds (behind_line l line) more stale
  behind_line-Holds = record {
    in_buffer =
        sym (drop-drop (suc (length line)) l.processed l.buffer)
        ∙ ap (λ (s : Bytes). drop (suc (length line)) s) rest_of_buffer
        ∙ drop-line line l.delimiter (more ++ stale);
    part_size = omega (arith, h.part_size, part_length);
    fits = h.fits;
    filled = h.filled;
  }
