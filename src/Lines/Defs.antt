-- ===== src/Lines/Defs.antt =====
-- The reader's buffer and its operations. The input that was not read yet is a list of bytes; the
-- reader of a file and that of a string differ in where it comes from.
use client_server.Base.{
  ℕ, suc, ◌+◌, ◌-◌, Bool, true, false, ◌&&◌, ◌||◌, not, [], ◌∷◌, ◌++◌, Option, none, some,
  if◌then◌else◌, ltb, leb, ◌==◌, Bytes, length, take, drop, get_or, min,
}

-- `lines_read` is `_index` plus one. Behind `size_in_use` the buffer holds what it held before.
pub record BufferedLines : Type 0 where
  pub delimiter : ℕ
  pub keep_delimiter : Bool
  pub buffer : Bytes
  pub processed : ℕ
  pub size_in_use : ℕ
  pub unread : Bytes
  pub lines_read : ℕ
  pub last : Bool

-- The bytes before the first delimiter: `std::find` less its start.
abbrev pub distance : ℕ → Bytes → ℕ
distance delim [] = 0
distance delim (c ∷ s) = if c == delim then 0 else suc (distance delim s)

-- The bytes in use that no line was made of.
abbrev pub in_use : BufferedLines → Bytes
in_use l = take (l.size_in_use - l.processed) (drop l.processed l.buffer)

-- `itEnd`, from the start of the buffer.
abbrev pub line_end : BufferedLines → ℕ
line_end l = l.processed + distance l.delimiter (in_use l)

-- `removeProcessedLines`; `none` where it throws.
unfoldable pub remove_processed_lines : BufferedLines → Option BufferedLines
remove_processed_lines l =
    if l.processed == 0 || leb l.size_in_use l.processed
    then none
    else some (record l {
      buffer = in_use l ++ drop (length (in_use l)) l.buffer;
      size_in_use = l.size_in_use - l.processed;
      processed = 0;
    })

-- `refillBuffer`
unfoldable pub refill_buffer : BufferedLines → BufferedLines
refill_buffer l =
    let bytes_to_read = min (length l.unread) (length l.buffer - l.size_in_use) in
    record l {
      buffer =
          take l.size_in_use l.buffer
          ++ (take bytes_to_read l.unread ++ drop (l.size_in_use + bytes_to_read) l.buffer);
      size_in_use = l.size_in_use + bytes_to_read;
      unread = drop bytes_to_read l.unread;
    }

-- The constructor, of what the buffer holds before it is filled.
unfoldable pub open_lines : ℕ → Bool → Bytes → Bytes → BufferedLines
unfolding refill_buffer
open_lines delimiter keep buffer input = refill_buffer (record {
  delimiter = delimiter;
  keep_delimiter = keep;
  buffer = buffer;
  processed = 0;
  size_in_use = 0;
  unread = input;
  lines_read = 0;
  last = false;
})

abbrev pub is_empty_input : Bytes → Bool
is_empty_input [] = true
is_empty_input (c ∷ s) = false

-- `endsWithDelimiter`: the byte is read also where it stands behind the part in use.
abbrev pub ends_with_delimiter : BufferedLines → Bool
ends_with_delimiter l =
    ltb (line_end l) (length l.buffer) && get_or l.buffer (line_end l) 0 == l.delimiter

-- The line of a distance, and the reader behind it; no line where the distance is 0.
unfoldable pub take_with : BufferedLines → ℕ → Bool → Option Bytes × BufferedLines
take_with l dist ends =
    let behind = l.processed + (dist + (if ends then 1 else 0)) in
    if dist == 0 then (none, l) else (
      some (take (dist + (if ends && l.keep_delimiter then 1 else 0)) (drop l.processed l.buffer)),
      record l {
        processed = behind;
        lines_read = suc l.lines_read;
        last = behind == l.size_in_use && is_empty_input l.unread;
      },
    )

unfoldable pub take_out : BufferedLines → Option Bytes × BufferedLines
unfolding take_with
take_out l = take_with l (line_end l - l.processed) (ends_with_delimiter l)

unfoldable pub refilled : Option BufferedLines → Option (Option Bytes × BufferedLines)
unfolding take_out refill_buffer
refilled none = none
refilled (some l) = some (take_out (refill_buffer l))

-- `getLineImpl`; `none` where it throws.
unfoldable pub get_line_impl : BufferedLines → Option (Option Bytes × BufferedLines)
unfolding refilled remove_processed_lines
get_line_impl l =
    if line_end l == length l.buffer && not (is_empty_input l.unread)
    then refilled (remove_processed_lines l)
    else some (take_out l)
