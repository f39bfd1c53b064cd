-- ===== src/Tests/Reading.antt =====
-- The buffered line reader at concrete inputs.
use client_server.Base.{[], none, some, true, false, codes, ◌≡◌, refl, arith, inr}
use client_server.Lines.{BufferedLines, get_line_impl}
use client_server.Lines.Reading.{Holds}
use client_server.Lines.Next.{GivesLine, get_line_impl-next}

-- A buffer of six bytes, in use up to its end, and two lines.
abbrev reader : BufferedLines
reader = record {
  delimiter = b'\n';
  keep_delimiter = true;
  buffer = codes "a\nbcde";
  processed = 2;
  size_in_use = 6;
  unread = codes "f\ngh\n";
  lines_read = 1;
  last = false;
}

reader-Holds : Holds reader (codes "bcde") []
reader-Holds = record { in_buffer = refl; part_size = refl; fits = omega arith; filled = inr refl }

get_line_impl-next_example : GivesLine reader (codes "bcdef") (codes "gh\n")
get_line_impl-next_example =
    get_line_impl-next reader (codes "bcde") [] (codes "bcdef") (codes "gh\n") reader-Holds refl
      (refl, (refl, (refl, (refl, (refl, tt))))) (omega arith) (omega arith) (omega arith)

-- A line that ends at the end of the buffer, with more to read behind it: the call throws.
abbrev at_the_end : BufferedLines
at_the_end = record reader { buffer = codes "a\nbcd\n"; processed = 6; unread = codes "gh\n" }

throws_at_the_end : get_line_impl at_the_end ≡ none
unfolding get_line_impl
throws_at_the_end = refl

-- The last line has no delimiter, and behind the part in use stands a byte of an earlier line: the
-- line gets a delimiter, and is not marked as the last one.
abbrev stale_byte : BufferedLines
stale_byte = record reader {
  buffer = codes "gh\ni\nj";
  processed = 3;
  size_in_use = 4;
  unread = [];
}

stale_delimiter :
    get_line_impl stale_byte
    ≡ some (some (codes "i\n"), record stale_byte { processed = 5; lines_read = 2; last = false })
unfolding get_line_impl
stale_delimiter = refl
