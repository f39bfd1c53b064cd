-- ===== src/Tests/Wire.antt =====
-- Headers, messages and splitting at concrete inputs.
use mathlib.Core.List.{flatten}
use client_server.Base.{◌++◌, [], ◌∷◌, ◌≡◌, refl, Bytes, codes, arith}
use client_server.Header.{
  Header, HeaderType, Compressors, Diagnostics, Status, serialize, deserialize, accepted,
}
use client_server.Header.RoundTrip.{IsSendable, deserialize-serialize}
use client_server.Message.{process_message}
use client_server.Message.RoundTrip.{
  carry, process_message_one, process_message_three, process_message_four,
}
use client_server.Split.{split, split_reversed_order, split_reuse_vector}
use client_server.Split.Rows.{rows_of, split-rows_of, flatten-split}
use client_server.Split.Readers.{string_lines2, read_all, read_all-string_lines2}
use client_server.Split.Reuse.{Filled, split_reuse_vector-Filled}
use client_server.Request.{empty_request, assign_input}
use client_server.Tests.Data.{conv}

abbrev pub plain_header : Header
plain_header = record {
  header_type = HeaderType.session;
  field1_size = 3;
  field2_size = 0;
  compressor = Compressors.lz4;
  diagnostics = Diagnostics.none;
  status = Status.none;
  field3_size = 12;
  field4_size = 5;
}

pub plain_header-IsSendable : IsSendable plain_header
plain_header-IsSendable = record {
  header_type_valid = (λ e. cc, λ e. cc);
  compressor_valid = (λ e. cc, λ e. cc);
  diagnostics_valid = (λ e. cc, λ e. cc);
  status_valid = (λ e. cc, λ e. cc);
  field1_fits = omega arith;
  field2_fits = omega arith;
  field3_fits = omega arith;
  field4_fits = omega arith;
}

deserialize-serialize_example :
    deserialize (serialize plain_header ++ codes "abc") plain_header
    ≡ (accepted, record plain_header { field4_size = 12 })
deserialize-serialize_example =
    deserialize-serialize plain_header plain_header (codes "abc") plain_header-IsSendable

abbrev pub handshake : Header
handshake = carry plain_header (codes "ab") (codes "c") (codes "de") (codes "fgh")

pub handshake-IsSendable : IsSendable handshake
handshake-IsSendable = record {
  header_type_valid = (λ e. cc, λ e. cc);
  compressor_valid = (λ e. cc, λ e. cc);
  diagnostics_valid = (λ e. cc, λ e. cc);
  status_valid = (λ e. cc, λ e. cc);
  field1_fits = omega arith;
  field2_fits = omega arith;
  field3_fits = omega arith;
  field4_fits = omega arith;
}

-- The fourth string comes out as long as the third.
process_message_four_example :
    process_message
      (serialize handshake ++ (codes "ab" ++ (codes "c" ++ (codes "de" ++ codes "fgh"))))
      plain_header
      ([] ∷ [] ∷ [] ∷ [] ∷ [])
    ≡ record {
      outcome = accepted;
      header = record handshake { field4_size = 2 };
      array = codes "ab" ∷ codes "c" ∷ codes "de" ∷ codes "fg" ∷ [];
    }
process_message_four_example =
    process_message_four plain_header plain_header (codes "ab") (codes "c") (codes "de")
      (codes "fgh") handshake-IsSendable [] [] [] []

process_message_three_example :
    process_message
      (serialize handshake ++ (codes "ab" ++ (codes "c" ++ (codes "de" ++ codes "fgh"))))
      plain_header
      ([] ∷ [] ∷ [] ∷ [])
    ≡ record {
      outcome = accepted;
      header = record handshake { field4_size = 2 };
      array = codes "ab" ∷ codes "c" ∷ codes "de" ∷ [];
    }
process_message_three_example =
    process_message_three plain_header plain_header (codes "ab") (codes "c") (codes "de")
      (codes "fgh") handshake-IsSendable [] [] []

process_message_one_example :
    process_message (serialize plain_header ++ codes "abc") plain_header (codes "old" ∷ [])
    ≡ record {
      outcome = accepted;
      header = record plain_header { field4_size = 12 };
      array = codes "abc" ∷ [];
    }
process_message_one_example =
    process_message_one plain_header plain_header (codes "abc") (codes "old")
      plain_header-IsSendable refl

split-rows_of_example : split (codes "a+b") b'+' 0 ≡ rows_of b'+' (codes "a+b")
split-rows_of_example = split-rows_of (codes "a+b") b'+'

flatten-split_example : flatten (split (codes "a+b+") b'+' 1) ≡ codes "a+b+"
flatten-split_example = flatten-split (codes "a+b+") b'+'

abbrev two_lines : Bytes
two_lines = codes "one\ntwo"

split_reuse_vector-Filled_example :
    Filled empty_request assign_input
      (λ r. r.input)
      b'\n'
      0
      two_lines
      (split two_lines b'\n' 0)
      []
      (split_reuse_vector empty_request assign_input two_lines b'\n' 0 [])
split_reuse_vector-Filled_example =
    split_reuse_vector-Filled empty_request assign_input (λ r. r.input) (λ r text. refl) b'\n' 0
      two_lines []

read_all-string_lines2_example :
    read_all 5 (string_lines2 [] (codes "one\n\ntwo") b'\n' 1) ≡ split (codes "one\n\ntwo") b'\n' 1
unfolding split client_server.Split.find
read_all-string_lines2_example = read_all-string_lines2 (codes "one\n\ntwo") b'\n' 1 5 (omega arith)
