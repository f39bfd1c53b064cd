-- ===== src/Tests/Pipes.antt =====
-- Messages on a pipe and on a socket at concrete inputs.
use client_server.Base.{
  ℕ, zero, suc, List, [], ◌∷◌, ◌++◌, Option, none, some, true, false, Bytes, codes, length, take,
  drop, ◌≡◌, ◌≢◌, ◌≤◌, ◌<◌, refl, arith, replicate,
}
use client_server.Header.{serialize}
use client_server.Transport.{
  PollAnswer, poll_ready, poll_fd, ReadResult, transferred, read_again, WriteResult, took,
  write_again, write_done, write_string, write_refused, send_fifo_message, read_fifo_message,
  Payloads, end_of_message, ends_with, tcp_wire, read_tcp_message, ReadUntil, ErrorCode, descriptor,
  no_reader, pipe_open, pipe_shut, pipe_waiting, open_write_non_block,
}
use client_server.Transport.Framing.{IsFramed, unmarked, IsOpen, IsBlocking, data_of}
use client_server.Transport.Writing.{IsPart, IsWritable, calls, write_string-IsPart}
use client_server.Transport.Opening.{open_write_non_block-replicate, open_write_non_block_ends}
use client_server.Transport.Delivery.{
  BringsMark, carried, unmarked_wire, delivered, read_fifo_message-send, read_tcp_message-wire,
}
use client_server.Tests.Data.{conv}
use client_server.Tests.Wire.{plain_header, handshake-IsSendable}

abbrev payloads : Payloads
payloads = record {
  payload1 = codes "ab";
  payload2 = codes "c";
  payload3 = codes "de";
  payload4 = codes "fgh";
}

abbrev ready : PollAnswer
ready = record { positive = true; error = false; invalid = false; expected = true; hung_up = false }

ready-poll_fd : poll_fd ready ≡ poll_ready
unfolding poll_fd
ready-poll_fd = refl

abbrev message : Bytes
message = unmarked_wire (carried plain_header payloads) payloads ++ end_of_message

message-IsFramed : IsFramed (unmarked_wire (carried plain_header payloads) payloads)
unfolding unmarked ends_with client_server.Base.bytes_eq serialize
    client_server.Header.to_chars_boost client_server.Charconv.Laws.std_charconv
    client_server.Header.status_code client_server.Header.diagnostics_code
    client_server.Header.compressors_code client_server.Header.header_type_code
message-IsFramed = refl

-- Two bytes in each call, and a pause.
abbrev slow_writes : List WriteResult
slow_writes = write_again ready ∷ replicate 90 (took 2)

abbrev slow_reads : List ReadResult
slow_reads =
    transferred []
    ∷ transferred (take 50 message)
    ∷ read_again ready
    ∷ transferred (drop 50 message)
    ∷ []

replicate-IsWritable : (n : ℕ) → IsWritable (replicate n (took 2))
replicate-IsWritable zero = tt
replicate-IsWritable (suc n) = (omega arith, replicate-IsWritable n)

slow_writes-IsWritable : IsWritable slow_writes
slow_writes-IsWritable = (ready-poll_fd, replicate-IsWritable 90)

slow_reads-IsOpen : IsOpen slow_reads
slow_reads-IsOpen = (ready-poll_fd, tt)

size-message : length message ≤ calls slow_writes
unfolding serialize client_server.Header.to_chars_boost client_server.Charconv.Laws.std_charconv
size-message = omega arith

wire-message :
    data_of slow_reads
    ≡ (send_fifo_message (some slow_writes) (carried plain_header payloads) payloads).wire
unfolding serialize client_server.Header.to_chars_boost client_server.Charconv.Laws.std_charconv
    client_server.Header.status_code client_server.Header.diagnostics_code
    client_server.Header.compressors_code client_server.Header.header_type_code send_fifo_message
    client_server.Transport.write_strings client_server.Transport.next_write write_string
    client_server.Transport.resumed_write poll_fd
wire-message = refl

-- The delimiter stands at the end of what was read.
abbrev whole_stream : ReadUntil
whole_stream payload delimiter = (tcp_wire (carried plain_header payloads) payloads, none)

whole_stream-BringsMark :
    BringsMark whole_stream (tcp_wire (carried plain_header payloads) payloads)
unfolding serialize tcp_wire ends_with client_server.Base.bytes_eq
    client_server.Header.to_chars_boost client_server.Charconv.Laws.std_charconv
    client_server.Header.status_code client_server.Header.diagnostics_code
    client_server.Header.compressors_code client_server.Header.header_type_code
whole_stream-BringsMark = record {
  part = tcp_wire (carried plain_header payloads) payloads;
  more = [];
  place = 84;
  bytes_read = refl;
  is_part = refl;
  inside = omega arith;
  mark_there = refl;
}

read_tcp_message-wire_example :
    read_tcp_message whole_stream plain_header ([] ∷ [] ∷ [] ∷ [])
    ≡ some (
        delivered plain_header plain_header payloads handshake-IsSendable message-IsFramed [] [] [])
read_tcp_message-wire_example =
    read_tcp_message-wire plain_header plain_header payloads handshake-IsSendable message-IsFramed
      [] [] [] whole_stream whole_stream-BringsMark

open_write_non_block-replicate_example :
    (2 ≤ 3 → open_write_non_block 3 (replicate 2 no_reader ++ (descriptor ∷ [])) ≡ pipe_open)
    × (3 < 2 → open_write_non_block 3 (replicate 2 no_reader ++ []) ≡ pipe_shut)
open_write_non_block-replicate_example = open_write_non_block-replicate 3 2 []

open_write_non_block_ends_example :
    open_write_non_block 1 (no_reader ∷ no_reader ∷ []) ≢ pipe_waiting
open_write_non_block_ends_example =
    open_write_non_block_ends 1 (no_reader ∷ no_reader ∷ []) (omega arith)

write_string-IsPart_example : IsPart (codes "abc") (write_string (codes "abc") (took 2 ∷ []))
write_string-IsPart_example = write_string-IsPart (codes "abc") (took 2 ∷ [])

abbrev block_reads : List ReadResult
block_reads = transferred message ∷ []

block_reads-IsBlocking : IsBlocking block_reads
unfolding serialize
block_reads-IsBlocking = tt

wire-blocks :
    data_of block_reads
    ≡ (send_fifo_message (some slow_writes) (carried plain_header payloads) payloads).wire
unfolding serialize client_server.Header.to_chars_boost client_server.Charconv.Laws.std_charconv
    client_server.Header.status_code client_server.Header.diagnostics_code
    client_server.Header.compressors_code client_server.Header.header_type_code send_fifo_message
    client_server.Transport.write_strings client_server.Transport.next_write write_string
    client_server.Transport.resumed_write poll_fd
wire-blocks = refl

read_fifo_message-send_example :
    ((send_fifo_message (some slow_writes) (carried plain_header payloads) payloads).ending
      ≡ write_done)
    × (read_fifo_message false (some slow_reads) plain_header ([] ∷ [] ∷ [] ∷ [])
        ≡ some (
            delivered plain_header plain_header payloads handshake-IsSendable message-IsFramed [] []
              []))
    × (read_fifo_message true (some block_reads) plain_header ([] ∷ [] ∷ [] ∷ [])
        ≡ some (
            delivered plain_header plain_header payloads handshake-IsSendable message-IsFramed [] []
              []))
read_fifo_message-send_example =
    read_fifo_message-send plain_header plain_header payloads handshake-IsSendable message-IsFramed
      [] [] [] slow_writes slow_reads block_reads slow_writes-IsWritable size-message
      slow_reads-IsOpen wire-message block_reads-IsBlocking wire-blocks
