-- ===== src/Transport/Defs.antt =====
-- What the two transports share: the mark behind a message, and what the calls of the operating
-- system answer. A connection is the list of the answers that the system gives to the calls, in
-- their order; where it ends, the caller still waits.
use client_server.Base.{
  ◌-◌, List, Bool, ◌&&◌, Option, none, some, leb, Bytes, codes, bytes_eq, length, drop,
}
use client_server.Charconv.{Charconv}
use client_server.Header.{Header, rejected, threw}
use client_server.Message.{Processed, process_message}

abbrev pub end_of_message : Bytes
end_of_message = codes "f65438b3bf504ace8483e6642a84d2fd"

-- `ends_with` of the standard library's strings.
unfoldable pub ends_with : Bytes → Bytes → Bool
ends_with s suffix =
    leb (length suffix) (length s) && bytes_eq (drop (length s - length suffix) s) suffix

-- How the reading of a string ends: with the string, with false, with a throw, or not yet, with
-- the bytes that have come.
pub data Received : Type 0 where
  complete : Bytes → Received
  refused : Received
  raised : Received
  incomplete : Bytes → Received

-- The four strings of a message between its header and the mark.
pub record Payloads : Type 0 where
  pub payload1 : Bytes
  pub payload2 : Bytes
  pub payload3 : Bytes
  pub payload4 : Bytes

module _ ⦃conv : Charconv⦄ where
  -- `readMessage` with a header, of both transports, behind the reading of the string; `none`
  -- where that has not ended.
  unfoldable pub process_received : Received → Header → List Bytes → Option Processed
  process_received (complete payload) h array = some (process_message payload h array)
  process_received refused h array = some (record { outcome = rejected; header = h; array = array })
  process_received raised h array = some (record { outcome = threw; header = h; array = array })
  process_received (incomplete s) h array = none
