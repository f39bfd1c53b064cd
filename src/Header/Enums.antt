-- ===== src/Header/Enums.antt =====
-- The enumerations of common/Header.h and the conversion of a character into one.
use mathlib.Core.Option.{Option}
use client_server.Base.{ℕ, ◌-◌, ◌≡◌, ◌≢◌, List, [], ◌∷◌, ◌||◌, leb, if◌then◌else◌, get_or, arith}

-- An enumeration over `char` whose values follow one another. Its first and last enumerators are
-- INVALIDLOW and INVALIDHIGH.
pub record Enumeration (A : Type 0) : Type 0 where
  pub to_underlying : A → ℕ
  pub invalid_low : A
  pub invalid_high : A
  pub enumerators : List A

abbrev pub to_underlying : {A : Type 0} ⦃e : Enumeration A⦄ → A → ℕ
to_underlying ⦃e⦄ = e.to_underlying

-- A byte from 128 on is a negative `char` and fails the first test of the source; here it fails
-- the second one.
unfoldable pub deserialize_enumeration : {A : Type 0} ⦃e : Enumeration A⦄ → ℕ → Option A
deserialize_enumeration ⦃e⦄ c =
    if leb c (e.to_underlying e.invalid_low) || leb (e.to_underlying e.invalid_high) c
    then Option.none
    else Option.some (get_or e.enumerators (c - e.to_underlying e.invalid_low) e.invalid_high)

abbrev pub IsValid : {A : Type 0} ⦃e : Enumeration A⦄ → A → Type 0
IsValid ⦃e⦄ a = (a ≢ e.invalid_low) × (a ≢ e.invalid_high)

pub data HeaderType : Type 0 where
  invalid_low none authenticate dh_handshake heartbeat session error invalid_high : HeaderType

pub data Compressors : Type 0 where
  invalid_low none lz4 snappy zstd invalid_high : Compressors

pub data Diagnostics : Type 0 where
  invalid_low none enabled invalid_high : Diagnostics

pub data Status : Type 0 where
  invalid_low none subtask_done task_done bad_header compression_problem : Status
  encryption_problem decryption_problem decompression_problem fifo_problem tcp_problem : Status
  tcp_timeout heartbeat_problem heartbeat_timeout max_total_objects max_objects_of_type : Status
  session_stopped stopped error invalid_high : Status

unfoldable pub header_type_code : HeaderType → ℕ
header_type_code HeaderType.invalid_low = b'@'
header_type_code HeaderType.none = b'A'
header_type_code HeaderType.authenticate = b'B'
header_type_code HeaderType.dh_handshake = b'C'
header_type_code HeaderType.heartbeat = b'D'
header_type_code HeaderType.session = b'E'
header_type_code HeaderType.error = b'F'
header_type_code HeaderType.invalid_high = b'G'

unfoldable pub compressors_code : Compressors → ℕ
compressors_code Compressors.invalid_low = b'@'
compressors_code Compressors.none = b'A'
compressors_code Compressors.lz4 = b'B'
compressors_code Compressors.snappy = b'C'
compressors_code Compressors.zstd = b'D'
compressors_code Compressors.invalid_high = b'E'

unfoldable pub diagnostics_code : Diagnostics → ℕ
diagnostics_code Diagnostics.invalid_low = b'@'
diagnostics_code Diagnostics.none = b'A'
diagnostics_code Diagnostics.enabled = b'B'
diagnostics_code Diagnostics.invalid_high = b'C'

unfoldable pub status_code : Status → ℕ
status_code Status.invalid_low = b'@'
status_code Status.none = b'A'
status_code Status.subtask_done = b'B'
status_code Status.task_done = b'C'
status_code Status.bad_header = b'D'
status_code Status.compression_problem = b'E'
status_code Status.encryption_problem = b'F'
status_code Status.decryption_problem = b'G'
status_code Status.decompression_problem = b'H'
status_code Status.fifo_problem = b'I'
status_code Status.tcp_problem = b'J'
status_code Status.tcp_timeout = b'K'
status_code Status.heartbeat_problem = b'L'
status_code Status.heartbeat_timeout = b'M'
status_code Status.max_total_objects = b'N'
status_code Status.max_objects_of_type = b'O'
status_code Status.session_stopped = b'P'
status_code Status.stopped = b'Q'
status_code Status.error = b'R'
status_code Status.invalid_high = b'S'

instance abbrev pub header_type_enumeration : Enumeration HeaderType
header_type_enumeration = record {
  to_underlying = header_type_code;
  invalid_low = HeaderType.invalid_low;
  invalid_high = HeaderType.invalid_high;
  enumerators =
      HeaderType.invalid_low ∷ HeaderType.none ∷ HeaderType.authenticate ∷ HeaderType.dh_handshake
      ∷ HeaderType.heartbeat ∷ HeaderType.session ∷ HeaderType.error ∷ HeaderType.invalid_high ∷ [];
}

instance abbrev pub compressors_enumeration : Enumeration Compressors
compressors_enumeration = record {
  to_underlying = compressors_code;
  invalid_low = Compressors.invalid_low;
  invalid_high = Compressors.invalid_high;
  enumerators =
      Compressors.invalid_low ∷ Compressors.none ∷ Compressors.lz4 ∷ Compressors.snappy
      ∷ Compressors.zstd ∷ Compressors.invalid_high ∷ [];
}

instance abbrev pub diagnostics_enumeration : Enumeration Diagnostics
diagnostics_enumeration = record {
  to_underlying = diagnostics_code;
  invalid_low = Diagnostics.invalid_low;
  invalid_high = Diagnostics.invalid_high;
  enumerators =
      Diagnostics.invalid_low ∷ Diagnostics.none ∷ Diagnostics.enabled ∷ Diagnostics.invalid_high
      ∷ [];
}

instance abbrev pub status_enumeration : Enumeration Status
status_enumeration = record {
  to_underlying = status_code;
  invalid_low = Status.invalid_low;
  invalid_high = Status.invalid_high;
  enumerators =
      Status.invalid_low ∷ Status.none ∷ Status.subtask_done ∷ Status.task_done ∷ Status.bad_header
      ∷ Status.compression_problem ∷ Status.encryption_problem ∷ Status.decryption_problem
      ∷ Status.decompression_problem ∷ Status.fifo_problem ∷ Status.tcp_problem ∷ Status.tcp_timeout
      ∷ Status.heartbeat_problem ∷ Status.heartbeat_timeout ∷ Status.max_total_objects
      ∷ Status.max_objects_of_type ∷ Status.session_stopped ∷ Status.stopped ∷ Status.error
      ∷ Status.invalid_high ∷ [];
}

-- The enumerators between the two bounds come back from their characters, and the bounds do not.
abbrev pub ReadsBack : (A : Type 0) ⦃e : Enumeration A⦄ → Type 0
ReadsBack A = (a : A) → IsValid a → deserialize_enumeration (to_underlying a) ≡ Option.some a

pub HeaderType-ReadsBack : ReadsBack HeaderType
unfolding deserialize_enumeration header_type_code
HeaderType-ReadsBack HeaderType.invalid_low v = ground arith
HeaderType-ReadsBack _ v = ground arith

pub Compressors-ReadsBack : ReadsBack Compressors
unfolding deserialize_enumeration compressors_code
Compressors-ReadsBack Compressors.invalid_low v = ground arith
Compressors-ReadsBack _ v = ground arith

pub Diagnostics-ReadsBack : ReadsBack Diagnostics
unfolding deserialize_enumeration diagnostics_code
Diagnostics-ReadsBack Diagnostics.invalid_low v = ground arith
Diagnostics-ReadsBack _ v = ground arith

pub Status-ReadsBack : ReadsBack Status
unfolding deserialize_enumeration status_code
Status-ReadsBack Status.invalid_low v = ground arith
Status-ReadsBack _ v = ground arith
