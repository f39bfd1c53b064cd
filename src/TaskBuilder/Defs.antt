-- ===== src/TaskBuilder/Defs.antt =====
-- The batches of `createSubtask` and the states of the builder. The source is the list of its lines
-- that are still to be read, each with its delimiter, and the index of the next one.
use mathlib.Core.Option
use client_server.Base.{
  ℕ, zero, suc, ◌+◌, ◌-◌, ◌%◌, ◌^◌, Bool, true, false, List, [], ◌∷◌, ◌++◌, Option, none, some,
  if◌then◌else◌, leb, ltb, ◌||◌, Bytes, length,
}
use client_server.Charconv.{Charconv}
use client_server.Header.{
  Header, HeaderType, Compressors, Diagnostics, Status, header_size, to_chars_boost,
}
use client_server.Split.{store}

pub record Source : Type 0 where
  pub next_index : ℕ
  pub remaining : List Bytes

-- A batch that is to be sent: its text, whether it is the last one, and the source behind it.
pub record Batch : Type 0 where
  pub text : Bytes
  pub all_done : Bool
  pub behind : Source

-- How `createSubtask` ends: the source ends without a line, an id behind the array of ids is read,
-- or there is a batch.
pub data Created : Type 0 where
  no_batch beyond_ids : Created
  new_batch : Batch → Created

pub record Subtask : Type 0 where
  pub data_text : Bytes
  pub header : Header

-- `_subtasks` keeps its elements when it is filled again.
pub record TaskBuilder : Type 0 where
  pub subtasks : List Subtask
  pub subtask_index : ℕ
  pub status : Status
  pub stopped : Bool
  pub resumed : Bool

abbrev pub is_last : List Bytes → Bool
is_last [] = true
is_last (line ∷ lines) = false

-- The session header of a batch, and the size of what is sent.
abbrev pub session_header : Compressors → Diagnostics → Status → ℕ → Header
session_header compressor diagnostics status size = record {
  header_type = HeaderType.session;
  field1_size = size;
  field2_size = 0;
  compressor = compressor;
  diagnostics = diagnostics;
  status = status;
  field3_size = 0;
  field4_size = 0;
}

-- TASK_MAX_SIZE, the number of the ids in the array.
abbrev pub task_max_size : ℕ
task_max_size = 10000

-- `_bufferSize - HEADER_SIZE`, of a size_t.
abbrev pub max_subtask_size : ℕ → ℕ
max_subtask_size buffer_size = (buffer_size + 2 ^ 64 - header_size) % 2 ^ 64

module _ ⦃conv : Charconv⦄ where
  -- The text of an id.
  abbrev pub request_id : ℕ → Bytes
  request_id index = b'[' ∷ (to_chars_boost index false ++ b']' ∷ [])

  -- `getRequestId`; `none` behind the end of the array of ids, which the source reads there.
  unfoldable pub get_request_id : ℕ → Option Bytes
  get_request_id index = if ltb index task_max_size then some (request_id index) else none

  unfoldable pub copy_request_with_id : Bytes → Bytes → ℕ → Option Bytes
  unfolding get_request_id
  copy_request_with_id batch line index =
      Option.map (λ id. batch ++ (id ++ line)) (get_request_id index)

  -- The loop of `createSubtask`, with the batch so far.
  unfoldable pub fill_batch : ℕ → Bytes → ℕ → List Bytes → Created
  fill_batch max_subtask_size batch index [] = no_batch
  fill_batch max_subtask_size batch index (line ∷ lines) =
      elim (copy_request_with_id batch line index) [
        | none ↦ beyond_ids
        | some batch' ↦
            let more = fill_batch max_subtask_size batch' (index + 1) lines in
            if leb max_subtask_size (length batch') || is_last lines
            then new_batch (record {
              text = batch';
              all_done = is_last lines;
              behind = record { next_index = index + 1; remaining = lines };
            })
            else more
      ]

  unfoldable pub next_batch : ℕ → Source → Created
  unfolding fill_batch
  next_batch buffer_size source =
      fill_batch (max_subtask_size buffer_size) [] source.next_index source.remaining

  -- The batches that `run` sends from one source, `none` where an id behind the array is read. A
  -- batch takes a line, so the number of the lines is fuel enough.
  unfoldable pub batches_loop : ℕ → ℕ → Source → Option (List Batch)
  batches_loop zero buffer_size source = some []
  batches_loop (suc fuel) buffer_size source = elim (next_batch buffer_size source) [
    | no_batch ↦ some []
    | beyond_ids ↦ none
    | new_batch batch ↦
        let rest = batches_loop fuel buffer_size batch.behind in
        if batch.all_done then some (batch ∷ []) else Option.map (λ bs. batch ∷ bs) rest
  ]

  unfoldable pub batches : ℕ → List Bytes → Option (List Batch)
  unfolding batches_loop
  batches buffer_size lines =
      batches_loop (length lines) buffer_size (record { next_index = 0; remaining = lines })

abbrev pub empty_subtask : Subtask
empty_subtask = record {
  data_text = [];
  header = session_header Compressors.invalid_low Diagnostics.invalid_low Status.invalid_low 0;
}

-- `compressEncryptSubtask`. The call of the modelled functions that compress and encrypt is the
-- argument `seal`. The header has the status from before the batch.
unfoldable pub compress_encrypt_subtask :
    Compressors
    → Diagnostics
    → (Header → Bytes → Bytes)
    → Bytes
    → Bool
    → TaskBuilder
    → Status × TaskBuilder
compress_encrypt_subtask compressor diagnostics seal text all_done b =
    let header = session_header compressor diagnostics b.status in
    let status = if all_done then Status.task_done else Status.subtask_done in
    if b.stopped then (Status.stopped, b) else (
      status,
      record b {
        subtasks =
            store empty_subtask
              (λ subtask sealed. record { data_text = sealed; header = header (length sealed) })
              b.subtask_index (seal (header 0) text) b.subtasks;
        subtask_index = if all_done then b.subtask_index else b.subtask_index + 1;
        status = status;
      },
    )

abbrev pub stop : TaskBuilder → TaskBuilder
stop b = record b { stopped = true; status = Status.stopped }

unfoldable pub resume : TaskBuilder → TaskBuilder
resume b =
    if b.stopped then b else record b { subtask_index = 0; status = Status.none; resumed = true }

-- `getTask`: `none` while it waits. The caller's old subtasks stay with the builder.
unfoldable pub get_task :
    List Subtask → TaskBuilder → Option ((ℕ × Status) × List Subtask × TaskBuilder)
get_task task b =
    let out : (ℕ × Status) × List Subtask × TaskBuilder =
      ((b.subtask_index + 1, b.status), b.subtasks, record b { subtasks = task }) in
    elim b.status [
      | Status.task_done ↦ some out
      | Status.error ↦ some out
      | Status.stopped ↦ some out
      | _ ↦ none
    ]
