-- ===== src/TaskBuilder/Batches.antt =====
-- The batches of a source, put together, are its lines with their ids.
use mathlib.Core.List.{flatten}
use mathlib.Core.Option
use client_server.Base.{
  ℕ, ◌+◌, ◌-◌, ◌≤◌, ◌<◌, true, false, List, [], ◌∷◌, ◌++◌, Option, none, some, ◌≡◌, Bytes, length,
  map, All, if◌then◌else◌, ◌⊎◌,
}
use client_server.Charconv.{Charconv}
use client_server.Header.{header_size}
use client_server.TaskBuilder.Defs.{
  Source, Batch, Created, no_batch, beyond_ids, new_batch, task_max_size, request_id,
}

module _ ⦃conv : Charconv⦄ where
  -- The lines from an index on, each behind its id.
  abbrev pub numbered : ℕ → List Bytes → Bytes
  numbered index [] = []
  numbered index (line ∷ lines) = request_id index ++ (line ++ numbered (index + 1) lines)

  -- What a batch takes from a source, in front of which `batch` is filled already.
  record Takes (max : ℕ) (batch : Bytes) (index : ℕ) (lines : List Bytes) (b : Batch) : Type 0 where
    pub whole :
        batch ++ numbered index lines ≡ b.text ++ numbered b.behind.next_index b.behind.remaining
    pub shorter : length b.behind.remaining < length lines
    pub same_end : b.behind.next_index + length b.behind.remaining ≡ index + length lines
    pub last : b.all_done ≡ true → b.behind.remaining ≡ []
    pub full : b.all_done ≡ false → max ≤ length b.text

  data Fills (max : ℕ) (batch : Bytes) (index : ℕ) (lines : List Bytes) : Created → Type 0 where
    at_end : lines ≡ [] → Fills max batch index lines no_batch
    too_many : task_max_size < index + length lines → Fills max batch index lines beyond_ids
    takes : (b : Batch) → Takes max batch index lines b → Fills max batch index lines (new_batch b)

  abbrev with_id : Bytes → Bytes → ℕ → Bytes
  with_id batch line index = batch ++ (request_id index ++ line)

  abbrev texts : List Batch → Bytes
  texts bs = flatten (map (λ b. b.text) bs)

  -- The last batch, or as long as `max`.
  abbrev IsLong : ℕ → Batch → Type 0
  IsLong max b = (b.all_done ≡ true) ⊎ (max ≤ length b.text)

  -- What comes of a source: no batches only where it has more lines than there are ids.
  data Sends (max index : ℕ) (lines : List Bytes) : Option (List Batch) → Type 0 where
    breaks : task_max_size < index + length lines → Sends max index lines none
    sends :
        (bs : List Batch)
        → texts bs ≡ numbered index lines
        → All (IsLong max) bs
        → Sends max index lines (some bs)

  -- One round of the loop, given what `next_batch` returned and what the loop does behind it.
  loop_round : (Source → Option (List Batch)) → Created → Option (List Batch)
  loop_round later no_batch = some []
  loop_round later beyond_ids = none
  loop_round later (new_batch b) =
      if b.all_done then some (b ∷ []) else Option.map (λ bs. b ∷ bs) (later b.behind)

  -- Limits.
  abbrev pub IsLimited : ℕ → Batch → Type 0
  IsLimited buffer_size b = (b.all_done ≡ true) ⊎ (buffer_size - header_size ≤ length b.text)
