-- ===== src/Tests/Builder.antt =====
-- Batches at concrete inputs.
use mathlib.Core.Option
use client_server.Base.{◌≡◌, refl, some, [], ◌∷◌, List, Bytes, codes, map}
use client_server.TaskBuilder.{batches, fill_batch, beyond_ids}
use client_server.Tests.Data.{conv}

abbrev three_lines : List Bytes
three_lines = codes "one\n" ∷ codes "two\n" ∷ codes "three\n" ∷ []

batches_test :
    Option.map (λ bs. map (λ b. b.text) bs) (batches 50 three_lines)
    ≡ some (codes "[0]one\n" ∷ codes "[1]two\n" ∷ codes "[2]three\n" ∷ [])
unfolding batches client_server.TaskBuilder.next_batch
    client_server.TaskBuilder.copy_request_with_id client_server.TaskBuilder.get_request_id
    client_server.Header.to_chars_boost client_server.Charconv.Laws.std_charconv
batches_test = refl

-- There is no id for the line of index 10000.
beyond_ids_test : fill_batch 10 [] 10000 three_lines ≡ beyond_ids
unfolding fill_batch client_server.TaskBuilder.copy_request_with_id
    client_server.TaskBuilder.get_request_id
beyond_ids_test = refl
