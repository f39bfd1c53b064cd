-- ===== src/Tests/Controller.antt =====
-- One thread works on the empty task and then on a task of one request, until it is stopped.
use client_server.Base.{
  map, ◌++◌, ℕ, Bool, true, false, List, [], ◌∷◌, Option, none, some, ◌≡◌, refl, Bytes, codes,
  arith, All, map, length,
}
use client_server.Header.{Header}
use client_server.Policy.Interface.{Policy}
use client_server.Policy.Policies.{echo_policy}
use client_server.Request.{SizeTuple, zero_size}
use client_server.Task.{Task, empty_task, update, sort_indices, preprocess, process}
use client_server.TaskController.{
  TaskController, Phase, Reached, begins, steps, pushed, stopping, enters, takes, preprocesses,
  processes, arrives, leaves, completes, on_completion,
}
use client_server.TaskController.Board.{Place, top, ready, claimed, wrote, arrived, left}
use client_server.TaskController.Invariant.{IsComplete}
use client_server.TaskController.Completion.{finished-IsComplete}
use client_server.TaskController.Progress.{Progress, Reached-Progress}
use client_server.TaskController.Order.{at_start, pushes_of, responses-answers}
use client_server.Task.Answers.{answers}
use client_server.Tests.Wire.{plain_header}

abbrev test_policy : Policy
test_policy = echo_policy (λ pattern text. none)

abbrev one_size : Bytes → Option SizeTuple
one_size text = some (record { width = 300; height = 250 })

abbrev empty_at : ℕ → Bool → Task
empty_at index finished = record empty_task { index = index; finished = finished }

abbrev some_size : SizeTuple
some_size = record { width = 300; height = 250 }

-- The task of one request, with the index, the size key, the reply and the promise.
abbrev hello : ℕ → SizeTuple → Bytes → Bool → Task
hello index key reply finished = record {
  requests = record { size_key = key; input = codes "hello" } ∷ [];
  size = 1;
  sorted_indices = 0 ∷ [];
  response = reply ∷ [];
  finished = finished;
  index = index;
  diagnostics = false;
}

abbrev state :
    Task → List Task → Phase → Bool → Place → Bytes → List Task → TaskController test_policy
state task queue phase stopped place kept finished = record {
  task = task;
  queue = queue;
  phase = phase;
  stopped = stopped;
  places = place ∷ [];
  kept = kept ∷ [];
  finished = finished;
}

prepared : Reached one_size true 1 (
    state (empty_at 0 false) ((hello 0 zero_size [] false) ∷ []) Phase.process_task false top [] [])
unfolding preprocess process sort_indices on_completion client_server.TaskController.set_next_task
    update client_server.Split.split_reuse_vector client_server.Base.sort client_server.Split.find
    client_server.Base.insert_sorted client_server.Header.is_diagnostics_enabled
    client_server.Policy.Policies.echo
prepared =
    let r0 : Reached one_size true 1 (
        state (empty_at 0 false) ((hello 0 zero_size [] false) ∷ []) Phase.preprocess_task false top
          [] []) =
      steps begins (
        pushed (state (empty_at 0 false) [] Phase.preprocess_task false top [] []) plain_header
          (codes "hello\n") empty_task) in
    let r1 : Reached one_size true 1 (
        state (empty_at 0 false) ((hello 0 zero_size [] false) ∷ []) Phase.preprocess_task false
          ready [] []) =
      steps r0 (
        enters
          (state (empty_at 0 false) ((hello 0 zero_size [] false) ∷ []) Phase.preprocess_task false
            top [] [])
          0 refl refl) in
    let r2 : Reached one_size true 1 (
        state (empty_at 1 false) ((hello 0 zero_size [] false) ∷ []) Phase.preprocess_task false
          (claimed 0) [] []) =
      steps r1 (
        takes
          (state (empty_at 0 false) ((hello 0 zero_size [] false) ∷ []) Phase.preprocess_task false
            ready [] [])
          0 refl) in
    let r3 : Reached one_size true 1 (
        state (empty_at 1 false) ((hello 0 zero_size [] false) ∷ []) Phase.preprocess_task false
          wrote [] []) =
      steps r2 (
        preprocesses
          (state (empty_at 1 false) ((hello 0 zero_size [] false) ∷ []) Phase.preprocess_task false
            (claimed 0) [] [])
          0 0 (empty_at 1 false) refl refl refl) in
    let r4 : Reached one_size true 1 (
        state (empty_at 1 false) ((hello 0 zero_size [] false) ∷ []) Phase.preprocess_task false
          arrived [] []) =
      steps r3 (
        arrives
          (state (empty_at 1 false) ((hello 0 zero_size [] false) ∷ []) Phase.preprocess_task false
            wrote [] [])
          0 refl refl) in
    steps r4 (
      completes
        (state (empty_at 1 false) ((hello 0 zero_size [] false) ∷ []) Phase.preprocess_task false
          arrived [] [])
        (state (empty_at 0 false) ((hello 0 zero_size [] false) ∷ []) Phase.process_task false top
          [] [])
        (refl, tt) refl)

first_task : Reached one_size true 1 (
    state (hello 0 zero_size [] false) [] Phase.preprocess_task false top [] (empty_at 1 true ∷ []))
unfolding preprocess process sort_indices on_completion client_server.TaskController.set_next_task
    update client_server.Split.split_reuse_vector client_server.Base.sort client_server.Split.find
    client_server.Base.insert_sorted client_server.Header.is_diagnostics_enabled
    client_server.Policy.Policies.echo
first_task =
    let r0 : Reached one_size true 1 (
        state (empty_at 0 false) ((hello 0 zero_size [] false) ∷ []) Phase.process_task false ready
          [] []) =
      steps prepared (
        enters
          (state (empty_at 0 false) ((hello 0 zero_size [] false) ∷ []) Phase.process_task false top
            [] [])
          0 refl refl) in
    let r1 : Reached one_size true 1 (
        state (empty_at 1 false) ((hello 0 zero_size [] false) ∷ []) Phase.process_task false
          (claimed 0) [] []) =
      steps r0 (
        takes
          (state (empty_at 0 false) ((hello 0 zero_size [] false) ∷ []) Phase.process_task false
            ready [] [])
          0 refl) in
    let r2 : Reached one_size true 1 (
        state (empty_at 1 false) ((hello 0 zero_size [] false) ∷ []) Phase.process_task false wrote
          [] []) =
      steps r1 (
        processes
          (state (empty_at 1 false) ((hello 0 zero_size [] false) ∷ []) Phase.process_task false
            (claimed 0) [] [])
          0 0 refl refl) in
    let r3 : Reached one_size true 1 (
        state (empty_at 1 false) ((hello 0 zero_size [] false) ∷ []) Phase.process_task false
          arrived [] []) =
      steps r2 (
        arrives
          (state (empty_at 1 false) ((hello 0 zero_size [] false) ∷ []) Phase.process_task false
            wrote [] [])
          0 refl refl) in
    let r4 : Reached one_size true 1 (
        state (empty_at 1 true) ((hello 0 zero_size [] false) ∷ []) Phase.taking_task false arrived
          [] (empty_at 1 true ∷ [])) =
      steps r3 (
        completes
          (state (empty_at 1 false) ((hello 0 zero_size [] false) ∷ []) Phase.process_task false
            arrived [] [])
          (state (empty_at 1 true) ((hello 0 zero_size [] false) ∷ []) Phase.taking_task false
            arrived [] (empty_at 1 true ∷ []))
          (refl, tt) refl) in
    steps r4 (
      completes
        (state (empty_at 1 true) ((hello 0 zero_size [] false) ∷ []) Phase.taking_task false arrived
          [] (empty_at 1 true ∷ []))
        (state (hello 0 zero_size [] false) [] Phase.preprocess_task false top []
          (empty_at 1 true ∷ []))
        (refl, tt) refl)

sized :
    Reached one_size true 1
      (state (hello 0 some_size [] false) [] Phase.process_task false top [] (empty_at 1 true ∷ []))
unfolding preprocess process sort_indices on_completion client_server.TaskController.set_next_task
    update client_server.Split.split_reuse_vector client_server.Base.sort client_server.Split.find
    client_server.Base.insert_sorted client_server.Header.is_diagnostics_enabled
    client_server.Policy.Policies.echo
sized =
    let r0 : Reached one_size true 1 (
        state (hello 0 zero_size [] false) [] Phase.preprocess_task false ready []
          (empty_at 1 true ∷ [])) =
      steps first_task (
        enters
          (state (hello 0 zero_size [] false) [] Phase.preprocess_task false top []
            (empty_at 1 true ∷ []))
          0 refl refl) in
    let r1 : Reached one_size true 1 (
        state (hello 1 zero_size [] false) [] Phase.preprocess_task false (claimed 0) []
          (empty_at 1 true ∷ [])) =
      steps r0 (
        takes
          (state (hello 0 zero_size [] false) [] Phase.preprocess_task false ready []
            (empty_at 1 true ∷ []))
          0 refl) in
    let r2 : Reached one_size true 1 (
        state (hello 1 some_size [] false) [] Phase.preprocess_task false wrote []
          (empty_at 1 true ∷ [])) =
      steps r1 (
        preprocesses
          (state (hello 1 zero_size [] false) [] Phase.preprocess_task false (claimed 0) []
            (empty_at 1 true ∷ []))
          0 0 (hello 1 some_size [] false) refl refl refl) in
    let r3 : Reached one_size true 1 (
        state (hello 1 some_size [] false) [] Phase.preprocess_task false arrived []
          (empty_at 1 true ∷ [])) =
      steps r2 (
        arrives
          (state (hello 1 some_size [] false) [] Phase.preprocess_task false wrote []
            (empty_at 1 true ∷ []))
          0 refl refl) in
    steps r3 (
      completes
        (state (hello 1 some_size [] false) [] Phase.preprocess_task false arrived []
          (empty_at 1 true ∷ []))
        (state (hello 0 some_size [] false) [] Phase.process_task false top []
          (empty_at 1 true ∷ []))
        (refl, tt) refl)

whole_run : Reached one_size true 1 (
    state
      (hello 0 some_size (codes "hello\n") true)
      []
      Phase.preprocess_task
      true
      left
      (codes "hello\n")
      (empty_at 1 true ∷ hello 1 some_size (codes "hello\n") true ∷ []))
unfolding preprocess process sort_indices on_completion client_server.TaskController.set_next_task
    update client_server.Split.split_reuse_vector client_server.Base.sort client_server.Split.find
    client_server.Base.insert_sorted client_server.Header.is_diagnostics_enabled
    client_server.Policy.Policies.echo
whole_run =
    let r0 : Reached one_size true 1 (
        state (hello 0 some_size [] false) [] Phase.process_task false ready []
          (empty_at 1 true ∷ [])) =
      steps sized (
        enters
          (state (hello 0 some_size [] false) [] Phase.process_task false top []
            (empty_at 1 true ∷ []))
          0 refl refl) in
    let r1 : Reached one_size true 1 (
        state (hello 1 some_size [] false) [] Phase.process_task false (claimed 0) []
          (empty_at 1 true ∷ [])) =
      steps r0 (
        takes
          (state (hello 0 some_size [] false) [] Phase.process_task false ready []
            (empty_at 1 true ∷ []))
          0 refl) in
    let r2 : Reached one_size true 1 (
        state (hello 1 some_size (codes "hello\n") false) [] Phase.process_task false wrote
          (codes "hello\n") (empty_at 1 true ∷ [])) =
      steps r1 (
        processes
          (state (hello 1 some_size [] false) [] Phase.process_task false (claimed 0) []
            (empty_at 1 true ∷ []))
          0 0 refl refl) in
    let r3 : Reached one_size true 1 (
        state (hello 1 some_size (codes "hello\n") false) [] Phase.process_task false arrived
          (codes "hello\n") (empty_at 1 true ∷ [])) =
      steps r2 (
        arrives
          (state (hello 1 some_size (codes "hello\n") false) [] Phase.process_task false wrote
            (codes "hello\n") (empty_at 1 true ∷ []))
          0 refl refl) in
    let r4 : Reached one_size true 1 (
        state (hello 1 some_size (codes "hello\n") false) [] Phase.process_task true arrived
          (codes "hello\n") (empty_at 1 true ∷ [])) =
      steps r3 (
        stopping (
          state (hello 1 some_size (codes "hello\n") false) [] Phase.process_task false arrived
            (codes "hello\n") (empty_at 1 true ∷ []))) in
    let r5 : Reached one_size true 1 (
        state (hello 1 some_size (codes "hello\n") true) [] Phase.taking_task true arrived
          (codes "hello\n") (empty_at 1 true ∷ hello 1 some_size (codes "hello\n") true ∷ [])) =
      steps r4 (
        completes
          (state (hello 1 some_size (codes "hello\n") false) [] Phase.process_task true arrived
            (codes "hello\n") (empty_at 1 true ∷ []))
          (state (hello 1 some_size (codes "hello\n") true) [] Phase.taking_task true arrived
            (codes "hello\n") (empty_at 1 true ∷ hello 1 some_size (codes "hello\n") true ∷ []))
          (refl, tt) refl) in
    let r6 : Reached one_size true 1 (
        state (hello 0 some_size (codes "hello\n") true) [] Phase.preprocess_task true top
          (codes "hello\n") (empty_at 1 true ∷ hello 1 some_size (codes "hello\n") true ∷ [])) =
      steps r5 (
        completes
          (state (hello 1 some_size (codes "hello\n") true) [] Phase.taking_task true arrived
            (codes "hello\n") (empty_at 1 true ∷ hello 1 some_size (codes "hello\n") true ∷ []))
          (state (hello 0 some_size (codes "hello\n") true) [] Phase.preprocess_task true top
            (codes "hello\n") (empty_at 1 true ∷ hello 1 some_size (codes "hello\n") true ∷ []))
          (refl, tt) refl) in
    steps r6 (
      leaves
        (state (hello 0 some_size (codes "hello\n") true) [] Phase.preprocess_task true top
          (codes "hello\n") (empty_at 1 true ∷ hello 1 some_size (codes "hello\n") true ∷ []))
        0 refl refl)

finished-IsComplete_example :
    All
      (IsComplete one_size true test_policy)
      (empty_at 1 true ∷ hello 1 some_size (codes "hello\n") true ∷ [])
finished-IsComplete_example =
    finished-IsComplete one_size true test_policy 1
      (state (hello 0 some_size (codes "hello\n") true) [] Phase.preprocess_task true left
        (codes "hello\n") (empty_at 1 true ∷ hello 1 some_size (codes "hello\n") true ∷ []))
      (omega arith) whole_run

responses-answers_example :
    (rest : List (List Bytes)) × (map
          (λ t. t.response)
          (empty_at 1 true ∷ hello 1 some_size (codes "hello\n") true ∷ [])
        ++ rest
      ≡ map
          (answers one_size test_policy)
          (at_start ∷ pushes_of one_size true test_policy whole_run))
responses-answers_example =
    responses-answers one_size true test_policy 1
      (state (hello 0 some_size (codes "hello\n") true) [] Phase.preprocess_task true left
        (codes "hello\n") (empty_at 1 true ∷ hello 1 some_size (codes "hello\n") true ∷ []))
      (omega arith) whole_run

Reached-Progress_example :
    Progress one_size true test_policy (
      state (empty_at 0 false) (hello 0 zero_size [] false ∷ []) Phase.process_task false top [] [])
Reached-Progress_example =
    Reached-Progress one_size true test_policy 1
      (state (empty_at 0 false) (hello 0 zero_size [] false ∷ []) Phase.process_task false top []
        [])
      prepared refl (λ i lt. absurd (omega (arith, lt)))
