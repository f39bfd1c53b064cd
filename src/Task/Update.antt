-- ===== src/Task/Update.antt =====
-- What `update` and `sortIndices` leave in a task.
use client_server.Base.{
  ℕ, zero, suc, ◌+◌, ◌-◌, ◌≤◌, ◌<◌, Bool, true, List, [], ◌∷◌, ◌≡◌, refl, ap, ◌∙◌, arith, ◌==◌,
  Bytes, length, length-append, length-take, length-replicate, Stands, sort-Stands, Stands-sort,
  length-sort, inl, inr, take, replicate, Bool-cases,
}
use client_server.Header.{Header}
use client_server.Request.{empty_request, assign_input}
use client_server.Split.Rows.{rows_of, grow, split-rows_of}
use client_server.Split.Reuse.{count, split_reuse_vector-Filled}
use client_server.Task.Defs.{Task, resize, indices_from, update, sort_indices, empty_task}

-- A task that was updated: there is a request and a place in the response for every index, and
-- the indices to sort are those below the size.
pub record IsUpdated (sorting : Bool) (t : Task) : Type 0 where
  pub requests_enough : t.size ≤ length t.requests
  pub response_size : length t.response ≡ t.size
  pub indices_size : sorting ≡ true → length t.sorted_indices ≡ t.size
  pub indices_in : sorting ≡ true → (k : ℕ) → k < t.size → Stands k t.sorted_indices
  pub indices_below : sorting ≡ true → (k : ℕ) → Stands k t.sorted_indices → k < t.size

length-indices_from : (start n : ℕ) → length (indices_from start n) ≡ n
length-indices_from start zero = refl
length-indices_from start (suc n) = ap suc (length-indices_from (start + 1) n)

indices_from-Stands : (start n k : ℕ) → start ≤ k → k < start + n → Stands k (indices_from start n)
indices_from-Stands start zero k low high = absurd (omega arith)
indices_from-Stands start (suc n) k low high = elim (Bool-cases (k == start)) [
  | inl e ↦ inl (ground arith)
  | inr e ↦ inr (indices_from-Stands (start + 1) n k (ground arith) (omega arith))
]

Stands-indices_from : (start n k : ℕ) → Stands k (indices_from start n) → k < start + n
Stands-indices_from start zero k s = elim s [ ]
Stands-indices_from start (suc n) k (inl e) = omega arith
Stands-indices_from start (suc n) k (inr s) = omega (arith, Stands-indices_from (start + 1) n k s)

length-resize {ℓ} : {A : Type ℓ} (n : ℕ) (fresh : A) (xs : List A) → length (resize n fresh xs) ≡ n
length-resize n fresh xs = omega (
  arith,
  length-append (take n xs) (replicate (n - length xs) fresh),
  length-take n xs,
  length-replicate (n - length xs) fresh,
)

length-grow : (c : ℕ) (rows : List Bytes) → length rows ≤ length (grow c rows)
length-grow c [] = omega arith
length-grow c (r ∷ rows) = omega arith

-- There is a row for every delimiter.
pub count-rows_of : (delim : ℕ) (s : Bytes) → count delim s ≤ length (rows_of delim s)
count-rows_of delim [] = omega arith
count-rows_of delim (c ∷ s) = elim (Bool-cases (c == delim)) [
  | inl e ↦ rw e (omega (arith, count-rows_of delim s))
  | inr e ↦ rw e (omega (arith, count-rows_of delim s, length-grow c (rows_of delim s)))
]

-- After an update, whatever the task held before, there is a request and a place in the response
-- for every index below the size, and, if the policy sorts, the indices to sort are just those
-- below the size, each in a list of that length.
pub update-IsUpdated :
    (sorting : Bool) (header : Header) (text : Bytes) (t : Task)
    → IsUpdated sorting (update sorting header text t)
unfolding update
update-IsUpdated sorting header text t =
    let f =
      split_reuse_vector-Filled empty_request assign_input (λ r. r.input) (λ r s. refl) b'\n' 0 text
        t.requests in
    record {
      requests_enough = omega (
        arith,
        f.counted,
        f.enough,
        count-rows_of b'\n' text,
        ap length (split-rows_of text b'\n'),
      );
      response_size = length-resize _ [] t.response;
      indices_size = λ s. rw s (length-indices_from 0 _);
      indices_in = λ s k h. rw s (indices_from-Stands 0 _ k (omega arith) (omega arith));
      indices_below = λ s k h. omega (arith, Stands-indices_from 0 _ k (rw s at h));
    }

pub sort_indices-IsUpdated :
    (sorting : Bool) (t : Task) → IsUpdated sorting t → IsUpdated sorting (sort_indices t)
unfolding sort_indices
sort_indices-IsUpdated sorting t u = record {
  requests_enough = u.requests_enough;
  response_size = u.response_size;
  indices_size = λ s. length-sort _ t.sorted_indices ∙ u.indices_size s;
  indices_in = λ s k h. sort-Stands _ k t.sorted_indices (u.indices_in s k h);
  indices_below = λ s k h. u.indices_below s k (Stands-sort _ k t.sorted_indices h);
}

pub empty_task-IsUpdated : (sorting : Bool) → IsUpdated sorting empty_task
empty_task-IsUpdated sorting = record {
  requests_enough = omega arith;
  response_size = refl;
  indices_size = λ s. refl;
  indices_in = λ s k h. absurd (omega arith);
  indices_below = λ s k h. absurd h;
}

-- The parts that matter are the sizes and the indices.
pub IsUpdated-shape :
    (sorting : Bool) (t t' : Task)
    → length t'.requests ≡ length t.requests
    → t'.size ≡ t.size
    → length t'.response ≡ length t.response
    → t'.sorted_indices ≡ t.sorted_indices
    → IsUpdated sorting t
    → IsUpdated sorting t'
IsUpdated-shape sorting t t' rs n out ix u = record {
  requests_enough = omega (arith, u.requests_enough);
  response_size = omega (arith, u.response_size);
  indices_size = λ s. omega (arith, ap length ix, u.indices_size s);
  indices_in = λ s k h. rw ix (u.indices_in s k (omega arith));
  indices_below = λ s k h. omega (arith, u.indices_below s k (rw ix at h));
}
