-- ===== src/Task/Defs.antt =====
-- The state of a task and its operations. `fetch_add` and the work on the request that it claims
-- are two definitions: other threads run in between.
use client_server.Base.{
  ℕ, zero, suc, ◌+◌, ◌-◌, Bool, true, false, List, [], ◌∷◌, ◌++◌, Option, none, some, if◌then◌else◌,
  ltb, Bytes, take, replicate, length, get_or, set, sort,
}
use client_server.Header.{Header, is_diagnostics_enabled}
use client_server.Policy.Interface.{Policy}
use client_server.Request.{SizeTuple, Request, empty_request, assign_input, size_lt}
use client_server.Split.{split_reuse_vector}

-- `finished` stands for the promise: it has its value.
pub record Task : Type 0 where
  pub requests : List Request
  pub size : ℕ
  pub sorted_indices : List ℕ
  pub response : List Bytes
  pub finished : Bool
  pub index : ℕ
  pub diagnostics : Bool

abbrev pub empty_task : Task
empty_task = record {
  requests = [];
  size = 0;
  sorted_indices = [];
  response = [];
  finished = false;
  index = 0;
  diagnostics = false;
}

-- `std::vector::resize`
abbrev pub resize {ℓ} : {A : Type ℓ} → ℕ → A → List A → List A
resize n fresh xs = take n xs ++ replicate (n - length xs) fresh

-- `from`, `from + 1` and so on, `n` numbers.
abbrev pub indices_from : ℕ → ℕ → List ℕ
indices_from start zero = []
indices_from start (suc n) = start ∷ indices_from (start + 1) n

abbrev pub request_at : Task → ℕ → Request
request_at t i = get_or t.requests i empty_request

-- The flag says whether the policy is SORTINPUT, here and below.
unfoldable pub update : Bool → Header → Bytes → Task → Task
update sorting header text t =
    let (size, requests) = split_reuse_vector empty_request assign_input text b'\n' 0 t.requests in
    record t {
      finished = false;
      diagnostics = is_diagnostics_enabled header;
      requests = requests;
      size = size;
      sorted_indices = if sorting then indices_from 0 size else t.sorted_indices;
      response = resize size [] t.response;
    }

unfoldable pub sort_indices : Task → Task
sort_indices t = record t {
  sorted_indices =
      sort (λ i j. size_lt (request_at t i).size_key (request_at t j).size_key) t.sorted_indices;
}

abbrev pub reset_index : Task → Task
reset_index t = record t { index = 0 }

-- `_index.fetch_add(1)` leaves this task; the claimed index is the one before.
abbrev pub fetch_add : Task → Task
fetch_add t = record t { index = t.index + 1 }

-- `preprocessNext` behind `fetch_add`; `none` where `createSizeKey` throws.
unfoldable pub preprocess : (Bytes → Option SizeTuple) → ℕ → Task → Option Task
preprocess create index t =
    if ltb index t.size
    then elim (create (request_at t index).input) [
      | none ↦ none
      | some key ↦ some (record t {
        requests = set t.requests index (record (request_at t index) { size_key = key });
      })
    ]
    else some t

-- The place in the response that an index stands for.
abbrev pub org_index : Bool → Task → ℕ → ℕ
org_index sorting t index = if sorting then get_or t.sorted_indices index 0 else index

-- `processNext` behind `fetch_add`, with what the thread keeps for the policy. The server of a
-- controlled task is alive.
unfoldable pub process : (p : Policy) → Bool → ℕ → Task → p.Kept → Task × p.Kept
process p sorting index t kept =
    let org = org_index sorting t index in
    let (reply, kept') = p.respond (request_at t org) t.diagnostics kept in
    if ltb index t.size
    then (record t { response = set t.response org reply }, kept')
    else (t, kept)

-- What both return.
abbrev pub has_more : Task → Bool
has_more t = ltb t.index t.size

abbrev pub finish : Task → Task
finish t = record t { finished = true }
