-- ===== src/Task/Answers.antt =====
-- What a task is to answer: the rows of its text, each with the size key made from it, in their
-- order.
use mathlib.Core.Option.{some-injective}
use client_server.Base.{
  ℕ, zero, suc, ◌+◌, ◌≤◌, ◌<◌, Bool, List, [], ◌∷◌, Option, none, some, ◌≡◌, refl, sym, ap, ◌∙◌,
  arith, Bytes, length, take, map, get_elem?, get_or, get_or-set_self, get_or-set_ne, length-set,
  length-map, length-take,
}
use native.Mathlib.Decide.{ℕ_discrete}
use client_server.Header.{Header, is_diagnostics_enabled}
use client_server.Policy.Interface.{Policy}
use client_server.Request.{SizeTuple, Request, empty_request, assign_input}
use client_server.Split.{split}
use client_server.Split.Rows.{split-rows_of}
use client_server.Split.Reuse.{count, split_reuse_vector-Filled}
use client_server.Task.Defs.{Task, update, request_at}
use client_server.Task.Update.{update-IsUpdated, count-rows_of}
use client_server.Task.Work.{HasKey, IsAnswered, with_key}

-- What a session pushes: the header and the text of an update.
pub record Pushed : Type 0 where
  pub header : Header
  pub text : Bytes

abbrev pub rows_to_answer : Pushed → List Bytes
rows_to_answer w = take (count b'\n' w.text) (split w.text b'\n' 0)

-- A row for which no size key can be made ends the program and has no answer.
abbrev pub answer_of : (Bytes → Option SizeTuple) → (p : Policy) → Bool → Bytes → Bytes
answer_of create p diagnostics row = elim (create row) [
  | none ↦ []
  | some key ↦ p.answer (record { size_key = key; input = row }) diagnostics
]

abbrev pub answers : (Bytes → Option SizeTuple) → Policy → Pushed → List Bytes
answers create p w = map (answer_of create p (is_diagnostics_enabled w.header)) (rows_to_answer w)

-- A task that was updated with a text, whatever was done to it since.
pub record IsOf (w : Pushed) (t : Task) : Type 0 where
  pub size_of : t.size ≡ count b'\n' w.text
  pub rows_enough : t.size ≤ length (split w.text b'\n' 0)
  pub inputs_of : (k : ℕ) → k < t.size → (request_at t k).input ≡ get_or (split w.text b'\n' 0) k []
  pub diagnostics_of : t.diagnostics ≡ is_diagnostics_enabled w.header
  pub response_of : length t.response ≡ t.size
  pub requests_of : t.size ≤ length t.requests

module _ {A B : Type 0} (f : A → B) where
  get_or-map-take :
      (n k : ℕ) (xs : List A) (a : A) (b : B)
      → k < n
      → k < length xs
      → get_or (map f (take n xs)) k b ≡ f (get_or xs k a)
  get_or-map-take n k [] a b h l = absurd (omega arith)
  get_or-map-take zero k (x ∷ xs) a b h l = absurd (omega arith)
  get_or-map-take (suc n) zero (x ∷ xs) a b h l = refl
  get_or-map-take (suc n) (suc k) (x ∷ xs) a b h l =
      get_or-map-take n k xs a b (omega arith) (omega arith)

  get_elem?-map-take :
      (n k : ℕ) (xs : List A) (a : A)
      → k < n
      → k < length xs
      → get_elem? (map f (take n xs)) k ≡ some (f (get_or xs k a))
  get_elem?-map-take n k [] a h l = absurd (omega arith)
  get_elem?-map-take zero k (x ∷ xs) a h l = absurd (omega arith)
  get_elem?-map-take (suc n) zero (x ∷ xs) a h l = refl
  get_elem?-map-take (suc n) (suc k) (x ∷ xs) a h l =
      get_elem?-map-take n k xs a (omega arith) (omega arith)

-- Two lists that agree at every place.
same_list :
    {A : Type 0} (xs ys : List A)
    → length xs ≡ length ys
    → ((k : ℕ) → k < length xs → get_elem? xs k ≡ get_elem? ys k)
    → xs ≡ ys
same_list [] [] e h = refl
same_list [] (y ∷ ys) e h = absurd (omega (arith, e))
same_list (x ∷ xs) [] e h = absurd (omega (arith, e))
same_list (x ∷ xs) (y ∷ ys) e h =
    ap (λ a. a ∷ xs) (some-injective _ _ (h 0 (omega arith)))
    ∙ ap (◌∷◌ y) (same_list xs ys (omega (arith, e)) (λ k lt. h (suc k) (omega arith)))

pub update-IsOf :
    (sorting : Bool) (header : Header) (text : Bytes) (t : Task)
    → IsOf (record { header = header; text = text }) (update sorting header text t)
unfolding update
update-IsOf sorting header text t =
    let f =
      split_reuse_vector-Filled empty_request assign_input (λ r. r.input) (λ r s. refl) b'\n' 0 text
        t.requests in
    let u = update-IsUpdated sorting header text t in
    let rows = split text b'\n' 0 in
    let n : (update sorting header text t).size ≡ count b'\n' text = omega (arith, f.counted) in
    let fits : (update sorting header text t).size ≤ length rows =
      omega (arith, n, count-rows_of b'\n' text, ap length (split-rows_of text b'\n')) in
    record {
      size_of = n;
      rows_enough = fits;
      inputs_of = λ k lt.
          sym (
            get_or-map-take (λ r. r.input) (0 + length rows) k
              (update sorting header text t).requests empty_request [] (omega (arith, lt, fits))
              (omega (arith, lt, u.requests_enough)))
          ∙ ap (λ (l : List Bytes). get_or l k []) f.filled;
      diagnostics_of = refl;
      response_of = u.response_size;
      requests_of = u.requests_enough;
    }

-- The parts that matter, where the requests stay.
pub IsOf-shape :
    (w : Pushed) (t t' : Task)
    → t'.requests ≡ t.requests
    → t'.size ≡ t.size
    → t'.diagnostics ≡ t.diagnostics
    → length t'.response ≡ length t.response
    → IsOf w t
    → IsOf w t'
IsOf-shape w t t' rs n d out o = record {
  size_of = n ∙ o.size_of;
  rows_enough = omega (arith, n, o.rows_enough);
  inputs_of = λ k lt.
      ap (λ (l : List Request). (get_or l k empty_request).input) rs
      ∙ o.inputs_of k (omega (arith, n, lt));
  diagnostics_of = d ∙ o.diagnostics_of;
  response_of = out ∙ o.response_of ∙ sym n;
  requests_of = omega (arith, n, ap length rs, o.requests_of);
}

input_kept :
    (t : Task) (i k : ℕ) (key : SizeTuple)
    → i < length t.requests
    → (request_at (with_key t i key) k).input ≡ (request_at t k).input
input_kept t i k key inside = elim (ℕ_discrete i k) [
  | yes e ↦
      ap (λ (j : ℕ). (request_at (with_key t i key) j).input) (sym e)
      ∙ ap (λ (r : Request). r.input)
          (get_or-set_self t.requests i (record (request_at t i) { size_key = key }) empty_request
            inside)
      ∙ ap (λ (j : ℕ). (request_at t j).input) e
  | no ne ↦
      ap (λ (r : Request). r.input)
        (get_or-set_ne t.requests i k (record (request_at t i) { size_key = key }) empty_request ne)
]

pub with_key-IsOf :
    (w : Pushed) (t : Task) (i : ℕ) (key : SizeTuple)
    → i < t.size
    → IsOf w t
    → IsOf w (with_key t i key)
with_key-IsOf w t i key lt o = record {
  size_of = o.size_of;
  rows_enough = o.rows_enough;
  inputs_of =
      λ k below. input_kept t i k key (omega (arith, lt, o.requests_of)) ∙ o.inputs_of k below;
  diagnostics_of = o.diagnostics_of;
  response_of = o.response_of;
  requests_of =
      omega (
        arith,
        o.requests_of,
        length-set t.requests i (record (request_at t i) { size_key = key }),
      );
}

module _ (create : Bytes → Option SizeTuple) (p : Policy) where
  answer_made :
      (diagnostics : Bool) (r : Request) (row : Bytes)
      → create r.input ≡ some r.size_key
      → r.input ≡ row
      → p.answer r diagnostics ≡ answer_of create p diagnostics row
  answer_made diagnostics r row key e =
      sym (
        ap
          (λ (o : Option SizeTuple). elim o [
            | none ↦ []
            | some k ↦ p.answer (record { size_key = k; input = r.input }) diagnostics
          ])
          key)
      ∙ ap (answer_of create p diagnostics) e

  -- A complete task has its answers.
  pub response-answers :
      (w : Pushed) (t : Task)
      → IsOf w t
      → ((k : ℕ) → k < t.size → HasKey create t k × IsAnswered p t k)
      → t.response ≡ answers create p w
  response-answers w t o done =
      let rows = split w.text b'\n' 0 in
      let f = answer_of create p (is_diagnostics_enabled w.header) in
      same_list t.response (answers create p w)
        (omega (
          arith,
          o.response_of,
          o.size_of,
          o.rows_enough,
          length-map f (take (count b'\n' w.text) rows),
          length-take (count b'\n' w.text) rows,
        ))
        (λ k lt.
          let below : k < t.size = omega (arith, lt, o.response_of) in
          (done k below).1
          ∙ ap some (
              ap (p.answer (request_at t k)) o.diagnostics_of
              ∙ answer_made (is_diagnostics_enabled w.header) (request_at t k) _ (done k below).0
                  (o.inputs_of k below))
          ∙ sym (
              get_elem?-map-take f (count b'\n' w.text) k rows [] (omega (arith, below, o.size_of))
                (omega (arith, below, o.rows_enough))))
