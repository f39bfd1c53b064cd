-- ===== src/Task/Work.antt =====
-- What `preprocessNext` and `processNext` do to the request that a thread has claimed.
use mathlib.Core.Option.{some-injective}
use native.Mathlib.Decide.{ℕ_discrete}
use client_server.Base.{
  ℕ, ◌≤◌, ◌<◌, Bool, Option, some, ◌≡◌, refl, sym, ap, ◌∙◌, subst, arith, Bytes, length, get_elem?,
  set, get_or-set_self, get_or-set_ne, get_elem?-set_self, get_elem?-set_ne, get_or-Stands,
  get_or-get_elem?, place_of, ltb, Bool-cases, Option-cases, inl, inr, ◌⊎◌,
}
use client_server.Policy.Interface.{Policy}
use client_server.Request.{SizeTuple, empty_request}
use client_server.Task.Defs.{Task, request_at, preprocess, process, org_index}
use client_server.Task.Update.{IsUpdated}

-- The size key of a request is made.
abbrev pub HasKey : (Bytes → Option SizeTuple) → Task → ℕ → Type 0
HasKey create t j = create (request_at t j).input ≡ some (request_at t j).size_key

-- A request has its reply.
abbrev pub IsAnswered : Policy → Task → ℕ → Type 0
IsAnswered p t k = get_elem? t.response k ≡ some (p.answer (request_at t k) t.diagnostics)

abbrev pub with_key : Task → ℕ → SizeTuple → Task
with_key t i key = record t {
  requests = set t.requests i (record (request_at t i) { size_key = key });
}

pub preprocess_cases :
    (create : Bytes → Option SizeTuple) (i : ℕ) (t t' : Task)
    → preprocess create i t ≡ some t'
    → ((t.size ≤ i) × (t' ≡ t))
      ⊎ ((key : SizeTuple) × (i < t.size)
          × (create (request_at t i).input ≡ some key)
          × (t' ≡ with_key t i key))
unfolding preprocess
preprocess_cases create i t t' h = elim (Bool-cases (ltb i t.size)) [
  | inr e ↦ inl (ground arith, sym (some-injective _ _ (rw (e, preprocess) at h)))
  | inl e ↦ elim (Option-cases (create (request_at t i).input)) [
    | inl f ↦ cc (rw (e, f, preprocess) at h)
    | inr (key, f) ↦
        inr (key, ground arith, f, sym (some-injective _ _ (rw (e, f, preprocess) at h)))
  ]
]

pub with_key-HasKey :
    (create : Bytes → Option SizeTuple) (t : Task) (i j : ℕ) (key : SizeTuple)
    → i < length t.requests
    → create (request_at t i).input ≡ some key
    → HasKey create t j ⊎ (i ≡ j)
    → HasKey create (with_key t i key) j
with_key-HasKey create t i j key inside made d = elim (ℕ_discrete i j) [
  | yes e ↦ subst (HasKey create (with_key t i key)) e (
      rw
        (get_or-set_self t.requests i (record (request_at t i) { size_key = key }) empty_request
          inside)
        made)
  | no ne ↦ elim d [
    | inl before ↦
        rw
          (get_or-set_ne t.requests i j (record (request_at t i) { size_key = key }) empty_request
            ne)
          before
    | inr e ↦ absurd (ne e)
  ]
]

module _ (p : Policy) (sorting : Bool) where
  abbrev reply_to : ℕ → Task → p.Kept → Bytes × p.Kept
  reply_to i t kept = p.respond (request_at t (org_index sorting t i)) t.diagnostics kept

  abbrev pub with_reply : ℕ → Task → p.Kept → Task × p.Kept
  with_reply i t kept = (
    record t { response = set t.response (org_index sorting t i) (reply_to i t kept).0 },
    (reply_to i t kept).1,
  )

  pub process_cases :
      (i : ℕ) (t : Task) (kept : p.Kept)
      → ((t.size ≤ i) × (process p sorting i t kept ≡ (t, kept)))
        ⊎ ((i < t.size) × (process p sorting i t kept ≡ with_reply i t kept))
  unfolding process
  process_cases i t kept = elim (Bool-cases (ltb i t.size)) [
    | inl e ↦ inr (ground arith, rw (e, process) refl)
    | inr e ↦ inl (ground arith, rw (e, process) refl)
  ]

  org_index-below :
      (t : Task) (i : ℕ) → IsUpdated sorting t → i < t.size → org_index sorting t i < t.size
  org_index-below t i u h = elim (Bool-cases sorting) [
    | inr e ↦ rw e h
    | inl e ↦
        rw e (
          u.indices_below e _
            (get_or-Stands t.sorted_indices i 0 (omega (arith, u.indices_size e))))
  ]

  -- Every place in the response is the one of an index.
  pub org_index-onto :
      (t : Task) (k : ℕ)
      → IsUpdated sorting t
      → k < t.size
      → (j : ℕ) × (j < t.size) × (org_index sorting t j ≡ k)
  org_index-onto t k u h = elim (Bool-cases sorting) [
    | inr e ↦ (k, h, rw e refl)
    | inl e ↦
        let (j, below, found) = place_of k t.sorted_indices (u.indices_in e k h) in
        (j, omega (arith, u.indices_size e), rw e (get_or-get_elem? t.sorted_indices j k 0 found))
  ]

  pub with_reply-IsAnswered :
      (t : Task) (i j : ℕ) (kept : p.Kept)
      → IsUpdated sorting t
      → i < t.size
      → p.IsFresh kept
      → IsAnswered p t (org_index sorting t j) ⊎ (i ≡ j)
      → IsAnswered p (with_reply i t kept).0 (org_index sorting t j)
  with_reply-IsAnswered t i j kept u below f d =
      elim (ℕ_discrete (org_index sorting t i) (org_index sorting t j)) [
        | yes e ↦ subst (IsAnswered p (with_reply i t kept).0) e (
            get_elem?-set_self t.response (org_index sorting t i) _
              (omega (arith, org_index-below t i u below, u.response_size))
            ∙ ap some (p.respond_fresh _ t.diagnostics kept f).0)
        | no ne ↦ elim d [
          | inl before ↦ get_elem?-set_ne t.response _ _ _ ne ∙ before
          | inr e ↦ absurd (ne (ap (org_index sorting t) e))
        ]
      ]
