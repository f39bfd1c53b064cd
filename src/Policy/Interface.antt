-- ===== src/Policy/Interface.antt =====
-- What a task relies on: a policy answers a request with the help of what a thread keeps from its
-- earlier requests, and what it keeps does not show in the answer.
use client_server.Base.{Bool, Bytes, ◌≡◌}
use client_server.Request.{Request}

pub record Policy : Type 1 where
  pub Kept : Type 0
  pub start : Kept
  pub respond : Request → Bool → Kept → Bytes × Kept
  pub answer : Request → Bool → Bytes
  pub IsFresh : Kept → Type 0
  pub start_fresh : IsFresh start
  pub respond_fresh :
      (request : Request) (diagnostics : Bool) (kept : Kept)
      → IsFresh kept
      → ((respond request diagnostics kept).0 ≡ answer request diagnostics)
        × IsFresh (respond request diagnostics kept).1
