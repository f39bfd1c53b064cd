-- ===== src/TaskController/Board.antt =====
-- Threads that take indices from a shared counter: what is true when all of them have arrived at
-- the barrier. `Done j` says that the work on index `j` is finished, and `n` is the number of
-- indices.
use mathlib.Core.Option.{some-injective}
use native.Mathlib.Decide.{ℕ_discrete, dec_lt}
use client_server.Base.{
  All, get_elem?-set, get_elem?_inside, ℕ, zero, suc, ◌≤◌, ◌<◌, List, [], ◌∷◌, some, ◌≡◌, sym, ap,
  ◌∙◌, arith, get_elem?, set, length, get_elem?-set_self, get_elem?-set_ne, ◌⊎◌, inl, inr,
  replicate,
}

-- Where a thread is in `Worker::run`: at the test of `_stopped`, at `fetch_add`, at the work on an
-- index, at the return of `processNext` or `preprocessNext`, at the barrier, or out of the loop.
pub data Place : Type 0 where
  top ready : Place
  claimed : ℕ → Place
  wrote arrived left : Place

pub record Board (Done : ℕ → Type 0) (n index : ℕ) (places : List Place) : Type 0 where
  -- Each index below the counter is done, or a thread is at it.
  pub covered :
      (j : ℕ) → j < index → j < n → Done j ⊎ ((w : ℕ) × (get_elem? places w ≡ some (claimed j)))
  -- Who has arrived has seen the counter at the end.
  pub at_end : (w : ℕ) → get_elem? places w ≡ some arrived → n ≤ index

-- A thread moves from one place to another, and the counter may grow.
pub Board-move :
    (Done Done' : ℕ → Type 0) (n index index' w : ℕ) (places : List Place) (old new : Place)
    → ((j : ℕ) → j < n → Done j → Done' j)
    → index ≤ index'
    → get_elem? places w ≡ some old
    → ((j : ℕ) → j < n → old ≡ claimed j → Done' j)
    → ((j : ℕ) → index ≤ j → j < index' → j < n → new ≡ claimed j)
    → (new ≡ arrived → n ≤ index')
    → Board Done n index places
    → Board Done' n index' (set places w new)
Board-move Done Done' n index index' w places old new keep grows here leaves takes arrives b =
    record {
      covered = λ j below fits. elim (dec_lt j index) [
        | yes known ↦ elim (b.covered j known fits) [
          | inl d ↦ inl (keep j fits d)
          | inr (v, e) ↦ elim (ℕ_discrete w v) [
            | yes same ↦
                inl (leaves j fits (some-injective _ _ (sym here ∙ ap (get_elem? places) same ∙ e)))
            | no other ↦ inr (v, get_elem?-set_ne places w v new other ∙ e)
          ]
        ]
        | no fresh ↦ inr (
          w,
          get_elem?-set_self places w new (get_elem?_inside places w old here)
              ∙ ap some (takes j (omega arith) below fits),
        )
      ];
      at_end = λ v e. elim (get_elem?-set places w v new arrived e) [
        | inl (same, f) ↦ arrives f
        | inr f ↦ omega (arith, b.at_end v f)
      ];
    }

-- The places of a round that begins.
abbrev pub all_top : ℕ → List Place
all_top threads = replicate threads top

top_only : (threads w : ℕ) (p : Place) → get_elem? (all_top threads) w ≡ some p → p ≡ top
top_only zero w p h = cc
top_only (suc threads) zero p h = sym (some-injective _ _ h)
top_only (suc threads) (suc w) p h = top_only threads w p h

pub Board-start : (Done : ℕ → Type 0) (n threads : ℕ) → Board Done n 0 (all_top threads)
Board-start Done n threads = record {
  covered = λ j below fits. absurd (omega arith);
  at_end = λ w e. absurd (cc (top_only threads w arrived e));
}

first :
    (places : List Place)
    → All (λ p. p ≡ arrived) places
    → 0 < length places
    → get_elem? places 0 ≡ some arrived
first [] all some_thread = absurd (omega arith)
first (p ∷ places) all some_thread = ap some all.0

each :
    (places : List Place)
    → All (λ p. p ≡ arrived) places
    → (w : ℕ) (p : Place) → get_elem? places w ≡ some p
    → p ≡ arrived
each [] all w p h = cc
each (q ∷ places) all zero p h = sym (some-injective _ _ h) ∙ all.0
each (q ∷ places) all (suc w) p h = each places all.1 w p h

-- When every thread has arrived, and there is one, all the work is done.
pub Board-done :
    (Done : ℕ → Type 0) (n index : ℕ) (places : List Place)
    → All (λ p. p ≡ arrived) places
    → 0 < length places
    → Board Done n index places
    → (j : ℕ) → j < n
    → Done j
Board-done Done n index places all some_thread b j fits =
    elim (b.covered j (omega (arith, b.at_end 0 (first places all some_thread))) fits) [
      | inl d ↦ d
      | inr (w, e) ↦ absurd (cc (each places all w (claimed j) e))
    ]
