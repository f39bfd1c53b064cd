-- ===== src/ThreadPool/Stopping.antt =====
-- When the loop of `stop` ends.
use client_server.Base.{
  ℕ, zero, suc, List, [], ◌∷◌, none, some, length, ◌≡◌, refl, All, ◌++◌, ◌≢◌, ap, ◌⊎◌, inl, inr,
}
use client_server.ThreadPool.Defs.{
  Handle, other_thread, endless_thread, this_thread, detached, join_threads,
}

stuck : (fuel : ℕ) (handles : List Handle) → join_threads fuel (detached ∷ handles) ≡ none
unfolding join_threads
stuck zero handles = refl
stuck (suc fuel) handles = stuck fuel handles

waiting : (fuel : ℕ) (handles : List Handle) → join_threads fuel (endless_thread ∷ handles) ≡ none
unfolding join_threads
waiting zero handles = refl
waiting (suc fuel) handles = waiting fuel handles

-- Whether the loop ends, and how: with no handle left where every thread is another one that ends.
abbrev pub IsEnding : List Handle → Type 0
IsEnding handles =
    (All (λ h. h ≡ other_thread) handles × (join_threads (length handles) handles ≡ some []))
    ⊎ ((before : List Handle) × (h : Handle) × (after : List Handle) × (handles
          ≡ before ++ (h ∷ after))
        × (h ≢ other_thread)
        × ((fuel : ℕ) → join_threads fuel handles ≡ none))

behind_thread :
    (handles : List Handle)
    → ((fuel : ℕ) → join_threads fuel handles ≡ none)
    → (fuel : ℕ) → join_threads fuel (other_thread ∷ handles) ≡ none
unfolding join_threads
behind_thread handles h zero = refl
behind_thread handles h (suc fuel) = h fuel

self_stuck : (handles : List Handle) (fuel : ℕ) → join_threads fuel (this_thread ∷ handles) ≡ none
unfolding join_threads
self_stuck handles zero = refl
self_stuck handles (suc fuel) = stuck fuel handles

-- Either every thread is another one than the caller's and ends, and then the loop of stop ends
-- with no handle left, in as many rounds as there are threads; or there is a handle of another
-- kind, a thread that never ends, the caller's own or a detached one, and then the loop never
-- ends.
pub join_threads_ends : (handles : List Handle) → IsEnding handles
unfolding join_threads
join_threads_ends [] = inl (tt, refl)
join_threads_ends (other_thread ∷ handles) = elim (join_threads_ends handles) [
  | inl (all, e) ↦ inl ((refl, all), e)
  | inr (before, h, after, split, other, never) ↦ inr (
    other_thread ∷ before,
    h,
    after,
    ap (◌∷◌ other_thread) split,
    other,
    behind_thread handles never,
  )
]
join_threads_ends (endless_thread ∷ handles) =
    inr ([], endless_thread, handles, refl, (λ e. cc), λ fuel. waiting fuel handles)
join_threads_ends (this_thread ∷ handles) =
    inr ([], this_thread, handles, refl, (λ e. cc), self_stuck handles)
join_threads_ends (detached ∷ handles) =
    inr ([], detached, handles, refl, (λ e. cc), λ fuel. stuck fuel handles)
