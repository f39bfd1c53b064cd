-- ===== src/Transport/Writing.antt =====
-- What stands on the pipe behind a writer.
use mathlib.Core.List.{flatten}
use client_server.Base.{
  ℕ, zero, suc, ◌+◌, ◌≤◌, ◌<◌, List, [], ◌∷◌, ◌++◌, Bytes, length, take, drop, ◌≡◌, refl, ap, ◌∙◌,
  arith, length-append, append_assoc, take-append-drop, length-drop,
}
use client_server.Transport.Fifo.{
  Polled, poll_ready, poll_hup, poll_nothing, poll_threw, poll_fd, WriteResult, took, write_again,
  write_failed, write_done, Written, put_before, resumed_write, write_string, next_write,
  write_strings,
}

-- The pipe takes a byte or more in each call, or has room again where it asks to wait.
abbrev pub IsWritable : List WriteResult → Type 0
IsWritable [] = Unit
IsWritable (took n ∷ answers) = (0 < n) × IsWritable answers
IsWritable (write_again a ∷ answers) = (poll_fd a ≡ poll_ready) × IsWritable answers
IsWritable (write_failed ∷ answers) = ⊥

-- The calls that take something.
abbrev pub calls : List WriteResult → ℕ
calls [] = 0
calls (took n ∷ answers) = suc (calls answers)
calls (write_again a ∷ answers) = calls answers
calls (write_failed ∷ answers) = calls answers

-- What was written of `s` is a part in front of it, and all of it behind a success.
abbrev pub IsPart : Bytes → Written → Type 0
IsPart s w = (unsent : Bytes) × (w.wire ++ unsent ≡ s) × (w.ending ≡ write_done → unsent ≡ [])

resumed_write-IsPart :
    (p : Polled) (s : Bytes) (answers : List WriteResult) (later : Written)
    → IsPart s later
    → IsPart s (resumed_write p answers later)
unfolding resumed_write
resumed_write-IsPart poll_ready s answers later h = h
resumed_write-IsPart poll_hup s answers later h = (s, refl, λ e. cc)
resumed_write-IsPart poll_nothing s answers later h = (s, refl, λ e. cc)
resumed_write-IsPart poll_threw s answers later h = (s, refl, λ e. cc)

-- However the calls of write and poll end, what writeString left on the pipe is a part in front
-- of the string, and all of it if the call returned true.
pub write_string-IsPart :
    (s : Bytes) (answers : List WriteResult) → IsPart s (write_string s answers)
unfolding write_string
write_string-IsPart [] answers = ([], refl, λ e. refl)
write_string-IsPart (c ∷ s) [] = (c ∷ s, refl, λ e. cc)
write_string-IsPart (c ∷ s) (took n ∷ answers) =
    let later = write_string-IsPart (drop n (c ∷ s)) answers in
    (
      later.0,
      append_assoc (take n (c ∷ s)) (write_string (drop n (c ∷ s)) answers).wire later.0
          ∙ ap (λ (t : Bytes). take n (c ∷ s) ++ t) later.1
          ∙ take-append-drop n (c ∷ s),
      later.2,
    )
write_string-IsPart (c ∷ s) (write_again a ∷ answers) =
    resumed_write-IsPart (poll_fd a) (c ∷ s) answers _ (write_string-IsPart (c ∷ s) answers)
write_string-IsPart (c ∷ s) (write_failed ∷ answers) = (c ∷ s, refl, λ e. cc)

-- A writer has ended well, with `need` calls at most.
abbrev IsWell : ℕ → Bytes → List WriteResult → Written → Type 0
IsWell need s answers w =
    (w.ending ≡ write_done)
    × (w.wire ≡ s)
    × IsWritable w.rest
    × (calls answers ≤ calls w.rest + need)

write_string-IsWell :
    (s : Bytes) (answers : List WriteResult)
    → IsWritable answers
    → length s ≤ calls answers
    → IsWell (length s) s answers (write_string s answers)
unfolding write_string resumed_write
write_string-IsWell [] answers v h = (refl, refl, v, omega arith)
write_string-IsWell (c ∷ s) [] v h = absurd (omega arith)
write_string-IsWell (c ∷ s) (took zero ∷ answers) v h = absurd (omega (arith, v.0))
write_string-IsWell (c ∷ s) (took (suc n) ∷ answers) v h =
    let later = write_string-IsWell (drop n s) answers v.1 (omega (arith, length-drop n s)) in
    (
      later.0,
      ap (λ (t : Bytes). c ∷ (take n s ++ t)) later.1 ∙ ap (◌∷◌ c) (take-append-drop n s),
      later.2,
      omega (arith, later.3, length-drop n s),
    )
write_string-IsWell (c ∷ s) (write_again a ∷ answers) v h =
    let later = write_string-IsWell (c ∷ s) answers v.1 h in
    rw (write_string, v.0, resumed_write) later
write_string-IsWell (c ∷ s) (write_failed ∷ answers) v h = elim v [ ]

next_write-done :
    (w : Written) (next : List WriteResult → Written)
    → w.ending ≡ write_done
    → next_write w next ≡ put_before w.wire (next w.rest)
unfolding next_write
next_write-done w next e = rw (next_write, e) refl

-- If the pipe takes something in each of enough calls, all strings are written, one behind the
-- other.
pub write_strings-done :
    (strings : List Bytes) (answers : List WriteResult)
    → IsWritable answers
    → length (flatten strings) ≤ calls answers
    → ((write_strings strings answers).ending ≡ write_done)
      × ((write_strings strings answers).wire ≡ flatten strings)
unfolding write_strings flatten
write_strings-done [] answers v h = (refl, refl)
write_strings-done (s ∷ strings) answers v h =
    let size = length-append s (flatten strings) in
    let first = write_string-IsWell s answers v (omega (arith, size)) in
    let later =
      write_strings-done strings (write_string s answers).rest first.2
        (omega (arith, size, first.3)) in
    let go = next_write-done (write_string s answers) (write_strings strings) first.0 in
    (
      ap (λ (w : Written). w.ending) go ∙ later.0,
      ap (λ (w : Written). w.wire) go
          ∙ ap (λ (t : Bytes). t ++ (write_strings strings (write_string s answers).rest).wire)
              first.1
          ∙ ap (λ (t : Bytes). s ++ t) later.1,
    )
