-- ===== src/Server/Accepting.antt =====
-- Which clients an acceptor comes to.
use client_server.Base.{
  ◌⊎◌, inl, inr, List, [], ◌∷◌, ◌++◌, none, ◌≡◌, refl, ap, ◌∙◌, sym, All, append-nil,
}
use client_server.Server.Acceptors.{
  Visitor, Attendance, Round, next_client, loop_thrown, no_service, connection_type, typed_tcp,
  typed_fifo, read_false, read_thrown, accept_tcp, unblock_acceptor, serve_fifo, accept_fifo,
  accept_all,
}

-- The acceptor goes on behind a client.
abbrev pub GoesOn : (Visitor → Round) → Visitor → Type 0
GoesOn accept v = (s : Attendance) × (accept v ≡ next_client s)

module _ (accept : Visitor → Round) where
  accept_all_next :
      (v : Visitor) (vs : List Visitor) (s : Attendance)
      → accept v ≡ next_client s
      → accept_all accept (v ∷ vs) ≡ s ∷ accept_all accept vs
  unfolding accept_all
  accept_all_next v vs s e = rw (accept_all, e) refl

  accept_all_thrown :
      (v : Visitor) (vs : List Visitor) → accept v ≡ loop_thrown → accept_all accept (v ∷ vs) ≡ []
  unfolding accept_all
  accept_all_thrown v vs e = rw (accept_all, e) refl

  accept_all-append :
      (before after : List Visitor)
      → All (GoesOn accept) before
      → accept_all accept (before ++ after) ≡ accept_all accept before ++ accept_all accept after
  unfolding accept_all
  accept_all-append [] after h = refl
  accept_all-append (v ∷ before) after h =
      accept_all_next v (before ++ after) h.0.0 h.0.1
      ∙ ap (◌∷◌ h.0.0) (accept_all-append before after h.1)
      ∙ ap (λ (s : List Attendance). s ++ accept_all accept after)
          (sym (accept_all_next v before h.0.0 h.0.1))

tcp_throws :
    (v : Visitor)
    → v.error ≡ none
    → (v.message ≡ read_false) ⊎ (v.message ≡ read_thrown)
    → accept_tcp v ≡ loop_thrown
unfolding accept_tcp typed_tcp connection_type
tcp_throws v e (inl f) = rw (accept_tcp, typed_tcp, connection_type, e, f)
tcp_throws v e (inr f) = rw (accept_tcp, typed_tcp, connection_type, e, f)

fifo_passes : (v : Visitor) → v.message ≡ read_false → accept_fifo v ≡ next_client no_service
unfolding accept_fifo typed_fifo serve_fifo unblock_acceptor
fifo_passes v f = rw (accept_fifo, typed_fifo, serve_fifo, unblock_acceptor, f)

fifo_throws : (v : Visitor) → v.message ≡ read_thrown → accept_fifo v ≡ loop_thrown
unfolding accept_fifo typed_fifo unblock_acceptor
fifo_throws v f = rw (accept_fifo, typed_fifo, unblock_acceptor, f)

ends_at :
    (accept : Visitor → Round) (before after : List Visitor) (v : Visitor)
    → All (GoesOn accept) before
    → accept v ≡ loop_thrown
    → accept_all accept (before ++ (v ∷ after)) ≡ accept_all accept before
ends_at accept before after v h e =
    accept_all-append accept before (v ∷ after) h
    ∙ ap (λ (s : List Attendance). accept_all accept before ++ s)
        (accept_all_thrown accept v after e)
    ∙ append-nil (accept_all accept before)

-- Behind clients that both acceptors go on from, a client for whom readMessage returns false, or
-- throws, ends the loop of the acceptor for sockets, which serves nobody behind it, if
-- async_accept had no error; the acceptor for pipes passes over a client for whom readMessage
-- returns false and serves the next ones, and its loop ends at one for whom it throws.
pub accept_all-unreadable :
    (before after : List Visitor) (v thrown : Visitor)
    → v.error ≡ none
    → thrown.error ≡ none
    → v.message ≡ read_false
    → thrown.message ≡ read_thrown
    → All (GoesOn accept_tcp) before
    → All (GoesOn accept_fifo) before
    → (accept_all accept_tcp (before ++ (v ∷ after)) ≡ accept_all accept_tcp before)
      × (accept_all accept_fifo (before ++ (v ∷ after))
          ≡ accept_all accept_fifo before ++ (no_service ∷ accept_all accept_fifo after))
      × (accept_all accept_tcp (before ++ (thrown ∷ after)) ≡ accept_all accept_tcp before)
      × (accept_all accept_fifo (before ++ (thrown ∷ after)) ≡ accept_all accept_fifo before)
accept_all-unreadable before after v thrown e e' f f' tcp fifo = (
  ends_at accept_tcp before after v tcp (tcp_throws v e (inl f)),
  accept_all-append accept_fifo before (v ∷ after) fifo
      ∙ ap (λ (s : List Attendance). accept_all accept_fifo before ++ s)
          (accept_all_next accept_fifo v after no_service (fifo_passes v f)),
  ends_at accept_tcp before after thrown tcp (tcp_throws thrown e' (inr f')),
  ends_at accept_fifo before after thrown fifo (fifo_throws thrown f'),
)
