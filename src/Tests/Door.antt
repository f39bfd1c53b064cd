-- ===== src/Tests/Door.antt =====
-- The acceptors and the server at concrete inputs.
use client_server.Base.{List, [], ◌∷◌, ◌++◌, none, true, ◌≡◌, refl, All}
use client_server.Header.{HeaderType}
use client_server.Server.{
  Visitor, ReadOutcome, read_header, read_false, read_thrown, session_created, heartbeat_reply,
  no_service, accept_tcp, accept_fifo, accept_all,
}
use client_server.Server.Accepting.{GoesOn, accept_all-unreadable}

abbrev visitor : HeaderType → Visitor
visitor type = record { error = none; message = read_header type; constructed = true }

abbrev two_visitors : List Visitor
two_visitors = visitor HeaderType.authenticate ∷ visitor HeaderType.heartbeat ∷ []

abbrev unreadable : ReadOutcome → Visitor
unreadable outcome = record { error = none; message = outcome; constructed = true }

tcp-GoesOn : All (GoesOn accept_tcp) two_visitors
unfolding accept_tcp
tcp-GoesOn = ((session_created, refl), ((heartbeat_reply, refl), tt))

fifo-GoesOn : All (GoesOn accept_fifo) two_visitors
unfolding accept_fifo
fifo-GoesOn = ((session_created, refl), ((no_service, refl), tt))

accept_all-unreadable_example :
    (accept_all accept_tcp (two_visitors ++ (unreadable read_false ∷ two_visitors))
      ≡ accept_all accept_tcp two_visitors)
    × (accept_all accept_fifo (two_visitors ++ (unreadable read_false ∷ two_visitors))
        ≡ accept_all accept_fifo two_visitors ++ (no_service ∷ accept_all accept_fifo two_visitors))
    × (accept_all accept_tcp (two_visitors ++ (unreadable read_thrown ∷ two_visitors))
        ≡ accept_all accept_tcp two_visitors)
    × (accept_all accept_fifo (two_visitors ++ (unreadable read_thrown ∷ two_visitors))
        ≡ accept_all accept_fifo two_visitors)
accept_all-unreadable_example =
    accept_all-unreadable two_visitors two_visitors (unreadable read_false) (unreadable read_thrown)
      refl refl refl refl tcp-GoesOn fifo-GoesOn
