-- ===== src/Examples/Connections.antt =====
-- src/stream/connection.c at a history of one connection.
use respondphp.Base.{◌≡◌, refl, none, some, List, [], ◌∷◌, codes, true, false}
use respondphp.Zend.{pos}
use respondphp.Zend.Ordered.{ordered}
use respondphp.StreamConnection.{
  Connection, create_resource, Event, reads, write_done, shutdown_done, close_done, op_close,
  op_write, op_end, run_events, end_method,
}
use respondphp.StreamConnection.Protocol.{scan}
use respondphp.StreamConnection.Safety.{flags, run_events-scan}
use respondphp.StreamConnection.Behaviour.{Inert, end_method-Inert}

abbrev fresh : Connection
unfolding create_resource
fresh = create_resource 1

-- The peer's data is answered, the stream is ended, and a listener tries to close it again.
abbrev history : List Event
history =
    reads (pos 2) (codes "hi") (op_write (codes "ho") true ∷ op_end none true true ∷ [])
    ∷ write_done 5 (pos 0) (op_close ∷ [])
    ∷ shutdown_done
    ∷ close_done (op_close ∷ [])
    ∷ []

run_events-scan_example :
    scan (flags fresh) (run_events history fresh).2 ≡ some (flags (run_events history fresh).1)
run_events-scan_example = run_events-scan fresh history

end_succeeds : (end_method (some (codes "x")) true false fresh).0 ≡ true
unfolding end_method fresh
end_succeeds = refl

end_method-Inert_example :
    ((end_method (some (codes "x")) true true fresh).0 ≡ true)
    × Inert (run_events history (end_method (some (codes "x")) true false fresh).1).1
end_method-Inert_example = end_method-Inert fresh (some (codes "x")) true false end_succeeds history
