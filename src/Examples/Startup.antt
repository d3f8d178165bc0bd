-- ===== src/Examples/Startup.antt =====
-- The start of the module and a request at concrete inputs.
use respondphp.Base.{
  ◌≡◌, ◌≢◌, ◌↔◌, refl, none, some, List, [], ◌∷◌, ◌++◌, map, true, false, not, ◌||◌,
}
use respondphp.Zend.{pos}
use respondphp.Zend.Ordered.{ordered}
use respondphp.Manager.{actor}
use respondphp.Reactor.{frees_init, AsyncInit, reactors_init}
use respondphp.Server.Tcp
use respondphp.Extension.{
  respond_server_tcp, respond_system_timer, respond_stream_secure, no_classes,
}
use respondphp.Extension.Startup.{minit}
use respondphp.Extension.Conformity.{started, Conforms, is_class}
use respondphp.Extension.Conformity.Started.{
  needs_openssl, is_registered, has_handlers, minit-registers, minit-Conforms,
}
use respondphp.Extension.Requests.{
  Process, Event, adds, defers, sets_up, rinit, run_script, owed, waiting, sets_loop_up, request,
  request-releases,
}

minit-registers_example :
    (minit false no_classes ≡ some (started false))
    × (is_registered (started false) respond_stream_secure
        ≡ (false || not (needs_openssl respond_stream_secure)))
    × (has_handlers (started false) respond_stream_secure ≡ true)
minit-registers_example = minit-registers false respond_stream_secure

tcp_is_class : is_class (started true) respond_server_tcp ≡ true
unfolding started minit
tcp_is_class = refl

minit-Conforms_example :
    (Conforms (started true) respond_server_tcp) ↔ (respond_server_tcp ≢ respond_system_timer)
minit-Conforms_example = minit-Conforms true respond_server_tcp tcp_is_class

abbrev work : AsyncInit
work = record { init_callback = some 90; free_callback = some 91; argument = 92 }

-- A TCP server, work, and the loop.
abbrev script : List Event
script = adds 3 (Tcp.fill false) ∷ defers work ∷ sets_up (λ c. pos 0) actor ∷ defers work ∷ []

abbrev before : Process
before = record { state = reactors_init; promise_ce = none }

request-releases_example :
    ((request (some 7) script before).1
      ≡ (run_script script (rinit (some 7) before).state).1
        ++ (owed before.state.heap script
            ++ map (λ a. frees_init a) (waiting before.state.loop_inited script)))
    × ((request (some 7) script before).0.state.loop_inited
        ≡ (before.state.loop_inited || sets_loop_up script))
unfolding Tcp.fill
request-releases_example =
    request-releases (some 7) script before ((λ r. (refl, refl, refl)), (tt, (tt, (tt, tt))))
