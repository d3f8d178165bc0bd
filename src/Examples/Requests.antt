-- ===== src/Examples/Requests.antt =====
-- src/server/http.c on a small parser, and over a TCP and a pipe server.
use respondphp.Base.{◌≡◌, some, List, [], ◌∷◌, ◌++◌, map, Bytes, codes, arith, length}
use respondphp.Zend.{str}
use respondphp.Zend.Ordered.{ordered}
use respondphp.EventEmitter.{user, internal}
use respondphp.EventEmitter.Invariant.{listeners}
use respondphp.EventEmitter.Internal.{callbacks}
use respondphp.EventEmitter.Emission.{Ends}
use respondphp.Examples.Emitters.{
  idle, idle-QuietFor, idle-QuietInternal, connect_hook, connect_hook-WellFormed,
  connect_hook-listeners, connect_hook-callbacks,
}
use respondphp.SecureConnector.Certificates.{decimal}
use respondphp.Server.Http.{
  Parsed, request, parsed_result, http_parse_header, header_key, to_upper, dash_to_underscore,
  read_all,
}
use respondphp.Server.Http.Headers.{parsed_result-request_line, Spelled, header_key_lem}
use respondphp.Server.Accepting.{connect_params, tcp_accepted-http, pipe_accepted-http}
use respondphp.Server.Http
use respondphp.Server.Tcp
use respondphp.Server.Pipe

-- A parser that finds one header in whatever it reads.
abbrev headers : List (Bytes × Bytes)
headers = (codes "request-method", codes "x") ∷ (codes "host", codes "a") ∷ []

abbrev parser : Bytes → Parsed
parser b = request (length b) (codes "GET") (codes "/") 1 headers

parsed_result-request_line_example :
    (t : ordered.Table Bytes) × ((parsed_result []
        (request 9 (codes "GET") (codes "/") 1 headers)).server
      ≡ some t)
    × (ordered.find t (str (codes "REQUEST_METHOD")) ≡ some (codes "GET"))
    × (ordered.find t (str (codes "REQUEST_URI")) ≡ some (codes "/"))
    × (ordered.find t (str (codes "SERVER_PROTOCOL")) ≡ some (codes "HTTP/1." ++ decimal 1))
parsed_result-request_line_example =
    parsed_result-request_line [] 9 1 (codes "GET") (codes "/") headers

header_key_lem_example :
    (key : Bytes) × (Spelled (codes "a-B") key
      × (header_key (1 ∷ 2 ∷ 3 ∷ []) (codes "a-B") ≡ codes "HTTP_" ++ (key ++ 0 ∷ [])))
header_key_lem_example =
    header_key_lem (1 ∷ 2 ∷ 3 ∷ []) (codes "a-B") (omega arith, (omega arith, (omega arith, tt)))

tcp_accepted-http_example :
    Ends
      (Http.construct 5 6 1 connect_hook Http.create_resource).0
      (map
          (λ cb. internal cb (connect_params 9))
          (callbacks connect_hook (codes "connect") ++ record { callback = 5; cb_data = 6 } ∷ [])
        ++ map (λ z. user z (connect_params 9)) (listeners connect_hook (codes "connect")))
      (Tcp.accepted_cb idle 3 9 (record {
        reactor = some 0;
        event_hook = (Http.construct 5 6 1 connect_hook Http.create_resource).0;
      })).1
tcp_accepted-http_example =
    tcp_accepted-http idle 3 9 5 6 1 Http.create_resource
      (record { reactor = some 0; event_hook = connect_hook }) connect_hook-WellFormed
      (idle-QuietInternal
        (callbacks connect_hook (codes "connect") ++ record { callback = 5; cb_data = 6 } ∷ []))
      (idle-QuietFor (listeners connect_hook (codes "connect")))
      (rw connect_hook-callbacks (omega arith)) (rw connect_hook-listeners (omega arith))

pipe_accepted-http_example :
    Ends
      (Http.construct 5 6 1 connect_hook Http.create_resource).0
      (map (λ z. user z (connect_params 9)) (listeners connect_hook (codes "connect")))
      (Pipe.accepted_cb idle 3 9 (record {
        reactor = some 0;
        event_hook = (Http.construct 5 6 1 connect_hook Http.create_resource).0;
      })).1
pipe_accepted-http_example =
    pipe_accepted-http idle 3 9 5 6 1 Http.create_resource
      (record { reactor = some 0; event_hook = connect_hook }) connect_hook-WellFormed
      (idle-QuietFor (listeners connect_hook (codes "connect")))
      (rw connect_hook-listeners (omega arith))
