-- ===== src/Examples/Servers.antt =====
-- src/server at one server of each class.
use respondphp.Base.{false, ◌≡◌, refl, none, some, [], ◌∷◌, ◌++◌, codes, true, arith, if◌then◌else◌}
use respondphp.Zend.{assoc_set, ℤ, pos, str}
use respondphp.Zend.Ordered.{ordered}
use respondphp.Examples.Emitters.{connect_hook}
use respondphp.Reactor.{
  Reactor, reactors_init, reactor_init, init_actor_server, init_worker_server, runs,
  tcp_server_init, UvCall, is_negative, uv_chain, worker_calls,
}
use respondphp.Server.Http.{
  Parsed, request, parsed_result, http_parse_header, header_key, to_upper, dash_to_underscore,
  read_all,
}
use respondphp.CString.{strchr}
use respondphp.Server.Address.{Resolves, rp_addr, low16, int16}
use respondphp.Server.Setup.{tcp_construct-init}
use respondphp.StreamConnection.{Connection}
use respondphp.Server.Http
use respondphp.Server.Tcp
use respondphp.Server.Pipe
use respondphp.Server.Secure
use respondphp.Server.Secure.Selection.{HostsFree, Selects, ssl_sni_cb-Selects}
use respondphp.SecureStream
use respondphp.SecureStream.{SecureStream, Output, stream_emitter}
use respondphp.SecureStream.Lost.{write_method-shut}
use respondphp.Server.Udp
use respondphp.Server.Udp.{Datagram}

abbrev a_reactor : Reactor
unfolding reactor_init
a_reactor = reactor_init 0

abbrev a_connection : Connection
a_connection = record {
  closed = false;
  shut = false;
  close_write_req = none;
  event_hook = connect_hook;
  self = 1;
}

abbrev answers : UvCall → ℤ
answers c = pos 0

abbrev any_address : Resolves
any_address = record { ip4 = λ host port. true; ip6 = λ host port. true }

any_address_lem : rp_addr any_address none (int16 (low16 (pos 80))) ≡ true
unfolding rp_addr strchr
any_address_lem = refl

tcp_construct-init_example :
    (init_actor_server
        (Tcp.construct true any_address
          (some (pos 80, none))
          3
          (reactors_init, Tcp.create_resource)).0
      ≡ init_actor_server reactors_init ++ [])
    × ((init_worker_server answers
          (Tcp.construct true any_address
            (some (pos 80, none))
            3
            (reactors_init, Tcp.create_resource)).0).1
        ≡ (init_worker_server answers reactors_init).1
          ++ (if is_negative (uv_chain answers (pos 0) worker_calls).0
              then []
              else runs tcp_server_init (reactors_init).heap ∷ []))
tcp_construct-init_example =
    tcp_construct-init true any_address (pos 80) none 3 answers reactors_init Tcp.create_resource
      any_address_lem

abbrev a_tcp : Tcp.TcpServer
a_tcp = record { reactor = none; event_hook = connect_hook }

abbrev a_pipe : Pipe.PipeServer
a_pipe = record { reactor = none; event_hook = connect_hook }

abbrev a_http : Http.HttpServer
a_http = record { socket_zo = none; event_hook = connect_hook }

abbrev a_udp : Udp.UdpServer
a_udp = record { worker_mode = false; event_hook = connect_hook; reactor = none }

abbrev a_secure : Secure.SecureServer
a_secure = record {
  socket_zo = none;
  ssl_ctx_ht = ordered.update ordered.init (str (codes "a.b")) 7;
  ctx = none;
  event_hook = connect_hook;
}

abbrev a_tls : SecureStream
a_tls = record { handshake = false; event_hook = connect_hook; self = 5 }

a_secure-hosts : HostsFree (ordered.items a_secure.ssl_ctx_ht)
unfolding ordered assoc_set
a_secure-hosts = ((omega arith, (omega arith, (omega arith, tt))), tt)

ssl_sni_cb-Selects_example :
    Selects
      (codes "a.b.evil.org")
      (ordered.items a_secure.ssl_ctx_ht)
      (Secure.ssl_sni_cb (some (codes "a.b.evil.org")) a_secure)
ssl_sni_cb-Selects_example = ssl_sni_cb-Selects a_secure (codes "a.b.evil.org") a_secure-hosts

abbrev ended_connection : Connection
ended_connection = record a_connection { shut = true }

abbrev output : Output
output = record { ssl_ok = true; chunks = (codes "x", true) ∷ [] }

write_method-shut_example :
    (SecureStream.write_method output ended_connection ≡ (true, ended_connection, []))
    × (SecureStream.end_method none true ended_connection ≡ (false, ended_connection, []))
write_method-shut_example = write_method-shut ended_connection output none true refl
