-- ===== src/Connector/Settling.antt =====
-- src/connector/tcp.c and src/connector/pipe.c: when the promise of a connect is settled.
use respondphp.Base.{ℕ, ◌+◌, ◌≡◌, refl, Option, none, some, Bytes, arith}
use respondphp.Zend.{ℤ, pos, negsuc}
use respondphp.Request.{Completes, AddressCalls, settled, made, number}
use respondphp.Connector.{
  tcp_life, pipe_life, tcp_connect, pipe_connect, connection_cb, tcp_connect_async_cb,
  pipe_connect_async_cb, socket_connect_ex,
}

tcp_life-Completes :
    (uv : AddressCalls) (args : Option (Bytes × ℤ)) (status : ℤ) (connection : ℕ)
    → Completes (tcp_life uv args (pos 0) status connection)
unfolding tcp_life tcp_connect tcp_connect_async_cb connection_cb socket_connect_ex
tcp_life-Completes uv none status connection = (refl, refl, refl, refl)
tcp_life-Completes uv (some (host, port)) status connection = ground arith

pipe_life-Completes :
    (args : Option Bytes) (status : ℤ) (connection : ℕ)
    → Completes (pipe_life args status connection)
unfolding pipe_life pipe_connect pipe_connect_async_cb connection_cb socket_connect_ex
pipe_life-Completes none status connection = (refl, refl, refl, refl)
pipe_life-Completes (some socket_path) status connection = ground arith

refused-Waits :
    (uv : AddressCalls) (args : Option (Bytes × ℤ)) (err : ℕ) (status : ℤ) (connection : ℕ)
    → settled (tcp_life uv args (negsuc err) status connection) + number (tcp_connect uv args).1
      ≡ made (tcp_life uv args (negsuc err) status connection)
unfolding tcp_life tcp_connect tcp_connect_async_cb socket_connect_ex
refused-Waits uv none err status connection = refl
refused-Waits uv (some (host, port)) err status connection = ground arith

-- A connect that libuv takes, over TCP or over a pipe, completes: its promise is settled once,
-- whatever the address and the status are, the request's reference to it is dropped, and the memory
-- is released and not used afterwards. A TCP connect that libuv refuses at once, after its address
-- was understood, is never settled.
pub connect-Completes :
    (uv : AddressCalls) (args : Option (Bytes × ℤ)) (path : Option Bytes) (err : ℕ) (status : ℤ)
    (connection : ℕ)
    → Completes (tcp_life uv args (pos 0) status connection)
      × Completes (pipe_life path status connection)
      × (settled (tcp_life uv args (negsuc err) status connection) + number (tcp_connect uv args).1
          ≡ made (tcp_life uv args (negsuc err) status connection))
connect-Completes uv args path err status connection = (
  tcp_life-Completes uv args status connection,
  pipe_life-Completes path status connection,
  refused-Waits uv args err status connection,
)
