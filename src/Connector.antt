-- ===== src/Connector.antt =====
-- src/connector/tcp.c, src/connector/pipe.c and src/internal/socket_connector.c: a connect, from
-- the PHP method to the callback of libuv.
pub mod Settling
use respondphp.Base.{
  ℕ, Option, none, some, List, [], ◌∷◌, ◌++◌, Bytes, Bool, true, false, if◌then◌else◌,
}
use respondphp.Zend.{Zval, ℤ, pos}
use respondphp.Reactor.{is_negative, is_zero}
use respondphp.Server.Address.{low16}
use respondphp.Request.{
  Effect, allocates, frees, makes_promise, returns_promise, drops_promise, resolves, rejects,
  addrefs, releases, defers, inits_handle, tcp_connects, pipe_connects, closes_handle,
  makes_connection, AddressCalls, address_error,
}

-- `handle->type`, as far as rp_socket_connect_ex tells the types apart.
pub data HandleType : Type 0 where
  uv_tcp uv_named_pipe other : HandleType

-- rp_socket_connect_ex: what uv_tcp_connect returns is not looked at.
unfoldable pub socket_connect_ex : HandleType → List Effect
socket_connect_ex uv_tcp = tcp_connects ∷ []
socket_connect_ex uv_named_pipe = pipe_connects ∷ releases ∷ []
socket_connect_ex other = []

-- connection_cb of the sockets: `connection` is the object made for the stream.
unfoldable pub connection_cb : (status : ℤ) (connection : ℕ) → List Effect
connection_cb status connection =
    if is_negative status
    then rejects (Zval.long status) ∷ drops_promise ∷ closes_handle ∷ frees ∷ []
    else makes_connection ∷ resolves (Zval.handle connection) ∷ drops_promise ∷ frees ∷ []

-- connect_async_cb of tcp.c and of pipe.c
unfoldable pub tcp_connect_async_cb : List Effect
unfolding socket_connect_ex
tcp_connect_async_cb = inits_handle ∷ socket_connect_ex uv_tcp

unfoldable pub pipe_connect_async_cb : List Effect
unfolding socket_connect_ex
pipe_connect_async_cb = inits_handle ∷ socket_connect_ex uv_named_pipe

-- PHP_METHOD connect of tcp.c: `none` where the arguments are refused. The flag says that the
-- connect is given to the reactor.
unfoldable pub tcp_connect : AddressCalls → Option (Bytes × ℤ) → List Effect × Bool
unfolding address_error
tcp_connect uv none = ([], false)
tcp_connect uv (some (host, port)) =
    let err = address_error uv host (pos (low16 port)) in
    if is_zero err then (allocates ∷ makes_promise ∷ returns_promise ∷ defers ∷ [], true) else (
      allocates
          ∷ makes_promise
          ∷ returns_promise
          ∷ rejects (Zval.long err)
          ∷ drops_promise
          ∷ frees
          ∷ [],
      false,
    )

-- PHP_METHOD connect of pipe.c
unfoldable pub pipe_connect : Option Bytes → List Effect × Bool
pipe_connect none = (allocates ∷ frees ∷ [], false)
pipe_connect (some socket_path) =
    (allocates ∷ makes_promise ∷ returns_promise ∷ addrefs ∷ defers ∷ [], true)

-- A whole connect. libuv calls back exactly if it took the request: `started` is what uv_tcp_connect
-- returns, and uv_pipe_connect returns nothing.
unfoldable pub tcp_life :
    AddressCalls → Option (Bytes × ℤ) → (started status : ℤ) → (connection : ℕ) → List Effect
unfolding tcp_connect tcp_connect_async_cb connection_cb
tcp_life uv args started status connection =
    let (es, deferred) = tcp_connect uv args in
    if deferred
    then es
      ++ (tcp_connect_async_cb ++ (if is_zero started then connection_cb status connection else []))
    else es

unfoldable pub pipe_life : Option Bytes → (status : ℤ) → (connection : ℕ) → List Effect
unfolding pipe_connect pipe_connect_async_cb connection_cb
pipe_life args status connection =
    let (es, deferred) = pipe_connect args in
    if deferred then es ++ (pipe_connect_async_cb ++ connection_cb status connection) else es
