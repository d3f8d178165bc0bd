-- ===== src/Server/Tcp.antt =====
-- src/server/tcp.c: the class Respond\Server\Tcp. `reuseport` says that the module is built with
-- HAVE_REUSEPORT: each worker then listens itself, and else the actor hands its clients over.
use respondphp.Base.{
  ℕ, Option, none, some, List, [], ◌∷◌, Bytes, Bool, true, false, if◌then◌else◌, codes,
}
use respondphp.Zend.{ℤ, Hash, Zval}
use respondphp.Reactor.{
  Reactor, rp_tcp, Callback, tcp_server_init, tcp_ipc_connection, tcp_socket_connection,
  tcp_accepted, State, is_negative, reactors_add_new,
}
use respondphp.Reactor.Messages.{
  MsgEffect, inits_tcp, closes_and_frees, frees, calls_accepted, ipc_send_ex,
}
use respondphp.Server.Address.{Resolves, rp_addr, low16, int16}
use respondphp.EventEmitter.{EventHook, Listeners, Emitted, event_hook_init, emit_internal}
use respondphp.EventEmitter.Methods.{EmitterMethods, trait_event_emitter}
use respondphp.StreamConnection.{Connection, stream_connection_factory}

-- What server_init does with the reactor's handle.
pub data InitEffect : Type 0 where
  inits_handle : InitEffect
  opens_socket : (reuse : Bool) → InitEffect
  binds : InitEffect
  listens : Option Callback → InitEffect

unfoldable pub server_init : (reuseport : Bool) → Reactor → List InitEffect
server_init reuseport r = inits_handle ∷ opens_socket reuseport ∷ binds ∷ listens r.connection ∷ []

-- In the actor: the client goes to `ipc_pipe`. `accepted` says that `uv_accept` gave 0.
unfoldable pub ipc_connection_cb :
    Reactor → (status : ℤ) → (client ipc : ℕ) → (accepted : Bool) → List MsgEffect
unfolding ipc_send_ex
ipc_connection_cb r status client ipc accepted =
    if is_negative status
    then []
    else inits_tcp client
      ∷ (if accepted then ipc_send_ex r client [] ipc else closes_and_frees client ∷ [])

-- In a worker: the client is this process's.
unfoldable pub socket_connection_cb :
    Reactor → (status : ℤ) → (client : ℕ) → (accepted : Bool) → List MsgEffect
socket_connection_cb r status client accepted =
    if is_negative status
    then []
    else inits_tcp client
      ∷ (if accepted then calls_accepted r client [] ∷ [] else frees client ∷ [])

-- What __construct writes into its reactor.
unfoldable pub fill : (reuseport : Bool) → Reactor → Reactor
fill true r = record r {
  type = rp_tcp;
  accepted = some tcp_accepted;
  worker_init_cb = some tcp_server_init;
  connection = some tcp_socket_connection;
}
fill false r = record r {
  type = rp_tcp;
  accepted = some tcp_accepted;
  server_init_cb = some tcp_server_init;
  connection = some tcp_ipc_connection;
}

module _ ⦃h : Hash⦄ where
  -- `rp_server_tcp_ext_t`, with its reactor by address
  pub record TcpServer : Type 0 where
    pub reactor : Option ℕ
    pub event_hook : EventHook

  -- create_respond_server_tcp_resource
  unfoldable pub create_resource : TcpServer
  unfolding event_hook_init
  create_resource = record { reactor = none; event_hook = event_hook_init }

  -- PHP_METHOD __construct. `args` are the port and the host, if they were parsed; `self` is the
  -- object.
  unfoldable pub construct :
      (reuseport : Bool) (uv : Resolves) (args : Option (ℤ × Option Bytes)) (self : ℕ)
      → State × TcpServer
      → State × TcpServer
  unfolding reactors_add_new fill rp_addr
  construct reuseport uv none self (s, server) = (s, server)
  construct reuseport uv (some (port, host)) self (s, server) =
      let name : Bytes = elim host [ none ↦ codes "::" | some b ↦ b ] in
      if rp_addr uv (some name) (int16 (low16 port))
      then (reactors_add_new s self (fill reuseport), record server { reactor = some s.heap })
      else (s, server)

  -- accepted_cb: the object of the new connection is `connection`. The arguments after the client
  -- are not looked at.
  unfoldable pub accepted_cb : Listeners → (fuel connection : ℕ) → TcpServer → Connection × Emitted
  unfolding stream_connection_factory emit_internal
  accepted_cb env fuel connection server = (
    (stream_connection_factory connection).0,
    emit_internal env (codes "connect") (Zval.handle connection ∷ []) fuel server.event_hook,
  )

  -- PHP_METHODs on, off, removeListeners, getListeners and emit
  unfoldable pub tcp_emitter : EmitterMethods TcpServer
  unfolding trait_event_emitter
  tcp_emitter = trait_event_emitter (λ r. r.event_hook) (λ r hook. record r { event_hook = hook })
