-- ===== src/Server/Pipe.antt =====
-- src/server/pipe.c: the class Respond\Server\Pipe, which listens in the actor alone.
use respondphp.Base.{ℕ, Option, none, some, List, [], ◌∷◌, ◌++◌, Bytes, Bool, if◌then◌else◌, codes}
use respondphp.Zend.{ℤ, Hash, Zval}
use respondphp.Manager.{TaskType, is_actor}
use respondphp.Reactor.{
  Reactor, rp_pipe, Callback, pipe_server_init, pipe_connection, pipe_accepted, State, is_negative,
  reactors_add_new,
}
use respondphp.Reactor.Messages.{MsgEffect, inits_pipe, closes_and_frees, ipc_send_ex}
use respondphp.EventEmitter.{EventHook, Listeners, Emitted, event_hook_init, emit}
use respondphp.EventEmitter.Methods.{EmitterMethods, trait_event_emitter}
use respondphp.StreamConnection.{Connection, stream_connection_factory}

pub data PipeEffect : Type 0 where
  inits_handle : PipeEffect
  binds : Bytes → PipeEffect
  listens : Option Callback → PipeEffect
  unlinks : Bytes → PipeEffect
  releases_string : Bytes → PipeEffect

-- server_init, for the path in the reactor's `addr`
unfoldable pub server_init : Bytes → Reactor → List PipeEffect
server_init socket_path r = inits_handle ∷ binds socket_path ∷ listens r.connection ∷ []

-- releaseResource: the file of the socket is the actor's.
unfoldable pub release_resource : TaskType → Bytes → List PipeEffect
release_resource task socket_path =
    (if is_actor task then unlinks socket_path ∷ [] else []) ++ releases_string socket_path ∷ []

unfoldable pub connection_cb :
    Reactor → (status : ℤ) → (client ipc : ℕ) → (accepted : Bool) → List MsgEffect
unfolding ipc_send_ex
connection_cb r status client ipc accepted =
    if is_negative status
    then []
    else inits_pipe client
      ∷ (if accepted then ipc_send_ex r client [] ipc else closes_and_frees client ∷ [])

-- What __construct writes into its reactor.
unfoldable pub fill : Reactor → Reactor
fill r = record r {
  type = rp_pipe;
  server_init_cb = some pipe_server_init;
  connection = some pipe_connection;
  accepted = some pipe_accepted;
}

module _ ⦃h : Hash⦄ where
  -- `rp_pipe_ext_t`, with its reactor by address
  pub record PipeServer : Type 0 where
    pub reactor : Option ℕ
    pub event_hook : EventHook

  -- create_respond_server_pipe_resource
  unfoldable pub create_resource : PipeServer
  unfolding event_hook_init
  create_resource = record { reactor = none; event_hook = event_hook_init }

  -- PHP_METHOD __construct: `socket_path`, if it was parsed.
  unfoldable pub construct :
      (socket_path : Option Bytes) (self : ℕ) → State × PipeServer → State × PipeServer
  unfolding reactors_add_new fill
  construct none self (s, server) = (s, server)
  construct (some path) self (s, server) =
      (reactors_add_new s self fill, record server { reactor = some s.heap })

  -- accepted_cb: the listeners of PHP code alone are told.
  unfoldable pub accepted_cb : Listeners → (fuel connection : ℕ) → PipeServer → Connection × Emitted
  unfolding stream_connection_factory emit
  accepted_cb env fuel connection server = (
    (stream_connection_factory connection).0,
    emit env (codes "connect") (Zval.handle connection ∷ []) fuel server.event_hook,
  )

  -- PHP_METHODs on, off, removeListeners, getListeners and emit
  unfoldable pub pipe_emitter : EmitterMethods PipeServer
  unfolding trait_event_emitter
  pipe_emitter = trait_event_emitter (λ r. r.event_hook) (λ r hook. record r { event_hook = hook })
