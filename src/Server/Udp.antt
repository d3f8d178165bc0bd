-- ===== src/Server/Udp.antt =====
-- src/server/udp.c: the class Respond\Server\Udp. `reuseport` says that the module is built with
-- HAVE_REUSEPORT. A datagram is the sender's address with the bytes.
pub mod Delivery
pub mod Buffers
pub mod Layout
pub mod Reading
pub mod Sending
pub mod Wire
use respondphp.Base.{
  ℕ, ◌+◌, Option, none, some, List, [], ◌∷◌, ◌++◌, Bytes, Bool, true, false, not, ◌==◌,
  if◌then◌else◌, length, codes,
}
use respondphp.Zend.{ℤ, pos, negsuc, Hash, Zval}
use respondphp.CString.{strchr}
use respondphp.Manager.{TaskType, is_actor}
use respondphp.Reactor.{
  Reactor, rp_udp, Callback, udp_server_init, udp_worker_recv, udp_actor_recv, udp_send,
  udp_data_recv, State, is_negative, reactor_init, reactors_add_new,
}
use respondphp.Reactor.Messages.{is_positive}
use respondphp.Server.Address.{Resolves, rp_addr, low16, int16}
use respondphp.EventEmitter.{EventHook, Listeners, Emitted, event_hook_init, emit}
use respondphp.EventEmitter.Methods.{EmitterMethods, trait_event_emitter}

-- `rp_reactor_data_send_req_payload_recv_t`; the address as text and port, as `sock_addr` reads it.
pub record Datagram : Type 0 where
  pub address : Bytes
  pub port : ℕ
  pub bytes : Bytes

-- The promise of a send.
pub data Settlement : Type 0 where
  resolved : ℤ → Settlement
  rejected : ℤ → Settlement

pub data UdpEffect : Type 0 where
  inits_handle : UdpEffect
  opens_socket : (reuse : Bool) → UdpEffect
  binds : UdpEffect
  receives : Option Callback → UdpEffect
  -- rp_reactor_data_send of a RP_RECV request
  sends_recv : Datagram → UdpEffect
  -- cb.dgram.data_recv
  calls_data_recv : Datagram → UdpEffect
  -- rp_free of a request, of the buffer, of the message and of the send request
  frees_request frees_buffer frees_message frees_send : UdpEffect
  -- uv_udp_send, with udp_send_cb or with ipc_udp_send_cb
  sends_direct : Bytes → UdpEffect
  sends_for_worker : Bytes → UdpEffect
  -- rp_reactor_ipc_send_ex of a RP_SEND request over `ipc_pipe`, with the other end of a new pipe
  sends_ipc : Bytes → UdpEffect
  -- uv_write of a status on the result stream
  writes_status : ℤ → UdpEffect
  settles : Settlement → UdpEffect
  drops_promise releases_data frees_result closes_result_pipe : UdpEffect
  -- rp_make_promise_object, RETVAL_ZVAL with a copy, zend_string_addref of the data
  makes_promise returns_promise addrefs_data : UdpEffect
  -- socketpair, uv_pipe_init and uv_pipe_open of both ends, uv_read_start of the worker's end
  makes_pair opens_pipes reads_result : UdpEffect
  -- uv_close of the handle with udp_close_cb
  closes_handle : UdpEffect
  drops_server frees_reactor : UdpEffect

-- server_init: `specified` says that the family of the address is not AF_UNSPEC.
unfoldable pub server_init : (reuseport specified : Bool) → Reactor → List UdpEffect
server_init reuseport specified r =
    inits_handle
    ∷ opens_socket reuseport
    ∷ ((if specified then binds ∷ [] else []) ++ receives r.recv ∷ [])

-- actor_recv_cb and worker_recv_cb, for the datagram that was read
unfoldable pub actor_recv_cb : (nread : ℤ) → Datagram → List UdpEffect
actor_recv_cb nread d =
    (if is_positive nread then sends_recv d ∷ frees_request ∷ [] else []) ++ frees_buffer ∷ []

unfoldable pub worker_recv_cb : (nread : ℤ) → Datagram → List UdpEffect
worker_recv_cb nread d =
    (if is_positive nread then calls_data_recv d ∷ frees_request ∷ [] else []) ++ frees_buffer ∷ []

-- udp_send_cb
unfoldable pub udp_send_cb : (status : ℤ) → List UdpEffect
udp_send_cb status =
    settles (if not (is_negative status) then resolved status else rejected status)
    ∷ drops_promise
    ∷ releases_data
    ∷ frees_result
    ∷ []

-- ipc_udp_send_cb, in the actor
unfoldable pub ipc_udp_send_cb : (status : ℤ) → List UdpEffect
ipc_udp_send_cb status = writes_status status ∷ frees_message ∷ frees_send ∷ []

-- ipc_udp_send_result_receive: `nread` bytes came, or an error; `result` is the number in the buffer.
unfoldable pub ipc_udp_send_result_receive : (nread result : ℤ) → List UdpEffect
ipc_udp_send_result_receive nread result =
    settles (if not (is_negative nread) then resolved result else rejected nread)
    ∷ drops_promise
    ∷ frees_buffer
    ∷ closes_result_pipe
    ∷ []

-- send_cb, in the actor. With HAVE_REUSEPORT its callback is udp_send_cb.
unfoldable pub send_cb : (reuseport : Bool) → Bytes → List UdpEffect
send_cb reuseport bytes = if reuseport then sends_direct bytes ∷ [] else sends_for_worker bytes ∷ []

-- udp_send_data: what uv_udp_send returns is not looked at.
unfoldable pub udp_send_data : Bytes → List UdpEffect
udp_send_data bytes = makes_promise ∷ addrefs_data ∷ sends_direct bytes ∷ []

-- ipc_udp_send_data: the request is copied by rp_reactor_ipc_send_ex, and freed.
unfoldable pub ipc_udp_send_data : Bytes → List UdpEffect
ipc_udp_send_data bytes =
    makes_promise ∷ makes_pair ∷ opens_pipes ∷ reads_result ∷ sends_ipc bytes ∷ frees_request ∷ []

-- ipc_udp_send_result_free_cb
unfoldable pub ipc_udp_send_result_free_cb : List UdpEffect
ipc_udp_send_result_free_cb = frees_result ∷ []

unfoldable pub udp_close_cb : List UdpEffect
udp_close_cb = drops_server ∷ frees_reactor ∷ []

-- What actor_udp_init writes into its reactor.
unfoldable pub actor_fill : (reuseport : Bool) → Reactor → Reactor
actor_fill true r = record r {
  type = rp_udp;
  worker_init_cb = some udp_server_init;
  recv = some udp_worker_recv;
  send = some udp_send;
  data_recv = some udp_data_recv;
}
actor_fill false r = record r {
  type = rp_udp;
  server_init_cb = some udp_server_init;
  recv = some udp_actor_recv;
  send = some udp_send;
  data_recv = some udp_data_recv;
}

-- The reactor of worker_udp_init, which stands in no table.
unfoldable pub worker_reactor : (address self : ℕ) → Reactor
unfolding reactor_init
worker_reactor address self = record (reactor_init address) {
  server = some self;
  type = rp_udp;
  worker_init_cb = some udp_server_init;
  recv = some udp_worker_recv;
  send = some udp_send;
  data_recv = some udp_data_recv;
}

-- `port != -1`
abbrev pub is_given : ℤ → Bool
is_given (pos n) = true
is_given (negsuc n) = not (n == 0)

module _ ⦃h : Hash⦄ where
  -- `rp_udp_ext_t`; `worker_mode` is RP_UDP_SERVER_WORKER_MODE.
  pub record UdpServer : Type 0 where
    pub worker_mode : Bool
    pub event_hook : EventHook
    pub reactor : Option ℕ

  -- create_respond_server_udp_resource
  unfoldable pub create_resource : UdpServer
  unfolding event_hook_init
  create_resource = record { worker_mode = false; event_hook = event_hook_init; reactor = none }

  unfoldable pub actor_udp_init :
      (reuseport : Bool) (uv : Resolves) (port : ℤ) (host : Option Bytes) (self : ℕ)
      → State × UdpServer
      → State × UdpServer
  unfolding rp_addr reactors_add_new actor_fill
  actor_udp_init reuseport uv port host self (s, server) =
      let made : State × UdpServer =
        (reactors_add_new s self (actor_fill reuseport), record server { reactor = some s.heap }) in
      if is_given port
      then (if rp_addr uv host (int16 (low16 port)) then made else (s, server))
      else made

  -- worker_udp_init, with what its server_init does
  unfoldable pub worker_udp_init :
      (reuseport : Bool) (uv : Resolves) (port : ℤ) (host : Option Bytes) (self : ℕ)
      → State × UdpServer
      → State × UdpServer × List UdpEffect
  unfolding rp_addr worker_reactor server_init
  worker_udp_init reuseport uv port host self (s, server) =
      let made : (specified : Bool) → State × UdpServer × List UdpEffect = λ specified. (
        record s { heap = s.heap + 1 },
        record server { reactor = some s.heap; worker_mode = true },
        server_init reuseport specified (worker_reactor s.heap self),
      ) in
      if is_given port
      then (if rp_addr uv host (int16 (low16 port))
          then made true
          else (record s { heap = s.heap + 1 }, server, frees_reactor ∷ []))
      else made false

  -- PHP_METHOD __construct: `args` are the port, -1 by default, and the host, if they were parsed.
  unfoldable pub construct :
      (reuseport : Bool) (uv : Resolves) (task : TaskType) (args : Option (ℤ × Option Bytes))
      (self : ℕ)
      → State × UdpServer
      → State × UdpServer × List UdpEffect
  unfolding actor_udp_init worker_udp_init
  construct reuseport uv task none self (s, server) = (s, server, [])
  construct reuseport uv task (some (port, host)) self (s, server) =
      if is_actor task
      then (let (s1, server1) = actor_udp_init reuseport uv port host self (s, server) in
          (s1, server1, []))
      else worker_udp_init reuseport uv port host self (s, server)

  -- data_actor_recv_cb
  unfoldable pub data_actor_recv_cb : Listeners → (fuel self : ℕ) → Datagram → UdpServer → Emitted
  unfolding emit
  data_actor_recv_cb env fuel self d server =
      emit env (codes "recv")
        (Zval.handle self
          ∷ Zval.string d.address
          ∷ Zval.long (pos d.port)
          ∷ Zval.string d.bytes
          ∷ [])
        fuel server.event_hook

  -- PHP_METHOD send, after its arguments are parsed: nothing, or a promise and the way that the data
  -- takes.
  unfoldable pub send_method :
      (reuseport : Bool) (uv : Resolves) (host : Bytes) (port : ℤ) (bytes : Bytes)
      → UdpServer
      → List UdpEffect
  unfolding strchr udp_send_data ipc_udp_send_data
  send_method reuseport uv host port bytes server =
      let known : Bool = elim (strchr host b':') [
        | none ↦ uv.ip4 host (pos (low16 port))
        | some i ↦ uv.ip6 host (pos (low16 port))
      ] in
      if known
      then (if reuseport
          then udp_send_data bytes
          else (if server.worker_mode then udp_send_data bytes else ipc_udp_send_data bytes))
        ++ returns_promise ∷ []
      else []

  -- PHP_METHOD close
  unfoldable pub close_method : UdpServer → List UdpEffect
  close_method server = if server.worker_mode then closes_handle ∷ [] else []

  -- PHP_METHODs on, off, removeListeners, getListeners and emit
  unfoldable pub udp_emitter : EmitterMethods UdpServer
  unfolding trait_event_emitter
  udp_emitter = trait_event_emitter (λ r. r.event_hook) (λ r hook. record r { event_hook = hook })
