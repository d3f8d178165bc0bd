-- ===== src/Reactor/Messages.antt =====
-- src/reactor.c: what goes over the pipes between the actor, the workers and the routines, and
-- who frees the buffers. Pointers are numbers.
use respondphp.Base.{
  ℕ, ◌+◌, ◌≡◌, ◌≢◌, refl, Option, none, some, List, [], ◌∷◌, ◌++◌, Bytes, Bool, true, false,
  if◌then◌else◌, ◌==◌, ◌&&◌, arith, length, ltb,
}
use respondphp.Zend.{ℤ, pos, negsuc}
use respondphp.Reactor.{Reactor, ReactorType, rp_tcp, rp_pipe, rp_udp, rp_routine}

-- `rp_reactor_data_send_req_t`: a datagram for the actor to send, or one that it received.
pub data DataRequest : Type 0 where
  send_request : Bytes → DataRequest
  recv_request : Bytes → DataRequest
  unknown_request : DataRequest

-- `rp_reactor_ext_t`: a reactor and the bytes that follow it.
pub record Ext : Type 0 where
  pub reactor : Reactor
  pub data_len : ℕ
  pub content : Bytes

pub data MsgEffect : Type 0 where
  -- uv_tcp_init and uv_pipe_init of a client
  inits_tcp inits_pipe : ℕ → MsgEffect
  -- uv_close with a close callback
  closes_with : ℕ → ℕ → MsgEffect
  -- uv_close with rp_free_cb, which frees the handle once it is closed
  closes_and_frees : ℕ → MsgEffect
  frees : ℕ → MsgEffect
  -- cb.stream.accepted, cb.dgram.send and cb.dgram.data_recv of a reactor
  calls_accepted : Reactor → ℕ → Bytes → MsgEffect
  calls_send : Reactor → DataRequest → ℕ → MsgEffect
  calls_data_recv : Reactor → DataRequest → MsgEffect
  -- uv_write on the data pipe, uv_write2 with a handle on an ipc pipe
  writes : Ext → (len : ℕ) → MsgEffect
  writes_with_handle : Ext → (len client ipc : ℕ) → MsgEffect
  -- uv_signal_stop and uv_stop
  stops_signal stops_loop : MsgEffect

-- The initialisation of a client, by the reactor's type.
abbrev pub init_client : ReactorType → ℕ → MsgEffect
init_client rp_tcp client = inits_tcp client
init_client rp_pipe client = inits_pipe client
init_client rp_udp client = inits_pipe client
init_client rp_routine client = inits_pipe client

-- rp_accept_client, where `rp_malloc` gave `client` and `accepted` says that `uv_accept` gave 0.
unfoldable pub accept_client : ReactorType → ℕ → Bool → Option ℕ × List MsgEffect
accept_client type client accepted =
    if accepted
    then (some client, init_client type client ∷ [])
    else (none, init_client type client ∷ closes_and_frees client ∷ frees client ∷ [])

abbrev pub accepted_effects : Reactor → Bytes → Option ℕ → List MsgEffect
accepted_effects r bytes none = []
accepted_effects r bytes (some client) = calls_accepted r client bytes ∷ []

-- rp_reactor_ipc_receive: `pending` is `uv_pipe_pending_count`, `base` the buffer that holds `ext`.
unfoldable pub ipc_receive : (pending base : ℕ) → Ext → (client : ℕ) → Bool → List MsgEffect
unfolding accept_client
ipc_receive pending base ext client accepted =
    if pending == 0
    then frees base ∷ []
    else (let (got, es) = accept_client ext.reactor.type client accepted in
        es ++ (accepted_effects ext.reactor ext.content got ++ frees base ∷ []))

abbrev pub send_effects : Ext → DataRequest → Option ℕ → List MsgEffect
send_effects ext req none = []
send_effects ext req (some client) = calls_send ext.reactor req client ∷ []

-- The `switch` of rp_reactor_data_receive. The buffer of RP_SEND is left to the send callback.
unfoldable pub receive_request :
    (base : ℕ) → Ext → DataRequest → (client : ℕ) → Bool → List MsgEffect
unfolding accept_client
receive_request base ext (send_request b) client accepted =
    let (got, es) = accept_client ext.reactor.type client accepted in
    es ++ send_effects ext (send_request b) got
receive_request base ext (recv_request b) client accepted =
    calls_data_recv ext.reactor (recv_request b) ∷ frees base ∷ []
receive_request base ext unknown_request client accepted = frees base ∷ []

abbrev pub is_positive : ℤ → Bool
is_positive (pos n) = ltb 0 n
is_positive (negsuc n) = false

-- rp_reactor_data_receive: `status` is the number of bytes read.
unfoldable pub data_receive :
    ℤ → (base : ℕ) → Ext → DataRequest → (client : ℕ) → Bool → List MsgEffect
unfolding receive_request
data_receive status base ext req client accepted =
    if is_positive status then receive_request base ext req client accepted else frees base ∷ []

-- rp_reactor_actor_ipc_receive
unfoldable pub actor_ipc_receive :
    (pending : ℕ) → ℤ → (base : ℕ) → Ext → DataRequest → (client : ℕ) → Bool → List MsgEffect
unfolding data_receive
actor_ipc_receive pending status base ext req client accepted =
    if pending == 0 then frees base ∷ [] else data_receive status base ext req client accepted

-- sizeof(rp_reactor_ext_t): a pointer and a `size_t`.
abbrev pub sizeof_ext : ℕ
sizeof_ext = 16

abbrev pub make_ext : Reactor → Bytes → Ext
make_ext r bytes = record { reactor = r; data_len = length bytes; content = bytes }

-- rp_reactor_data_send
unfoldable pub data_send : Reactor → Bytes → List MsgEffect
data_send r bytes = writes (make_ext r bytes) (sizeof_ext + length bytes) ∷ []

-- rp_reactor_ipc_send_ex
unfoldable pub ipc_send_ex : Reactor → (client : ℕ) → Bytes → (ipc : ℕ) → List MsgEffect
ipc_send_ex r client bytes ipc =
    writes_with_handle (make_ext r bytes) (sizeof_ext + length bytes) client ipc ∷ []

-- write2_cb, for a request at `req` with its client and its close callback
unfoldable pub write2_cb : (req client close_cb : ℕ) → List MsgEffect
write2_cb req client close_cb = closes_with client close_cb ∷ frees req ∷ []

-- rp_signal_hup_handler
unfoldable pub signal_hup_handler : List MsgEffect
signal_hup_handler = stops_signal ∷ stops_loop ∷ []

-- How often a pointer is freed, at once or when its handle is closed.
abbrev pub frees_of : ℕ → MsgEffect → ℕ
frees_of p (closes_and_frees q) = if p == q then 1 else 0
frees_of p (frees q) = if p == q then 1 else 0
frees_of p _ = 0

abbrev pub count_frees : ℕ → List MsgEffect → ℕ
count_frees p [] = 0
count_frees p (e ∷ es) = frees_of p e + count_frees p es

frees_of-init_client :
    (p : ℕ) (type : ReactorType) (client : ℕ) → frees_of p (init_client type client) ≡ 0
frees_of-init_client p rp_tcp client = refl
frees_of-init_client p rp_pipe client = refl
frees_of-init_client p rp_udp client = refl
frees_of-init_client p rp_routine client = refl

-- A worker or a routine frees the buffer of a message once, whether a client comes with it or not,
-- and whether the client is accepted or not, given that the buffer and the client are two pointers.
worker_receive-frees :
    (pending base client : ℕ) (ext : Ext) (accepted : Bool)
    → base ≢ client
    → count_frees base (ipc_receive pending base ext client accepted) ≡ 1
unfolding ipc_receive
worker_receive-frees pending base client ext true apart =
    ground (arith, frees_of-init_client base ext.reactor.type client)
worker_receive-frees pending base client ext false apart =
    ground (arith, frees_of-init_client base ext.reactor.type client)

-- A client that `uv_accept` refuses is freed twice: at once, and when its handle is closed.
pub accept_client-frees :
    (type : ReactorType) (client : ℕ) → count_frees client (accept_client type client false).1 ≡ 2
unfolding accept_client
accept_client-frees type client = ground (arith, frees_of-init_client client type client)

abbrev pub keeps_buffer : ℤ → DataRequest → Bool
keeps_buffer status (send_request b) = is_positive status
keeps_buffer status (recv_request b) = false
keeps_buffer status unknown_request = false

-- Over its ipc pipe the actor frees the buffer of a message once, except of a RP_SEND message that
-- came with a handle and was read without an error: that buffer it leaves to the
-- callback of the send. The buffer and the client are two pointers.
actor_receive-frees :
    (pending base client : ℕ) (status : ℤ) (ext : Ext) (req : DataRequest) (accepted : Bool)
    → base ≢ client
    → count_frees base (actor_ipc_receive pending status base ext req client accepted)
      ≡ (if ltb 0 pending && keeps_buffer status req then 0 else 1)
unfolding actor_ipc_receive
actor_receive-frees pending base client status ext (send_request b) true apart =
    ground (arith, frees_of-init_client base ext.reactor.type client)
actor_receive-frees pending base client status ext (send_request b) false apart =
    ground (arith, frees_of-init_client base ext.reactor.type client)
actor_receive-frees pending base client status ext (recv_request b) accepted apart = ground arith
actor_receive-frees pending base client status ext unknown_request accepted apart = ground arith

-- The two together. A RP_SEND message that came with a handle and was read without an error leaves
-- its buffer to the callback of the send. The buffer and the client are two pointers.
pub ipc_receive-frees :
    (pending base client : ℕ) (status : ℤ) (ext : Ext) (req : DataRequest) (accepted : Bool)
    → base ≢ client
    → (count_frees base (ipc_receive pending base ext client accepted) ≡ 1)
      × (count_frees base (actor_ipc_receive pending status base ext req client accepted)
          ≡ (if ltb 0 pending && keeps_buffer status req then 0 else 1))
ipc_receive-frees pending base client status ext req accepted apart = (
  worker_receive-frees pending base client ext accepted apart,
  actor_receive-frees pending base client status ext req accepted apart,
)
