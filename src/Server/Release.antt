-- ===== src/Server/Release.antt =====
-- The free handlers of src/server and what they release, with rp_event_hook_destroy of
-- src/internal/event_emitter.c.
pub mod Listeners
pub mod Balance
use respondphp.Base.{ℕ, Option, none, some, List, [], ◌∷◌, ◌++◌, map, Bytes}
use respondphp.Zend.{Zval, Hash, values}
use respondphp.Manager.{TaskType}
use respondphp.EventEmitter.{EventHook, HtCounter, InternalCb}
use respondphp.Server.Tcp.{TcpServer}
use respondphp.Server.Pipe
use respondphp.Server.Pipe.{PipeServer, PipeEffect}
use respondphp.Server.Udp.{UdpServer}
use respondphp.Server.Http.{HttpServer}
use respondphp.Server.Secure.{SecureServer}

pub data Release : Type 0 where
  -- rp_free of the function info of a listener, of a C callback, and of a table of either
  frees_listener : Zval → Release
  frees_callback : InternalCb → Release
  frees_table : Release
  -- the reference that an array holds to a listener
  drops_listener : Zval → Release
  -- zend_object_ptr_dtor of the socket server, zend_object_std_dtor
  drops_socket : ℕ → Release
  dtor_object : Release
  -- releaseResource of a pipe server; those of the other servers are empty
  of_pipe : PipeEffect → Release
  -- zend_hash_destroy of the table of certificates, which has no destructor
  drops_table : Release

-- rp_event_hook_memory_free on each entry, and rp_event_hook_cache_list_free
module _ ⦃h : Hash⦄ where
  open h use {Table, items}

  unfoldable pub free_listeners : List HtCounter → List Release
  free_listeners [] = []
  free_listeners (c ∷ cs) =
      (map (λ z. frees_listener z) (values (items c.ht)) ++ frees_table ∷ []) ++ free_listeners cs

  unfoldable pub free_callbacks : List (Table InternalCb) → List Release
  free_callbacks [] = []
  free_callbacks (t ∷ ts) =
      (map (λ cb. frees_callback cb) (values (items t)) ++ frees_table ∷ []) ++ free_callbacks ts

  unfoldable pub drop_arrays : List (Table Zval) → List Release
  drop_arrays [] = []
  drop_arrays (a ∷ arrays) = map (λ z. drops_listener z) (values (items a)) ++ drop_arrays arrays

  -- rp_event_hook_destroy
  unfoldable pub event_hook_destroy : EventHook → List Release
  unfolding free_listeners free_callbacks drop_arrays
  event_hook_destroy s =
      free_listeners (values (items s.hook_cache))
      ++ (free_callbacks (values (items s.internal_hook)) ++ drop_arrays (values (items s.hook)))

  -- free_respond_server_tcp_resource and its namesakes
  unfoldable pub free_tcp : TcpServer → List Release
  unfolding event_hook_destroy
  free_tcp r = event_hook_destroy r.event_hook ++ dtor_object ∷ []

  unfoldable pub free_pipe : TaskType → (socket_path : Bytes) → PipeServer → List Release
  unfolding Pipe.release_resource event_hook_destroy
  free_pipe task socket_path r =
      map (λ e. of_pipe e) (Pipe.release_resource task socket_path)
      ++ (event_hook_destroy r.event_hook ++ dtor_object ∷ [])

  unfoldable pub free_udp : UdpServer → List Release
  unfolding event_hook_destroy
  free_udp r = event_hook_destroy r.event_hook ++ dtor_object ∷ []

  abbrev pub drop_socket : Option ℕ → List Release
  drop_socket none = []
  drop_socket (some z) = drops_socket z ∷ []

  unfoldable pub free_http : HttpServer → List Release
  unfolding event_hook_destroy
  free_http r = drop_socket r.socket_zo ++ (event_hook_destroy r.event_hook ++ dtor_object ∷ [])

  unfoldable pub free_secure : SecureServer → List Release
  unfolding event_hook_destroy
  free_secure r =
      drop_socket r.socket_zo ++ (event_hook_destroy r.event_hook ++ drops_table ∷ dtor_object ∷ [])
