-- ===== src/StreamConnection.antt =====
-- src/stream/connection.c: a connection over a libuv stream. libuv and the listeners are its
-- environment: what libuv returns is an argument, and what the code asks of libuv and of the
-- listeners is a list of effects, oldest first.
pub mod Protocol
pub mod Safety
pub mod Behaviour
pub mod Address
use respondphp.Base.{
  ℕ, zero, suc, ◌+◌, Option, none, some, List, [], ◌∷◌, ◌++◌, Bytes, Bool, true, false, not, codes,
  if◌then◌else◌, ◌==◌, ltb,
}
use respondphp.Zend.{Zval, ℤ, pos, negsuc, Hash}
use respondphp.EventEmitter.{EventHook, event_hook_init}
use respondphp.EventEmitter.Methods.{EmitterMethods, trait_event_emitter}

pub data Effect : Type 0 where
  -- uv_read_start, uv_close, uv_write, uv_shutdown on the stream
  read_start : Effect
  closes : Effect
  writes : Bytes → Effect
  shuts_down : Effect
  -- rp_event_emitter_emit_internal: the event and its arguments
  emits : Bytes → List Zval → Effect
  -- rp_free of a write request, of a shutdown request and of the stream
  free_write_req : Effect
  free_shutdown_req : Effect
  free_stream : Effect
  -- rp_event_hook_destroy and zend_object_ptr_dtor
  destroy_hook : Effect
  drop_object : Effect

-- The handle type of the stream.
pub data StreamType : Type 0 where
  uv_tcp uv_named_pipe : StreamType

module _ ⦃h : Hash⦄ where
  -- `rp_stream_connection_ext_t`. `closed` and `shut` are the bits RP_CONNECTION_CLOSED and
  -- RP_CONNECTION_SHUTDOWN of `flag`; `self` stands for the object handle.
  pub record Connection : Type 0 where
    pub closed : Bool
    pub shut : Bool
    pub close_write_req : Option ℕ
    pub event_hook : EventHook
    pub self : ℕ

  abbrev pub M : Type 0 → Type 0
  M A = Connection → A × Connection × List Effect

  abbrev pub pure : {A : Type 0} → A → M A
  pure a c = (a, c, [])

  infixl 5 ◌>>=◌ ◌>>◌
  abbrev pub ◌>>=◌ : {A B : Type 0} → M A → (A → M B) → M B
  ◌>>=◌ m f c = let (a, c', es) = m c in let (b, c'', fs) = f a c' in (b, c'', es ++ fs)

  abbrev pub ◌>>◌ : {A B : Type 0} → M A → M B → M B
  m >> k = m >>= λ _. k

  abbrev pub effect : Effect → M (Unit {0})
  effect e c = (tt, c, e ∷ [])

  unfoldable pub set_closed : M (Unit {0})
  set_closed c = (tt, record c { closed = true }, [])

  unfoldable pub set_shut : M (Unit {0})
  set_shut c = (tt, record c { shut = true }, [])

  unfoldable pub connection_close : M Bool
  unfolding set_closed
  connection_close c =
      if c.closed then (false, c, []) else (do set_closed; effect closes; pure true) c

  -- `ok` says that `uv_shutdown` returned 0.
  unfoldable pub connection_shutdown : Bool → M Bool
  unfolding set_shut
  connection_shutdown ok c =
      if c.shut then (false, c, []) else (do set_shut; effect shuts_down; pure ok) c

  -- `ok` says that `uv_write` returned 0.
  unfoldable pub connection_write : Bool → Bytes → M Bool
  connection_write ok bytes c =
      if c.shut
      then (false, c, [])
      else (do
        effect (writes bytes)
        if ok then pure true else (do effect free_write_req; pure false))
          c

  -- What a listener does to the connection that calls it: the methods that it calls, with what
  -- libuv returns to each.
  pub data Op : Type 0 where
    op_close : Op
    op_write : Bytes → Bool → Op
    op_end : Option Bytes → Bool → Bool → Op

  -- PHP_METHOD close: TRUE or FALSE
  unfoldable pub close_method : M Bool
  unfolding connection_close
  close_method c = if c.shut then (false, c, []) else connection_close c

  -- PHP_METHOD write, after its argument is parsed
  unfoldable pub write_method : Bool → Bytes → M Bool
  unfolding connection_write
  write_method ok bytes = connection_write ok bytes

  -- What is left of PHP_METHOD end, once the data is written: it returns TRUE whatever
  -- `uv_shutdown` returns.
  unfoldable pub end_rest : Bool → Bool → M Bool
  unfolding connection_shutdown
  end_rest shutdown_ok true = connection_shutdown shutdown_ok >> pure true
  end_rest shutdown_ok false = pure false

  -- PHP_METHOD end, after its argument is parsed
  unfoldable pub end_method : Option Bytes → Bool → Bool → M Bool
  unfolding connection_write connection_shutdown end_rest
  end_method bytes write_ok shutdown_ok c = if c.shut then (false, c, []) else elim bytes [
    | none ↦ end_rest shutdown_ok true c
    | some b ↦ (connection_write write_ok b >>= end_rest shutdown_ok) c
  ]

  unfoldable pub run_op : Op → M Bool
  unfolding close_method write_method end_method
  run_op op_close = close_method
  run_op (op_write b ok) = write_method ok b
  run_op (op_end b write_ok shutdown_ok) = end_method b write_ok shutdown_ok

  -- The calls that the listeners of one emission make, in order.
  unfoldable pub run_ops : List Op → M (Unit {0})
  unfolding run_op
  run_ops [] = pure tt
  run_ops (o ∷ os) = run_op o >> run_ops os

  -- rp_event_emitter_emit_internal, and then what its listeners did.
  unfoldable pub emit_event : Bytes → List Zval → List Op → M (Unit {0})
  unfolding run_ops
  emit_event event params ops = effect (emits event params) >> run_ops ops

  -- `self->close_write_req == req`, for a request at address `req`.
  abbrev pub is_req : Option ℕ → ℕ → Bool
  is_req none req = false
  is_req (some r) req = r == req

  unfoldable pub close_if_last : ℕ → M (Unit {0})
  unfolding connection_close
  close_if_last req c =
      if is_req c.close_write_req req then (connection_close >> pure tt) c else (tt, c, [])

  unfoldable pub connection_write_cb : ℕ → ℤ → List Op → M (Unit {0})
  unfolding emit_event close_if_last
  connection_write_cb req status ops c =
      (do
        effect free_write_req
        emit_event (codes "write") (Zval.handle c.self ∷ Zval.long status ∷ []) ops
        close_if_last req)
        c

  unfoldable pub connection_shutdown_cb : M (Unit {0})
  unfolding connection_close
  connection_shutdown_cb = do effect free_shutdown_req; connection_close; pure tt

  unfoldable pub release_resource : M (Unit {0})
  release_resource = do effect free_stream; effect destroy_hook; effect drop_object

  unfoldable pub connection_close_cb : List Op → M (Unit {0})
  unfolding emit_event release_resource
  connection_close_cb ops c =
      (do emit_event (codes "close") (Zval.handle c.self ∷ []) ops; release_resource) c

  abbrev pub is_positive : ℤ → Bool
  is_positive (pos n) = ltb 0 n
  is_positive (negsuc n) = false

  -- `bytes` are the first `nread` bytes of the buffer.
  unfoldable pub read_cb : ℤ → Bytes → List Op → M (Unit {0})
  unfolding emit_event connection_close
  read_cb nread bytes ops c =
      if is_positive nread
      then emit_event (codes "data") (Zval.handle c.self ∷ Zval.string bytes ∷ []) ops c
      else (do
        emit_event (codes "error") (Zval.handle c.self ∷ Zval.long nread ∷ []) ops
        connection_close
        pure tt)
          c

  -- create_respond_stream_connection_resource: the object is allocated with zeros.
  unfoldable pub create_resource : ℕ → Connection
  create_resource self = record {
    closed = false;
    shut = false;
    close_write_req = none;
    event_hook = event_hook_init;
    self = self;
  }

  -- rp_stream_connection_factory
  unfoldable pub stream_connection_factory : ℕ → Connection × List Effect
  unfolding create_resource
  stream_connection_factory self = (create_resource self, read_start ∷ [])

  -- PHP_METHODs isReadable and isWritable pass on what libuv says.
  unfoldable pub is_readable : Bool → M Bool
  is_readable answer = pure answer

  unfoldable pub is_writable : Bool → M Bool
  is_writable answer = pure answer

  -- PHP_METHODs getRemoteAddress and getLocalAddress: only a TCP stream has addresses.
  unfoldable pub get_remote_address : StreamType → Zval → Zval
  get_remote_address uv_tcp address = address
  get_remote_address uv_named_pipe address = Zval.null

  unfoldable pub get_local_address : StreamType → Zval → Zval
  get_local_address uv_tcp address = address
  get_local_address uv_named_pipe address = Zval.null

  -- PHP_METHODs on, off, removeListeners, getListeners and emit
  unfoldable pub connection_emitter : EmitterMethods Connection
  unfolding trait_event_emitter
  connection_emitter =
      trait_event_emitter (λ c. c.event_hook) (λ c hook. record c { event_hook = hook })

  -- What libuv and PHP code can do to a connection.
  pub data Event : Type 0 where
    calls : Op → Event
    reads : ℤ → Bytes → List Op → Event
    write_done : ℕ → ℤ → List Op → Event
    shutdown_done : Event
    close_done : List Op → Event

  unfoldable pub handle_event : Event → M (Unit {0})
  unfolding run_op read_cb connection_write_cb connection_shutdown_cb connection_close_cb
  handle_event (calls o) = run_op o >> pure tt
  handle_event (reads nread bytes ops) = read_cb nread bytes ops
  handle_event (write_done req status ops) = connection_write_cb req status ops
  handle_event shutdown_done = connection_shutdown_cb
  handle_event (close_done ops) = connection_close_cb ops

  unfoldable pub run_events : List Event → M (Unit {0})
  unfolding handle_event
  run_events [] = pure tt
  run_events (e ∷ es) = handle_event e >> run_events es
