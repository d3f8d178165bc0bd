-- ===== src/SecureStream.antt =====
-- src/stream/secure.c: a TLS session over a connection of src/stream/connection.c. OpenSSL is the
-- environment: whether SSL_write takes the data, and the chunks that the session's output buffer
-- then gives, are arguments, with what libuv answers to the write of each chunk.
pub mod Lost
use respondphp.Base.{
  ℕ, Option, none, some, List, [], ◌∷◌, ◌++◌, Bytes, Bool, true, false, if◌then◌else◌, codes,
}
use respondphp.Zend.{Zval, Hash}
use respondphp.EventEmitter.{EventHook, InternalCb, event_hook_init, on_internal}
use respondphp.EventEmitter.Methods.{EmitterMethods, trait_event_emitter}
use respondphp.StreamConnection
use respondphp.StreamConnection.{
  Connection, M, pure, Effect, connection_close, connection_shutdown, ◌>>=◌, StreamType,
}

-- What OpenSSL and libuv answer to a write: whether SSL_write took the data, and the chunks of the
-- output, each with whether `uv_write` succeeds.
pub record Output : Type 0 where
  pub ssl_ok : Bool
  pub chunks : List (Bytes × Bool)

-- What the reading side gives to the listeners: the event and its arguments.
abbrev pub Emission : Type 0
Emission = Bytes × List Zval

-- The loop of connection_read_cb over what SSL_read gives, at most 255 bytes at a time.
unfoldable pub read_loop : (self : ℕ) → List Bytes → List Emission
read_loop self [] = []
read_loop self (b ∷ bs) = (codes "data", Zval.handle self ∷ Zval.string b ∷ []) ∷ read_loop self bs

-- connection_read_cb behind BIO_write: `handshake` says that a handshake function is set, which is
-- called, and `finished` that the session is set up after it.
unfoldable pub connection_read_cb :
    (self : ℕ) (handshake finished : Bool) (plain : List Bytes) → (called : Bool) × List Emission
unfolding read_loop
connection_read_cb self true true plain = (true, read_loop self plain)
connection_read_cb self true false plain = (true, [])
connection_read_cb self false finished plain = (false, read_loop self plain)

-- connection_write_cb, for the status that the connection gives
unfoldable pub connection_write_cb : (self : ℕ) (status : Zval) → Emission
connection_write_cb self status = (codes "write", Zval.handle self ∷ status ∷ [])

pub data Release : Type 0 where
  -- rp_event_emitter_emit_internal
  emits : Emission → Release
  -- SSL_free, SSL_CTX_free
  frees_ssl frees_ctx : Release
  -- zend_object_ptr_dtor of the connection and of the stream, rp_event_hook_destroy
  drops_connection destroys_hook drops_object : Release

-- releaseResource: `ctx` says that the stream has a context of its own.
unfoldable pub release_resource : (ctx : Bool) → List Release
release_resource ctx =
    frees_ssl
    ∷ ((if ctx then frees_ctx ∷ [] else []) ++ drops_connection ∷ destroys_hook ∷ drops_object ∷ [])

-- connection_close_cb
unfoldable pub connection_close_cb : (self : ℕ) (ctx : Bool) → List Release
unfolding release_resource
connection_close_cb self ctx = emits (codes "close", Zval.handle self ∷ []) ∷ release_resource ctx

module _ ⦃h : Hash⦄ where
  -- PHP_METHODs isReadable, isWritable, getRemoteAddress and getLocalAddress: the connection's.
  unfoldable pub is_readable : Bool → M Bool
  unfolding StreamConnection.is_readable
  is_readable answer = StreamConnection.is_readable answer

  unfoldable pub is_writable : Bool → M Bool
  unfolding StreamConnection.is_writable
  is_writable answer = StreamConnection.is_writable answer

  unfoldable pub get_remote_address : StreamType → Zval → Zval
  unfolding StreamConnection.get_remote_address
  get_remote_address type address = StreamConnection.get_remote_address type address

  unfoldable pub get_local_address : StreamType → Zval → Zval
  unfolding StreamConnection.get_local_address
  get_local_address type address = StreamConnection.get_local_address type address

  -- write_bio_to_socket: the chunks go to the connection until one is refused.
  unfoldable pub write_bio_to_socket : List (Bytes × Bool) → M Bool
  unfolding StreamConnection.connection_write
  write_bio_to_socket [] = pure true
  write_bio_to_socket ((b, ok) ∷ cs) =
      StreamConnection.connection_write ok b
      >>= (λ r. if r then write_bio_to_socket cs else pure false)

  -- connection_write: the result of the loop is not looked at.
  unfoldable pub connection_write : Output → M Bool
  unfolding write_bio_to_socket
  connection_write out =
      if out.ssl_ok then write_bio_to_socket out.chunks >>= (λ _. pure true) else pure false

  -- PHP_METHOD write and PHP_METHOD close, which pass the results on
  unfoldable pub write_method : Output → M Bool
  unfolding connection_write
  write_method out = connection_write out

  unfoldable pub close_method : M Bool
  unfolding connection_close
  close_method = connection_close

  unfoldable pub end_rest : Bool → Bool → M Bool
  unfolding connection_shutdown
  end_rest shutdown_ok true = connection_shutdown shutdown_ok
  end_rest shutdown_ok false = pure false

  -- PHP_METHOD end
  unfoldable pub end_method : Option Output → (shutdown_ok : Bool) → M Bool
  unfolding connection_write end_rest
  end_method none shutdown_ok = end_rest shutdown_ok true
  end_method (some out) shutdown_ok = connection_write out >>= end_rest shutdown_ok

  -- `rp_stream_secure_ext_t`, of which the PHP methods use these
  pub record SecureStream : Type 0 where
    pub handshake : Bool
    pub event_hook : EventHook
    pub self : ℕ

  -- create_respond_stream_secure_resource
  unfoldable pub create_resource : ℕ → SecureStream
  unfolding event_hook_init
  create_resource self = record { handshake = false; event_hook = event_hook_init; self = self }

  -- rp_stream_secure_factory, on the hook of the connection: three callbacks for the new stream
  unfoldable pub stream_secure_factory :
      (read_cb write_cb close_cb resource : ℕ) → EventHook → EventHook
  unfolding on_internal
  stream_secure_factory read_cb write_cb close_cb resource hook =
      on_internal
        (on_internal
          (on_internal hook (codes "data") (record { callback = read_cb; cb_data = resource }))
          (codes "write") (record { callback = write_cb; cb_data = resource }))
        (codes "close") (record { callback = close_cb; cb_data = resource })

  -- PHP_METHODs on, off, removeListeners, getListeners and emit
  unfoldable pub stream_emitter : EmitterMethods SecureStream
  unfolding trait_event_emitter
  stream_emitter =
      trait_event_emitter (λ r. r.event_hook) (λ r hook. record r { event_hook = hook })
