-- ===== src/Server/Accepting.antt =====
-- src/server/tcp.c, src/server/pipe.c and src/server/http.c: who is told of a new connection.
use respondphp.Base.{
  ℕ, ◌<◌, ◌≡◌, List, [], ◌∷◌, ◌++◌, map, Bytes, codes, arith, length, inl, inr, Option-cases,
}
use respondphp.Zend.{Zval, str, Hash, next_insert, values-next_insert, find-update}
use respondphp.EventEmitter.{EventHook, InternalCb, user, internal, Listeners, on_internal}
use respondphp.EventEmitter.Views.{entries_hook, entries_cache}
use respondphp.EventEmitter.Invariant.{listeners, WellFormed}
use respondphp.EventEmitter.Emission.{QuietFor, Ends, emit-Ends}
use respondphp.EventEmitter.Internal.{callbacks, QuietInternal, emit_internal-Ends}
use respondphp.Server.Http.{HttpServer}
use respondphp.Server.Tcp.{TcpServer}
use respondphp.Server.Pipe.{PipeServer}
use respondphp.Server.Http
use respondphp.Server.Tcp
use respondphp.Server.Pipe

module _ ⦃h : Hash⦄ where
  open h use {Table, items, find, update, init, items-init}

  -- A callback that is added is called last.
  pub callbacks-on_internal :
      (s : EventHook) (event : Bytes) (cb : InternalCb)
      → callbacks (on_internal s event cb) event ≡ callbacks s event ++ cb ∷ []
  unfolding callbacks on_internal
  callbacks-on_internal s event cb = elim (Option-cases (find s.internal_hook (str event))) [
    | inl absent ↦ ground (
      arith,
      find-update s.internal_hook (str event) (str event) (next_insert (init {V = InternalCb}) cb),
      values-next_insert (init {V = InternalCb}) cb,
      items-init {V = InternalCb},
    )
    | inr (t, found) ↦ ground (
      arith,
      find-update s.internal_hook (str event) (str event) (next_insert t cb),
      values-next_insert t cb,
    )
  ]

  pub on_internal-WellFormed :
      (s : EventHook) (event : Bytes) (cb : InternalCb)
      → WellFormed s
      → WellFormed (on_internal s event cb)
  unfolding on_internal entries_hook entries_cache
  on_internal-WellFormed s event cb v = record {
    sync = record { same = v.sync.same };
    indexed = v.indexed;
  }

  -- The arguments of "connect".
  abbrev pub connect_params : ℕ → List Zval
  connect_params connection = Zval.handle connection ∷ []

  module _ (env : Listeners) (fuel connection : ℕ) (callback resource socket : ℕ)
      (http : HttpServer) where
    -- A client of a TCP server is told to the HTTP server that was made on it: the emission calls the
    -- C callbacks of "connect", the HTTP server's last, and then the listeners, oldest first, and ends.
    -- The callbacks and the listeners do not change the emitter, and the fuel exceeds their numbers.
    pub tcp_accepted-http :
        (server : TcpServer)
        → WellFormed server.event_hook
        → QuietInternal env (
            callbacks server.event_hook (codes "connect")
            ++ record { callback = callback; cb_data = resource } ∷ [])
        → QuietFor env (listeners server.event_hook (codes "connect"))
        → length (
            callbacks server.event_hook (codes "connect")
            ++ record { callback = callback; cb_data = resource } ∷ [])
          < fuel
        → length (listeners server.event_hook (codes "connect")) < fuel
        → Ends
            (Http.construct callback resource socket server.event_hook http).0
            (map
                (λ cb. internal cb (connect_params connection))
                (callbacks server.event_hook (codes "connect")
                  ++ record { callback = callback; cb_data = resource } ∷ [])
              ++ map
                  (λ z. user z (connect_params connection))
                  (listeners server.event_hook (codes "connect")))
            (Tcp.accepted_cb env fuel connection (record server {
              event_hook = (Http.construct callback resource socket server.event_hook http).0;
            })).1
    unfolding Http.construct Tcp.accepted_cb listeners
    tcp_accepted-http server v qi q enough_i enough =
        let cb : InternalCb = record { callback = callback; cb_data = resource } in
        let s = server.event_hook in
        let known = callbacks-on_internal s (codes "connect") cb in
        rw known at (
          emit_internal-Ends env (codes "connect") (connect_params connection) fuel
            (on_internal s (codes "connect") cb) (on_internal-WellFormed s (codes "connect") cb v)
            (rw known qi) q (rw known enough_i) enough)

    -- A client of a pipe server is not told to an HTTP server that was made on it: the emission calls
    -- the listeners of PHP code alone. The listeners do not change the emitter, and the fuel exceeds
    -- their number.
    pub pipe_accepted-http :
        (server : PipeServer)
        → WellFormed server.event_hook
        → QuietFor env (listeners server.event_hook (codes "connect"))
        → length (listeners server.event_hook (codes "connect")) < fuel
        → Ends
            (Http.construct callback resource socket server.event_hook http).0
            (map
              (λ z. user z (connect_params connection))
              (listeners server.event_hook (codes "connect")))
            (Pipe.accepted_cb env fuel connection (record server {
              event_hook = (Http.construct callback resource socket server.event_hook http).0;
            })).1
    unfolding Http.construct Pipe.accepted_cb listeners
    pipe_accepted-http server v q enough =
        let cb : InternalCb = record { callback = callback; cb_data = resource } in
        let s = server.event_hook in
        emit-Ends env (codes "connect") (connect_params connection) fuel
          (on_internal s (codes "connect") cb) (on_internal-WellFormed s (codes "connect") cb v) q
          enough
