-- ===== src/Server/Emitters.antt =====
-- The five methods of an emitter, as src/server/tcp.c, src/server/pipe.c, src/server/http.c,
-- src/server/udp.c, src/server/secure.c, src/stream/secure.c and src/stream/connection.c repeat them, each over the `event_hook` of its own object.
use respondphp.Base.{
  ◌≡◌, refl, ◌∙◌, Option, none, some, List, [], ◌∷◌, ◌++◌, Bytes, if_pos, inl, inr, Option-cases,
}
use respondphp.Zend.{Zval, IsName, str, Bytes-discrete, Hash, values}
use respondphp.EventEmitter.{EventHook, on, get_listeners}
use respondphp.EventEmitter.Methods.{trait_event_emitter}
use respondphp.EventEmitter.Views.{entries_hook}
use respondphp.EventEmitter.Spec.{ons, spec_step}
use respondphp.EventEmitter.Invariant.{listeners}
use respondphp.EventEmitter.Refinement.{listeners-on}
use respondphp.StreamConnection.{Connection, connection_emitter}
use respondphp.Server.Tcp.{TcpServer, tcp_emitter}
use respondphp.Server.Pipe.{PipeServer, pipe_emitter}
use respondphp.Server.Udp.{UdpServer, udp_emitter}
use respondphp.Server.Secure.{SecureServer, secure_emitter}
use respondphp.SecureStream.{SecureStream, stream_emitter}
use respondphp.Server.Http.{HttpServer, http_emitter}

module _ ⦃h : Hash⦄ where
  open h use {Table, items}

  -- NULL, or an array, as the list of its values
  abbrev shown : Option (Table Zval) → List Zval
  shown none = []
  shown (some t) = values (items t)

  get_listeners-shown : (s : EventHook) (e : Bytes) → shown (get_listeners s e) ≡ listeners s e
  unfolding get_listeners listeners entries_hook
  get_listeners-shown s e = elim (Option-cases (h.find s.hook (str e))) [
    | inl absent ↦ rw (absent) refl
    | inr (t, found) ↦ rw (found) refl
  ]

  shown-on :
      (s : EventHook) (e : Bytes) (z : Zval)
      → IsName e
      → shown (get_listeners (on s e z) e) ≡ listeners s e ++ z ∷ []
  unfolding spec_step
  shown-on s e z n =
      let same : spec_step (listeners s) (ons e z) e ≡ listeners s e ++ z ∷ [] =
        rw (spec_step, if_pos (Bytes-discrete e e) refl) refl in
      get_listeners-shown (on s e z) e ∙ (listeners-on s e e z n ∙ same)

  -- In each of the seven classes, `getListeners` after `on` gives the listeners that the object's
  -- emitter had for the event, and the new one last. The event's name does not spell an integer.
  on_method-get_listeners :
      (tcp : TcpServer) (pipe : PipeServer) (http : HttpServer) (udp : UdpServer)
      (secure : SecureServer) (tls : SecureStream) (c : Connection) (e : Bytes) (z : Zval)
      → IsName e
      → (shown (tcp_emitter.get_listeners_method (some e) (tcp_emitter.on_method (some (e, z)) tcp))
          ≡ listeners tcp.event_hook e ++ z ∷ [])
        × (shown (
              pipe_emitter.get_listeners_method
                (some e)
                (pipe_emitter.on_method (some (e, z)) pipe))
            ≡ listeners pipe.event_hook e ++ z ∷ [])
        × (shown (
              http_emitter.get_listeners_method
                (some e)
                (http_emitter.on_method (some (e, z)) http))
            ≡ listeners http.event_hook e ++ z ∷ [])
        × (shown
              (udp_emitter.get_listeners_method (some e) (udp_emitter.on_method (some (e, z)) udp))
            ≡ listeners udp.event_hook e ++ z ∷ [])
        × (shown (
              secure_emitter.get_listeners_method
                (some e)
                (secure_emitter.on_method (some (e, z)) secure))
            ≡ listeners secure.event_hook e ++ z ∷ [])
        × (shown (
              stream_emitter.get_listeners_method
                (some e)
                (stream_emitter.on_method (some (e, z)) tls))
            ≡ listeners tls.event_hook e ++ z ∷ [])
        × (shown (
              connection_emitter.get_listeners_method
                (some e)
                (connection_emitter.on_method (some (e, z)) c))
            ≡ listeners c.event_hook e ++ z ∷ [])
  unfolding tcp_emitter pipe_emitter http_emitter udp_emitter secure_emitter stream_emitter
      connection_emitter trait_event_emitter
  on_method-get_listeners tcp pipe http udp secure tls c e z n = (
    shown-on tcp.event_hook e z n,
    shown-on pipe.event_hook e z n,
    shown-on http.event_hook e z n,
    shown-on udp.event_hook e z n,
    shown-on secure.event_hook e z n,
    shown-on tls.event_hook e z n,
    shown-on c.event_hook e z n,
  )
