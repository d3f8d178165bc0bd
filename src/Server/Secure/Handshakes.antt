-- ===== src/Server/Secure/Handshakes.antt =====
-- src/server/secure.c over src/stream/secure.c: a client of a TLS server, from the connection to the
-- data that its listeners get. What OpenSSL answers is an argument.
use respondphp.Base.{
  ℕ, ◌≡◌, refl, sym, ◌∙◌, List, [], ◌∷◌, ◌++◌, Bytes, Bool, true, false, not, ◌&&◌, if◌then◌else◌,
  arith, Bool-cases, inl, inr,
}
use respondphp.Zend.{Hash}
use respondphp.EventEmitter.{EventHook}
use respondphp.StreamConnection.{Connection, M, pure, connection_close, ◌>>=◌, set_closed}
use respondphp.SecureStream.{
  SecureStream, Emission, write_bio_to_socket, connection_read_cb, create_resource,
  stream_secure_factory,
}

-- What a TLS server gives to its listeners, `connect`, and its stream to those of the stream.
pub data Event : Type 0 where
  connects : Event
  emits : Emission → Event

abbrev pub events_of : List Emission → List Event
events_of [] = []
events_of (e ∷ es) = emits e ∷ events_of es

-- One read: what SSL_do_handshake, SSL_get_error (SSL_ERROR_SSL), the output buffer with uv_write,
-- SSL_is_init_finished and SSL_read answer.
pub record Read : Type 0 where
  pub ok : Bool
  pub fatal : Bool
  pub output : List (Bytes × Bool)
  pub finished : Bool
  pub plain : List Bytes

module _ ⦃h : Hash⦄ where
  -- handshake_read_cb: the result says that `connect` is emitted, and `handshake` set to NULL.
  unfoldable pub handshake_read_cb : Read → M Bool
  unfolding write_bio_to_socket connection_close
  handshake_read_cb r =
      write_bio_to_socket r.output
      >>= (λ sent. (if r.fatal then connection_close else pure true) >>= (λ closed. pure r.ok))

  -- accepted_cb, on the hook of the connection: the hook, and the new stream.
  unfoldable pub accepted_cb :
      (read_cb write_cb close_cb resource : ℕ) → EventHook → EventHook × SecureStream
  unfolding create_resource stream_secure_factory
  accepted_cb read_cb write_cb close_cb resource hook = (
    stream_secure_factory read_cb write_cb close_cb resource hook,
    record (create_resource resource) { handshake = true },
  )

  -- The reads of a session, in order; `handshake` says that the function is set.
  unfoldable pub session : (self : ℕ) (handshake : Bool) → List Read → M (List Event)
  unfolding handshake_read_cb connection_read_cb
  session self handshake [] = pure []
  session self true (r ∷ rs) = handshake_read_cb r >>= (λ ok. session self (not ok) rs >>= (λ later.
      pure (
        (if ok then connects ∷ [] else [])
        ++ (events_of (connection_read_cb self true r.finished r.plain).1 ++ later))))
  session self false (r ∷ rs) =
      session self false rs
      >>= (λ later. pure (events_of (connection_read_cb self false r.finished r.plain).1 ++ later))

  close-closed : (c : Connection) → ((connection_close c).1).closed ≡ true
  unfolding connection_close set_closed
  close-closed c = ground arith

  handshake_read_cb-closed :
      (r : Read) (c : Connection) → r.fatal ≡ true → ((handshake_read_cb r c).1).closed ≡ true
  unfolding handshake_read_cb
  handshake_read_cb-closed r c bad = rw bad (close-closed (write_bio_to_socket r.output c).1)

  -- `connect` comes once at most, and no data before it.
  abbrev pub in_order : (connected : Bool) → List Event → Bool
  in_order connected [] = true
  in_order connected (connects ∷ es) = not connected && in_order true es
  in_order connected (emits e ∷ es) = connected && in_order connected es

  abbrev pub has_connect : List Event → Bool
  has_connect [] = false
  has_connect (connects ∷ es) = true
  has_connect (emits e ∷ es) = has_connect es

  abbrev pub some_ok : List Read → Bool
  some_ok [] = false
  some_ok (r ∷ rs) = if r.ok then true else some_ok rs

  -- OpenSSL: a session is not set up before SSL_do_handshake returned 1.
  abbrev pub FinishesOnce : List Read → Type 0
  FinishesOnce [] = Unit {0}
  FinishesOnce (r ∷ rs) = if r.ok then Unit {0} else ((r.finished ≡ false) × FinishesOnce rs)

  in_order-events :
      (l : List Emission) (later : List Event)
      → in_order true later ≡ true
      → in_order true (events_of l ++ later) ≡ true
  in_order-events [] later e = e
  in_order-events (x ∷ l) later e = in_order-events l later e

  session-data :
      (self : ℕ) (rs : List Read) (c : Connection)
      → in_order true (session self false rs c).0 ≡ true
  unfolding session
  session-data self [] c = refl
  session-data self (r ∷ rs) c =
      in_order-events (connection_read_cb self false r.finished r.plain).1
        (session self false rs c).0 (session-data self rs c)

  session_ok :
      (self : ℕ) (r : Read) (rs : List Read) (c : Connection)
      → r.ok ≡ true
      → (in_order false (session self true (r ∷ rs) c).0 ≡ true)
        × (has_connect (session self true (r ∷ rs) c).0 ≡ true)
  unfolding session handshake_read_cb
  session_ok self r rs c ok = rw ok (
    in_order-events (connection_read_cb self true r.finished r.plain).1 _ (session-data self rs _),
    refl,
  )

  session_more :
      (self : ℕ) (r : Read) (rs : List Read) (c : Connection)
      → r.ok ≡ false
      → r.finished ≡ false
      → (session self true (r ∷ rs) c).0 ≡ (session self true rs (handshake_read_cb r c).1).0
  unfolding session handshake_read_cb connection_read_cb
  session_more self r rs c more early = rw (more, early) refl

  session_nil : (self : ℕ) (c : Connection) → (session self true [] c).0 ≡ []
  unfolding session
  session_nil self c = refl

  some_ok_now : (r : Read) (rs : List Read) → r.ok ≡ true → some_ok (r ∷ rs) ≡ true
  some_ok_now r rs ok = rw ok refl

  some_ok_later : (r : Read) (rs : List Read) → r.ok ≡ false → some_ok (r ∷ rs) ≡ some_ok rs
  some_ok_later r rs more = rw more refl

  session-ordered :
      (self : ℕ) (rs : List Read) (c : Connection)
      → FinishesOnce rs
      → (in_order false (session self true rs c).0 ≡ true)
        × (has_connect (session self true rs c).0 ≡ some_ok rs)
  session-ordered self [] c f = rw (session_nil self c) (refl, refl)
  session-ordered self (r ∷ rs) c f = elim (Bool-cases r.ok) [
    | inl ok ↦ let s = session_ok self r rs c ok in (s.0, s.1 ∙ sym (some_ok_now r rs ok))
    | inr more ↦
        let g : (r.finished ≡ false) × FinishesOnce rs = rw more at f in
        let ih = session-ordered self rs (handshake_read_cb r c).1 g.1 in
        rw (session_more self r rs c more g.0) (ih.0, ih.1 ∙ sym (some_ok_later r rs more))
  ]

  -- Over any history of a client of a TLS server from accepted_cb on, whatever becomes of its
  -- connection, `connect` is emitted once if a handshake succeeds and never otherwise, and no data is
  -- given to listeners before it; a fatal TLS error during the handshake closes the connection. A
  -- session is set up only once its handshake has succeeded.
  pub session-connects :
      (read_cb write_cb close_cb self : ℕ) (hook : EventHook) (rs : List Read) (c : Connection)
      (r : Read)
      → FinishesOnce rs
      → r.fatal ≡ true
      → (in_order false
            (session self (accepted_cb read_cb write_cb close_cb self hook).1.handshake rs c).0
          ≡ true)
        × (has_connect
              (session self (accepted_cb read_cb write_cb close_cb self hook).1.handshake rs c).0
            ≡ some_ok rs)
        × (((handshake_read_cb r c).1).closed ≡ true)
  unfolding accepted_cb
  session-connects read_cb write_cb close_cb self hook rs c r f bad =
      let o = session-ordered self rs c f in (o.0, o.1, handshake_read_cb-closed r c bad)
