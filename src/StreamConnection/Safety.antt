-- ===== src/StreamConnection/Safety.antt =====
-- Every run of a connection of src/stream/connection.c follows the protocol.
use respondphp.Base.{
  ℕ, ◌≡◌, refl, subst, Option, none, some, List, [], ◌∷◌, Bytes, Bool, true, false, if◌then◌else◌,
  codes, arith, Bool-cases, inl, inr,
}
use respondphp.Zend.{Zval, ℤ, Hash}
use respondphp.StreamConnection.{
  Effect, Connection, M, pure, ◌>>=◌, effect, is_req, free_write_req, free_shutdown_req,
  free_stream, destroy_hook, drop_object, Op, op_close, op_write, op_end, Event, run_op, run_ops,
  connection_close, connection_shutdown, connection_write, close_method, write_method, end_method,
  end_rest, emit_event, close_if_last, connection_write_cb, connection_shutdown_cb,
  connection_close_cb, is_positive, release_resource, read_cb, handle_event, run_events, calls,
  reads, write_done, shutdown_done, close_done, emits,
}
use respondphp.StreamConnection.Protocol.{
  Flags, scan, scan-append, count_closes, scan-count_closes, scan-count_shuts, advance, number,
  written, scan-written_shut,
}

module _ ⦃h : Hash⦄ where
  abbrev pub flags : Connection → Flags
  flags c = record { closed = c.closed; shut = c.shut }

  -- Whatever the state, the effects are a word of the automaton, which ends where the flags of
  -- the connection say.
  pub data Follows {A : Type 0} (m : M A) : Type 0 where
    follows : ((c : Connection) → scan (flags c) (m c).2 ≡ some (flags (m c).1)) → Follows m

  at_state :
      {A : Type 0} {m : M A}
      → Follows m
      → (c : Connection) → scan (flags c) (m c).2 ≡ some (flags (m c).1)
  at_state (follows f) = f

  bind-Follows :
      {A B : Type 0} {m : M A} {k : A → M B}
      → Follows m
      → ((a : A) → Follows (k a))
      → Follows (m >>= k)
  bind-Follows {m} {k} f g = follows λ c.
      rw (scan-append (flags c) (m c).2 (k (m c).0 (m c).1).2, at_state f c)
        (at_state (g (m c).0) (m c).1)

  pure-Follows : {A : Type 0} (a : A) → Follows (pure a)
  unfolding scan
  pure-Follows a = follows λ c. refl

  effect-Follows : (e : Effect) → ((p : Flags) → advance p e ≡ some p) → Follows (effect e)
  unfolding scan
  effect-Follows e quiet = follows λ c. rw (quiet (flags c))

  connection_close-Follows : Follows connection_close
  unfolding connection_close scan
  connection_close-Follows = follows λ c. ground arith

  connection_shutdown-Follows : (ok : Bool) → Follows (connection_shutdown ok)
  unfolding connection_shutdown scan
  connection_shutdown-Follows ok = follows λ c. ground arith

  connection_write-Follows : (ok : Bool) (b : Bytes) → Follows (connection_write ok b)
  unfolding connection_write scan
  connection_write-Follows ok b = follows λ c. ground arith

  -- An action that may look at the state first.
  test-Follows :
      {A : Type 0} (t : Connection → Bool) {m n : M A}
      → Follows m
      → Follows n
      → Follows (λ c. if t c then m c else n c)
  test-Follows t {m} {n} f g =
      follows
        λ c. elim (Bool-cases (t c)) [ inl q ↦ rw q (at_state f c) | inr q ↦ rw q (at_state g c) ]

  close_method-Follows : Follows close_method
  unfolding close_method
  close_method-Follows = test-Follows (λ c. c.shut) (pure-Follows false) connection_close-Follows

  end_rest-Follows : (ok done : Bool) → Follows (end_rest ok done)
  unfolding end_rest
  end_rest-Follows ok true = bind-Follows (connection_shutdown-Follows ok) (λ _. pure-Follows true)
  end_rest-Follows ok false = pure-Follows false

  end_method-Follows :
      (b : Option Bytes) (write_ok shutdown_ok : Bool) → Follows (end_method b write_ok shutdown_ok)
  unfolding end_method
  end_method-Follows none write_ok shutdown_ok =
      test-Follows (λ c. c.shut) (pure-Follows false) (end_rest-Follows shutdown_ok true)
  end_method-Follows (some b) write_ok shutdown_ok =
      test-Follows (λ c. c.shut) (pure-Follows false)
        (bind-Follows (connection_write-Follows write_ok b) (end_rest-Follows shutdown_ok))

  run_op-Follows : (o : Op) → Follows (run_op o)
  unfolding run_op write_method
  run_op-Follows op_close = close_method-Follows
  run_op-Follows (op_write b ok) = connection_write-Follows ok b
  run_op-Follows (op_end b write_ok shutdown_ok) = end_method-Follows b write_ok shutdown_ok

  run_ops-Follows : (os : List Op) → Follows (run_ops os)
  unfolding run_ops
  run_ops-Follows [] = pure-Follows tt
  run_ops-Follows (o ∷ os) = bind-Follows (run_op-Follows o) (λ _. run_ops-Follows os)

  emit_event-Follows : (e : Bytes) (ps : List Zval) (os : List Op) → Follows (emit_event e ps os)
  unfolding emit_event advance
  emit_event-Follows e ps os =
      bind-Follows (effect-Follows (emits e ps) (λ p. refl)) (λ _. run_ops-Follows os)

  close_if_last-Follows : (req : ℕ) → Follows (close_if_last req)
  unfolding close_if_last
  close_if_last-Follows req =
      test-Follows (λ c. is_req c.close_write_req req)
        (bind-Follows connection_close-Follows (λ _. pure-Follows tt)) (pure-Follows tt)

  -- An action that reads the object's handle first.
  self-Follows : {A : Type 0} {m : ℕ → M A} → ((n : ℕ) → Follows (m n)) → Follows (λ c. m c.self c)
  self-Follows f = follows λ c. at_state (f c.self) c

  connection_write_cb-Follows :
      (req : ℕ) (status : ℤ) (os : List Op) → Follows (connection_write_cb req status os)
  unfolding connection_write_cb advance
  connection_write_cb-Follows req status os = self-Follows λ n.
      bind-Follows (effect-Follows free_write_req (λ p. refl)) (λ _.
        bind-Follows (emit_event-Follows (codes "write") (Zval.handle n ∷ Zval.long status ∷ []) os)
          (λ _. close_if_last-Follows req))

  connection_shutdown_cb-Follows : Follows connection_shutdown_cb
  unfolding connection_shutdown_cb advance
  connection_shutdown_cb-Follows =
      bind-Follows (effect-Follows free_shutdown_req (λ p. refl))
        (λ _. bind-Follows connection_close-Follows (λ _. pure-Follows tt))

  release_resource-Follows : Follows release_resource
  unfolding release_resource advance
  release_resource-Follows = bind-Follows (effect-Follows free_stream (λ p. refl)) (λ _.
      bind-Follows (effect-Follows destroy_hook (λ p. refl))
        (λ _. effect-Follows drop_object (λ p. refl)))

  connection_close_cb-Follows : (os : List Op) → Follows (connection_close_cb os)
  unfolding connection_close_cb
  connection_close_cb-Follows os =
      self-Follows λ n. bind-Follows (emit_event-Follows _ _ os) (λ _. release_resource-Follows)

  read_cb-Follows : (nread : ℤ) (b : Bytes) (os : List Op) → Follows (read_cb nread b os)
  unfolding read_cb
  read_cb-Follows nread b os =
      test-Follows (λ c. is_positive nread) (self-Follows λ n. emit_event-Follows _ _ os)
        (self-Follows λ n.
          bind-Follows (emit_event-Follows _ _ os)
            (λ _. bind-Follows connection_close-Follows (λ _. pure-Follows tt)))

  handle_event-Follows : (e : Event) → Follows (handle_event e)
  unfolding handle_event
  handle_event-Follows (calls o) = bind-Follows (run_op-Follows o) (λ _. pure-Follows tt)
  handle_event-Follows (reads nread b os) = read_cb-Follows nread b os
  handle_event-Follows (write_done req status os) = connection_write_cb-Follows req status os
  handle_event-Follows shutdown_done = connection_shutdown_cb-Follows
  handle_event-Follows (close_done os) = connection_close_cb-Follows os

  run_events-Follows : (es : List Event) → Follows (run_events es)
  unfolding run_events
  run_events-Follows [] = pure-Follows tt
  run_events-Follows (e ∷ es) = bind-Follows (handle_event-Follows e) (λ _. run_events-Follows es)

  -- From any state, whatever libuv and PHP code do and in whatever order, the effects follow the
  -- protocol: uv_close at most once, uv_shutdown at most once, no uv_write after uv_shutdown; and
  -- the flags say where the protocol stands.
  pub run_events-scan :
      (c : Connection) (es : List Event)
      → scan (flags c) (run_events es c).2 ≡ some (flags (run_events es c).1)
  run_events-scan c es = at_state (run_events-Follows es) c

  -- A connection closes its stream once at most, and exactly if its flag came to say so.
  run_events-closes :
      (c : Connection) (es : List Event)
      → c.closed ≡ false
      → count_closes (run_events es c).2 ≡ number (run_events es c).1.closed
  run_events-closes c es open_yet = ground (
    arith,
    scan-count_closes (flags c) (flags (run_events es c).1) (run_events es c).2
        (run_events-scan c es),
  )

  -- A connection that was shut down stays so.
  pub run_events-shut :
      (c : Connection) (es : List Event) → c.shut ≡ true → (run_events es c).1.shut ≡ true
  run_events-shut c es shut_down = ground (
    arith,
    scan-count_shuts (flags c) (flags (run_events es c).1) (run_events es c).2
        (run_events-scan c es),
  )

  -- After a shutdown nothing is written, by any method or callback.
  run_events-written_shut :
      (c : Connection) (es : List Event) → c.shut ≡ true → written (run_events es c).2 ≡ []
  run_events-written_shut c es shut_down =
      scan-written_shut (flags (run_events es c).1) c.closed (run_events es c).2 (
        subst
          (λ b.
            scan (record { closed = c.closed; shut = b }) (run_events es c).2
            ≡ some (flags (run_events es c).1))
          shut_down (run_events-scan c es))
