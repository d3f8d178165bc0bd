-- ===== src/StreamConnection/Behaviour.antt =====
-- What single calls of src/stream/connection.c do, on every branch.
use respondphp.Base.{
  ◌≡◌, sym, ◌∙◌, Option, none, some, [], Bytes, Bool, true, false, not, List, arith,
}
use respondphp.Zend.{Hash}
use respondphp.StreamConnection.{
  Connection, close_method, write_method, end_method, Event, run_events,
}
use respondphp.StreamConnection.Safety.{run_events-shut}

module _ ⦃h : Hash⦄ where
  -- Every method returns FALSE, asks nothing of libuv and changes nothing.
  pub record Inert (c : Connection) : Type 0 where
    pub no_close : close_method c ≡ (false, c, [])
    pub no_write : (ok : Bool) (d : Bytes) → write_method ok d c ≡ (false, c, [])
    pub no_end : (d : Option Bytes) (p q : Bool) → end_method d p q c ≡ (false, c, [])

  shut-Inert : (c : Connection) → c.shut ≡ true → Inert c
  unfolding close_method write_method end_method
  shut-Inert c s = record {
    no_close = ground arith;
    no_write = λ ok d. ground arith;
    no_end = λ d p q. ground arith;
  }

  end_method-shut :
      (c : Connection) (b : Option Bytes) (write_ok shutdown_ok : Bool)
      → (end_method b write_ok shutdown_ok c).0 ≡ true
      → (end_method b write_ok shutdown_ok c).1.shut ≡ true
  unfolding end_method
  end_method-shut c none write_ok shutdown_ok e = ground arith
  end_method-shut c (some b) write_ok shutdown_ok e = ground arith

  end_method-answers :
      (c : Connection) (b : Option Bytes) (write_ok shutdown_ok : Bool)
      → (end_method b write_ok shutdown_ok c).0 ≡ (end_method b write_ok (not shutdown_ok) c).0
  unfolding end_method
  end_method-answers c none write_ok shutdown_ok = ground arith
  end_method-answers c (some b) write_ok shutdown_ok = ground arith

  -- Where `end` returns TRUE, it returns TRUE whatever uv_shutdown answers; and from then on,
  -- whatever libuv and PHP code do, every `close`, `write` and `end` returns FALSE and has no effect
  -- at all.
  pub end_method-Inert :
      (c : Connection) (b : Option Bytes) (write_ok shutdown_ok : Bool)
      → (end_method b write_ok shutdown_ok c).0 ≡ true
      → (es : List Event)
      → ((end_method b write_ok (not shutdown_ok) c).0 ≡ true)
        × Inert (run_events es (end_method b write_ok shutdown_ok c).1).1
  end_method-Inert c b write_ok shutdown_ok e es = (
    sym (end_method-answers c b write_ok shutdown_ok) ∙ e,
    shut-Inert _ (run_events-shut _ es (end_method-shut c b write_ok shutdown_ok e)),
  )
