-- ===== src/Server/Routine/Events.antt =====
-- src/server/routine.c: what happens to the executions of the actor, in any order.
use respondphp.Base.{ℕ, ◌≡◌, Option, none, some, Bytes}
use respondphp.Zend.{Zval, ℤ, Hash}
use respondphp.Server.Routine.{
  Phase, deferred, reading, closing, Execution, RoutineServer, Stepped, execute, routine_async_cb,
  routine_async_cb_worker_free, routine_result_read_cb, routine_result_close_cb,
}

module _ ⦃h : Hash⦄ where
  open h use {Table, find, update, del, next_free, next_free-fresh, init}

  -- What PHP code, the deferred work and libuv do.
  pub data Event : Type 0 where
    executes : Option Zval → Event
    runs_deferred : (other routine_pipe p : ℕ) → Event
    frees_deferred : ℕ → Event
    reads : ℕ → ℤ → Bytes → Event
    closed : ℕ → Event

  abbrev pub InPhase : Phase → Option Execution → Type 0
  InPhase phase none = ⊥
  InPhase phase (some c) = c.phase ≡ phase

  -- The reactor does its work or frees it, once; libuv reads from a pipe until it is given to
  -- uv_close, and calls the close callback after that.
  abbrev pub Allowed : Event → RoutineServer → Type 0
  Allowed (executes args) r = Unit {0}
  Allowed (runs_deferred other routine_pipe p) r = InPhase deferred (r.cells p)
  Allowed (frees_deferred p) r = InPhase deferred (r.cells p)
  Allowed (reads p status bytes) r = InPhase reading (r.cells p)
  Allowed (closed p) r = InPhase closing (r.cells p)

  module _ (serialize : Zval → Bytes) (unserialize : Bytes → Zval) where
    unfoldable pub handle : Event → RoutineServer → Stepped
    unfolding execute routine_async_cb routine_async_cb_worker_free routine_result_read_cb
        routine_result_close_cb
    handle (executes args) r = some (execute serialize args r)
    handle (runs_deferred other routine_pipe p) r = routine_async_cb other routine_pipe p r
    handle (frees_deferred p) r = routine_async_cb_worker_free p r
    handle (reads p status bytes) r = routine_result_read_cb unserialize p status bytes r
    handle (closed p) r = routine_result_close_cb p r
