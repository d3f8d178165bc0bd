-- ===== src/Server/Routine/RoundTrip.antt =====
-- src/server/routine.c with the pipes of src/reactor.c: one execution, from the actor to a routine
-- and back.
use respondphp.Base.{ℕ, Option, none, some, List, [], ◌∷◌, ◌++◌, Bytes, Bool, true, length}
use respondphp.Zend.{Zval, pos, Hash}
use respondphp.Reactor.Messages.{MsgEffect, writes_with_handle, calls_accepted, ipc_receive}
use respondphp.Server.Routine.Reply.{Reply, writes, accepted_cb}
use respondphp.Server.Routine.{
  Effect, resolves, sends, RoutineServer, execute, routine_async_cb, routine_result_read_cb,
}

-- What the actor sends, what a routine's accepted callback gets of a message, what it writes, and
-- which promises are resolved with what.
abbrev sent : List Effect → List MsgEffect
sent [] = []
sent (sends ms ∷ es) = ms ++ sent es
sent (_ ∷ es) = sent es

abbrev accepted_data : List MsgEffect → List Bytes
accepted_data [] = []
accepted_data (calls_accepted r client bytes ∷ es) = bytes ∷ accepted_data es
accepted_data (_ ∷ es) = accepted_data es

abbrev written : List Reply → List Bytes
written [] = []
written (writes bytes ∷ es) = bytes ∷ written es
written (_ ∷ es) = written es

abbrev resolutions : List Effect → List (ℕ × Zval)
resolutions [] = []
resolutions (resolves p v ∷ es) = (p, v) ∷ resolutions es
resolutions (_ ∷ es) = resolutions es

-- The parameter that the function is to get.
abbrev pub given : Option Zval → Zval
given none = Zval.null
given (some v) = v

module _ ⦃h : Hash⦄ (serialize : Zval → Bytes) (unserialize : Bytes → Zval)
    (function : Zval → Zval) where
  answers : (initialized : Bool) → List Bytes → List Bytes
  unfolding accepted_cb
  answers initialized [] = []
  answers initialized (b ∷ bs) =
      written (accepted_cb serialize unserialize function initialized b) ++ answers initialized bs

  -- What a routine answers to the messages of the actor: `base` is its buffer, `client` its client.
  pub replies : (initialized : Bool) (base client : ℕ) → List MsgEffect → List Bytes
  unfolding ipc_receive answers
  replies initialized base client [] = []
  replies initialized base client (writes_with_handle ext len other pipe ∷ ms) =
      answers initialized (accepted_data (ipc_receive 1 base ext client true))
      ++ replies initialized base client ms
  replies initialized base client (_ ∷ ms) = replies initialized base client ms

  -- What the actor does with the first part of each reply, `cut`, for the execution at `p`.
  results : (cut : Bytes → Bytes) (p : ℕ) → RoutineServer → List Bytes → List (ℕ × Zval)
  unfolding routine_result_read_cb
  results cut p r [] = []
  results cut p r (b ∷ bs) =
      elim (routine_result_read_cb unserialize p (pos (length (cut b))) (cut b) r) [
        | none ↦ []
        | some (r1, es) ↦ resolutions es ++ results cut p r1 bs
      ]

  -- The deferred work of the execution at `p`, the routine, and the answer.
  dispatch :
      (cut : Bytes → Bytes) (initialized : Bool) (base client other routine_pipe p : ℕ)
      → RoutineServer
      → List (ℕ × Zval)
  unfolding routine_async_cb replies results
  dispatch cut initialized base client other routine_pipe p r =
      elim (routine_async_cb other routine_pipe p r) [
        | none ↦ []
        | some (r1, es) ↦ results cut p r1 (replies initialized base client (sent es))
      ]

  -- One execution as a whole, from the PHP method on.
  pub round_trip :
      (cut : Bytes → Bytes) (initialized : Bool) (base client other routine_pipe : ℕ)
      → Option Zval
      → RoutineServer
      → List (ℕ × Zval)
  unfolding execute dispatch
  round_trip cut initialized base client other routine_pipe args r =
      dispatch cut initialized base client other routine_pipe r.next (execute serialize args r).0
