-- ===== src/Server/Routine/Executions.antt =====
-- src/server/routine.c: the executions of the actor over any history.
use respondphp.Base.{
  ℕ, ◌≡◌, ◌≢◌, refl, sym, subst, Option, none, some, List, [], ◌++◌, Bytes, arith,
}
use respondphp.Zend.{Zval, Hash, find-init}
use respondphp.Reactor.{Reactor}
use respondphp.Server.Routine.{
  Effect, Phase, deferred, reading, closing, Execution, RoutineServer, Stepped, create_resource,
}
use respondphp.Server.Routine.Sound.{IsSound, After}
use respondphp.Server.Routine.Events.{
  Event, executes, runs_deferred, frees_deferred, reads, closed, InPhase, Allowed, handle,
}
use respondphp.Server.Routine.Starting.{
  executes-IsSound, runs_deferred-IsSound, frees_deferred-IsSound,
}
use respondphp.Server.Routine.Finishing.{reads-IsSound, closed-IsSound}

module _ ⦃h : Hash⦄ where
  open h use {Table, find, update, del, next_free, next_free-fresh, init}

  module _ (serialize : Zval → Bytes) (unserialize : Bytes → Zval) where
    in_phase :
        (phase : Phase) (d : Option Execution)
        → InPhase phase d
        → (c : Execution) × (d ≡ some c) × (c.phase ≡ phase)
    in_phase phase none a = absurd a
    in_phase phase (some c) a = (c, refl, a)

    handle-IsSound :
        (e : Event) (r : RoutineServer) (log : List Effect)
        → IsSound r log
        → Allowed e r
        → After log (handle serialize unserialize e r)
    handle-IsSound (executes args) r log s a = executes-IsSound serialize unserialize args r log s
    handle-IsSound (runs_deferred other routine_pipe p) r log s a =
        let (c, at_p, phase) = in_phase deferred (r.cells p) a in
        runs_deferred-IsSound serialize unserialize other routine_pipe p r log c s at_p phase
    handle-IsSound (frees_deferred p) r log s a =
        let (c, at_p, phase) = in_phase deferred (r.cells p) a in
        frees_deferred-IsSound serialize unserialize p r log c s at_p phase
    handle-IsSound (reads p status bytes) r log s a =
        let (c, at_p, phase) = in_phase reading (r.cells p) a in
        reads-IsSound serialize unserialize p status bytes r log c s at_p phase
    handle-IsSound (closed p) r log s a =
        let (c, at_p, phase) = in_phase closing (r.cells p) a in
        closed-IsSound serialize unserialize p r log c s at_p phase

    -- What a server comes to from its creation on, with all that was done.
    pub data Reach (reactor : Reactor) : RoutineServer → List Effect → Type 0 where
      start : Reach reactor (create_resource reactor) []
      next :
          {r r1 : RoutineServer} {log log1 es : List Effect}
          → Reach reactor r log
          → (e : Event) → Allowed e r
          → handle serialize unserialize e r ≡ some (r1, es)
          → log1 ≡ log ++ es
          → Reach reactor r1 log1

    create_resource-IsSound : (reactor : Reactor) → IsSound (create_resource reactor) []
    unfolding create_resource
    create_resource-IsSound reactor = record {
      accounted = λ p. ground arith;
      listed = λ p. tt;
      holds = λ k p e. let gone : none ≡ some p = rw (find-init {V = ℕ} k) at e in cc;
    }

    pub Reach-sound :
        {reactor : Reactor} {r : RoutineServer} {log : List Effect}
        → Reach reactor r log
        → IsSound r log
    Reach-sound {reactor} start = create_resource-IsSound reactor
    Reach-sound (next {r} {r1} {log} {log1} {es} before e a h same) =
        subst (IsSound r1) (sym same)
          (subst (After log) h (handle-IsSound e r log (Reach-sound before) a))

    -- Over any history of executions, in any interleaving, nothing faults that the reactor and libuv
    -- may do next. The table holds exactly the executions that have their pipe, each under its own
    -- index. The promise of an execution is resolved once at most, and not before its pipe is given
    -- to uv_close; the execution is freed and its promise dropped once, when the pipe is closed or
    -- when its deferred work is freed.
    pub Reach-IsSound :
        {reactor : Reactor} {r : RoutineServer} {log : List Effect} (reach : Reach reactor r log)
        (e : Event)
        → Allowed e r
        → IsSound r log × (handle serialize unserialize e r ≢ none)
    Reach-IsSound {r = r} {log} reach e a = (
      Reach-sound reach,
      not_none (handle serialize unserialize e r) (handle-IsSound e r log (Reach-sound reach) a),
    )
      where
        not_none : (o : Stepped) → After log o → o ≢ none
        not_none none a = absurd a
        not_none (some x) a = λ g. cc
