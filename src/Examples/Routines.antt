-- ===== src/Examples/Routines.antt =====
-- src/server/routine.c at a small serialization.
use respondphp.Base.{
  ℕ, ◌≢◌, refl, none, some, List, [], ◌∷◌, ◌++◌, Bytes, codes, true, false, if◌then◌else◌, ◌==◌,
}
use respondphp.Zend.{Zval, pos, negsuc}
use respondphp.Zend.Ordered.{ordered}
use respondphp.Reactor.{Reactor, reactor_init}
use respondphp.Server.Routine.{
  RoutineServer, Effect, create_resource, execute, routine_async_cb, routine_execution_add,
}
use respondphp.Server.Routine.Sound.{IsSound}
use respondphp.Server.Routine.Events.{executes, runs_deferred, handle}
use respondphp.Server.Routine.Executions.{Reach, start, next, Reach-IsSound}
use respondphp.Server.Routine.Release.{free_resource, Disposed, free-Disposes}

-- A tag, and what stands under it.
abbrev serialize : Zval → Bytes
serialize Zval.null = 0 ∷ []
serialize (Zval.bool false) = 1 ∷ []
serialize (Zval.bool true) = 2 ∷ []
serialize (Zval.long (pos n)) = 3 ∷ n ∷ []
serialize (Zval.long (negsuc n)) = 4 ∷ n ∷ []
serialize (Zval.string bytes) = 5 ∷ bytes
serialize (Zval.handle n) = 6 ∷ n ∷ []

abbrev head : Bytes → ℕ
head [] = 0
head (n ∷ bytes) = n

abbrev unserialize : Bytes → Zval
unserialize [] = Zval.bool false
unserialize (tag ∷ bytes) =
    if tag == 0
    then Zval.null
    else if tag == 1
    then Zval.bool false
    else if tag == 2
    then Zval.bool true
    else if tag == 3
    then Zval.long (pos (head bytes))
    else if tag == 4
    then Zval.long (negsuc (head bytes))
    else if tag == 5
    then Zval.string bytes
    else Zval.handle (head bytes)

abbrev a_reactor : Reactor
unfolding reactor_init
a_reactor = reactor_init 0

abbrev server : RoutineServer
unfolding create_resource
server = create_resource a_reactor

abbrev work_value : Zval
work_value = Zval.string (codes "work")

abbrev begun : RoutineServer
unfolding execute server
begun = (execute serialize (some Zval.null) server).0

abbrev begun_log : List Effect
unfolding execute server
begun_log = (execute serialize (some Zval.null) server).1

begun-Reach : Reach serialize unserialize a_reactor begun begun_log
unfolding handle begun server begun_log
begun-Reach = next start (executes (some Zval.null)) tt refl refl

Reach-IsSound_example :
    IsSound begun begun_log × (handle serialize unserialize (runs_deferred 1 2 0) begun ≢ none)
unfolding begun server
Reach-IsSound_example = Reach-IsSound serialize unserialize begun-Reach (runs_deferred 1 2 0) refl

abbrev running : RoutineServer
unfolding begun server handle routine_async_cb routine_execution_add execute
running = elim (handle serialize unserialize (runs_deferred 1 2 0) begun) [
  | none ↦ begun
  | some (r, es) ↦ r
]

abbrev running_log : List Effect
unfolding begun server handle routine_async_cb routine_execution_add execute
running_log = elim (handle serialize unserialize (runs_deferred 1 2 0) begun) [
  | none ↦ []
  | some (r, es) ↦ begun_log ++ es
]

running-Reach : Reach serialize unserialize a_reactor running running_log
unfolding running running_log begun begun_log server handle routine_async_cb routine_execution_add
    execute
running-Reach = next begun-Reach (runs_deferred 1 2 0) refl refl refl

-- The object is freed while the answer of its execution is awaited.
free-Disposes_example : Disposed running running_log (free_resource running)
free-Disposes_example = free-Disposes serialize unserialize running-Reach
