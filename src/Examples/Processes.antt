-- ===== src/Examples/Processes.antt =====
-- The managers, the event loop and the messages between processes at concrete answers.
use respondphp.Base.{
  ℕ, ◌+◌, ◌<◌, ◌≡◌, refl, none, some, List, [], ◌∷◌, ◌++◌, codes, true, false, arith, if◌then◌else◌,
  ltb, ◌⊎◌,
}
use respondphp.Zend.{ℤ, pos, next_insert, assoc_set}
use respondphp.Zend.Ordered.{ordered}
use respondphp.Manager.{
  Fork, parent, child, failed, Signal, sigchld, other_signal, actor, worker, do_init_worker_manager,
  rp_worker_max,
}
use respondphp.Manager.Supervision.{InRole, do_init_worker_manager-InRole}
use respondphp.Reactor.{
  State, AsyncInit, reactors_init, reactors_add_new, reactors_count, init_reactor, reactor_init,
  UvCall,
}
use respondphp.Reactor.Deferral.{register, calls_of, init_reactor-register}
use respondphp.Reactor.Messages.{
  Ext, send_request, make_ext, count_frees, ipc_receive, actor_ipc_receive,
}
use respondphp.Server.Udp.Buffers.{frees_of_sends, received-frees}
use respondphp.Timer
use respondphp.Timer.{
  Timer, alive, faulted, deferred_work, fires, cancels, defers, inits, starts, resolves,
  drops_promise, timeout, timer_cb, timer_async_cb,
}
use respondphp.Timer.Settling.{settled, freed_times, life, life-settled}
use respondphp.EventLoop.{run}
use respondphp.EventLoop.Roles.{Connected, connecting, run-Connected}

-- The first seven calls make a child, and the later ones fail.
abbrev forks : ℕ → Fork
forks n = if ltb n 7 then parent (100 + n) else failed

abbrev signals : List Signal
signals = sigchld 2 ∷ other_signal ∷ sigchld 1 ∷ []

do_init_worker_manager-InRole_example :
    InRole rp_worker_max worker (do_init_worker_manager forks signals)
do_init_worker_manager-InRole_example =
    do_init_worker_manager-InRole forks signals (omega arith, (omega arith, tt))

abbrev answers : UvCall → ℤ
answers c = pos 0

abbrev one_server : State
unfolding reactors_add_new
one_server = reactors_add_new reactors_init 3 (λ r. r)

one_server-count : 0 < reactors_count one_server
unfolding one_server reactors_add_new reactors_init reactors_count ordered next_insert assoc_set
one_server-count = omega arith

run-Connected_example :
    Connected
      (pos 3, pos 4)
      (pos 5, pos 6)
      (pos 7, pos 8)
      (run
        (connecting
          (pos 3, pos 4)
          (pos 5, pos 6)
          (pos 7, pos 8)
          forks
          signals
          true
          answers
          (parent 9)
          child)
        (pos 0)
        actor
        one_server)
run-Connected_example =
    run-Connected (pos 3, pos 4) (pos 5, pos 6) (pos 7, pos 8) forks signals true answers (parent 9)
      child (pos 0) one_server one_server-count

abbrev work : List AsyncInit
work =
    record { init_callback = some 1; free_callback = none; argument = 10 }
    ∷ record { init_callback = none; free_callback = some 2; argument = 20 }
    ∷ []

not_inited : (reactors_init).loop_inited ≡ false
unfolding reactors_init
not_inited = refl

init_reactor-register_example :
    (init_reactor answers actor (register reactors_init work).0).1
    ≡ (init_reactor answers actor reactors_init).1 ++ calls_of work
init_reactor-register_example = init_reactor-register answers reactors_init work not_inited

abbrev message : Ext
unfolding reactor_init
message = make_ext (reactor_init 0) (codes "hi")

received-frees_example :
    (count_frees 1 (ipc_receive 1 1 message 2 true) ≡ 1)
    × (count_frees 1 (actor_ipc_receive 1 (pos 40) 1 message (send_request (codes "hi")) 2 true)
          + frees_of_sends
              (pos 0)
              (pos 0)
              (actor_ipc_receive 1 (pos 40) 1 message (send_request (codes "hi")) 2 true)
        ≡ 1)
received-frees_example =
    received-frees 1 1 2 (pos 40) (pos 0) (pos 0) message (send_request (codes "hi")) true
      (omega arith)

abbrev fired : Timer
fired = record { milliseconds = pos 5; freed = true }

abbrev fired_effects : List Timer.Effect
fired_effects =
    defers ∷ inits ∷ starts (pos 5) ∷ resolves (pos 0) ∷ drops_promise ∷ Timer.frees ∷ []

fires_once : life (pos 5) (deferred_work (pos 0) ∷ fires ∷ []) ≡ alive fired fired_effects
unfolding life Timer.run Timer.handle timeout timer_cb timer_async_cb
fires_once = refl

life-settled_example :
    ((fired.freed ≡ false) × (settled fired_effects ≡ 0) × (freed_times fired_effects ≡ 0))
    ⊎ ((fired.freed ≡ true)
        × (settled fired_effects ≡ 1)
        × (freed_times fired_effects ≡ 1)
        × (life (pos 5) ((deferred_work (pos 0) ∷ fires ∷ []) ++ cancels ∷ []) ≡ faulted))
life-settled_example =
    life-settled (pos 5) (deferred_work (pos 0) ∷ fires ∷ []) cancels fired fired_effects fires_once
