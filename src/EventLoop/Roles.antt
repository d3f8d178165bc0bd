-- ===== src/EventLoop/Roles.antt =====
-- Which process of Respond\Event\Loop::run gets which end of the socket pairs.
use respondphp.Base.{Bool, ℕ, ◌≡◌, ◌<◌, refl, none, some, List, true, ltb, arith}
use respondphp.Zend.{ℤ, pos, negsuc, Hash}
use respondphp.Manager.{
  TaskType, actor, worker, routine, worker_manager, routine_manager, Fork, parent, child, failed,
  Signal, Entered, waiting, returned, ended, init_worker_manager, init_routine_manager,
  do_init_worker_manager, do_init_routine_manager, heard, enter, after_run, forked_worker_manager,
  forked_routine_manager, supervise, Manager, make_forks, missing, rp_worker_max, rp_routine_max,
  supervises, stops, exits,
}
use respondphp.Reactor.{State, UvCall, reactors_count}
use respondphp.EventLoop.{
  RunMode, System, Descriptors, Outcome, manages, exited, reads_unset, returns, runs_loop,
  start_loop, enter_worker_manager, run, run_mode, go_on, tests_fd,
}

-- A process that leaves a manager does so in the manager's children's role.
abbrev Leaves : TaskType → Entered → Type 0
Leaves task (waiting count) = Unit {0}
Leaves task (returned t) = t ≡ task
Leaves task ended = Unit {0}

after_run-Leaves : (task : TaskType) (m : Manager) → Leaves task (after_run task m)
after_run-Leaves task (supervises count n) = tt
after_run-Leaves task (stops count n pid) = refl
after_run-Leaves task exits = tt

enter-Leaves :
    (fork : ℕ → Fork) (max : ℕ) (task : TaskType) (ss : List Signal) (r : Fork × ℕ × ℕ)
    → Leaves task (enter fork max task ss r)
unfolding enter
enter-Leaves fork max task ss (parent q, count, n) =
    after_run-Leaves task (supervise fork max ss count n)
enter-Leaves fork max task ss (child, count, n) = refl
enter-Leaves fork max task ss (failed, count, n) = refl

do_init_worker_manager-Leaves :
    (fork : ℕ → Fork) (ss : List Signal) → Leaves worker (do_init_worker_manager fork ss)
unfolding do_init_worker_manager
do_init_worker_manager-Leaves fork ss =
    enter-Leaves fork rp_worker_max worker ss (make_forks fork (missing rp_worker_max 0) 0 0)

do_init_routine_manager-Leaves :
    (pdeathsig : Bool) (fork : ℕ → Fork) (ss : List Signal)
    → Leaves routine (do_init_routine_manager pdeathsig fork ss)
unfolding do_init_routine_manager
do_init_routine_manager-Leaves pdeathsig fork ss =
    enter-Leaves fork rp_routine_max routine (heard pdeathsig ss)
      (make_forks fork (missing rp_routine_max 0) 0 0)

-- The ends that a process of each role holds: the actor the second ends, a worker the first ends
-- of the workers' pairs and the second of the routines', a routine the first end of its own.
abbrev pub ends : ℤ × ℤ → ℤ × ℤ → ℤ × ℤ → TaskType → Descriptors
ends rt ipc dat actor = record {
  worker_ipc_fd = some ipc.1;
  worker_data_fd = some dat.1;
  routine_ipc_fd = some rt.1;
}
ends rt ipc dat worker = record {
  worker_ipc_fd = some ipc.0;
  worker_data_fd = some dat.0;
  routine_ipc_fd = some rt.1;
}
ends rt ipc dat routine = record {
  worker_ipc_fd = some (pos 0);
  worker_data_fd = some (pos 0);
  routine_ipc_fd = some rt.0;
}
ends rt ipc dat worker_manager = record {
  worker_ipc_fd = none;
  worker_data_fd = none;
  routine_ipc_fd = none;
}
ends rt ipc dat routine_manager = record {
  worker_ipc_fd = none;
  worker_data_fd = none;
  routine_ipc_fd = none;
}

module _ ⦃h : Hash⦄ where
  -- A process in the loop holds its role's ends; one that returned early is the actor; and no
  -- process has read a variable that was not written.
  abbrev pub Connected : ℤ × ℤ → ℤ × ℤ → ℤ × ℤ → Outcome → Type 0
  Connected rt ipc dat (manages count) = Unit {0}
  Connected rt ipc dat exited = Unit {0}
  Connected rt ipc dat reads_unset = ⊥
  Connected rt ipc dat (returns task) = Unit {0}
  Connected rt ipc dat (runs_loop mode task fds s es) = fds ≡ ends rt ipc dat task

  go_on-Connected :
      (rt ipc dat : ℤ × ℤ) (task : TaskType) (e : Entered) (k : TaskType → Outcome)
      → Leaves task e
      → Connected rt ipc dat (k task)
      → Connected rt ipc dat (go_on e k)
  go_on-Connected rt ipc dat task (waiting count) k l c = tt
  go_on-Connected rt ipc dat task (returned t) k l c = rw l c
  go_on-Connected rt ipc dat task ended k l c = tt

  tests_fd-Connected :
      (rt ipc dat : ℤ × ℤ) (fd : ℤ) (task : TaskType) (next : Outcome)
      → Connected rt ipc dat next
      → Connected rt ipc dat (tests_fd (some fd) task next)
  tests_fd-Connected rt ipc dat (pos n) task next c = c
  tests_fd-Connected rt ipc dat (negsuc n) task next c = tt

  -- The two tests, and what comes after them.
  loop-Connected :
      (rt ipc dat : ℤ × ℤ) (sys : System) (task : TaskType) (mode : RunMode) (s : State)
      (fds : Descriptors) (w r : ℤ)
      → fds ≡ ends rt ipc dat task
      → Connected rt ipc dat
          (tests_fd (some w) task (tests_fd (some r) task (start_loop sys mode task s fds)))
  unfolding start_loop
  loop-Connected rt ipc dat sys task mode s fds w r e =
      tests_fd-Connected rt ipc dat w task _ (tests_fd-Connected rt ipc dat r task _ e)

  module _ (rt ipc dat : ℤ × ℤ) (manager_fork : ℕ → Fork) (signals : List Signal) (pdeathsig : Bool)
      (answer : UvCall → ℤ) where
    -- A system that gives every socket pair.
    abbrev pub connecting : (routine_fork worker_fork : Fork) → System
    connecting f g = record {
      routine_pair = some rt;
      ipc_pair = some ipc;
      data_pair = some dat;
      routine_fork = f;
      worker_fork = g;
      manager_fork = manager_fork;
      signals = signals;
      pdeathsig = pdeathsig;
      answer = answer;
    }

    actor-Connected :
        (f g : Fork) (mode : RunMode) (s : State)
        → Connected rt ipc dat (enter_worker_manager (connecting f g) mode s (some rt.1) actor)
    unfolding enter_worker_manager init_worker_manager forked_worker_manager
    actor-Connected f (parent p) mode s =
        loop-Connected rt ipc dat (connecting f (parent p)) actor mode s _ ipc.1 rt.1 refl
    actor-Connected f child mode s =
        go_on-Connected rt ipc dat worker _ _ (do_init_worker_manager-Leaves manager_fork signals)
          (loop-Connected rt ipc dat (connecting f child) worker mode s _ ipc.0 rt.1 refl)
    actor-Connected f failed mode s = tt

    -- Without a routine manager, nothing runs.
    none-Connected :
        (f g : Fork) (mode : RunMode) (s : State)
        → Connected rt ipc dat
            (enter_worker_manager (connecting f g) mode s (some (negsuc 0)) actor)
    unfolding enter_worker_manager init_worker_manager forked_worker_manager
    none-Connected f (parent p) mode s = tests_fd-Connected rt ipc dat ipc.1 actor _ tt
    none-Connected f child mode s =
        go_on-Connected rt ipc dat worker _ _ (do_init_worker_manager-Leaves manager_fork signals)
          (tests_fd-Connected rt ipc dat ipc.0 worker _ tt)
    none-Connected f failed mode s = tt

    routine-Connected :
        (f g : Fork) (mode : RunMode) (s : State)
        → Connected rt ipc dat (enter_worker_manager (connecting f g) mode s (some rt.0) routine)
    unfolding enter_worker_manager init_worker_manager
    routine-Connected f g mode s =
        loop-Connected rt ipc dat (connecting f g) routine mode s _ (pos 0) rt.0 refl

    fork-Connected :
        (f g : Fork) (option : ℤ) (s : State)
        → ltb 0 (reactors_count s) ≡ true
        → Connected rt ipc dat (run (connecting f g) option actor s)
    unfolding run init_routine_manager forked_routine_manager
    fork-Connected (parent p) g option s n = rw n (actor-Connected (parent p) g _ s)
    fork-Connected child g option s n = rw n (
        go_on-Connected rt ipc dat routine _ _
          (do_init_routine_manager-Leaves pdeathsig manager_fork signals)
          (routine-Connected child g _ s))
    fork-Connected failed g option s n = rw n (none-Connected failed g (run_mode option) s)

    -- With a server, and with all three socket pairs, no process of `run` tests a descriptor that was
    -- not written, whatever the forks answer and whatever signals the managers get; and a process that
    -- comes to run its loop holds the ends of its role: the actor the second ends, a worker the first
    -- ends of the workers' pairs, and a routine the first end of the routines' pair.
    pub run-Connected :
        (f g : Fork) (option : ℤ) (s : State)
        → 0 < reactors_count s
        → Connected rt ipc dat (run (connecting f g) option actor s)
    run-Connected f g option s n = fork-Connected f g option s (ground arith)

    -- Where the second socket pair of the workers cannot be made, the actor, with a server and with a
    -- routine manager, tests `worker_ipc_fd` although nothing wrote it.
    run-reads_unset :
        (p : ℕ) (g : Fork) (option : ℤ) (s : State)
        → 0 < reactors_count s
        → run (record (connecting (parent p) g) { data_pair = none }) option actor s ≡ reads_unset
    unfolding run init_routine_manager forked_routine_manager enter_worker_manager
        init_worker_manager
    run-reads_unset p g option s n =
        let more : ltb 0 (reactors_count s) ≡ true = ground arith in rw more refl
