-- ===== src/EventLoop.antt =====
-- src/event_loop.c: the class Respond\Event\Loop. `run` is followed in every process that comes
-- out of it: the actor, and the children that the managers fork.
pub mod Roles
use respondphp.Base.{ℕ, ◌==◌, Option, none, some, List, Bool, true, false, if◌then◌else◌, ◌||◌, ltb}
use respondphp.Zend.{ℤ, pos, negsuc, Hash, Zval, null, handle}
use respondphp.Manager.{
  TaskType, Fork, Signal, Entered, waiting, returned, ended, Startup, init_worker_manager,
  init_routine_manager, do_init_worker_manager, do_init_routine_manager,
}
use respondphp.Reactor.{State, Effect, UvCall, is_negative, reactors_count, init_reactor}

-- `uv_run_mode`
pub data RunMode : Type 0 where
  uv_run_default uv_run_once uv_run_nowait : RunMode

-- The `switch` on the option, where RUN_DEFAULT is 0, RUN_ONCE 1 and RUN_NOWAIT 2.
unfoldable pub run_mode : ℤ → RunMode
run_mode (pos n) =
    if n == 1 then uv_run_once else (if n == 2 then uv_run_nowait else uv_run_default)
run_mode (negsuc n) = uv_run_default

-- What the system answers: the socket pairs, the forks of the two entry functions, and what
-- happens in the managers.
pub record System : Type 0 where
  pub routine_pair : Option (ℤ × ℤ)
  pub ipc_pair : Option (ℤ × ℤ)
  pub data_pair : Option (ℤ × ℤ)
  pub routine_fork : Fork
  pub worker_fork : Fork
  pub manager_fork : ℕ → Fork
  pub signals : List Signal
  -- HAVE_PR_SET_PDEATHSIG
  pub pdeathsig : Bool
  pub answer : UvCall → ℤ

-- `worker_ipc_fd`, `worker_data_fd` and `routine_ipc_fd`; `none` was never written.
pub record Descriptors : Type 0 where
  pub worker_ipc_fd : Option ℤ
  pub worker_data_fd : Option ℤ
  pub routine_ipc_fd : Option ℤ

-- The task type in which a process comes back from an entry function, if it does.
abbrev pub role_after : Startup → TaskType → Entered → Entered
role_after r task entered = if r.in_child then entered else returned task

module _ ⦃h : Hash⦄ where
  -- How `run` goes on in one process.
  pub data Outcome : Type 0 where
    -- the process stays in a manager, with this many children, or exits there
    manages : ℕ → Outcome
    exited : Outcome
    -- the test of the descriptors reads a variable that was never written
    reads_unset : Outcome
    -- `run` returns without a loop
    returns : TaskType → Outcome
    -- `uv_run`, after rp_init_reactor
    runs_loop : RunMode → TaskType → Descriptors → State → List Effect → Outcome

  abbrev pub go_on : Entered → (TaskType → Outcome) → Outcome
  go_on (waiting count) k = manages count
  go_on (returned task) k = k task
  go_on ended k = exited

  -- `worker_ipc_fd < 0 || routine_ipc_fd < 0`
  abbrev pub tests_fd : Option ℤ → TaskType → Outcome → Outcome
  tests_fd none task next = reads_unset
  tests_fd (some fd) task next = if is_negative fd then returns task else next

  unfoldable pub start_loop : System → RunMode → TaskType → State → Descriptors → Outcome
  unfolding init_reactor
  start_loop sys mode task s fds =
      let (s1, es) = init_reactor sys.answer task s in runs_loop mode task fds s1 es

  unfoldable pub enter_worker_manager : System → RunMode → State → Option ℤ → TaskType → Outcome
  unfolding start_loop init_worker_manager do_init_worker_manager
  enter_worker_manager sys mode s routine_fd task =
      let w = init_worker_manager task sys.ipc_pair sys.data_pair sys.worker_fork in
      go_on (role_after w task (do_init_worker_manager sys.manager_fork sys.signals)) (λ role.
        tests_fd w.ipc_fd role (
          tests_fd routine_fd role (
            start_loop sys mode role s (record {
              worker_ipc_fd = w.ipc_fd;
              worker_data_fd = w.data_fd;
              routine_ipc_fd = routine_fd;
            }))))

  unfoldable pub run : System → ℤ → TaskType → State → Outcome
  unfolding run_mode start_loop enter_worker_manager init_routine_manager do_init_routine_manager
      reactors_count
  run sys option task s =
      if ltb 0 (reactors_count s)
      then (let r = init_routine_manager task sys.routine_pair sys.routine_fork in
          go_on
            (role_after r task (do_init_routine_manager sys.pdeathsig sys.manager_fork sys.signals))
            (enter_worker_manager sys (run_mode option) s r.ipc_fd))
      else start_loop sys (run_mode option) task s
          (record { worker_ipc_fd = none; worker_data_fd = none; routine_ipc_fd = none })

-- `end`: the signal that is sent, to the actor; `alive`: what uv_loop_alive returns.
pub data Kill : Type 0 where
  sigint : (pid : ℕ) → Kill

unfoldable pub end : (actor_pid : ℕ) → Kill
end actor_pid = sigint actor_pid

unfoldable pub alive : ℤ → Zval
alive answer = Zval.long answer

-- `create`: the static property, and what `object_init_ex` would give. The same object ever after.
unfoldable pub create : Zval → ℕ → Zval × Zval
create null fresh = (handle fresh, handle fresh)
create instance_of fresh = (instance_of, instance_of)
