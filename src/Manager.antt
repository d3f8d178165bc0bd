-- ===== src/Manager.antt =====
-- src/worker_manager.c and src/routine_manager.c: the two processes that keep a fixed number of
-- children alive. The two files have the same fork loop, reaper and signal handler, which are
-- modelled once, and an entry function each.
pub mod Supervision
use respondphp.Base.{
  ℕ, zero, suc, ◌+◌, ◌-◌, ◌%◌, ◌^◌, Option, none, some, List, [], ◌∷◌, Bool, true, false,
  if◌then◌else◌, ltb, leb,
}
use respondphp.Zend.{ℤ, pos, negsuc}

-- `rp_task_type_t`
pub data TaskType : Type 0 where
  actor worker_manager worker routine_manager routine : TaskType

-- RP_WORKER_MAX and RP_ROUTINE_MAX
abbrev pub rp_worker_max : ℕ
rp_worker_max = 5

abbrev pub rp_routine_max : ℕ
rp_routine_max = 5

-- What `fork` returns: the pid of the child, 0 in the child, or -1.
pub data Fork : Type 0 where
  parent : ℕ → Fork
  child : Fork
  failed : Fork

abbrev pub is_parent : Fork → Bool
is_parent (parent p) = true
is_parent child = false
is_parent failed = false

-- `uint` arithmetic
abbrev pub u32 : ℕ → ℕ
u32 n = n % 2 ^ 32

-- The rounds of `for(i = 0; i < n; i++)` for the `int n` that the difference of two `uint`
-- becomes: a difference of 2^31 and more is a negative number.
unfoldable pub missing : ℕ → ℕ → ℕ
missing max count = let d = u32 (max + 2 ^ 32 - count) in if ltb d (2 ^ 31) then d else 0

-- `fork` answers its n-th call in this process by `fork n`.
module _ (fork : ℕ → Fork) where
  -- The loop of `makeForks`: the rounds left, the last pid, the count and the calls made.
  unfoldable pub make_forks_loop : ℕ → Fork → ℕ → ℕ → Fork × ℕ × ℕ
  make_forks_loop zero pid count n = (pid, count, n)
  make_forks_loop (suc r) pid count n = elim (fork n) [
    | parent p ↦ make_forks_loop r (parent p) (u32 (count + 1)) (n + 1)
    | child ↦ (child, count, n + 1)
    | failed ↦ (failed, count, n + 1)
  ]

  unfoldable pub make_forks : ℕ → ℕ → ℕ → Fork × ℕ × ℕ
  unfolding make_forks_loop
  make_forks rounds count n = make_forks_loop rounds (parent 1) count n

-- wait_all_children: `waitpid` gives this many pids, then 0 or -1.
unfoldable pub wait_all_children : ℕ → ℕ → ℕ
wait_all_children zero count = count
wait_all_children (suc k) count = wait_all_children k (u32 (count + 2 ^ 32 - 1))

-- The signals that the handler tells apart.
pub data Signal : Type 0 where
  sigchld : ℕ → Signal
  sighup : Signal
  other_signal : Signal

-- What the manager process is after a signal: it goes on, its loop is stopped, or it has exited.
pub data Manager : Type 0 where
  supervises : (count calls : ℕ) → Manager
  stops : (count calls : ℕ) → Fork → Manager
  exits : Manager

-- The end of the SIGCHLD case: the parent returns, all others stop the signal and the loop.
unfoldable pub after_forks : Fork × ℕ × ℕ → Manager
after_forks (pid, count, n) = if is_parent pid then supervises count n else stops count n pid

-- The loop takes the next signal only while it runs.
abbrev pub while_running : Manager → (ℕ → ℕ → Manager) → Manager
while_running (supervises count n) k = k count n
while_running (stops count n pid) k = stops count n pid
while_running exits k = exits

module _ (fork : ℕ → Fork) (max : ℕ) where
  unfoldable pub signal_chld_handler : Signal → ℕ → ℕ → Manager
  unfolding wait_all_children make_forks missing after_forks
  signal_chld_handler (sigchld reaped) count n =
      let left = wait_all_children reaped count in
      after_forks (make_forks fork (missing max left) left n)
  signal_chld_handler sighup count n = exits
  signal_chld_handler other_signal count n = supervises count n

  -- `uv_run` over the signals that arrive, until the loop is stopped.
  unfoldable pub supervise : List Signal → ℕ → ℕ → Manager
  unfolding signal_chld_handler
  supervise [] count n = supervises count n
  supervise (s ∷ ss) count n = while_running (signal_chld_handler s count n) (supervise ss)

-- What a process that entered `rp_do_init_…_manager` comes to: it supervises still, it has
-- returned with a task type, or it has exited.
pub data Entered : Type 0 where
  waiting : ℕ → Entered
  returned : TaskType → Entered
  ended : Entered

-- The loop over, the process goes on behind the `if`.
abbrev pub after_run : TaskType → Manager → Entered
after_run task (supervises count n) = waiting count
after_run task (stops count n pid) = returned task
after_run task exits = ended

-- The first forks, and then the loop, for the parent alone. `rp_worker_count` is 0 at the start.
module _ (fork : ℕ → Fork) (max : ℕ) (task : TaskType) (signals : List Signal) where
  unfoldable pub enter : Fork × ℕ × ℕ → Entered
  unfolding supervise
  enter (pid, count, n) =
      if is_parent pid then after_run task (supervise fork max signals count n) else returned task

unfoldable pub do_init_worker_manager : (ℕ → Fork) → List Signal → Entered
unfolding make_forks missing enter
do_init_worker_manager fork signals =
    enter fork rp_worker_max worker signals (make_forks fork (missing rp_worker_max 0) 0 0)

-- With HAVE_PR_SET_PDEATHSIG the handle that waits for SIGCHLD is started again for SIGHUP, and a
-- handle waits for one signal: SIGCHLD does not reach the handler any more.
abbrev pub heard : (pdeathsig : Bool) → List Signal → List Signal
heard pdeathsig [] = []
heard false (s ∷ ss) = s ∷ ss
heard true (sigchld reaped ∷ ss) = other_signal ∷ heard true ss
heard true (sighup ∷ ss) = sighup ∷ heard true ss
heard true (other_signal ∷ ss) = other_signal ∷ heard true ss

unfoldable pub do_init_routine_manager : (pdeathsig : Bool) → (ℕ → Fork) → List Signal → Entered
unfolding make_forks missing enter
do_init_routine_manager pdeathsig fork signals =
    enter fork rp_routine_max routine (heard pdeathsig signals)
      (make_forks fork (missing rp_routine_max 0) 0 0)

-- What an entry function leaves in the caller's variables (`none`: not written), the descriptors
-- that it closed, and the role in which it returns: the caller's own, or that of the new process,
-- which goes through `rp_do_init_…_manager` first.
pub record Startup : Type 0 where
  pub ipc_fd : Option ℤ
  pub data_fd : Option ℤ
  pub closed_fds : List ℤ
  pub in_child : Bool

abbrev pub is_actor : TaskType → Bool
is_actor actor = true
is_actor _ = false

abbrev pub unwritten : Startup
unwritten = record { ipc_fd = none; data_fd = none; closed_fds = []; in_child = false }

-- rp_init_worker_manager, behind the two calls of `socketpair`
unfoldable pub forked_worker_manager : ℤ × ℤ → ℤ × ℤ → Fork → Startup
forked_worker_manager ipc dat failed = record {
  ipc_fd = some (negsuc 0);
  data_fd = some (negsuc 0);
  closed_fds = [];
  in_child = false;
}
forked_worker_manager ipc dat (parent p) = record {
  ipc_fd = some ipc.1;
  data_fd = some dat.1;
  closed_fds = ipc.0 ∷ dat.0 ∷ [];
  in_child = false;
}
forked_worker_manager ipc dat child = record {
  ipc_fd = some ipc.0;
  data_fd = some dat.0;
  closed_fds = ipc.1 ∷ dat.1 ∷ [];
  in_child = true;
}

-- A `socketpair` that fails is `none`.
unfoldable pub init_worker_manager : TaskType → Option (ℤ × ℤ) → Option (ℤ × ℤ) → Fork → Startup
unfolding forked_worker_manager
init_worker_manager task ipc dat pid =
    if is_actor task
    then elim ipc [
      | none ↦ record unwritten { ipc_fd = some (negsuc 0) }
      | some i ↦ elim dat [
        | none ↦ record unwritten { data_fd = some (negsuc 0) }
        | some d ↦ forked_worker_manager i d pid
      ]
    ]
    else record unwritten { ipc_fd = some (pos 0); data_fd = some (pos 0) }

unfoldable pub forked_routine_manager : ℤ × ℤ → Fork → Startup
forked_routine_manager fd failed = record unwritten { ipc_fd = some (negsuc 0) }
forked_routine_manager fd (parent p) = record unwritten {
  ipc_fd = some fd.1;
  closed_fds = fd.0 ∷ [];
}
forked_routine_manager fd child = record unwritten {
  ipc_fd = some fd.0;
  closed_fds = fd.1 ∷ [];
  in_child = true;
}

unfoldable pub init_routine_manager : TaskType → Option (ℤ × ℤ) → Fork → Startup
unfolding forked_routine_manager
init_routine_manager task fd pid =
    if is_actor task
    then elim fd [
      | none ↦ record unwritten { ipc_fd = some (negsuc 0) }
      | some p ↦ forked_routine_manager p pid
    ]
    else record unwritten { ipc_fd = some (pos 0) }
