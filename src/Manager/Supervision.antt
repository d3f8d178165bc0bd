-- ===== src/Manager/Supervision.antt =====
-- How many children a manager of src/worker_manager.c or src/routine_manager.c keeps.
use respondphp.Base.{
  Bool, ℕ, zero, suc, ◌+◌, ◌-◌, ◌^◌, ◌≤◌, ◌<◌, ◌≡◌, refl, List, [], ◌∷◌, true, false, arith,
}
use respondphp.Manager.{
  Fork, parent, child, failed, u32, missing, make_forks_loop, make_forks, wait_all_children, Signal,
  sigchld, sighup, other_signal, Manager, supervises, stops, exits, after_forks,
  signal_chld_handler, supervise, while_running, is_parent, TaskType, worker, routine, Entered,
  waiting, returned, ended, after_run, enter, rp_worker_max, rp_routine_max, do_init_worker_manager,
  do_init_routine_manager, heard,
}

-- Reaping no more children than are counted subtracts them, without wrap-around.
pub wait_all_children_lem :
    (k count : ℕ) → k ≤ count → count < 2 ^ 32 → wait_all_children k count ≡ count - k
unfolding wait_all_children
wait_all_children_lem zero count h small = omega arith
wait_all_children_lem (suc k) count h small =
    let once : u32 (count + 2 ^ 32 - 1) ≡ count - 1 = omega arith in
    omega
      (arith, wait_all_children_lem k (u32 (count + 2 ^ 32 - 1)) (omega arith) (omega arith), once)

missing_lem : (max count : ℕ) → count ≤ max → max < 2 ^ 31 → missing max count ≡ max - count
unfolding missing
missing_lem max count h small = ground arith

module _ (fork : ℕ → Fork) where
  -- The loop counts the children that it made, and ends early only in a child or on a failure.
  pub make_forks_loop-count :
      (r : ℕ) (pid : Fork) (count n : ℕ)
      → count + r < 2 ^ 32
      → let (last, count', n') = make_forks_loop fork r pid count n in
        (count' ≤ count + r) × (count ≤ count') × (is_parent last ≡ true → count' ≡ count + r)
  unfolding make_forks_loop
  make_forks_loop-count zero pid count n h = ground arith
  make_forks_loop-count (suc r) pid count n h =
      ground (arith, make_forks_loop-count r (fork n) (u32 (count + 1)) (n + 1))

-- A manager that goes on has all its children; one whose loop is stopped has no more than that.
abbrev pub Keeps : ℕ → Manager → Type 0
Keeps max (supervises count n) = count ≡ max
Keeps max (stops count n pid) = (count ≤ max) × (is_parent pid ≡ false)
Keeps max exits = Unit {0}

-- No signal reports more children than the manager has.
abbrev pub Plausible : ℕ → List Signal → Type 0
Plausible max [] = Unit {0}
Plausible max (sigchld k ∷ ss) = (k ≤ max) × Plausible max ss
Plausible max (sighup ∷ ss) = Plausible max ss
Plausible max (other_signal ∷ ss) = Plausible max ss

module _ (fork : ℕ → Fork) (max : ℕ) (small : max < 2 ^ 31) where
  after_forks-Keeps :
      (left n : ℕ)
      → left ≤ max
      → Keeps max (after_forks (make_forks fork (missing max left) left n))
  unfolding after_forks make_forks
  after_forks-Keeps left n h =
      rw (missing_lem max left h small)
        (ground (arith, make_forks_loop-count fork (max - left) (parent 1) left n))

  -- One SIGCHLD: the dead children are replaced, so that the manager again has exactly `max`
  -- children, unless a fork fails or the process is the new child.
  signal_chld_handler-Keeps :
      (reaped count n : ℕ)
      → reaped ≤ count
      → count ≤ max
      → Keeps max (signal_chld_handler fork max (sigchld reaped) count n)
  unfolding signal_chld_handler
  signal_chld_handler-Keeps reaped count n r c =
      after_forks-Keeps (wait_all_children reaped count) n
        (omega (arith, wait_all_children_lem reaped count r (omega arith)))

  while_running-Keeps :
      (m : Manager) (k : ℕ → ℕ → Manager)
      → Keeps max m
      → ((n : ℕ) → Keeps max (k max n))
      → Keeps max (while_running m k)
  while_running-Keeps (supervises count n) k h next = rw h (next n)
  while_running-Keeps (stops count n pid) k h next = h
  while_running-Keeps exits k h next = tt

  -- Any history of signals leaves a supervising manager with exactly `max` children.
  pub supervise-Keeps :
      (ss : List Signal) (n : ℕ) → Plausible max ss → Keeps max (supervise fork max ss max n)
  unfolding supervise
  supervise-Keeps [] n p = refl
  supervise-Keeps (sigchld k ∷ ss) n p =
      while_running-Keeps _ (supervise fork max ss)
        (signal_chld_handler-Keeps k max n p.0 (omega arith)) (λ m. supervise-Keeps ss m p.1)
  supervise-Keeps (sighup ∷ ss) n p = tt
  supervise-Keeps (other_signal ∷ ss) n p = supervise-Keeps ss n p

-- A process that still supervises has exactly `max` children, and one that has returned did so in
-- the role of a child, the manager itself included.
abbrev pub InRole : ℕ → TaskType → Entered → Type 0
InRole max task (waiting count) = count ≡ max
InRole max task (returned t) = t ≡ task
InRole max task ended = Unit {0}

after_run-InRole :
    (max : ℕ) (task : TaskType) (m : Manager) → Keeps max m → InRole max task (after_run task m)
after_run-InRole max task (supervises count n) h = h
after_run-InRole max task (stops count n pid) h = refl
after_run-InRole max task exits h = tt

enter-InRole :
    (fork : ℕ → Fork) (max : ℕ) (task : TaskType) (ss : List Signal)
    → max < 2 ^ 31
    → Plausible max ss
    → InRole max task (enter fork max task ss (make_forks fork (missing max 0) 0 0))
unfolding enter make_forks
enter-InRole fork max task ss small p = rw (missing_lem max 0 (omega arith) small) (
    started (make_forks_loop fork (max - 0) (parent 1) 0 0)
      (make_forks_loop-count fork (max - 0) (parent 1) 0 0 (omega arith)).2)
  where
    started :
        (r : Fork × ℕ × ℕ)
        → (is_parent r.0 ≡ true → r.1 ≡ 0 + (max - 0))
        → InRole max task (enter fork max task ss r)
    started (parent q, count, n) e =
        let full : count ≡ max = omega (arith, e refl) in
        rw full (after_run-InRole max task _ (supervise-Keeps fork max small ss n p))
    started (child, count, n) e = refl
    started (failed, count, n) e = refl

-- rp_do_init_worker_manager: whatever `fork` answers and whatever signals come, a process that is
-- still in it has exactly RP_WORKER_MAX children, and one that leaves it goes on as a WORKER, also
-- where that is the manager after a failed fork.
pub do_init_worker_manager-InRole :
    (fork : ℕ → Fork) (ss : List Signal)
    → Plausible rp_worker_max ss
    → InRole rp_worker_max worker (do_init_worker_manager fork ss)
unfolding do_init_worker_manager
do_init_worker_manager-InRole fork ss p = enter-InRole fork rp_worker_max worker ss (omega arith) p

-- rp_do_init_routine_manager: the same, with RP_ROUTINE_MAX and ROUTINE.
do_init_routine_manager-InRole :
    (pdeathsig : Bool) (fork : ℕ → Fork) (ss : List Signal)
    → Plausible rp_routine_max (heard pdeathsig ss)
    → InRole rp_routine_max routine (do_init_routine_manager pdeathsig fork ss)
unfolding do_init_routine_manager
do_init_routine_manager-InRole pdeathsig fork ss p =
    enter-InRole fork rp_routine_max routine (heard pdeathsig ss) (omega arith) p
