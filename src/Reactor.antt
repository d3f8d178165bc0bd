-- ===== src/Reactor.antt =====
-- src/reactor.c and the reactor types of include/types.h: the servers of a process, the work that
-- waits for the event loop, and the messages between the processes. libuv is the environment:
-- what it returns is an argument, and what is asked of it is a list of effects, oldest first.
pub mod Messages
pub mod Deferral
use respondphp.Base.{
  ℕ, zero, suc, ◌+◌, Option, none, some, List, [], ◌∷◌, ◌++◌, map, Bytes, Bool, true, false,
  if◌then◌else◌, length, ltb, ◌==◌,
}
use respondphp.Zend.{ℤ, pos, negsuc, Hash, values, next_insert}
use respondphp.Manager.{TaskType, actor, worker, routine, worker_manager, routine_manager}

-- `rp_reactor_type_t`
pub data ReactorType : Type 0 where
  rp_tcp rp_pipe rp_udp rp_routine : ReactorType

-- The C functions that a reactor points to.
pub data Callback : Type 0 where
  reactor_free : Callback
  tcp_server_init tcp_ipc_connection tcp_socket_connection tcp_accepted : Callback
  pipe_server_init pipe_connection pipe_accepted : Callback
  udp_server_init udp_worker_recv udp_actor_recv udp_send udp_data_recv : Callback
  routine_accepted : Callback

-- `rp_reactor_t`; a callback that is not set is NULL. The two members of the union `cb` are the
-- fields `connection` and `accepted`, and `recv`, `send` and `data_recv`.
pub record Reactor : Type 0 where
  pub address : ℕ
  pub type : ReactorType
  pub reactor_free_cb : Option Callback
  pub server_init_cb : Option Callback
  pub worker_init_cb : Option Callback
  pub connection : Option Callback
  pub accepted : Option Callback
  pub recv : Option Callback
  pub send : Option Callback
  pub data_recv : Option Callback
  pub server : Option ℕ

-- `async_init_t`: two functions by address, and their argument.
pub record AsyncInit : Type 0 where
  pub init_callback : Option ℕ
  pub free_callback : Option ℕ
  pub argument : ℕ

-- The libuv calls that set a process up, in the order of the source.
pub data UvCall : Type 0 where
  ipc_pipe_init ipc_pipe_open ipc_read_start : UvCall
  data_pipe_init data_pipe_open data_read_start : UvCall
  routine_pipe_init routine_pipe_open routine_read_start : UvCall
  loop_init : UvCall

pub data Effect : Type 0 where
  uv : UvCall → Effect
  -- a callback of a reactor, with the reactor
  runs : Callback → ℕ → Effect
  -- a deferred function with its argument
  calls : ℕ → ℕ → Effect
  -- zend_object_ptr_dtor of a server
  drops : ℕ → Effect
  -- rp_free of deferred work
  frees_init : AsyncInit → Effect
  -- a call through NULL
  null_call : Effect
  -- rp_register_pdeath_sig
  registers_signal : Effect

-- rp_reactor_init: all bytes zero, so RP_TCP and NULL everywhere.
unfoldable pub reactor_init : ℕ → Reactor
reactor_init address = record {
  address = address;
  type = rp_tcp;
  reactor_free_cb = none;
  server_init_cb = none;
  worker_init_cb = none;
  connection = none;
  accepted = none;
  recv = none;
  send = none;
  data_recv = none;
  server = none;
}

-- One optional callback of a reactor.
abbrev pub run_cb : Option Callback → Reactor → List Effect
run_cb none r = []
run_cb (some f) r = runs f r.address ∷ []

-- The loops over the reactors that call one callback of each.
unfoldable pub run_each : (Reactor → Option Callback) → List Reactor → List Effect
run_each field [] = []
run_each field (r ∷ rs) = run_cb (field r) r ++ run_each field rs

abbrev pub call_cb : Option ℕ → ℕ → List Effect
call_cb none argument = []
call_cb (some f) argument = calls f argument ∷ []

unfoldable pub call_each : (AsyncInit → Option ℕ) → List AsyncInit → List Effect
call_each field [] = []
call_each field (a ∷ rest) = call_cb (field a) a.argument ++ call_each field rest

-- reactors_destroy: the destructor of an entry of the table.
unfoldable pub reactors_destroy_entry : Reactor → List Effect
reactors_destroy_entry r =
    (elim r.server [ none ↦ [] | some z ↦ drops z ∷ [] ]) ++ run_cb r.reactor_free_cb r

unfoldable pub destroy_each : List Reactor → List Effect
unfolding reactors_destroy_entry
destroy_each [] = []
destroy_each (r ∷ rs) = reactors_destroy_entry r ++ destroy_each rs

abbrev pub is_negative : ℤ → Bool
is_negative (pos n) = false
is_negative (negsuc n) = true

-- Calls one after the other, up to the first that returns a negative number. The result is what
-- the last call returned.
module _ (answer : UvCall → ℤ) where
  unfoldable pub uv_chain : ℤ → List UvCall → ℤ × List Effect
  uv_chain ret [] = (ret, [])
  uv_chain ret (c ∷ cs) =
      let rest = uv_chain (answer c) cs in
      if is_negative (answer c) then (answer c, uv c ∷ []) else (rest.0, uv c ∷ rest.1)

abbrev pub worker_calls : List UvCall
worker_calls =
    ipc_pipe_init ∷ ipc_pipe_open ∷ ipc_read_start ∷ data_pipe_init ∷ data_pipe_open
    ∷ data_read_start ∷ []

abbrev pub actor_calls : List Effect
actor_calls =
    uv ipc_pipe_init
    ∷ uv data_pipe_init
    ∷ uv ipc_pipe_open
    ∷ uv data_pipe_open
    ∷ uv ipc_read_start
    ∷ uv data_read_start
    ∷ []

abbrev pub is_zero : ℤ → Bool
is_zero (pos n) = n == 0
is_zero (negsuc n) = false

-- rp_init_routine_server
unfoldable pub init_routine_server : (UvCall → ℤ) → ℤ × List Effect
init_routine_server answer =
    if is_zero (answer routine_pipe_init)
    then if is_zero (answer routine_pipe_open)
      then (
        answer routine_read_start,
        uv routine_pipe_init ∷ uv routine_pipe_open ∷ uv routine_read_start ∷ [],
      )
      else (answer routine_pipe_open, uv routine_pipe_init ∷ uv routine_pipe_open ∷ [])
    else (answer routine_pipe_init, uv routine_pipe_init ∷ [])

module _ ⦃h : Hash⦄ where
  open h use {Table, init, items}

  -- The process's own state: `rp_reactors`, `rp_reactors_async_inits`, and whether
  -- `main_loop.data == &main_loop`. `heap` counts the reactors allocated.
  pub record State : Type 0 where
    pub reactors : Table Reactor
    pub async_inits : Table AsyncInit
    pub loop_inited : Bool
    pub heap : ℕ

  -- rp_reactors_init; the loop is set up later.
  unfoldable pub reactors_init : State
  reactors_init = record { reactors = init; async_inits = init; loop_inited = false; heap = 0 }

  -- rp_reactors_destroy, with the destructors of the entries of both tables
  unfoldable pub reactors_destroy : State → List Effect
  unfolding destroy_each
  reactors_destroy s =
      destroy_each (values (items s.reactors))
      ++ map (λ a. frees_init a) (values (items s.async_inits))

  unfoldable pub reactors_count : State → ℕ
  reactors_count s = length (items s.reactors)

  -- rp_reactors_add_new: `fill` is what the caller writes into the reactor that it gets.
  unfoldable pub reactors_add_new : State → ℕ → (Reactor → Reactor) → State
  unfolding reactor_init
  reactors_add_new s server fill = record s {
    reactors = next_insert s.reactors (
        fill (record (reactor_init s.heap) {
          reactor_free_cb = some reactor_free;
          server = some server;
        }));
    heap = s.heap + 1;
  }

  -- rp_reactor_async_init_ex: once the loop is set up, the call is made without a test.
  unfoldable pub async_init_ex : State → AsyncInit → State × List Effect
  async_init_ex s a =
      if s.loop_inited
      then (s, (elim a.init_callback [ none ↦ null_call ∷ [] | some f ↦ calls f a.argument ∷ [] ]))
      else (record s { async_inits = next_insert s.async_inits a }, [])

  unfoldable pub async_init_execute : State → List Effect
  unfolding call_each
  async_init_execute s = call_each (λ a. a.init_callback) (values (items s.async_inits))

  unfoldable pub async_free_execute : State → List Effect
  unfolding call_each
  async_free_execute s = call_each (λ a. a.free_callback) (values (items s.async_inits))

  -- rp_init_actor_server
  unfoldable pub init_actor_server : State → List Effect
  unfolding run_each
  init_actor_server s = actor_calls ++ run_each (λ r. r.server_init_cb) (values (items s.reactors))

  -- rp_init_worker_server: the workers' callbacks run only if every call succeeded.
  unfoldable pub init_worker_server : (UvCall → ℤ) → State → ℤ × List Effect
  unfolding uv_chain run_each
  init_worker_server answer s =
      let (ret, es) = uv_chain answer (pos 0) worker_calls in
      if is_negative ret
      then (ret, es)
      else (ret, es ++ run_each (λ r. r.worker_init_cb) (values (items s.reactors)))

  abbrev pub routine_pipe : List Effect
  routine_pipe = uv routine_pipe_init ∷ uv routine_pipe_open ∷ []

  -- The `switch` of rp_init_reactor
  unfoldable pub init_role : (UvCall → ℤ) → TaskType → State → List Effect
  unfolding init_actor_server init_worker_server init_routine_server async_init_execute
      async_free_execute reactors_count
  init_role answer actor s =
      (if ltb 0 (reactors_count s)
        then registers_signal ∷ (init_actor_server s ++ routine_pipe)
        else [])
      ++ async_init_execute s
  init_role answer worker s =
      registers_signal ∷ ((init_worker_server answer s).1 ++ (routine_pipe ++ async_free_execute s))
  init_role answer routine s =
      registers_signal ∷ ((init_routine_server answer).1 ++ async_free_execute s)
  init_role answer worker_manager s = []
  init_role answer routine_manager s = []

  -- rp_init_reactor, which returns 0
  unfoldable pub init_reactor : (UvCall → ℤ) → TaskType → State → State × List Effect
  unfolding init_role
  init_reactor answer task s =
      (record s { loop_inited = true }, uv loop_init ∷ init_role answer task s)
