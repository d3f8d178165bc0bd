-- ===== src/Server/Routine.antt =====
-- src/server/routine.c: work that the actor gives to the routines, one socket pair for each
-- execution. Pointers and promises are numbers; serialize, unserialize and the PHP function that is
-- executed are arguments. A step on an execution that is freed, and a second uv_close of its pipe,
-- are faults, `none`.
pub mod Accounts
pub mod Reply
pub mod Sound
pub mod Events
pub mod Starting
pub mod Finishing
pub mod Release
pub mod Executions
pub mod RoundTrip
use respondphp.Base.{
  ℕ, zero, suc, ◌+◌, Option, none, some, List, [], ◌∷◌, ◌++◌, Bytes, Bool, true, false,
  if◌then◌else◌, ◌==◌, length,
}
use respondphp.Zend.{Zval, Key, index, ℤ, Hash, add}
use respondphp.Reactor.{
  Reactor, State, AsyncInit, reactors_add_new, rp_routine, routine_accepted, async_init_ex,
}
use respondphp.Reactor
use respondphp.Reactor.Messages.{MsgEffect, ipc_send_ex, is_positive}

pub data Effect : Type 0 where
  -- rp_make_promise_object, RETVAL_ZVAL with a copy, rp_resolve_promise, ZVAL_PTR_DTOR
  makes_promise returns_promise drops_promise : ℕ → Effect
  resolves : ℕ → Zval → Effect
  drops_args : Option Bytes → Effect
  -- socketpair
  makes_pair : Effect
  -- uv_pipe_init and uv_pipe_open on an execution's own end, uv_read_start and uv_close of it
  opens_pipe starts_read closes_pipe : ℕ → Effect
  -- the same calls on the other end, in new memory
  opens_other_end : Effect
  -- rp_reactor_ipc_send_ex
  sends : List MsgEffect → Effect
  frees_buffer : Effect
  frees_execution : ℕ → Effect
  -- ZVAL_PTR_DTOR of the callable, zend_object_std_dtor
  drops_execution : Zval → Effect
  dtor_object : Effect

-- Where an execution stands: with the deferred work, in the table with its pipe open, or with its
-- pipe given to uv_close.
pub data Phase : Type 0 where
  deferred reading closing : Phase

-- `routine_execution_t`; `args` are the serialized arguments, if there are any.
pub record Execution : Type 0 where
  pub index : ℕ
  pub promise : ℕ
  pub args : Option Bytes
  pub phase : Phase

abbrev pub message : Option Bytes → Bytes
message none = []
message (some bytes) = bytes

abbrev pub set_cell : (ℕ → Option Execution) → ℕ → Option Execution → ℕ → Option Execution
set_cell cells p c q = if p == q then c else cells q

-- The test before uv_close, which libuv makes.
abbrev pub is_closing : Phase → Bool
is_closing closing = true
is_closing _ = false

module _ ⦃h : Hash⦄ where
  open h use {Table, init, find, del, next_free}

  -- `rp_routine_ext_t`, with the memory of its executions: `cells` is what each address holds and
  -- `next` the next address.
  pub record RoutineServer : Type 0 where
    pub reactor : Reactor
    pub execution : Zval
    pub routine_executions : Table ℕ
    pub cells : ℕ → Option Execution
    pub next : ℕ

  abbrev pub Stepped : Type 0
  Stepped = Option (RoutineServer × List Effect)

  -- create_respond_server_routine_resource
  unfoldable pub create_resource : Reactor → RoutineServer
  create_resource reactor = record {
    reactor = reactor;
    execution = Zval.null;
    routine_executions = init;
    cells = λ p. none;
    next = 0;
  }

  -- What PHP_METHOD __construct writes into its reactor
  unfoldable pub fill : Reactor → Reactor
  fill r = record r { type = rp_routine; accepted = some routine_accepted }

  -- PHP_METHOD __construct, after its argument is parsed
  unfoldable pub construct :
      (self : ℕ) (execution : Zval) → State × RoutineServer → State × RoutineServer
  unfolding fill reactors_add_new Reactor.reactor_init
  construct self execution (s, r) = (
    reactors_add_new s self fill,
    record r {
      reactor = fill (record (Reactor.reactor_init s.heap) {
        reactor_free_cb = some Reactor.reactor_free;
        server = some self;
      });
      execution = execution;
    },
  )

  -- PHP_METHOD execute, up to its call of rp_reactor_async_init_ex: `args` is none where it has no
  -- argument. The new execution is at `r.next`.
  unfoldable pub execute :
      (serialize : Zval → Bytes) → Option Zval → RoutineServer → RoutineServer × List Effect
  execute serialize args r = (
    record r {
      cells = set_cell r.cells r.next (
          some (record {
            index = 0;
            promise = r.next;
            args = elim args [ none ↦ none | some v ↦ some (serialize v) ];
            phase = deferred;
          }));
      next = r.next + 1;
    },
    makes_promise r.next ∷ returns_promise r.next ∷ [],
  )

  -- What execute gives to the reactor
  unfoldable pub async_init_of : (async_cb worker_free_cb p : ℕ) → AsyncInit
  async_init_of async_cb worker_free_cb p = record {
    init_callback = some async_cb;
    free_callback = some worker_free_cb;
    argument = p;
  }

  -- routine_execution_add, for the execution at `p`; `other` is the memory of the other end, and
  -- `routine_pipe` the pipe to the routines. What socketpair returns is not looked at.
  unfoldable pub routine_execution_add :
      (other routine_pipe p : ℕ) → Execution → RoutineServer → RoutineServer × List Effect
  unfolding add ipc_send_ex
  routine_execution_add other routine_pipe p c r =
      let i = next_free r.routine_executions in
      (
        record r {
          cells = set_cell r.cells p (some (record c { index = i; phase = reading }));
          routine_executions = add r.routine_executions (index i) p;
        },
        makes_pair
            ∷ opens_pipe p
            ∷ starts_read p
            ∷ opens_other_end
            ∷ sends (ipc_send_ex r.reactor other (message c.args) routine_pipe)
            ∷ [],
      )

  -- routine_async_cb
  unfoldable pub routine_async_cb : (other routine_pipe p : ℕ) → RoutineServer → Stepped
  unfolding routine_execution_add
  routine_async_cb other routine_pipe p r = elim (r.cells p) [
    | none ↦ none
    | some c ↦
        let (r1, es) = routine_execution_add other routine_pipe p c r in
        some (r1, es ++ drops_args c.args ∷ [])
  ]

  -- routine_async_cb_worker_free
  unfoldable pub routine_async_cb_worker_free : (p : ℕ) → RoutineServer → Stepped
  routine_async_cb_worker_free p r = elim (r.cells p) [
    | none ↦ none
    | some c ↦ some (
      record r { cells = set_cell r.cells p none },
      drops_args c.args ∷ drops_promise c.promise ∷ frees_execution p ∷ [],
    )
  ]

  -- routine_result_read_cb: `bytes` are the first `status` bytes of the buffer.
  unfoldable pub routine_result_read_cb :
      (unserialize : Bytes → Zval) (p : ℕ) → ℤ → Bytes → RoutineServer → Stepped
  routine_result_read_cb unserialize p status bytes r = elim (r.cells p) [
    | none ↦ none
    | some c ↦
        if is_closing c.phase
        then none
        else some (
          record r { cells = set_cell r.cells p (some (record c { phase = closing })) },
          (if is_positive status then resolves c.promise (unserialize bytes) ∷ [] else [])
              ++ frees_buffer ∷ closes_pipe p ∷ [],
        )
  ]

  -- routine_execution_free, the destructor of an entry of the table
  unfoldable pub routine_execution_free : (p : ℕ) → RoutineServer → Stepped
  routine_execution_free p r = elim (r.cells p) [
    | none ↦ none
    | some c ↦ some (
      record r { cells = set_cell r.cells p none },
      drops_promise c.promise ∷ frees_execution p ∷ [],
    )
  ]

  -- zend_hash_index_del of the table of executions
  unfoldable pub index_del : ℕ → RoutineServer → Stepped
  unfolding routine_execution_free
  index_del i r = elim (find r.routine_executions (index i)) [
    | none ↦ some (r, [])
    | some q ↦
        routine_execution_free q
          (record r { routine_executions = del r.routine_executions (index i) })
  ]

  -- routine_result_close_cb
  unfoldable pub routine_result_close_cb : (p : ℕ) → RoutineServer → Stepped
  unfolding index_del
  routine_result_close_cb p r = elim (r.cells p) [ none ↦ none | some c ↦ index_del c.index r ]
