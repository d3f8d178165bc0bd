-- ===== src/Timer.antt =====
-- src/system/timer.c, with the `cancel` of src/async/cancelable_promise.c: a promise that is
-- resolved after some time. A step on a timer that is freed is a fault.
pub mod Settling
use respondphp.Base.{ℕ, Option, none, some, List, [], ◌∷◌, ◌++◌, Bool, true, false, if◌then◌else◌}
use respondphp.Zend.{ℤ, pos, negsuc}
use respondphp.Reactor.{is_negative}

-- `rp_timer_t`, and whether it was given to rp_free.
pub record Timer : Type 0 where
  pub milliseconds : ℤ
  pub freed : Bool

pub data Effect : Type 0 where
  -- rp_reactor_async_init of timer_async_cb
  defers : Effect
  -- uv_timer_init, uv_timer_start, uv_timer_stop
  inits : Effect
  starts : ℤ → Effect
  stops : Effect
  -- rp_resolve_promise and rp_reject_promise_long
  resolves : ℤ → Effect
  rejects : ℤ → Effect
  drops_promise : Effect
  frees : Effect

pub data Ran : Type 0 where
  alive : Timer → List Effect → Ran
  faulted : Ran

-- A callback gets a pointer to the timer.
abbrev pub with_timer : Timer → (Timer → Timer × List Effect) → Ran
with_timer t f = if t.freed then faulted else (let (t1, es) = f t in alive t1 es)

abbrev pub release : Effect → List Effect
release settles = settles ∷ drops_promise ∷ frees ∷ []

unfoldable pub timer_cb : Timer → Ran
timer_cb t = with_timer t (λ t. (record t { freed = true }, release (resolves (pos 0))))

unfoldable pub timer_cancel_cb : Timer → Ran
timer_cancel_cb t =
    with_timer t (λ t. (record t { freed = true }, stops ∷ release (rejects (negsuc 0))))

-- `err` is what `uv_timer_start` returns.
unfoldable pub timer_async_cb : ℤ → Timer → Ran
timer_async_cb err t = with_timer t (λ t.
    if is_negative err
    then (record t { freed = true }, inits ∷ starts t.milliseconds ∷ release (rejects err))
    else (t, inits ∷ starts t.milliseconds ∷ []))

-- PHP_METHOD timeout, after its argument is parsed: the new timer.
unfoldable pub timeout : ℤ → Timer × List Effect
timeout milliseconds =
    if is_negative milliseconds
    then (record { milliseconds = milliseconds; freed = true }, release (rejects (negsuc 0)))
    else (record { milliseconds = milliseconds; freed = false }, defers ∷ [])

-- `cancel` of the promise, whose `cb` and `data` are set once and for all.
unfoldable pub cancel : Timer → Ran
unfolding timer_cancel_cb
cancel t = timer_cancel_cb t

-- What happens to a timer: the deferred work is done, it fires, or PHP code cancels it.
pub data Event : Type 0 where
  deferred_work : ℤ → Event
  fires : Event
  cancels : Event

unfoldable pub handle : Event → Timer → Ran
unfolding timer_cb timer_async_cb cancel
handle (deferred_work err) t = timer_async_cb err t
handle fires t = timer_cb t
handle cancels t = cancel t

abbrev pub and_then : Ran → (Timer → Ran) → Ran
and_then faulted k = faulted
and_then (alive t es) k = elim (k t) [ faulted ↦ faulted | alive t1 fs ↦ alive t1 (es ++ fs) ]

unfoldable pub run : Timer → List Event → Ran
unfolding handle
run t [] = alive t []
run t (e ∷ es) = and_then (handle e t) (λ t1. run t1 es)
