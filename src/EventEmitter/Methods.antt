-- ===== src/EventEmitter/Methods.antt =====
-- The five methods that every emitting class repeats over its own `event_hook`:
-- on, off, removeListeners, getListeners and emit (TRAIT_PHP_METHOD_event_emitter of
-- include/internal/event_emitter.h).
use respondphp.Base.{ℕ, Option, none, some, List, [], ◌∷◌, Bytes}
use respondphp.Zend.{Zval, Hash}
use respondphp.EventEmitter.{
  EventHook, Call, Emitted, done, fault, out_of_fuel, Listeners, on, off, remove_listeners,
  get_listeners, emit,
}

-- What an emission by a method comes to, with the object that emits.
pub data EmittedBy (R : Type 0) : Type 0 where
  emitted : R → List Call → EmittedBy R
  faulted : EmittedBy R
  starved : EmittedBy R
  -- with fewer than two arguments, `emit` goes on with a pointer that was never written
  reads_unset : EmittedBy R

module _ ⦃h : Hash⦄ where
  -- `none` for the arguments: `zend_parse_parameters` failed, and the method returns at once.
  pub record EmitterMethods (R : Type 0) : Type 0 where
    pub on_method : Option (Bytes × Zval) → R → R
    pub off_method : Option (Bytes × Zval) → R → R
    pub remove_listeners_method : Option Bytes → R → R
    -- NULL, or the array of listeners
    pub get_listeners_method : Option Bytes → R → Option (h.Table Zval)
    -- The first argument is converted to a string, by `to_string`; the others go to the listeners.
    pub emit_method :
        (to_string : Zval → Bytes) → Listeners → (fuel : ℕ) → List Zval → R → EmittedBy R

  module _ {R : Type 0} (get : R → EventHook) (put : R → EventHook → R) where
    with_hook : R → Emitted → EmittedBy R
    with_hook r (done s calls) = emitted (put r s) calls
    with_hook r fault = faulted
    with_hook r out_of_fuel = starved

    on_args : Option (Bytes × Zval) → R → R
    on_args none r = r
    on_args (some (event, hook)) r = put r (on (get r) event hook)

    off_args : Option (Bytes × Zval) → R → R
    off_args none r = r
    off_args (some (event, hook)) r = put r (off (get r) event hook)

    remove_args : Option Bytes → R → R
    remove_args none r = r
    remove_args (some event) r = put r (remove_listeners (get r) event)

    get_args : Option Bytes → R → Option (h.Table Zval)
    get_args none r = none
    get_args (some event) r = get_listeners (get r) event

    emit_args : (Zval → Bytes) → Listeners → ℕ → List Zval → R → EmittedBy R
    unfolding with_hook
    emit_args to_string env fuel [] r = reads_unset
    emit_args to_string env fuel (event ∷ []) r = reads_unset
    emit_args to_string env fuel (event ∷ (p ∷ params)) r =
        with_hook r (emit env (to_string event) (p ∷ params) fuel (get r))

    unfoldable pub trait_event_emitter : EmitterMethods R
    unfolding on_args off_args remove_args get_args emit_args
    trait_event_emitter = record {
      on_method = on_args;
      off_method = off_args;
      remove_listeners_method = remove_args;
      get_listeners_method = get_args;
      emit_method = emit_args;
    }
