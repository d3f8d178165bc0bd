-- ===== src/Examples/Emitters.antt =====
-- src/internal/event_emitter.c at two listeners and a callback.
use respondphp.Base.{◌≡◌, refl, List, [], ◌∷◌, ◌++◌, map, Bytes, codes, arith, ℕ_discrete}
use respondphp.Zend.{
  IsName, symtable_key, canonical, digits_value, Zval, handle, Key-discrete, Zval-discrete,
  assoc_find, assoc_del, assoc_set, next_insert,
}
use respondphp.Zend.Ordered.{ordered}
use respondphp.EventEmitter.{
  EventHook, InternalCb, user, internal, Listeners, event_hook_init, emit, emit_internal,
  on_internal,
}
use respondphp.EventEmitter.Spec.{AllNamed, Op, ons, offs, removes, spec_run}
use respondphp.EventEmitter.Invariant.{
  run, step, listeners, WellFormed, init-WellFormed, run-WellFormed,
}
use respondphp.EventEmitter.Refinement.{listeners-run}
use respondphp.EventEmitter.Emission.{QuietFor, Ends, emit-Ends}
use respondphp.Server.Release.{event_hook_destroy}
use respondphp.Server.Release.Listeners.{freed, dropped}
use respondphp.Server.Release.Balance.{Aligned, run-destroy}
use respondphp.Server.Accepting.{on_internal-WellFormed}
use respondphp.EventEmitter.Internal.{callbacks, QuietInternal, emit_internal-Ends}

abbrev event : Bytes
event = codes "data"

abbrev some_ops : List Op
some_ops =
    ons event (handle 1)
    ∷ ons event (handle 2)
    ∷ ons event (handle 1)
    ∷ offs event (handle 1)
    ∷ removes (codes "close")
    ∷ []

event-IsName : IsName event
unfolding symtable_key canonical digits_value
event-IsName = refl

some_ops-AllNamed : AllNamed some_ops
some_ops-AllNamed = (event-IsName, (event-IsName, (event-IsName, (tt, (tt, tt)))))

abbrev emitter : EventHook
emitter = run event_hook_init some_ops

emitter-WellFormed : WellFormed emitter
emitter-WellFormed = run-WellFormed event_hook_init some_ops some_ops-AllNamed init-WellFormed

listeners-run_example : listeners emitter ≡ spec_run (listeners event_hook_init) some_ops
listeners-run_example = listeners-run event_hook_init some_ops some_ops-AllNamed init-WellFormed

run-destroy_example :
    WellFormed emitter
    × Aligned emitter
    × (freed (event_hook_destroy emitter) ≡ dropped (event_hook_destroy emitter))
run-destroy_example = run-destroy some_ops some_ops-AllNamed

-- Listeners that do nothing.
abbrev pub idle : Listeners
idle = record { run = λ z ps s. s; run_internal = λ cb ps s. s }

pub idle-QuietFor : (l : List Zval) → QuietFor idle l
idle-QuietFor [] = tt
idle-QuietFor (z ∷ l) = (λ ps s. refl, idle-QuietFor l)

pub idle-QuietInternal : (l : List InternalCb) → QuietInternal idle l
idle-QuietInternal [] = tt
idle-QuietInternal (cb ∷ l) = (λ ps s. refl, idle-QuietInternal l)

-- Two listeners are left, the second one first.
emitter-listeners : listeners emitter event ≡ handle 2 ∷ handle 1 ∷ []
unfolding run step listeners event_hook_init ordered symtable_key canonical digits_value assoc_find
    assoc_del assoc_set Key-discrete ℕ_discrete Zval-discrete
emitter-listeners = refl

emit-Ends_example :
    Ends emitter (map (λ z. user z []) (listeners emitter event)) (emit idle event [] 3 emitter)
emit-Ends_example =
    emit-Ends idle event [] 3 emitter emitter-WellFormed (idle-QuietFor (listeners emitter event))
      (rw emitter-listeners (omega arith))

abbrev with_callback : EventHook
with_callback = on_internal emitter event (record { callback = 7; cb_data = 8 })

with_callback-WellFormed : WellFormed with_callback
with_callback-WellFormed = on_internal-WellFormed emitter event _ emitter-WellFormed

with_callback-listeners : listeners with_callback event ≡ handle 2 ∷ handle 1 ∷ []
unfolding run step listeners event_hook_init ordered on_internal assoc_find assoc_del assoc_set
    Key-discrete ℕ_discrete Zval-discrete
with_callback-listeners = refl

with_callback-callbacks : callbacks with_callback event ≡ record { callback = 7; cb_data = 8 } ∷ []
unfolding run step callbacks event_hook_init ordered on_internal symtable_key canonical digits_value
    assoc_find assoc_set Key-discrete ℕ_discrete Zval-discrete next_insert
with_callback-callbacks = refl

emit_internal-Ends_example :
    Ends with_callback
      (map (λ cb. internal cb []) (callbacks with_callback event)
        ++ map (λ z. user z []) (listeners with_callback event))
      (emit_internal idle event [] 3 with_callback)
emit_internal-Ends_example =
    emit_internal-Ends idle event [] 3 with_callback with_callback-WellFormed
      (idle-QuietInternal (callbacks with_callback event))
      (idle-QuietFor (listeners with_callback event)) (rw with_callback-callbacks (omega arith))
      (rw with_callback-listeners (omega arith))

-- A server with one listener.
abbrev pub connect_hook : EventHook
connect_hook = run event_hook_init (ons (codes "connect") (handle 4) ∷ [])

pub connect-IsName : IsName (codes "connect")
unfolding symtable_key canonical digits_value
connect-IsName = refl

pub connect_hook-WellFormed : WellFormed connect_hook
connect_hook-WellFormed =
    run-WellFormed event_hook_init (ons (codes "connect") (handle 4) ∷ []) (connect-IsName, tt)
      init-WellFormed

pub connect_hook-listeners : listeners connect_hook (codes "connect") ≡ handle 4 ∷ []
unfolding run step listeners event_hook_init ordered symtable_key canonical digits_value assoc_find
    assoc_del assoc_set Key-discrete ℕ_discrete Zval-discrete
connect_hook-listeners = refl

pub connect_hook-callbacks : callbacks connect_hook (codes "connect") ≡ []
unfolding run step callbacks event_hook_init ordered symtable_key canonical digits_value assoc_find
    assoc_set Key-discrete ℕ_discrete Zval-discrete
connect_hook-callbacks = refl
