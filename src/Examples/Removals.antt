-- ===== src/Examples/Removals.antt =====
-- src/internal/event_emitter.c: emissions in which a listener removes listeners, and an event whose
-- name spells an integer.
use respondphp.Base.{
  ◌≡◌, none, refl, List, [], ◌∷◌, map, Bytes, codes, arith, if◌then◌else◌, ◌==◌, ℕ_discrete,
}
use respondphp.Zend.{
  Zval, handle, values, Zval-discrete, Key-discrete, assoc_find, assoc_set, symtable_key, canonical,
  digits_value,
}
use respondphp.Zend.Ordered.{ordered}
use respondphp.EventEmitter.{
  EventHook, user, fault, Listeners, emit, on, get_listeners, off, remove_listeners,
  event_hook_init,
}
use respondphp.EventEmitter.Spec.{Op, ons, AllNamed}
use respondphp.EventEmitter.Invariant.{
  run, step, listeners, WellFormed, init-WellFormed, run-WellFormed,
}
use respondphp.EventEmitter.Emission.{Ends}
use respondphp.EventEmitter.Removal.{emit-removed}
use respondphp.EventEmitter.SelfRemoval.{emit-off}
use respondphp.EventEmitter.Views.{entries_or_nil, entries_cache}
use respondphp.EventEmitter.Numeric.{on_all, on-numeric}

abbrev event : Bytes
event = codes "data"

abbrev four : List Op
four =
    ons event (handle 1) ∷ ons event (handle 2) ∷ ons event (handle 3) ∷ ons event (handle 4) ∷ []

four-AllNamed : AllNamed four
unfolding symtable_key canonical digits_value
four-AllNamed = (refl, (refl, (refl, (refl, tt))))

abbrev emitter : EventHook
emitter = run event_hook_init four

emitter-WellFormed : WellFormed emitter
emitter-WellFormed = run-WellFormed event_hook_init four four-AllNamed init-WellFormed

emitter-listeners : listeners emitter event ≡ handle 1 ∷ handle 2 ∷ handle 3 ∷ handle 4 ∷ []
unfolding run step listeners event_hook_init ordered assoc_find assoc_set Key-discrete ℕ_discrete
    Zval-discrete symtable_key canonical digits_value
emitter-listeners = refl

-- The second listener does `act`, and the others nothing.
abbrev second : (EventHook → EventHook) → Zval → List Zval → EventHook → EventHook
second act (handle n) ps s = if n == 2 then act s else s
second act _ ps s = s

abbrev removing : Listeners
removing = record { run = second (λ s. remove_listeners s event); run_internal = λ cb ps s. s }

abbrev leaving : Listeners
leaving = record { run = second (λ s. off s event (handle 2)); run_internal = λ cb ps s. s }

emit-removed_example : emit removing event [] 5 emitter ≡ fault
emit-removed_example =
    emit-removed removing event [] 5 emitter (handle 1 ∷ []) (handle 3 ∷ handle 4 ∷ []) (handle 2)
      emitter-WellFormed emitter-listeners (λ ps s. refl, tt) (λ ps t. refl) (omega arith)

-- The third listener is not called.
emit-off_example :
    Ends
      (off emitter event (handle 2))
      (map (λ w. user w []) (handle 1 ∷ handle 2 ∷ handle 4 ∷ []))
      (emit leaving event [] 5 emitter)
emit-off_example =
    emit-off leaving event [] emitter emitter-WellFormed (handle 2) 5 (handle 1 ∷ [])
      (handle 4 ∷ []) (handle 3) emitter-listeners (λ e. cc, tt) (λ ps s. refl, tt)
      (λ ps s. refl, tt) (λ ps t. refl) (omega arith)

abbrev numeric : Bytes
numeric = codes "10"

-- Two listeners are added, and one is called.
on-numeric_example :
    (values (
        entries_or_nil (
          entries_cache
            (on_all (on event_hook_init numeric (handle 1)) numeric (handle 2 ∷ []))
            numeric))
      ≡ handle 1 ∷ [])
    × (get_listeners
          (on_all (on event_hook_init numeric (handle 1)) numeric (handle 2 ∷ []))
          numeric
        ≡ none)
    × ((w : Zval)
        → off (on_all (on event_hook_init numeric (handle 1)) numeric (handle 2 ∷ [])) numeric w
          ≡ on_all (on event_hook_init numeric (handle 1)) numeric (handle 2 ∷ []))
unfolding symtable_key canonical digits_value get_listeners entries_cache event_hook_init ordered
    assoc_find
on-numeric_example = on-numeric event_hook_init numeric 10 (handle 1) (handle 2 ∷ []) refl refl refl
