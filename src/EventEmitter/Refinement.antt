-- ===== src/EventEmitter/Refinement.antt =====
-- The two hash tables of src/internal/event_emitter.c implement the abstract emitter.
use respondphp.Base.{◌≡◌, refl, ap, ◌∙◌, List, [], ◌∷◌, Bytes, arith, fun_ext}
use respondphp.Zend.{IsName, Zval, index, Hash, values-append}
use respondphp.EventEmitter.{EventHook, on, off, remove_listeners}
use respondphp.EventEmitter.Views.{
  entries_or_nil, entries_hook, on_index, entries_hook-on, entries_hook-remove, entries-off,
}
use respondphp.EventEmitter.Spec.{
  Named, AllNamed, Op, ons, offs, removes, spec_step, spec_run, values-after_off,
}
use respondphp.EventEmitter.Invariant.{
  step, run, listeners, WellFormed, entries_hook-Distinct, step-WellFormed,
}

module _ ⦃h : Hash⦄ where
  pub listeners-on :
      (s : EventHook) (e d : Bytes) (z : Zval)
      → IsName e
      → listeners (on s e z) d ≡ spec_step (listeners s) (ons e z) d
  unfolding listeners spec_step
  listeners-on s e d z n = ground (
    arith,
    entries_hook-on s e d z n,
    values-append (entries_or_nil (entries_hook s e)) ((index (on_index s e), z) ∷ []),
  )

  listeners-off :
      (s : EventHook) (e d : Bytes) (z : Zval)
      → WellFormed s
      → listeners (off s e z) d ≡ spec_step (listeners s) (offs e z) d
  unfolding listeners spec_step
  listeners-off s e d z v = ground (
    arith,
    (entries-off s e d z v.sync).0,
    values-after_off z (entries_hook s e) (v.indexed e) (entries_hook-Distinct s e),
  )

  listeners-remove :
      (s : EventHook) (e d : Bytes)
      → listeners (remove_listeners s e) d ≡ spec_step (listeners s) (removes e) d
  unfolding listeners spec_step
  listeners-remove s e d = ground (arith, entries_hook-remove s e d)

  listeners-step :
      (s : EventHook) (o : Op)
      → Named o
      → WellFormed s
      → listeners (step s o) ≡ spec_step (listeners s) o
  unfolding step
  listeners-step s (ons e z) n v = fun_ext (λ d. listeners-on s e d z n)
  listeners-step s (offs e z) n v = fun_ext (λ d. listeners-off s e d z v)
  listeners-step s (removes e) n v = fun_ext (λ d. listeners-remove s e d)

  -- From any well-formed emitter, any sequence of on, off and removeListeners leaves the listeners
  -- that the specification leaves: `on` appends, `off` drops the first identical listener, and
  -- removeListeners drops all, each for its own event only. Listeners are added under names that do
  -- not spell an integer.
  pub listeners-run :
      (s : EventHook) (os : List Op)
      → AllNamed os
      → WellFormed s
      → listeners (run s os) ≡ spec_run (listeners s) os
  unfolding run spec_run
  listeners-run s [] n v = refl
  listeners-run s (o ∷ os) n v =
      listeners-run (step s o) os n.1 (step-WellFormed s o n.0 v)
      ∙ ap (λ m. spec_run m os) (listeners-step s o n.0 v)
