-- ===== src/EventEmitter/Invariant.antt =====
-- The well-formedness of an emitter of src/internal/event_emitter.c, which every operation keeps.
use respondphp.Base.{sym, ◌∙◌, List, [], ◌∷◌, Bytes, arith, inl, inr, Option-cases, if_pos, if_neg}
use respondphp.Zend.{IsName, Zval, str, Key-discrete, Hash, values, Distinct}
use respondphp.EventEmitter.{EventHook, on, off, remove_listeners, event_hook_init}
use respondphp.EventEmitter.Views.{
  entries_or_nil, entries_hook, InSync, on_index, entries_hook-on, entries_cache-on,
  entries_hook-remove, entries_cache-remove, entries-init, entries-off,
}
use respondphp.EventEmitter.Spec.{
  Named, AllNamed, Op, ons, offs, removes, Spec, IsIndexed, append-IsIndexed, after_off-IsIndexed,
}

module _ ⦃h : Hash⦄ where
  open h use {items-Distinct}

  unfoldable pub step : EventHook → Op → EventHook
  unfolding on off remove_listeners
  step s (ons e z) = on s e z
  step s (offs e z) = off s e z
  step s (removes e) = remove_listeners s e

  unfoldable pub run : EventHook → List Op → EventHook
  unfolding step
  run s [] = s
  run s (o ∷ os) = run (step s o) os

  -- The listeners of an event, oldest first, as `getListeners` gives them.
  unfoldable pub listeners : EventHook → Spec
  unfolding entries_hook
  listeners s e = values (entries_or_nil (entries_hook s e))

  -- Both tables agree, and every listener stands under a number.
  pub record WellFormed (s : EventHook) : Type 0 where
    pub sync : InSync s
    pub indexed : (e : Bytes) → IsIndexed (entries_or_nil (entries_hook s e))

  pub entries_hook-Distinct :
      (s : EventHook) (e : Bytes) → Distinct (entries_or_nil (entries_hook s e))
  unfolding entries_hook
  entries_hook-Distinct s e = elim (Option-cases (h.find s.hook (str e))) [
    | inl q ↦ rw q tt
    | inr (a, q) ↦ rw q (items-Distinct a)
  ]

  on-WellFormed :
      (s : EventHook) (e : Bytes) (z : Zval) → IsName e → WellFormed s → WellFormed (on s e z)
  on-WellFormed s e z n v = record {
    sync = record {
      same = λ d. ground (
        arith,
        entries_hook-on s e d z n,
        entries_cache-on s e d z v.sync,
        v.sync.same e,
        v.sync.same d,
      );
    };
    indexed = λ d. ground (
      arith,
      entries_hook-on s e d z n,
      append-IsIndexed (entries_or_nil (entries_hook s e)) (on_index s e) z (v.indexed e),
      v.indexed d,
    );
  }

  off-WellFormed : (s : EventHook) (e : Bytes) (z : Zval) → WellFormed s → WellFormed (off s e z)
  off-WellFormed s e z v = record {
    sync = record {
      same = λ d. ground (arith, entries-off s e d z v.sync, v.sync.same e, v.sync.same d);
    };
    indexed = λ d. elim (Key-discrete (str e) (str d)) [
      | yes p ↦
          rw ((entries-off s e d z v.sync).0, if_pos _ p)
            (after_off-IsIndexed z (entries_hook s e) (v.indexed e))
      | no p ↦ rw ((entries-off s e d z v.sync).0, if_neg _ p) (v.indexed d)
    ];
  }

  remove-WellFormed : (s : EventHook) (e : Bytes) → WellFormed s → WellFormed (remove_listeners s e)
  remove-WellFormed s e v = record {
    sync = record {
      same =
          λ d. ground (arith, entries_hook-remove s e d, entries_cache-remove s e d, v.sync.same d);
    };
    indexed = λ d. ground (arith, entries_hook-remove s e d, v.indexed d);
  }

  pub init-WellFormed : WellFormed event_hook_init
  init-WellFormed = record {
    sync = record { same = λ d. (entries-init d).0 ∙ sym (entries-init d).1 };
    indexed = λ d. rw (entries-init d).0 tt;
  }

  -- Every operation keeps the two tables in step: the listeners that PHP code sees under an event
  -- and the callables that `emit` calls stand under the same indices, in the same order. A listener
  -- is added under a name that does not spell an integer.
  pub step-WellFormed : (s : EventHook) (o : Op) → Named o → WellFormed s → WellFormed (step s o)
  unfolding step
  step-WellFormed s (ons e z) n v = on-WellFormed s e z n v
  step-WellFormed s (offs e z) n v = off-WellFormed s e z v
  step-WellFormed s (removes e) n v = remove-WellFormed s e v

  pub run-WellFormed :
      (s : EventHook) (os : List Op) → AllNamed os → WellFormed s → WellFormed (run s os)
  unfolding run
  run-WellFormed s [] n v = v
  run-WellFormed s (o ∷ os) n v = run-WellFormed (step s o) os n.1 (step-WellFormed s o n.0 v)
