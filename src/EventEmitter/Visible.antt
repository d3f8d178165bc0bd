-- ===== src/EventEmitter/Visible.antt =====
-- What PHP code can see of an emitter of src/internal/event_emitter.c: the emitters up to the
-- arrays that getListeners gives, with their indices, whatever the order of the events in the tables
-- is.
use respondphp.Base.{
  ◌≡◌, refl, sym, ap, ◌∙◌, Option, none, some, List, [], ◌∷◌, Bytes, arith, ite, Option-cases, inl,
  inr,
}
use mathlib.Core.Quot
use mathlib.Core.Quot.{Quot, Quot-set}
use respondphp.Zend.{
  Zval, Key, str, index, IsName, Hash, Bytes-discrete, find-update, find-hash_del,
}
use respondphp.EventEmitter.{
  EventHook, HtCounter, on, off, off_at, remove_listeners, get_listeners, array_of, array_search,
}
use respondphp.EventEmitter.Views.{InSync, entries_hook, entries_cache}
use respondphp.EventEmitter.Spec.{Named, AllNamed, Op, ons, offs, removes}
use respondphp.EventEmitter.Invariant.{step, run, WellFormed, step-WellFormed, run-WellFormed}

abbrev pub event_of : Op → Bytes
event_of (ons e z) = e
event_of (offs e z) = e
event_of (removes e) = e

-- The operations on one event
unfoldable pub of_event : Bytes → List Op → List Op
of_event d [] = []
of_event d (o ∷ os) = ite (Bytes-discrete (event_of o) d) (o ∷ of_event d os) (of_event d os)

module _ ⦃h : Hash⦄ where
  open h use {Table, find, update, del, items, init, next_free}

  abbrev array_or_new : Option (Table Zval) → Table Zval
  array_or_new none = init
  array_or_new (some a) = a

  abbrev without_key : Option Key → Table Zval → Table Zval
  without_key none a = a
  without_key (some (str k)) a = a
  without_key (some (index i)) a = del a (index i)

  -- What an operation makes of the array of its own event.
  abbrev array_step : Option (Table Zval) → Op → Option (Table Zval)
  array_step o (ons e z) = some (update (array_or_new o) (index (next_free (array_or_new o))) z)
  array_step none (offs e z) = none
  array_step (some a) (offs e z) = some (without_key (array_search z (items a)) a)
  array_step o (removes e) = none

  array_run : Option (Table Zval) → List Op → Option (Table Zval)
  array_run o [] = o
  array_run o (p ∷ ps) = array_run (array_step o p) ps

  get_listeners-on :
      (s : EventHook) (e d : Bytes) (z : Zval)
      → IsName e
      → get_listeners (on s e z) d
        ≡ ite (Bytes-discrete e d) (array_step (get_listeners s e) (ons e z)) (get_listeners s d)
  unfolding on get_listeners array_of
  get_listeners-on s e d z n =
      rw (on, n)
        (ground (
          arith,
          find-update s.hook (str e) (str d)
              (update (array_of s e) (index (next_free (array_of s e))) z),
        ))

  get_listeners-off_at :
      (s : EventHook) (e d : Bytes) (a : Table Zval) (c : HtCounter) (o : Option Key)
      → find s.hook (str e) ≡ some a
      → get_listeners (off_at s e a c o) d
        ≡ ite (Bytes-discrete e d) (some (without_key o a)) (get_listeners s d)
  unfolding off_at get_listeners
  get_listeners-off_at s e d a c none found = ground arith
  get_listeners-off_at s e d a c (some (str k)) found = ground arith
  get_listeners-off_at s e d a c (some (index i)) found =
      ground (arith, find-update s.hook (str e) (str d) (del a (index i)))

  get_listeners-off :
      (s : EventHook) (e d : Bytes) (z : Zval)
      → InSync s
      → get_listeners (off s e z) d
        ≡ ite (Bytes-discrete e d) (array_step (get_listeners s e) (offs e z)) (get_listeners s d)
  unfolding off get_listeners entries_hook entries_cache
  get_listeners-off s e d z v = elim (Option-cases (find s.hook (str e))) [
    | inl absent ↦ elim (Option-cases (find s.hook_cache (str e))) [
      | inl gone ↦ rw (gone, off, absent) (ground arith)
      | inr (c, cached) ↦ absurd (ground (arith, v.same e))
    ]
    | inr (a, found) ↦ elim (Option-cases (find s.hook_cache (str e))) [
      | inl gone ↦ absurd (ground (arith, v.same e))
      | inr (c, cached) ↦
          rw (cached, off, found) (get_listeners-off_at s e d a c (array_search z (items a)) found)
    ]
  ]

  get_listeners-remove :
      (s : EventHook) (e d : Bytes)
      → get_listeners (remove_listeners s e) d ≡ ite (Bytes-discrete e d) none (get_listeners s d)
  unfolding remove_listeners get_listeners
  get_listeners-remove s e d = ground (arith, find-hash_del s.hook (str e) (str d))

  -- An operation changes the array of its own event alone, as that array was.
  get_listeners-step :
      (s : EventHook) (o : Op) (d : Bytes)
      → Named o
      → WellFormed s
      → get_listeners (step s o) d
        ≡ ite
            (Bytes-discrete (event_of o) d)
            (array_step (get_listeners s (event_of o)) o)
            (get_listeners s d)
  unfolding step
  get_listeners-step s (ons e z) d n v = get_listeners-on s e d z n
  get_listeners-step s (offs e z) d n v = get_listeners-off s e d z v.sync
  get_listeners-step s (removes e) d n v = get_listeners-remove s e d

  get_listeners-run :
      (d : Bytes) (os : List Op) (s : EventHook)
      → AllNamed os
      → WellFormed s
      → get_listeners (run s os) d ≡ array_run (get_listeners s d) (of_event d os)
  unfolding run of_event array_run
  get_listeners-run d [] s n v = refl
  get_listeners-run d (o ∷ os) s n v =
      get_listeners-run d os (step s o) n.1 (step-WellFormed s o n.0 v)
      ∙ decided (Bytes-discrete (event_of o) d) (get_listeners-step s o d n.0 v)
    where
      decided :
          (same : Dec (event_of o ≡ d))
          → get_listeners (step s o) d
            ≡ ite same (array_step (get_listeners s (event_of o)) o) (get_listeners s d)
          → array_run (get_listeners (step s o) d) (of_event d os)
            ≡ array_run (get_listeners s d) (ite same (o ∷ of_event d os) (of_event d os))
      decided (yes p) e =
          rw e (ap (λ x. array_run (array_step (get_listeners s x) o) (of_event d os)) p)
      decided (no p) e = rw e refl

  -- getListeners gives the same array, or NULL, for both emitters, for every event.
  abbrev pub LooksLike : (a b : (s : EventHook) × WellFormed s) → Type 0
  LooksLike a b = (d : Bytes) → get_listeners a.0 d ≡ get_listeners b.0 d

  abbrev pub Visible : Type 0
  Visible = Quot LooksLike

  abbrev pub visible : (s : EventHook) → WellFormed s → Visible
  visible s v = Quot.mk (s, v)

  pub after-LooksLike :
      (os : List Op) (n : AllNamed os) (a b : (s : EventHook) × WellFormed s)
      → LooksLike a b
      → LooksLike
          (run a.0 os, run-WellFormed a.0 os n a.1)
          (run b.0 os, run-WellFormed b.0 os n b.1)
  after-LooksLike os n a b same d =
      get_listeners-run d os a.0 n a.1
      ∙ ap (λ o. array_run o (of_event d os)) (same d)
      ∙ sym (get_listeners-run d os b.0 n b.1)

  -- A history of operations, on what PHP code sees
  unfoldable pub after : (os : List Op) → AllNamed os → Visible → Visible
  after os n =
      Quot.lift Quot-set (λ a. Quot.mk (run a.0 os, run-WellFormed a.0 os n a.1))
        (λ a b same. Quot.sound (after-LooksLike os n a b same))

  -- Two histories of an emitter that have the same operations, in the same order, on each event,
  -- leave it such that getListeners gives the same array for every event, indices included, or NULL,
  -- whatever the order between events is. Listeners are added under names that do not spell an
  -- integer.
  pub after-of_event :
      (os ps : List Op) (n : AllNamed os) (k : AllNamed ps)
      → ((d : Bytes) → of_event d os ≡ of_event d ps)
      → (v : Visible) → after os n v ≡ after ps k v
  unfolding after
  after-of_event os ps n k same =
      Quot.ind (λ v. Quot-set _ _)
        (λ a. Quot.sound (λ d.
          get_listeners-run d os a.0 n a.1
          ∙ ap (λ l. array_run (get_listeners a.0 d) l) (same d)
          ∙ sym (get_listeners-run d ps a.0 k a.1)))
