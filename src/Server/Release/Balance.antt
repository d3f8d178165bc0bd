-- ===== src/Server/Release/Balance.antt =====
-- src/internal/event_emitter.c: the end of an emitter after any of its operations.
use respondphp.Base.{
  ◌≡◌, refl, sym, ◌∙◌, Option, none, some, List, [], ◌∷◌, ◌++◌, Bytes, inl, inr, ◌⊎◌,
}
use respondphp.Zend.{
  IsName, Zval, Key, str, index, Hash, assoc_find, items-add_absent, items-update_fresh,
}
use respondphp.EventEmitter.{
  EventHook, HtCounter, on, off, off_at, remove_listeners, event_hook_init, array_search, array_of,
  counter_of,
}
use respondphp.EventEmitter.Spec.{Named, AllNamed, Op, ons, offs, removes}
use respondphp.EventEmitter.Invariant.{step, run, WellFormed, init-WellFormed, run-WellFormed}
use respondphp.Server.Release.{event_hook_destroy}
use respondphp.Server.Release.Listeners.{
  freed, dropped, destroy-Splits, Rows, Rows-set, Rows-del, Rows-find, Rows-listeners, Found,
}

module _ ⦃h : Hash⦄ where
  open h use {
    Table, items, items-init, items-update, items-del, find-items, next_free, next_free-fresh, find,
    init, update, del,
  }

  abbrev pub Aligned : EventHook → Type 0
  Aligned s = Rows (items s.hook_cache) (items s.hook)

  -- Either table has the event if the other has.
  looked_up :
      (s : EventHook) (e : Bytes)
      → Aligned s
      → ((find s.hook_cache (str e) ≡ none) × (find s.hook (str e) ≡ none))
        ⊎ ((c : HtCounter) × (a : Table Zval) × (find s.hook_cache (str e) ≡ some c)
            × (find s.hook (str e) ≡ some a)
            × (items c.ht ≡ items a))
  looked_up s e r = go (find s.hook_cache (str e)) (find s.hook (str e)) refl refl (
      rw (find-items s.hook_cache (str e), find-items s.hook (str e))
        (Rows-find (str e) (items s.hook_cache) (items s.hook) r))
    where
      go :
          (x : Option HtCounter) (y : Option (Table Zval))
          → find s.hook_cache (str e) ≡ x
          → find s.hook (str e) ≡ y
          → Found x y
          → ((find s.hook_cache (str e) ≡ none) × (find s.hook (str e) ≡ none))
            ⊎ ((c : HtCounter) × (a : Table Zval) × (find s.hook_cache (str e) ≡ some c)
                × (find s.hook (str e) ≡ some a)
                × (items c.ht ≡ items a))
      go none none p q f = inl (p, q)
      go none (some a) p q f = absurd f
      go (some c) none p q f = absurd f
      go (some c) (some a) p q f = inr (c, a, p, q, f)

  both_written :
      (s : EventHook) (e : Bytes) (c : HtCounter) (a : Table Zval)
      → items c.ht ≡ items a
      → Aligned s
      → Rows (items (update s.hook_cache (str e) c)) (items (update s.hook (str e) a))
  both_written s e c a same r =
      rw (items-update s.hook_cache (str e) c, items-update s.hook (str e) a)
        (Rows-set (str e) c a (items s.hook_cache) (items s.hook) same r)

  counter-array :
      (s : EventHook) (e : Bytes) → Aligned s → items (counter_of s e).ht ≡ items (array_of s e)
  unfolding counter_of array_of
  counter-array s e r = elim (looked_up s e r) [
    | inl (p, q) ↦ rw (p, q, counter_of, array_of) refl
    | inr (c, a, p, q, same) ↦ rw (p, q, counter_of, array_of) same
  ]

  on-Aligned : (s : EventHook) (e : Bytes) (z : Zval) → IsName e → Aligned s → Aligned (on s e z)
  unfolding on
  on-Aligned s e z n r =
      rw (Aligned, on, n)
        (both_written s e _ _ (items-add_absent (counter_of s e).ht k z fresh ∙ last) r)
    where
      k : Key
      k = index (next_free (array_of s e))

      fresh : assoc_find k (items (counter_of s e).ht) ≡ none
      fresh =
          rw (counter-array s e r)
            (sym (find-items (array_of s e) k) ∙ next_free-fresh (array_of s e))

      last : items (counter_of s e).ht ++ (k, z) ∷ [] ≡ items (update (array_of s e) k z)
      last = rw (counter-array s e r) (sym (items-update_fresh (array_of s e) z))

  off_at-Aligned :
      (s : EventHook) (e : Bytes) (a : Table Zval) (c : HtCounter) (k : Option Key)
      → items c.ht ≡ items a
      → Aligned s
      → Aligned (off_at s e a c k)
  unfolding off_at
  off_at-Aligned s e a c none same r = r
  off_at-Aligned s e a c (some (str k)) same r = r
  off_at-Aligned s e a c (some (index i)) same r =
      both_written s e (record c { ht = del c.ht (index i) }) (del a (index i))
        (rw (items-del c.ht (index i), items-del a (index i), same) refl) r

  off-Aligned : (s : EventHook) (e : Bytes) (z : Zval) → Aligned s → Aligned (off s e z)
  unfolding off
  off-Aligned s e z r = elim (looked_up s e r) [
    | inl (p, q) ↦ rw (Aligned, off, p) r
    | inr (c, a, p, q, same) ↦
        rw (Aligned, off, p, q) (off_at-Aligned s e a c (array_search z (items a)) same r)
  ]

  remove-Aligned : (s : EventHook) (e : Bytes) → Aligned s → Aligned (remove_listeners s e)
  unfolding remove_listeners
  remove-Aligned s e r =
      rw (items-del s.hook_cache (str e), items-del s.hook (str e))
        (Rows-del (str e) (items s.hook_cache) (items s.hook) r)

  step-Aligned : (s : EventHook) (o : Op) → Named o → Aligned s → Aligned (step s o)
  unfolding step
  step-Aligned s (ons e z) n r = on-Aligned s e z n r
  step-Aligned s (offs e z) n r = off-Aligned s e z r
  step-Aligned s (removes e) n r = remove-Aligned s e r

  run-Aligned : (s : EventHook) (os : List Op) → AllNamed os → Aligned s → Aligned (run s os)
  unfolding run
  run-Aligned s [] n r = r
  run-Aligned s (o ∷ os) n r = run-Aligned (step s o) os n.1 (step-Aligned s o n.0 r)

  init-Aligned : Aligned event_hook_init
  unfolding event_hook_init
  init-Aligned = rw (items-init {V = HtCounter}, items-init {V = Table Zval}) tt

  -- After any of its operations on a new emitter, the listeners that PHP code sees and the
  -- callables that `emit` calls stand under the same indices, in the same order, and both tables have
  -- the same events in the same order; the emitter's end frees the function info of exactly the
  -- listeners of which it drops a reference. A listener is added under a name that does not spell an
  -- integer.
  pub run-destroy :
      (os : List Op)
      → AllNamed os
      → WellFormed (run event_hook_init os)
        × Aligned (run event_hook_init os)
        × (freed (event_hook_destroy (run event_hook_init os))
            ≡ dropped (event_hook_destroy (run event_hook_init os)))
  run-destroy os named =
      let s = run event_hook_init os in
      let aligned : Aligned s = run-Aligned event_hook_init os named init-Aligned in
      let done = destroy-Splits s in
      (
        run-WellFormed event_hook_init os named init-WellFormed,
        aligned,
        done.frees_them
            ∙ Rows-listeners (items s.hook_cache) (items s.hook) aligned
            ∙ sym done.drops_them,
      )
