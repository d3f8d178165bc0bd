-- ===== src/EventEmitter/Views.antt =====
-- What an emitter holds for an event, read from its two tables, and what the operations of
-- src/internal/event_emitter.c make of it.
use respondphp.Base.{
  ℕ, ◌≡◌, refl, sym, ◌∙◌, Option, none, some, List, [], ◌∷◌, ◌++◌, Bytes, ite, arith, inl, inr,
  Option-cases,
}
use respondphp.Zend.{
  IsName, Zval, Key, str, index, Key-discrete, Hash, assoc_find, assoc_del, find-update,
  find-hash_del, find-init, items-update_fresh, items-add_absent, add,
}
use respondphp.EventEmitter.{
  EventHook, HtCounter, InternalCb, put_counter, on, off, off_at, remove_listeners, array_of,
  counter_of, array_search, event_hook_init,
}

abbrev pub Entries : Type 0
Entries = List (Key × Zval)

-- Entries of an event that has none are the empty list.
abbrev pub entries_or_nil : Option Entries → Entries
entries_or_nil none = []
entries_or_nil (some l) = l

-- The entries that `off` leaves: those without the key that the search finds, if that is a
-- number.
abbrev pub off_entries : Option Key → Entries → Entries
off_entries none l = l
off_entries (some (str k)) l = l
off_entries (some (index i)) l = assoc_del (index i) l

abbrev pub after_off : Zval → Option Entries → Option Entries
after_off z none = none
after_off z (some l) = some (off_entries (array_search z l) l)

module _ ⦃h : Hash⦄ where
  open h use {
    Table, items, find, update, del, next_free, items-init, items-del, find-items, next_free-fresh,
  }

  abbrev pub opt_items : Option (Table Zval) → Option Entries
  opt_items none = none
  opt_items (some a) = some (items a)

  abbrev pub opt_cached : Option HtCounter → Option Entries
  opt_cached none = none
  opt_cached (some c) = some (items c.ht)

  -- What PHP code sees, and what `emit` calls.
  unfoldable pub entries_hook : EventHook → Bytes → Option Entries
  entries_hook s e = opt_items (find s.hook (str e))

  unfoldable pub entries_cache : EventHook → Bytes → Option Entries
  entries_cache s e = opt_cached (find s.hook_cache (str e))

  -- The C callbacks of an event, by their indices.
  unfoldable pub entries_internal : EventHook → Bytes → Option (List (Key × InternalCb))
  entries_internal s e = elim (find s.internal_hook (str e)) [
    | none ↦ none
    | some t ↦ some (items t)
  ]

  pub entries_internal-put :
      (s : EventHook) (e d : Bytes) (c : HtCounter)
      → entries_internal (put_counter s e c) d ≡ entries_internal s d
  unfolding put_counter entries_internal
  entries_internal-put s e d c = refl

  -- The two tables list the same callables under the same indices, for every event.
  pub record InSync (s : EventHook) : Type 0 where
    pub same : (e : Bytes) → entries_hook s e ≡ entries_cache s e

  -- The index that a new listener of the event gets.
  unfoldable pub on_index : EventHook → Bytes → ℕ
  unfolding array_of
  on_index s e = next_free (array_of s e)

  items-array_of :
      (s : EventHook) (e : Bytes) → items (array_of s e) ≡ entries_or_nil (entries_hook s e)
  unfolding array_of entries_hook
  items-array_of s e = elim (Option-cases (find s.hook (str e))) [
    | inl q ↦ rw (q, array_of) items-init
    | inr (a, q) ↦ rw (q, array_of)
  ]

  items-counter_of :
      (s : EventHook) (e : Bytes) → items (counter_of s e).ht ≡ entries_or_nil (entries_cache s e)
  unfolding counter_of entries_cache
  items-counter_of s e = ground (arith, items-init {V = Zval})

  pub entries_hook-on :
      (s : EventHook) (e d : Bytes) (z : Zval)
      → IsName e
      → entries_hook (on s e z) d
        ≡ ite
            (Key-discrete (str e) (str d))
            (some (entries_or_nil (entries_hook s e) ++ (index (on_index s e), z) ∷ []))
            (entries_hook s d)
  unfolding on entries_hook on_index
  entries_hook-on s e d z n =
      rw (on, n)
        (ground (
          arith,
          find-update s.hook (str e) (str d)
              (update (array_of s e) (index (next_free (array_of s e))) z),
          items-update_fresh (array_of s e) z,
          items-array_of s e,
        ))

  -- In sync, the index of a new listener is free in the cached table too.
  on_index-absent :
      (s : EventHook) (e : Bytes)
      → InSync s
      → assoc_find (index (on_index s e)) (items (counter_of s e).ht) ≡ none
  unfolding on_index
  on_index-absent s e v =
      rw (items-counter_of s e, ← v.same e, ← items-array_of s e)
        (sym (find-items (array_of s e) (index (on_index s e))) ∙ next_free-fresh (array_of s e))

  pub entries_cache-on :
      (s : EventHook) (e d : Bytes) (z : Zval)
      → InSync s
      → entries_cache (on s e z) d
        ≡ ite
            (Key-discrete (str e) (str d))
            (some (entries_or_nil (entries_cache s e) ++ (index (on_index s e), z) ∷ []))
            (entries_cache s d)
  unfolding on entries_cache on_index
  entries_cache-on s e d z v =
      let c = counter_of s e in
      let i = index (on_index s e) in
      ground (
        arith,
        find-update s.hook_cache (str e) (str d) (record c { ht = add c.ht i z }),
        items-add_absent c.ht i z (on_index-absent s e v),
        items-counter_of s e,
      )

  pub entries_hook-remove :
      (s : EventHook) (e d : Bytes)
      → entries_hook (remove_listeners s e) d
        ≡ ite (Key-discrete (str e) (str d)) none (entries_hook s d)
  unfolding remove_listeners entries_hook
  entries_hook-remove s e d = ground (arith, find-hash_del s.hook (str e) (str d))

  pub entries_cache-remove :
      (s : EventHook) (e d : Bytes)
      → entries_cache (remove_listeners s e) d
        ≡ ite (Key-discrete (str e) (str d)) none (entries_cache s d)
  unfolding remove_listeners entries_cache
  entries_cache-remove s e d = ground (arith, find-hash_del s.hook_cache (str e) (str d))

  pub entries-init :
      (d : Bytes)
      → (entries_hook event_hook_init d ≡ none) × (entries_cache event_hook_init d ≡ none)
  unfolding event_hook_init entries_hook entries_cache
  entries-init d =
      ground (arith, find-init {V = Table Zval} (str d), find-init {V = HtCounter} (str d))

  module _ (s : EventHook) (e d : Bytes) (a : Table Zval) (c : HtCounter) where
    entries-off_at :
        (o : Option Key)
        → find s.hook (str e) ≡ some a
        → find s.hook_cache (str e) ≡ some c
        → (entries_hook (off_at s e a c o) d
            ≡ ite
                (Key-discrete (str e) (str d))
                (some (off_entries o (items a)))
                (entries_hook s d))
          × (entries_cache (off_at s e a c o) d
              ≡ ite
                  (Key-discrete (str e) (str d))
                  (some (off_entries o (items c.ht)))
                  (entries_cache s d))
    unfolding off_at entries_hook entries_cache
    entries-off_at none p q = ground arith
    entries-off_at (some (str k)) p q = ground arith
    entries-off_at (some (index i)) p q = ground (
      arith,
      find-update s.hook (str e) (str d) (del a (index i)),
      find-update s.hook_cache (str e) (str d) (record c { ht = del c.ht (index i) }),
      items-del a (index i),
      items-del c.ht (index i),
    )

  pub entries-off :
      (s : EventHook) (e d : Bytes) (z : Zval)
      → InSync s
      → (entries_hook (off s e z) d
          ≡ ite (Key-discrete (str e) (str d)) (after_off z (entries_hook s e)) (entries_hook s d))
        × (entries_cache (off s e z) d
            ≡ ite
                (Key-discrete (str e) (str d))
                (after_off z (entries_cache s e))
                (entries_cache s d))
  unfolding off entries_hook entries_cache
  entries-off s e d z v = elim (Option-cases (find s.hook_cache (str e))) [
    | inl q ↦ rw (q, off) (ground (arith, v.same e))
    | inr (c, q) ↦ elim (Option-cases (find s.hook (str e))) [
      | inl p ↦ absurd (ground (arith, v.same e))
      | inr (a, p) ↦
          ground (arith, v.same e, entries-off_at s e d a c (array_search z (items a)) p q)
    ]
  ]
