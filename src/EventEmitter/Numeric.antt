-- ===== src/EventEmitter/Numeric.antt =====
-- src/internal/event_emitter.c: events whose names spell an integer.
use respondphp.Base.{
  ℕ, ◌≡◌, refl, ◌∙◌, none, some, List, [], ◌∷◌, Bytes, arith, if_pos, Option-cases, inl, inr,
}
use respondphp.Zend.{
  Zval, str, values, index, symtable_key, Hash, add, assoc_find, find-update, items-add_absent,
}
use respondphp.EventEmitter.{EventHook, on, off, get_listeners, array_of, counter_of}
use respondphp.EventEmitter.Views.{Entries, entries_or_nil, entries_cache}

module _ ⦃h : Hash⦄ where
  open h use {
    Table, items, find, update, init, next_free, next_free-fresh, items-init, items-update,
    find-items,
  }

  abbrev pub on_all : EventHook → Bytes → List Zval → EventHook
  on_all s e [] = s
  on_all s e (z ∷ zs) = on_all (on s e z) e zs

  module _ (s : EventHook) (e : Bytes) (n : ℕ) (numeric : symtable_key e ≡ index n) where
    abbrev first : ℕ
    first = next_free (init {V = Zval})

    -- The array is stored under the number, and looked for under the string.
    on-hidden : (z : Zval) → get_listeners s e ≡ none → get_listeners (on s e z) e ≡ none
    unfolding get_listeners on
    on-hidden z absent =
        rw (numeric, find-update s.hook (index n) (str e) _) (ground (arith, absent))

    off-hidden : (w : Zval) → get_listeners s e ≡ none → off s e w ≡ s
    unfolding get_listeners off
    off-hidden w absent = ground (arith, absent)

    -- The callable table of the event, as `on` leaves it.
    cache-on :
        (z : Zval)
        → get_listeners s e ≡ none
        → entries_cache (on s e z) e ≡ some (items (add (counter_of s e).ht (index first) z))
    unfolding get_listeners on entries_cache array_of
    cache-on z absent =
        rw (absent, array_of)
          (ground (
            arith,
            find-update s.hook_cache (str e) (str e)
                (record (counter_of s e) { ht = add (counter_of s e).ht (index first) z }),
          ))

    on-first :
        (z : Zval)
        → get_listeners s e ≡ none
        → entries_cache s e ≡ none
        → entries_cache (on s e z) e ≡ some ((index first, z) ∷ [])
    unfolding entries_cache counter_of assoc_find
    on-first z absent no_cache = elim (Option-cases (find s.hook_cache (str e))) [
      | inl p ↦
          cache-on z absent
          ∙ rw (p, counter_of)
              (rw (items-add_absent init (index first) z (rw items-init refl), items-init) refl)
      | inr (c, p) ↦ let gone : some (items c.ht) ≡ none = rw p at no_cache in cc
    ]

    on-again :
        (w z : Zval) (l : Entries)
        → get_listeners s e ≡ none
        → entries_cache s e ≡ some ((index first, z) ∷ l)
        → entries_cache (on s e w) e ≡ some ((index first, z) ∷ l)
    unfolding entries_cache counter_of assoc_find add
    on-again w z l absent cached = elim (Option-cases (find s.hook_cache (str e))) [
      | inl p ↦ let gone : none ≡ some ((index first, z) ∷ l) = rw p at cached in cc
      | inr (c, p) ↦
          let held : some (items c.ht) ≡ some ((index first, z) ∷ l) = rw p at cached in
          let same : items c.ht ≡ (index first, z) ∷ l = cc in
          let there : find c.ht (index first) ≡ some z =
            rw (find-items c.ht (index first), same, if_pos _ refl) refl in
          cache-on w absent ∙ rw (p, counter_of) (rw (there, add) (rw same refl))
    ]

  all_hidden :
      (s : EventHook) (e : Bytes) (n : ℕ) (z : Zval) (more : List Zval)
      → symtable_key e ≡ index n
      → get_listeners s e ≡ none
      → entries_cache s e ≡ some ((index (next_free (init {V = Zval})), z) ∷ [])
      → (get_listeners (on_all s e more) e ≡ none)
        × (entries_cache (on_all s e more) e ≡ some ((index (next_free (init {V = Zval})), z) ∷ []))
  all_hidden s e n z [] numeric absent cached = (absent, cached)
  all_hidden s e n z (w ∷ more) numeric absent cached =
      all_hidden (on s e w) e n z more numeric (on-hidden s e n numeric w absent)
        (on-again s e n numeric w z [] absent cached)

  -- Of the listeners that are added under a name that spells an integer, the table that `emit` walks
  -- has the first alone; `getListeners` shows none of them, and `off` removes none. The emitter had
  -- nothing for the event before.
  pub on-numeric :
      (s : EventHook) (e : Bytes) (n : ℕ) (z : Zval) (more : List Zval)
      → symtable_key e ≡ index n
      → get_listeners s e ≡ none
      → entries_cache s e ≡ none
      → (values (entries_or_nil (entries_cache (on_all (on s e z) e more) e)) ≡ z ∷ [])
        × (get_listeners (on_all (on s e z) e more) e ≡ none)
        × ((w : Zval) → off (on_all (on s e z) e more) e w ≡ on_all (on s e z) e more)
  on-numeric s e n z more numeric absent no_cache =
      let (hidden, cached) =
        all_hidden (on s e z) e n z more numeric (on-hidden s e n numeric z absent)
          (on-first s e n numeric z absent no_cache) in
      (rw cached refl, hidden, λ w. off-hidden (on_all (on s e z) e more) e n numeric w hidden)
