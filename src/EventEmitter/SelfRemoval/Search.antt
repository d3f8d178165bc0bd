-- ===== src/EventEmitter/SelfRemoval/Search.antt =====
-- src/internal/event_emitter.c: where `off` finds a listener, and what it leaves.
use respondphp.Base.{
  ℕ, ◌≡◌, ◌≢◌, refl, subst, none, some, List, [], ◌∷◌, ◌++◌, Bytes, arith, inl, inr, Option-cases,
  length, drop,
}
use respondphp.Zend.{
  Zval, str, index, Hash, values, Distinct, assoc_find, assoc_del, occurs_before, del-absent,
  find-update,
}
use respondphp.EventEmitter.{EventHook, HtCounter, held, off, off_at, array_search}
use respondphp.EventEmitter.Views.{Entries, entries_hook}
use respondphp.EventEmitter.Spec.{IsIndexed, array_search-find}

-- None of these listeners is `z`.
abbrev pub Without : Zval → List Zval → Type 0
Without z [] = Unit {0}
Without z (w ∷ l) = (w ≢ z) × Without z l

-- The key under which the search finds a listener, and what deleting it does to the entries from
-- there on and to the number of entries before.
pub record Located (z : Zval) (n : ℕ) (rest : List Zval) (l : Entries) (i : ℕ) : Type 0 where
  pub searched : array_search z l ≡ some (index i)
  pub left : drop n (values (assoc_del (index i) l)) ≡ rest
  pub before : occurs_before (index i) n l ≡ 0

pub locate :
    (l : Entries) (pre rest : List Zval) (z : Zval)
    → IsIndexed l
    → Distinct l
    → Without z pre
    → values l ≡ pre ++ z ∷ rest
    → (i : ℕ) × Located z (length pre) rest l i
unfolding array_search assoc_del occurs_before
locate [] [] rest z v u w e = cc
locate [] (p ∷ pre) rest z v u w e = cc
locate ((str k, x) ∷ l) pre rest z v u w e = absurd v
locate ((index i, x) ∷ l) [] rest z v u w e = (
  i,
  record {
    searched = ground arith;
    left = ground (arith, del-absent (index i) l u.0);
    before = refl;
  },
)
locate ((index j, x) ∷ l) (p ∷ pre) rest z v u w e =
    let (i, found) = locate l pre rest z v u.1 w.1 (ground arith) in
    let apart : index j ≢ index i = λ same.
      array_search-find z (index i) l found.searched
        (subst (λ k. assoc_find k l ≡ none) same u.0) in
    (
      i,
      record {
        searched = ground (arith, found.searched);
        left = ground (arith, found.left);
        before = ground (arith, found.before);
      },
    )

module _ ⦃h : Hash⦄ where
  open h use {
    Table, items, find, update, del, current, pos, reset, move_forward, current-items, items-reset,
    items-move_forward, items-del, items-Distinct, pos-reset, pos-move_forward, pos-del,
  }

  pub hooked :
      (t : EventHook) (event : Bytes) (l : Entries)
      → entries_hook t event ≡ some l
      → (a : Table Zval) × (find t.hook (str event) ≡ some a) × (items a ≡ l)
  unfolding entries_hook
  hooked t event l e = elim (Option-cases (find t.hook (str event))) [
    | inl p ↦ let gone : none ≡ some l = rw p at e in cc
    | inr (a, p) ↦ let same : some (items a) ≡ some l = rw p at e in (a, p, cc)
  ]

  -- What `off` comes to for a listener that is found.
  abbrev pub without : EventHook → Bytes → Table Zval → HtCounter → ℕ → EventHook
  without t event a d i = record t {
    hook = update t.hook (str event) (del a (index i));
    hook_cache = update t.hook_cache (str event) (record d { ht = del d.ht (index i) });
  }

  pub off-without :
      (t : EventHook) (event : Bytes) (a : Table Zval) (d : HtCounter) (i : ℕ) (z : Zval)
      → find t.hook_cache (str event) ≡ some d
      → find t.hook (str event) ≡ some a
      → array_search z (items a) ≡ some (index i)
      → off t event z ≡ without t event a d i
  unfolding off off_at
  off-without t event a d i z p q r = rw (p, off) (rw (q, off) (rw (r, off_at) refl))

  pub held-without :
      (t : EventHook) (event : Bytes) (a : Table Zval) (d : HtCounter) (i : ℕ)
      → held (without t event a d i) event d.address ≡ some (record d { ht = del d.ht (index i) })
  unfolding held
  held-without t event a d i = ground (
    arith,
    find-update t.hook_cache (str event) (str event) (record d { ht = del d.ht (index i) }),
  )
