-- ===== src/EventEmitter/Spec.antt =====
-- The abstract emitter: a list of listeners for each event name, and the operations on it. Then
-- what the search of `rp_event_emitter_off` does to a list of entries, in its terms.
use respondphp.Base.{ℕ, ◌≡◌, refl, ◌≢◌, Option, none, some, List, [], ◌∷◌, ◌++◌, Bytes, ite, arith}
use respondphp.Zend.{
  IsName, Zval, Zval-discrete, Bytes-discrete, Key, str, index, assoc_find, assoc_del, values,
  Distinct, del-absent,
}
use respondphp.EventEmitter.{array_search}
use respondphp.EventEmitter.Views.{Entries, entries_or_nil, off_entries, after_off}

abbrev pub IsIndexed : Entries → Type 0
IsIndexed [] = Unit {0}
IsIndexed ((str k, z) ∷ l) = ⊥
IsIndexed ((index i, z) ∷ l) = IsIndexed l

pub append-IsIndexed :
    (l : Entries) (i : ℕ) (z : Zval) → IsIndexed l → IsIndexed (l ++ (index i, z) ∷ [])
append-IsIndexed [] i z v = tt
append-IsIndexed ((str k, w) ∷ l) i z v = v
append-IsIndexed ((index j, w) ∷ l) i z v = append-IsIndexed l i z v

del-IsIndexed : (k : Key) (l : Entries) → IsIndexed l → IsIndexed (assoc_del k l)
unfolding assoc_del
del-IsIndexed k [] v = tt
del-IsIndexed k ((str j, w) ∷ l) v = absurd v
del-IsIndexed k ((index j, w) ∷ l) v = ground (arith, del-IsIndexed k l v)

pub off_entries-IsIndexed :
    (o : Option Key) (l : Entries) → IsIndexed l → IsIndexed (off_entries o l)
off_entries-IsIndexed none l v = v
off_entries-IsIndexed (some (str k)) l v = v
off_entries-IsIndexed (some (index i)) l v = del-IsIndexed (index i) l v

-- Drops the first listener that is identical to the one given.
unfoldable pub erase_first : Zval → List Zval → List Zval
erase_first z [] = []
erase_first z (w ∷ l) = ite (Zval-discrete w z) l (w ∷ erase_first z l)

-- A key that the search finds is in the list.
pub array_search-find :
    (z : Zval) (k : Key) (l : Entries) → array_search z l ≡ some k → assoc_find k l ≢ none
unfolding array_search assoc_find
array_search-find z k [] p q = cc
array_search-find z k ((j, w) ∷ l) p q = ground (arith, array_search-find z k l)

-- Dropping the key that the search finds is dropping the first identical value.
module _ (z w : Zval) (i : ℕ) (l : Entries) (fresh : assoc_find (index i) l ≡ none) where
  values-off_entries_step :
      (o : Option Key)
      → array_search z l ≡ o
      → values (off_entries o l) ≡ erase_first z (values l)
      → values (off_entries (array_search z ((index i, w) ∷ l)) ((index i, w) ∷ l))
        ≡ erase_first z (w ∷ values l)
  unfolding array_search erase_first assoc_del
  values-off_entries_step none q ih = ground (arith, del-absent (index i) l fresh)
  values-off_entries_step (some (str k)) q ih = ground (arith, del-absent (index i) l fresh)
  values-off_entries_step (some (index j)) q ih =
      ground (arith, del-absent (index i) l fresh, array_search-find z (index j) l q)

pub values-off_entries :
    (z : Zval) (l : Entries)
    → IsIndexed l
    → Distinct l
    → values (off_entries (array_search z l) l) ≡ erase_first z (values l)
unfolding array_search erase_first
values-off_entries z [] v u = refl
values-off_entries z ((str k, w) ∷ l) v u = absurd v
values-off_entries z ((index i, w) ∷ l) v u =
    values-off_entries_step z w i l u.0 (array_search z l) refl (values-off_entries z l v u.1)

-- The operations by which PHP code changes what an emitter holds.
pub data Op : Type 0 where
  ons : Bytes → Zval → Op
  offs : Bytes → Zval → Op
  removes : Bytes → Op

-- The event names of the listeners that are added do not spell an integer.
abbrev pub Named : Op → Type 0
Named (ons e z) = IsName e
Named (offs e z) = Unit {0}
Named (removes e) = Unit {0}

abbrev pub AllNamed : List Op → Type 0
AllNamed [] = Unit {0}
AllNamed (o ∷ os) = Named o × AllNamed os

-- The specification: a list of listeners for each event name.
abbrev pub Spec : Type 0
Spec = Bytes → List Zval

unfoldable pub spec_step : Spec → Op → Spec
unfolding erase_first
spec_step m (ons e z) d = ite (Bytes-discrete e d) (m e ++ z ∷ []) (m d)
spec_step m (offs e z) d = ite (Bytes-discrete e d) (erase_first z (m e)) (m d)
spec_step m (removes e) d = ite (Bytes-discrete e d) [] (m d)

unfoldable pub spec_run : Spec → List Op → Spec
unfolding spec_step
spec_run m [] = m
spec_run m (o ∷ os) = spec_run (spec_step m o) os

pub after_off-IsIndexed :
    (z : Zval) (o : Option Entries)
    → IsIndexed (entries_or_nil o)
    → IsIndexed (entries_or_nil (after_off z o))
after_off-IsIndexed z none v = tt
after_off-IsIndexed z (some l) v = off_entries-IsIndexed (array_search z l) l v

pub values-after_off :
    (z : Zval) (o : Option Entries)
    → IsIndexed (entries_or_nil o)
    → Distinct (entries_or_nil o)
    → values (entries_or_nil (after_off z o)) ≡ erase_first z (values (entries_or_nil o))
unfolding erase_first
values-after_off z none v u = refl
values-after_off z (some l) v u = values-off_entries z l v u
