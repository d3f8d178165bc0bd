-- ===== src/Zend/Ordered.antt =====
-- A table that meets the interface `Hash`: a list of entries with a position.
use respondphp.Base.{
  ℕ, zero, suc, ◌+◌, ◌-◌, ◌<◌, ◌≤◌, ◌≡◌, refl, none, some, List, [], ◌∷◌, arith, ite, dec_lt,
  length, get_elem?, max, Bytes,
}
use respondphp.Zend.Values.{Key, str, index}
use respondphp.Zend.Assoc.{
  assoc_find, assoc_set, assoc_del, occurs_before, Distinct, values, Below, set-Distinct,
  del-Distinct,
}
use respondphp.Zend.HashTable.{Hash}

pub record Ordered (V : Type 0) : Type 0 where
  pub entries : List (Key × V)
  pub at : ℕ
  pub next : ℕ
  pub distinct : Distinct entries
  pub below : Below next entries

abbrev pub bound : Key → ℕ → ℕ
bound (str s) n = n
bound (index i) n = max n (i + 1)

module _ {V : Type 0} where
  Below-mono : (m n : ℕ) (l : List (Key × V)) → m ≤ n → Below m l → Below n l
  Below-mono m n [] h b = tt
  Below-mono m n ((str s, v) ∷ l) h b = Below-mono m n l h b
  Below-mono m n ((index i, v) ∷ l) h b = (omega arith, Below-mono m n l h b.1)

  get_elem?-values :
      (l : List (Key × V)) (i : ℕ) {v : V} → get_elem? (values l) i ≡ some v → i < length l
  get_elem?-values [] i e = cc
  get_elem?-values (x ∷ l) zero e = omega arith
  get_elem?-values (x ∷ l) (suc i) e = omega (arith, get_elem?-values l i e)

  set-Below_str :
      (n : ℕ) (s : Bytes) (v : V) (l : List (Key × V)) → Below n l → Below n (assoc_set (str s) v l)
  unfolding assoc_set
  set-Below_str n s v [] b = tt
  set-Below_str n s v ((str r, w) ∷ l) b = ground (arith, set-Below_str n s v l b)
  set-Below_str n s v ((index j, w) ∷ l) b = ground (arith, set-Below_str n s v l b.1)

  set-Below_index :
      (n i : ℕ) (v : V) (l : List (Key × V))
      → Below n l
      → Below (max n (i + 1)) (assoc_set (index i) v l)
  unfolding assoc_set
  set-Below_index n i v [] b = (omega arith, tt)
  set-Below_index n i v ((str r, w) ∷ l) b =
      ground (arith, set-Below_index n i v l b, Below-mono n (max n (i + 1)) l)
  set-Below_index n i v ((index j, w) ∷ l) b =
      ground (arith, set-Below_index n i v l b.1, Below-mono n (max n (i + 1)) l)

  pub set-Below :
      (n : ℕ) (k : Key) (v : V) (l : List (Key × V))
      → Below n l
      → Below (bound k n) (assoc_set k v l)
  set-Below n (str s) v l b = set-Below_str n s v l b
  set-Below n (index i) v l b = set-Below_index n i v l b

  pub del-Below : (n : ℕ) (k : Key) (l : List (Key × V)) → Below n l → Below n (assoc_del k l)
  unfolding assoc_del
  del-Below n k [] b = tt
  del-Below n k ((str s, v) ∷ l) b = ground (arith, del-Below n k l b)
  del-Below n k ((index i, v) ∷ l) b = ground (arith, del-Below n k l b.1)

  pub find-Below : (n : ℕ) (l : List (Key × V)) → Below n l → assoc_find (index n) l ≡ none
  unfolding assoc_find
  find-Below n [] b = refl
  find-Below n ((str s, v) ∷ l) b = ground (arith, find-Below n l b)
  find-Below n ((index i, v) ∷ l) b = ground (arith, find-Below n l b.1)

module _ {V : Type 0} where
  pub empty : Ordered V
  empty = record { entries = []; at = 0; next = 0; distinct = tt; below = tt }

  pub put : Ordered V → Key → V → Ordered V
  put t k v = record {
    entries = assoc_set k v t.entries;
    at = t.at;
    next = bound k t.next;
    distinct = set-Distinct k v t.entries t.distinct;
    below = set-Below t.next k v t.entries t.below;
  }

  pub drop : Ordered V → Key → Ordered V
  drop t k = record {
    entries = assoc_del k t.entries;
    at = t.at - occurs_before k t.at t.entries;
    next = t.next;
    distinct = del-Distinct k t.entries t.distinct;
    below = del-Below t.next k t.entries t.below;
  }

  pub rewind : Ordered V → Ordered V
  rewind t = record t { at = 0 }

  pub advance : Ordered V → Ordered V
  advance t = record t { at = ite (dec_lt t.at (length t.entries)) (t.at + 1) t.at }

  pub advance_at :
      (t : Ordered V) {v : V}
      → get_elem? (values t.entries) t.at ≡ some v
      → (advance t).at ≡ t.at + 1
  unfolding advance
  advance_at t e = ground (arith, get_elem?-values t.entries t.at e)

-- The interface has an implementation.
instance unfoldable pub ordered : Hash
unfolding empty put drop rewind advance
ordered = record {
  Table = Ordered;
  init = empty;
  items = λ t. t.entries;
  pos = λ t. t.at;
  find = λ t k. assoc_find k t.entries;
  update = put;
  del = drop;
  next_free = λ t. t.next;
  reset = rewind;
  current = λ t. get_elem? (values t.entries) t.at;
  move_forward = advance;
  items-init = refl;
  items-update = λ t k v. refl;
  items-del = λ t k. refl;
  items-reset = λ t. refl;
  items-move_forward = λ t. refl;
  items-Distinct = λ t. t.distinct;
  find-items = λ t k. refl;
  next_free-fresh = λ t. find-Below t.next t.entries t.below;
  current-items = λ t. refl;
  pos-init = refl;
  pos-reset = λ t. refl;
  pos-move_forward = advance_at;
  pos-update = λ t k v. refl;
  pos-del = λ t k. refl;
}
