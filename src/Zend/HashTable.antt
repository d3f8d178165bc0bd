-- ===== src/Zend/HashTable.antt =====
-- The hash table of the Zend engine as an interface: the operations that the C sources call, and
-- what is documented of them. `items` are the live entries in the order that the internal pointer
-- visits them, and `pos` is the number of live entries before that pointer.
use respondphp.Base.{
  ℕ, ◌+◌, ◌-◌, ◌≡◌, Option, none, some, List, [], ◌∷◌, ◌++◌, get_elem?, ite, sym, ◌∙◌,
}
use respondphp.Zend.Values.{Key, index, Key-discrete}
use respondphp.Zend.Assoc.{
  assoc_find, assoc_set, assoc_del, occurs_before, Distinct, values, find-set, find-del, set-absent,
  values-append,
}

pub record Hash : Type 1 where
  pub Table : Type 0 → Type 0
  -- zend_hash_init, array_init
  pub init : {V : Type 0} → Table V
  pub items : {V : Type 0} → Table V → List (Key × V)
  pub pos : {V : Type 0} → Table V → ℕ
  -- zend_hash_find and its variants
  pub find : {V : Type 0} → Table V → Key → Option V
  -- zend_hash_update and its variants; also a write through a pointer that the table holds
  pub update : {V : Type 0} → Table V → Key → V → Table V
  -- zend_hash_del and its variants
  pub del : {V : Type 0} → Table V → Key → Table V
  -- zend_hash_next_free_element
  pub next_free : {V : Type 0} → Table V → ℕ
  -- zend_hash_internal_pointer_reset, zend_hash_get_current_data, zend_hash_move_forward
  pub reset : {V : Type 0} → Table V → Table V
  pub current : {V : Type 0} → Table V → Option V
  pub move_forward : {V : Type 0} → Table V → Table V
  pub items-init : {V : Type 0} → items (init {V = V}) ≡ []
  pub items-update :
      {V : Type 0} (t : Table V) (k : Key) (v : V) → items (update t k v) ≡ assoc_set k v (items t)
  pub items-del : {V : Type 0} (t : Table V) (k : Key) → items (del t k) ≡ assoc_del k (items t)
  pub items-reset : {V : Type 0} (t : Table V) → items (reset t) ≡ items t
  pub items-move_forward : {V : Type 0} (t : Table V) → items (move_forward t) ≡ items t
  pub items-Distinct : {V : Type 0} (t : Table V) → Distinct (items t)
  pub find-items : {V : Type 0} (t : Table V) (k : Key) → find t k ≡ assoc_find k (items t)
  pub next_free-fresh : {V : Type 0} (t : Table V) → find t (index (next_free t)) ≡ none
  pub current-items : {V : Type 0} (t : Table V) → current t ≡ get_elem? (values (items t)) (pos t)
  pub pos-init : {V : Type 0} → pos (init {V = V}) ≡ 0
  pub pos-reset : {V : Type 0} (t : Table V) → pos (reset t) ≡ 0
  pub pos-move_forward :
      {V : Type 0} (t : Table V) {v : V} → current t ≡ some v → pos (move_forward t) ≡ pos t + 1
  pub pos-update : {V : Type 0} (t : Table V) (k : Key) (v : V) → pos (update t k v) ≡ pos t
  -- Deleting the entry under the pointer moves the pointer to the entry that follows.
  pub pos-del :
      {V : Type 0} (t : Table V) (k : Key)
      → pos (del t k) ≡ pos t - occurs_before k (pos t) (items t)

module _ ⦃h : Hash⦄ where
  open h use {
    Table, find, update, del, init, items, items-update, items-init, find-items, items-del,
    next_free, next_free-fresh,
  }

  -- zend_hash_add and its variants: an entry that is there already stays as it is.
  unfoldable pub add : {V : Type 0} → Table V → Key → V → Table V
  add t k v = elim (find t k) [ none ↦ update t k v | some _ ↦ t ]

  -- zend_hash_next_index_insert
  unfoldable pub next_insert : {V : Type 0} → Table V → V → Table V
  next_insert t v = update t (index (next_free t)) v

  pub find-update :
      {V : Type 0} (t : Table V) (k j : Key) (v : V)
      → find (update t k v) j ≡ ite (Key-discrete k j) (some v) (find t j)
  find-update t k j v =
      rw (find-items (update t k v) j, items-update t k v, find-items t j)
        (find-set k j v (items t))

  pub find-hash_del :
      {V : Type 0} (t : Table V) (k j : Key)
      → find (del t k) j ≡ ite (Key-discrete k j) none (find t j)
  find-hash_del t k j =
      rw (find-items (del t k) j, items-del t k, find-items t j) (find-del k j (items t))

  pub find-init : {V : Type 0} (k : Key) → find (init {V = V}) k ≡ none
  unfolding assoc_find
  find-init {V} k = rw (find-items (init {V = V}) k, items-init {V = V})

  -- The entry that is added under the next free index stands last.
  pub items-update_fresh :
      {V : Type 0} (t : Table V) (v : V)
      → items (update t (index (next_free t)) v) ≡ items t ++ (index (next_free t), v) ∷ []
  items-update_fresh t v = rw (items-update t (index (next_free t)) v) (
      set-absent (index (next_free t)) v (items t)
        (sym (find-items t (index (next_free t))) ∙ next_free-fresh t))

  pub values-next_insert :
      {V : Type 0} (t : Table V) (v : V)
      → values (items (next_insert t v)) ≡ values (items t) ++ v ∷ []
  unfolding next_insert
  values-next_insert t v =
      rw (items-update_fresh t v) (values-append (items t) ((index (next_free t), v) ∷ []))

  -- So does one that is added under an index that the table does not have.
  pub items-add_absent :
      {V : Type 0} (t : Table V) (k : Key) (v : V)
      → assoc_find k (items t) ≡ none
      → items (add t k v) ≡ items t ++ (k, v) ∷ []
  unfolding add
  items-add_absent t k v a =
      let absent : find t k ≡ none = find-items t k ∙ a in
      rw (absent, add) (rw (items-update t k v) (set-absent k v (items t) a))
