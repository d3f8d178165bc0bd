-- ===== src/Zend/Assoc.antt =====
-- An ordered dictionary as the list of its entries, oldest first: what a Zend hash table holds.
use respondphp.Base.{
  ℕ, zero, suc, ◌<◌, ◌≡◌, refl, ap, Option, none, some, List, [], ◌∷◌, ◌++◌, map, ite, arith,
}
use respondphp.Zend.Values.{Key, index, Key-discrete}

module _ {V : Type 0} where
  unfoldable pub assoc_find : Key → List (Key × V) → Option V
  assoc_find k [] = none
  assoc_find k ((j, v) ∷ l) = ite (Key-discrete j k) (some v) (assoc_find k l)

  -- Overwrites in place, or appends.
  unfoldable pub assoc_set : Key → V → List (Key × V) → List (Key × V)
  assoc_set k v [] = (k, v) ∷ []
  assoc_set k v ((j, w) ∷ l) = ite (Key-discrete j k) ((j, v) ∷ l) ((j, w) ∷ assoc_set k v l)

  unfoldable pub assoc_del : Key → List (Key × V) → List (Key × V)
  assoc_del k [] = []
  assoc_del k ((j, w) ∷ l) = ite (Key-discrete j k) (assoc_del k l) ((j, w) ∷ assoc_del k l)

  -- How many of the first `n` entries have the key.
  unfoldable pub occurs_before : Key → ℕ → List (Key × V) → ℕ
  occurs_before k zero l = 0
  occurs_before k (suc n) [] = 0
  occurs_before k (suc n) ((j, w) ∷ l) =
      let rest = occurs_before k n l in ite (Key-discrete j k) (suc rest) rest

  -- No key stands twice.
  abbrev pub Distinct : List (Key × V) → Type 0
  Distinct [] = Unit {0}
  Distinct ((k, v) ∷ l) = (assoc_find k l ≡ none) × Distinct l

  abbrev pub values : List (Key × V) → List V
  values = map (λ e. e.1)

  pub find-set :
      (k j : Key) (v : V) (l : List (Key × V))
      → assoc_find j (assoc_set k v l) ≡ ite (Key-discrete k j) (some v) (assoc_find j l)
  unfolding assoc_find assoc_set
  find-set k j v [] = refl
  find-set k j v ((i, w) ∷ l) = ground (arith, find-set k j v l)

  pub find-del :
      (k j : Key) (l : List (Key × V))
      → assoc_find j (assoc_del k l) ≡ ite (Key-discrete k j) none (assoc_find j l)
  unfolding assoc_find assoc_del
  find-del k j [] = ground arith
  find-del k j ((i, w) ∷ l) = ground (arith, find-del k j l)

  -- Setting an absent key appends.
  pub set-absent :
      (k : Key) (v : V) (l : List (Key × V))
      → assoc_find k l ≡ none
      → assoc_set k v l ≡ l ++ (k, v) ∷ []
  unfolding assoc_find assoc_set
  set-absent k v [] h = refl
  set-absent k v ((j, w) ∷ l) h = ground (arith, set-absent k v l)

  pub del-absent : (k : Key) (l : List (Key × V)) → assoc_find k l ≡ none → assoc_del k l ≡ l
  unfolding assoc_find assoc_del
  del-absent k [] h = refl
  del-absent k ((j, w) ∷ l) h = ground (arith, del-absent k l)

  pub set-Distinct :
      (k : Key) (v : V) (l : List (Key × V)) → Distinct l → Distinct (assoc_set k v l)
  unfolding assoc_find assoc_set
  set-Distinct k v [] d = (refl, tt)
  set-Distinct k v ((j, w) ∷ l) d = ground (arith, set-Distinct k v l d.1, find-set k j v l)

  pub del-Distinct : (k : Key) (l : List (Key × V)) → Distinct l → Distinct (assoc_del k l)
  unfolding assoc_find assoc_del
  del-Distinct k [] d = tt
  del-Distinct k ((j, w) ∷ l) d = ground (arith, del-Distinct k l d.1, find-del k j l)

  pub values-append : (l m : List (Key × V)) → values (l ++ m) ≡ values l ++ values m
  values-append [] m = refl
  values-append (e ∷ l) m = ap (◌∷◌ e.1) (values-append l m)

-- Every numeric key lies below the bound.
abbrev pub Below {ℓ} : {V : Type ℓ} → ℕ → List (Key × V) → Type 0
Below n [] = Unit {0}
Below n ((Key.str s, v) ∷ l) = Below n l
Below n ((index i, v) ∷ l) = (i < n) × Below n l
