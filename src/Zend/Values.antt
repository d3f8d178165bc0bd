-- ===== src/Zend/Values.antt =====
-- Zend values (`zval`) and hash keys, as far as the C sources build or inspect them.
use respondphp.Base.{
  ℕ, ◌+◌, ◌-◌, ◌*◌, ◌^◌, ◌≡◌, Option, none, some, [], ◌∷◌, Bool, ◌&&◌, Bytes, ltb, leb, ◌==◌,
  if◌then◌else◌, ℕ_discrete,
}

-- `zend_long`; `negsuc n` is -(n + 1).
pub data ℤ : Type 0 where
  pos : ℕ → ℤ
  negsuc : ℕ → ℤ

-- Objects, closures and arrays are handles, compared by identity as `===` compares them.
pub data Zval : Type 0 where
  null : Zval
  bool : Bool → Zval
  long : ℤ → Zval
  string : Bytes → Zval
  handle : ℕ → Zval

-- A table is keyed by strings and by unsigned numbers.
pub data Key : Type 0 where
  str : Bytes → Key
  index : ℕ → Key

unfoldable pub Zval-discrete : Discrete Zval
Zval-discrete = hlevel ℕ_discrete

unfoldable pub Key-discrete : Discrete Key
Key-discrete = hlevel ℕ_discrete

unfoldable pub Bytes-discrete : Discrete Bytes
Bytes-discrete = hlevel ℕ_discrete

-- A decimal number without a sign and without zeros in front.
unfoldable pub digits_value : ℕ → Bytes → Option ℕ
digits_value acc [] = some acc
digits_value acc (c ∷ cs) =
    let rest = digits_value (acc * 10 + (c - b'0')) cs in
    if leb b'0' c && leb c b'9' then rest else none

unfoldable pub canonical : Bytes → Option ℕ
unfolding digits_value
canonical [] = none
canonical (c ∷ []) = digits_value 0 (c ∷ [])
canonical (c ∷ d ∷ ds) = if c == b'0' then none else digits_value 0 (c ∷ d ∷ ds)

-- ZEND_HANDLE_NUMERIC_STR: the functions `add_assoc_…` and `zend_symtable_…` store a string that
-- spells a 64-bit integer under that number.
unfoldable pub symtable_key : Bytes → Key
unfolding canonical
symtable_key [] = str []
symtable_key (c ∷ cs) =
    if c == b'-'
    then elim (canonical cs) [
      | none ↦ str (c ∷ cs)
      | some n ↦ if ltb 0 n && leb n (2 ^ 63) then index (2 ^ 64 - n) else str (c ∷ cs)
    ]
    else elim (canonical (c ∷ cs)) [
      | none ↦ str (c ∷ cs)
      | some n ↦ if ltb n (2 ^ 63) then index n else str (c ∷ cs)
    ]

-- A string that is stored as it is.
abbrev pub IsName : Bytes → Type 0
IsName b = symtable_key b ≡ str b
