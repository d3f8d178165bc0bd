-- ===== src/CString.antt =====
-- The C library's string functions that the sources call, on the bytes before the terminating
-- zero. A pointer into a string is an offset, and NULL is `none`.
use respondphp.Base.{
  ℕ, zero, suc, ◌<◌, ◌≡◌, ◌≢◌, refl, ap, Option, none, some, [], ◌∷◌, ◌++◌, Bytes, arith, Bool,
  true, false, ◌&&◌, ◌==◌, if◌then◌else◌, length, drop,
}

-- The part of a buffer that a C function sees.
unfoldable pub c_string : Bytes → Bytes
c_string [] = []
c_string (x ∷ xs) = if x == 0 then [] else x ∷ c_string xs

-- strcmp(a, b) == 0
unfoldable pub str_eq : Bytes → Bytes → Bool
str_eq [] [] = true
str_eq [] (y ∷ ys) = false
str_eq (x ∷ xs) [] = false
str_eq (x ∷ xs) (y ∷ ys) = x == y && str_eq xs ys

unfoldable pub starts_with : Bytes → Bytes → Bool
starts_with [] s = true
starts_with (p ∷ ps) [] = false
starts_with (p ∷ ps) (x ∷ xs) = x == p && starts_with ps xs

abbrev pub shift : Option ℕ → Option ℕ
shift none = none
shift (some i) = some (suc i)

unfoldable pub strchr : Bytes → ℕ → Option ℕ
strchr [] c = none
strchr (x ∷ xs) c = if x == c then some 0 else shift (strchr xs c)

unfoldable pub strstr : Bytes → Bytes → Option ℕ
unfolding starts_with
strstr [] t = if starts_with t [] then some 0 else none
strstr (x ∷ xs) t = if starts_with t (x ∷ xs) then some 0 else shift (strstr xs t)

-- No byte of the string is `c`.
abbrev pub Free : ℕ → Bytes → Type 0
Free c [] = Unit {0}
Free c (x ∷ xs) = (x ≢ c) × Free c xs

pub str_eq→eq : (a b : Bytes) → str_eq a b ≡ true → a ≡ b
unfolding str_eq
str_eq→eq [] [] e = refl
str_eq→eq [] (y ∷ ys) e = cc
str_eq→eq (x ∷ xs) [] e = cc
str_eq→eq (x ∷ xs) (y ∷ ys) e = ground (arith, str_eq→eq xs ys)

pub str_eq_refl : (a : Bytes) → str_eq a a ≡ true
unfolding str_eq
str_eq_refl [] = refl
str_eq_refl (x ∷ xs) = ground (arith, str_eq_refl xs)

pub str_eq_longer : (a b : Bytes) → length b < length a → str_eq a b ≡ false
unfolding str_eq
str_eq_longer [] b h = absurd (omega arith)
str_eq_longer (x ∷ xs) [] h = refl
str_eq_longer (x ∷ xs) (y ∷ ys) h = ground (arith, str_eq_longer xs ys)

pub starts_with-append : (p s : Bytes) → starts_with p (p ++ s) ≡ true
unfolding starts_with
starts_with-append [] s = refl
starts_with-append (x ∷ p) s = ground (arith, starts_with-append p s)

-- What a prefix leaves.
pub starts_with_rest : (p s : Bytes) → starts_with p s ≡ true → (rest : Bytes) × (s ≡ p ++ rest)
unfolding starts_with
starts_with_rest [] s e = (s, refl)
starts_with_rest (p ∷ ps) [] e = cc
starts_with_rest (p ∷ ps) (x ∷ xs) e =
    let tail : starts_with ps xs ≡ true = ground arith in
    let (rest, q) = starts_with_rest ps xs tail in (rest, ground arith)

-- `strchr` finds the first such byte: none stands before it.
pub strchr_split :
    (s : Bytes) (c i : ℕ)
    → strchr s c ≡ some i
    → (label : Bytes) × Free c label × (length label ≡ i) × (s ≡ label ++ drop i s)
unfolding strchr
strchr_split [] c i e = cc
strchr_split (x ∷ xs) c zero e = ([], tt, refl, refl)
strchr_split (x ∷ xs) c (suc j) e =
    let tail : strchr xs c ≡ some j = ground arith in
    let (label, f, n, q) = strchr_split xs c j tail in
    (x ∷ label, (ground arith, f), ap suc n, ap (◌∷◌ x) q)

pub strchr-append :
    (label s : Bytes) (c : ℕ) → Free c label → strchr (label ++ c ∷ s) c ≡ some (length label)
unfolding strchr
strchr-append [] s c f = ground arith
strchr-append (x ∷ label) s c f = ground (arith, strchr-append label s c f.1)

pub strstr_rest :
    (s t : Bytes) (i : ℕ) → strstr s t ≡ some i → (rest : Bytes) × (drop i s ≡ t ++ rest)
unfolding strstr
strstr_rest [] t zero e = starts_with_rest t [] (ground arith)
strstr_rest [] t (suc j) e = absurd (ground arith)
strstr_rest (x ∷ xs) t zero e = starts_with_rest t (x ∷ xs) (ground arith)
strstr_rest (x ∷ xs) t (suc j) e = strstr_rest xs t j (ground arith)

-- A text that begins with a byte which the label lacks is found right behind the label.
pub strstr-append :
    (label t s : Bytes) (c : ℕ)
    → Free c label
    → strstr (label ++ ((c ∷ t) ++ s)) (c ∷ t) ≡ some (length label)
unfolding strstr starts_with
strstr-append [] t s c f = ground (arith, starts_with-append t s)
strstr-append (x ∷ label) t s c f = ground (arith, strstr-append label t s c f.1)

pub drop-length-append : (a b : Bytes) → drop (length a) (a ++ b) ≡ b
drop-length-append [] b = refl
drop-length-append (x ∷ a) b = drop-length-append a b
