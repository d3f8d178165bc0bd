-- ===== src/Extension/Conformity/Lists.antt =====
-- Tests over the lists of src/respondphp.c: classes, methods, flags and names.
use respondphp.Base.{
  ℕ, zero, suc, ◌≡◌, refl, sym, not, some, List, [], ◌∷◌, Bool, true, false, ◌&&◌, ◌||◌, get_elem?,
  Bytes, ◌==◌, arith, Bool-cases, inl, inr,
}
use respondphp.Extension.{
  Flag, acc_public, acc_private, acc_static, acc_abstract, acc_final, acc_ctor,
}

module _ {ℓ} {A : Type ℓ} where
  abbrev pub all : (A → Bool) → List A → Bool
  all p [] = true
  all p (x ∷ xs) = p x && all p xs

  abbrev pub any : (A → Bool) → List A → Bool
  any p [] = false
  any p (x ∷ xs) = p x || any p xs

  pub all-get :
      (p : A → Bool) (xs : List A) (k : ℕ) {x : A}
      → all p xs ≡ true
      → get_elem? xs k ≡ some x
      → p x ≡ true
  all-get p [] k h e = cc
  all-get p (x ∷ xs) zero h e = ground arith
  all-get p (x ∷ xs) (suc k) h e = all-get p xs k (ground arith) e

  pub any-get :
      (p : A → Bool) (xs : List A)
      → any p xs ≡ true
      → (k : ℕ) × (x : A) × (get_elem? xs k ≡ some x) × (p x ≡ true)
  any-get p [] h = cc
  any-get p (x ∷ xs) h = elim (Bool-cases (p x)) [
    | inl yes_here ↦ (0, x, refl, yes_here)
    | inr not_here ↦ let (k, y, at_k, ok) = any-get p xs (rw not_here at h) in (suc k, y, at_k, ok)
  ]

abbrev pub same_bytes : Bytes → Bytes → Bool
same_bytes [] [] = true
same_bytes [] (y ∷ ys) = false
same_bytes (x ∷ xs) [] = false
same_bytes (x ∷ xs) (y ∷ ys) = x == y && same_bytes xs ys

pub same_bytes_lem : (a b : Bytes) → same_bytes a b ≡ true → a ≡ b
same_bytes_lem [] [] h = refl
same_bytes_lem [] (y ∷ ys) h = cc
same_bytes_lem (x ∷ xs) [] h = cc
same_bytes_lem (x ∷ xs) (y ∷ ys) h = ground (arith, same_bytes_lem xs ys)

abbrev pub flag_id : Flag → ℕ
flag_id acc_public = 0
flag_id acc_private = 1
flag_id acc_static = 2
flag_id acc_abstract = 3
flag_id acc_final = 4
flag_id acc_ctor = 5

abbrev pub has_flag : Flag → List Flag → Bool
has_flag f = any (λ g. flag_id f == flag_id g)

abbrev pub same_bool : Bool → Bool → Bool
same_bool true b = b
same_bool false b = not b

pub same_bool_lem : (a b : Bool) → same_bool a b ≡ true → a ≡ b
same_bool_lem true b h = sym h
same_bool_lem false true h = cc
same_bool_lem false false h = refl

pub and_left : (a b : Bool) → (a && b) ≡ true → a ≡ true
and_left true b h = refl
and_left false b h = h

pub and_right : (a b : Bool) → (a && b) ≡ true → b ≡ true
and_right true b h = h
and_right false b h = cc
