-- ===== src/Extension/Conformity/Calls.antt =====
-- Tests of the signatures of methods that run, and what they say.
use respondphp.Base.{
  ℕ, zero, suc, ◌≡◌, refl, ap, ◌∙◌, ◌⊎◌, inl, inr, Option, none, some, List, [], ◌∷◌, Bool, true,
  false, ◌&&◌, get_elem?, leb, arith,
}
use respondphp.Extension.{
  ArgType, is_long, is_string, is_array, is_bool, is_callable, is_object, Argument, ArgInfo,
}
use respondphp.Extension.Conformity.Lists.{
  same_bytes, same_bytes_lem, same_bool, same_bool_lem, and_left, and_right,
}
use respondphp.Extension.Conformity.{required_num, Accepts}

abbrev pub same_type : ArgType → ArgType → Bool
same_type (is_object c) (is_object d) = same_bytes c d
same_type is_long is_long = true
same_type is_string is_string = true
same_type is_array is_array = true
same_type is_bool is_bool = true
same_type is_callable is_callable = true
same_type _ _ = false

same_type_lem : (a b : ArgType) → same_type a b ≡ true → a ≡ b
same_type_lem (is_object c) (is_object d) h = ap is_object (same_bytes_lem c d h)
same_type_lem is_long is_long h = refl
same_type_lem is_string is_string h = refl
same_type_lem is_array is_array h = refl
same_type_lem is_bool is_bool h = refl
same_type_lem is_callable is_callable h = refl
same_type_lem _ _ h = cc

abbrev pub same_optional : {A : Type 0} → (A → A → Bool) → Option A → Option A → Bool
same_optional same none none = true
same_optional same (some a) (some b) = same a b
same_optional same _ _ = false

same_optional_lem :
    {A : Type 0} (same : A → A → Bool)
    → ((a b : A) → same a b ≡ true → a ≡ b)
    → (x y : Option A) → same_optional same x y ≡ true
    → x ≡ y
same_optional_lem same lem none none h = refl
same_optional_lem same lem (some a) (some b) h = ap some (lem a b h)
same_optional_lem same lem none (some b) h = cc
same_optional_lem same lem (some a) none h = cc

abbrev pub same_result : ArgType × Bool → ArgType × Bool → Bool
same_result a b = same_type a.0 b.0 && same_bool a.1 b.1

same_result_lem : (a b : ArgType × Bool) → same_result a b ≡ true → a ≡ b
same_result_lem (t, n) (u, m) h =
    let types = same_type_lem t u (and_left _ _ h) in
    let nulls = same_bool_lem n m (and_right (same_type t u) _ h) in cc

-- As the first argument the second one
abbrev pub same_argument : Argument → Argument → Bool
same_argument b a =
    same_optional same_type b.type a.type
    && (same_bool b.allow_null a.allow_null && same_bool b.variadic a.variadic)

abbrev pub takes_all : List Argument → List Argument → Bool
takes_all own [] = true
takes_all [] (a ∷ wanted) = false
takes_all (b ∷ own) (a ∷ wanted) = same_argument b a && takes_all own wanted

abbrev pub gives : Option (ArgType × Bool) → Option (ArgType × Bool) → Bool
gives own none = true
gives own (some t) = same_optional same_result own (some t)

abbrev pub accepts : ArgInfo → ArgInfo → Bool
accepts own wanted =
    leb (required_num own) (required_num wanted)
    && (gives own.returns wanted.returns && takes_all own.arguments wanted.arguments)

takes_all_lem :
    (own wanted : List Argument) (k : ℕ) (a : Argument)
    → takes_all own wanted ≡ true
    → get_elem? wanted k ≡ some a
    → (b : Argument) × (get_elem? own k ≡ some b)
      × (b.type ≡ a.type)
      × (b.allow_null ≡ a.allow_null)
      × (b.variadic ≡ a.variadic)
takes_all_lem own [] k a h e = cc
takes_all_lem [] (w ∷ wanted) k a h e = cc
takes_all_lem (b ∷ own) (w ∷ wanted) zero a h e =
    let same : same_argument b w ≡ true = and_left _ _ h in
    let rest = and_right (same_optional same_type b.type w.type) _ same in
    let it : w ≡ a = cc in
    (
      b,
      refl,
      same_optional_lem same_type same_type_lem b.type w.type (and_left _ _ same)
          ∙ ap (λ x. x.type) it,
      same_bool_lem _ _ (and_left (same_bool b.allow_null w.allow_null) _ rest)
          ∙ ap (λ x. x.allow_null) it,
      same_bool_lem _ _ (and_right (same_bool b.allow_null w.allow_null) _ rest)
          ∙ ap (λ x. x.variadic) it,
    )
takes_all_lem (b ∷ own) (w ∷ wanted) (suc k) a h e =
    takes_all_lem own wanted k a (and_right (same_argument b w) _ h) e

gives_lem :
    (own wanted : Option (ArgType × Bool))
    → gives own wanted ≡ true
    → (wanted ≡ none) ⊎ (own ≡ wanted)
gives_lem own none h = inl refl
gives_lem own (some t) h = inr (same_optional_lem same_result same_result_lem own (some t) h)

pub accepts-Accepts : (own wanted : ArgInfo) → accepts own wanted ≡ true → Accepts own wanted
accepts-Accepts own wanted h =
    let fewer = and_left (leb (required_num own) (required_num wanted)) _ h in
    let rest = and_right (leb (required_num own) (required_num wanted)) _ h in
    (
      ground arith,
      gives_lem own.returns wanted.returns (and_left (gives own.returns wanted.returns) _ rest),
      λ k a e.
          takes_all_lem own.arguments wanted.arguments k a
            (and_right (gives own.returns wanted.returns) _ rest) e,
    )
