-- ===== src/SecureConnector/Names.antt =====
-- The host name checks of src/connector/secure.c.
use respondphp.Base.{
  ℕ, ◌<◌, ◌≡◌, refl, ap, ◌∙◌, sym, ◌↔◌, inl, inr, Bool-cases, Option-cases, length-append, arith,
  Option, none, some, [], ◌∷◌, ◌++◌, Bytes, Bool, true, false, not, ◌&&◌, ◌==◌, ltb, if◌then◌else◌,
  length, drop, get_elem?,
}
use mathlib.Core.Bool.{false≢true}
use respondphp.CString.{
  str_eq, strchr, strstr, Free, strchr_split, strstr_rest, strchr-append, strstr-append,
  drop-length-append, str_eq_longer, str_eq→eq, str_eq_refl,
}

-- `s[i] == c`, within the string.
abbrev pub byte_is : Bytes → ℕ → ℕ → Bool
byte_is s i c = elim (get_elem? s i) [ none ↦ false | some x ↦ x == c ]

-- Whether the pointer that `strchr` returns is the given one.
abbrev pub at_offset : Option ℕ → ℕ → Bool
at_offset none i = false
at_offset (some j) i = i == j

-- The assignment `match = tmp && strcmp(tmp, certname+2) && tmp == strchr(cnmatch_str, '.')`.
unfoldable pub wildcard_match : Bytes → Bytes → Option ℕ → Bool
wildcard_match subject cert none = false
wildcard_match subject cert (some i) =
    not (str_eq (drop i subject) (drop 2 cert)) && at_offset (strchr subject b'.') i

unfoldable pub matches_wildcard_name : Bytes → Bytes → Bool
unfolding wildcard_match
matches_wildcard_name subject cert =
    let exact = str_eq subject cert in
    if not exact && (ltb 3 (length cert) && (byte_is cert 0 b'*' && byte_is cert 1 b'.'))
    then elim (strchr (drop 2 cert) b'.') [
      | none ↦ exact
      | some _ ↦ wildcard_match subject cert (strstr subject (drop 1 cert))
    ]
    else exact

-- When a certificate name accepts a subject. In the wildcard case the label in front has no dot,
-- the part behind `*.` has one and is longer than one byte, and anything at all may follow it.
pub data Accepts (subject cert : Bytes) : Type 0 where
  exact : subject ≡ cert → Accepts subject cert
  wildcard :
      (label base rest : Bytes)
      → Free b'.' label
      → (i : ℕ) → strchr base b'.' ≡ some i
      → 1 < length base
      → cert ≡ b'*' ∷ b'.' ∷ base
      → subject ≡ label ++ ((b'.' ∷ base) ++ rest)
      → Accepts subject cert

-- In the wildcard branch the three tests come down to one: the label ends at the first dot.
wildcard_match-Accepts :
    (subject base : Bytes) (i j : ℕ)
    → strchr base b'.' ≡ some i
    → 1 < length base
    → strstr subject (b'.' ∷ base) ≡ some j
    → wildcard_match subject (b'*' ∷ b'.' ∷ base) (some j) ≡ true
    → Accepts subject (b'*' ∷ b'.' ∷ base)
unfolding wildcard_match
wildcard_match-Accepts subject base i j dot long found e =
    let first : strchr subject b'.' ≡ some j = ground arith in
    let (label, free, n, q) = strchr_split subject b'.' j first in
    let (rest, r) = strstr_rest subject (b'.' ∷ base) j found in
    wildcard label base rest free i dot long refl (q ∙ ap (◌++◌ label) r)

wildcard_match_complete :
    (label base rest : Bytes)
    → Free b'.' label
    → wildcard_match (label ++ ((b'.' ∷ base) ++ rest)) (b'*' ∷ b'.' ∷ base) (some (length label))
      ≡ true
unfolding wildcard_match
wildcard_match_complete label base rest free =
    rw
      (
        drop-length-append label ((b'.' ∷ base) ++ rest),
        strchr-append label (base ++ rest) b'.' free,
      )
      (rw (str_eq_longer ((b'.' ∷ base) ++ rest) base (omega (arith, length-append base rest)))
        (ground arith))

wildcard_match-none :
    (subject cert : Bytes) {o : Option ℕ} → o ≡ none → wildcard_match subject cert o ≡ false
unfolding wildcard_match
wildcard_match-none subject cert e = rw e

matches_wildcard-no_dot :
    (subject base : Bytes)
    → str_eq subject (b'*' ∷ b'.' ∷ base) ≡ false
    → strchr base b'.' ≡ none
    → matches_wildcard_name subject (b'*' ∷ b'.' ∷ base) ≡ false
unfolding matches_wildcard_name
matches_wildcard-no_dot subject base ne no_dot = ground arith

-- The branch that the guard selects.
matches_wildcard-base :
    (subject base : Bytes) {i : ℕ}
    → str_eq subject (b'*' ∷ b'.' ∷ base) ≡ false
    → strchr base b'.' ≡ some i
    → 1 < length base
    → matches_wildcard_name subject (b'*' ∷ b'.' ∷ base)
      ≡ wildcard_match subject (b'*' ∷ b'.' ∷ base) (strstr subject (b'.' ∷ base))
unfolding matches_wildcard_name
matches_wildcard-base subject base ne dot long =
    rw (ne, matches_wildcard_name) (rw (dot, matches_wildcard_name) (ground arith))

module _ (subject : Bytes) where
  wildcard_sound :
      (base : Bytes)
      → str_eq subject (b'*' ∷ b'.' ∷ base) ≡ false
      → 1 < length base
      → matches_wildcard_name subject (b'*' ∷ b'.' ∷ base) ≡ true
      → Accepts subject (b'*' ∷ b'.' ∷ base)
  wildcard_sound base ne long e = elim (Option-cases (strchr base b'.')) [
    | inl no_dot ↦ absurd (no_dot-refused no_dot)
    | inr (i, dot) ↦
        let m = sym (matches_wildcard-base subject base ne dot long) ∙ e in
        elim (Option-cases (strstr subject (b'.' ∷ base))) [
          | inl missing ↦ absurd (missing-refused missing m)
          | inr (j, found) ↦ wildcard_match-Accepts subject base i j dot long found (rw found at m)
        ]
  ]
    where
      no_dot-refused : strchr base b'.' ≡ none → ⊥
      no_dot-refused no_dot = false≢true (sym (matches_wildcard-no_dot subject base ne no_dot) ∙ e)

      missing-refused :
          strstr subject (b'.' ∷ base) ≡ none
          → wildcard_match subject (b'*' ∷ b'.' ∷ base) (strstr subject (b'.' ∷ base)) ≡ true
          → ⊥
      missing-refused missing m = false≢true (sym (wildcard_match-none subject _ missing) ∙ m)

  starred_sound :
      (cert base : Bytes)
      → cert ≡ b'*' ∷ b'.' ∷ base
      → str_eq subject cert ≡ false
      → 1 < length base
      → matches_wildcard_name subject cert ≡ true
      → Accepts subject cert
  starred_sound cert base c ne long e = rw c (wildcard_sound base (rw c at ne) long (rw c at e))

  -- A name with no wildcard is accepted by equality alone.
  inexact_sound :
      (cert : Bytes)
      → str_eq subject cert ≡ false
      → matches_wildcard_name subject cert ≡ true
      → Accepts subject cert
  unfolding matches_wildcard_name
  inexact_sound [] ne e = absurd (ground arith)
  inexact_sound (x ∷ []) ne e = absurd (ground arith)
  inexact_sound (x ∷ y ∷ base) ne e =
      let star : x ≡ b'*' = ground arith in
      let point : y ≡ b'.' = ground arith in
      let long : 1 < length base = ground arith in
      starred_sound (x ∷ y ∷ base) base (rw (star, point)) ne long e

  pub matches_wildcard_name_sound :
      (cert : Bytes) → matches_wildcard_name subject cert ≡ true → Accepts subject cert
  matches_wildcard_name_sound cert e = elim (Bool-cases (str_eq subject cert)) [
    | inl same ↦ exact (str_eq→eq subject cert same)
    | inr ne ↦ inexact_sound cert ne e
  ]

  exact_complete :
      (cert : Bytes) → str_eq subject cert ≡ true → matches_wildcard_name subject cert ≡ true
  unfolding matches_wildcard_name
  exact_complete cert same = rw (same, matches_wildcard_name)

  pub matches_wildcard_name_complete :
      (cert : Bytes) → Accepts subject cert → matches_wildcard_name subject cert ≡ true
  matches_wildcard_name_complete cert (exact p) = exact_complete cert (rw p (str_eq_refl cert))
  matches_wildcard_name_complete cert (wildcard label base rest free i dot long c s) =
      elim (Bool-cases (str_eq subject cert)) [
        | inl same ↦ exact_complete cert same
        | inr ne ↦ rw c (
            matches_wildcard-base subject base (rw c at ne) dot long
            ∙ rw (s, strstr-append label base rest b'.' free)
                (wildcard_match_complete label base rest free))
      ]

-- The check accepts a subject exactly if it is the certificate's name, or the certificate's name
-- is `*.` and a base that has a dot and more than one byte, and the subject is one label without a
-- dot, the dot, the base, and then any bytes at all.
pub matches_wildcard_name_iff :
    (subject cert : Bytes) → (matches_wildcard_name subject cert ≡ true) ↔ Accepts subject cert
matches_wildcard_name_iff subject cert =
    (matches_wildcard_name_sound subject cert, matches_wildcard_name_complete subject cert)
