-- ===== src/SecureConnector/Identity.antt =====
-- src/connector/secure.c: which server names keep the peer of a handshake, said without the
-- program's own printing and matching.
use respondphp.Base.{
  ℕ, ◌+◌, ◌*◌, ◌/◌, ◌%◌, ◌<◌, ◌≤◌, ◌≡◌, ◌≢◌, refl, ap, sym, subst, ◌∙◌, ◌↔◌, ◌⊎◌, inl, inr, Option,
  none, some, List, [], ◌∷◌, ◌++◌, map, Bytes, Bool, true, false, not, ◌&&◌, ◌==◌, ltb,
  if◌then◌else◌, length, arith, Bool-cases,
}
use mathlib.Core.Bool.{false≢true}
use respondphp.CString.{c_string, str_eq→eq, str_eq_refl}
use respondphp.SecureConnector.Names.{matches_wildcard_name_iff, Accepts}
use respondphp.SecureConnector.Certificates.{
  GeneralName, dns, ip_address, other, decimal, dotted, to_lower, case_eq, strip_dot, dns_matches,
  san_matches, matches_san_list, matches_common_name, peer_accepted,
}

-- A number of three digits at most, written without leading zeros.
pub data Decimal : ℕ → Bytes → Type 0 where
  one_digit : {n : ℕ} → n < 10 → Decimal n ((48 + n) ∷ [])
  two_digits :
      {n tens ones : ℕ}
      → 1 ≤ tens
      → tens < 10
      → ones < 10
      → n ≡ tens * 10 + ones
      → Decimal n ((48 + tens) ∷ (48 + ones) ∷ [])
  three_digits :
      {n hundreds tens ones : ℕ}
      → 1 ≤ hundreds
      → hundreds < 10
      → tens < 10
      → ones < 10
      → n ≡ hundreds * 100 + tens * 10 + ones
      → Decimal n ((48 + hundreds) ∷ (48 + tens) ∷ (48 + ones) ∷ [])

decimal-Decimal : (n : ℕ) → n < 256 → Decimal n (decimal n)
unfolding decimal
decimal-Decimal n small = elim (Bool-cases (ltb n 10)) [
  | inl one ↦ rw one (one_digit (ground arith))
  | inr more ↦ rw more (elim (Bool-cases (ltb n 100)) [
    | inl two ↦ rw two (two_digits (ground arith) (ground arith) (omega arith) (omega arith))
    | inr three ↦
        rw three
          (three_digits (ground arith) (ground arith) (omega arith) (omega arith) (omega arith))
  ])
]

Decimal-unique : {n : ℕ} {text : Bytes} → Decimal n text → decimal n ≡ text
unfolding decimal
Decimal-unique (one_digit small) = ground arith
Decimal-unique (two_digits {n} {tens} {ones} a b c e) = rw (two_front, two_back) (ground arith)
  where
    two_front : n / 10 ≡ tens
    two_front = omega arith

    two_back : n % 10 ≡ ones
    two_back = omega arith
Decimal-unique (three_digits {n} {hundreds} {tens} {ones} a b c d e) =
    rw (first, second, third) (ground arith)
  where
    first : n / 100 ≡ hundreds
    first = omega arith

    second : n / 10 % 10 ≡ tens
    second = omega arith

    third : n % 10 ≡ ones
    third = omega arith

-- Four bytes as four numbers with dots between.
pub data Dotted : Bytes → Bytes → Type 0 where
  quad :
      {a b c d : ℕ} {p q r s : Bytes}
      → Decimal a p
      → Decimal b q
      → Decimal c r
      → Decimal d s
      → Dotted (a ∷ b ∷ c ∷ d ∷ []) (p ++ (b'.' ∷ q) ++ (b'.' ∷ r) ++ (b'.' ∷ s))

abbrev pub AllBelow : ℕ → Bytes → Type 0
AllBelow limit [] = Unit
AllBelow limit (x ∷ xs) = (x < limit) × AllBelow limit xs

AllBelow-append :
    (limit : ℕ) (a b : Bytes) → AllBelow limit a → AllBelow limit b → AllBelow limit (a ++ b)
AllBelow-append limit [] b p q = q
AllBelow-append limit (x ∷ a) b p q = (p.0, AllBelow-append limit a b p.1 q)

Decimal-AllBelow : {n : ℕ} {text : Bytes} → Decimal n text → AllBelow 65 text
Decimal-AllBelow (one_digit small) = (omega arith, tt)
Decimal-AllBelow (two_digits a b c e) = (omega arith, (omega arith, tt))
Decimal-AllBelow (three_digits a b c d e) = (omega arith, (omega arith, (omega arith, tt)))

Dotted-AllBelow : {octets text : Bytes} → Dotted octets text → AllBelow 65 text
Dotted-AllBelow (quad {p} {q} {r} {s} a b c d) =
    AllBelow-append 65 (p ++ (b'.' ∷ q) ++ (b'.' ∷ r)) (b'.' ∷ s)
      (AllBelow-append 65 (p ++ (b'.' ∷ q)) (b'.' ∷ r)
        (AllBelow-append 65 p (b'.' ∷ q) (Decimal-AllBelow a) (omega arith, Decimal-AllBelow b))
        (omega arith, Decimal-AllBelow c))
      (omega arith, Decimal-AllBelow d)

Dotted-unique : {octets text : Bytes} → Dotted octets text → dotted octets ≡ some text
unfolding dotted
Dotted-unique (quad a b c d) =
    rw (Decimal-unique a, Decimal-unique b, Decimal-unique c, Decimal-unique d) refl

dotted-Dotted :
    (octets text : Bytes) → AllBelow 256 octets → dotted octets ≡ some text → Dotted octets text
unfolding dotted
dotted-Dotted [] text small e = cc
dotted-Dotted (a ∷ []) text small e = cc
dotted-Dotted (a ∷ b ∷ []) text small e = cc
dotted-Dotted (a ∷ b ∷ c ∷ []) text small e = cc
dotted-Dotted (a ∷ b ∷ c ∷ d ∷ []) text (i, (j, (k, (l, end)))) e =
    subst (Dotted (a ∷ b ∷ c ∷ d ∷ [])) (some_text e)
      (quad (decimal-Decimal a i) (decimal-Decimal b j) (decimal-Decimal c k) (decimal-Decimal d l))
  where
    some_text : {x y : Bytes} → some x ≡ some y → x ≡ y
    some_text q = cc
dotted-Dotted (a ∷ b ∷ c ∷ d ∷ x ∷ more) text small e = cc

-- Case does not matter where there are no letters.
same_byte : (x y : ℕ) → y < 65 → to_lower x ≡ to_lower y → x ≡ y
unfolding to_lower
same_byte x y small e = ground arith

lower_apart : (a b : Bytes) → AllBelow 65 b → map to_lower a ≡ map to_lower b → a ≡ b
unfolding to_lower
lower_apart [] [] small e = refl
lower_apart [] (y ∷ b) small e = cc
lower_apart (x ∷ a) [] small e = cc
lower_apart (x ∷ a) (y ∷ b) small e =
    heads (same_byte x y small.0 (head_eq e)) (lower_apart a b small.1 (tail_eq e))
  where
    head_eq : {u v : ℕ} {us vs : Bytes} → u ∷ us ≡ v ∷ vs → u ≡ v
    head_eq q = cc

    tail_eq : {u v : ℕ} {us vs : Bytes} → u ∷ us ≡ v ∷ vs → us ≡ vs
    tail_eq q = cc

    heads : {u v : ℕ} {us vs : Bytes} → u ≡ v → us ≡ vs → u ∷ us ≡ v ∷ vs
    heads p q = cc

-- The name without the dot at its end, if it has one.
abbrev pub Unqualified : Bytes → Bytes → Type 0
Unqualified name base =
    (name ≡ base ++ b'.' ∷ []) ⊎ ((base ≡ name) × ((front : Bytes) → name ≢ front ++ b'.' ∷ []))

strip_dot-append : (a : Bytes) → strip_dot (a ++ b'.' ∷ []) ≡ a
unfolding strip_dot
strip_dot-append [] = refl
strip_dot-append (x ∷ []) = refl
strip_dot-append (x ∷ y ∷ r) = ap (λ l. x ∷ l) (strip_dot-append (y ∷ r))

no_end : (front : Bytes) → [] ≢ front ++ b'.' ∷ []
no_end [] e = cc
no_end (f ∷ fs) e = cc

no_dot_end : (x : ℕ) → (x == b'.') ≡ false → (front : Bytes) → x ∷ [] ≢ front ++ b'.' ∷ []
no_dot_end x apart [] e = ground arith
no_dot_end x apart (f ∷ fs) e = no_end fs (tails e)
  where
    tails : {u v : ℕ} {us vs : Bytes} → u ∷ us ≡ v ∷ vs → us ≡ vs
    tails q = cc

longer_end :
    (x y : ℕ) (r : Bytes)
    → ((front : Bytes) → y ∷ r ≢ front ++ b'.' ∷ [])
    → (front : Bytes) → x ∷ y ∷ r ≢ front ++ b'.' ∷ []
longer_end x y r apart [] e = cc
longer_end x y r apart (f ∷ fs) e = apart fs (tails e)
  where
    tails : {u v : ℕ} {us vs : Bytes} → u ∷ us ≡ v ∷ vs → us ≡ vs
    tails q = cc

strip_dot-Unqualified : (name : Bytes) → Unqualified name (strip_dot name)
unfolding strip_dot
strip_dot-Unqualified [] = inr (refl, no_end)
strip_dot-Unqualified (x ∷ []) = elim (Bool-cases (x == b'.')) [
  | inl is_dot ↦ rw is_dot (inl (ap (λ c. c ∷ []) (dot is_dot)))
  | inr apart ↦ rw apart (inr (refl, no_dot_end x apart))
]
  where
    dot : (x == b'.') ≡ true → x ≡ b'.'
    dot e = ground arith
strip_dot-Unqualified (x ∷ y ∷ r) = elim (strip_dot-Unqualified (y ∷ r)) [
  | inl e ↦ inl (ap (λ l. x ∷ l) e)
  | inr (e, apart) ↦ inr (ap (λ l. x ∷ l) e, longer_end x y r apart)
]

Unqualified-unique : (name base : Bytes) → Unqualified name base → strip_dot name ≡ base
Unqualified-unique name base (inl e) = rw e (strip_dot-append base)
Unqualified-unique name base (inr (e, apart)) = elim (strip_dot-Unqualified name) [
  | inl q ↦ absurd (apart (strip_dot name) q)
  | inr (q, _) ↦ q ∙ sym e
]

-- What a name of the certificate has to be for the loop to stop at it.
abbrev pub SanAccepts : (Bytes → Bytes) → Bytes → GeneralName → Type 0
SanAccepts utf8 subject (dns content) =
    (length content ≡ length (c_string (utf8 content)))
    × ((base : Bytes) × (Unqualified (c_string (utf8 content)) base × Accepts subject base))
SanAccepts utf8 subject (ip_address octets) = Dotted octets subject
SanAccepts utf8 subject other = ⊥

abbrev pub SomeSanAccepts : (Bytes → Bytes) → Bytes → List GeneralName → Type 0
SomeSanAccepts utf8 subject [] = ⊥
SomeSanAccepts utf8 subject (n ∷ ns) = SanAccepts utf8 subject n ⊎ SomeSanAccepts utf8 subject ns

abbrev pub CommonAccepts : Option (ℕ × Bytes) → Bytes → Type 0
CommonAccepts none subject = ⊥
CommonAccepts (some (len, buffer)) subject =
    (len ≡ length (c_string buffer)) × Accepts subject (c_string buffer)

-- The bytes of the addresses are bytes.
abbrev pub AllOctets : List GeneralName → Type 0
AllOctets [] = Unit
AllOctets (ip_address octets ∷ ns) = AllBelow 256 octets × AllOctets ns
AllOctets (_ ∷ ns) = AllOctets ns

-- A Boolean disjunction, as the code spells it.
either_iff :
    (a b : Bool) {P Q : Type 0}
    → (a ≡ true) ↔ P
    → (b ≡ true) ↔ Q
    → (not (not a && not b) ≡ true) ↔ (P ⊎ Q)
either_iff true b p q = (λ h. inl (p.0 refl), λ h. refl)
either_iff false true p q = (λ h. inr (q.0 refl), λ h. refl)
either_iff false false p q = (λ h. cc, λ h. elim h [ inl x ↦ p.1 x | inr y ↦ q.1 y ])

guarded_iff :
    (m n : ℕ) (b : Bool) {P : Type 0}
    → (b ≡ true) ↔ P
    → ((if not (m == n) then false else b) ≡ true) ↔ ((m ≡ n) × P)
guarded_iff m n b e =
    (λ h. (ground arith, e.0 (ground arith)), λ h. let g = e.1 h.1 in ground arith)

matches_common_name_iff :
    (common : Option (ℕ × Bytes)) (subject : Bytes)
    → (matches_common_name common subject ≡ true) ↔ CommonAccepts common subject
unfolding matches_common_name
matches_common_name_iff none subject = (λ h. cc, λ h. absurd h)
matches_common_name_iff (some (len, buffer)) subject =
    guarded_iff len _ _ (matches_wildcard_name_iff subject (c_string buffer))

case_eq_iff : (a b : Bytes) → (case_eq a b ≡ true) ↔ (map to_lower a ≡ map to_lower b)
unfolding case_eq
case_eq_iff a b =
    (str_eq→eq (map to_lower a) (map to_lower b), λ h. rw h (str_eq_refl (map to_lower b)))

ip_to :
    (octets subject : Bytes)
    → AllBelow 256 octets
    → (o : Option Bytes) → dotted octets ≡ o
    → (elim o [ none ↦ false | some text ↦ case_eq subject text ]) ≡ true
    → Dotted octets subject
ip_to octets subject small none e h = cc
ip_to octets subject small (some text) e h =
    let shape = dotted-Dotted octets text small e in
    subst (Dotted octets)
      (sym (lower_apart subject text (Dotted-AllBelow shape) ((case_eq_iff subject text).0 h)))
      shape

san_matches_iff :
    (utf8 : Bytes → Bytes) (subject : Bytes) (n : GeneralName)
    → AllOctets (n ∷ [])
    → (san_matches utf8 subject n ≡ true) ↔ SanAccepts utf8 subject n
unfolding san_matches dns_matches
san_matches_iff utf8 subject (dns content) small = guarded_iff (length content) _ _ (
  λ h. (
    strip_dot (c_string (utf8 content)),
    (
      strip_dot-Unqualified (c_string (utf8 content)),
      (matches_wildcard_name_iff subject (strip_dot (c_string (utf8 content)))).0 h,
    ),
  ),
  λ h.
      (matches_wildcard_name_iff subject (strip_dot (c_string (utf8 content)))).1
        (subst (Accepts subject) (sym (Unqualified-unique _ h.0 h.1.0)) h.1.1),
)
san_matches_iff utf8 subject (ip_address octets) small = (
  λ h. ip_to octets subject small.0 (dotted octets) refl h,
  λ h. rw (san_matches, Dotted-unique h) ((case_eq_iff subject subject).1 refl),
)
san_matches_iff utf8 subject other small = (λ h. cc, λ h. absurd h)

rest_iff :
    (a b : Bool) {P Q : Type 0}
    → (a ≡ true) ↔ P
    → (b ≡ true) ↔ Q
    → ((if a then true else b) ≡ true) ↔ (P ⊎ Q)
rest_iff true b p q = (λ h. inl (p.0 refl), λ h. refl)
rest_iff false b p q =
    (λ h. inr (q.0 h), λ h. elim h [ inl x ↦ absurd (false≢true (p.1 x)) | inr y ↦ q.1 y ])

first_octets : (n : GeneralName) (ns : List GeneralName) → AllOctets (n ∷ ns) → AllOctets (n ∷ [])
first_octets (dns content) ns small = tt
first_octets (ip_address octets) ns small = (small.0, tt)
first_octets other ns small = tt

rest_octets : (n : GeneralName) (ns : List GeneralName) → AllOctets (n ∷ ns) → AllOctets ns
rest_octets (dns content) ns small = small
rest_octets (ip_address octets) ns small = small.1
rest_octets other ns small = small

matches_san_list_iff :
    (utf8 : Bytes → Bytes) (ns : List GeneralName) (subject : Bytes)
    → AllOctets ns
    → (matches_san_list utf8 ns subject ≡ true) ↔ SomeSanAccepts utf8 subject ns
unfolding matches_san_list
matches_san_list_iff utf8 [] subject small = (λ h. cc, λ h. absurd h)
matches_san_list_iff utf8 (n ∷ ns) subject small =
    rest_iff _ _ (san_matches_iff utf8 subject n (first_octets n ns small))
      (matches_san_list_iff utf8 ns subject (rest_octets n ns small))

-- The peer is kept exactly if its common name, or one of its alternative names, accepts the server
-- name that the caller gave, up to its first zero byte: a DNS name with or without its final dot as
-- the wildcard rules say, an IP address if the server name is its four numbers with dots between,
-- without leading zeros. The address's bytes are below 256.
pub peer_accepted_iff :
    (utf8 : Bytes → Bytes) (common : Option (ℕ × Bytes)) (ns : List GeneralName) (server : Bytes)
    → AllOctets ns
    → (peer_accepted utf8 common ns server ≡ true)
      ↔ (CommonAccepts common (c_string server) ⊎ SomeSanAccepts utf8 (c_string server) ns)
unfolding peer_accepted
peer_accepted_iff utf8 common ns server small =
    either_iff _ _ (matches_common_name_iff common (c_string server))
      (matches_san_list_iff utf8 ns (c_string server) small)
