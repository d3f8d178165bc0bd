-- ===== src/Server/Secure/Selection.antt =====
-- Which certificate src/server/secure.c gives to a client.
use respondphp.Base.{
  ℕ, suc, ◌≡◌, ◌≢◌, refl, ap, sym, ◌∙◌, Option, none, some, List, [], ◌∷◌, ◌++◌, Bytes, true, false,
  arith, length, Bool-cases, inl, inr,
}
use respondphp.Zend.{Key, str, index, Hash}
use respondphp.CString.{Free}
use respondphp.Server.Secure.{strncmp_eq, key_matches, sni_loop, SecureServer, ssl_sni_cb}

-- A name that begins with the key.
abbrev pub Begins : Bytes → Key → Type 0
Begins name (index i) = ⊥
Begins name (str host) = (rest : Bytes) × (name ≡ host ++ rest)

-- Among the entries in order, the first whose key the name begins with.
pub data Selects (name : Bytes) : List (Key × ℕ) → Option ℕ → Type 0 where
  nothing : Selects name [] none
  takes :
      (k : Key) (ctx : ℕ) (l : List (Key × ℕ))
      → Begins name k
      → Selects name ((k, ctx) ∷ l) (some ctx)
  skips :
      (k : Key) (ctx : ℕ) (l : List (Key × ℕ)) (o : Option ℕ)
      → (Begins name k → ⊥)
      → Selects name l o
      → Selects name ((k, ctx) ∷ l) o

abbrev pub KeyFree : Key → Type 0
KeyFree (index i) = Unit {0}
KeyFree (str host) = Free 0 host

-- No host name of the table has a zero byte.
abbrev pub HostsFree : List (Key × ℕ) → Type 0
HostsFree [] = Unit {0}
HostsFree ((k, ctx) ∷ l) = KeyFree k × HostsFree l

strncmp_eq_head :
    (x y : ℕ) (xs ys : Bytes)
    → x ≢ 0
    → strncmp_eq (x ∷ xs) (y ∷ ys) (suc (length xs)) ≡ true
    → (x ≡ y) × (strncmp_eq xs ys (length xs) ≡ true)
unfolding strncmp_eq
strncmp_eq_head x y xs ys f e = ground arith

strncmp_eq_sound :
    (host name : Bytes)
    → Free 0 host
    → strncmp_eq host name (length host) ≡ true
    → Begins name (str host)
unfolding strncmp_eq
strncmp_eq_sound [] name f e = (name, refl)
strncmp_eq_sound (x ∷ xs) [] f e = absurd (ground arith)
strncmp_eq_sound (x ∷ xs) (y ∷ ys) f e =
    let both = strncmp_eq_head x y xs ys f.0 e in
    let (rest, q) = strncmp_eq_sound xs ys f.1 both.1 in
    (rest, ap (λ c. c ∷ ys) (sym both.0) ∙ ap (λ l. x ∷ l) q)

strncmp_eq_complete : (host rest : Bytes) → strncmp_eq host (host ++ rest) (length host) ≡ true
unfolding strncmp_eq
strncmp_eq_complete [] rest = refl
strncmp_eq_complete (x ∷ xs) rest = ground (arith, strncmp_eq_complete xs rest)

key_matches_sound :
    (name : Bytes) (k : Key) → KeyFree k → key_matches (some name) k ≡ true → Begins name k
unfolding key_matches
key_matches_sound name (index i) f e = cc
key_matches_sound name (str host) f e = strncmp_eq_sound host name f e

key_matches_complete :
    (name : Bytes) (k : Key) → key_matches (some name) k ≡ false → Begins name k → ⊥
unfolding key_matches
key_matches_complete name (index i) e b = b
key_matches_complete name (str host) e (rest, q) =
    let yes : strncmp_eq host name (length host) ≡ true = rw q (strncmp_eq_complete host rest) in cc

sni_loop-Selects :
    (name : Bytes) (l : List (Key × ℕ)) → HostsFree l → Selects name l (sni_loop (some name) l)
unfolding sni_loop
sni_loop-Selects name [] f = nothing
sni_loop-Selects name ((k, ctx) ∷ l) f = elim (Bool-cases (key_matches (some name) k)) [
  | inl matched ↦ rw matched (takes k ctx l (key_matches_sound name k f.0 matched))
  | inr other ↦
      rw other (skips k ctx l _ (key_matches_complete name k other) (sni_loop-Selects name l f.1))
]

module _ ⦃h : Hash⦄ where
  open h use {items}

  -- A client that sends a name gets the first certificate, in the order of the table, whose host the
  -- name begins with, whatever follows in the name; if there is none, nothing is switched. No host
  -- name of the table has a zero byte.
  pub ssl_sni_cb-Selects :
      (s : SecureServer) (name : Bytes)
      → HostsFree (items s.ssl_ctx_ht)
      → Selects name (items s.ssl_ctx_ht) (ssl_sni_cb (some name) s)
  unfolding ssl_sni_cb
  ssl_sni_cb-Selects s name f = sni_loop-Selects name (items s.ssl_ctx_ht) f
