-- ===== src/Server/Secure/Keys.antt =====
-- src/server/secure.c: the key and the certificates of a TLS context. OpenSSL is the environment:
-- what its calls return is an argument, the objects that it makes are numbers, and what is freed
-- or handed over is a list of effects, oldest first.
use respondphp.Base.{
  ℕ, suc, ◌+◌, ◌≡◌, refl, Option, none, some, List, [], ◌∷◌, Bytes, Bool, true, false, not, ◌&&◌,
  if◌then◌else◌, ◌==◌, arith,
}

-- The objects of a call, by kind; the certificates are numbered in the order of the file.
pub data Object : Type 0 where
  bio pkey : Object
  cert : ℕ → Object

pub data Effect : Type 0 where
  -- BIO_new, PEM_read_bio_PrivateKey, PEM_read_bio_X509_AUX and PEM_read_bio_X509
  makes : Object → Effect
  -- BIO_free, EVP_PKEY_free, X509_free; the last is also called with NULL, which does nothing
  frees : Object → Effect
  -- SSL_CTX_use_PrivateKey and SSL_CTX_use_certificate, which take a reference of their own
  uses : Object → Effect
  -- SSL_CTX_add0_chain_cert, which keeps the certificate that it takes
  keeps : Object → Effect

-- What PHP code gives for a key or a certificate: missing, of another type, or a text.
pub data OptionValue : Type 0 where
  missing other_type : OptionValue
  text : Bytes → OptionValue

-- ssl_ctx_set_pkey: `filled` says that BIO_write takes the text, `parsed` that a key is read from
-- it, and `used` what SSL_CTX_use_PrivateKey returns.
unfoldable pub ssl_ctx_set_pkey : OptionValue → (filled parsed used : Bool) → Bool × List Effect
ssl_ctx_set_pkey missing filled parsed used = (false, [])
ssl_ctx_set_pkey other_type filled parsed used = (false, [])
ssl_ctx_set_pkey (text pem) filled parsed used =
    if not filled
    then (false, makes bio ∷ frees bio ∷ [])
    else if not parsed
    then (false, makes bio ∷ frees bio ∷ [])
    else (used, makes bio ∷ makes pkey ∷ frees bio ∷ uses pkey ∷ frees pkey ∷ [])

-- The loop over the chain: each certificate that is read from the text, with whether the context
-- takes it. `n` numbers the next one.
unfoldable pub chain_loop : (n : ℕ) → List Bool → Bool × List Effect
chain_loop n [] = (true, frees bio ∷ [])
chain_loop n (taken ∷ rest) =
    let more = chain_loop (suc n) rest in
    if taken
    then (more.0, makes (cert n) ∷ keeps (cert n) ∷ more.1)
    else (false, makes (cert n) ∷ frees (cert n) ∷ frees bio ∷ [])

-- ssl_ctx_set_cert: `filled` and `used` are as above, and `chain` are the certificates after the
-- first, if one is read.
unfoldable pub ssl_ctx_set_cert :
    OptionValue
    → (filled : Bool) → (first : Option (List Bool)) → (used : Bool) → Bool × List Effect
unfolding chain_loop
ssl_ctx_set_cert missing filled first used = (false, [])
ssl_ctx_set_cert other_type filled first used = (false, [])
ssl_ctx_set_cert (text pem) false first used = (false, makes bio ∷ frees bio ∷ [])
ssl_ctx_set_cert (text pem) true none used = (false, makes bio ∷ frees bio ∷ [])
ssl_ctx_set_cert (text pem) true (some chain) used =
    if not used
    then (false, makes bio ∷ makes (cert 0) ∷ uses (cert 0) ∷ frees (cert 0) ∷ frees bio ∷ [])
    else (let (ret, es) = chain_loop 1 chain in
        (ret, makes bio ∷ makes (cert 0) ∷ uses (cert 0) ∷ es))

abbrev pub same : Object → Object → Bool
same bio bio = true
same pkey pkey = true
same (cert m) (cert n) = m == n
same _ _ = false

abbrev pub number : Bool → ℕ
number true = 1
number false = 0

-- How often an object is made, and how often it is freed or kept by the context.
abbrev pub made : Object → List Effect → ℕ
made o [] = 0
made o (makes p ∷ es) = number (same p o) + made o es
made o (_ ∷ es) = made o es

abbrev pub disposed : Object → List Effect → ℕ
disposed o [] = 0
disposed o (frees p ∷ es) = number (same p o) + disposed o es
disposed o (keeps p ∷ es) = number (same p o) + disposed o es
disposed o (_ ∷ es) = disposed o es

-- The first certificate, which a context that takes it holds by a reference of its own.
abbrev pub leaked : Bool → Option (List Bool) → Object → ℕ
leaked used none o = 0
leaked used (some chain) o = number (used && same (cert 0) o)

chain_loop-disposed :
    (n : ℕ) (chain : List Bool) (o : Object)
    → disposed o (chain_loop n chain).1 ≡ made o (chain_loop n chain).1 + number (same bio o)
unfolding chain_loop
chain_loop-disposed n [] o = omega arith
chain_loop-disposed n (true ∷ rest) o = omega (arith, chain_loop-disposed (suc n) rest o)
chain_loop-disposed n (false ∷ rest) o = omega arith

set_pkey-disposed :
    (value : OptionValue) (filled parsed used : Bool) (o : Object)
    → disposed o (ssl_ctx_set_pkey value filled parsed used).1
      ≡ made o (ssl_ctx_set_pkey value filled parsed used).1
unfolding ssl_ctx_set_pkey
set_pkey-disposed missing filled parsed used o = refl
set_pkey-disposed other_type filled parsed used o = refl
set_pkey-disposed (text pem) false parsed used o = omega arith
set_pkey-disposed (text pem) true false used o = omega arith
set_pkey-disposed (text pem) true true used o = omega arith

-- Whether the text and its first certificate were read and taken.
abbrev pub takes : OptionValue → (filled used : Bool) → Bool
takes (text pem) filled used = filled && used
takes _ filled used = false

set_cert-disposed :
    (value : OptionValue) (filled : Bool) (first : Option (List Bool)) (used : Bool) (o : Object)
    → disposed o (ssl_ctx_set_cert value filled first used).1
        + leaked (takes value filled used) first o
      ≡ made o (ssl_ctx_set_cert value filled first used).1
unfolding ssl_ctx_set_cert
set_cert-disposed missing filled none used o = refl
set_cert-disposed missing filled (some chain) used o = refl
set_cert-disposed other_type filled none used o = refl
set_cert-disposed other_type filled (some chain) used o = refl
set_cert-disposed (text pem) false none used o = omega arith
set_cert-disposed (text pem) false (some chain) used o = omega arith
set_cert-disposed (text pem) true none used o = omega arith
set_cert-disposed (text pem) true (some chain) false o = omega arith
set_cert-disposed (text pem) true (some chain) true o = omega (arith, chain_loop-disposed 1 chain o)

-- On every branch of loading a key and its certificates, each object that OpenSSL makes is freed or
-- kept by the context as often as it is made, except of the first certificate, which is not freed
-- once the context has taken it.
pub load-disposed :
    (key certificates : OptionValue) (filled parsed used : Bool) (cert_filled cert_used : Bool)
    (first : Option (List Bool)) (o : Object)
    → (disposed o (ssl_ctx_set_pkey key filled parsed used).1
        ≡ made o (ssl_ctx_set_pkey key filled parsed used).1)
      × (disposed o (ssl_ctx_set_cert certificates cert_filled first cert_used).1
            + leaked (takes certificates cert_filled cert_used) first o
          ≡ made o (ssl_ctx_set_cert certificates cert_filled first cert_used).1)
load-disposed key certificates filled parsed used cert_filled cert_used first o = (
  set_pkey-disposed key filled parsed used o,
  set_cert-disposed certificates cert_filled first cert_used o,
)
