-- ===== src/SecureConnector/Certificates.antt =====
-- The certificate checks of src/connector/secure.c: the subject alternative names, the common
-- name, and the callback for each certificate of the chain. What OpenSSL reads from a certificate
-- is an argument.
use respondphp.Base.{
  ℕ, ◌+◌, ◌/◌, ◌%◌, ◌<◌, ◌≡◌, ◌≢◌, Option, none, some, List, [], ◌∷◌, ◌++◌, map, Bytes, Bool, true,
  false, not, ◌&&◌, ◌==◌, ltb, leb, if◌then◌else◌, length, arith,
}
use respondphp.CString.{c_string, str_eq}
use respondphp.SecureConnector.Names.{matches_wildcard_name}

-- `GENERAL_NAME`: the kinds that the code tells apart.
pub data GeneralName : Type 0 where
  dns : Bytes → GeneralName
  ip_address : Bytes → GeneralName
  other : GeneralName

-- `%d` of a byte.
unfoldable pub decimal : ℕ → Bytes
decimal n =
    if ltb n 10
    then (48 + n) ∷ []
    else if ltb n 100
    then (48 + n / 10) ∷ (48 + n % 10) ∷ []
    else (48 + n / 100) ∷ (48 + n / 10 % 10) ∷ (48 + n % 10) ∷ []

-- `sprintf(ipbuffer, "%d.%d.%d.%d", …)` of an address of four bytes.
unfoldable pub dotted : Bytes → Option Bytes
unfolding decimal
dotted (a ∷ b ∷ c ∷ d ∷ []) =
    some (decimal a ++ (b'.' ∷ decimal b) ++ (b'.' ∷ decimal c) ++ (b'.' ∷ decimal d))
dotted _ = none

unfoldable pub to_lower : ℕ → ℕ
to_lower c = if leb b'A' c && leb c b'Z' then c + 32 else c

-- strcasecmp(a, b) == 0
unfoldable pub case_eq : Bytes → Bytes → Bool
unfolding str_eq to_lower
case_eq a b = str_eq (map to_lower a) (map to_lower b)

-- A final dot is cut off, as in a fully qualified name.
unfoldable pub strip_dot : Bytes → Bytes
strip_dot [] = []
strip_dot (x ∷ []) = if x == b'.' then [] else x ∷ []
strip_dot (x ∷ y ∷ r) = x ∷ strip_dot (y ∷ r)

-- `utf8` is the buffer that `ASN1_STRING_to_UTF8` makes of a name's content.
module _ (utf8 : Bytes → Bytes) where
  unfoldable pub dns_matches : Bytes → Bytes → Bool
  unfolding c_string strip_dot matches_wildcard_name
  dns_matches subject content =
      let cert_name = c_string (utf8 content) in
      if not (length content == length cert_name)
      then false
      else matches_wildcard_name subject (strip_dot cert_name)

  -- One round of the loop: whether the function returns 1 there.
  unfoldable pub san_matches : Bytes → GeneralName → Bool
  unfolding dns_matches dotted case_eq
  san_matches subject (dns content) = dns_matches subject content
  san_matches subject (ip_address octets) = elim (dotted octets) [
    | none ↦ false
    | some text ↦ case_eq subject text
  ]
  san_matches subject other = false

  unfoldable pub matches_san_list : List GeneralName → Bytes → Bool
  unfolding san_matches
  matches_san_list [] subject = false
  matches_san_list (n ∷ ns) subject =
      let rest = matches_san_list ns subject in if san_matches subject n then true else rest

-- `X509_NAME_get_text_by_NID`: -1, or the length of the common name with what is in the buffer.
unfoldable pub matches_common_name : Option (ℕ × Bytes) → Bytes → Bool
unfolding c_string matches_wildcard_name
matches_common_name none subject = false
matches_common_name (some (len, buffer)) subject =
    if not (len == length (c_string buffer))
    then false
    else matches_wildcard_name subject (c_string buffer)

-- What the verify callback does: it returns a value, or runs to its end without one.
pub data Verdict : Type 0 where
  returns : Bool → Verdict
  no_value : Verdict

-- `ok` says that `X509_STORE_CTX_get_error` gives `X509_V_OK`.
unfoldable pub verify_callback : Bool → ℕ → Verdict
verify_callback ok depth =
    if ltb 3 depth then returns false else if ok then returns true else no_value

-- The condition under which `handshake_read_cb` keeps the peer: `server` is the connector's
-- server_name, whose `val` is passed on as a C string.
unfoldable pub peer_accepted :
    (Bytes → Bytes) → Option (ℕ × Bytes) → List GeneralName → Bytes → Bool
unfolding matches_common_name matches_san_list c_string
peer_accepted utf8 common alt_names server =
    let name = c_string server in
    not (not (matches_common_name common name) && not (matches_san_list utf8 alt_names name))

==_false : (m n : ℕ) → m ≢ n → (m == n) ≡ false
==_false m n h = ground arith

-- A name that holds a zero byte is longer than the string that C sees.
c_string-shorter : (a b : Bytes) → length (c_string (a ++ 0 ∷ b)) < length (a ++ 0 ∷ b)
unfolding c_string
c_string-shorter [] b = omega arith
c_string-shorter (x ∷ a) b = ground (arith, c_string-shorter a b)

-- Where the UTF-8 text of a DNS name is the name's content, a content with a zero byte in it is
-- never matched, whatever stands before the zero byte.
dns_matches_poisoned :
    (utf8 : Bytes → Bytes) (subject a b : Bytes)
    → utf8 (a ++ 0 ∷ b) ≡ a ++ 0 ∷ b
    → dns_matches utf8 subject (a ++ 0 ∷ b) ≡ false
unfolding dns_matches
dns_matches_poisoned utf8 subject a b same =
    rw same (rw (==_false _ _ (not_equal (c_string-shorter a b))))
  where
    not_equal : {m n : ℕ} → m < n → n ≢ m
    not_equal h = omega arith
