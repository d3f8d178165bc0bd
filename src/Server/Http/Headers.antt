-- ===== src/Server/Http/Headers.antt =====
-- src/server/http.c: what a request's headers become, and what becomes of a request in pieces.
use respondphp.Base.{
  ℕ, zero, suc, ◌+◌, ◌≡◌, ◌≢◌, ◌<◌, ◌≤◌, ◌⊎◌, ◌==◌, ◌&&◌, leb, subst, refl, ap, ◌∙◌, Option, none,
  some, true, List, [], ◌∷◌, ◌++◌, map, Bytes, length, ltb, codes, arith, ite, ℕ_discrete,
  length-append, Bool-cases, inl, inr,
}
use respondphp.Zend.{
  symtable_key, canonical, digits_value, Hash, Key, str, Key-discrete, find-update, find-init,
}
use respondphp.CString.{c_string, Free}
use respondphp.SecureConnector.Certificates.{decimal}
use respondphp.Server.Http.{
  take, to_upper, dash_to_underscore, overwrite, header_key, Parsed, add_header_field, request,
  malformed, partial, rp_http_header_max, add_header_fields, request_line, parsed_result,
  http_parse_header, connection_read_cb, read_all,
}

take-append : (a b : Bytes) (n : ℕ) → n ≡ length a → take n (a ++ b) ≡ a
unfolding take
take-append [] b zero e = refl
take-append [] b (suc n) e = ground arith
take-append (x ∷ a) b zero e = ground arith
take-append (x ∷ a) b (suc n) e = ap (λ l. x ∷ l) (take-append a b n (omega arith))

c_string-Free : (s : Bytes) → Free 0 s → c_string s ≡ s
unfolding c_string
c_string-Free [] f = refl
c_string-Free (x ∷ s) f = ground (arith, c_string-Free s f.1)

upper_key : Bytes → Bytes
upper_key = map (λ c. to_upper (dash_to_underscore c))

take-printed :
    (memory c : Bytes) (n : ℕ)
    → n ≡ length c + 6
    → upper_key (take n (overwrite (codes "HTTP_" ++ (c ++ 0 ∷ [])) memory))
      ≡ upper_key (codes "HTTP_" ++ (c ++ 0 ∷ []))
take-printed memory c n e =
    ap upper_key
      (take-append (codes "HTTP_" ++ (c ++ 0 ∷ [])) _ n (omega (arith, length-append c (0 ∷ []))))

-- A key spells a name: byte by byte an underscore for a dash, the capital for a small letter, and
-- any other byte itself.
pub data Spelled : Bytes → Bytes → Type 0 where
  nothing : Spelled [] []
  dash : {name key : Bytes} → Spelled name key → Spelled (b'-' ∷ name) (b'_' ∷ key)
  letter :
      {name key : Bytes} {small capital : ℕ}
      → b'A' ≤ capital
      → capital ≤ b'Z'
      → small ≡ capital + 32
      → Spelled name key
      → Spelled (small ∷ name) (capital ∷ key)
  other :
      {name key : Bytes} {c : ℕ}
      → c ≢ b'-'
      → (c < b'a') ⊎ (b'z' < c)
      → Spelled name key
      → Spelled (c ∷ name) (c ∷ key)

dash_eq : {c : ℕ} → (c == b'-') ≡ true → b'-' ≡ c
dash_eq e = ground arith

to_upper-Spelled :
    (c : ℕ) {name key : Bytes}
    → Spelled name key
    → Spelled (c ∷ name) (to_upper (dash_to_underscore c) ∷ key)
unfolding to_upper
to_upper-Spelled c {name} {key} s = elim (Bool-cases (c == b'-')) [
  | inl is_dash ↦
      subst (λ x. Spelled (x ∷ name) (to_upper (dash_to_underscore x) ∷ key)) (dash_eq is_dash)
        (dash s)
  | inr no_dash ↦ rw no_dash (elim (Bool-cases (leb b'a' c && leb c b'z')) [
    | inl small ↦ rw small (letter (ground arith) (ground arith) (ground arith) s)
    | inr apart ↦ rw apart (other (ground arith) (ground arith) s)
  ])
]

upper_key-Spelled : (name : Bytes) → Spelled name (upper_key name)
unfolding upper_key
upper_key-Spelled [] = nothing
upper_key-Spelled (c ∷ name) = to_upper-Spelled c (upper_key-Spelled name)

upper_key-append : (a b : Bytes) → upper_key (a ++ b) ≡ upper_key a ++ upper_key b
unfolding upper_key
upper_key-append [] b = refl
upper_key-append (c ∷ a) b = ap (λ l. to_upper (dash_to_underscore c) ∷ l) (upper_key-append a b)

-- The key of a header whose name has no zero byte is `HTTP_` and the name, dashes as underscores
-- and letters as capitals, and then the terminating zero, whatever the memory held before.
pub header_key_lem :
    (memory header : Bytes)
    → Free 0 header
    → (key : Bytes) × (Spelled header key
        × (header_key memory header ≡ codes "HTTP_" ++ (key ++ 0 ∷ [])))
unfolding header_key upper_key to_upper
header_key_lem memory header f = (
  upper_key header,
  (
    upper_key-Spelled header,
    take-printed memory (c_string header) (length header + 6) (rw (c_string-Free header f) refl)
        ∙ ap (λ c. upper_key (codes "HTTP_" ++ (c ++ 0 ∷ []))) (c_string-Free header f)
        ∙ ap (λ l. codes "HTTP_" ++ l) (upper_key-append header (0 ∷ [])),
  ),
)

-- Whatever the header is called, its key begins with an H.
header_key_first :
    (memory header : Bytes) → (rest : Bytes) × (header_key memory header ≡ b'H' ∷ rest)
unfolding header_key take to_upper
header_key_first memory header =
    let more : length header + 6 ≡ suc (length header + 5) = omega arith in rw more (_, refl)

module _ ⦃h : Hash⦄ where
  open h use {Table, find, update}

  find-add_header_field :
      (memory : Bytes) (t : Table Bytes) (f : Bytes × Bytes) (x : ℕ) (rest : Bytes)
      → x ≢ b'H'
      → find (add_header_field memory t f) (str (x ∷ rest)) ≡ find t (str (x ∷ rest))
  unfolding add_header_field symtable_key canonical digits_value
  find-add_header_field memory t (name, value) x rest apart =
      let (tail, e) = header_key_first memory name in
      rw (add_header_field, e)
        (ground (arith, find-update t (str (b'H' ∷ tail)) (str (x ∷ rest)) value))

  -- Headers touch no entry whose key begins with another letter than H.
  pub find-add_header_fields :
      (memory : Bytes) (t : Table Bytes) (fields : List (Bytes × Bytes)) (x : ℕ) (rest : Bytes)
      → x ≢ b'H'
      → find (add_header_fields memory t fields) (str (x ∷ rest)) ≡ find t (str (x ∷ rest))
  unfolding add_header_fields
  find-add_header_fields memory t [] x rest apart = refl
  find-add_header_fields memory t (f ∷ fs) x rest apart =
      find-add_header_fields memory (add_header_field memory t f) fs x rest apart
      ∙ find-add_header_field memory t f x rest apart

  find-request_line :
      (method path : Bytes) (minor_version : ℕ) (k : Key)
      → find (request_line method path minor_version) k
        ≡ ite (Key-discrete (str (codes "REQUEST_URI")) k) (some path) (
            ite (Key-discrete (str (codes "REQUEST_METHOD")) k) (some method) (
              ite
                (Key-discrete (str (codes "SERVER_PROTOCOL")) k)
                (some (codes "HTTP/1." ++ decimal minor_version))
                none))
  unfolding request_line
  find-request_line method path minor_version k =
      rw
        (
          find-update _ (str (codes "REQUEST_URI")) k path,
          find-update _ (str (codes "REQUEST_METHOD")) k method,
          find-update (h.init) (str (codes "SERVER_PROTOCOL")) k
              (codes "HTTP/1." ++ decimal minor_version),
          find-init {V = Bytes} k,
        )
        refl

  -- Of a request that is parsed, the three entries of the request line stand in the array with the
  -- request's method, path and version, whatever its headers are called.
  pub parsed_result-request_line :
      (memory : Bytes) (status minor_version : ℕ) (method path : Bytes)
      (headers : List (Bytes × Bytes))
      → (t : Table Bytes) × ((parsed_result memory
            (request status method path minor_version headers)).server
          ≡ some t)
        × (find t (str (codes "REQUEST_METHOD")) ≡ some method)
        × (find t (str (codes "REQUEST_URI")) ≡ some path)
        × (find t (str (codes "SERVER_PROTOCOL")) ≡ some (codes "HTTP/1." ++ decimal minor_version))
  unfolding parsed_result request_line Key-discrete ℕ_discrete
  parsed_result-request_line memory status minor_version method path headers = (
    add_header_fields memory (request_line method path minor_version) headers,
    refl,
    find-add_header_fields memory (request_line method path minor_version) headers b'R' _
          (omega arith)
        ∙ find-request_line method path minor_version (str (codes "REQUEST_METHOD")),
    find-add_header_fields memory (request_line method path minor_version) headers b'R' _
          (omega arith)
        ∙ find-request_line method path minor_version (str (codes "REQUEST_URI")),
    find-add_header_fields memory (request_line method path minor_version) headers b'S' _
          (omega arith)
        ∙ find-request_line method path minor_version (str (codes "SERVER_PROTOCOL")),
  )

  abbrev held_bytes : Option Bytes → Bytes
  held_bytes none = []
  held_bytes (some b) = b

  parsed_result-releases :
      (memory : Bytes) (p : Parsed) → (parsed_result memory p).header_buffer ≡ none
  unfolding parsed_result
  parsed_result-releases memory malformed = refl
  parsed_result-releases memory partial = refl
  parsed_result-releases memory (request status method path minor_version headers) = refl

  -- The buffer is given up on every path.
  http_parse_header-releases :
      (phr : Bytes → Parsed) (memory : Bytes) (held : Option Bytes) (b : Bytes)
      → (http_parse_header phr memory held b).header_buffer ≡ none
  unfolding http_parse_header
  http_parse_header-releases phr memory held b =
      elim (Bool-cases (ltb rp_http_header_max (length (held_bytes held) + length b))) [
        | inl over ↦ rw over refl
        | inr fits ↦ rw fits (parsed_result-releases memory (phr (held_bytes held ++ b)))
      ]

  -- Every chunk of a connection is parsed on its own, as if nothing had come before it: what is
  -- printed for the chunks is what each of them alone gives. A request that comes in two chunks is
  -- therefore never seen as a whole.
  read_all-separate :
      (phr : Bytes → Parsed) (memory : Bytes) (chunks : List Bytes)
      → read_all phr memory (record { flag = 0; buffer = none }) chunks
        ≡ map (λ b. (http_parse_header phr memory none b).server) chunks
  unfolding read_all connection_read_cb
  read_all-separate phr memory [] = refl
  read_all-separate phr memory (b ∷ chunks) = rw (http_parse_header-releases phr memory none b) (
      ap (λ l. (http_parse_header phr memory none b).server ∷ l)
        (read_all-separate phr memory chunks))
