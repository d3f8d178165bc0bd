-- ===== src/Request.antt =====
-- What a request with a promise does (src/connector, src/network/resolver.c): its effects on its own
-- memory, on its promise and on the string that it holds, oldest first, and their tally. A request is
-- allocated once; the promise is made with one reference for the request, and `returns_promise`
-- adds one for PHP code.
use respondphp.Base.{ℕ, ◌+◌, ◌≡◌, none, some, List, [], ◌∷◌, Bytes, Bool, true, false, ◌&&◌, ◌||◌}
use respondphp.Zend.{Zval, ℤ}
use respondphp.CString.{strchr}

pub data Effect : Type 0 where
  -- rp_malloc or rp_calloc of the request, and rp_free of it
  allocates frees : Effect
  -- rp_make_promise_object, RETVAL_ZVAL with a copy, ZVAL_PTR_DTOR of the promise
  makes_promise returns_promise drops_promise : Effect
  -- rp_resolve_promise; rp_reject_promise with an exception of this reason
  resolves rejects : Zval → Effect
  -- rp_resolve_promise with the arrays "IPv4" and "IPv6"
  resolves_addresses : List Bytes → List Bytes → Effect
  -- zend_string_addref and zend_string_release of a string that the request holds
  addrefs releases : Effect
  -- the same calls on the address of the field that holds the string
  addrefs_field releases_field : Effect
  -- rp_reactor_async_init with the request
  defers : Effect
  -- uv_tcp_init or uv_pipe_init of a new handle
  inits_handle : Effect
  -- uv_tcp_connect, uv_pipe_connect, uv_getaddrinfo, uv_getnameinfo
  tcp_connects pipe_connects asks_addrinfo asks_nameinfo : Effect
  -- uv_close of the request's handle with rp_free_cb
  closes_handle : Effect
  -- rp_stream_connection_factory on the request's handle
  makes_connection : Effect
  -- of a TLS connector: SSL_CTX_new with its settings, rp_stream_secure_factory on the new connection
  -- with the writes that tie the stream to the connector, SSL_set_connect_state with SSL_connect
  makes_ssl_ctx makes_secure_stream starts_handshake : Effect
  -- write_bio_to_socket and close of the TLS stream, X509_free of the peer's certificate
  writes_bio closes_secure_stream frees_peer_cert : Effect
  -- uv_freeaddrinfo, given NULL
  frees_no_addrinfo : Effect

abbrev pub number : Bool → ℕ
number true = 1
number false = 0

-- How many effects of a kind there are.
abbrev pub count : (Effect → Bool) → List Effect → ℕ
count kind [] = 0
count kind (e ∷ es) = number (kind e) + count kind es

abbrev pub is_settlement : Effect → Bool
is_settlement (resolves v) = true
is_settlement (rejects v) = true
is_settlement (resolves_addresses v4 v6) = true
is_settlement _ = false

abbrev pub is_promise : Effect → Bool
is_promise makes_promise = true
is_promise _ = false

abbrev pub is_drop : Effect → Bool
is_drop drops_promise = true
is_drop _ = false

abbrev pub is_allocation : Effect → Bool
is_allocation allocates = true
is_allocation _ = false

abbrev pub is_free : Effect → Bool
is_free frees = true
is_free _ = false

abbrev pub settled : List Effect → ℕ
settled es = count is_settlement es

abbrev pub made : List Effect → ℕ
made es = count is_promise es

abbrev pub dropped : List Effect → ℕ
dropped es = count is_drop es

-- The calls that get nothing from the request's memory.
abbrev pub is_apart : Effect → Bool
is_apart frees_no_addrinfo = true
is_apart inits_handle = true
is_apart makes_ssl_ctx = true
is_apart starts_handshake = true
is_apart writes_bio = true
is_apart closes_secure_stream = true
is_apart frees_peer_cert = true
is_apart _ = false

-- The memory is used only between its allocation and its release, and released once at most.
abbrev pub safe : (alive : Bool) → List Effect → Bool
safe alive [] = true
safe alive (allocates ∷ es) = safe true es
safe alive (frees ∷ es) = alive && safe false es
safe alive (e ∷ es) = (is_apart e || alive) && safe alive es

-- A life that leaves nothing behind: the promise, if one was made, is settled once and the
-- request's reference to it dropped once, the memory is released, and it is not used afterwards.
abbrev pub Completes : List Effect → Type 0
Completes es =
    (settled es ≡ made es)
    × (dropped es ≡ made es)
    × (count is_free es ≡ count is_allocation es)
    × (safe false es ≡ true)

-- What `uv_ip4_addr` and `uv_ip6_addr` return for a text and a port.
pub record AddressCalls : Type 0 where
  pub uv_ip4_addr : Bytes → ℤ → ℤ
  pub uv_ip6_addr : Bytes → ℤ → ℤ

-- The choice between the two, by a colon in the text.
unfoldable pub address_error : AddressCalls → Bytes → ℤ → ℤ
unfolding strchr
address_error uv host port = elim (strchr host b':') [
  | none ↦ uv.uv_ip4_addr host port
  | some i ↦ uv.uv_ip6_addr host port
]
