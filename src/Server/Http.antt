-- ===== src/Server/Http.antt =====
-- src/server/http.c: requests over the connections of a socket server. picohttpparser is a
-- parameter: `phr_parse_request` is a function from the bytes of the buffer.
pub mod Headers
use respondphp.Base.{
  ℕ, zero, suc, ◌+◌, ◌-◌, Option, none, some, List, [], ◌∷◌, ◌++◌, map, Bytes, Bool, true, false,
  ◌&&◌, length, drop, if◌then◌else◌, ltb, leb, ◌==◌, codes,
}
use respondphp.Zend.{symtable_key, ℤ, pos, negsuc, Hash, str}
use respondphp.CString.{c_string}
use respondphp.SecureConnector.Certificates.{decimal}
use respondphp.EventEmitter.{EventHook, InternalCb, event_hook_init, on_internal}
use respondphp.EventEmitter.Methods.{EmitterMethods, trait_event_emitter}

-- What `phr_parse_request` gives: -1, -2, or the number of bytes consumed with what it found.
pub data Parsed : Type 0 where
  malformed : Parsed
  partial : Parsed
  request :
      (status : ℕ) (method path : Bytes) (minor_version : ℕ) (headers : List (Bytes × Bytes))
      → Parsed

-- RP_HTTP_HEADER_MAX
abbrev pub rp_http_header_max : ℕ
rp_http_header_max = 2048

unfoldable pub take : ℕ → Bytes → Bytes
take zero l = []
take (suc n) [] = []
take (suc n) (x ∷ l) = x ∷ take n l

-- `php_strtoupper` of one byte
unfoldable pub to_upper : ℕ → ℕ
to_upper c = if leb b'a' c && leb c b'z' then c - 32 else c

abbrev pub dash_to_underscore : ℕ → ℕ
dash_to_underscore c = if c == b'-' then b'_' else c

-- The bytes of a variable-length array after `sprintf`: what is written, and what stood there.
abbrev pub overwrite : Bytes → Bytes → Bytes
overwrite written memory = written ++ drop (length written) memory

-- The key of http_add_header_field. `memory` is what the array on the stack holds before;
-- `header_buffer_len` counts the terminating zero of "HTTP_".
unfoldable pub header_key : (memory : Bytes) → Bytes → Bytes
unfolding take to_upper c_string
header_key memory header =
    let header_buffer_len = length header + 6 in
    let printed = codes "HTTP_" ++ (c_string header ++ 0 ∷ []) in
    map (λ c. to_upper (dash_to_underscore c)) (take header_buffer_len (overwrite printed memory))

module _ ⦃h : Hash⦄ where
  open h use {Table, init, update}

  unfoldable pub add_header_field : (memory : Bytes) → Table Bytes → Bytes × Bytes → Table Bytes
  unfolding header_key symtable_key
  add_header_field memory parsed (header, value) =
      update parsed (symtable_key (header_key memory header)) value

  unfoldable pub add_header_fields :
      (memory : Bytes) → Table Bytes → List (Bytes × Bytes) → Table Bytes
  unfolding add_header_field
  add_header_fields memory parsed [] = parsed
  add_header_fields memory parsed (f ∷ fs) =
      add_header_fields memory (add_header_field memory parsed f) fs

  -- The array under "SERVER", before the headers go into it.
  unfoldable pub request_line : Bytes → Bytes → ℕ → Table Bytes
  unfolding decimal
  request_line method path minor_version =
      update
        (update
          (update init (str (codes "SERVER_PROTOCOL")) (codes "HTTP/1." ++ decimal minor_version))
          (str (codes "REQUEST_METHOD")) method)
        (str (codes "REQUEST_URI")) path

  -- What http_parse_header leaves: `status` is `none` where it was never assigned, `server` where
  -- nothing was parsed.
  pub record Result : Type 0 where
    pub status : Option ℤ
    pub header_buffer : Option Bytes
    pub server : Option (Table Bytes)

  -- The label `header_parse_error`, which every path reaches.
  abbrev pub released : Option ℤ → Option (Table Bytes) → Result
  released status server = record { status = status; header_buffer = none; server = server }

  unfoldable pub parsed_result : (memory : Bytes) → Parsed → Result
  unfolding request_line add_header_fields
  parsed_result memory malformed = released (some (negsuc 0)) none
  parsed_result memory partial = released (some (pos 0)) none
  parsed_result memory (request status method path minor_version headers) =
      released (some (pos status))
        (some (add_header_fields memory (request_line method path minor_version) headers))

  module _ (phr_parse_request : Bytes → Parsed) (memory : Bytes) where
    unfoldable pub http_parse_header : Option Bytes → Bytes → Result
    unfolding parsed_result
    http_parse_header header_buffer buffer =
        let held : Bytes = elim header_buffer [ none ↦ [] | some b ↦ b ] in
        if ltb rp_http_header_max (length held + length buffer)
        then released none none
        else parsed_result memory (phr_parse_request (held ++ buffer))

    -- `rp_http_connection_t`, of which these fields change; `flag` is RP_HTTP_PARSE_HEADER (0).
    pub record HttpConnection : Type 0 where
      pub flag : ℕ
      pub buffer : Option Bytes

    -- http_connection_read_cb, with what it prints
    unfoldable pub connection_read_cb :
        HttpConnection → Bytes → HttpConnection × List (Option (Table Bytes))
    unfolding http_parse_header
    connection_read_cb c bytes =
        let r = http_parse_header c.buffer bytes in
        if c.flag == 0 then (record c { buffer = r.header_buffer }, r.server ∷ []) else (c, [])

    -- The "data" events of a connection.
    unfoldable pub read_all : HttpConnection → List Bytes → List (Option (Table Bytes))
    unfolding connection_read_cb
    read_all c [] = []
    read_all c (d ∷ ds) = let (c1, out) = connection_read_cb c d in out ++ read_all c1 ds

  -- `rp_server_http_ext_t`
  pub record HttpServer : Type 0 where
    pub socket_zo : Option ℕ
    pub event_hook : EventHook

  -- create_respond_server_http_resource
  unfoldable pub create_resource : HttpServer
  unfolding event_hook_init
  create_resource = record { socket_zo = none; event_hook = event_hook_init }

  -- PHP_METHOD __construct, after its arguments are parsed: the hook of the socket server, and the
  -- HTTP server. The pointer given to the callback is the HTTP server's address.
  unfoldable pub construct :
      (accepted_cb resource : ℕ) → (socket : ℕ) → EventHook → HttpServer → EventHook × HttpServer
  unfolding on_internal
  construct accepted_cb resource socket hook s = (
    on_internal hook (codes "connect") (record { callback = accepted_cb; cb_data = resource }),
    record s { socket_zo = some socket },
  )

  -- accepted_cb, on the hook of the new connection: `http_connection` is what `ecalloc` gave.
  unfoldable pub accepted : (read_cb http_connection : ℕ) → EventHook → EventHook
  unfolding on_internal
  accepted read_cb http_connection hook =
      on_internal hook (codes "data") (record { callback = read_cb; cb_data = http_connection })

  -- PHP_METHODs on, off, removeListeners, getListeners and emit
  unfoldable pub http_emitter : EmitterMethods HttpServer
  unfolding trait_event_emitter
  http_emitter = trait_event_emitter (λ r. r.event_hook) (λ r hook. record r { event_hook = hook })
