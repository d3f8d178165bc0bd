-- ===== src/Server/Secure.antt =====
-- src/server/secure.c: the certificates of a TLS server and the choice among them by the name that
-- the client asks for. OpenSSL is the environment: a context is a number.
pub mod Selection
pub mod Keys
pub mod Handshakes
use respondphp.Base.{
  ℕ, zero, suc, ◌+◌, Option, none, some, List, [], ◌∷◌, Bytes, Bool, true, false, ◌&&◌,
  if◌then◌else◌, ◌==◌, ltb, length, codes,
}
use respondphp.Zend.{Key, str, index, Hash}
use respondphp.EventEmitter.{EventHook, InternalCb, event_hook_init, on_internal}
use respondphp.EventEmitter.Methods.{EmitterMethods, trait_event_emitter}

-- ssl_ctx_set_pkey_password_cb: how many bytes of the passphrase go into the buffer.
unfoldable pub set_pkey_password_cb : (passphrase : Bytes) (size : ℕ) → ℕ
set_pkey_password_cb passphrase size =
    if ltb size (length passphrase) then size else length passphrase

-- strncmp(a, b, n) == 0, where both strings end in a zero byte.
unfoldable pub strncmp_eq : Bytes → Bytes → ℕ → Bool
strncmp_eq a b zero = true
strncmp_eq [] [] (suc n) = true
strncmp_eq [] (y ∷ ys) (suc n) = y == 0
strncmp_eq (x ∷ xs) [] (suc n) = x == 0
strncmp_eq (x ∷ xs) (y ∷ ys) (suc n) =
    let rest = strncmp_eq xs ys n in if x == y then (if x == 0 then true else rest) else false

-- The test of the loop of ssl_sni_cb, for the name that the client sent, if it sent one.
unfoldable pub key_matches : Option Bytes → Key → Bool
unfolding strncmp_eq
key_matches servername (index i) = false
key_matches none (str host) = false
key_matches (some name) (str host) = strncmp_eq host name (length host)

unfoldable pub sni_loop : Option Bytes → List (Key × ℕ) → Option ℕ
unfolding key_matches
sni_loop servername [] = none
sni_loop servername ((k, ctx) ∷ l) =
    let rest = sni_loop servername l in if key_matches servername k then some ctx else rest

-- One entry of the option "ssl": whether its key and its certificates were taken, and its host.
pub record Certificate : Type 0 where
  pub pkey_ok : Bool
  pub cert_ok : Bool
  pub hostname : Option Bytes

module _ ⦃h : Hash⦄ where
  open h use {Table, init, update, items}

  -- `rp_server_secure_ext_t`
  pub record SecureServer : Type 0 where
    pub socket_zo : Option ℕ
    pub ssl_ctx_ht : Table ℕ
    pub ctx : Option ℕ
    pub event_hook : EventHook

  -- ssl_sni_cb: the context that the connection is switched to, if any.
  unfoldable pub ssl_sni_cb : Option Bytes → SecureServer → Option ℕ
  unfolding sni_loop
  ssl_sni_cb servername s = sni_loop servername (items s.ssl_ctx_ht)

  abbrev pub host_key : Option Bytes → Key
  host_key none = str (codes "*")
  host_key (some host) = str host

  -- The loop of ssl_ctx_parse; `next` is the context that SSL_CTX_new gives.
  unfoldable pub ctx_parse : (next : ℕ) → List Certificate → SecureServer → SecureServer
  ctx_parse next [] s = s
  ctx_parse next (c ∷ cs) s =
      let s1 : SecureServer =
        if c.pkey_ok && c.cert_ok
        then record s {
          ssl_ctx_ht = update s.ssl_ctx_ht (host_key c.hostname) next;
          ctx = some next;
        }
        else s in
      ctx_parse (next + 1) cs s1

  -- ssl_set_ciphers: `none` is the call of SSL_CTX_set_cipher_list on NULL, and else its arguments.
  unfoldable pub ssl_set_ciphers : Option Bytes → SecureServer → Option (ℕ × Bytes)
  ssl_set_ciphers ciphers s = elim s.ctx [
    | none ↦ none
    | some ctx ↦ some (ctx, elim ciphers [ none ↦ codes "DEFAULT" | some list ↦ list ])
  ]

  -- create_respond_server_secure_resource
  unfoldable pub create_resource : SecureServer
  unfolding event_hook_init
  create_resource = record {
    socket_zo = none;
    ssl_ctx_ht = init;
    ctx = none;
    event_hook = event_hook_init;
  }

  -- PHP_METHOD __construct, after its arguments are parsed: the hook of the socket server, the
  -- secure server, and the call of SSL_CTX_set_cipher_list.
  unfoldable pub construct :
      (accepted_cb resource socket next : ℕ) (certificates : List Certificate)
      (ciphers : Option Bytes)
      → EventHook
      → SecureServer
      → EventHook × SecureServer × Option (ℕ × Bytes)
  unfolding on_internal ctx_parse ssl_set_ciphers
  construct accepted_cb resource socket next certificates ciphers hook s =
      let s1 = ctx_parse next certificates (record s { socket_zo = some socket }) in
      (
        on_internal hook (codes "connect") (record { callback = accepted_cb; cb_data = resource }),
        s1,
        ssl_set_ciphers ciphers s1,
      )

  -- PHP_METHODs on, off, removeListeners, getListeners and emit
  unfoldable pub secure_emitter : EmitterMethods SecureServer
  unfolding trait_event_emitter
  secure_emitter =
      trait_event_emitter (λ r. r.event_hook) (λ r hook. record r { event_hook = hook })
