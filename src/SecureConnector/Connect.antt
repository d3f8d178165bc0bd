-- ===== src/SecureConnector/Connect.antt =====
-- src/connector/secure.c: a TLS connect, from the PHP method over the handshake to the answer. What
-- OpenSSL answers is an argument: whether SSL_do_handshake returns 1, and the certificate of the peer.
use respondphp.Base.{
  ℕ, Option, none, some, List, [], ◌∷◌, ◌++◌, Bytes, Bool, true, false, if◌then◌else◌, codes,
}
use respondphp.Zend.{Zval, ℤ, pos}
use respondphp.Reactor.{is_negative, is_zero}
use respondphp.Server.Address.{low16}
use respondphp.Connector.{socket_connect_ex, uv_tcp}
use respondphp.SecureConnector.Certificates.{GeneralName, peer_accepted}
use respondphp.Request.{
  Effect, allocates, frees, makes_promise, returns_promise, drops_promise, resolves, rejects,
  releases, addrefs_field, defers, inits_handle, closes_handle, makes_connection, makes_ssl_ctx,
  makes_secure_stream, starts_handshake, writes_bio, closes_secure_stream, frees_peer_cert,
  AddressCalls, address_error,
}

-- releaseConnector
unfoldable pub release_connector : List Effect
release_connector = drops_promise ∷ releases ∷ frees ∷ []

-- connect_async_cb
unfoldable pub connect_async_cb : List Effect
unfolding socket_connect_ex
connect_async_cb = inits_handle ∷ socket_connect_ex uv_tcp

-- PHP_METHOD connect: host and port, if the arguments are parsed. The flag says that the connect is
-- given to the reactor.
unfoldable pub connect : AddressCalls → Option (Bytes × ℤ) → List Effect × Bool
unfolding address_error
connect uv none = (allocates ∷ frees ∷ [], false)
connect uv (some (host, port)) =
    let err = address_error uv host (pos (low16 port)) in
    if is_zero err
    then (allocates ∷ makes_promise ∷ returns_promise ∷ addrefs_field ∷ defers ∷ [], true)
    else (
      allocates
          ∷ makes_promise
          ∷ returns_promise
          ∷ rejects (Zval.long err)
          ∷ drops_promise
          ∷ frees
          ∷ [],
      false,
    )

-- connection_cb: the flag says that the handshake is set up.
unfoldable pub connection_cb : (status : ℤ) → List Effect × Bool
connection_cb status =
    if is_negative status
    then (rejects (Zval.long status) ∷ drops_promise ∷ closes_handle ∷ frees ∷ [], false)
    else (
      makes_ssl_ctx ∷ makes_connection ∷ makes_secure_stream ∷ starts_handshake ∷ writes_bio ∷ [],
      true,
    )

-- A certificate of the peer: its common name as the library reads it, and its alternative names.
pub record Peer : Type 0 where
  pub common : Option (ℕ × Bytes)
  pub alt_names : List GeneralName

-- What SSL_do_handshake comes to on some input of the peer.
pub data Progress : Type 0 where
  not_done : Progress
  done : Option Peer → Progress

-- For the server name of the connect, and the object of the TLS stream.
module _ (utf8 : Bytes → Bytes) (server_name : Bytes) (stream : ℕ) where
  unfoldable pub checked : Peer → List Effect
  unfolding peer_accepted release_connector
  checked peer =
      if peer_accepted utf8 peer.common peer.alt_names server_name
      then resolves (Zval.handle stream) ∷ release_connector ++ frees_peer_cert ∷ writes_bio ∷ []
      else closes_secure_stream
          ∷ rejects (Zval.string (codes "cert not match"))
          ∷ drops_promise
          ∷ release_connector
        ++ frees_peer_cert ∷ []

  -- handshake_read_cb: the flag says that `handshake` is still set.
  unfoldable pub handshake_read_cb : Progress → List Effect × Bool
  unfolding checked
  handshake_read_cb not_done = (writes_bio ∷ [], true)
  handshake_read_cb (done none) = (writes_bio ∷ [], false)
  handshake_read_cb (done (some peer)) = (checked peer, false)

  -- What the connection reads from the peer, as far as the connector is concerned: once `handshake`
  -- is NULL it is not called again.
  unfoldable pub read_all : (handshake : Bool) → List Progress → List Effect
  unfolding handshake_read_cb
  read_all handshake [] = []
  read_all handshake (r ∷ rs) =
      let called = handshake_read_cb r in if handshake then called.0 ++ read_all called.1 rs else []

  -- A whole connect. `started` is what uv_tcp_connect returns; it calls back exactly if that is 0.
  unfoldable pub secure_life :
      AddressCalls → Option (Bytes × ℤ) → (started status : ℤ) → List Progress → List Effect
  unfolding connect connect_async_cb connection_cb read_all
  secure_life uv args started status reads =
      let (es, deferred) = connect uv args in
      let (fs, handshake) = connection_cb status in
      if deferred
      then es
        ++ (connect_async_cb ++ (if is_zero started then fs ++ read_all handshake reads else []))
      else es
