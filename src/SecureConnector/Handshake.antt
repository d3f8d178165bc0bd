-- ===== src/SecureConnector/Handshake.antt =====
-- src/connector/secure.c: what a TLS connect does to its promise and to its memory.
use respondphp.Base.{
  ℕ, ◌≡◌, refl, Option, none, some, List, [], ◌∷◌, Bytes, Bool, true, false, if◌then◌else◌, arith,
  Bool-cases, inl, inr,
}
use respondphp.Zend.{Zval, ℤ, pos}
use respondphp.Reactor.{is_negative, is_zero}
use respondphp.Server.Address.{low16}
use respondphp.Connector.{socket_connect_ex}
use respondphp.SecureConnector.Certificates.{peer_accepted}
use respondphp.Request.{
  Effect, resolves, AddressCalls, address_error, settled, dropped, count, is_free, safe,
}
use respondphp.SecureConnector.Connect.{
  Peer, Progress, not_done, done, release_connector, connect_async_cb, connect, connection_cb,
  checked, handshake_read_cb, read_all, secure_life,
}

-- The first successful handshake of a history: whether there is one, and the peer's certificate.
abbrev pub first_done : List Progress → Option (Option Peer)
first_done [] = none
first_done (not_done ∷ rs) = first_done rs
first_done (done peer ∷ rs) = some peer

abbrev pub resolved_with : List Effect → List Zval
resolved_with [] = []
resolved_with (resolves v ∷ es) = v ∷ resolved_with es
resolved_with (_ ∷ es) = resolved_with es

-- The connect gets as far as the handshake.
abbrev pub Reaches : AddressCalls → Option (Bytes × ℤ) → (started status : ℤ) → Type 0
Reaches uv args started status =
    ((connect uv args).1 ≡ true) × (is_zero started ≡ true) × (is_negative status ≡ false)

module _ (utf8 : Bytes → Bytes) (server_name : Bytes) (stream : ℕ) where
  abbrev pub accepts : Peer → Bool
  accepts peer = peer_accepted utf8 peer.common peer.alt_names server_name

  -- What has to come of a first successful handshake: how often the promise is settled, how often
  -- the connector drops it, and what it is resolved with.
  abbrev pub settlements : Option (Option Peer) → ℕ
  settlements none = 0
  settlements (some none) = 0
  settlements (some (some peer)) = 1

  abbrev pub drops : Option (Option Peer) → ℕ
  drops none = 0
  drops (some none) = 0
  drops (some (some peer)) = if accepts peer then 1 else 2

  abbrev pub streams : Option (Option Peer) → List Zval
  streams none = []
  streams (some none) = []
  streams (some (some peer)) = if accepts peer then Zval.handle stream ∷ [] else []

  abbrev Answered : Option (Option Peer) → List Effect → Type 0
  Answered answer es =
      (settled es ≡ settlements answer)
      × (dropped es ≡ drops answer)
      × (count is_free es ≡ settlements answer)
      × (resolved_with es ≡ streams answer)
      × (safe true es ≡ true)

  read_all-done : (rs : List Progress) → read_all utf8 server_name stream false rs ≡ []
  unfolding read_all
  read_all-done [] = refl
  read_all-done (r ∷ rs) = refl

  read_all-Answered :
      (rs : List Progress) → Answered (first_done rs) (read_all utf8 server_name stream true rs)
  unfolding read_all handshake_read_cb checked release_connector
  read_all-Answered [] = (refl, refl, refl, refl, refl)
  read_all-Answered (not_done ∷ rs) =
      let ih = read_all-Answered rs in
      (omega (arith, ih.0), omega (arith, ih.1), omega (arith, ih.2), ih.3, ih.4)
  read_all-Answered (done none ∷ rs) = rw (read_all-done rs) (refl, refl, refl, refl, refl)
  read_all-Answered (done (some peer) ∷ rs) =
      rw (read_all-done rs) (elim (Bool-cases (accepts peer)) [
        | inl good ↦ rw good (refl, refl, refl, refl, refl)
        | inr bad ↦ rw bad (refl, refl, refl, refl, refl)
      ])

  -- A TLS connect that gets as far as its handshake: over any history of reads, its promise is
  -- settled once if the handshake succeeds and the peer has a certificate, and never otherwise; it is
  -- resolved, with the TLS stream, exactly if the certificate is for the server name. The memory is
  -- released with the settlement and not used afterwards. The connector drops its reference to the
  -- promise once if the certificate is for the name, but twice if it is not.
  pub secure_life-answers :
      (uv : AddressCalls) (args : Option (Bytes × ℤ)) (started status : ℤ) (reads : List Progress)
      → Reaches uv args started status
      → (settled (secure_life utf8 server_name stream uv args started status reads)
          ≡ settlements (first_done reads))
        × (dropped (secure_life utf8 server_name stream uv args started status reads)
            ≡ drops (first_done reads))
        × (count is_free (secure_life utf8 server_name stream uv args started status reads)
            ≡ settlements (first_done reads))
        × (resolved_with (secure_life utf8 server_name stream uv args started status reads)
            ≡ streams (first_done reads))
        × (safe false (secure_life utf8 server_name stream uv args started status reads) ≡ true)
  unfolding secure_life connect connect_async_cb connection_cb socket_connect_ex
  secure_life-answers uv none started status reads h = cc (h.0)
  secure_life-answers uv (some (host, port)) started status reads h =
      elim (Bool-cases (is_zero (address_error uv host (pos (low16 port))))) [
        | inl good ↦
            let a = read_all-Answered reads in
            rw (good, h.1, h.2)
              (omega (arith, a.0), omega (arith, a.1), omega (arith, a.2), a.3, a.4)
        | inr bad ↦ absurd (refused bad)
      ]
    where
      refused : is_zero (address_error uv host (pos (low16 port))) ≡ false → ⊥
      refused bad = ground arith
