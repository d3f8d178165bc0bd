-- ===== src/SecureStream/Lost.antt =====
-- src/stream/secure.c: what a TLS stream does to its connection.
use respondphp.Base.{
  ◌≡◌, refl, Option, none, some, List, [], ◌∷◌, Bytes, Bool, true, false, arith, Bool-cases, inl,
  inr,
}
use respondphp.Zend.{Hash}
use respondphp.StreamConnection.{Connection, connection_shutdown}
use respondphp.StreamConnection
use respondphp.SecureStream.{
  Output, write_bio_to_socket, connection_write, write_method, end_method, end_rest,
}

module _ ⦃h : Hash⦄ where
  refused :
      (c : Connection) (ok : Bool) (b : Bytes)
      → c.shut ≡ true
      → StreamConnection.connection_write ok b c ≡ (false, c, [])
  unfolding StreamConnection.connection_write
  refused c ok b s = ground arith

  all_sent : List (Bytes × Bool) → Bool
  all_sent [] = true
  all_sent (x ∷ cs) = false

  write_bio_to_socket-shut :
      (c : Connection) (chunks : List (Bytes × Bool))
      → c.shut ≡ true
      → write_bio_to_socket chunks c ≡ (all_sent chunks, c, [])
  unfolding write_bio_to_socket all_sent
  write_bio_to_socket-shut c [] s = refl
  write_bio_to_socket-shut c ((b, ok) ∷ cs) s = rw (refused c ok b s) refl

  connection_write-shut :
      (c : Connection) (out : Output) → c.shut ≡ true → connection_write out c ≡ (out.ssl_ok, c, [])
  unfolding connection_write
  connection_write-shut c out s = elim (Bool-cases out.ssl_ok) [
    | inl taken ↦ rw (taken, write_bio_to_socket-shut c out.chunks s) refl
    | inr lost ↦ rw lost refl
  ]

  shutdown-shut :
      (c : Connection) (ok : Bool) → c.shut ≡ true → connection_shutdown ok c ≡ (false, c, [])
  unfolding connection_shutdown
  shutdown-shut c ok s = ground arith

  -- On a connection that is shut down, nothing is sent and nothing changes: `write` returns TRUE all
  -- the same if the session takes the data, `end` returns FALSE.
  pub write_method-shut :
      (c : Connection) (out : Output) (more : Option Output) (shutdown_ok : Bool)
      → c.shut ≡ true
      → (write_method out c ≡ (out.ssl_ok, c, []))
        × (end_method more shutdown_ok c ≡ (false, c, []))
  unfolding write_method end_method end_rest
  write_method-shut c out none shutdown_ok s =
      (connection_write-shut c out s, shutdown-shut c shutdown_ok s)
  write_method-shut c out (some o) shutdown_ok s =
      (connection_write-shut c out s, ended (o.ssl_ok) (connection_write-shut c o s))
    where
      ended :
          (b : Bool)
          → connection_write o c ≡ (b, c, [])
          → end_method (some o) shutdown_ok c ≡ (false, c, [])
      ended true p = rw (p, shutdown-shut c shutdown_ok s) refl
      ended false p = rw p refl
