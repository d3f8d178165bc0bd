-- ===== src/Examples/Tls.antt =====
-- src/server/secure.c at one client and one certificate file.
use respondphp.Base.{◌≡◌, ◌+◌, refl, some, [], ◌∷◌, codes, true, false}
use respondphp.Zend.Ordered.{ordered}
use respondphp.EventEmitter.{event_hook_init}
use respondphp.StreamConnection.{Connection, create_resource}
use respondphp.Server.Secure.Keys.{
  OptionValue, text, cert, ssl_ctx_set_pkey, ssl_ctx_set_cert, made, disposed, leaked, takes,
  load-disposed,
}
use respondphp.Server.Secure.Handshakes.{
  Read, session, in_order, has_connect, some_ok, handshake_read_cb, accepted_cb, session-connects,
}

abbrev pem : OptionValue
pem = text (codes "pem")

-- The second certificate of the file is refused.
load-disposed_example :
    (disposed (cert 2) (ssl_ctx_set_pkey pem true true true).1
      ≡ made (cert 2) (ssl_ctx_set_pkey pem true true true).1)
    × (disposed (cert 2) (ssl_ctx_set_cert pem true (some (true ∷ false ∷ [])) true).1
          + leaked (takes pem true true) (some (true ∷ false ∷ [])) (cert 2)
        ≡ made (cert 2) (ssl_ctx_set_cert pem true (some (true ∷ false ∷ [])) true).1)
load-disposed_example =
    load-disposed pem pem true true true true true (some (true ∷ false ∷ [])) (cert 2)

abbrev a_connection : Connection
unfolding create_resource
a_connection = create_resource 1

abbrev hello : Read
hello = record {
  ok = false;
  fatal = false;
  output = (codes "hello", true) ∷ [];
  finished = false;
  plain = [];
}

abbrev finished : Read
finished = record {
  ok = true;
  fatal = false;
  output = [];
  finished = true;
  plain = codes "GET" ∷ [];
}

session-connects_example :
    (in_order false
        (session 5
          (accepted_cb 2 3 4 5 event_hook_init).1.handshake
          (hello ∷ finished ∷ [])
          a_connection).0
      ≡ true)
    × (has_connect
          (session 5
            (accepted_cb 2 3 4 5 event_hook_init).1.handshake
            (hello ∷ finished ∷ [])
            a_connection).0
        ≡ some_ok (hello ∷ finished ∷ []))
    × (((handshake_read_cb (record hello { fatal = true }) a_connection).1).closed ≡ true)
session-connects_example =
    session-connects 2 3 4 5 event_hook_init (hello ∷ finished ∷ []) a_connection
      (record hello { fatal = true }) (refl, tt) refl
