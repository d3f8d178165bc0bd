-- ===== src/Examples/Queries.antt =====
-- src/connector, src/network/resolver.c and src/internal/stream_connection.c at concrete answers.
use respondphp.Base.{
  Bool, ◌+◌, ◌≡◌, refl, Option, some, List, [], ◌∷◌, Bytes, codes, true, false, ◌&&◌, not,
  if◌then◌else◌,
}
use respondphp.Zend.{pos, negsuc, ℤ}
use respondphp.Zend.Ordered.{ordered}
use respondphp.Reactor.{is_zero, is_negative}
use respondphp.Request.{
  AddressCalls, Completes, settled, made, dropped, count, is_free, is_allocation, safe, number,
  address_error,
}
use respondphp.Connector.{tcp_life, pipe_life, tcp_connect}
use respondphp.Connector.Settling.{connect-Completes}
use respondphp.Resolver.{inet, getaddrinfo_life, getnameinfo_life, getnameinfo}
use respondphp.Resolver.Settling.{query-Settles, is_given, answers}
use respondphp.SecureConnector.Connect.{Progress, not_done, done, secure_life, connect}
use respondphp.SecureConnector.Handshake.{
  secure_life-answers, settlements, drops, streams, first_done, resolved_with, Reaches,
}

-- Every text is an address.
abbrev any_text : AddressCalls
any_text = record { uv_ip4_addr = λ host port. pos 0; uv_ip6_addr = λ host port. pos 0 }

abbrev args : Option (Bytes × ℤ)
args = some (codes "::1", pos 80)

connect-Completes_example :
    Completes (tcp_life any_text args (pos 0) (pos 0) 7)
    × Completes (pipe_life (some (codes "/a")) (pos 0) 7)
    × (settled (tcp_life any_text args (negsuc 3) (pos 0) 7) + number (tcp_connect any_text args).1
        ≡ made (tcp_life any_text args (negsuc 3) (pos 0) 7))
connect-Completes_example = connect-Completes any_text args (some (codes "/a")) 3 (pos 0) 7

query-Settles_example :
    ((settled (getnameinfo_life any_text (some (codes "::1")) (pos 0) (negsuc 1) (codes "a"))
        ≡ made (getnameinfo_life any_text (some (codes "::1")) (pos 0) (negsuc 1) (codes "a")))
      × (count is_free
            (getnameinfo_life any_text (some (codes "::1")) (pos 0) (negsuc 1) (codes "a"))
          ≡ count is_allocation
              (getnameinfo_life any_text (some (codes "::1")) (pos 0) (negsuc 1) (codes "a")))
      × (safe false (getnameinfo_life any_text (some (codes "::1")) (pos 0) (negsuc 1) (codes "a"))
          ≡ true)
      × (dropped (getnameinfo_life any_text (some (codes "::1")) (pos 0) (negsuc 1) (codes "a"))
          ≡ number (
              (getnameinfo any_text (some (codes "::1"))).1
              && (is_zero (pos 0) && not (is_negative (negsuc 1))))))
    × ((settled (getaddrinfo_life (some (codes "a")) (pos 0) (negsuc 1) (inet (codes "1") ∷ []))
          ≡ number (is_given (some (codes "a"))))
        × (count is_free
              (getaddrinfo_life (some (codes "a")) (pos 0) (negsuc 1) (inet (codes "1") ∷ []))
            ≡ 1)
        × (safe false
              (getaddrinfo_life (some (codes "a")) (pos 0) (negsuc 1) (inet (codes "1") ∷ []))
            ≡ (is_given (some (codes "a")) && is_zero (pos 0))))
    × (answers (getaddrinfo_life (some (codes "b")) (pos 0) (pos 0) (inet (codes "1") ∷ []))
        ≡ (codes "1" ∷ [], []) ∷ [])
query-Settles_example =
    query-Settles any_text (some (codes "::1")) (some (codes "a")) (pos 0) (negsuc 1) (codes "a")
      (inet (codes "1") ∷ []) (codes "b")

-- The handshake takes two reads, and the peer's common name is a.
abbrev reads : List Progress
reads = not_done ∷ done (some (record { common = some (1, codes "a"); alt_names = [] })) ∷ []

reaches : Reaches any_text args (pos 0) (pos 0)
unfolding connect address_error
reaches = (refl, refl, refl)

secure_life-answers_example :
    (settled (secure_life (λ b. b) (codes "a") 9 any_text args (pos 0) (pos 0) reads)
      ≡ settlements (λ b. b) (codes "a") 9 (first_done reads))
    × (dropped (secure_life (λ b. b) (codes "a") 9 any_text args (pos 0) (pos 0) reads)
        ≡ drops (λ b. b) (codes "a") 9 (first_done reads))
    × (count is_free (secure_life (λ b. b) (codes "a") 9 any_text args (pos 0) (pos 0) reads)
        ≡ settlements (λ b. b) (codes "a") 9 (first_done reads))
    × (resolved_with (secure_life (λ b. b) (codes "a") 9 any_text args (pos 0) (pos 0) reads)
        ≡ streams (λ b. b) (codes "a") 9 (first_done reads))
    × (safe false (secure_life (λ b. b) (codes "a") 9 any_text args (pos 0) (pos 0) reads) ≡ true)
secure_life-answers_example =
    secure_life-answers (λ b. b) (codes "a") 9 any_text args (pos 0) (pos 0) reads reaches

abbrev inet_ntop : Bool → Bytes → Bytes
inet_ntop is_inet ip = if is_inet then codes "127.0.0.1" else codes "::1"

abbrev local : Bytes
local = 127 ∷ 0 ∷ 0 ∷ 1 ∷ []
