-- ===== src/Resolver/Settling.antt =====
-- src/network/resolver.c: what becomes of the promise and of the memory of a query.
use respondphp.Base.{
  ◌≡◌, refl, ap, Option, none, some, List, [], ◌∷◌, ◌++◌, Bytes, Bool, true, false, not, ◌&&◌,
  arith,
}
use respondphp.Zend.{ℤ, pos}
use respondphp.Reactor.{is_zero, is_negative}
use respondphp.Request.{
  AddressCalls, Effect, settled, made, dropped, count, is_free, is_allocation, safe, number,
  resolves_addresses,
}
use respondphp.Resolver.{
  AddrInfo, inet, inet6, other, addrinfo_loop, getaddrinfo_life, getnameinfo_life, getaddrinfo,
  getnameinfo, getaddrinfo_async_cb, getnameinfo_async_cb, on_addrinfo_resolved,
  on_nameinfo_resolved,
}

abbrev pub is_given : {A : Type 0} → Option A → Bool
is_given none = false
is_given (some a) = true

getnameinfo_query-Settles :
    (uv : AddressCalls) (ip_address : Option Bytes) (err status : ℤ) (hostname : Bytes)
    → (settled (getnameinfo_life uv ip_address err status hostname)
        ≡ made (getnameinfo_life uv ip_address err status hostname))
      × (count is_free (getnameinfo_life uv ip_address err status hostname)
          ≡ count is_allocation (getnameinfo_life uv ip_address err status hostname))
      × (safe false (getnameinfo_life uv ip_address err status hostname) ≡ true)
      × (dropped (getnameinfo_life uv ip_address err status hostname)
          ≡ number ((getnameinfo uv ip_address).1 && (is_zero err && not (is_negative status))))
unfolding getnameinfo_life getnameinfo getnameinfo_async_cb on_nameinfo_resolved
getnameinfo_query-Settles uv none err status hostname = (refl, refl, refl, refl)
getnameinfo_query-Settles uv (some ip_address) err status hostname = ground arith

getaddrinfo_query-Settles :
    (host : Option Bytes) (err status : ℤ) (res : List AddrInfo)
    → (settled (getaddrinfo_life host err status res) ≡ number (is_given host))
      × (count is_free (getaddrinfo_life host err status res) ≡ 1)
      × (safe false (getaddrinfo_life host err status res) ≡ (is_given host && is_zero err))
unfolding getaddrinfo_life getaddrinfo getaddrinfo_async_cb on_addrinfo_resolved
getaddrinfo_query-Settles none err status res = (refl, refl, refl)
getaddrinfo_query-Settles (some host) err status res = ground arith

-- The texts of one family, in the order of the list.
abbrev pub ipv4_of : List AddrInfo → List Bytes
ipv4_of [] = []
ipv4_of (inet text ∷ res) = text ∷ ipv4_of res
ipv4_of (_ ∷ res) = ipv4_of res

abbrev pub ipv6_of : List AddrInfo → List Bytes
ipv6_of [] = []
ipv6_of (inet6 text ∷ res) = text ∷ ipv6_of res
ipv6_of (_ ∷ res) = ipv6_of res

append_cons : {A : Type 0} (a : List A) (x : A) (b : List A) → (a ++ x ∷ []) ++ b ≡ a ++ x ∷ b
append_cons [] x b = refl
append_cons (y ∷ a) x b = ap (λ l. y ∷ l) (append_cons a x b)

append_nil : {A : Type 0} (a : List A) → a ≡ a ++ []
append_nil [] = refl
append_nil (y ∷ a) = ap (λ l. y ∷ l) (append_nil a)

addrinfo_loop_lem :
    (res : List AddrInfo) (v4 v6 : List Bytes)
    → addrinfo_loop res v4 v6 ≡ (v4 ++ ipv4_of res, v6 ++ ipv6_of res)
unfolding addrinfo_loop
addrinfo_loop_lem [] v4 v6 = cc (append_nil v4, append_nil v6)
addrinfo_loop_lem (inet text ∷ res) v4 v6 =
    rw (addrinfo_loop_lem res (v4 ++ text ∷ []) v6, append_cons v4 text (ipv4_of res)) refl
addrinfo_loop_lem (inet6 text ∷ res) v4 v6 =
    rw (addrinfo_loop_lem res v4 (v6 ++ text ∷ []), append_cons v6 text (ipv6_of res)) refl
addrinfo_loop_lem (other ∷ res) v4 v6 = addrinfo_loop_lem res v4 v6

-- What an address query resolves its promise with.
abbrev pub answers : List Effect → List (List Bytes × List Bytes)
answers [] = []
answers (resolves_addresses v4 v6 ∷ es) = (v4, v6) ∷ answers es
answers (_ ∷ es) = answers es

getaddrinfo_life-answers :
    (host : Bytes) (res : List AddrInfo)
    → answers (getaddrinfo_life (some host) (pos 0) (pos 0) res) ≡ (ipv4_of res, ipv6_of res) ∷ []
unfolding getaddrinfo_life getaddrinfo getaddrinfo_async_cb on_addrinfo_resolved
getaddrinfo_life-answers host res = rw (addrinfo_loop_lem res [] []) refl

-- A name query that was made settles its promise once and frees its memory once, on every branch,
-- and does not use the memory afterwards; it drops the promise only where a name is found. An
-- address query that was given a name settles its promise once and frees its memory once as well;
-- the memory is used after it was freed exactly if the arguments or libuv refuse the query. One that
-- succeeds resolves its promise with the IPv4 and the IPv6 addresses of the answer, in its order.
pub query-Settles :
    (uv : AddressCalls) (ip_address host : Option Bytes) (err status : ℤ) (hostname : Bytes)
    (res : List AddrInfo) (name : Bytes)
    → ((settled (getnameinfo_life uv ip_address err status hostname)
          ≡ made (getnameinfo_life uv ip_address err status hostname))
        × (count is_free (getnameinfo_life uv ip_address err status hostname)
            ≡ count is_allocation (getnameinfo_life uv ip_address err status hostname))
        × (safe false (getnameinfo_life uv ip_address err status hostname) ≡ true)
        × (dropped (getnameinfo_life uv ip_address err status hostname)
            ≡ number ((getnameinfo uv ip_address).1 && (is_zero err && not (is_negative status)))))
      × ((settled (getaddrinfo_life host err status res) ≡ number (is_given host))
          × (count is_free (getaddrinfo_life host err status res) ≡ 1)
          × (safe false (getaddrinfo_life host err status res) ≡ (is_given host && is_zero err)))
      × (answers (getaddrinfo_life (some name) (pos 0) (pos 0) res)
          ≡ (ipv4_of res, ipv6_of res) ∷ [])
query-Settles uv ip_address host err status hostname res name = (
  getnameinfo_query-Settles uv ip_address err status hostname,
  getaddrinfo_query-Settles host err status res,
  getaddrinfo_life-answers name res,
)
