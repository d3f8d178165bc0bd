-- ===== src/Resolver.antt =====
-- src/network/resolver.c: the two queries, from the PHP methods to the callbacks of libuv.
pub mod Settling
use respondphp.Base.{
  ℕ, Option, none, some, List, [], ◌∷◌, ◌++◌, Bytes, Bool, true, false, if◌then◌else◌, not,
}
use respondphp.Zend.{Zval, ℤ, pos}
use respondphp.Reactor.{is_negative, is_zero}
use respondphp.Request.{
  Effect, allocates, frees, makes_promise, returns_promise, drops_promise, resolves, rejects,
  resolves_addresses, addrefs_field, releases_field, defers, asks_addrinfo, asks_nameinfo,
  frees_no_addrinfo, AddressCalls, address_error,
}

-- `struct addrinfo`: the families that the code tells apart, with the text that `uv_ip4_name` or
-- `uv_ip6_name` writes.
pub data AddrInfo : Type 0 where
  inet inet6 : Bytes → AddrInfo
  other : AddrInfo

-- on_nameinfo_resolved: on an error the promise is not dropped.
unfoldable pub on_nameinfo_resolved : (status : ℤ) (hostname : Bytes) → List Effect
on_nameinfo_resolved status hostname =
    if is_negative status
    then rejects (Zval.long status) ∷ frees ∷ []
    else resolves (Zval.string hostname) ∷ drops_promise ∷ frees ∷ []

-- The loop of on_addrinfo_resolved, with the two arrays.
unfoldable pub addrinfo_loop : List AddrInfo → (v4 v6 : List Bytes) → List Bytes × List Bytes
addrinfo_loop [] v4 v6 = (v4, v6)
addrinfo_loop (inet text ∷ res) v4 v6 = addrinfo_loop res (v4 ++ text ∷ []) v6
addrinfo_loop (inet6 text ∷ res) v4 v6 = addrinfo_loop res v4 (v6 ++ text ∷ [])
addrinfo_loop (other ∷ res) v4 v6 = addrinfo_loop res v4 v6

-- on_addrinfo_resolved: after the loop `res` is NULL, and that is what uv_freeaddrinfo gets.
unfoldable pub on_addrinfo_resolved : (status : ℤ) → List AddrInfo → List Effect
unfolding addrinfo_loop
on_addrinfo_resolved status res =
    if not (is_zero status)
    then rejects (Zval.long status) ∷ frees ∷ []
    else (let (v4, v6) = addrinfo_loop res [] [] in
        resolves_addresses v4 v6 ∷ drops_promise ∷ frees ∷ frees_no_addrinfo ∷ [])

-- getaddrinfo_async_cb: the field is released after the request was freed, if libuv refused it.
unfoldable pub getaddrinfo_async_cb : (err : ℤ) → List Effect
getaddrinfo_async_cb err =
    asks_addrinfo
    ∷ ((if not (is_zero err) then rejects (Zval.long err) ∷ frees ∷ [] else [])
        ++ releases_field ∷ [])

unfoldable pub getnameinfo_async_cb : (err : ℤ) → List Effect
getnameinfo_async_cb err =
    asks_nameinfo ∷ (if is_zero err then [] else rejects (Zval.long err) ∷ frees ∷ [])

-- PHP_METHOD getaddrinfo: the flag says that the query is given to the reactor.
unfoldable pub getaddrinfo : Option Bytes → List Effect × Bool
getaddrinfo none = (allocates ∷ makes_promise ∷ frees ∷ drops_promise ∷ [], false)
getaddrinfo (some hostname) =
    (allocates ∷ makes_promise ∷ returns_promise ∷ addrefs_field ∷ defers ∷ [], true)

-- PHP_METHOD getnameinfo
unfoldable pub getnameinfo : AddressCalls → Option Bytes → List Effect × Bool
unfolding address_error
getnameinfo uv none = ([], false)
getnameinfo uv (some ip_address) =
    let err = address_error uv ip_address (pos 0) in
    if is_zero err
    then (allocates ∷ makes_promise ∷ returns_promise ∷ defers ∷ [], true)
    else (allocates ∷ makes_promise ∷ returns_promise ∷ rejects (Zval.long err) ∷ frees ∷ [], false)

-- Whole queries: libuv calls back exactly if it took the query, `err` being what it returned.
unfoldable pub getaddrinfo_life : Option Bytes → (err status : ℤ) → List AddrInfo → List Effect
unfolding getaddrinfo getaddrinfo_async_cb on_addrinfo_resolved
getaddrinfo_life hostname err status res =
    let (es, deferred) = getaddrinfo hostname in
    if deferred
    then es
      ++ (getaddrinfo_async_cb err ++ (if is_zero err then on_addrinfo_resolved status res else []))
    else es

unfoldable pub getnameinfo_life :
    AddressCalls → Option Bytes → (err status : ℤ) (hostname : Bytes) → List Effect
unfolding getnameinfo getnameinfo_async_cb on_nameinfo_resolved
getnameinfo_life uv ip_address err status hostname =
    let (es, deferred) = getnameinfo uv ip_address in
    if deferred
    then es
      ++ (getnameinfo_async_cb err
          ++ (if is_zero err then on_nameinfo_resolved status hostname else []))
    else es
