-- ===== src/StreamConnection/Address.antt =====
-- src/internal/stream_connection.c, with sock_addr of include/respondphp.h: the text of a TCP
-- address. What getpeername and getsockname give is an argument, unless the call fails.
use respondphp.Base.{
  List, Bool, true, false, ℕ, zero, suc, ◌+◌, ◌*◌, ◌/◌, ◌%◌, Option, none, some, [], ◌∷◌, ◌++◌,
  Bytes, if◌then◌else◌, ltb, not, take,
}
use respondphp.Zend.{Zval}

-- `%d` of a number that has `n` digits at most.
unfoldable pub digits : (n : ℕ) → ℕ → Bytes
digits zero m = []
digits (suc n) m =
    let front = digits n (m / 10) in if ltb m 10 then (48 + m) ∷ [] else front ++ (48 + m % 10) ∷ []

-- snprintf(&addr_str[strlen(addr_str)], 6, ":%d", port): five bytes and the terminating zero.
unfoldable pub port_suffix : ℕ → Bytes
unfolding digits
port_suffix port = take 5 (b':' ∷ digits 5 port)

-- `struct sockaddr`: whether its family is AF_INET, the bytes of the address, and those of the port
-- in the order of the network.
pub record SockAddr : Type 0 where
  pub is_inet : Bool
  pub ip : Bytes
  pub port : ℕ × ℕ

abbrev pub ntohs : ℕ × ℕ → ℕ
ntohs (high, low) = high * 256 + low

-- Where the port goes with a z_port: ZVAL_LONG gets the address of the parameter, so the value and
-- its type are written over the parameter and what follows it on the stack.
pub data PortWrite : Type 0 where
  over_stack : ℕ → PortWrite

-- `inet_ntop` of an IPv4 address or of an IPv6 address
module _ (inet_ntop : (is_inet : Bool) → Bytes → Bytes) where
  unfoldable pub sock_addr : SockAddr → Bytes × ℕ
  sock_addr a =
      if a.is_inet
      then (inet_ntop true a.ip, ntohs a.port)
      else (inet_ntop false a.ip, ntohs a.port)

  -- rp_stream_connection_tcp_get_remote_address: `z_port` says that it is not NULL. The address is
  -- written into a `struct sockaddr` of 16 bytes, with 52 as its length: that of an IPv6 socket has
  -- 28 bytes, goes past the end, and what follows is undefined.
  unfoldable pub tcp_get_remote_address :
      (z_port : Bool) → Option SockAddr → Option (Zval × List PortWrite)
  unfolding port_suffix sock_addr
  tcp_get_remote_address z_port none = some (Zval.null, [])
  tcp_get_remote_address z_port (some a) =
      let (text, port) = sock_addr a in
      if not a.is_inet
      then none
      else if z_port
      then some (Zval.string text, over_stack port ∷ [])
      else some (Zval.string (text ++ port_suffix port), [])

  -- rp_stream_connection_tcp_get_local_address
  unfoldable pub tcp_get_local_address :
      (z_port : Bool) → Option SockAddr → Option (Zval × List PortWrite)
  unfolding port_suffix sock_addr
  tcp_get_local_address z_port none = some (Zval.null, [])
  tcp_get_local_address z_port (some a) =
      let (text, port) = sock_addr a in
      if not a.is_inet
      then none
      else if z_port
      then some (Zval.string text, over_stack port ∷ [])
      else some (Zval.string (text ++ port_suffix port), [])

abbrev pub shown_port : ℕ → ℕ
shown_port port = if ltb port 10000 then port else port / 10

-- What a method returns for what the helper gives, if that is defined.
abbrev pub method_value : (Zval → Zval) → Option (Zval × List PortWrite) → Option Zval
method_value method none = none
method_value method (some r) = some (method r.0)

abbrev pub inet4 : Bytes → ℕ × ℕ → SockAddr
inet4 ip port = record { is_inet = true; ip = ip; port = port }

abbrev pub inet6 : Bytes → ℕ × ℕ → SockAddr
inet6 ip port = record { is_inet = false; ip = ip; port = port }
