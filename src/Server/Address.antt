-- ===== src/Server/Address.antt =====
-- The addresses of the servers: rp_addr of include/respondphp.h. Whether libuv reads a text as an
-- IPv4 or an IPv6 address is given by two functions.
use respondphp.Base.{ℕ, ◌-◌, ◌%◌, ◌^◌, Option, none, some, Bytes, Bool, if◌then◌else◌, ltb, codes}
use respondphp.Zend.{ℤ, pos, negsuc}
use respondphp.CString.{strchr}

-- `x & 0xffff` of a `long`
abbrev pub low16 : ℤ → ℕ
low16 (pos n) = n % 2 ^ 16
low16 (negsuc n) = 2 ^ 16 - 1 - n % 2 ^ 16

-- The `int16_t` of 16 bits
abbrev pub int16 : ℕ → ℤ
int16 n = if ltb n (2 ^ 15) then pos n else negsuc (2 ^ 16 - 1 - n)

-- What `uv_ip4_addr` and `uv_ip6_addr` return 0 for.
pub record Resolves : Type 0 where
  pub ip4 : Bytes → ℤ → Bool
  pub ip6 : Bytes → ℤ → Bool

unfoldable pub rp_addr : Resolves → Option Bytes → ℤ → Bool
unfolding strchr
rp_addr uv host port =
    let name : Bytes = elim host [ none ↦ codes "::" | some b ↦ b ] in
    elim (strchr name b':') [ none ↦ uv.ip4 name port | some i ↦ uv.ip6 name port ]
