-- ===== src/Server/Udp/Layout.antt =====
-- The memory that actor_recv_cb and worker_recv_cb of src/server/udp.c write a datagram to, byte for
-- byte, with the layout that the structs of include/types.h have on a 64-bit little-endian machine.
use respondphp.Base.{
  ℕ, zero, suc, ◌+◌, ◌-◌, ◌*◌, ◌/◌, ◌%◌, Option, none, some, [], ◌∷◌, Bytes, Bool, if◌then◌else◌,
  ◌&&◌, ◌==◌, leb, ltb, length,
}
use respondphp.StreamConnection.Address.{SockAddr}

-- What a pointer points to, by offset
abbrev pub Memory : Type 0
Memory = ℕ → ℕ

unfoldable pub of_bytes : Bytes → Memory
of_bytes [] i = 0
of_bytes (b ∷ bs) zero = b
of_bytes (b ∷ bs) (suc i) = of_bytes bs i

unfoldable pub load : ℕ → Memory → Bytes
load zero m = []
load (suc n) m = m 0 ∷ load n (λ i. m (suc i))

abbrev pub at : ℕ → Memory → Memory
at offset m i = m (offset + i)

-- A number in `width` bytes, the lowest first
unfoldable pub le_bytes : (width : ℕ) → ℕ → Bytes
le_bytes zero n = []
le_bytes (suc w) n = n % 256 ∷ le_bytes w (n / 256)

unfoldable pub le_value : Bytes → ℕ
le_value [] = 0
le_value (b ∷ bs) = b + 256 * le_value bs

-- What rp_malloc gives: a write past its size is a fault, `none`.
pub record Block : Type 0 where
  pub size : ℕ
  pub memory : Memory

abbrev pub overwrite : (offset n : ℕ) → Memory → Memory → Memory
overwrite offset n source m i =
    if leb offset i && ltb i (offset + n) then source (i - offset) else m i

unfoldable pub memcpy : (offset n : ℕ) → Memory → Block → Option Block
memcpy offset n source b =
    if leb (offset + n) b.size
    then some (record b { memory = overwrite offset n source b.memory })
    else none

-- A number that is written as a member of `width` bytes
unfoldable pub put : (offset width : ℕ) → ℕ → Block → Option Block
unfolding memcpy of_bytes le_bytes
put offset width n b = memcpy offset width (of_bytes (le_bytes width n)) b

-- AF_INET, and `sockaddr_size` of an address by its family
abbrev pub af_inet : ℕ
af_inet = 2

unfoldable pub is_ipv4 : Memory → Bool
unfolding load le_value
is_ipv4 addr = le_value (load 2 addr) == af_inet

unfoldable pub sockaddr_size : Memory → ℕ
unfolding is_ipv4
sockaddr_size addr = if is_ipv4 addr then 16 else 28

-- sizeof(rp_reactor_data_send_req_payload_recv_t) and the offsets of its members; those of
-- rp_reactor_data_send_req_t, and its RP_RECV
abbrev pub sizeof_recv : ℕ
sizeof_recv = 32

abbrev pub recv_flags : ℕ
recv_flags = 16

abbrev pub recv_data_len : ℕ
recv_data_len = 24

abbrev pub recv_data : ℕ
recv_data = 32

abbrev pub sizeof_req : ℕ
sizeof_req = 56

abbrev pub req_payload : ℕ
req_payload = 8

abbrev pub rp_recv : ℕ
rp_recv = 0

abbrev pub and_then : Option Block → (Block → Option Block) → Option Block
and_then none f = none
and_then (some b) f = f b

-- actor_recv_cb, from rp_malloc to the last memcpy. What stood in the memory is `old`.
unfoldable pub actor_message : (old : Memory) (flags : ℕ) (addr : Memory) → Bytes → Option Block
unfolding memcpy put sockaddr_size of_bytes
actor_message old flags addr bytes =
    and_then (put 0 4 rp_recv (record { size = sizeof_req + length bytes; memory = old })) λ b.
      and_then (put (req_payload + recv_flags) 4 flags b) λ b.
        and_then (memcpy req_payload (sockaddr_size addr) addr b) λ b.
          and_then (put (req_payload + recv_data_len) 8 (length bytes) b)
            λ b. memcpy (req_payload + recv_data) (length bytes) (of_bytes bytes) b

-- worker_recv_cb, likewise
unfoldable pub worker_message : (old : Memory) (flags : ℕ) (addr : Memory) → Bytes → Option Block
unfolding memcpy put sockaddr_size of_bytes
worker_message old flags addr bytes =
    and_then (put recv_flags 4 flags (record { size = sizeof_recv; memory = old })) λ b.
      and_then (memcpy 0 (sockaddr_size addr) addr b) λ b.
        and_then (put recv_data_len 8 (length bytes) b)
          λ b. memcpy recv_data (length bytes) (of_bytes bytes) b

-- What sock_addr reads of an address
unfoldable pub sockaddr_of : Memory → SockAddr
unfolding is_ipv4 load
sockaddr_of addr = record {
  is_inet = is_ipv4 addr;
  ip = if is_ipv4 addr then load 4 (at 4 addr) else load 16 (at 8 addr);
  port = (addr 2, addr 3);
}

-- What data_actor_recv_cb reads of a request
unfoldable pub read_datagram : Memory → SockAddr × Bytes
unfolding sockaddr_of load le_value
read_datagram m = (sockaddr_of m, load (le_value (load 8 (at recv_data_len m))) (at recv_data m))

-- The flags of a received datagram
unfoldable pub read_flags : Memory → ℕ
unfolding load le_value
read_flags m = le_value (load 4 (at recv_flags m))

-- The `type` that rp_reactor_data_receive reads
unfoldable pub read_type : Memory → ℕ
unfolding load le_value
read_type m = le_value (load 4 m)

-- The offsets of the members of rp_reactor_data_send_req_payload_send_t, sizeof(rp_reactor_addr_t),
-- and RP_SEND
abbrev pub send_sender : ℕ
send_sender = 32

abbrev pub send_data_len : ℕ
send_data_len = 40

abbrev pub send_data : ℕ
send_data = 48

abbrev pub sizeof_addr : ℕ
sizeof_addr = 32

abbrev pub rp_send : ℕ
rp_send = 1

-- The message of ipc_udp_send_data, from rp_malloc to the last memcpy; `sender` is what getpid gives.
unfoldable pub send_message : (old : Memory) (sender : ℕ) (addr : Memory) → Bytes → Option Block
unfolding memcpy put of_bytes
send_message old sender addr bytes =
    and_then
      (put (req_payload + send_sender) 4 sender
        (record { size = sizeof_req + length bytes; memory = old }))
      λ b. and_then (put 0 4 rp_send b) λ b. and_then (memcpy req_payload sizeof_addr addr b) λ b.
        and_then (put (req_payload + send_data_len) 8 (length bytes) b)
          λ b. memcpy (req_payload + send_data) (length bytes) (of_bytes bytes) b

-- What send_cb gives uv_udp_send of a request, and the process that made it
unfoldable pub read_send : Memory → SockAddr × ℕ × Bytes
unfolding sockaddr_of load le_value
read_send m = (
  sockaddr_of m,
  le_value (load 4 (at send_sender m)),
  load (le_value (load 8 (at send_data_len m))) (at send_data m),
)
