-- ===== src/Server/Udp/Wire.antt =====
-- What becomes of a datagram in the memory that src/server/udp.c writes it to.
use respondphp.Base.{
  true, if◌then◌else◌, ℕ, ◌+◌, ◌^◌, ◌<◌, ◌≤◌, ◌≡◌, refl, ◌⊎◌, none, some, Bytes, false, length,
  arith, Bool-cases, inl, inr,
}
use respondphp.Server.Udp.Layout.{
  read_flags, send_message, rp_send, read_send, Memory, of_bytes, at, le_bytes, Block, overwrite,
  memcpy, put, is_ipv4, sockaddr_size, req_payload, rp_recv, actor_message, worker_message,
  sockaddr_of, read_datagram, read_type,
}
use respondphp.Server.Udp.Reading.{
  by_branch, flags_read, read_flags-same, sockaddr_of-near, bytes_read, read_member,
  read_datagram-same,
}
use respondphp.Server.Udp.Sending.{send_message-read}

module _ (old addr : Memory) (flags : ℕ) (bytes : Bytes) where
  -- The memory after each write of actor_recv_cb
  abbrev after_type : Memory
  after_type = overwrite 0 4 (of_bytes (le_bytes 4 rp_recv)) old

  abbrev after_flags : Memory
  after_flags = overwrite 24 4 (of_bytes (le_bytes 4 flags)) after_type

  abbrev after_addr : Memory
  after_addr = overwrite 8 (sockaddr_size addr) addr after_flags

  abbrev after_len : Memory
  after_len = overwrite 32 8 (of_bytes (le_bytes 8 (length bytes))) after_addr

  abbrev after_data : Memory
  after_data = overwrite 40 (length bytes) (of_bytes bytes) after_len

  size_cases : (sockaddr_size addr ≡ 16) ⊎ (sockaddr_size addr ≡ 28)
  unfolding sockaddr_size
  size_cases = elim (Bool-cases (is_ipv4 addr)) [
    | inl four ↦ rw four (inl refl)
    | inr six ↦ rw six (inr refl)
  ]

  fits : (sockaddr_size addr ≤ 28)
  fits = elim size_cases [ inl a ↦ omega (arith, a) | inr b ↦ omega (arith, b) ]

  actor_message_lem :
      actor_message old flags addr bytes
      ≡ some (record { size = 56 + length bytes; memory = after_data })
  unfolding actor_message memcpy put
  actor_message_lem = ground (arith, fits)

  worker_message_lem : 0 < length bytes → worker_message old flags addr bytes ≡ none
  unfolding worker_message memcpy put
  worker_message_lem some_byte = ground (arith, fits)

  -- The bytes of the address, up to where data_len begins
  addr_kept : (j : ℕ) → j < 24 → j < sockaddr_size addr → after_data (8 + j) ≡ addr j
  addr_kept j low inside = ground arith

  len_kept : (j : ℕ) → j < 8 → after_data (8 + (24 + j)) ≡ of_bytes (le_bytes 8 (length bytes)) j
  len_kept j low = ground arith

  type_kept : (j : ℕ) → j < 4 → after_data j ≡ of_bytes (le_bytes 4 rp_recv) j
  type_kept j low = ground arith

  data_kept : (j : ℕ) → j < length bytes → after_data (8 + (32 + j)) ≡ of_bytes bytes j
  data_kept j low = ground arith

  first_bytes : (j : ℕ) → j < 16 → after_data (8 + j) ≡ addr j
  first_bytes j low = elim size_cases [
    | inl a ↦ addr_kept j (omega (arith, low)) (omega (arith, a, low))
    | inr b ↦ addr_kept j (omega (arith, low)) (omega (arith, b, low))
  ]

  type_read : read_type after_data ≡ rp_recv
  unfolding read_type
  type_read = read_member 4 rp_recv after_data (omega arith) type_kept

  size_six : is_ipv4 addr ≡ false → sockaddr_size addr ≡ 28
  unfolding sockaddr_size
  size_six six = rw six refl

  datagram_kept :
      length bytes < 256 ^ 8 → read_datagram (at 8 after_data) ≡ (sockaddr_of addr, bytes)
  datagram_kept small =
      read_datagram-same (at 8 after_data)
        (sockaddr_of-near (at 8 after_data) addr first_bytes
          (λ six j low. addr_kept j low (omega (arith, size_six six, low))))
        (bytes_read bytes (at 24 (at 8 after_data)) (at 32 (at 8 after_data)) small len_kept
          data_kept)

  flag_bytes :
      (j : ℕ)
      → j < 4
      → sockaddr_size addr ≡ 16
      → after_data (8 + (16 + j)) ≡ of_bytes (le_bytes 4 flags) j
  flag_bytes j low four = ground arith

  size_four : is_ipv4 addr ≡ true → sockaddr_size addr ≡ 16
  unfolding sockaddr_size
  size_four four = rw four refl

  flags_kept :
      flags < 256 ^ 4
      → read_flags (at 8 after_data) ≡ (if is_ipv4 addr then flags else read_flags addr)
  flags_kept small =
      by_branch (is_ipv4 addr)
        (λ four.
          flags_read (at 8 after_data) flags small (λ j low. flag_bytes j low (size_four four)))
        (λ six.
          read_flags-same (at 8 after_data) addr
            (λ j low. addr_kept (16 + j) (omega (arith, low)) (omega (arith, size_six six, low))))

-- A datagram that the actor reads is written within the memory of its message, and what the worker
-- reads there is the address, the port and the bytes that came, of IPv4 and of IPv6, and the flags, but
-- of IPv6 bytes of the address in their place. One that a worker sends over the actor is read as it
-- was sent, with the process that sends it. Each message is told from one of the other kind. Where a
-- worker reads a datagram itself, with HAVE_REUSEPORT, it is written past the end of the memory. The
-- datagram is not empty, and its length has 64 bits, the flags and the process number 32.
pub messages_read :
    (old addr : Memory) (flags sender : ℕ) (bytes : Bytes)
    → 0 < length bytes
    → length bytes < 256 ^ 8
    → flags < 256 ^ 4
    → sender < 256 ^ 4
    → ((b : Block) × (actor_message old flags addr bytes ≡ some b)
        × (read_type b.memory ≡ rp_recv)
        × (read_datagram (at req_payload b.memory) ≡ (sockaddr_of addr, bytes))
        × (read_flags (at req_payload b.memory)
            ≡ (if is_ipv4 addr then flags else read_flags addr)))
      × ((b : Block) × (send_message old sender addr bytes ≡ some b)
          × (read_type b.memory ≡ rp_send)
          × (read_send (at req_payload b.memory) ≡ (sockaddr_of addr, sender, bytes)))
      × (worker_message old flags addr bytes ≡ none)
messages_read old addr flags sender bytes some_byte small bits pid = (
  (
    record { size = 56 + length bytes; memory = after_data old addr flags bytes },
    actor_message_lem old addr flags bytes,
    type_read old addr flags bytes,
    datagram_kept old addr flags bytes small,
    flags_kept old addr flags bytes bits,
  ),
  send_message-read old addr sender bytes pid small,
  worker_message_lem old addr flags bytes some_byte,
)
