-- ===== src/Server/Udp/Sending.antt =====
-- What becomes of a datagram in the memory of the message that src/server/udp.c sends to the actor.
use respondphp.Base.{ℕ, ◌+◌, ◌^◌, ◌<◌, ◌≡◌, some, Bytes, length, arith}
use respondphp.Server.Udp.Layout.{
  send_message, rp_send, read_send, Memory, of_bytes, at, le_bytes, Block, overwrite, memcpy, put,
  req_payload, sockaddr_of, read_type,
}
use respondphp.Server.Udp.Reading.{sockaddr_of-near, bytes_read, read_send-same, read_member}

module _ (old addr : Memory) (sender : ℕ) (bytes : Bytes) where
  -- The memory after the writes of ipc_udp_send_data
  abbrev sent : Memory
  sent = overwrite 56 (length bytes) (of_bytes bytes) (
      overwrite 48 8 (of_bytes (le_bytes 8 (length bytes))) (
        overwrite 8 32 addr (
          overwrite 0 4 (of_bytes (le_bytes 4 rp_send))
            (overwrite 40 4 (of_bytes (le_bytes 4 sender)) old))))

  send_message_lem :
      send_message old sender addr bytes ≡ some (record { size = 56 + length bytes; memory = sent })
  unfolding send_message memcpy put
  send_message_lem = ground arith

  addr_stays : (j : ℕ) → j < 32 → sent (8 + j) ≡ addr j
  addr_stays j low = ground arith

  sender_stays : (j : ℕ) → j < 4 → sent (8 + (32 + j)) ≡ of_bytes (le_bytes 4 sender) j
  sender_stays j low = ground arith

  len_stays : (j : ℕ) → j < 8 → sent (8 + (40 + j)) ≡ of_bytes (le_bytes 8 (length bytes)) j
  len_stays j low = ground arith

  data_stays : (j : ℕ) → j < length bytes → sent (8 + (48 + j)) ≡ of_bytes bytes j
  data_stays j low = ground arith

  type_stays : (j : ℕ) → j < 4 → sent j ≡ of_bytes (le_bytes 4 rp_send) j
  type_stays j low = ground arith

  send_type_read : read_type sent ≡ rp_send
  unfolding read_type
  send_type_read = read_member 4 rp_send sent (omega arith) type_stays

  send_kept :
      sender < 256 ^ 4
      → length bytes < 256 ^ 8
      → read_send (at 8 sent) ≡ (sockaddr_of addr, sender, bytes)
  send_kept pid small =
      read_send-same (at 8 sent)
        (sockaddr_of-near (at 8 sent) addr (λ j low. addr_stays j (omega (arith, low)))
          (λ six j low. addr_stays j (omega (arith, low))))
        (read_member 4 sender (at 32 (at 8 sent)) pid sender_stays)
        (bytes_read bytes (at 40 (at 8 sent)) (at 48 (at 8 sent)) small len_stays data_stays)

-- A datagram that a worker sends over the actor is written within the memory of its message, and the
-- actor reads there the address, the port, the bytes and the process that were written; the message
-- is told from one that was received. The length has 64 bits and the process number 32.
pub send_message-read :
    (old addr : Memory) (sender : ℕ) (bytes : Bytes)
    → sender < 256 ^ 4
    → length bytes < 256 ^ 8
    → (b : Block) × (send_message old sender addr bytes ≡ some b)
      × (read_type b.memory ≡ rp_send)
      × (read_send (at req_payload b.memory) ≡ (sockaddr_of addr, sender, bytes))
send_message-read old addr sender bytes pid small = (
  record { size = 56 + length bytes; memory = sent old addr sender bytes },
  send_message_lem old addr sender bytes,
  send_type_read old addr sender bytes,
  send_kept old addr sender bytes pid small,
)
