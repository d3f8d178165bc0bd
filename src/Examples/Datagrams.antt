-- ===== src/Examples/Datagrams.antt =====
-- src/server/udp.c on one datagram.
use respondphp.Base.{if◌then◌else◌, ◌≡◌, none, some, true, [], ◌∷◌, codes, arith}
use respondphp.Server.Address.{Resolves}
use respondphp.Zend.Ordered.{ordered}
use respondphp.Server.Udp
use respondphp.Server.Udp.Layout.{
  Memory, read_flags, is_ipv4, send_message, read_send, rp_send, Block, of_bytes, at, actor_message,
  worker_message, read_type, read_datagram, sockaddr_of, rp_recv, req_payload,
}
use respondphp.Server.Udp.Wire.{messages_read}
use respondphp.Server.Udp.{Datagram}

-- Every text is an address.
abbrev every_address : Resolves
every_address = record { ip4 = λ host port. true; ip6 = λ host port. true }

abbrev an_actor : Udp.UdpServer
unfolding Udp.create_resource
an_actor = Udp.create_resource

-- `struct sockaddr_in6` of ::1 and port 54321
abbrev addr : Memory
addr = of_bytes (
    10 ∷ 0 ∷ 212 ∷ 49 ∷ 0 ∷ 0 ∷ 0 ∷ 0 ∷ 0 ∷ 0 ∷ 0 ∷ 0 ∷ 0 ∷ 0 ∷ 0 ∷ 0 ∷ 0 ∷ 0 ∷ 0 ∷ 0 ∷ 0 ∷ 0 ∷ 0
    ∷ 1 ∷ 0 ∷ 0 ∷ 0 ∷ 0 ∷ [])

-- rp_malloc gives memory full of 170.
abbrev old : Memory
old i = 170

messages_read_example :
    ((b : Block) × (actor_message old 0 addr (codes "hi") ≡ some b)
      × (read_type b.memory ≡ rp_recv)
      × (read_datagram (at req_payload b.memory) ≡ (sockaddr_of addr, codes "hi"))
      × (read_flags (at req_payload b.memory) ≡ (if is_ipv4 addr then 0 else read_flags addr)))
    × ((b : Block) × (send_message old 77 addr (codes "hi") ≡ some b)
        × (read_type b.memory ≡ rp_send)
        × (read_send (at req_payload b.memory) ≡ (sockaddr_of addr, 77, codes "hi")))
    × (worker_message old 0 addr (codes "hi") ≡ none)
messages_read_example =
    messages_read old addr 0 77 (codes "hi") (omega arith) (omega arith) (omega arith) (omega arith)
