-- ===== src/Server/Udp/Delivery.antt =====
-- src/server/udp.c: what a read and a send come to, over either way.
use respondphp.Base.{
  ℕ, suc, ◌≡◌, List, [], ◌∷◌, ◌++◌, if◌then◌else◌, arith, Bytes, Bool, true, false, not, ◌&&◌, none,
  some,
}
use respondphp.CString.{strchr}
use respondphp.Zend.{ℤ, pos}
use respondphp.Server.Address.{Resolves, low16}
use respondphp.Reactor.{is_negative}
use respondphp.Reactor.Messages.{is_positive}
use respondphp.Server.Udp.{
  Datagram, Settlement, resolved, rejected, UdpEffect, sends_recv, calls_data_recv, frees_buffer,
  writes_status, settles, actor_recv_cb, worker_recv_cb, udp_send_cb, ipc_udp_send_cb,
  ipc_udp_send_result_receive, sends_direct, sends_ipc, sends_for_worker, send_cb,
}

-- The datagrams that reach data_actor_recv_cb: a RP_RECV request reaches it over the data pipe.
abbrev pub delivered : List UdpEffect → List Datagram
delivered [] = []
delivered (sends_recv d ∷ es) = d ∷ delivered es
delivered (calls_data_recv d ∷ es) = d ∷ delivered es
delivered (_ ∷ es) = delivered es

abbrev pub buffers_freed : List UdpEffect → ℕ
buffers_freed [] = 0
buffers_freed (frees_buffer ∷ es) = suc (buffers_freed es)
buffers_freed (_ ∷ es) = buffers_freed es

-- Both receive callbacks pass the datagram on if it is not empty and no error, and free the buffer
-- once on every branch.
recv_cb-delivered :
    (nread : ℤ) (d : Datagram)
    → (delivered (actor_recv_cb nread d) ≡ (if is_positive nread then d ∷ [] else []))
      × (delivered (worker_recv_cb nread d) ≡ delivered (actor_recv_cb nread d))
      × (buffers_freed (actor_recv_cb nread d) ≡ 1)
      × (buffers_freed (worker_recv_cb nread d) ≡ 1)
unfolding actor_recv_cb worker_recv_cb
recv_cb-delivered nread d = ground arith

abbrev pub settlements : List UdpEffect → List Settlement
settlements [] = []
settlements (settles s ∷ es) = s ∷ settlements es
settlements (_ ∷ es) = settlements es

-- The sender reads the status that the actor wrote: `nread` is the number of bytes, or an error.
unfoldable pub answered : (nread : ℤ) → List UdpEffect → List UdpEffect
unfolding ipc_udp_send_result_receive
answered nread [] = []
answered nread (writes_status status ∷ es) =
    ipc_udp_send_result_receive nread status ++ answered nread es
answered nread (_ ∷ es) = answered nread es

-- The completion of each send in the actor: `started` is the result of uv_udp_send, which the code
-- does not look at; if it is an error the callback does not run.
unfoldable pub sent_for_worker : (started status : ℤ) → List UdpEffect → List UdpEffect
unfolding ipc_udp_send_cb
sent_for_worker started status [] = []
sent_for_worker started status (sends_for_worker b ∷ es) =
    let rest = sent_for_worker started status es in
    if is_negative started then rest else ipc_udp_send_cb status ++ rest
sent_for_worker started status (_ ∷ es) = sent_for_worker started status es

-- What libuv, the actor and the answer bring about after a send. `reached` says that the request
-- reaches the actor, and that its pipe is accepted there.
unfoldable pub completions :
    (reached : Bool) → (started status nread : ℤ) → List UdpEffect → List UdpEffect
unfolding udp_send_cb send_cb sent_for_worker answered
completions reached started status nread [] = []
completions reached started status nread (sends_direct b ∷ es) =
    let rest = completions reached started status nread es in
    if is_negative started then rest else udp_send_cb status ++ rest
completions reached started status nread (sends_ipc b ∷ es) =
    let rest = completions reached started status nread es in
    if reached
    then answered nread (sent_for_worker started status (send_cb false b)) ++ rest
    else rest
completions reached started status nread (_ ∷ es) = completions reached started status nread es

-- A settlement by a status.
abbrev pub by_status : ℤ → Settlement
by_status status = if is_negative status then rejected status else resolved status

-- Whether the address of a send is understood.
abbrev pub understood : Resolves → Bytes → ℤ → Bool
understood uv host port = elim (strchr host b':') [
  | none ↦ uv.ip4 host (pos (low16 port))
  | some i ↦ uv.ip6 host (pos (low16 port))
]

-- What settles the promise of a send to an address that is understood, by the process itself or by
-- the actor.
abbrev pub settled_by : (direct reached : Bool) → (started status nread : ℤ) → List Settlement
settled_by true reached started status nread =
    if is_negative started then [] else by_status status ∷ []
settled_by false reached started status nread =
    if reached && not (is_negative started)
    then (if is_negative nread then rejected nread else resolved status) ∷ []
    else []
