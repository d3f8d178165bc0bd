-- ===== src/Server/Udp/Buffers.antt =====
-- src/reactor.c and src/server/udp.c: who frees the buffer of a message, the completion of a send
-- included. Without HAVE_REUSEPORT.
use respondphp.Base.{
  ℕ, suc, ◌+◌, ◌≡◌, ◌≢◌, refl, List, [], ◌∷◌, Bool, true, false, not, ◌&&◌, if◌then◌else◌, ltb,
  arith, Bool-cases, inl, inr, some,
}
use respondphp.Zend.{ℤ}
use respondphp.Reactor.{is_negative}
use respondphp.Reactor.Messages.{
  DataRequest, send_request, recv_request, unknown_request, Ext, MsgEffect, calls_send, ipc_receive,
  actor_ipc_receive, data_receive, receive_request, accept_client, init_client, count_frees,
  keeps_buffer, is_positive, ipc_receive-frees, send_effects,
}
use respondphp.Reactor.{ReactorType, rp_tcp, rp_pipe, rp_udp, rp_routine}
use respondphp.Server.Udp.{UdpEffect, frees_message, send_cb, ipc_udp_send_cb}
use respondphp.Server.Udp.Delivery.{sent_for_worker}

abbrev pub messages_freed : List UdpEffect → ℕ
messages_freed [] = 0
messages_freed (frees_message ∷ es) = suc (messages_freed es)
messages_freed (_ ∷ es) = messages_freed es

-- How often the buffer of the message is freed by the sends that it asks for: by their completions,
-- where uv_udp_send gives `started` and the callback gets `status`.
unfoldable pub frees_of_sends : (started status : ℤ) → List MsgEffect → ℕ
unfolding send_cb sent_for_worker
frees_of_sends started status [] = 0
frees_of_sends started status (calls_send r (send_request b) client ∷ es) =
    messages_freed (sent_for_worker started status (send_cb false b))
    + frees_of_sends started status es
frees_of_sends started status (_ ∷ es) = frees_of_sends started status es

frees_of_sends-init :
    (started status : ℤ) (type : ReactorType) (client : ℕ) (es : List MsgEffect)
    → frees_of_sends started status (init_client type client ∷ es)
      ≡ frees_of_sends started status es
unfolding frees_of_sends
frees_of_sends-init started status rp_tcp client es = refl
frees_of_sends-init started status rp_pipe client es = refl
frees_of_sends-init started status rp_udp client es = refl
frees_of_sends-init started status rp_routine client es = refl

abbrev is_send : DataRequest → Bool
is_send (send_request b) = true
is_send (recv_request b) = false
is_send unknown_request = false

frees_of_sends-request :
    (started status : ℤ) (base client : ℕ) (ext : Ext) (req : DataRequest) (accepted : Bool)
    → frees_of_sends started status (receive_request base ext req client accepted)
      ≡ (if is_send req && (accepted && not (is_negative started)) then 1 else 0)
unfolding receive_request accept_client frees_of_sends sent_for_worker send_cb ipc_udp_send_cb
frees_of_sends-request started status base client ext (send_request b) false =
    frees_of_sends-init started status ext.reactor.type client _
frees_of_sends-request started status base client ext (send_request b) true =
    rw
      (frees_of_sends-init started status ext.reactor.type client
        (send_effects ext (send_request b) (some client)))
      (elim (Bool-cases (is_negative started)) [ inl e ↦ rw e refl | inr e ↦ rw e refl ])
frees_of_sends-request started status base client ext (recv_request b) accepted = refl
frees_of_sends-request started status base client ext unknown_request accepted = refl

frees_of_sends-data :
    (started status : ℤ) (base client : ℕ) (size : ℤ) (ext : Ext) (req : DataRequest)
    (accepted : Bool)
    → frees_of_sends started status (data_receive size base ext req client accepted)
      ≡ (if keeps_buffer size req && (accepted && not (is_negative started)) then 1 else 0)
unfolding data_receive frees_of_sends receive_request
frees_of_sends-data started status base client size ext (send_request b) accepted =
    elim (Bool-cases (is_positive size)) [
      | inl read ↦
          rw read (frees_of_sends-request started status base client ext (send_request b) accepted)
      | inr failed ↦ rw failed refl
    ]
frees_of_sends-data started status base client size ext (recv_request b) accepted =
    elim (Bool-cases (is_positive size)) [ inl read ↦ rw read refl | inr failed ↦ rw failed refl ]
frees_of_sends-data started status base client size ext unknown_request accepted =
    elim (Bool-cases (is_positive size)) [ inl read ↦ rw read refl | inr failed ↦ rw failed refl ]

frees_of_sends-receive :
    (started status : ℤ) (pending base client : ℕ) (size : ℤ) (ext : Ext) (req : DataRequest)
    (accepted : Bool)
    → frees_of_sends started status (actor_ipc_receive pending size base ext req client accepted)
      ≡ (if ltb 0 pending && keeps_buffer size req
          then (if accepted && not (is_negative started) then 1 else 0)
          else 0)
unfolding actor_ipc_receive frees_of_sends
frees_of_sends-receive started status pending base client size ext req accepted =
    ground (arith, frees_of_sends-data started status base client size ext req accepted)

-- Over an ipc pipe a worker or a routine frees the buffer of a message once, whether a client comes
-- with it or not and whether it is accepted or not. So does the actor, of a RP_SEND message in the
-- completion of the send; except that the buffer of a RP_SEND message that came with a handle and
-- was read without an error is never freed where its client is not accepted or uv_udp_send fails at
-- once. The buffer and the client are two pointers.
pub received-frees :
    (pending base client : ℕ) (size started status : ℤ) (ext : Ext) (req : DataRequest)
    (accepted : Bool)
    → base ≢ client
    → (count_frees base (ipc_receive pending base ext client accepted) ≡ 1)
      × (count_frees base (actor_ipc_receive pending size base ext req client accepted)
            + frees_of_sends started status
                (actor_ipc_receive pending size base ext req client accepted)
          ≡ (if (ltb 0 pending && keeps_buffer size req)
                && not (accepted && not (is_negative started))
              then 0
              else 1))
received-frees pending base client size started status ext req accepted apart =
    let (worker, actor) = ipc_receive-frees pending base client size ext req accepted apart in
    (
      worker,
      rw (actor, frees_of_sends-receive started status pending base client size ext req accepted)
          (counted (ltb 0 pending && keeps_buffer size req)
            (accepted && not (is_negative started))),
    )
  where
    counted :
        (kept sent : Bool)
        → (if kept then 0 else 1) + (if kept then (if sent then 1 else 0) else 0)
          ≡ (if kept && not sent then 0 else 1)
    counted true true = refl
    counted true false = refl
    counted false sent = refl
