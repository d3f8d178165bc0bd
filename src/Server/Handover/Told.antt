-- ===== src/Server/Handover/Told.antt =====
-- What comes of the clients of src/server/tcp.c and src/server/pipe.c that the actor hands over to the
-- workers.
use respondphp.Base.{
  ℕ, ◌+◌, ◌≡◌, refl, ap, ◌∙◌, List, [], ◌∷◌, ◌++◌, Bool, true, false, not, ◌&&◌, ◌||◌, ◌⊎◌,
  if◌then◌else◌, ◌==◌, arith, Bool-cases, inl, inr,
}
use mathlib.Core.List.{append-nil}
use respondphp.Reactor.{Reactor, ReactorType, rp_tcp, rp_pipe, rp_udp, rp_routine, is_negative}
use respondphp.Reactor.Messages.{
  MsgEffect, inits_tcp, inits_pipe, closes_and_frees, calls_accepted, write2_cb, ipc_receive,
  ipc_send_ex, accept_client, init_client, make_ext,
}
use respondphp.Server.Tcp.{ipc_connection_cb}
use respondphp.Server.Pipe.{connection_cb}
use respondphp.Server.Handover.{
  Listener, tcp_listener, pipe_listener, Arrival, reads, receives, told, closes, comes_to,
  clients_of, arrivals_of, is_closed, arrives, completes, in_actor, in_worker,
}

told-append : (a b : List MsgEffect) → told (a ++ b) ≡ told a ++ told b
told-append [] b = refl
told-append (calls_accepted r client bytes ∷ a) b =
    ap (λ l. (r, client, bytes) ∷ l) (told-append a b)
told-append (_ ∷ a) b = told-append a b

closes-append : (p : ℕ) (a b : List MsgEffect) → closes p (a ++ b) ≡ closes p a + closes p b
closes-append p [] b = omega arith
closes-append p (e ∷ a) b = omega (arith, closes-append p a b)

told-init_client :
    (type : ReactorType) (client : ℕ) (es : List MsgEffect)
    → told (init_client type client ∷ es) ≡ told es
told-init_client rp_tcp client es = refl
told-init_client rp_pipe client es = refl
told-init_client rp_udp client es = refl
told-init_client rp_routine client es = refl

-- A worker that reads a client tells it if it is accepted.
told-ipc_receive :
    (base : ℕ) (r : Reactor) (peer : ℕ) (taken : Bool)
    → told (ipc_receive 1 base (make_ext r []) peer taken)
      ≡ (if taken then (r, peer, []) ∷ [] else [])
unfolding ipc_receive accept_client
told-ipc_receive base r peer true = told-init_client r.type peer _
told-ipc_receive base r peer false = told-init_client r.type peer _

-- The first effect of either callback tells nothing and closes nothing.
abbrev pub inits : Listener → ℕ → MsgEffect
inits tcp_listener client = inits_tcp client
inits pipe_listener client = inits_pipe client

receives-inits :
    (worker : ℕ) (a : Arrival) (l : Listener) (client : ℕ) (es : List MsgEffect)
    → receives worker a (inits l client ∷ es) ≡ receives worker a es
unfolding receives
receives-inits worker a tcp_listener client es = refl
receives-inits worker a pipe_listener client es = refl

module _ (free_cb ipc : ℕ) where
  arrives_lem :
      (a : Arrival)
      → arrives free_cb ipc a ≡ (
          if is_negative a.status
          then []
          else inits a.listener a.client
            ∷ (if a.accepted
                then ipc_send_ex a.reactor a.client [] ipc
                else closes_and_frees a.client ∷ []))
  unfolding arrives ipc_connection_cb connection_cb
  arrives_lem a = on_listener a.listener
    where
      on_listener :
          (l : Listener)
          → (elim l [
            | tcp_listener ↦ ipc_connection_cb a.reactor a.status a.client ipc a.accepted
            | pipe_listener ↦ connection_cb a.reactor a.status a.client ipc a.accepted
          ])
            ≡ (if is_negative a.status
                then []
                else inits l a.client
                  ∷ (if a.accepted
                      then ipc_send_ex a.reactor a.client [] ipc
                      else closes_and_frees a.client ∷ []))
      on_listener tcp_listener = refl
      on_listener pipe_listener = refl

  told-receives :
      (worker : ℕ) (a : Arrival)
      → told (receives worker a (arrives free_cb ipc a))
        ≡ (if comes_to worker a then (a.reactor, a.peer, []) ∷ [] else [])
  unfolding receives ipc_send_ex
  told-receives worker a = rw (arrives_lem a) (elim (Bool-cases (is_negative a.status)) [
    | inl failed ↦ rw failed refl
    | inr fine ↦ rw fine (
        rw (receives-inits worker a a.listener a.client _) (elim (Bool-cases a.accepted) [
          | inr refused ↦ rw refused refl
          | inl taken ↦ rw taken (elim (Bool-cases a.written) [
            | inr unwritten ↦ rw unwritten refl
            | inl written ↦ rw written (elim (Bool-cases (reads worker a.reader)) [
              | inr lost ↦ rw lost refl
              | inl read ↦ rw read (
                  rw (append-nil (ipc_receive 1 a.base (make_ext a.reactor []) a.peer a.taken))
                    (told-ipc_receive a.base a.reactor a.peer a.taken))
            ])
          ])
        ]))
  ])

  closes-arrives :
      (p : ℕ) (a : Arrival)
      → closes p (arrives free_cb ipc a)
          + closes p (completes free_cb ipc a (arrives free_cb ipc a))
        ≡ (if is_closed a then if p == a.client then 1 else 0 else 0)
  unfolding completes ipc_send_ex write2_cb
  closes-arrives p a =
      rw (arrives_lem a)
        (on_listener a.listener (is_negative a.status) a.accepted (Bool-cases a.written))
    where
      on_listener :
          (l : Listener) (failed accepted : Bool)
          → (a.written ≡ true) ⊎ (a.written ≡ false)
          → (let es : List MsgEffect =
                if failed
                then []
                else inits l a.client
                  ∷ (if accepted
                      then ipc_send_ex a.reactor a.client [] ipc
                      else closes_and_frees a.client ∷ []) in
              closes p es + closes p (completes free_cb ipc a es))
            ≡ (if not failed && (not accepted || a.written)
                then if p == a.client then 1 else 0
                else 0)
      on_listener l true accepted w = refl
      on_listener tcp_listener false true (inl w) = rw w (omega arith)
      on_listener tcp_listener false true (inr w) = rw w refl
      on_listener tcp_listener false false w = omega arith
      on_listener pipe_listener false true (inl w) = rw w (omega arith)
      on_listener pipe_listener false true (inr w) = rw w refl
      on_listener pipe_listener false false w = omega arith

  -- Whatever clients come to TCP and pipe servers of the actor, and whichever worker reads each of
  -- them: a worker tells its reactors exactly the clients that it read, each once, to the reactor
  -- that listens, without data and in the order of their arrival, if no call of libuv failed for it.
  -- The actor closes its own handle of each client that came without an error once, whether a worker
  -- took the client or not, except where uv_write2 fails at once: that handle it never closes.
  pub in_worker-told :
      (worker p : ℕ) (arrivals : List Arrival)
      → (told (in_worker free_cb ipc worker arrivals) ≡ clients_of worker arrivals)
        × (closes p (in_actor free_cb ipc arrivals) ≡ arrivals_of p arrivals)
  unfolding in_worker in_actor
  in_worker-told worker p [] = (refl, refl)
  in_worker-told worker p (a ∷ arrivals) =
      let ih = in_worker-told worker p arrivals in
      (
        told-append (receives worker a (arrives free_cb ipc a))
              (in_worker free_cb ipc worker arrivals)
            ∙ (rw (told-receives worker a, ih.0) (ground arith)),
        omega (
          arith,
          closes-append p (arrives free_cb ipc a)
              (completes free_cb ipc a (arrives free_cb ipc a) ++ in_actor free_cb ipc arrivals),
          closes-append p (completes free_cb ipc a (arrives free_cb ipc a))
              (in_actor free_cb ipc arrivals),
          closes-arrives p a,
          ih.1,
        ),
      )
