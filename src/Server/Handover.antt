-- ===== src/Server/Handover.antt =====
-- How a client goes from the actor to a worker: the connection callbacks of src/server/tcp.c and
-- src/server/pipe.c, the write over the ipc pipe and its completion, and rp_reactor_ipc_receive of
-- src/reactor.c in the worker that reads it. A message that carries a handle is read by itself.
pub mod Told
use respondphp.Base.{
  ℕ, ◌+◌, ◌≡◌, refl, ap, ◌∙◌, Option, none, some, List, [], ◌∷◌, ◌++◌, Bytes, Bool, true, false,
  if◌then◌else◌, not, ◌&&◌, ◌||◌, ◌==◌, arith, Bool-cases, inl, inr,
}
use mathlib.Core.List.{append-nil}
use respondphp.Zend.{ℤ}
use respondphp.Reactor.{Reactor, ReactorType, rp_tcp, rp_pipe, rp_udp, rp_routine, is_negative}
use respondphp.Reactor.Messages.{
  MsgEffect, inits_tcp, inits_pipe, closes_with, closes_and_frees, calls_accepted,
  writes_with_handle, write2_cb, ipc_receive, ipc_send_ex, accept_client, init_client, make_ext,
  sizeof_ext,
}
use respondphp.Server.Tcp.{ipc_connection_cb}
use respondphp.Server.Pipe.{connection_cb}

pub data Listener : Type 0 where
  tcp_listener pipe_listener : Listener

-- A connection that arrives in the actor, and all that the environment has to say about it.
pub record Arrival : Type 0 where
  pub listener : Listener
  pub reactor : Reactor
  pub status : ℤ
  -- what rp_malloc gives the actor for the client and for the request of the write
  pub client : ℕ
  pub request : ℕ
  -- whether uv_accept gives 0 in the actor
  pub accepted : Bool
  -- whether uv_write2 gives 0, which rp_reactor_ipc_send_ex does not look at: if not, nothing is
  -- written and its callback does not run
  pub written : Bool
  -- the worker that reads the message, if one does
  pub reader : Option ℕ
  -- what rp_malloc gives the worker for the buffer and for the client
  pub base : ℕ
  pub peer : ℕ
  -- whether uv_accept gives 0 in the worker
  pub taken : Bool

abbrev pub reads : (worker : ℕ) → Option ℕ → Bool
reads worker none = false
reads worker (some w) = worker == w

-- What a worker does with what it reads.
unfoldable pub receives : (worker : ℕ) → Arrival → List MsgEffect → List MsgEffect
unfolding ipc_receive
receives worker a [] = []
receives worker a (writes_with_handle ext len client pipe ∷ es) =
    let rest = receives worker a es in
    if a.written && reads worker a.reader
    then ipc_receive 1 a.base ext a.peer a.taken ++ rest
    else rest
receives worker a (_ ∷ es) = receives worker a es

-- The clients that a process tells its reactors, each with the reactor and the data.
abbrev pub told : List MsgEffect → List (Reactor × ℕ × Bytes)
told [] = []
told (calls_accepted r client bytes ∷ es) = (r, client, bytes) ∷ told es
told (_ ∷ es) = told es

abbrev pub closes_of : ℕ → MsgEffect → ℕ
closes_of p (closes_and_frees q) = if p == q then 1 else 0
closes_of p (closes_with q callback) = if p == q then 1 else 0
closes_of p _ = 0

abbrev pub closes : ℕ → List MsgEffect → ℕ
closes p [] = 0
closes p (e ∷ es) = closes_of p e + closes p es

abbrev pub comes_to : (worker : ℕ) → Arrival → Bool
comes_to worker a =
    not (is_negative a.status) && (a.accepted && (a.written && (reads worker a.reader && a.taken)))

abbrev pub clients_of : (worker : ℕ) → List Arrival → List (Reactor × ℕ × Bytes)
clients_of worker [] = []
clients_of worker (a ∷ arrivals) =
    let rest = clients_of worker arrivals in
    if comes_to worker a then (a.reactor, a.peer, []) ∷ rest else rest

-- An arrival without an error whose handle is given up: one that was refused, or that was written.
abbrev pub is_closed : Arrival → Bool
is_closed a = not (is_negative a.status) && (not a.accepted || a.written)

abbrev pub arrivals_of : ℕ → List Arrival → ℕ
arrivals_of p [] = 0
arrivals_of p (a ∷ arrivals) =
    (if is_closed a then if p == a.client then 1 else 0 else 0) + arrivals_of p arrivals

-- rp_free_cb and ipc_pipe, by address
module _ (free_cb ipc : ℕ) where
  unfoldable pub arrives : Arrival → List MsgEffect
  unfolding ipc_connection_cb connection_cb
  arrives a = elim a.listener [
    | tcp_listener ↦ ipc_connection_cb a.reactor a.status a.client ipc a.accepted
    | pipe_listener ↦ connection_cb a.reactor a.status a.client ipc a.accepted
  ]

  -- The completion in the actor of a write that was begun, whether it succeeds or not.
  unfoldable pub completes : Arrival → List MsgEffect → List MsgEffect
  unfolding write2_cb
  completes a [] = []
  completes a (writes_with_handle ext len client pipe ∷ es) =
      let rest = completes a es in
      if a.written then write2_cb a.request client free_cb ++ rest else rest
  completes a (_ ∷ es) = completes a es

  unfoldable pub in_actor : List Arrival → List MsgEffect
  unfolding arrives completes
  in_actor [] = []
  in_actor (a ∷ arrivals) = arrives a ++ (completes a (arrives a) ++ in_actor arrivals)

  unfoldable pub in_worker : (worker : ℕ) → List Arrival → List MsgEffect
  unfolding arrives receives
  in_worker worker [] = []
  in_worker worker (a ∷ arrivals) = receives worker a (arrives a) ++ in_worker worker arrivals
