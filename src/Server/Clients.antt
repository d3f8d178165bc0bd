-- ===== src/Server/Clients.antt =====
-- src/server/tcp.c and src/server/pipe.c: a new client has one owner.
use respondphp.Base.{ℕ, ◌+◌, ◌≡◌, List, [], ◌∷◌, Bool, if◌then◌else◌, ◌==◌, arith}
use respondphp.Zend.{ℤ}
use respondphp.Reactor.{Reactor, is_negative}
use respondphp.Reactor.Messages.{
  MsgEffect, closes_and_frees, frees, calls_accepted, writes_with_handle, ipc_send_ex,
}
use respondphp.Server.Tcp.{ipc_connection_cb, socket_connection_cb}
use respondphp.Server.Pipe.{connection_cb}

-- The effects that take the client over: another process's, a connection object's, or the free
-- that follows the close of its handle, or comes at once.
abbrev pub takes : ℕ → MsgEffect → ℕ
takes p (writes_with_handle ext len client ipc) = if p == client then 1 else 0
takes p (calls_accepted r client bytes) = if p == client then 1 else 0
takes p (closes_and_frees q) = if p == q then 1 else 0
takes p (frees q) = if p == q then 1 else 0
takes p _ = 0

abbrev pub owners : ℕ → List MsgEffect → ℕ
owners p [] = 0
owners p (e ∷ es) = takes p e + owners p es

-- The connection callbacks of Tcp (in the actor and in a worker) and of Pipe: on an error nothing
-- happens to a client, and else the new client is handed over or freed, exactly once.
connection_cb-owners :
    (r : Reactor) (status : ℤ) (client ipc : ℕ) (accepted : Bool)
    → (owners client (ipc_connection_cb r status client ipc accepted)
        ≡ (if is_negative status then 0 else 1))
      × (owners client (socket_connection_cb r status client accepted)
          ≡ (if is_negative status then 0 else 1))
      × (owners client (connection_cb r status client ipc accepted)
          ≡ (if is_negative status then 0 else 1))
unfolding ipc_connection_cb socket_connection_cb connection_cb ipc_send_ex
connection_cb-owners r status client ipc accepted = ground arith
