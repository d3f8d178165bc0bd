-- ===== src/Server/Setup.antt =====
-- src/server: in which processes a server that was constructed is set up.
use respondphp.Base.{
  Bool-cases, inl, inr, ℕ, ◌≡◌, refl, ap, sym, ◌∙◌, Option, some, List, [], ◌∷◌, ◌++◌, Bytes, Bool,
  true, false, if◌then◌else◌,
}
use mathlib.Core.List.{append_assoc, append-nil}
use respondphp.Zend.{ℤ, pos, Hash, values, values-next_insert}
use respondphp.Reactor.{
  Reactor, Callback, Effect, runs, run_cb, run_each, reactor_init, reactor_free, State,
  reactors_add_new, init_actor_server, actor_calls, tcp_server_init, udp_server_init,
  pipe_server_init, init_worker_server, uv_chain, worker_calls, UvCall, is_negative,
}
use respondphp.Server.Address.{Resolves, rp_addr, low16, int16}
use respondphp.Server.Tcp.{TcpServer}
use respondphp.Server.Tcp
use respondphp.Manager.{actor}
use respondphp.Server.Udp.{UdpServer, is_given}
use respondphp.Server.Udp
use respondphp.Server.Pipe.{PipeServer}
use respondphp.Server.Pipe

run_each-append :
    (field : Reactor → Option Callback) (a b : List Reactor)
    → run_each field (a ++ b) ≡ run_each field a ++ run_each field b
unfolding run_each
run_each-append field [] b = refl
run_each-append field (r ∷ a) b =
    rw (run_each-append field a b)
      (sym (append_assoc (run_cb (field r) r) (run_each field a) (run_each field b)))

module _ ⦃h : Hash⦄ where
  open h use {items}

  -- The reactor that a server gets.
  added : State → ℕ → (Reactor → Reactor) → Reactor
  added s self fill =
      fill
        (record (reactor_init s.heap) { reactor_free_cb = some reactor_free; server = some self })

  run_each-add_new :
      (field : Reactor → Option Callback) (s : State) (self : ℕ) (fill : Reactor → Reactor)
      → run_each field (values (items ((reactors_add_new s self fill)).reactors))
        ≡ run_each field (values (items s.reactors)) ++ run_each field (added s self fill ∷ [])
  unfolding reactors_add_new added
  run_each-add_new field s self fill =
      ap (run_each field) (values-next_insert s.reactors (added s self fill))
      ∙ run_each-append field (values (items s.reactors)) (added s self fill ∷ [])

  -- What a new reactor adds to the start of the actor and of a worker.
  init_actor_server-add_new :
      (s : State) (self : ℕ) (fill : Reactor → Reactor)
      → init_actor_server (reactors_add_new s self fill)
        ≡ init_actor_server s ++ run_each (λ r. r.server_init_cb) (added s self fill ∷ [])
  unfolding init_actor_server
  init_actor_server-add_new s self fill =
      ap (λ l. actor_calls ++ l) (run_each-add_new (λ r. r.server_init_cb) s self fill)

  -- The effects of a start whose callbacks wait for the calls to succeed.
  abbrev guarded : Bool → ℤ → List Effect → List Effect → List Effect
  guarded c ret es all = let r : ℤ × List Effect = if c then (ret, es) else (ret, es ++ all) in r.1

  if_add :
      (c : Bool) (ret : ℤ) (es l add all : List Effect)
      → all ≡ l ++ add
      → guarded c ret es all ≡ guarded c ret es l ++ (if c then [] else add)
  if_add true ret es l add all e = sym (append-nil es)
  if_add false ret es l add all e = rw e (sym (append_assoc es l add))

  init_worker_server-add_new :
      (answer : UvCall → ℤ) (s : State) (self : ℕ) (fill : Reactor → Reactor)
      → (init_worker_server answer (reactors_add_new s self fill)).1
        ≡ (init_worker_server answer s).1
          ++ (if is_negative (uv_chain answer (pos 0) worker_calls).0
              then []
              else run_each (λ r. r.worker_init_cb) (added s self fill ∷ []))
  unfolding init_worker_server
  init_worker_server-add_new answer s self fill =
      let (ret, es) = uv_chain answer (pos 0) worker_calls in
      if_add (is_negative ret) ret es _ _ _ (run_each-add_new (λ r. r.worker_init_cb) s self fill)

  -- A TCP server whose address is understood, whether its host is given or left out, adds one call, of its server_init, to the end of what
  -- the actor does at its start, or, with HAVE_REUSEPORT, to the end of what every worker does whose
  -- pipes are set up; the other side does what it did without the server.
  pub tcp_construct-init :
      (reuseport : Bool) (uv : Resolves) (port : ℤ) (host : Option Bytes) (self : ℕ)
      (answer : UvCall → ℤ) (s : State) (server : TcpServer)
      → rp_addr uv host (int16 (low16 port)) ≡ true
      → (init_actor_server (Tcp.construct reuseport uv (some (port, host)) self (s, server)).0
          ≡ init_actor_server s ++ (if reuseport then [] else runs tcp_server_init s.heap ∷ []))
        × ((init_worker_server answer
              (Tcp.construct reuseport uv (some (port, host)) self (s, server)).0).1
            ≡ (init_worker_server answer s).1
              ++ (if is_negative (uv_chain answer (pos 0) worker_calls).0
                  then []
                  else (if reuseport then runs tcp_server_init s.heap ∷ [] else [])))
  unfolding Tcp.construct Tcp.fill run_each added reactor_init
  tcp_construct-init true uv port host self answer s server ok = rw ok (
    init_actor_server-add_new s self (Tcp.fill true),
    init_worker_server-add_new answer s self (Tcp.fill true),
  )
  tcp_construct-init false uv port host self answer s server ok = rw ok (
    init_actor_server-add_new s self (Tcp.fill false),
    init_worker_server-add_new answer s self (Tcp.fill false),
  )

  -- A pipe server adds the call of its server_init to the end of what the actor does at its start,
  -- and nothing to what a worker does.
  pipe_construct-init :
      (path : Bytes) (self : ℕ) (answer : UvCall → ℤ) (s : State) (server : PipeServer)
      → (init_actor_server (Pipe.construct (some path) self (s, server)).0
          ≡ init_actor_server s ++ runs pipe_server_init s.heap ∷ [])
        × ((init_worker_server answer (Pipe.construct (some path) self (s, server)).0).1
            ≡ (init_worker_server answer s).1)
  unfolding Pipe.construct Pipe.fill run_each added reactor_init
  pipe_construct-init path self answer s server = (
    init_actor_server-add_new s self Pipe.fill,
    init_worker_server-add_new answer s self Pipe.fill ∙ nothing_added _ _,
  )
    where
      nothing_added : (c : Bool) (l : List Effect) → l ++ (if c then [] else []) ≡ l
      nothing_added true l = append-nil l
      nothing_added false l = append-nil l

  -- A UDP server that the actor makes, whose address is understood, adds one call of its server_init
  -- to the end of what the actor does at its start, or, with HAVE_REUSEPORT, to the end of what
  -- every worker does whose pipes are set up; the other side does what it did without the server.
  udp_construct-init :
      (reuseport : Bool) (uv : Resolves) (port : ℤ) (host : Option Bytes) (self : ℕ)
      (answer : UvCall → ℤ) (s : State) (server : UdpServer)
      → rp_addr uv host (int16 (low16 port)) ≡ true
      → (init_actor_server (Udp.construct reuseport uv actor (some (port, host)) self (s, server)).0
          ≡ init_actor_server s ++ (if reuseport then [] else runs udp_server_init s.heap ∷ []))
        × ((init_worker_server answer
              (Udp.construct reuseport uv actor (some (port, host)) self (s, server)).0).1
            ≡ (init_worker_server answer s).1
              ++ (if is_negative (uv_chain answer (pos 0) worker_calls).0
                  then []
                  else (if reuseport then runs udp_server_init s.heap ∷ [] else [])))
  unfolding Udp.construct Udp.actor_udp_init Udp.actor_fill run_each added reactor_init
  udp_construct-init true uv port host self answer s server ok = elim (Bool-cases (is_given port)) [
    | inl given ↦
        rw (given, ok)
          (
            init_actor_server-add_new s self (Udp.actor_fill true),
            init_worker_server-add_new answer s self (Udp.actor_fill true),
          )
    | inr absent ↦ rw absent (
      init_actor_server-add_new s self (Udp.actor_fill true),
      init_worker_server-add_new answer s self (Udp.actor_fill true),
    )
  ]
  udp_construct-init false uv port host self answer s server ok =
      elim (Bool-cases (is_given port)) [
        | inl given ↦
            rw (given, ok)
              (
                init_actor_server-add_new s self (Udp.actor_fill false),
                init_worker_server-add_new answer s self (Udp.actor_fill false),
              )
        | inr absent ↦ rw absent (
          init_actor_server-add_new s self (Udp.actor_fill false),
          init_worker_server-add_new answer s self (Udp.actor_fill false),
        )
      ]
