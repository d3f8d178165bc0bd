-- ===== src/Reactor/Deferral.antt =====
-- src/reactor.c: work that is registered before the loop is set up (rp_reactor_async_init_ex), and
-- when it is done.
use respondphp.Base.{
  ℕ, ◌≡◌, refl, ap, sym, ◌∙◌, Option, some, List, [], ◌∷◌, ◌++◌, length, ltb, if◌then◌else◌, false,
  none, Option-cases, inl, inr,
}
use respondphp.Zend.{ℤ, Hash, values, values-next_insert, next_insert}
use respondphp.Manager.{TaskType, actor}
use respondphp.Reactor.{
  AsyncInit, Effect, State, UvCall, uv, loop_init, call_each, call_cb, async_init_ex,
  async_init_execute, init_reactor, init_role, reactors_count, init_actor_server, registers_signal,
  routine_pipe, calls, actor_calls, run_each,
}

append_nil : {A : Type 0} (a : List A) → a ≡ a ++ []
append_nil [] = refl
append_nil (x ∷ a) = ap (λ l. x ∷ l) (append_nil a)

++-assoc : {A : Type 0} (a b c : List A) → (a ++ b) ++ c ≡ a ++ (b ++ c)
++-assoc [] b c = refl
++-assoc (x ∷ a) b c = ap (λ l. x ∷ l) (++-assoc a b c)

call_each-append :
    (field : AsyncInit → Option ℕ) (a b : List AsyncInit)
    → call_each field (a ++ b) ≡ call_each field a ++ call_each field b
unfolding call_each
call_each-append field [] b = refl
call_each-append field (x ∷ a) b =
    rw (call_each-append field a b)
      (sym (++-assoc (call_cb (field x) x.argument) (call_each field a) (call_each field b)))

module _ ⦃h : Hash⦄ where
  open h use {items, init, items-init}

  -- A script registers these one after the other.
  unfoldable pub register : State → List AsyncInit → State × List Effect
  unfolding async_init_ex
  register s [] = (s, [])
  register s (a ∷ rest) =
      let (s1, es) = async_init_ex s a in let (s2, fs) = register s1 rest in (s2, es ++ fs)

  append_cons : {A : Type 0} (a : List A) (x : A) (b : List A) → (a ++ x ∷ []) ++ b ≡ a ++ x ∷ b
  append_cons a x b = ++-assoc a (x ∷ []) b

  deferred : State → AsyncInit → State
  deferred s a = record s { async_inits = next_insert s.async_inits a }

  async_init_ex-deferred :
      (s : State) (a : AsyncInit) → s.loop_inited ≡ false → async_init_ex s a ≡ (deferred s a, [])
  unfolding async_init_ex deferred
  async_init_ex-deferred s a p = rw p refl

  -- Before the loop is set up, nothing is called, and the work is kept in order.
  pub register-defers :
      (s : State) (rest : List AsyncInit)
      → s.loop_inited ≡ false
      → ((register s rest).1 ≡ [])
        × (((register s rest).0).reactors ≡ s.reactors)
        × (values (items ((register s rest).0).async_inits) ≡ values (items s.async_inits) ++ rest)
  unfolding register deferred
  register-defers s [] p = (refl, refl, append_nil (values (items s.async_inits)))
  register-defers s (a ∷ rest) p =
      let ih = register-defers (deferred s a) rest p in
      rw (async_init_ex-deferred s a p) (
        ih.0,
        ih.1,
        ih.2
            ∙ ap (λ l. l ++ rest) (values-next_insert s.async_inits a)
            ∙ append_cons (values (items s.async_inits)) a rest,
      )

  -- The call that each piece of work asks for: of its function, with its argument.
  abbrev pub calls_of : List AsyncInit → List Effect
  calls_of [] = []
  calls_of (a ∷ rest) =
      let more = calls_of rest in
      elim a.init_callback [ none ↦ more | some f ↦ calls f a.argument ∷ more ]

  call_each-calls_of : (l : List AsyncInit) → call_each (λ a. a.init_callback) l ≡ calls_of l
  unfolding call_each
  call_each-calls_of [] = refl
  call_each-calls_of (a ∷ rest) = elim (Option-cases a.init_callback) [
    | inl absent ↦ rw absent (call_each-calls_of rest)
    | inr (f, given) ↦ rw given (ap (λ l. calls f a.argument ∷ l) (call_each-calls_of rest))
  ]

  init_reactor-call_each :
      (answer : UvCall → ℤ) (s : State) (rest : List AsyncInit)
      → s.loop_inited ≡ false
      → (init_reactor answer actor (register s rest).0).1
        ≡ (init_reactor answer actor s).1 ++ call_each (λ a. a.init_callback) rest
  unfolding init_reactor init_role init_actor_server reactors_count async_init_execute
  init_reactor-call_each answer s rest p =
      let d = register-defers s rest p in
      rw (d.1, d.2, call_each-append (λ a. a.init_callback) (values (items s.async_inits)) rest)
        (ap (λ l. uv loop_init ∷ l)
          (sym (
            ++-assoc
              (if ltb 0 (length (items s.reactors))
                then registers_signal
                  ∷ ((actor_calls ++ run_each (λ r. r.server_init_cb) (values (items s.reactors)))
                      ++ routine_pipe)
                else [])
              (call_each (λ a. a.init_callback) (values (items s.async_inits)))
              (call_each (λ a. a.init_callback) rest))))

  -- Work that a script registers before the loop is set up is done by the actor at the end of
  -- rp_init_reactor, after all that it does without it: each init callback is called once with its
  -- argument, in the order of registration.
  pub init_reactor-register :
      (answer : UvCall → ℤ) (s : State) (rest : List AsyncInit)
      → s.loop_inited ≡ false
      → (init_reactor answer actor (register s rest).0).1
        ≡ (init_reactor answer actor s).1 ++ calls_of rest
  init_reactor-register answer s rest p =
      init_reactor-call_each answer s rest p
      ∙ ap (λ l. (init_reactor answer actor s).1 ++ l) (call_each-calls_of rest)

  -- After rp_init_reactor, the init callback of new work is called at once.
  pub init_reactor-inits :
      (answer : UvCall → ℤ) (task : TaskType) (s : State) (a : AsyncInit) (f : ℕ)
      → a.init_callback ≡ some f
      → async_init_ex (init_reactor answer task s).0 a
        ≡ ((init_reactor answer task s).0, calls f a.argument ∷ [])
  unfolding init_reactor async_init_ex
  init_reactor-inits answer task s a f p = rw p refl
