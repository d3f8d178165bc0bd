-- ===== src/Extension/Requests.antt =====
-- A request of src/respondphp.c, from PHP_RINIT to PHP_RSHUTDOWN, over src/reactor.c: what the script
-- registers in between is a list of events.
use respondphp.Base.{
  ℕ, ◌+◌, ◌≡◌, refl, ap, sym, ◌∙◌, Option, some, List, [], ◌∷◌, ◌++◌, map, Bool, true, false,
  if◌then◌else◌, ◌||◌, arith, Bool-cases, inl, inr,
}
use mathlib.Core.List.{append_assoc, append-nil}
use respondphp.Zend.{ℤ, Hash, values, values-next_insert, next_insert}
use respondphp.Manager.{TaskType}
use respondphp.Reactor.{
  Reactor, reactor_free, reactor_init, AsyncInit, UvCall, Effect, runs, drops, frees_init, State,
  reactors_init, reactors_add_new, async_init_ex, init_reactor, reactors_destroy, destroy_each,
  reactors_destroy_entry,
}

module _ ⦃h : Hash⦄ where
  open h use {items, init, items-init}

  -- The state of reactor.c, and the global `rp_promise_ce`
  pub record Process : Type 0 where
    pub state : State
    pub promise_ce : Option ℕ

  -- PHP_RINIT_FUNCTION: `promise` is what zend_fetch_class gives once the PHP code of the module is
  -- evaluated. rp_reactors_init makes both tables anew; `main_loop` and the memory stay as they are.
  unfoldable pub rinit : (promise : Option ℕ) → Process → Process
  unfolding reactors_init
  rinit promise p = record {
    state = record reactors_init { loop_inited = p.state.loop_inited; heap = p.state.heap };
    promise_ce = promise;
  }

  -- PHP_RSHUTDOWN_FUNCTION
  unfoldable pub rshutdown : Process → List Effect
  unfolding reactors_destroy
  rshutdown p = reactors_destroy p.state

  -- What a script does to the state: a constructor adds a reactor, a method registers work, and
  -- `run` sets the loop up.
  pub data Event : Type 0 where
    adds : (server : ℕ) (fill : Reactor → Reactor) → Event
    defers : AsyncInit → Event
    sets_up : (UvCall → ℤ) → TaskType → Event

  unfoldable pub step : Event → State → State × List Effect
  unfolding reactors_add_new async_init_ex init_reactor
  step (adds server fill) s = (reactors_add_new s server fill, [])
  step (defers a) s = async_init_ex s a
  step (sets_up answer task) s = init_reactor answer task s

  unfoldable pub run_script : List Event → State → State × List Effect
  unfolding step
  run_script [] s = (s, [])
  run_script (e ∷ es) s =
      let (s1, fx) = step e s in let (s2, gx) = run_script es s1 in (s2, fx ++ gx)

  -- The constructors write neither the server nor the function that frees a reactor.
  abbrev pub Keeps : Event → Type 0
  Keeps (adds server fill) =
      (r : Reactor)
      → ((fill r).server ≡ r.server)
        × ((fill r).reactor_free_cb ≡ r.reactor_free_cb)
        × ((fill r).address ≡ r.address)
  Keeps _ = Unit {0}

  abbrev pub AllKeep : List Event → Type 0
  AllKeep [] = Unit {0}
  AllKeep (e ∷ es) = Keeps e × AllKeep es

  -- What the end of the request owes: each server that was given a reactor is dropped and the reactor
  -- freed, in the order of their construction.
  abbrev pub owed : (heap : ℕ) → List Event → List Effect
  owed heap [] = []
  owed heap (adds server fill ∷ es) = drops server ∷ runs reactor_free heap ∷ owed (heap + 1) es
  owed heap (_ ∷ es) = owed heap es

  -- The work that was registered while the loop was not set up.
  abbrev pub waiting : (loop_inited : Bool) → List Event → List AsyncInit
  waiting inited [] = []
  waiting inited (adds server fill ∷ es) = waiting inited es
  waiting inited (defers a ∷ es) = let rest = waiting inited es in if inited then rest else a ∷ rest
  waiting inited (sets_up answer task ∷ es) = waiting true es

  destroy_each-append :
      (a b : List Reactor) → destroy_each (a ++ b) ≡ destroy_each a ++ destroy_each b
  unfolding destroy_each
  destroy_each-append [] b = refl
  destroy_each-append (r ∷ a) b =
      rw (destroy_each-append a b)
        (sym (append_assoc (reactors_destroy_entry r) (destroy_each a) (destroy_each b)))

  -- The reactor of a constructor, at the end of the table.
  made : State → ℕ → (Reactor → Reactor) → Reactor
  made s server fill =
      fill
        (record (reactor_init s.heap) { reactor_free_cb = some reactor_free; server = some server })

  destroy-made :
      (s : State) (server : ℕ) (fill : Reactor → Reactor)
      → Keeps (adds server fill)
      → reactors_destroy_entry (made s server fill) ≡ drops server ∷ runs reactor_free s.heap ∷ []
  unfolding reactors_destroy_entry made reactor_init
  destroy-made s server fill k =
      let r : Reactor = record (reactor_init s.heap) {
        reactor_free_cb = some reactor_free;
        server = some server;
      } in
      rw (reactors_destroy_entry, (k r).0, (k r).1, (k r).2) refl

  run_script-releases :
      (es : List Event) (s : State)
      → AllKeep es
      → (destroy_each (values (items (run_script es s).0.reactors))
          ≡ destroy_each (values (items s.reactors)) ++ owed s.heap es)
        × (values (items (run_script es s).0.async_inits)
            ≡ values (items s.async_inits) ++ waiting s.loop_inited es)
  unfolding run_script step reactors_add_new async_init_ex init_reactor destroy_each made
  run_script-releases [] s k = (sym (append-nil _), sym (append-nil _))
  run_script-releases (adds server fill ∷ es) s k =
      let ih = run_script-releases es (reactors_add_new s server fill) k.1 in
      let one : destroy_each (made s server fill ∷ [])
          ≡ drops server ∷ runs reactor_free s.heap ∷ [] =
        append-nil _ ∙ destroy-made s server fill k.0 in
      (
        ih.0
            ∙ ap (λ l. destroy_each l ++ owed (s.heap + 1) es)
                (values-next_insert s.reactors (made s server fill))
            ∙ ap (λ l. l ++ owed (s.heap + 1) es)
                (destroy_each-append (values (items s.reactors)) (made s server fill ∷ [])
                  ∙ ap (λ l. destroy_each (values (items s.reactors)) ++ l) one)
            ∙ append_assoc (destroy_each (values (items s.reactors)))
                (drops server ∷ runs reactor_free s.heap ∷ []) (owed (s.heap + 1) es),
        ih.1,
      )
  run_script-releases (defers a ∷ es) s k = elim (Bool-cases s.loop_inited) [
    | inl set_up ↦ rw (set_up, async_init_ex) (rw set_up at (run_script-releases es s k.1))
    | inr not_yet ↦
        let ih =
          run_script-releases es
            (record s { async_inits = next_insert s.async_inits a; loop_inited = false }) k.1 in
        rw (not_yet, async_init_ex)
          (
            ih.0,
            ih.1
                ∙ ap (λ l. l ++ waiting false es) (values-next_insert s.async_inits a)
                ∙ append_assoc (values (items s.async_inits)) (a ∷ []) (waiting false es),
          )
  ]
  run_script-releases (sets_up answer task ∷ es) s k =
      run_script-releases es (record s { loop_inited = true }) k.1

  abbrev pub sets_loop_up : List Event → Bool
  sets_loop_up [] = false
  sets_loop_up (sets_up answer task ∷ es) = true
  sets_loop_up (_ ∷ es) = sets_loop_up es

  stays_set_up :
      (es : List Event) (s : State)
      → (run_script es s).0.loop_inited ≡ (s.loop_inited || sets_loop_up es)
  unfolding run_script step reactors_add_new async_init_ex init_reactor
  stays_set_up [] s = ground arith
  stays_set_up (adds server fill ∷ es) s = stays_set_up es (reactors_add_new s server fill)
  stays_set_up (defers a ∷ es) s = elim (Bool-cases s.loop_inited) [
    | inl set_up ↦ rw (set_up, async_init_ex) (rw set_up at (stays_set_up es s))
    | inr not_yet ↦
        rw (not_yet, async_init_ex)
          (stays_set_up es
            (record s { async_inits = next_insert s.async_inits a; loop_inited = false }))
  ]
  stays_set_up (sets_up answer task ∷ es) s =
      stays_set_up es (record s { loop_inited = true }) ∙ ground arith

  -- One request, with all that it does
  unfoldable pub request : (promise : Option ℕ) → List Event → Process → Process × List Effect
  unfolding rinit rshutdown run_script
  request promise es p =
      let q = rinit promise p in
      let (s, fx) = run_script es q.state in
      let last = record q { state = s } in (last, fx ++ rshutdown last)

  -- At its end a request drops each server that was given a reactor once, and frees the reactor, in
  -- the order of their construction, and then frees the work that was registered while the loop was
  -- not set up, each once; nothing of an earlier request is left. A loop that is set up counts as set
  -- up in every later request. The constructors leave the server and the free function of their
  -- reactor alone.
  pub request-releases :
      (promise : Option ℕ) (es : List Event) (p : Process)
      → AllKeep es
      → ((request promise es p).1
          ≡ (run_script es (rinit promise p).state).1
            ++ (owed p.state.heap es ++ map (λ a. frees_init a) (waiting p.state.loop_inited es)))
        × ((request promise es p).0.state.loop_inited ≡ (p.state.loop_inited || sets_loop_up es))
  unfolding request rshutdown reactors_destroy rinit reactors_init destroy_each
  request-releases promise es p k =
      let q = (rinit promise p).state in
      let done = run_script-releases es q k in
      let no_reactors : values (items (init {V = Reactor})) ≡ [] = ap values items-init in
      let no_inits : values (items (init {V = AsyncInit})) ≡ [] = ap values items-init in
      (
        ap (λ l. (run_script es q).1 ++ l)
            (ap (λ l. l ++ map (λ a. frees_init a) (values (items (run_script es q).0.async_inits)))
                (done.0 ∙ ap (λ l. destroy_each l ++ owed p.state.heap es) no_reactors)
              ∙ ap (λ l. owed p.state.heap es ++ map (λ a. frees_init a) l)
                  (done.1 ∙ ap (λ l. l ++ waiting p.state.loop_inited es) no_inits)),
        stays_set_up es q,
      )
