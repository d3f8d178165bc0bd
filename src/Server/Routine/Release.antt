-- ===== src/Server/Routine/Release.antt =====
-- src/server/routine.c: what the free handler of a routine server does with the executions.
use respondphp.Base.{
  ℕ, ◌+◌, ◌≡◌, refl, sym, subst, ◌∙◌, Option, none, some, List, [], ◌∷◌, ◌++◌, Bytes, false,
  if◌then◌else◌, ◌==◌, arith, if_pos, Bool-cases, inl, inr,
}
use mathlib.Core.List.{append_assoc, append-nil}
use respondphp.Zend.{Zval, Key, index, Hash, Distinct, assoc_find, assoc_del, del-absent, find-init}
use respondphp.Reactor.{Reactor}
use respondphp.Request.{number}
use respondphp.Server.Routine.{
  Effect, drops_promise, closes_pipe, frees_execution, drops_execution, dtor_object, Execution,
  RoutineServer, Stepped, set_cell, routine_execution_free,
}
use respondphp.Server.Routine.Accounts.{Apart, Accounted, Accounted-append, set_cell-All}
use respondphp.Server.Routine.Sound.{Listed, Holds, IsSound, is_deferred}
use respondphp.Server.Routine.Finishing.{removed-IsSound}
use respondphp.Server.Routine.Executions.{Reach, Reach-sound}

-- How often the pipe of an execution is given to uv_close.
abbrev pub shut : ℕ → List Effect → ℕ
shut p [] = 0
shut p (closes_pipe q ∷ es) = number (q == p) + shut p es
shut p (_ ∷ es) = shut p es

shut-append : (p : ℕ) (a b : List Effect) → shut p (a ++ b) ≡ shut p a + shut p b
shut-append p [] b = omega arith
shut-append p (closes_pipe q ∷ a) b = omega (arith, shut-append p a b)
shut-append p (_ ∷ a) b = shut-append p a b

-- An execution whose work still waits in the reactor is not in the table, and outlives it.
abbrev pub survivor : Option Execution → Option Execution
survivor none = none
survivor (some c) = if is_deferred c.phase then some c else none

module _ ⦃h : Hash⦄ where
  open h use {Table, items, items-del, items-init, items-Distinct, find-items, find, init, del}

  -- zend_hash_destroy: the destructor of each entry, in the order of the table
  unfoldable pub destroy_entries : List (Key × ℕ) → RoutineServer → Stepped
  unfolding routine_execution_free
  destroy_entries [] r = some (r, [])
  destroy_entries ((k, p) ∷ l) r = elim (routine_execution_free p r) [
    | none ↦ none
    | some (r1, es) ↦ elim (destroy_entries l r1) [
      | none ↦ none
      | some (r2, fs) ↦ some (r2, es ++ fs)
    ]
  ]

  -- releaseResource
  unfoldable pub release_resource : RoutineServer → Stepped
  unfolding destroy_entries
  release_resource r = elim (destroy_entries (items r.routine_executions) r) [
    | none ↦ none
    | some (r1, es) ↦
        some (record r1 { routine_executions = init }, es ++ drops_execution r.execution ∷ [])
  ]

  -- free_respond_server_routine_resource
  unfoldable pub free_resource : RoutineServer → Stepped
  unfolding release_resource
  free_resource r = elim (release_resource r) [
    | none ↦ none
    | some (r1, es) ↦ some (r1, es ++ dtor_object ∷ [])
  ]

  -- What the free handler leaves, and what it does.
  abbrev pub Disposed : RoutineServer → List Effect → Stepped → Type 0
  Disposed r log none = ⊥
  Disposed r log (some (r1, es)) =
      IsSound (record r1 { routine_executions = init }) (log ++ es)
      × ((p : ℕ) → r1.cells p ≡ survivor (r.cells p))
      × ((p : ℕ) → shut p es ≡ 0)

  -- A table without entries says that every execution waits.
  emptied-Listed :
      (t : Table ℕ) → items t ≡ [] → (d : Option Execution) (p : ℕ) → Listed d p t → Listed d p init
  unfolding assoc_find
  emptied-Listed t e none p l = tt
  emptied-Listed t e (some c) p l = elim (Bool-cases (is_deferred c.phase)) [
    | inl early ↦ rw early tt
    | inr there ↦ let gone : none ≡ some p = rw (there, find-items t (index c.index), e) at l in cc
  ]

  waiting : (d : Option Execution) (p : ℕ) → Listed d p init → d ≡ survivor d
  waiting none p l = refl
  waiting (some c) p l = elim (Bool-cases (is_deferred c.phase)) [
    | inl early ↦ rw early refl
    | inr there ↦
        let gone : none ≡ some p = rw (there, find-init {V = ℕ} (index c.index)) at l in cc
  ]

  abbrev removed : ℕ → RoutineServer → RoutineServer
  removed p r = record r { cells = set_cell r.cells p none }

  abbrev last : Execution → ℕ → List Effect
  last c p = drops_promise c.promise ∷ frees_execution p ∷ []

  removed-survivor :
      (r : RoutineServer) (p : ℕ) (c : Execution)
      → r.cells p ≡ some c
      → is_deferred c.phase ≡ false
      → (q : ℕ) → survivor ((removed p r).cells q) ≡ survivor (r.cells q)
  removed-survivor r p c at_p phase =
      set_cell-All (λ q d. survivor d ≡ survivor (r.cells q)) r.cells p none (rw (at_p, phase) refl)
        (λ q ne. refl)

  -- The first destructor, and then those of the other entries.
  joined :
      (r : RoutineServer) (log : List Effect) (p : ℕ) (c : Execution)
      → ((q : ℕ) → survivor ((removed p r).cells q) ≡ survivor (r.cells q))
      → (o : Stepped) → Disposed (removed p r) (log ++ last c p) o
      → Disposed r log (elim o [ none ↦ none | some (r2, fs) ↦ some (r2, last c p ++ fs) ])
  joined r log p c same none d = absurd d
  joined r log p c same (some (r2, fs)) d = (
    subst (λ es. IsSound (record r2 { routine_executions = init }) es)
        (append_assoc log (last c p) fs) d.0,
    λ q. d.1 q ∙ same q,
    λ q. omega (arith, shut-append q (last c p) fs, d.2 q),
  )

  -- What says nothing of the executions, after it.
  then_apart :
      (r : RoutineServer) (log es fs : List Effect) (r1 : RoutineServer)
      → ((p : ℕ) → Apart p fs)
      → ((p : ℕ) → shut p fs ≡ 0)
      → Disposed r log (some (r1, es))
      → Disposed r log (some (r1, es ++ fs))
  then_apart r log es fs r1 apart open_still d = (
    record {
      accounted = λ p.
          subst (λ m. Accounted (r1.cells p) p r1.next m) (append_assoc log es fs)
            (Accounted-append (r1.cells p) p r1.next (log ++ es) fs (apart p) (d.0.accounted p));
      listed = d.0.listed;
      holds = d.0.holds;
    },
    d.1,
    λ p. omega (arith, shut-append p es fs, d.2 p, open_still p),
  )

  released :
      (r : RoutineServer) (log : List Effect) (o : Stepped)
      → Disposed r log o
      → Disposed r log (elim o [
        | none ↦ none
        | some (r1, es) ↦
            some (record r1 { routine_executions = init }, es ++ drops_execution r.execution ∷ [])
      ])
  released r log none d = absurd d
  released r log (some (r1, es)) d =
      then_apart r log es (drops_execution r.execution ∷ []) r1 (λ p. (refl, refl, refl))
        (λ p. refl) d

  dtor :
      (r : RoutineServer) (log : List Effect) (o : Stepped)
      → Disposed r log o
      → Disposed r log (elim o [ none ↦ none | some (r1, es) ↦ some (r1, es ++ dtor_object ∷ []) ])
  dtor r log none d = absurd d
  dtor r log (some (r1, es)) d =
      then_apart r log es (dtor_object ∷ []) r1 (λ p. (refl, refl, refl)) (λ p. refl) d

  module _ (serialize : Zval → Bytes) (unserialize : Bytes → Zval) where
    destroyed :
        (l : List (Key × ℕ)) (t : Table ℕ) (r : RoutineServer) (log : List Effect)
        → items t ≡ l
        → IsSound (record r { routine_executions = t }) log
        → Disposed r log (destroy_entries l r)
    unfolding destroy_entries routine_execution_free assoc_find assoc_del
    destroyed [] t r log e s = (
      record {
        accounted = λ p. rw append-nil (s.accounted p);
        listed = λ p. emptied-Listed t e (r.cells p) p (s.listed p);
        holds = λ k p f. let gone : none ≡ some p = rw (find-init {V = ℕ} k) at f in cc;
      },
      λ p. waiting (r.cells p) p (emptied-Listed t e (r.cells p) p (s.listed p)),
      λ p. refl,
    )
    destroyed ((k, p) ∷ l) t r log e s =
        by_cell (r.cells p) refl (s.holds k p found)
          (λ es. destroyed l (del t k) (removed p r) es left)
      where
        found : find t k ≡ some p
        found = rw (find-items t k, e, if_pos _ refl) refl

        fresh : Distinct ((k, p) ∷ l)
        fresh = subst (λ m. Distinct m) e (items-Distinct t)

        left : items (del t k) ≡ l
        left = rw (items-del t k, e, if_pos _ refl) (del-absent k l fresh.0)

        by_cell :
            (d : Option Execution)
            → r.cells p ≡ d
            → Holds k d
            → ((es : List Effect)
                → IsSound (record (removed p r) { routine_executions = del t k }) es
                → Disposed (removed p r) es (destroy_entries l (removed p r)))
            → Disposed r log (destroy_entries ((k, p) ∷ l) r)
        by_cell none at_p g rest = absurd g
        by_cell (some c) at_p g rest =
            rw (at_p, Disposed, destroy_entries, routine_execution_free)
              (joined r log p c (removed-survivor r p c at_p g.1) (destroy_entries l (removed p r))
                (rest (log ++ last c p) (
                  subst
                    (λ j.
                      IsSound (record (removed p r) { routine_executions = del t j })
                        (log ++ last c p))
                    (sym g.0)
                    (removed-IsSound serialize unserialize p (record r { routine_executions = t })
                      log c s at_p g.1))))

    -- The free handler of a routine server, at any moment of its history, meets no fault: it frees
    -- each execution that stands in the table once and drops its promise once, and leaves those that
    -- still wait in the reactor. It gives no pipe to uv_close, though libuv has the pipe of each
    -- execution that it frees.
    pub free-Disposes :
        {reactor : Reactor} {r : RoutineServer} {log : List Effect}
        → Reach serialize unserialize reactor r log
        → Disposed r log (free_resource r)
    unfolding free_resource release_resource
    free-Disposes {r = r} {log} reach = dtor r log _ (
        released r log _ (
          destroyed (items r.routine_executions) r.routine_executions r log refl
            (Reach-sound serialize unserialize reach)))
