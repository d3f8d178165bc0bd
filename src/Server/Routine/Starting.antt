-- ===== src/Server/Routine/Starting.antt =====
-- src/server/routine.c: execute and the deferred work.
use respondphp.Base.{
  ℕ, ◌+◌, ◌≤◌, ◌≡◌, ◌≢◌, refl, sym, subst, ap, ◌∙◌, Option, none, some, List, [], ◌∷◌, ◌++◌, Bytes,
  arith, ite, if_neg, if_pos,
}
use respondphp.Zend.{Zval, Key, index, Key-discrete, Hash, add}
use respondphp.Server.Routine.Accounts.{
  resolved, resolved-append, freed-append, dropped-append, Accounted, Accounted-append,
  set_cell_self, set_cell-All,
}
use respondphp.Server.Routine.{
  Effect, makes_promise, returns_promise, drops_args, drops_promise, frees_execution,
  routine_async_cb_worker_free, deferred, reading, Execution, RoutineServer, set_cell, execute,
  routine_execution_add, routine_async_cb,
}
use respondphp.Server.Routine.Sound.{
  Listed, Holds, IsSound, After, next_free_cell, written, find-add_next,
}
use respondphp.Server.Routine.Events.{executes, runs_deferred, frees_deferred, handle}

module _ ⦃h : Hash⦄ where
  open h use {Table, find, update, del, next_free, next_free-fresh, init}

  module _ (serialize : Zval → Bytes) (unserialize : Bytes → Zval) where
    pub executes-IsSound :
        (args : Option Zval) (r : RoutineServer) (log : List Effect)
        → IsSound r log
        → After log (handle serialize unserialize (executes args) r)
    unfolding handle execute
    executes-IsSound args r log s = record {
      accounted =
          set_cell-All (λ q c. Accounted c q (r.next + 1) (log ++ made)) r.cells r.next (some fresh)
            (Accounted-append (some fresh) r.next (r.next + 1) log made (refl, refl, refl)
              (ground (arith, a0)))
            (λ q ne.
              Accounted-append (r.cells q) q (r.next + 1) log made (refl, refl, refl)
                (older (r.cells q) q ne (s.accounted q)));
      listed =
          set_cell-All (λ q c. Listed c q r.routine_executions) r.cells r.next (some fresh) tt
            (λ q ne. s.listed q);
      holds = λ k q e.
          set_cell-All (λ p c. p ≡ q → Holds k c) r.cells r.next (some fresh)
            (λ same.
              absurd (
                rw (next_free_cell r log s) at
                  (s.holds k r.next (e ∙ ap (λ n. some n) (sym same)))))
            (λ p ne same. subst (λ n. Holds k (r.cells n)) (sym same) (s.holds k q e)) q refl;
    }
      where
        fresh : Execution
        fresh = record {
          index = 0;
          promise = r.next;
          args = elim args [ none ↦ none | some v ↦ some (serialize v) ];
          phase = deferred;
        }

        made : List Effect
        made = makes_promise r.next ∷ returns_promise r.next ∷ []

        a0 : Accounted none r.next r.next log
        a0 =
            subst (λ c. Accounted c r.next r.next log) (next_free_cell r log s) (s.accounted r.next)

        older :
            (c : Option Execution) (q : ℕ)
            → q ≢ r.next
            → Accounted c q r.next log
            → Accounted c q (r.next + 1) log
        older none q ne a = ground arith
        older (some c) q ne a = (a.0, a.1, a.2, a.3, omega (arith, a.4))

    pub runs_deferred-IsSound :
        (other routine_pipe p : ℕ) (r : RoutineServer) (log : List Effect) (c : Execution)
        → IsSound r log
        → r.cells p ≡ some c
        → c.phase ≡ deferred
        → After log (handle serialize unserialize (runs_deferred other routine_pipe p) r)
    unfolding handle routine_async_cb routine_execution_add
    runs_deferred-IsSound other routine_pipe p r log c s at_p phase =
        rw (at_p, After, handle, routine_async_cb)
          (written r log p (some now) t _ s
            (Accounted-append (some now) p r.next log _ (refl, refl, refl)
              (rw phase at (here.0), here.1, here.2, here.3, here.4))
            (λ q ne. (refl, refl, refl))
            (ground (arith, find-add_next r.routine_executions p (index i)))
            (λ q ne. stays (r.cells q) q (s.listed q))
            (λ k q e. held k q (rw (find-add_next r.routine_executions p k) at e)))
      where
        i : ℕ
        i = next_free r.routine_executions

        t : Table ℕ
        t = add r.routine_executions (index i) p

        now : Execution
        now = record c { index = i; phase = reading }

        here : Accounted (some c) p r.next log
        here = subst (λ d. Accounted d p r.next log) at_p (s.accounted p)

        stays : (d : Option Execution) (q : ℕ) → Listed d q r.routine_executions → Listed d q t
        stays none q l = tt
        stays (some d) q l = ground (
          arith,
          find-add_next r.routine_executions p (index d.index),
          next_free-fresh r.routine_executions,
        )

        held :
            (k : Key) (q : ℕ)
            → ite (Key-discrete (index i) k) (some p) (find r.routine_executions k) ≡ some q
            → Holds k (set_cell r.cells p (some now) q)
        held k q e = elim (Key-discrete (index i) k) [
          | yes same ↦
              let pq : p ≡ q = first_some (rw (if_pos _ same) at e) in
              subst (λ n. Holds k (set_cell r.cells p (some now) n)) pq
                (rw (set_cell_self r.cells p (some now)) (sym same, refl))
          | no other ↦
              let was : find r.routine_executions k ≡ some q = rw (if_neg _ other) at e in
              set_cell-All (λ n d. n ≡ q → Holds k d) r.cells p (some now)
                (λ pq.
                  absurd (unlisted (subst (λ n. Holds k (r.cells n)) (sym pq) (s.holds k q was))))
                (λ n ne nq. subst (λ m. Holds k (r.cells m)) (sym nq) (s.holds k q was)) q refl
        ]
          where
            first_some : some p ≡ some q → p ≡ q
            first_some g = cc

            unlisted : Holds k (r.cells p) → ⊥
            unlisted g = let f = (subst (λ d. Holds k d) at_p g).1 in cc

    pub frees_deferred-IsSound :
        (p : ℕ) (r : RoutineServer) (log : List Effect) (c : Execution)
        → IsSound r log
        → r.cells p ≡ some c
        → c.phase ≡ deferred
        → After log (handle serialize unserialize (frees_deferred p) r)
    unfolding handle routine_async_cb_worker_free
    frees_deferred-IsSound p r log c s at_p phase =
        rw (at_p, After, handle, routine_async_cb_worker_free)
          (written r log p none r.routine_executions fx s
            (
              omega (arith, none_yet, resolved-append p log fx),
              ground (arith, here.1, here.4, freed-append p log fx),
              ground (arith, here.2, here.3, here.4, dropped-append p log fx),
            )
            (λ q ne. (refl, ground arith, ground (arith, here.3))) tt (λ q ne. s.listed q)
            (λ k q e.
              set_cell-All (λ n d. n ≡ q → Holds k d) r.cells p none
                (λ pq. unlisted k (subst (λ n. Holds k (r.cells n)) (sym pq) (s.holds k q e)))
                (λ n ne nq. subst (λ m. Holds k (r.cells m)) (sym nq) (s.holds k q e)) q refl))
      where
        fx : List Effect
        fx = drops_args c.args ∷ drops_promise c.promise ∷ frees_execution p ∷ []

        here : Accounted (some c) p r.next log
        here = subst (λ d. Accounted d p r.next log) at_p (s.accounted p)

        none_yet : resolved p log ≤ 0
        none_yet = rw phase at (here.0)

        unlisted : (k : Key) → Holds k (r.cells p) → ⊥
        unlisted k g = let f = (subst (λ d. Holds k d) at_p g).1 in cc
