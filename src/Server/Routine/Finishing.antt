-- ===== src/Server/Routine/Finishing.antt =====
-- src/server/routine.c: the answer of a routine, and the end of an execution.
use respondphp.Base.{
  ℕ, ◌≤◌, ◌≡◌, ◌≢◌, ◌⊎◌, refl, sym, subst, ◌∙◌, Option, none, some, List, [], ◌∷◌, ◌++◌, Bytes,
  true, false, if◌then◌else◌, arith, ltb, Bool-cases, inl, inr, ite, if_neg, if_pos,
}
use respondphp.Zend.{Zval, Key, index, Key-discrete, ℤ, Hash, find-hash_del}
use respondphp.Reactor.Messages.{is_positive}
use respondphp.Request.{number}
use respondphp.Server.Routine.Accounts.{
  resolved, resolved-append, dropped-append, freed-append, Accounted, Apart, set_cell-All,
}
use respondphp.Server.Routine.{
  Effect, drops_promise, resolves, closes_pipe, frees_buffer, frees_execution, reading, closing,
  Execution, RoutineServer, set_cell, is_closing, routine_result_read_cb, routine_execution_free,
  index_del, routine_result_close_cb,
}
use respondphp.Server.Routine.Sound.{Listed, Holds, IsSound, After, written, is_deferred}
use respondphp.Server.Routine.Events.{reads, closed, handle}

module _ ⦃h : Hash⦄ where
  open h use {Table, find, update, del, next_free, next_free-fresh, init}

  module _ (serialize : Zval → Bytes) (unserialize : Bytes → Zval) where
    pub reads-IsSound :
        (p : ℕ) (status : ℤ) (bytes : Bytes) (r : RoutineServer) (log : List Effect) (c : Execution)
        → IsSound r log
        → r.cells p ≡ some c
        → c.phase ≡ reading
        → After log (handle serialize unserialize (reads p status bytes) r)
    unfolding handle routine_result_read_cb
    reads-IsSound p status bytes r log c s at_p phase =
        rw (at_p, After, handle, routine_result_read_cb, phase)
          (written r log p (some now) r.routine_executions _ s
            (settles (Bool-cases (is_positive status)))
            (λ q ne. apart q ne (Bool-cases (is_positive status))) tabled (λ q ne. s.listed q)
            (λ k q e.
              set_cell-All (λ n d. n ≡ q → Holds k d) r.cells p (some now)
                (λ pq. (
                  (subst (λ d. Holds k d) at_p
                      (subst (λ n. Holds k (r.cells n)) (sym pq) (s.holds k q e))).0,
                  refl,
                ))
                (λ n ne nq. subst (λ m. Holds k (r.cells m)) (sym nq) (s.holds k q e)) q refl))
      where
        now : Execution
        now = record c { phase = closing }

        fx : List Effect
        fx =
            (if is_positive status then resolves c.promise (unserialize bytes) ∷ [] else [])
            ++ frees_buffer ∷ closes_pipe p ∷ []

        here : Accounted (some c) p r.next log
        here = subst (λ d. Accounted d p r.next log) at_p (s.accounted p)

        tabled : find r.routine_executions (index c.index) ≡ some p
        tabled = rw phase at (subst (λ d. Listed d p r.routine_executions) at_p (s.listed p))

        none_yet : resolved p log ≤ 0
        none_yet = rw phase at (here.0)

        settles :
            (is_positive status ≡ true) ⊎ (is_positive status ≡ false)
            → Accounted (some now) p r.next (log ++ fx)
        settles (inl good) = rw good (
          ground (
            arith,
            none_yet,
            here.3,
            resolved-append p log
                (resolves c.promise (unserialize bytes) ∷ frees_buffer ∷ closes_pipe p ∷ []),
          ),
          freed-append p log
                (resolves c.promise (unserialize bytes) ∷ frees_buffer ∷ closes_pipe p ∷ [])
              ∙ omega (arith, here.1),
          dropped-append p log
                (resolves c.promise (unserialize bytes) ∷ frees_buffer ∷ closes_pipe p ∷ [])
              ∙ omega (arith, here.2),
          here.3,
          here.4,
        )
        settles (inr bad) = rw bad (
          ground (arith, none_yet, resolved-append p log (frees_buffer ∷ closes_pipe p ∷ [])),
          freed-append p log (frees_buffer ∷ closes_pipe p ∷ []) ∙ omega (arith, here.1),
          dropped-append p log (frees_buffer ∷ closes_pipe p ∷ []) ∙ omega (arith, here.2),
          here.3,
          here.4,
        )

        apart :
            (q : ℕ)
            → q ≢ p
            → (is_positive status ≡ true) ⊎ (is_positive status ≡ false)
            → Apart q fx
        apart q ne (inl good) = rw good (ground (arith, here.3), refl, refl)
        apart q ne (inr bad) = rw bad (refl, refl, refl)

    -- The destructor of an execution that stands in the table, and its entry deleted.
    pub removed-IsSound :
        (p : ℕ) (r : RoutineServer) (log : List Effect) (c : Execution)
        → IsSound r log
        → r.cells p ≡ some c
        → is_deferred c.phase ≡ false
        → IsSound
            (record r {
              cells = set_cell r.cells p none;
              routine_executions = del r.routine_executions (index c.index);
            })
            (log ++ drops_promise c.promise ∷ frees_execution p ∷ [])
    removed-IsSound p r log c s at_p phase =
        written r log p none t fx s
          (
            omega (arith, here.0, in_order, resolved-append p log fx),
            ground (arith, here.1, here.4, freed-append p log fx),
            ground (arith, here.2, here.3, here.4, dropped-append p log fx),
          )
          (λ q ne. (refl, ground arith, ground (arith, here.3))) tt
          (λ q ne. stays (r.cells q) q ne (s.listed q))
          (λ k q e. held k q (rw (find-hash_del r.routine_executions (index c.index) k) at e))
      where
        t : Table ℕ
        t = del r.routine_executions (index c.index)

        fx : List Effect
        fx = drops_promise c.promise ∷ frees_execution p ∷ []

        here : Accounted (some c) p r.next log
        here = subst (λ d. Accounted d p r.next log) at_p (s.accounted p)

        in_order : number (is_closing c.phase) ≤ number (ltb p r.next)
        in_order = ground (arith, here.4)

        tabled : find r.routine_executions (index c.index) ≡ some p
        tabled = rw phase at (subst (λ d. Listed d p r.routine_executions) at_p (s.listed p))

        stays :
            (d : Option Execution) (q : ℕ) → q ≢ p → Listed d q r.routine_executions → Listed d q t
        stays none q ne l = tt
        stays (some d) q ne l =
            ground
              (arith, tabled, find-hash_del r.routine_executions (index c.index) (index d.index))

        held :
            (k : Key) (q : ℕ)
            → ite (Key-discrete (index c.index) k) none (find r.routine_executions k) ≡ some q
            → Holds k (set_cell r.cells p none q)
        held k q e = elim (Key-discrete (index c.index) k) [
          | yes same ↦ let gone : none ≡ some q = rw (if_pos _ same) at e in cc
          | no other ↦
              let was : find r.routine_executions k ≡ some q = rw (if_neg _ other) at e in
              set_cell-All (λ n d. n ≡ q → Holds k d) r.cells p none
                (λ pq.
                  absurd (
                    other
                      (sym (own (subst (λ n. Holds k (r.cells n)) (sym pq) (s.holds k q was))))))
                (λ n ne nq. subst (λ m. Holds k (r.cells m)) (sym nq) (s.holds k q was)) q refl
        ]
          where
            own : Holds k (r.cells p) → k ≡ index c.index
            own g = (subst (λ d. Holds k d) at_p g).0

    pub closed-IsSound :
        (p : ℕ) (r : RoutineServer) (log : List Effect) (c : Execution)
        → IsSound r log
        → r.cells p ≡ some c
        → c.phase ≡ closing
        → After log (handle serialize unserialize (closed p) r)
    unfolding handle routine_result_close_cb index_del routine_execution_free
    closed-IsSound p r log c s at_p phase =
        rw (at_p, After, handle, routine_result_close_cb, index_del, tabled)
          (rw (at_p, routine_execution_free) (removed-IsSound p r log c s at_p (rw phase refl)))
      where
        tabled : find r.routine_executions (index c.index) ≡ some p
        tabled = rw phase at (subst (λ d. Listed d p r.routine_executions) at_p (s.listed p))
