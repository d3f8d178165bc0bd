-- ===== src/Server/Routine/Sound.antt =====
-- src/server/routine.c: what holds of the executions and of the table at every moment.
use respondphp.Base.{
  ℕ, ◌≡◌, ◌≢◌, refl, Option, none, some, List, ◌++◌, Bool, true, false, if◌then◌else◌, arith, ite,
}
use respondphp.Zend.{Key, index, Key-discrete, Hash, add, find-update}
use respondphp.Server.Routine.Accounts.{Accounted, Apart, Accounted-append, set_cell-All}
use respondphp.Server.Routine.{Effect, Phase, deferred, Execution, RoutineServer, Stepped, set_cell}

abbrev pub is_deferred : Phase → Bool
is_deferred deferred = true
is_deferred _ = false

module _ ⦃h : Hash⦄ where
  open h use {Table, find, update, del, next_free, next_free-fresh, init}

  -- An execution that has its pipe stands in the table under its own index.
  abbrev pub Listed : Option Execution → ℕ → Table ℕ → Type 0
  Listed none p t = Unit {0}
  Listed (some c) p t = if is_deferred c.phase then Unit {0} else (find t (index c.index) ≡ some p)

  -- And the table holds nothing else.
  abbrev pub Holds : Key → Option Execution → Type 0
  Holds k none = ⊥
  Holds k (some c) = (k ≡ index c.index) × (is_deferred c.phase ≡ false)

  pub record IsSound (r : RoutineServer) (log : List Effect) : Type 0 where
    pub accounted : (p : ℕ) → Accounted (r.cells p) p r.next log
    pub listed : (p : ℕ) → Listed (r.cells p) p r.routine_executions
    pub holds : (k : Key) (p : ℕ) → find r.routine_executions k ≡ some p → Holds k (r.cells p)

  abbrev pub After : List Effect → Stepped → Type 0
  After log none = ⊥
  After log (some (r, es)) = IsSound r (log ++ es)

  pub next_free_cell :
      (r : RoutineServer) (log : List Effect) → IsSound r log → r.cells r.next ≡ none
  next_free_cell r log s = absent (r.cells r.next) (s.accounted r.next)
    where
      absent : (c : Option Execution) → Accounted c r.next r.next log → c ≡ none
      absent none a = refl
      absent (some c) a = absurd (omega (arith, a.4))

  -- One cell and the table are written.
  pub written :
      (r : RoutineServer) (log : List Effect) (p : ℕ) (c : Option Execution) (t : Table ℕ)
      (es : List Effect)
      → IsSound r log
      → Accounted c p r.next (log ++ es)
      → ((q : ℕ) → q ≢ p → Apart q es)
      → Listed c p t
      → ((q : ℕ) → q ≢ p → Listed (r.cells q) q t)
      → ((k : Key) (q : ℕ) → find t k ≡ some q → Holds k (set_cell r.cells p c q))
      → IsSound (record r { cells = set_cell r.cells p c; routine_executions = t }) (log ++ es)
  written r log p c t es s here apart tabled others held = record {
    accounted =
        set_cell-All (λ q d. Accounted d q r.next (log ++ es)) r.cells p c here
          (λ q ne. Accounted-append (r.cells q) q r.next log es (apart q ne) (s.accounted q));
    listed = set_cell-All (λ q d. Listed d q t) r.cells p c tabled others;
    holds = held;
  }

  pub find-add_next :
      (t : Table ℕ) (p : ℕ) (k : Key)
      → find (add t (index (next_free t)) p) k
        ≡ ite (Key-discrete (index (next_free t)) k) (some p) (find t k)
  unfolding add
  find-add_next t p k = rw (next_free-fresh t, add) (find-update t (index (next_free t)) k p)
