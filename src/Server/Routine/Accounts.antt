-- ===== src/Server/Routine/Accounts.antt =====
-- src/server/routine.c: what a history says of one execution, and the memory of the executions.
use respondphp.Base.{
  ℕ, ◌+◌, ◌<◌, ◌≤◌, ◌≡◌, ◌≢◌, subst, Option, none, some, List, [], ◌∷◌, ◌++◌, ◌==◌, arith, ltb,
  Bool-cases, inl, inr,
}
use respondphp.Request.{number}
use respondphp.Server.Routine.{
  Effect, drops_promise, resolves, frees_execution, Execution, set_cell, is_closing,
}

-- How often a promise is resolved and dropped, and an execution freed.
abbrev pub resolved : ℕ → List Effect → ℕ
resolved p [] = 0
resolved p (resolves q v ∷ es) = number (q == p) + resolved p es
resolved p (_ ∷ es) = resolved p es

abbrev pub dropped : ℕ → List Effect → ℕ
dropped p [] = 0
dropped p (drops_promise q ∷ es) = number (q == p) + dropped p es
dropped p (_ ∷ es) = dropped p es

abbrev pub freed : ℕ → List Effect → ℕ
freed p [] = 0
freed p (frees_execution q ∷ es) = number (q == p) + freed p es
freed p (_ ∷ es) = freed p es

pub resolved-append :
    (p : ℕ) (a b : List Effect) → resolved p (a ++ b) ≡ resolved p a + resolved p b
resolved-append p [] b = omega arith
resolved-append p (resolves q v ∷ a) b = omega (arith, resolved-append p a b)
resolved-append p (_ ∷ a) b = resolved-append p a b

pub dropped-append : (p : ℕ) (a b : List Effect) → dropped p (a ++ b) ≡ dropped p a + dropped p b
dropped-append p [] b = omega arith
dropped-append p (drops_promise q ∷ a) b = omega (arith, dropped-append p a b)
dropped-append p (_ ∷ a) b = dropped-append p a b

pub freed-append : (p : ℕ) (a b : List Effect) → freed p (a ++ b) ≡ freed p a + freed p b
freed-append p [] b = omega arith
freed-append p (frees_execution q ∷ a) b = omega (arith, freed-append p a b)
freed-append p (_ ∷ a) b = freed-append p a b

-- What the log says of the execution at `p`: one that is there is neither freed nor its promise
-- dropped, and the promise is resolved only if the pipe is given to uv_close, and once at most; one
-- that is gone was freed once and its promise dropped once.
abbrev pub Accounted : Option Execution → (p next : ℕ) → List Effect → Type 0
Accounted none p next log =
    (resolved p log ≤ number (ltb p next))
    × (freed p log ≡ number (ltb p next))
    × (dropped p log ≡ number (ltb p next))
Accounted (some c) p next log =
    (resolved p log ≤ number (is_closing c.phase))
    × (freed p log ≡ 0)
    × (dropped p log ≡ 0)
    × (c.promise ≡ p)
    × (p < next)

-- Effects that say nothing of the execution at `p`.
abbrev pub Apart : ℕ → List Effect → Type 0
Apart p es = (resolved p es ≡ 0) × (freed p es ≡ 0) × (dropped p es ≡ 0)

pub Accounted-append :
    (c : Option Execution) (p next : ℕ) (log es : List Effect)
    → Apart p es
    → Accounted c p next log
    → Accounted c p next (log ++ es)
Accounted-append none p next log es apart a =
    omega
      (arith, a, apart, resolved-append p log es, freed-append p log es, dropped-append p log es)
Accounted-append (some c) p next log es apart a = (
  omega (arith, a.0, apart.0, resolved-append p log es),
  omega (arith, a.1, apart.1, freed-append p log es),
  omega (arith, a.2, apart.2, dropped-append p log es),
  a.3,
  a.4,
)

pub set_cell_self :
    (cells : ℕ → Option Execution) (p : ℕ) (c : Option Execution) → set_cell cells p c p ≡ c
set_cell_self cells p c = ground arith

-- To show a property of every cell after one was written.
pub set_cell-All :
    (P : ℕ → Option Execution → Type 0) (cells : ℕ → Option Execution) (p : ℕ)
    (c : Option Execution)
    → P p c
    → ((q : ℕ) → q ≢ p → P q (cells q))
    → (q : ℕ) → P q (set_cell cells p c q)
set_cell-All P cells p c here there q = elim (Bool-cases (p == q)) [
  | inl same ↦ let e : p ≡ q = ground arith in rw same (subst (λ n. P n c) e here)
  | inr other ↦ rw other (there q (ground arith))
]
