-- ===== src/Timer/Settling.antt =====
-- How often the promise of a timer is settled, and the timer freed.
use respondphp.Base.{
  ℕ, suc, ◌+◌, ◌≡◌, refl, ap, ◌∙◌, List, [], ◌∷◌, ◌++◌, Bool, true, false, arith, Bool-cases, inl,
  inr, ◌⊎◌,
}
use respondphp.Zend.{ℤ, pos, negsuc}
use respondphp.Timer.{
  Timer, Effect, resolves, rejects, frees, Ran, alive, faulted, timer_cb, timer_cancel_cb,
  timer_async_cb, timeout, cancel, Event, deferred_work, fires, cancels, handle, and_then, run,
}

abbrev pub settled : List Effect → ℕ
settled [] = 0
settled (resolves v ∷ es) = suc (settled es)
settled (rejects v ∷ es) = suc (settled es)
settled (_ ∷ es) = settled es

abbrev pub freed_times : List Effect → ℕ
freed_times [] = 0
freed_times (frees ∷ es) = suc (freed_times es)
freed_times (_ ∷ es) = freed_times es

abbrev number : Bool → ℕ
number true = 1
number false = 0

-- From a timer in state `before`, as often as the timer came to be freed.
abbrev Settles : Bool → Ran → Type 0
Settles before faulted = Unit {0}
Settles before (alive t es) =
    (settled es + number before ≡ number t.freed)
    × (freed_times es + number before ≡ number t.freed)

settled-append : (a b : List Effect) → settled (a ++ b) ≡ settled a + settled b
settled-append [] b = omega arith
settled-append (resolves v ∷ a) b = omega (arith, settled-append a b)
settled-append (rejects v ∷ a) b = omega (arith, settled-append a b)
settled-append (_ ∷ a) b = settled-append a b

freed_times-append : (a b : List Effect) → freed_times (a ++ b) ≡ freed_times a + freed_times b
freed_times-append [] b = omega arith
freed_times-append (frees ∷ a) b = omega (arith, freed_times-append a b)
freed_times-append (_ ∷ a) b = freed_times-append a b

handle-Settles : (e : Event) (t : Timer) → Settles t.freed (handle e t)
unfolding handle timer_cb timer_cancel_cb timer_async_cb cancel
handle-Settles e t = on_state e t.milliseconds t.freed
  where
    on_state :
        (e : Event) (m : ℤ) (b : Bool)
        → Settles b (handle e (record { milliseconds = m; freed = b }))
    on_state (deferred_work err) m true = tt
    on_state (deferred_work (pos n)) m false = (omega arith, omega arith)
    on_state (deferred_work (negsuc n)) m false = (omega arith, omega arith)
    on_state fires m true = tt
    on_state fires m false = (omega arith, omega arith)
    on_state cancels m true = tt
    on_state cancels m false = (omega arith, omega arith)

and_then-Settles :
    (b : Bool) (r : Ran) (k : Timer → Ran)
    → Settles b r
    → ((t : Timer) → Settles t.freed (k t))
    → Settles b (and_then r k)
and_then-Settles b faulted k h next = tt
and_then-Settles b (alive t es) k h next = joined (k t) (next t)
  where
    joined :
        (r : Ran)
        → Settles t.freed r
        → Settles b (elim r [ faulted ↦ faulted | alive t1 fs ↦ alive t1 (es ++ fs) ])
    joined faulted g = tt
    joined (alive t1 fs) g = (
      omega (arith, h.0, g.0, settled-append es fs),
      omega (arith, h.1, g.1, freed_times-append es fs),
    )

run-Settles : (t : Timer) (es : List Event) → Settles t.freed (run t es)
unfolding run
run-Settles t [] = (omega arith, omega arith)
run-Settles t (e ∷ es) =
    and_then-Settles t.freed (handle e t) (λ t1. run t1 es) (handle-Settles e t)
      (λ t1. run-Settles t1 es)

-- The whole life of a timer.
unfoldable pub life : ℤ → List Event → Ran
unfolding timeout run
life milliseconds es =
    and_then (alive (timeout milliseconds).0 (timeout milliseconds).1) (λ t. run t es)

timeout-Settles :
    (milliseconds : ℤ) → Settles false (alive (timeout milliseconds).0 (timeout milliseconds).1)
unfolding timeout
timeout-Settles (pos n) = (omega arith, omega arith)
timeout-Settles (negsuc n) = (omega arith, omega arith)

-- Over any history of a timer that meets no fault, its promise is settled and its memory freed as
-- often as the timer is freed at the end: once, or not at all.
life-Settles : (milliseconds : ℤ) (es : List Event) → Settles false (life milliseconds es)
unfolding life
life-Settles milliseconds es =
    and_then-Settles false (alive (timeout milliseconds).0 (timeout milliseconds).1) (λ t. run t es)
      (timeout-Settles milliseconds) (λ t. run-Settles t es)

handle-freed : (e : Event) (t : Timer) → t.freed ≡ true → handle e t ≡ faulted
unfolding handle timer_cb timer_cancel_cb timer_async_cb cancel
handle-freed (deferred_work err) t gone = rw gone refl
handle-freed fires t gone = rw gone refl
handle-freed cancels t gone = rw gone refl

-- Two runs from one timer, the second one longer, of which the second faults if the first one ends
-- with the timer freed.
Overrun : Ran → Ran → Type 0
Overrun r longer =
    (t : Timer) (fx : List Effect) → r ≡ alive t fx → t.freed ≡ true → longer ≡ faulted

alive-Overrun :
    (gs : List Effect) (r longer : Ran) (t2 : Timer)
    → Overrun r longer
    → Overrun (and_then (alive t2 gs) (λ u. r)) (and_then (alive t2 gs) (λ u. longer))
unfolding Overrun
alive-Overrun gs faulted longer t2 ih t fx p gone = cc
alive-Overrun gs (alive t3 hs) longer t2 ih t fx p gone =
    let same : t3 ≡ t = cc in rw (ih t3 hs refl (ap (λ u. u.freed) same ∙ gone)) refl

and_then-Overrun :
    (r : Ran) (k l : Timer → Ran)
    → ((t : Timer) → Overrun (k t) (l t))
    → Overrun (and_then r k) (and_then r l)
unfolding Overrun
and_then-Overrun faulted k l ih t fx p gone = refl
and_then-Overrun (alive t2 gs) k l ih t fx p gone =
    alive-Overrun gs (k t2) (l t2) t2 (ih t2) t fx p gone

run-Overrun : (e : Event) (es : List Event) (t : Timer) → Overrun (run t es) (run t (es ++ e ∷ []))
unfolding Overrun run
run-Overrun e [] t t1 fx p gone =
    let same : t ≡ t1 = cc in rw (handle-freed e t (ap (λ u. u.freed) same ∙ gone)) refl
run-Overrun e (e1 ∷ es) t t1 fx p gone =
    and_then-Overrun (handle e1 t) (λ u. run u es) (λ u. run u (es ++ e ∷ []))
      (λ u. run-Overrun e es u) t1 fx p gone

-- Whatever comes after a timer was freed, a late cancel or the deferred start of a timer that was
-- cancelled before, is a use of freed memory.
life-late :
    (milliseconds : ℤ) (es : List Event) (e : Event) (t : Timer) (fx : List Effect)
    → life milliseconds es ≡ alive t fx
    → t.freed ≡ true
    → life milliseconds (es ++ e ∷ []) ≡ faulted
unfolding life Overrun
life-late milliseconds es e t fx p gone =
    and_then-Overrun (alive (timeout milliseconds).0 (timeout milliseconds).1) (λ u. run u es)
      (λ u. run u (es ++ e ∷ [])) (λ u. run-Overrun e es u) t fx p gone

-- After any history that meets no fault, either the timer is not freed, and its promise not settled,
-- or its memory was freed once and its promise settled once; whatever comes then, a late cancel or
-- the deferred start of a timer that was cancelled before, is a use of freed memory.
pub life-settled :
    (milliseconds : ℤ) (es : List Event) (e : Event) (t : Timer) (fx : List Effect)
    → life milliseconds es ≡ alive t fx
    → ((t.freed ≡ false) × (settled fx ≡ 0) × (freed_times fx ≡ 0))
      ⊎ ((t.freed ≡ true)
          × (settled fx ≡ 1)
          × (freed_times fx ≡ 1)
          × (life milliseconds (es ++ e ∷ []) ≡ faulted))
life-settled milliseconds es e t fx p =
    let once : Settles false (alive t fx) = rw p at (life-Settles milliseconds es) in
    elim (Bool-cases t.freed) [
      | inl gone ↦
          let (promise, memory) = rw gone at once in
          inr (
            gone,
            omega (arith, promise),
            omega (arith, memory),
            life-late milliseconds es e t fx p gone,
          )
      | inr kept ↦
          let (promise, memory) = rw kept at once in
          inl (kept, omega (arith, promise), omega (arith, memory))
    ]
