-- ===== src/EventEmitter/Internal.antt =====
-- What `rp_event_emitter_emit_internal` calls: the C callbacks first, then the listeners.
use respondphp.Base.{
  ℕ, zero, suc, ◌<◌, ◌≡◌, refl, ◌∙◌, none, some, List, [], ◌∷◌, ◌++◌, map, Bytes, arith, inl, inr,
  Option-cases, length, drop, get_elem?-drop_nil, get_elem?-drop_cons,
}
use native.Mathlib.Numerals.{add-one}
use mathlib.Core.List.{append_assoc, append-nil}
use respondphp.Zend.{Zval, str, Hash, values, find-update}
use respondphp.EventEmitter.{
  EventHook, InternalCb, Call, user, internal, Emitted, done, Listeners, put_internal,
  internal_loop, then_emit, emit_internal,
}
use respondphp.EventEmitter.Views.{entries_hook, entries_cache, entries_internal}
use respondphp.EventEmitter.Invariant.{listeners, WellFormed}
use respondphp.EventEmitter.Emission.{QuietFor, Ends, emit_from-Ends, Ends-trans}

module _ ⦃h : Hash⦄ where
  open h use {
    Table, items, find, update, current, pos, reset, move_forward, current-items, items-reset,
    items-move_forward, pos-reset, pos-move_forward,
  }

  -- The C callbacks of an event, oldest first.
  unfoldable pub callbacks : EventHook → Bytes → List InternalCb
  callbacks s event = elim (find s.internal_hook (str event)) [
    | none ↦ []
    | some t ↦ values (items t)
  ]

  -- None of these callbacks changes the emitter that calls it.
  abbrev pub QuietInternal : Listeners → List InternalCb → Type 0
  QuietInternal env [] = Unit {0}
  QuietInternal env (cb ∷ l) =
      ((ps : List Zval) (s : EventHook) → env.run_internal cb ps s ≡ s) × QuietInternal env l

  -- Only the table of callbacks may be another one, with the same entries.
  pub data Loops (s : EventHook) (calls : List Call) : Emitted → Type 0 where
    loops :
        (i : Table (Table InternalCb))
        → ((d : Bytes) → entries_internal (record s { internal_hook = i }) d ≡ entries_internal s d)
        → Loops s calls (done (record s { internal_hook = i }) calls)

  suffix :
      (t : Table InternalCb) {z : InternalCb} {rest : List InternalCb}
      → current t ≡ some z
      → drop (pos t) (values (items t)) ≡ z ∷ rest
      → drop (pos (move_forward t)) (values (items (move_forward t))) ≡ rest
  suffix t got e =
      rw (items-move_forward t, pos-move_forward t got, add-one)
        (get_elem?-drop_cons (pos t) (values (items t)) e).1

  module _ (env : Listeners) (event : Bytes) (params : List Zval) where
    find-put_internal :
        (s : EventHook) (t : Table InternalCb)
        → find ((put_internal env event params s t).internal_hook) (str event) ≡ some t
    unfolding put_internal
    find-put_internal s t = ground (arith, find-update s.internal_hook (str event) (str event) t)

    callback_calls : List InternalCb → List Call
    callback_calls = map (λ cb. internal cb params)

    entries_internal-put_table :
        (s : EventHook) (t u : Table InternalCb) (d : Bytes)
        → find s.internal_hook (str event) ≡ some t
        → items u ≡ items t
        → entries_internal (put_internal env event params s u) d ≡ entries_internal s d
    unfolding put_internal entries_internal
    entries_internal-put_table s t u d found same =
        ground (arith, find-update s.internal_hook (str event) (str d) u)

    Loops-put :
        (s : EventHook) (t u : Table InternalCb) {calls : List Call} {r : Emitted}
        → find s.internal_hook (str event) ≡ some t
        → items u ≡ items t
        → Loops (put_internal env event params s u) calls r
        → Loops s calls r
    unfolding put_internal
    Loops-put s t u found same (loops i kept) =
        loops i (λ d. kept d ∙ entries_internal-put_table s t u d found same)

    internal_loop-Loops :
        (f : ℕ) (s : EventHook) (t : Table InternalCb) (calls : List Call) (rest : List InternalCb)
        → QuietInternal env rest
        → find s.internal_hook (str event) ≡ some t
        → drop (pos t) (values (items t)) ≡ rest
        → length rest < f
        → Loops s (calls ++ callback_calls rest) (internal_loop env event params f s calls)
    unfolding internal_loop callback_calls
    internal_loop-Loops zero s t calls rest q found e enough = elim enough [ ]
    internal_loop-Loops (suc f) s t calls [] q found e enough =
        let stop : current t ≡ none = current-items t ∙ get_elem?-drop_nil (pos t) _ e in
        rw (found, internal_loop) (rw (stop, append-nil calls) (loops s.internal_hook (λ d. refl)))
    internal_loop-Loops (suc f) s t calls (z ∷ rest) q found e enough =
        let got : current t ≡ some z = current-items t ∙ (get_elem?-drop_cons (pos t) _ e).0 in
        let s1 = put_internal env event params s (move_forward t) in
        let ih =
          internal_loop-Loops f s1 (move_forward t) (calls ++ internal z params ∷ []) rest q.1
            (find-put_internal s (move_forward t)) (suffix t got e) (omega arith) in
        rw (found, internal_loop)
          (rw (got, internal_loop)
            (rw (q.0 params s) (
              rw (found, internal_loop)
                (rw (q.0 params s) (
                  Loops-put s t (move_forward t) found (items-move_forward t) (
                    rw (append_assoc calls (internal z params ∷ []) (callback_calls rest)) at
                      ih))))))

    -- The listeners see an emitter that differs in the callbacks' table alone.
    then_emit-Ends :
        (fuel : ℕ) (s : EventHook) (calls : List Call) (r : Emitted)
        → WellFormed s
        → QuietFor env (listeners s event)
        → length (listeners s event) < fuel
        → Loops s calls r
        → Ends s
            (calls ++ map (λ z. user z params) (listeners s event))
            (then_emit env event params fuel r)
    unfolding then_emit listeners entries_hook entries_cache
    then_emit-Ends fuel s calls r v q enough (loops i kept) =
        Ends-trans env event params {s = s} refl (λ d. refl) kept
          (emit_from-Ends env event params fuel (record s { internal_hook = i }) calls
            (record { sync = record { same = v.sync.same }; indexed = v.indexed }) q enough)

    callbacks-found :
        (s : EventHook) (t : Table InternalCb)
        → find s.internal_hook (str event) ≡ some t
        → callbacks s event ≡ values (items t)
    unfolding callbacks
    callbacks-found s t found = rw (found, callbacks) refl

    callbacks-absent :
        (s : EventHook) → find s.internal_hook (str event) ≡ none → callbacks s event ≡ []
    unfolding callbacks
    callbacks-absent s absent = rw (absent, callbacks) refl

    -- C callbacks and listeners that leave their emitter alone are called once each with the event's
    -- arguments, first the callbacks, then the listeners, each oldest first; the emission ends, given
    -- more fuel than there are of either, and the emitter has the entries that it had,
    -- of callbacks and of listeners.
    pub emit_internal-Ends :
        (fuel : ℕ) (s : EventHook)
        → WellFormed s
        → QuietInternal env (callbacks s event)
        → QuietFor env (listeners s event)
        → length (callbacks s event) < fuel
        → length (listeners s event) < fuel
        → Ends s
            (map (λ cb. internal cb params) (callbacks s event)
              ++ map (λ z. user z params) (listeners s event))
            (emit_internal env event params fuel s)
    unfolding emit_internal callback_calls
    emit_internal-Ends fuel s v qi q enough_i enough =
        elim (Option-cases (find s.internal_hook (str event))) [
          | inl absent ↦
              rw (callbacks-absent s absent, absent, emit_internal)
                (emit_from-Ends env event params fuel s [] v q enough)
          | inr (t, found) ↦
              let known = callbacks-found s t found in
              let start : drop (pos (reset t)) (values (items (reset t))) ≡ values (items t) =
                rw (pos-reset t, items-reset t) in
              rw (known, found, emit_internal)
                (then_emit-Ends fuel s _ _ v q enough (
                  Loops-put s t (reset t) found (items-reset t) (
                    internal_loop-Loops fuel (put_internal env event params s (reset t)) (reset t)
                      [] (values (items t)) (rw known at qi) (find-put_internal s (reset t)) start
                      (rw known at enough_i))))
        ]
