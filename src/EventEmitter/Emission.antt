-- ===== src/EventEmitter/Emission.antt =====
-- What `rp_event_emitter_emit` calls, for listeners that leave their emitter alone.
use respondphp.Base.{
  ℕ, zero, suc, ◌<◌, ◌≡◌, refl, ◌∙◌, none, some, List, [], ◌∷◌, ◌++◌, map, Bytes, arith, inl, inr,
  Option-cases, length, drop, get_elem?-drop_nil, get_elem?-drop_cons,
}
use native.Mathlib.Numerals.{add-one}
use mathlib.Core.List.{append_assoc, append-nil}
use respondphp.Zend.{Zval, str, Hash, values, find-update}
use respondphp.EventEmitter.{
  EventHook, HtCounter, Call, user, Emitted, done, Listeners, put_counter, held, emit_loop,
  emit_from, emit,
}
use respondphp.EventEmitter.Views.{entries_cache, entries_internal, entries_internal-put}
use respondphp.EventEmitter.Invariant.{listeners, WellFormed}

module _ ⦃h : Hash⦄ where
  open h use {
    Table, items, find, update, current, pos, reset, move_forward, current-items, items-reset,
    items-move_forward, pos-reset, pos-move_forward,
  }

  -- None of these listeners changes the emitter that calls it.
  abbrev pub QuietFor : Listeners → List Zval → Type 0
  QuietFor env [] = Unit {0}
  QuietFor env (z ∷ l) = ((ps : List Zval) (s : EventHook) → env.run z ps s ≡ s) × QuietFor env l

  -- The emission ended with these calls, and none of the three tables lost or gained an entry.
  pub data Ends (s : EventHook) (calls : List Call) : Emitted → Type 0 where
    ends :
        (s' : EventHook)
        → s'.hook ≡ s.hook
        → ((d : Bytes) → entries_cache s' d ≡ entries_cache s d)
        → ((d : Bytes) → entries_internal s' d ≡ entries_internal s d)
        → Ends s calls (done s' calls)

  pub held-put :
      (s : EventHook) (e : Bytes) (c : HtCounter) → held (put_counter s e c) e c.address ≡ some c
  unfolding held put_counter
  held-put s e c = ground (arith, find-update s.hook_cache (str e) (str e) c)

  pub find-held :
      (s : EventHook) (e : Bytes) (n : ℕ) {c : HtCounter}
      → held s e n ≡ some c
      → (find s.hook_cache (str e) ≡ some c) × (c.address ≡ n)
  unfolding held
  find-held s e n q = ground arith

  pub entries_cache-put :
      (s : EventHook) (e d : Bytes) (c : HtCounter) (t : Table Zval)
      → find s.hook_cache (str e) ≡ some c
      → items t ≡ items c.ht
      → entries_cache (put_counter s e (record c { ht = t })) d ≡ entries_cache s d
  unfolding put_counter entries_cache
  entries_cache-put s e d c t q same =
      ground (arith, find-update s.hook_cache (str e) (str d) (record c { ht = t }))

  -- The pointer has moved past the first of the remaining entries.
  pub suffix-move_forward :
      (t : Table Zval) {z : Zval} {rest : List Zval}
      → current t ≡ some z
      → drop (pos t) (values (items t)) ≡ z ∷ rest
      → drop (pos (move_forward t)) (values (items (move_forward t))) ≡ rest
  suffix-move_forward t got suffix =
      rw (items-move_forward t, pos-move_forward t got, add-one)
        (get_elem?-drop_cons (pos t) (values (items t)) suffix).1

  -- One round of the loop, whatever the listener does.
  pub emit_loop_step :
      (env : Listeners) (event : Bytes) (params : List Zval) (f : ℕ) (s : EventHook)
      (c c' : HtCounter) (calls : List Call) {z : Zval}
      → held s event c.address ≡ some c
      → current c.ht ≡ some z
      → held (env.run z params s) event c.address ≡ some c'
      → emit_loop env event params (suc f) c.address s calls
        ≡ emit_loop env event params f c.address
            (put_counter (env.run z params s) event (record c' { ht = move_forward c'.ht }))
            (calls ++ user z params ∷ [])
  unfolding emit_loop
  emit_loop_step env event params f s c c' calls before got after =
      rw (before, emit_loop) (rw (got, emit_loop) (rw (after, emit_loop) refl))

  module _ (s : EventHook) (event : Bytes) (v : WellFormed s) where
    pub listeners-absent : find s.hook_cache (str event) ≡ none → listeners s event ≡ []
    unfolding listeners entries_cache
    listeners-absent absent = ground (arith, v.sync.same event)

    pub listeners-cached :
        {c : HtCounter}
        → find s.hook_cache (str event) ≡ some c
        → listeners s event ≡ values (items c.ht)
    unfolding listeners entries_cache
    listeners-cached cached = ground (arith, v.sync.same event)

  module _ (env : Listeners) (event : Bytes) (params : List Zval) where
    abbrev pub calls_to : List Zval → List Call
    calls_to = map (λ z. user z params)

    pub Ends-trans :
        {s t : EventHook} {calls : List Call} {r : Emitted}
        → t.hook ≡ s.hook
        → ((d : Bytes) → entries_cache t d ≡ entries_cache s d)
        → ((d : Bytes) → entries_internal t d ≡ entries_internal s d)
        → Ends t calls r
        → Ends s calls r
    Ends-trans p k l (ends s' a b c) = ends s' (a ∙ p) (λ d. b d ∙ k d) (λ d. c d ∙ l d)

    pub emit_loop-Ends :
        (f : ℕ) (s : EventHook) (c : HtCounter) (calls : List Call) (rest : List Zval)
        → QuietFor env rest
        → held s event c.address ≡ some c
        → drop (pos c.ht) (values (items c.ht)) ≡ rest
        → length rest < f
        → Ends s (calls ++ calls_to rest) (emit_loop env event params f c.address s calls)
    unfolding emit_loop
    emit_loop-Ends zero s c calls rest q held_c suffix enough = elim enough [ ]
    emit_loop-Ends (suc f) s c calls [] q held_c suffix enough =
        let stop : current c.ht ≡ none =
          current-items c.ht ∙ get_elem?-drop_nil (pos c.ht) _ suffix in
        rw (held_c, emit_loop) (rw (stop, append-nil calls) (ends s refl (λ d. refl) (λ d. refl)))
    emit_loop-Ends (suc f) s c calls (z ∷ rest) q held_c suffix enough =
        let got : current c.ht ≡ some z =
          current-items c.ht ∙ (get_elem?-drop_cons (pos c.ht) _ suffix).0 in
        let c' = record c { ht = move_forward c.ht } in
        let ih =
          emit_loop-Ends f (put_counter s event c') c' (calls ++ user z params ∷ []) rest q.1
            (held-put s event c') (suffix-move_forward c.ht got suffix) (omega arith) in
        let step =
          emit_loop_step env event params f s c c calls held_c got (rw (q.0 params s) held_c) in
        rw (step, q.0 params s)
          (Ends-trans {s = s} refl
            (λ d.
              entries_cache-put s event d c (move_forward c.ht)
                (find-held s event c.address held_c).0 (items-move_forward c.ht))
            (λ d. entries_internal-put s event d c')
            (rw (append_assoc calls (user z params ∷ []) (calls_to rest)) at ih))

    -- The whole of `rp_event_emitter_emit`, after calls that were made before.
    pub emit_from-Ends :
        (fuel : ℕ) (s : EventHook) (calls : List Call)
        → WellFormed s
        → QuietFor env (listeners s event)
        → length (listeners s event) < fuel
        → Ends s (calls ++ calls_to (listeners s event)) (emit_from env event params fuel s calls)
    unfolding emit_from
    emit_from-Ends fuel s calls v q enough = elim (Option-cases (find s.hook_cache (str event))) [
      | inl absent ↦
          rw (listeners-absent s event v absent, absent, emit_from)
            (rw (append-nil calls) (ends s refl (λ d. refl) (λ d. refl)))
      | inr (c, cached) ↦
          let c' = record c { ht = reset c.ht } in
          let start : drop (pos (reset c.ht)) (values (items (reset c.ht))) ≡ values (items c.ht) =
            rw (pos-reset c.ht, items-reset c.ht) in
          let known = listeners-cached s event v cached in
          rw (known, cached, emit_from)
            (Ends-trans {s = s} refl
              (λ d. entries_cache-put s event d c (reset c.ht) cached (items-reset c.ht))
              (λ d. entries_internal-put s event d c')
              (emit_loop-Ends fuel (put_counter s event c') c' calls (values (items c.ht))
                (rw known at q) (held-put s event c') start (rw known at enough)))
    ]

    -- Listeners that leave their emitter alone are called once each, oldest first, with the
    -- event's arguments; the emission ends, given more fuel than there are listeners, and the
    -- emitter has the entries that it had.
    pub emit-Ends :
        (fuel : ℕ) (s : EventHook)
        → WellFormed s
        → QuietFor env (listeners s event)
        → length (listeners s event) < fuel
        → Ends s (map (λ z. user z params) (listeners s event)) (emit env event params fuel s)
    unfolding emit
    emit-Ends fuel s v q enough = emit_from-Ends fuel s [] v q enough
