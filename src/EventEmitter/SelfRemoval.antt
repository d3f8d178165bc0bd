-- ===== src/EventEmitter/SelfRemoval.antt =====
-- src/internal/event_emitter.c: what `emit` does where a listener removes itself.
pub mod Search
use respondphp.Base.{
  ℕ, suc, ◌+◌, ◌-◌, ◌<◌, ◌≡◌, ◌≢◌, refl, sym, ap, subst, ◌∙◌, none, some, List, [], ◌∷◌, ◌++◌, map,
  Bytes, Option, arith, inl, inr, Option-cases, length, drop, get_elem?-drop_cons,
}
use respondphp.Zend.{
  Zval, Key, str, index, Hash, values, Distinct, assoc_find, assoc_del, occurs_before, del-absent,
  find-update,
}
use respondphp.EventEmitter.{
  EventHook, HtCounter, Call, user, Listeners, put_counter, held, emit_loop, emit, off, off_at,
  array_search,
}
use respondphp.EventEmitter.Views.{
  entries_internal, entries_internal-put, entries_or_nil, Entries, InSync, entries_hook,
  entries_cache, entries-off,
}
use respondphp.EventEmitter.Spec.{IsIndexed, array_search-find}
use respondphp.EventEmitter.Invariant.{listeners, WellFormed}
use respondphp.EventEmitter.Emission.{
  QuietFor, Ends, Ends-trans, emit_loop-Ends, held-put, find-held, entries_cache-put,
  suffix-move_forward, emit_loop_step, listeners-cached, calls_to,
}
use respondphp.EventEmitter.Removal.{Walked, walk_to}
use respondphp.EventEmitter.SelfRemoval.Search.{
  Without, Located, locate, hooked, without, off-without, held-without,
}

module _ ⦃h : Hash⦄ where
  open h use {
    Table, items, find, update, del, current, pos, reset, move_forward, current-items, items-reset,
    items-move_forward, items-del, items-Distinct, pos-reset, pos-move_forward, pos-del,
  }

  -- `off` leaves the C callbacks.
  entries_internal-off :
      (s : EventHook) (event d : Bytes) (z : Zval)
      → entries_internal (off s event z) d ≡ entries_internal s d
  unfolding off off_at entries_internal
  entries_internal-off s event d z = elim (Option-cases (find s.hook_cache (str event))) [
    | inl absent ↦ rw (absent, off) refl
    | inr (c, cached) ↦ elim (Option-cases (find s.hook (str event))) [
      | inl absent ↦ rw (cached, off, absent) refl
      | inr (a, at_a) ↦ rw (cached, off, at_a) (by_key c a (array_search z (items a)))
    ]
  ]
    where
      by_key :
          (c : HtCounter) (a : Table Zval) (o : Option Key)
          → entries_internal (off_at s event a c o) d ≡ entries_internal s d
      by_key c a none = refl
      by_key c a (some (str k)) = refl
      by_key c a (some (index i)) = refl

  module _ (env : Listeners) (event : Bytes) (params : List Zval) where
    -- The emitter when the walk stands at the listener.
    Walked-InSync :
        {s : EventHook} {c : HtCounter} {n : ℕ} {t : EventHook} {d : HtCounter}
        → WellFormed s
        → Walked env event params s c n t d
        → InSync t
    unfolding entries_hook
    Walked-InSync v w = record { same = λ e. rw w.hook (v.sync.same e) ∙ sym (w.entries e) }

    -- The step at the listener, and the rest of the walk.
    self_step :
        (f : ℕ) (t : EventHook) (d : HtCounter) (a : Table Zval) (i : ℕ) (calls : List Call)
        (z y : Zval) (rest : List Zval)
        → held t event d.address ≡ some d
        → env.run z params t ≡ without t event a d i
        → current d.ht ≡ some z
        → drop (pos d.ht) (values (assoc_del (index i) (items d.ht))) ≡ y ∷ rest
        → occurs_before (index i) (pos d.ht) (items d.ht) ≡ 0
        → QuietFor env rest
        → length rest < f
        → Ends
            (without t event a d i)
            ((calls ++ user z params ∷ []) ++ calls_to env event params rest)
            (emit_loop env event params (suc f) d.address t calls)
    unfolding put_counter
    self_step f t d a i calls z y rest at_d runs got left before q enough =
        rw (round, runs)
          (Ends-trans env event params {s = t1} refl
            (λ e.
              entries_cache-put t1 event e d1 (move_forward d1.ht)
                (find-held t1 event d.address (held-without t event a d i)).0
                (items-move_forward d1.ht))
            (λ e. entries_internal-put t1 event e d2)
            (emit_loop-Ends env event params f (put_counter t1 event d2) d2
              (calls ++ user z params ∷ []) rest q (held-put t1 event d2)
              (suffix-move_forward d1.ht got_next next) enough))
      where
        t1 : EventHook
        t1 = without t event a d i

        d1 : HtCounter
        d1 = record d { ht = del d.ht (index i) }

        d2 : HtCounter
        d2 = record d1 { ht = move_forward d1.ht }

        stays : pos d1.ht ≡ pos d.ht
        stays = pos-del d.ht (index i) ∙ omega (arith, before)

        next : drop (pos d1.ht) (values (items d1.ht)) ≡ y ∷ rest
        next = rw (stays, items-del d.ht (index i)) left

        got_next : current d1.ht ≡ some y
        got_next = current-items d1.ht ∙ (get_elem?-drop_cons (pos d1.ht) _ next).0

        round :
            emit_loop env event params (suc f) d.address t calls
            ≡ emit_loop env event params f d.address
                (put_counter (env.run z params t) event d2)
                (calls ++ user z params ∷ [])
        round =
            emit_loop_step env event params f t d d1 calls at_d got
              (rw runs (held-without t event a d i))

    calls_around :
        (pre rest : List Zval) (z : Zval)
        → (calls_to env event params pre ++ user z params ∷ []) ++ calls_to env event params rest
          ≡ calls_to env event params (pre ++ z ∷ rest)
    calls_around [] rest z = refl
    calls_around (p ∷ pre) rest z = ap (λ l. user p params ∷ l) (calls_around pre rest z)

    module _ (s : EventHook) (v : WellFormed s) (z : Zval) where
      -- What `off` makes of the emitter before the emission, and of the emitter of the walk.
      same_off :
          {c : HtCounter} {n : ℕ} {t : EventHook} {d : HtCounter} (a : Table Zval) (i : ℕ)
          → find s.hook_cache (str event) ≡ some c
          → Walked env event params s (record c { ht = reset c.ht }) n t d
          → find t.hook (str event) ≡ some a
          → array_search z (items a) ≡ some (index i)
          → off t event z ≡ without t event a d i
          → ((without t event a d i).hook ≡ (off s event z).hook)
            × ((e : Bytes)
                → entries_cache (without t event a d i) e ≡ entries_cache (off s event z) e)
            × ((e : Bytes)
                → entries_internal (without t event a d i) e ≡ entries_internal (off s event z) e)
      same_off {c} {t = t} a i cached w at_a searched by_off =
          let at_s : find s.hook (str event) ≡ some a = rw w.hook at at_a in
          (
            rw (off-without s event a c i z cached at_s searched)
                (ap (λ u. update u (str event) (del a (index i))) w.hook),
            λ e. rw (← by_off) (
                (entries-off t event e z (Walked-InSync v w)).1
                ∙ rw (w.entries event, w.entries e) (sym (entries-off s event e z v.sync).1)),
            λ e. rw (← by_off) (
                entries_internal-off t event e z
                ∙ w.internals e
                ∙ sym (entries_internal-off s event e z)),
          )

      -- The entries of the walk's table are those of the array of the event.
      entries_of :
          {c : HtCounter} {n : ℕ} {t : EventHook} {d : HtCounter}
          → find s.hook_cache (str event) ≡ some c
          → Walked env event params s (record c { ht = reset c.ht }) n t d
          → (entries_hook t event ≡ some (items d.ht)) × IsIndexed (items d.ht)
      unfolding entries_cache
      entries_of {c} {t = t} {d} cached w =
          let cache : entries_cache s event ≡ some (items d.ht) =
            rw (cached, w.same, items-reset c.ht) refl in
          (
            (Walked-InSync v w).same event ∙ w.entries event ∙ cache,
            subst (λ o. IsIndexed (entries_or_nil o)) (v.sync.same event ∙ cache) (v.indexed event),
          )

      -- A listener that removes itself while the event is emitted is called, and the listener after
      -- it is left out; the others are called once each, in order, and the emitter ends without the
      -- listener. The others leave the emitter alone, the listener does not stand before that place
      -- as well, another one stands after it, and the fuel exceeds the number of calls.
      pub emit-off :
          (fuel : ℕ) (pre rest : List Zval) (y : Zval)
          → listeners s event ≡ pre ++ z ∷ y ∷ rest
          → Without z pre
          → QuietFor env pre
          → QuietFor env rest
          → ((ps : List Zval) (t : EventHook) → env.run z ps t ≡ off t event z)
          → length pre + length rest + 1 < fuel
          → Ends
              (off s event z)
              (map (λ w. user w params) (pre ++ z ∷ rest))
              (emit env event params fuel s)
      emit-off fuel pre rest y known others q r removes enough =
          walk_to env event params
            (λ o. Ends (off s event z) (calls_to env event params (pre ++ z ∷ rest)) o) pre
            (y ∷ rest) z fuel (suc (fuel - length pre - 1)) s v known q (omega (arith, enough))
            at_self
        where
          at_self :
              (c : HtCounter) (t : EventHook) (d : HtCounter)
              → find s.hook_cache (str event) ≡ some c
              → Walked env event params s (record c { ht = reset c.ht }) (length pre) t d
              → drop (pos d.ht) (values (items d.ht)) ≡ z ∷ y ∷ rest
              → Ends (off s event z) (calls_to env event params (pre ++ z ∷ rest)) (
                  emit_loop env event params
                    (suc (fuel - length pre - 1))
                    c.address
                    t
                    (calls_to env event params pre))
          at_self c t d cached w left =
              let (in_hook, numbered) = entries_of cached w in
              let (a, at_a, same) = hooked t event (items d.ht) in_hook in
              let listed : values (items d.ht) ≡ pre ++ z ∷ y ∷ rest =
                ap values (w.same ∙ items-reset c.ht)
                ∙ sym (listeners-cached s event v cached)
                ∙ known in
              let (i, loc) =
                locate (items d.ht) pre (y ∷ rest) z numbered (items-Distinct d.ht) others listed in
              let place : pos d.ht ≡ length pre = omega (arith, w.moved, pos-reset c.ht) in
              let (at_d, here) = find-held t event c.address w.held_at in
              let searched : array_search z (items a) ≡ some (index i) = rw same loc.searched in
              let by_off = off-without t event a d i z at_d at_a searched in
              let kept = same_off a i cached w at_a searched by_off in
              rw (← here, ← calls_around pre rest z)
                (Ends-trans env event params {s = off s event z} kept.0 kept.1 kept.2 (
                  self_step (fuel - length pre - 1) t d a i (calls_to env event params pre) z y rest
                    (subst (λ n. held t event n ≡ some d) (sym here) w.held_at)
                    (removes params t ∙ by_off)
                    (current-items d.ht ∙ (get_elem?-drop_cons (pos d.ht) _ left).0)
                    (rw place loc.left) (rw place loc.before) r (omega (arith, enough))))
