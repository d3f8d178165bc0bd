-- ===== src/EventEmitter/Removal.antt =====
-- src/internal/event_emitter.c: what `emit` does where a listener removes listeners.
use respondphp.Base.{
  ℕ, zero, suc, ◌+◌, ◌-◌, ◌<◌, ◌≡◌, refl, sym, subst, ◌∙◌, none, some, List, [], ◌∷◌, ◌++◌, Bytes,
  arith, inl, inr, Option-cases, length, drop, get_elem?-drop_cons,
}
use mathlib.Core.List.{append_assoc, append-nil}
use respondphp.Zend.{Zval, str, Hash, values, find-hash_del}
use respondphp.EventEmitter.{
  EventHook, HtCounter, Call, user, Emitted, fault, Listeners, put_counter, held, emit_loop,
  emit_from, emit, remove_listeners,
}
use respondphp.EventEmitter.Views.{entries_cache, entries_internal, entries_internal-put}
use respondphp.EventEmitter.Invariant.{listeners, WellFormed}
use respondphp.EventEmitter.Emission.{
  QuietFor, held-put, find-held, entries_cache-put, suffix-move_forward, emit_loop_step,
  listeners-absent, listeners-cached, calls_to,
}

module _ ⦃h : Hash⦄ where
  open h use {
    Table, items, find, del, current, pos, reset, move_forward, current-items, items-reset,
    items-move_forward, pos-reset, pos-move_forward,
  }

  module _ (env : Listeners) (event : Bytes) (params : List Zval) where
    -- The emitter after a part of the walk, and its table then.
    pub record Walked (s : EventHook) (c : HtCounter) (n : ℕ) (t : EventHook) (d : HtCounter)
        : Type 0 where
      pub held_at : held t event c.address ≡ some d
      pub hook : t.hook ≡ s.hook
      pub same : items d.ht ≡ items c.ht
      pub entries : (e : Bytes) → entries_cache t e ≡ entries_cache s e
      pub internals : (e : Bytes) → entries_internal t e ≡ entries_internal s e
      pub moved : pos d.ht ≡ pos c.ht + n

    -- The walk over listeners that leave the emitter alone.
    pub walk :
        (P : Emitted → Type 0) (pre rest : List Zval) (fuel f : ℕ) (s : EventHook) (c : HtCounter)
        (calls : List Call)
        → QuietFor env pre
        → held s event c.address ≡ some c
        → drop (pos c.ht) (values (items c.ht)) ≡ pre ++ rest
        → fuel ≡ length pre + f
        → ((t : EventHook) (d : HtCounter)
            → Walked s c (length pre) t d
            → drop (pos d.ht) (values (items d.ht)) ≡ rest
            → P (emit_loop env event params f c.address t (calls ++ calls_to env event params pre)))
        → P (emit_loop env event params fuel c.address s calls)
    unfolding put_counter
    walk P [] rest fuel f s c calls q at_c suffix enough k =
        let same : f ≡ fuel = omega (arith, enough) in
        subst (λ n. P (emit_loop env event params n c.address s calls)) same
          (rw (append-nil calls) at k s c
            (record {
              held_at = at_c;
              hook = refl;
              same = refl;
              entries = λ e. refl;
              internals = λ e. refl;
              moved = omega arith;
            })
            suffix)
    walk P (z ∷ pre) rest zero f s c calls q at_c suffix enough k = absurd (omega (arith, enough))
    walk P (z ∷ pre) rest (suc g) f s c calls q at_c suffix enough k =
        rw (round, q.0 params s)
          (walk P pre rest g f (put_counter s event c1) c1 (calls ++ user z params ∷ []) q.1
            (held-put s event c1) (suffix-move_forward c.ht got suffix) (omega (arith, enough))
            (λ t d w left.
              rw (append_assoc calls (user z params ∷ []) (calls_to env event params pre))
                (k t d (further t d w) left)))
      where
        got : current c.ht ≡ some z
        got = current-items c.ht ∙ (get_elem?-drop_cons (pos c.ht) _ suffix).0

        c1 : HtCounter
        c1 = record c { ht = move_forward c.ht }

        round :
            emit_loop env event params (suc g) c.address s calls
            ≡ emit_loop env event params g c.address
                (put_counter (env.run z params s) event c1)
                (calls ++ user z params ∷ [])
        round = emit_loop_step env event params g s c c calls at_c got (rw (q.0 params s) at_c)

        further :
            (t : EventHook) (d : HtCounter)
            → Walked (put_counter s event c1) c1 (length pre) t d
            → Walked s c (length (z ∷ pre)) t d
        further t d w = record {
          held_at = w.held_at;
          hook = w.hook;
          same = w.same ∙ items-move_forward c.ht;
          entries = λ e.
              w.entries e
              ∙ entries_cache-put s event e c (move_forward c.ht)
                  (find-held s event c.address at_c).0 (items-move_forward c.ht);
          internals = λ e. w.internals e ∙ entries_internal-put s event e c1;
          moved = omega (arith, w.moved, pos-move_forward c.ht got);
        }

    not_nil : (pre rest : List Zval) (z : Zval) → [] ≡ pre ++ z ∷ rest → ⊥
    not_nil [] rest z e = cc
    not_nil (w ∷ pre) rest z e = cc

    -- The walk of `emit`, up to a listener.
    pub walk_to :
        (P : Emitted → Type 0) (pre rest : List Zval) (z : Zval) (fuel f : ℕ) (s : EventHook)
        → WellFormed s
        → listeners s event ≡ pre ++ z ∷ rest
        → QuietFor env pre
        → fuel ≡ length pre + f
        → ((c : HtCounter) (t : EventHook) (d : HtCounter)
            → find s.hook_cache (str event) ≡ some c
            → Walked s (record c { ht = reset c.ht }) (length pre) t d
            → drop (pos d.ht) (values (items d.ht)) ≡ z ∷ rest
            → P (emit_loop env event params f c.address t (calls_to env event params pre)))
        → P (emit env event params fuel s)
    unfolding emit emit_from put_counter
    walk_to P pre rest z fuel f s v known q enough k =
        elim (Option-cases (find s.hook_cache (str event))) [
          | inl absent ↦
              absurd (not_nil pre rest z (sym (listeners-absent s event v absent) ∙ known))
          | inr (c, cached) ↦
              let c1 = record c { ht = reset c.ht } in
              let suffix : drop (pos (reset c.ht)) (values (items (reset c.ht))) ≡ pre ++ z ∷ rest =
                rw (pos-reset c.ht, items-reset c.ht)
                  (sym (listeners-cached s event v cached) ∙ known) in
              rw (emit, emit_from, cached)
                (walk P pre (z ∷ rest) fuel f (put_counter s event c1) c1 [] q (held-put s event c1)
                  suffix enough
                  (λ t d w left.
                    k c t d cached
                      (record {
                        held_at = w.held_at;
                        hook = w.hook;
                        same = w.same;
                        entries = λ e.
                            w.entries e
                            ∙ entries_cache-put s event e c (reset c.ht) cached (items-reset c.ht);
                        internals = λ e. w.internals e ∙ entries_internal-put s event e c1;
                        moved = w.moved;
                      })
                      left))
        ]

    removed-held : (t : EventHook) (n : ℕ) → held (remove_listeners t event) event n ≡ none
    unfolding held remove_listeners
    removed-held t n = ground (arith, find-hash_del t.hook_cache (str event) (str event))

    -- A listener that removes all listeners of the event, while the event is emitted, makes the walk
    -- go on in a table that is freed. The listeners before it leave the emitter alone, and the fuel
    -- exceeds their number.
    pub emit-removed :
        (fuel : ℕ) (s : EventHook) (pre rest : List Zval) (z : Zval)
        → WellFormed s
        → listeners s event ≡ pre ++ z ∷ rest
        → QuietFor env pre
        → ((ps : List Zval) (t : EventHook) → env.run z ps t ≡ remove_listeners t event)
        → length pre < fuel
        → emit env event params fuel s ≡ fault
    unfolding emit_loop
    emit-removed fuel s pre rest z v known q removes enough =
        walk_to (λ r. r ≡ fault) pre rest z fuel (suc (fuel - length pre - 1)) s v known q
          (omega (arith, enough))
          (λ c t d cached w left.
            let got : current d.ht ≡ some z =
              current-items d.ht ∙ (get_elem?-drop_cons (pos d.ht) _ left).0 in
            rw (w.held_at, emit_loop)
              (rw (got, emit_loop)
                (rw (removes params t, removed-held t c.address, emit_loop) refl)))
