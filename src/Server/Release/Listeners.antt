-- ===== src/Server/Release/Listeners.antt =====
-- src/internal/event_emitter.c: what rp_event_hook_destroy releases of the listeners that the
-- operations of an emitter have left.
use mathlib.Core.List.{append-nil}
use respondphp.Base.{◌≡◌, refl, ap, ◌∙◌, Option, none, some, List, [], ◌∷◌, ◌++◌, map, arith}
use respondphp.Zend.{Zval, Key, Hash, values, assoc_find, assoc_set, assoc_del}
use respondphp.EventEmitter.{EventHook, HtCounter, InternalCb}
use respondphp.Server.Release.{
  Release, frees_listener, drops_listener, frees_callback, frees_table, free_listeners,
  free_callbacks, drop_arrays, event_hook_destroy,
}

-- The listeners whose function info is freed, and those of which a reference is dropped, in order.
abbrev pub freed : List Release → List Zval
freed [] = []
freed (frees_listener z ∷ rs) = z ∷ freed rs
freed (_ ∷ rs) = freed rs

abbrev pub dropped : List Release → List Zval
dropped [] = []
dropped (drops_listener z ∷ rs) = z ∷ dropped rs
dropped (_ ∷ rs) = dropped rs

freed-append : (a b : List Release) → freed (a ++ b) ≡ freed a ++ freed b
freed-append [] b = refl
freed-append (frees_listener z ∷ a) b = ap (λ l. z ∷ l) (freed-append a b)
freed-append (_ ∷ a) b = freed-append a b

dropped-append : (a b : List Release) → dropped (a ++ b) ≡ dropped a ++ dropped b
dropped-append [] b = refl
dropped-append (drops_listener z ∷ a) b = ap (λ l. z ∷ l) (dropped-append a b)
dropped-append (_ ∷ a) b = dropped-append a b

-- What is freed and what is dropped, at once.
pub record Splits (rs : List Release) (frees drops : List Zval) : Type 0 where
  pub frees_them : freed rs ≡ frees
  pub drops_them : dropped rs ≡ drops

Splits-append :
    {a b : List Release} {f g d e : List Zval}
    → Splits a f d
    → Splits b g e
    → Splits (a ++ b) (f ++ g) (d ++ e)
Splits-append {a} {b} x y = record {
  frees_them = rw (freed-append a b, x.frees_them, y.frees_them) refl;
  drops_them = rw (dropped-append a b, x.drops_them, y.drops_them) refl;
}

then_table :
    {a : List Release} {f d : List Zval} → Splits a f d → Splits (a ++ frees_table ∷ []) f d
then_table {a} {f} {d} x = record {
  frees_them = freed-append a (frees_table ∷ []) ∙ append-nil (freed a) ∙ x.frees_them;
  drops_them = dropped-append a (frees_table ∷ []) ∙ append-nil (dropped a) ∙ x.drops_them;
}

abbrev nothing_done : Splits [] [] []
nothing_done = record { frees_them = refl; drops_them = refl }

Splits-nil : {a : List Release} {f d : List Zval} → Splits a (f ++ []) d → Splits a f d
Splits-nil {a} {f} x = record {
  frees_them = x.frees_them ∙ append-nil f;
  drops_them = x.drops_them;
}

freeing : (zs : List Zval) → Splits (map (λ z. frees_listener z) zs) zs []
freeing [] = nothing_done
freeing (z ∷ zs) = record {
  frees_them = ap (λ l. z ∷ l) (freeing zs).frees_them;
  drops_them = (freeing zs).drops_them;
}

dropping : (zs : List Zval) → Splits (map (λ z. drops_listener z) zs) [] zs
dropping [] = nothing_done
dropping (z ∷ zs) = record {
  frees_them = (dropping zs).frees_them;
  drops_them = ap (λ l. z ∷ l) (dropping zs).drops_them;
}

neither : (cbs : List InternalCb) → Splits (map (λ cb. frees_callback cb) cbs) [] []
neither [] = nothing_done
neither (cb ∷ cbs) = record {
  frees_them = (neither cbs).frees_them;
  drops_them = (neither cbs).drops_them;
}

module _ ⦃h : Hash⦄ where
  open h use {
    Table, items, items-init, items-update, items-del, find-items, next_free, next_free-fresh, find,
    init, update, del,
  }

  pub listeners_of : List HtCounter → List Zval
  listeners_of [] = []
  listeners_of (c ∷ cs) = values (items c.ht) ++ listeners_of cs

  pub listeners_in : List (Table Zval) → List Zval
  listeners_in [] = []
  listeners_in (a ∷ arrays) = values (items a) ++ listeners_in arrays

  free_listeners_lem : (cs : List HtCounter) → Splits (free_listeners cs) (listeners_of cs) []
  unfolding free_listeners listeners_of
  free_listeners_lem [] = nothing_done
  free_listeners_lem (c ∷ cs) =
      Splits-append (then_table (freeing (values (items c.ht)))) (free_listeners_lem cs)

  free_callbacks_lem : (ts : List (Table InternalCb)) → Splits (free_callbacks ts) [] []
  unfolding free_callbacks
  free_callbacks_lem [] = nothing_done
  free_callbacks_lem (t ∷ ts) =
      Splits-append (then_table (neither (values (items t)))) (free_callbacks_lem ts)

  drop_arrays_lem :
      (arrays : List (Table Zval)) → Splits (drop_arrays arrays) [] (listeners_in arrays)
  unfolding drop_arrays listeners_in
  drop_arrays_lem [] = nothing_done
  drop_arrays_lem (a ∷ arrays) =
      Splits-append (dropping (values (items a))) (drop_arrays_lem arrays)

  pub destroy-Splits :
      (s : EventHook)
      → Splits
          (event_hook_destroy s)
          (listeners_of (values (items s.hook_cache)))
          (listeners_in (values (items s.hook)))
  unfolding event_hook_destroy
  destroy-Splits s = Splits-nil (
      Splits-append (free_listeners_lem (values (items s.hook_cache))) (
        Splits-append (free_callbacks_lem (values (items s.internal_hook)))
          (drop_arrays_lem (values (items s.hook)))))

  -- The tables of the C side and the arrays, event for event, with the same entries.
  abbrev pub Rows : List (Key × HtCounter) → List (Key × Table Zval) → Type 0
  Rows [] [] = Unit {0}
  Rows [] (_ ∷ _) = ⊥
  Rows (_ ∷ _) [] = ⊥
  Rows ((k, c) ∷ cs) ((j, a) ∷ arrays) = (k ≡ j) × (items c.ht ≡ items a) × Rows cs arrays

  pub Rows-listeners :
      (cs : List (Key × HtCounter)) (arrays : List (Key × Table Zval))
      → Rows cs arrays
      → listeners_of (values cs) ≡ listeners_in (values arrays)
  unfolding listeners_of listeners_in
  Rows-listeners [] [] r = refl
  Rows-listeners [] (_ ∷ _) r = absurd r
  Rows-listeners (_ ∷ _) [] r = absurd r
  Rows-listeners ((k, c) ∷ cs) ((j, a) ∷ arrays) r = rw (r.1, Rows-listeners cs arrays r.2) refl

  pub Rows-set :
      (k : Key) (c : HtCounter) (a : Table Zval) (cs : List (Key × HtCounter))
      (arrays : List (Key × Table Zval))
      → items c.ht ≡ items a
      → Rows cs arrays
      → Rows (assoc_set k c cs) (assoc_set k a arrays)
  unfolding assoc_set
  Rows-set k c a [] [] e r = (refl, e, tt)
  Rows-set k c a [] (_ ∷ _) e r = absurd r
  Rows-set k c a (_ ∷ _) [] e r = absurd r
  Rows-set k c a ((i, d) ∷ cs) ((j, b) ∷ arrays) e r =
      ground (arith, r.0, r.1, r.2, e, Rows-set k c a cs arrays e r.2)

  pub Rows-del :
      (k : Key) (cs : List (Key × HtCounter)) (arrays : List (Key × Table Zval))
      → Rows cs arrays
      → Rows (assoc_del k cs) (assoc_del k arrays)
  unfolding assoc_del
  Rows-del k [] [] r = tt
  Rows-del k [] (_ ∷ _) r = absurd r
  Rows-del k (_ ∷ _) [] r = absurd r
  Rows-del k ((i, d) ∷ cs) ((j, b) ∷ arrays) r =
      ground (arith, r.0, r.1, r.2, Rows-del k cs arrays r.2)

  abbrev pub Found : Option HtCounter → Option (Table Zval) → Type 0
  Found none none = Unit {0}
  Found none (some _) = ⊥
  Found (some _) none = ⊥
  Found (some c) (some a) = items c.ht ≡ items a

  pub Rows-find :
      (k : Key) (cs : List (Key × HtCounter)) (arrays : List (Key × Table Zval))
      → Rows cs arrays
      → Found (assoc_find k cs) (assoc_find k arrays)
  unfolding assoc_find
  Rows-find k [] [] r = tt
  Rows-find k [] (_ ∷ _) r = absurd r
  Rows-find k (_ ∷ _) [] r = absurd r
  Rows-find k ((i, d) ∷ cs) ((j, b) ∷ arrays) r =
      ground (arith, r.0, r.1, Rows-find k cs arrays r.2)
