-- ===== src/EventEmitter.antt =====
-- src/internal/event_emitter.c and include/internal/event_emitter.h: listeners by event name.
pub mod Methods
pub mod Views
pub mod Spec
pub mod Invariant
pub mod Refinement
pub mod Visible
pub mod Emission
pub mod Internal
pub mod Numeric
pub mod Removal
pub mod SelfRemoval
use respondphp.Base.{ℕ, zero, suc, ◌+◌, Option, none, some, List, [], ◌∷◌, ◌++◌, Bytes, ite}
use respondphp.Zend.{
  Zval, null, Zval-discrete, Key, str, index, Hash, add, next_insert, symtable_key,
}

-- `ht_internal_cb_t`: a C function, by its address, and the pointer that it is called with.
pub record InternalCb : Type 0 where
  pub callback : ℕ
  pub cb_data : ℕ

-- One call that an emitter makes, with the arguments of the event.
pub data Call : Type 0 where
  user : Zval → List Zval → Call
  internal : InternalCb → List Zval → Call

-- PHP's `array_search` in strict mode, over the entries of an array: the key of the first value
-- that is identical to the one that is looked for.
unfoldable pub array_search : Zval → List (Key × Zval) → Option Key
array_search z [] = none
array_search z ((k, w) ∷ l) = ite (Zval-discrete w z) (some k) (array_search z l)

module _ ⦃h : Hash⦄ where
  open h use {Table, init, items, find, update, del, next_free, reset, current, move_forward}

  -- `ht_counter_t`, with the address that `rp_calloc` gave. An entry is an `fcall_info_t`,
  -- modelled by the callable that it was initialised from.
  pub record HtCounter : Type 0 where
    pub address : ℕ
    pub ht : Table Zval

  -- `event_hook_t`. `heap` is the number of tables that were allocated so far; it stands for the
  -- allocator, and no address is given twice.
  pub record EventHook : Type 0 where
    pub hook : Table (Table Zval)
    pub hook_cache : Table HtCounter
    pub internal_hook : Table (Table InternalCb)
    pub heap : ℕ

  unfoldable pub event_hook_init : EventHook
  event_hook_init = record { hook = init; hook_cache = init; internal_hook = init; heap = 0 }

  -- The array of an event, new if there is none.
  unfoldable pub array_of : EventHook → Bytes → Table Zval
  array_of s event = elim (find s.hook (str event)) [ none ↦ init | some a ↦ a ]

  unfoldable pub counter_of : EventHook → Bytes → HtCounter
  counter_of s event = elim (find s.hook_cache (str event)) [
    | none ↦ record { address = s.heap; ht = init }
    | some c ↦ c
  ]

  unfoldable pub heap_after_on : EventHook → Bytes → ℕ
  heap_after_on s event = elim (find s.hook_cache (str event)) [
    | none ↦ s.heap + 1
    | some c ↦ s.heap
  ]

  unfoldable pub on : EventHook → Bytes → Zval → EventHook
  unfolding array_of counter_of heap_after_on symtable_key
  on s event listener =
      let array = array_of s event in
      let i = next_free array in
      let counter = counter_of s event in
      record s {
        hook = update s.hook (symtable_key event) (update array (index i) listener);
        hook_cache =
            update s.hook_cache (str event)
              (record counter { ht = add counter.ht (index i) listener });
        heap = heap_after_on s event;
      }

  -- The tail of `rp_event_emitter_off`, once the key is known; a string key is left alone.
  unfoldable pub off_at : EventHook → Bytes → Table Zval → HtCounter → Option Key → EventHook
  off_at s event array counter none = s
  off_at s event array counter (some (str k)) = s
  off_at s event array counter (some (index i)) = record s {
    hook = update s.hook (str event) (del array (index i));
    hook_cache = update s.hook_cache (str event) (record counter { ht = del counter.ht (index i) });
  }

  unfoldable pub off : EventHook → Bytes → Zval → EventHook
  unfolding off_at array_search
  off s event listener = elim (find s.hook_cache (str event)) [
    | none ↦ s
    | some counter ↦ elim (find s.hook (str event)) [
      | none ↦ s
      | some array ↦ off_at s event array counter (array_search listener (items array))
    ]
  ]

  unfoldable pub remove_listeners : EventHook → Bytes → EventHook
  remove_listeners s event = record s {
    hook = del s.hook (str event);
    hook_cache = del s.hook_cache (str event);
  }

  unfoldable pub get_listeners : EventHook → Bytes → Option (Table Zval)
  get_listeners s event = find s.hook (str event)

  unfoldable pub on_internal : EventHook → Bytes → InternalCb → EventHook
  on_internal s event cb =
      let table : Table InternalCb = elim (find s.internal_hook (str event)) [
        | none ↦ init
        | some t ↦ t
      ] in
      record s { internal_hook = update s.internal_hook (str event) (next_insert table cb) }

  -- What emitting an event comes to: the emitter and the calls made, oldest first; a step through
  -- a table that a listener had freed; or the fuel at an end.
  pub data Emitted : Type 0 where
    done : EventHook → List Call → Emitted
    fault : Emitted
    out_of_fuel : Emitted

  -- Code that the loop calls: what a listener does to the emitter that calls it.
  pub record Listeners : Type 0 where
    pub run : Zval → List Zval → EventHook → EventHook
    pub run_internal : InternalCb → List Zval → EventHook → EventHook

  unfoldable pub put_counter : EventHook → Bytes → HtCounter → EventHook
  put_counter s event c = record s { hook_cache = update s.hook_cache (str event) c }

  -- The table that the loop holds a pointer to, if it is still allocated.
  unfoldable pub held : EventHook → Bytes → ℕ → Option HtCounter
  held s event addr = elim (find s.hook_cache (str event)) [
    | none ↦ none
    | some c ↦ ite (respondphp.Base.ℕ_discrete c.address addr) (some c) none
  ]

  module _ (env : Listeners) (event : Bytes) (params : List Zval) where
    -- The `while` loop of `rp_event_emitter_emit`.
    unfoldable pub emit_loop : ℕ → ℕ → EventHook → List Call → Emitted
    unfolding held put_counter
    emit_loop zero addr s calls = out_of_fuel
    emit_loop (suc f) addr s calls = elim (held s event addr) [
      | none ↦ fault
      | some c ↦ elim (current c.ht) [
        | none ↦ done s calls
        | some fci ↦
            let s' = env.run fci params s in
            elim (held s' event addr) [
              | none ↦ fault
              | some c' ↦
                  emit_loop f addr (put_counter s' event (record c' { ht = move_forward c'.ht }))
                    (calls ++ user fci params ∷ [])
            ]
      ]
    ]

    unfoldable pub emit_from : ℕ → EventHook → List Call → Emitted
    unfolding emit_loop put_counter
    emit_from fuel s calls = elim (find s.hook_cache (str event)) [
      | none ↦ done s calls
      | some c ↦ emit_loop fuel c.address (put_counter s event (record c { ht = reset c.ht })) calls
    ]

    unfoldable pub emit : ℕ → EventHook → Emitted
    unfolding emit_from
    emit fuel s = emit_from fuel s []

    unfoldable pub put_internal : EventHook → Table InternalCb → EventHook
    put_internal s t = record s { internal_hook = update s.internal_hook (str event) t }

    -- The `while` loop of `rp_event_emitter_emit_internal`; no call removes an internal table.
    unfoldable pub internal_loop : ℕ → EventHook → List Call → Emitted
    unfolding put_internal
    internal_loop zero s calls = out_of_fuel
    internal_loop (suc f) s calls = elim (find s.internal_hook (str event)) [
      | none ↦ fault
      | some t ↦ elim (current t) [
        | none ↦ done s calls
        | some cb ↦
            let s' = env.run_internal cb params s in
            elim (find s'.internal_hook (str event)) [
              | none ↦ fault
              | some t' ↦
                  internal_loop f (put_internal s' (move_forward t'))
                    (calls ++ internal cb params ∷ [])
            ]
      ]
    ]

    unfoldable pub then_emit : ℕ → Emitted → Emitted
    unfolding emit_from
    then_emit fuel (done s calls) = emit_from fuel s calls
    then_emit fuel fault = fault
    then_emit fuel out_of_fuel = out_of_fuel

    unfoldable pub emit_internal : ℕ → EventHook → Emitted
    unfolding internal_loop put_internal then_emit emit_from
    emit_internal fuel s = elim (find s.internal_hook (str event)) [
      | none ↦ emit_from fuel s []
      | some t ↦ then_emit fuel (internal_loop fuel (put_internal s (reset t)) [])
    ]
