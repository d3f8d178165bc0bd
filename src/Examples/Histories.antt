-- ===== src/Examples/Histories.antt =====
-- Two histories of an emitter that look alike, at concrete inputs.
use respondphp.Base.{◌≡◌, refl, List, [], ◌∷◌, Bytes, codes, arith}
use respondphp.Zend.{handle, IsName, symtable_key, canonical, digits_value}
use respondphp.Zend.Ordered.{ordered}
use respondphp.EventEmitter.{event_hook_init}
use respondphp.EventEmitter.Spec.{Op, ons, removes}
use respondphp.EventEmitter.Invariant.{init-WellFormed}
use respondphp.EventEmitter.Visible.{of_event, after, visible, after-of_event}

abbrev a_first : List Op
a_first = ons (codes "a") (handle 1) ∷ ons (codes "b") (handle 2) ∷ removes (codes "a") ∷ []

abbrev b_first : List Op
b_first = ons (codes "b") (handle 2) ∷ ons (codes "a") (handle 1) ∷ removes (codes "a") ∷ []

a_first-of_event : (d : Bytes) → of_event d a_first ≡ of_event d b_first
unfolding of_event
a_first-of_event d = ground arith

a-IsName : IsName (codes "a")
unfolding symtable_key canonical digits_value
a-IsName = refl

b-IsName : IsName (codes "b")
unfolding symtable_key canonical digits_value
b-IsName = refl

after-of_event_example :
    after a_first (a-IsName, (b-IsName, (tt, tt))) (visible event_hook_init init-WellFormed)
    ≡ after b_first (b-IsName, (a-IsName, (tt, tt))) (visible event_hook_init init-WellFormed)
after-of_event_example =
    after-of_event a_first b_first (a-IsName, (b-IsName, (tt, tt))) (b-IsName, (a-IsName, (tt, tt)))
      a_first-of_event (visible event_hook_init init-WellFormed)
