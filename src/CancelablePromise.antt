-- ===== src/CancelablePromise.antt =====
-- src/async/cancelable_promise.c: a promise that hands its calls on to a promise of PHP code, and
-- can be cancelled by the code that made it. Objects are handles.
use respondphp.Base.{ℕ, Option, none, some, List, [], ◌∷◌, Bytes, codes}
use respondphp.Zend.{Zval}

-- `rp_async_cancelable_promise_t`: `cancel` is the C function, by its address, and its data.
pub record CancelablePromise : Type 0 where
  pub self : ℕ
  pub promise : ℕ
  pub cancel : Option (ℕ × ℕ)

pub data Effect : Type 0 where
  -- rp_make_promise_object, zend_update_property, ZVAL_PTR_DTOR of the inner promise
  makes_promise sets_property drops_promise : ℕ → Effect
  -- call_user_function on the inner promise
  calls_method : (promise : ℕ) → Bytes → List Zval → Effect
  -- `cancel.cb(cancel.data)`
  calls_cancel : ℕ → ℕ → Effect

-- create_respond_async_cancelable_promise_resource: the property holds the inner promise.
unfoldable pub create_resource : (self promise : ℕ) → CancelablePromise × List Effect
create_resource self promise = (
  record { self = self; promise = promise; cancel = none },
  makes_promise promise ∷ sets_property promise ∷ drops_promise promise ∷ [],
)

unfoldable pub forward_call : CancelablePromise → Bytes → List Zval → List Effect
forward_call p fn args = calls_method p.promise fn args ∷ []

-- PHP_METHODs then, catch, finally, which return the promise itself, and resolve, reject
unfoldable pub then_method : List Zval → CancelablePromise → Zval × List Effect
unfolding forward_call
then_method args p = (Zval.handle p.self, forward_call p (codes "then") args)

unfoldable pub catch_method : List Zval → CancelablePromise → Zval × List Effect
unfolding forward_call
catch_method args p = (Zval.handle p.self, forward_call p (codes "catch") args)

unfoldable pub finally_method : List Zval → CancelablePromise → Zval × List Effect
unfolding forward_call
finally_method args p = (Zval.handle p.self, forward_call p (codes "finally") args)

unfoldable pub resolve_method : List Zval → CancelablePromise → Zval × List Effect
unfolding forward_call
resolve_method args p = (Zval.null, forward_call p (codes "resolve") args)

unfoldable pub reject_method : List Zval → CancelablePromise → Zval × List Effect
unfolding forward_call
reject_method args p = (Zval.null, forward_call p (codes "reject") args)

-- PHP_METHOD cancel
unfoldable pub cancel_method : CancelablePromise → List Effect
cancel_method p = elim p.cancel [ none ↦ [] | some (cb, arg) ↦ calls_cancel cb arg ∷ [] ]
