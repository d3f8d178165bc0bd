-- ===== src/Server/Routine/Reply.antt =====
-- src/server/routine.c in a routine: the answer to a client, which is the other end of an
-- execution's socket pair.
use respondphp.Base.{List, [], ◌∷◌, ◌++◌, Bytes, Bool, if◌then◌else◌, ◌==◌, length}
use respondphp.Zend.{Zval}

-- What a routine does for a client that it accepted.
pub data Reply : Type 0 where
  -- zend_fcall_info_init of the PHP function
  inits_function : Reply
  calls : Zval → Reply
  -- uv_write and uv_shutdown of the client
  writes : Bytes → Reply
  shuts_down : Reply
  drops_values : Reply
  -- rp_free of the requests, uv_close of the client, rp_free of it
  frees_write_req frees_shutdown_req : Reply
  closes_client frees_client : Reply

module _ (serialize : Zval → Bytes) (unserialize : Bytes → Zval) (function : Zval → Zval) where
  -- The parameter that accepted_cb passes on
  unfoldable pub parameter : Bytes → Zval
  parameter ipc_data = if length ipc_data == 0 then Zval.null else unserialize ipc_data

  -- accepted_cb
  unfoldable pub accepted_cb : (initialized : Bool) → Bytes → List Reply
  unfolding parameter
  accepted_cb initialized ipc_data =
      (if initialized then [] else inits_function ∷ [])
      ++ calls (parameter ipc_data)
        ∷ writes (serialize (function (parameter ipc_data)))
        ∷ shuts_down
        ∷ drops_values
        ∷ []

-- routine_result_write_cb, routine_result_shutdown_cb and close_cb
unfoldable pub routine_result_write_cb : List Reply
routine_result_write_cb = frees_write_req ∷ []

unfoldable pub routine_result_shutdown_cb : List Reply
routine_result_shutdown_cb = frees_shutdown_req ∷ closes_client ∷ []

unfoldable pub close_cb : List Reply
close_cb = frees_client ∷ []
