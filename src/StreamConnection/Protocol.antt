-- ===== src/StreamConnection/Protocol.antt =====
-- The order in which a connection may use its stream, as an automaton over the effects of
-- src/stream/connection.c.
use respondphp.Base.{
  ℕ, suc, ◌+◌, ◌≡◌, refl, Option, none, some, List, [], ◌∷◌, ◌++◌, Bytes, Bool, true, false,
  if◌then◌else◌, arith, inl, inr, Option-cases,
}
use respondphp.StreamConnection.{
  Effect, read_start, closes, writes, shuts_down, emits, free_write_req, free_shutdown_req,
  free_stream, destroy_hook, drop_object,
}

-- Whether the stream is being closed, and whether its writing side is shut down.
pub record Flags : Type 0 where
  pub closed : Bool
  pub shut : Bool

-- uv_close and uv_shutdown once, uv_write before uv_shutdown; all else at any time.
unfoldable pub advance : Flags → Effect → Option Flags
advance p closes = if p.closed then none else some (record p { closed = true })
advance p shuts_down = if p.shut then none else some (record p { shut = true })
advance p (writes b) = if p.shut then none else some p
advance p read_start = some p
advance p (emits e a) = some p
advance p free_write_req = some p
advance p free_shutdown_req = some p
advance p free_stream = some p
advance p destroy_hook = some p
advance p drop_object = some p

abbrev pub and_scan : Option Flags → (Flags → Option Flags) → Option Flags
and_scan none k = none
and_scan (some p) k = k p

unfoldable pub scan : Flags → List Effect → Option Flags
unfolding advance
scan p [] = some p
scan p (e ∷ es) = and_scan (advance p e) (λ q. scan q es)

pub scan-append :
    (p : Flags) (es fs : List Effect) → scan p (es ++ fs) ≡ and_scan (scan p es) (λ q. scan q fs)
unfolding scan
scan-append p [] fs = refl
scan-append p (e ∷ es) fs = elim (Option-cases (advance p e)) [
  | inl q ↦ rw q
  | inr (r, q) ↦ rw q (scan-append r es fs)
]

abbrev pub count_closes : List Effect → ℕ
count_closes [] = 0
count_closes (closes ∷ es) = suc (count_closes es)
count_closes (_ ∷ es) = count_closes es

abbrev pub number : Bool → ℕ
number true = 1
number false = 0

pub scan-count_closes :
    (p q : Flags) (es : List Effect)
    → scan p es ≡ some q
    → count_closes es + number p.closed ≡ number q.closed
unfolding scan
scan-count_closes p q [] e = ground arith
scan-count_closes p q (closes ∷ es) e =
    ground (arith, scan-count_closes (record p { closed = true }) q es)
scan-count_closes p q (shuts_down ∷ es) e =
    ground (arith, scan-count_closes (record p { shut = true }) q es)
scan-count_closes p q (writes b ∷ es) e = ground (arith, scan-count_closes p q es)
scan-count_closes p q (_ ∷ es) e = scan-count_closes p q es e

abbrev pub count_shuts : List Effect → ℕ
count_shuts [] = 0
count_shuts (shuts_down ∷ es) = suc (count_shuts es)
count_shuts (_ ∷ es) = count_shuts es

pub scan-count_shuts :
    (p q : Flags) (es : List Effect)
    → scan p es ≡ some q
    → count_shuts es + number p.shut ≡ number q.shut
unfolding scan
scan-count_shuts p q [] e = ground arith
scan-count_shuts p q (closes ∷ es) e =
    ground (arith, scan-count_shuts (record p { closed = true }) q es)
scan-count_shuts p q (shuts_down ∷ es) e =
    ground (arith, scan-count_shuts (record p { shut = true }) q es)
scan-count_shuts p q (writes b ∷ es) e = ground (arith, scan-count_shuts p q es)
scan-count_shuts p q (_ ∷ es) e = scan-count_shuts p q es e

-- The bytes that are handed to libuv, in order.
abbrev pub written : List Effect → List Bytes
written [] = []
written (writes b ∷ es) = b ∷ written es
written (_ ∷ es) = written es

-- Nothing is written once the writing side is shut down.
pub scan-written_shut :
    (q : Flags) (closed : Bool) (es : List Effect)
    → scan (record { closed = closed; shut = true }) es ≡ some q
    → written es ≡ []
unfolding scan
scan-written_shut q closed [] e = refl
scan-written_shut q closed (closes ∷ es) e = ground (arith, scan-written_shut q true es)
scan-written_shut q closed (shuts_down ∷ es) e = absurd (ground arith)
scan-written_shut q closed (writes b ∷ es) e = absurd (ground arith)
scan-written_shut q closed (_ ∷ es) e = scan-written_shut q closed es e
