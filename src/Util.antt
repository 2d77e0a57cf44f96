-- ===== src/Util.antt =====
-- util/guest.go: which ids are those of guests.
use Prim.Native.String.{len}
use text.Mathlib.Text.{starts_with}
use elo_service.Prelude.{String, Bool, ◌&&◌, ltb}

-- `len(id) > 2 && id[:2] == "g_"`
unfoldable pub is_guest_id : String → Bool
is_guest_id id = ltb 2 (len id) && starts_with id "g_"
