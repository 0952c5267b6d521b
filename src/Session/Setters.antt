-- ===== src/Session/Setters.antt =====
-- The methods that set one field, and the attributes.
use Prim.Native.String.{String}
use text.Mathlib.Text.{◌==◌ as str_eq}
use getty.Common.{ℕ, ◌*◌, Option, none, some, ◌==◌, if◌then◌else◌, ℤ, pos, negsuc}
use getty.Session.Limits.{normalize_msg_len}
use getty.Session.State.{Session, Attrs, AttrValue}

unfoldable pub set_max_msg_len : ℤ → Session → Session
unfolding normalize_msg_len
set_max_msg_len n s = record s { max_msg_len = normalize_msg_len n }

unfoldable pub set_max_write_msg_len : ℤ → Session → Session
unfolding normalize_msg_len
set_max_write_msg_len n s = record s { max_write_msg_len = normalize_msg_len n }

unfoldable pub set_name : String → Session → Session
set_name n s = record s { name = n }

unfoldable pub set_event_listener : ℕ → Session → Session
set_event_listener l s = record s { listener = some l }

unfoldable pub set_pkg_handler : ℕ → Session → Session
set_pkg_handler h s = record s { reader = some h; writer = some h }

unfoldable pub set_reader : ℕ → Session → Session
set_reader r s = record s { reader = some r }

unfoldable pub set_writer : ℕ → Session → Session
set_writer w s = record s { writer = some w }

-- In milliseconds; `none` is the panic on a period below 1.
unfoldable pub set_cron_period : ℤ → Session → Option Session
set_cron_period (negsuc n) s = none
set_cron_period (pos n) s = if n == 0 then none else some (record s { period = n * 1000000 })

-- In nanoseconds; `none` is the panic on a time below 1.
unfoldable pub set_wait_time : ℤ → Session → Option Session
set_wait_time (negsuc n) s = none
set_wait_time (pos n) s = if n == 0 then none else some (record s { wait = n })

unfoldable pub get_attribute : String → Session → Option AttrValue
get_attribute k s = elim s.attrs [ none ↦ none | some m ↦ m k ]

abbrev pub update : String → Option AttrValue → Attrs → Attrs
update k v m j = if str_eq j k then v else m j

unfoldable pub set_attribute : String → AttrValue → Session → Session
set_attribute k v s = elim s.attrs [
  | none ↦ s
  | some m ↦ record s { attrs = some (update k (some v) m) }
]

unfoldable pub remove_attribute : String → Session → Session
remove_attribute k s = elim s.attrs [
  | none ↦ s
  | some m ↦ record s { attrs = some (update k none m) }
]
