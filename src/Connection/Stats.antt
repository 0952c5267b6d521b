-- ===== src/Connection/Stats.antt =====
-- The struct `gettyConn`: counters, timeouts and activity, shared by the kinds of connection.
use getty.Common.{ℕ, ◌+◌, Bool, false, Option, none, some, ◌==◌, if◌then◌else◌, ℤ, pos, negsuc, u32}

-- The addresses, which are texts for logs, and the times of the last deadlines are left out.
pub record Stats : Type 0 where
  pub id : ℕ
  pub compress : ℤ
  pub codec_enabled : Bool
  pub read_bytes : ℕ
  pub write_bytes : ℕ
  pub read_pkg_num : ℕ
  pub write_pkg_num : ℕ
  pub active : ℕ
  pub r_timeout : ℕ
  pub w_timeout : ℕ

-- `netIOTimeout`, in nanoseconds.
abbrev pub net_io_timeout : ℕ
net_io_timeout = 1000000000

-- What the three constructors set. `CompressNone` is 0.
unfoldable pub init_stats : ℕ → Stats
init_stats id = record {
  id = id;
  compress = pos 0;
  codec_enabled = false;
  read_bytes = 0;
  write_bytes = 0;
  read_pkg_num = 0;
  write_pkg_num = 0;
  active = 0;
  r_timeout = net_io_timeout;
  w_timeout = net_io_timeout;
}

unfoldable pub inc_read_pkg_num : Stats → Stats
inc_read_pkg_num s = record s { read_pkg_num = u32 (s.read_pkg_num + 1) }

unfoldable pub inc_write_pkg_num : Stats → Stats
inc_write_pkg_num s = record s { write_pkg_num = u32 (s.write_pkg_num + 1) }

-- `now` is the time since the launch of the process.
unfoldable pub update_active : ℕ → Stats → Stats
update_active now s = record s { active = now }

-- `none` is the panic on a timeout below 1.
unfoldable pub set_read_timeout : ℤ → Stats → Option Stats
set_read_timeout (negsuc n) s = none
set_read_timeout (pos n) s =
    if n == 0
    then none
    else (some (
        if s.w_timeout == 0
        then record s { r_timeout = n; w_timeout = n }
        else record s { r_timeout = n }))

unfoldable pub set_write_timeout : ℤ → Stats → Option Stats
set_write_timeout (negsuc n) s = none
set_write_timeout (pos n) s =
    if n == 0
    then none
    else (some (
        if s.r_timeout == 0
        then record s { w_timeout = n; r_timeout = n }
        else record s { w_timeout = n }))

-- A batch or package that went out.
unfoldable pub count_sent : ℕ → ℕ → Stats → Stats
count_sent len pkgs s = record s {
  write_bytes = u32 (s.write_bytes + len);
  write_pkg_num = u32 (s.write_pkg_num + pkgs);
}
