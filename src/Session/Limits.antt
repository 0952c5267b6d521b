-- ===== src/Session/Limits.antt =====
-- The lengths and periods that an application sets, and the size of the datagram buffer.
use getty.Common.{
  ℕ, ◌+◌, ◌*◌, ◌≤◌, ◌<◌, ltb, ◌==◌, if◌then◌else◌, ℤ, pos, negsuc, pos_part, max_int32, arith,
}
use getty.Session.State.{max_read_buf_len}

-- `normalizeMsgLen`: an `int` becomes an `int32`.
unfoldable pub normalize_msg_len : ℤ → ℕ
normalize_msg_len (negsuc n) = 0
normalize_msg_len (pos n) = if n == 0 then 0 else if ltb max_int32 n then max_int32 else n

abbrev pub max_udp_read_buffer_size : ℕ
max_udp_read_buffer_size = 65536

-- `udpReadBufferSize`, on an `int32`; the sums are those of an `int64`, which cannot overflow here.
unfoldable pub udp_read_buffer_size : ℤ → ℕ
udp_read_buffer_size (negsuc n) = max_udp_read_buffer_size
udp_read_buffer_size (pos n) =
    if n == 0
    then max_udp_read_buffer_size
    else (let size = if ltb (n * 2) (n + max_read_buf_len) then n * 2 else n + max_read_buf_len in
        if ltb max_udp_read_buffer_size size then max_udp_read_buffer_size else size)

-- The buffer is never empty, never above 64 KiB, and leaves room to see that a datagram is longer than
-- the limit, for any limit below 64 KiB.
pub udp_read_buffer_size_lem :
    (m : ℤ)
    → (0 < udp_read_buffer_size m)
      × (udp_read_buffer_size m ≤ max_udp_read_buffer_size)
      × (pos_part m < max_udp_read_buffer_size → pos_part m < udp_read_buffer_size m)
unfolding udp_read_buffer_size
udp_read_buffer_size_lem (negsuc n) = omega arith
udp_read_buffer_size_lem (pos n) = ground arith
