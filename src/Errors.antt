-- ===== src/Errors.antt =====
-- The errors of transport/getty.go and transport/connection.go. `perrors.WithStack` and `Wrapf` keep
-- the cause of an error, and the code looks at causes only, so an error is its cause here.
use getty.Common.{ℕ, Bool, true, false}

-- What a read or write of a `net.Conn` may return.
pub data IoError : Type 0 where
  timeout : IoError
  eof : IoError
  failure : ℕ → IoError

-- `isTimeoutError`, and `ok && netError.Timeout()` of the read loops.
abbrev pub is_timeout : IoError → Bool
is_timeout timeout = true
is_timeout eof = false
is_timeout (failure n) = false

pub data Error : Type 0 where
  session_closed nil_pkg null_peer_addr codec_stream_broken illegal_pkg : Error
  reset_during_callback : Error
  payload_too_large : Error
  read_limit : Error
  msg_too_long : Error
  -- An error that code of the application returns.
  user : ℕ → Error
  -- A panic that was recovered and turned into an error.
  panicked : Error
  io : IoError → Error
