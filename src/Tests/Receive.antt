-- ===== src/Tests/Receive.antt =====
-- Runs of the receive loop.
use getty.Common.{ℕ, ◌≡◌, refl, ◌⊎◌, Bool, false, Option, none, some, [], ◌∷◌, length, ◌≤◌, arith}
use getty.Errors.{Error}
use getty.Connection.Net.{Bytes}
use getty.Connection.Tcp
use getty.Connection.Tcp.{new_tcp_conn}
use getty.Session.Receive.{
  decode_batch, limit_error, absorb, Receiver, Exit, running, exited, init_receiver,
  handle_tcp_package,
}
use getty.Session.Receive.Loop.{handle_tcp_package-stream}
use getty.Session.Receive.Limits.{buffer-le-max, decode_batch-stuck}
use getty.Tests.Fixtures.{quiet, read_frame, read_frame-IsFraming, tcp_conn}

abbrev open_ : ℕ → Bool
open_ k = false

-- A frame that came in two parts, one that is whole, and the end of the stream.
two_frames :
    (r : Receiver Bytes) × (handle_tcp_package read_frame quiet open_ 16 3 (init_receiver tcp_conn)
      ≡ some (r, exited none))
    × (r.tasks ≡ (7 ∷ 8 ∷ []) ∷ (9 ∷ []) ∷ [])
unfolding handle_tcp_package absorb decode_batch limit_error read_frame Tcp.recv new_tcp_conn
two_frames = (_, refl, refl)

handle_tcp_package-stream_example :
    (r : Receiver Bytes) × (x : Exit) × (e : Option Error) × (handle_tcp_package read_frame quiet
        open_ 16 3
        (init_receiver tcp_conn)
      ≡ some (r, x))
    × (decode_batch read_frame (length r.received) 16 r.received ≡ some (r.buffer, r.tasks, e))
    × ((e ≡ none) ⊎ (x ≡ exited e))
handle_tcp_package-stream_example =
    handle_tcp_package-stream read_frame read_frame-IsFraming 16 quiet open_ 3 tcp_conn

-- One round: half of the first frame is buffered.
abbrev half : Receiver Bytes
half = record {
  conn = (Tcp.recv quiet false tcp_conn 4096).2;
  buffer = 2 ∷ 7 ∷ [];
  tasks = [];
  ignore_reconnect = false;
  received = 2 ∷ 7 ∷ [];
  answers = none ∷ [];
}

half_round :
    handle_tcp_package read_frame quiet open_ 16 1 (init_receiver tcp_conn) ≡ some (half, running)
unfolding handle_tcp_package absorb decode_batch limit_error read_frame Tcp.recv new_tcp_conn
half_round = refl

buffer-le-max_example : length half.buffer ≤ 16
buffer-le-max_example =
    buffer-le-max read_frame read_frame-IsFraming quiet open_ 16 1 tcp_conn half (omega arith)
      half_round

abbrev idle_reader : Bytes → Option ℕ × ℕ × Option Error
idle_reader buf = (some 5, 0, none)

decode_batch-stuck_example : decode_batch idle_reader 100 16 (1 ∷ []) ≡ none
decode_batch-stuck_example = decode_batch-stuck idle_reader 16 100 1 [] 5 refl
