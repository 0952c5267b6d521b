-- ===== src/Tests/Polling.antt =====
-- Runs of the polling reader and writer, and of the operations of a TCP connection.
use getty.Common.{
  ℕ, suc, ◌+◌, ◌≤◌, ◌<◌, ◌≡◌, refl, true, false, Option, none, some, List, [], ◌∷◌, ◌++◌, ◌==◌, ltb,
  if◌then◌else◌, length, pos, arith,
}
use getty.Errors.{IoError, timeout, eof, is_timeout}
use getty.Connection.Net.{Bytes, bytes}
use getty.Connection.Tcp.{TcpConn}
use getty.Connection.Tcp.Histories.{do_send, do_recv, do_compress, do_close, run, Kept, run-Kept}
use getty.Connection.Polling.{Wire, Limits, init_poller, wrote, write}
use getty.Connection.Polling.Reads.{Call, reads, ends_block, run-order}
use getty.Connection.Polling.Reads
use getty.Connection.Polling.Writes.{IsWriter, IsSlow, write-slow}
use getty.Tests.Fixtures.{quiet, tcp_conn}

-- A peer that takes one byte each second, each time with a timeout behind it, and sends three bytes after
-- two silent polls.
abbrev one_byte : Bytes → ℕ × Option IoError
one_byte [] = (0, none)
one_byte (b ∷ []) = (1, none)
one_byte (b ∷ c ∷ bs) = (1, some timeout)

abbrev late : ℕ → Bytes × Option IoError
late k =
    if ltb k 2
    then ([], some timeout)
    else if k == 2
    then (1 ∷ 2 ∷ 3 ∷ [], none)
    else ([], some eof)

abbrev slow_peer : Wire
slow_peer = record {
  set_deadline = λ k d. none;
  read = late;
  write = λ k p. one_byte p;
  before = λ k. k;
  now = λ k. k + 1;
  shutting = λ k. false;
}

abbrev limits : Limits
limits = record { timeout = 5; stall = 2 }

slow_peer-IsWriter : IsWriter slow_peer
slow_peer-IsWriter = record { within = λ k p. within p; whole = λ k p e. whole p e }
  where
    within : (p : Bytes) → (one_byte p).0 ≤ length p
    within [] = omega arith
    within (b ∷ []) = omega arith
    within (b ∷ c ∷ bs) = omega arith

    whole : (p : Bytes) → (one_byte p).1 ≡ none → (one_byte p).0 ≡ length p
    whole [] e = refl
    whole (b ∷ []) e = refl
    whole (b ∷ c ∷ bs) e = cc

slow_peer-IsSlow : IsSlow slow_peer
slow_peer-IsSlow = record {
  moves = λ k p h. moves p h;
  only_timeouts = λ k p e h. only_timeouts p e h;
  armed = λ k d. refl;
  on = λ k. refl;
}
  where
    moves : (p : Bytes) → 0 < length p → 0 < (one_byte p).0
    moves [] h = absurd (omega arith)
    moves (b ∷ []) h = omega arith
    moves (b ∷ c ∷ bs) h = omega arith

    only_timeouts : (p : Bytes) (e : IoError) → (one_byte p).1 ≡ some e → is_timeout e ≡ true
    only_timeouts [] e h = cc
    only_timeouts (b ∷ []) e h = cc
    only_timeouts (b ∷ c ∷ bs) e h = ground (arith, h)

write-slow_example :
    write slow_peer limits (suc 4) 0 (7 ∷ 8 ∷ 9 ∷ 6 ∷ []) ≡ wrote 4 none (7 ∷ 8 ∷ 9 ∷ 6 ∷ [])
write-slow_example =
    write-slow slow_peer limits 0 (7 ∷ 8 ∷ 9 ∷ 6 ∷ []) slow_peer-IsWriter slow_peer-IsSlow

-- A read of two bytes, the end of a block, a read of one byte, and one that finds the end of the stream.
abbrev calls : List Call
calls = reads slow_peer 9 2 4 ∷ ends_block ∷ reads slow_peer 9 1 5 ∷ reads slow_peer 9 1 6 ∷ []

run-order_example :
    (Reads.run limits calls ([], init_poller)).0 ++ (Reads.run limits calls ([], init_poller)).1.buf
    ≡ (Reads.run limits calls ([], init_poller)).1.received
run-order_example = run-order limits calls

abbrev compressed : TcpConn
compressed = run quiet tcp_conn (do_compress (pos 9) ∷ do_send (bytes (1 ∷ [])) ∷ [])

run-Kept_example :
    Kept compressed
      (run quiet compressed (do_compress (pos 10) ∷ do_recv false 8 ∷ do_close ∷ do_close ∷ []))
run-Kept_example =
    run-Kept quiet (do_compress (pos 10) ∷ do_recv false 8 ∷ do_close ∷ do_close ∷ []) compressed
