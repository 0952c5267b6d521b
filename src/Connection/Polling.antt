-- ===== src/Connection/Polling.antt =====
-- `codecPollingReader` and `codecPollingWriter` of connection.go: between a codec, which keeps the first
-- error that it sees, and a connection that polls with deadlines.
pub mod Reads
pub mod Writes
use getty.Common.{
  ℕ, zero, suc, ◌+◌, ◌-◌, Bool, true, false, ◌&&◌, ◌||◌, Option, none, some, List, [], ◌∷◌, ◌++◌,
  ltb, leb, if◌then◌else◌, length, take, drop, min,
}
use getty.Errors.{IoError, is_timeout}
use getty.Connection.Net.{Bytes}

-- The raw connection below, and the clock, in nanoseconds. The first argument numbers the rounds of one
-- loop: the time before the round, what the deadline call answers, what the read or write does, the time
-- behind it, and whether the connection is shutting down then (`codecBroken`, `sessionClosing`, and for writes `closing`).
pub record Wire : Type 0 where
  pub set_deadline : ℕ → ℕ → Option IoError
  pub read : ℕ → Bytes × Option IoError
  pub write : ℕ → Bytes → ℕ × Option IoError
  pub before : ℕ → ℕ
  pub now : ℕ → ℕ
  pub shutting : ℕ → Bool

-- The time limit of a poll and `codecStallTimeout`; 0 is none of the latter.
pub record Limits : Type 0 where
  pub timeout : ℕ
  pub stall : ℕ

abbrev pub millisecond : ℕ
millisecond = 1000000

-- The wait of one poll: no longer than the rest of the stall window, and at least a millisecond where
-- that is cut short. `since` is the time since the last progress.
unfoldable pub poll_wait : Limits → Bool → ℕ → ℕ
poll_wait l mid since =
    if mid && ltb 0 l.stall && ltb (l.stall - since) l.timeout
    then (if ltb (l.stall - since) millisecond then millisecond else l.stall - since)
    else l.timeout

-- The deadline call of a round, where the poll has a time limit.
unfoldable pub arm : Wire → Limits → Bool → ℕ → ℕ → Option IoError
unfolding poll_wait
arm w l mid since k = if ltb 0 l.timeout then w.set_deadline k (poll_wait l mid since) else none

-- A timeout reaches the codec on a shutdown, and behind a stall window without progress.
unfoldable pub surfaces : Wire → Limits → Bool → ℕ → ℕ → Bool
surfaces w l mid last k = w.shutting k || (mid && ltb 0 l.stall && leb l.stall (w.now k - last))

-- The reader: `buf` is `next..end` of its buffer. `received` logs the bytes of every read of the connection, whatever
-- became of them.
pub record Poller : Type 0 where
  pub buf : Bytes
  pub progress : Bool
  pub last_delivery : ℕ
  pub received : Bytes

abbrev pub init_poller : Poller
init_poller = record { buf = []; progress = false; last_delivery = 0; received = [] }

-- How `fill` ends, with the poller; `polls` is the end of the fuel.
pub data Filled : Type 0 where
  filled : Poller → Filled
  failed : IoError → Poller → Filled
  polls : Poller → Filled

-- A read of the connection, in the log.
abbrev pub log_read : Wire → ℕ → Poller → Poller
log_read w k p = record p { received = p.received ++ (w.read k).0 }

-- `fill`, on a fuel of rounds, from round `k` on; it runs on an empty buffer.
unfoldable pub fill : Wire → Limits → ℕ → ℕ → Poller → Filled
unfolding arm surfaces
fill w l zero k p = polls p
fill w l (suc fuel) k p =
    let q = log_read w k p in
    let rest = fill w l fuel (suc k) q in
    elim (arm w l p.progress (w.before k - p.last_delivery) k) [
      | some e ↦ failed e p
      | none ↦ elim (w.read k).0 [
        | b ∷ bs ↦ filled (record q { buf = b ∷ bs })
        | [] ↦ elim (w.read k).1 [
          | none ↦ rest
          | some e ↦
              if is_timeout e
              then (if surfaces w l p.progress p.last_delivery k then failed e q else rest)
              else failed e q
        ]
      ]
    ]

-- `boundary`, and `markDelivery`.
unfoldable pub boundary : Poller → Poller
boundary p = record p { progress = false }

unfoldable pub mark_delivery : ℕ → Poller → Poller
mark_delivery now p = record p { progress = true; last_delivery = now }

-- `Read` into a buffer of the given size, and `ReadByte`, on a poller that has bytes; `now` is the time
-- of the delivery.
unfoldable pub deliver : ℕ → ℕ → Poller → Bytes × Poller
unfolding mark_delivery
deliver size now p = (take size p.buf, mark_delivery now (record p { buf = drop size p.buf }))

-- What a call returned: bytes or an error, and the poller; `waits` is the end of the fuel.
pub data Got : Type 0 where
  got : Bytes → Poller → Got
  refused : IoError → Poller → Got
  waits : Poller → Got

unfoldable pub deliver_filled : ℕ → ℕ → Filled → Got
unfolding deliver
deliver_filled size now (filled p) = let (bs, p') = deliver size now p in got bs p'
deliver_filled size now (failed e p) = refused e p
deliver_filled size now (polls p) = waits p

-- `Read`; `ReadByte` is the read of one byte.
unfoldable pub read : Wire → Limits → ℕ → ℕ → ℕ → Poller → Got
unfolding fill deliver_filled
read w l fuel size now p = elim p.buf [
  | [] ↦ deliver_filled size now (fill w l fuel 0 p)
  | b ∷ bs ↦ deliver_filled size now (filled p)
]

-- The writer: what was written, an error, and the bytes that the connection took; `stuck` is the end of
-- the fuel.
pub data Wrote : Type 0 where
  wrote : ℕ → Option IoError → Bytes → Wrote
  stuck : Wrote

-- The loop of `codecPollingWriter.Write`, on a fuel of rounds: `last` is `lastProgress`.
unfoldable pub write_from : Wire → Limits → ℕ → ℕ → Bytes → ℕ → ℕ → Bytes → Wrote
unfolding arm surfaces
write_from w l zero k p written last taken = stuck
write_from w l (suc fuel) k p written last taken =
    let out = w.write k (drop written p) in
    let n = out.0 in
    let taken' = taken ++ take n (drop written p) in
    let last' = if ltb 0 n then w.now k else last in
    let rest = write_from w l fuel (suc k) p (written + n) last' taken' in
    if ltb written (length p)
    then (elim (arm w l true (w.before k - last) k) [
      | some e ↦ wrote written (some e) taken
      | none ↦ elim out.1 [
        | none ↦ rest
        | some e ↦
            if is_timeout e
            then (if surfaces w l true last' k then wrote (written + n) (some e) taken' else rest)
            else wrote (written + n) (some e) taken'
      ]
    ])
    else wrote written none taken

unfoldable pub write : Wire → Limits → ℕ → ℕ → Bytes → Wrote
unfolding write_from
write w l fuel start p = write_from w l fuel 0 p 0 start []
