-- ===== src/Connection/Polling/Reads.antt =====
-- The polling reader: no byte is lost, an idle stream sees no timeout, and a stalled one does.
use getty.Common.{
  ℕ, zero, suc, ◌+◌, ◌-◌, ◌≤◌, ◌<◌, ◌≡◌, ◌≢◌, refl, sym, ◌∙◌, ap, subst, true, false, some, List,
  [], ◌∷◌, ◌++◌, is_some, take, drop, take-append-drop, append_assoc, append-nil, arith,
}
use getty.Errors.{IoError, is_timeout}
use getty.Connection.Net.{Bytes}
use getty.Connection.Polling.{
  Wire, Limits, poll_wait, arm, surfaces, Poller, init_poller, Filled, filled, failed, polls, fill,
  log_read, boundary, mark_delivery, deliver, Got, got, refused, waits, deliver_filled, read,
}

-- What the decoder got and what is buffered are what the connection gave, in order.
abbrev Tracks : Bytes → Poller → Type 0
Tracks d p = d ++ p.buf ≡ p.received

-- The poller that a fill leaves.
abbrev left : Filled → Poller
left (filled q) = q
left (failed e q) = q
left (polls q) = q

-- What a fill that ran on an empty buffer logged is what it left in the buffer.
fill_lem :
    (w : Wire) (l : Limits) (fuel k : ℕ) (p : Poller)
    → p.buf ≡ []
    → (left (fill w l fuel k p)).received ≡ p.received ++ (left (fill w l fuel k p)).buf
unfolding fill
fill_lem w l zero k p e = ground (arith, e, append-nil p.received)
fill_lem w l (suc fuel) k p e = ground (
  arith,
  e,
  append-nil p.received,
  append-nil (log_read w k p).received,
  fill_lem w l fuel (suc k) (log_read w k p),
)

-- A timeout that a fill reports is one that surfaces in one of its rounds.
fill_timeout :
    (w : Wire) (l : Limits) (fuel k : ℕ) (p q : Poller) (e : IoError)
    → ((j d : ℕ) (x : IoError) → w.set_deadline j d ≡ some x → is_timeout x ≡ false)
    → ((j : ℕ) → surfaces w l p.progress p.last_delivery j ≡ false)
    → fill w l fuel k p ≡ failed e q
    → is_timeout e ≡ false
unfolding fill arm
fill_timeout w l zero k p q e hd hs h = cc
fill_timeout w l (suc fuel) k p q e hd hs h = ground (
  arith,
  h,
  hs k,
  hd k (poll_wait l p.progress (w.before k - p.last_delivery)) e,
  fill_timeout w l fuel (suc k) (log_read w k p) q e hd hs,
)

-- A turn of the decoder: it asks for bytes, or it has come to the end of a block.
pub data Call : Type 0 where
  reads : Wire → ℕ → ℕ → ℕ → Call
  ends_block : Call

-- Turns on a poller, from what the decoder has got so far, up to a read that fails, with the poller that it left.
pub run : Limits → List Call → Bytes × Poller → Bytes × Poller
unfolding boundary
run l [] (d, p) = (d, p)
run l (ends_block ∷ cs) (d, p) = run l cs (d, boundary p)
run l (reads w fuel size now ∷ cs) (d, p) = elim (read w l fuel size now p) [
  | got bs p' ↦ run l cs (d ++ bs, p')
  | refused e q ↦ (d, q)
  | waits q ↦ (d, q)
]

deliver-Tracks :
    (d : Bytes) (size now : ℕ) (p : Poller)
    → Tracks d p
    → Tracks (d ++ (deliver size now p).0) (deliver size now p).1
unfolding deliver mark_delivery
deliver-Tracks d size now p h =
    append_assoc d (take size p.buf) (drop size p.buf)
    ∙ ap (λ bs. d ++ bs) (take-append-drop size p.buf)
    ∙ h

-- What a call gave, and the poller that it left.
abbrev outcome : Got → Bytes × Poller
outcome (got bs q) = (bs, q)
outcome (refused e q) = ([], q)
outcome (waits q) = ([], q)

deliver_filled-Tracks :
    (d : Bytes) (size now : ℕ) (s : Filled)
    → Tracks d (left s)
    → let r = outcome (deliver_filled size now s) in Tracks (d ++ r.0) r.1
unfolding deliver_filled
deliver_filled-Tracks d size now (filled q) h = deliver-Tracks d size now q h
deliver_filled-Tracks d size now (failed e q) h = ap (λ c. c ++ q.buf) (append-nil d) ∙ h
deliver_filled-Tracks d size now (polls q) h = ap (λ c. c ++ q.buf) (append-nil d) ∙ h

-- A read delivers from a poller that tracks as the one before it does.
source :
    (w : Wire) (l : Limits) (fuel size now : ℕ) (d : Bytes) (p : Poller) (b : Bytes)
    → p.buf ≡ b
    → Tracks d p
    → (s : Filled) × (read w l fuel size now p ≡ deliver_filled size now s) × Tracks d (left s)
unfolding read
source w l fuel size now d p [] e h =
    let all : d ≡ p.received = sym (append-nil d) ∙ ap (λ c. d ++ c) (sym e) ∙ h in
    (
      fill w l fuel 0 p,
      ground (arith, e),
      ap (λ c. c ++ (left (fill w l fuel 0 p)).buf) all ∙ sym (fill_lem w l fuel 0 p e),
    )
source w l fuel size now d p (b ∷ bs) e h = (filled p, ground (arith, e), h)

read-Tracks :
    (w : Wire) (l : Limits) (fuel size now : ℕ) (d : Bytes) (p : Poller)
    → Tracks d p
    → let r = outcome (read w l fuel size now p) in Tracks (d ++ r.0) r.1
read-Tracks w l fuel size now d p h =
    let (s, same, t) = source w l fuel size now d p p.buf refl h in
    subst (λ g. Tracks (d ++ (outcome g).0) (outcome g).1) (sym same)
      (deliver_filled-Tracks d size now s t)

run-Tracks :
    (l : Limits) (cs : List Call) (d : Bytes) (p : Poller)
    → Tracks d p
    → Tracks (run l cs (d, p)).0 (run l cs (d, p)).1
unfolding run
run-Tracks l [] d p h = h
run-Tracks l (ends_block ∷ cs) d p h = run-Tracks l cs d (boundary p) h
run-Tracks l (reads w fuel size now ∷ cs) d p h =
    go (read w l fuel size now p) refl (read-Tracks w l fuel size now d p h)
      (λ bs q t. run-Tracks l cs (d ++ bs) q t)
  where
    go :
        (g : Got)
        → read w l fuel size now p ≡ g
        → (let r = outcome (read w l fuel size now p) in Tracks (d ++ r.0) r.1)
        → ((bs : Bytes) (q : Poller)
            → Tracks (d ++ bs) q
            → Tracks (run l cs (d ++ bs, q)).0 (run l cs (d ++ bs, q)).1)
        → let out = run l (reads w fuel size now ∷ cs) (d, p) in Tracks out.0 out.1
    go (got bs q) e t k =
        ground (arith, e, k bs q (subst (λ g. Tracks (d ++ (outcome g).0) (outcome g).1) e t))
    go (refused x q) e t k = ground (arith, e, t, append-nil d)
    go (waits q) e t k = ground (arith, e, t, append-nil d)

-- Whatever the connection does and however the decoder asks for its bytes, what it got and what is still
-- buffered are the bytes that all reads of the connection gave, also those with an error beside them, in order:
-- none is lost, or delivered twice.
pub run-order :
    (l : Limits) (cs : List Call)
    → (run l cs ([], init_poller)).0 ++ (run l cs ([], init_poller)).1.buf
      ≡ (run l cs ([], init_poller)).1.received
run-order l cs = run-Tracks l cs [] init_poller refl

-- Between two blocks of the codec, on a connection that does not shut down, a fill never fails with a
-- timeout, however long the peer is silent; the deadline calls fail with no timeout themselves.
pub fill-idle :
    (w : Wire) (l : Limits) (fuel : ℕ) (p q : Poller) (e : IoError)
    → ((j d : ℕ) (x : IoError) → w.set_deadline j d ≡ some x → is_timeout x ≡ false)
    → ((j : ℕ) → w.shutting j ≡ false)
    → p.progress ≡ false
    → fill w l fuel 0 p ≡ failed e q
    → is_timeout e ≡ false
unfolding surfaces
fill-idle w l fuel p q e hd hs idle h =
    fill_timeout w l fuel 0 p q e hd (λ j. ground (arith, hs j, idle)) h

-- In the middle of a block, a fill ends by the round in which the stall window is over, unless the
-- connection gives no bytes and no error there.
pub fill-stall :
    (w : Wire) (l : Limits) (m k j : ℕ) (p q : Poller)
    → j ≡ k + m
    → p.progress ≡ true
    → 0 < l.stall
    → l.stall ≤ w.now j - p.last_delivery
    → ((w.read j).0 ≡ [] → is_some (w.read j).1 ≡ true)
    → fill w l (suc m) k p ≢ polls q
unfolding fill surfaces
fill-stall w l zero k j p q at mid hs over live h = ground (
  arith,
  h,
  subst (λ i. l.stall ≤ w.now i - p.last_delivery) {x = j} {y = k} (omega arith) over,
  hs,
  mid,
  subst (λ i. (w.read i).0 ≡ [] → is_some (w.read i).1 ≡ true) {x = j} {y = k} (omega arith) live,
)
fill-stall w l (suc m) k j p q at mid hs over live h =
    ground (arith, h, fill-stall w l m (suc k) j (log_read w k p) q (omega arith) mid hs over live)
