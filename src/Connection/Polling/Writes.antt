-- ===== src/Connection/Polling/Writes.antt =====
-- The polling writer: what the connection took is a prefix, and a slow peer breaks nothing.
use getty.Common.{
  ℕ, zero, suc, ◌+◌, ◌-◌, ◌≤◌, ◌<◌, ◌≡◌, refl, true, false, inl, inr, Option, none, some, [], ◌++◌,
  ltb, if◌then◌else◌, length, take, drop, Option-cases, Bool-cases, arith, take_all,
  take-append-take, length-drop,
}
use getty.Errors.{IoError, is_timeout}
use getty.Connection.Net.{Bytes}
use getty.Connection.Polling.{
  Wire, Limits, poll_wait, arm, surfaces, Wrote, wrote, stuck, write_from, write,
}

-- The contract of `net.Conn.Write`: a count within the data, and an error where it is short.
pub record IsWriter (w : Wire) : Type 0 where
  pub within : (k : ℕ) (p : Bytes) → (w.write k p).0 ≤ length p
  pub whole : (k : ℕ) (p : Bytes) → (w.write k p).1 ≡ none → (w.write k p).0 ≡ length p

-- A result of a write of `p`: what was taken is the prefix that the count names, and it is all of `p`
-- where no error is returned.
abbrev pub Prefix : Bytes → Wrote → Type 0
Prefix p (wrote n e taken) = (taken ≡ take n p) × (n ≤ length p) × (e ≡ none → n ≡ length p)
Prefix p stuck = Unit {0}

write_from-Prefix :
    (w : Wire) (l : Limits) (fuel k : ℕ) (p : Bytes) (written last n : ℕ) (taken all : Bytes)
    (e : Option IoError)
    → IsWriter w
    → taken ≡ take written p
    → written ≤ length p
    → write_from w l fuel k p written last taken ≡ wrote n e all
    → (all ≡ take n p) × (n ≤ length p) × (e ≡ none → n ≡ length p)
unfolding write_from
write_from-Prefix w l zero k p written last n taken all e c t h r = cc
write_from-Prefix w l (suc fuel) k p written last n taken all e c t h r =
    let m = (w.write k (drop written p)).0 in
    ground (
      arith,
      r,
      t,
      h,
      c.within k (drop written p),
      take-append-take written m p,
      length-drop written p,
      write_from-Prefix w l fuel (suc k) p (written + m) (if ltb 0 m then w.now k else last) n
          (taken ++ take m (drop written p)) all e c,
    )

-- Whatever the connection takes and whatever time passes, the bytes that it took are, in order and without a
-- gap, the prefix of the package that the count of `Write` names, and all of it where no error is returned.
pub write-Prefix :
    (w : Wire) (l : Limits) (fuel start : ℕ) (p : Bytes) (n : ℕ) (e : Option IoError) (all : Bytes)
    → IsWriter w
    → write w l fuel start p ≡ wrote n e all
    → (all ≡ take n p) × (n ≤ length p) × (e ≡ none → n ≡ length p)
unfolding write
write-Prefix w l fuel start p n e all c r =
    write_from-Prefix w l fuel 0 p 0 start n [] all e c refl (omega arith) r

-- A peer that is slow: each call moves a byte at least, and may time out; nothing else goes wrong, and the
-- connection does not shut down.
pub record IsSlow (w : Wire) : Type 0 where
  pub moves : (k : ℕ) (p : Bytes) → 0 < length p → 0 < (w.write k p).0
  pub only_timeouts :
      (k : ℕ) (p : Bytes) (e : IoError) → (w.write k p).1 ≡ some e → is_timeout e ≡ true
  pub armed : (k d : ℕ) → w.set_deadline k d ≡ none
  pub on : (k : ℕ) → w.shutting k ≡ false

write_from-slow :
    (w : Wire) (l : Limits) (fuel k : ℕ) (p : Bytes) (written last : ℕ) (taken : Bytes)
    → IsWriter w
    → IsSlow w
    → taken ≡ take written p
    → written ≤ length p
    → length p < fuel + written
    → write_from w l fuel k p written last taken ≡ wrote (length p) none p
unfolding write_from arm surfaces
write_from-slow w l zero k p written last taken c s t h f = absurd (omega arith)
write_from-slow w l (suc fuel) k p written last taken c s t h f =
    let q = drop written p in
    let m = (w.write k q).0 in
    let later =
      write_from-slow w l fuel (suc k) p (written + m) (if ltb 0 m then w.now k else last)
        (taken ++ take m q) c s in
    elim (Bool-cases (ltb written (length p))) [
      | inr z ↦ ground (arith, t, z, h, take_all written p)
      | inl z ↦ elim (Option-cases (w.write k q).1) [
        | inl n ↦ ground (
          arith,
          t,
          h,
          f,
          z,
          n,
          c.within k q,
          s.moves k q,
          s.armed k (poll_wait l true (w.before k - last)),
          take-append-take written m p,
          length-drop written p,
          later,
        )
        | inr (e, n) ↦ ground (
          arith,
          t,
          h,
          f,
          z,
          n,
          c.within k q,
          s.moves k q,
          s.only_timeouts k q e n,
          s.on k,
          s.armed k (poll_wait l true (w.before k - last)),
          take-append-take written m p,
          length-drop written p,
          later,
        )
      ]
    ]

-- Where every call moves a byte at least and fails by a timeout only, and the connection does not
-- shut down, `Write` returns within a round for each byte of the package and one more: with the
-- whole length and no error, the connection having taken the package, whatever the stall window is
-- and however slow the clock. The connection keeps the contract of a writer.
pub write-slow :
    (w : Wire) (l : Limits) (start : ℕ) (p : Bytes)
    → IsWriter w
    → IsSlow w
    → write w l (suc (length p)) start p ≡ wrote (length p) none p
unfolding write
write-slow w l start p c s =
    write_from-slow w l (suc (length p)) 0 p 0 start [] c s refl (omega arith) (omega arith)
