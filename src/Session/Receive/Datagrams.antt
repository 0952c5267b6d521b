-- ===== src/Session/Receive/Datagrams.antt =====
-- What the datagram loop hands on, and how it ends.
use getty.Common.{
  length-take, ℕ, zero, suc, ◌≡◌, ◌<◌, refl, sym, ◌∙◌, ap, Bool, true, false, Option, none, some,
  List, [], ◌∷◌, ◌++◌, length, take, pos, arith, subst, ltb, ◌&&◌, ◌==◌, ◌≢◌, ◌⊎◌, ◌≤◌, Bool-cases,
  Option-cases, inl, inr, append-nil, append_assoc,
}
use getty.Errors.{Error, timeout, io}
use getty.Connection.Net.{Bytes, Net}
use getty.Connection.Udp.{UdpConn}
use getty.Connection.Udp
use getty.Session.Limits.{udp_read_buffer_size, udp_read_buffer_size_lem, max_udp_read_buffer_size}
use getty.Session.Receive.{Reader, exited}
use getty.Session.Receive.Udp.{
  Context, Datagram, UdpReceiver, equal, connect_ping_package, init_udp_receiver, decode_datagram,
  datagram_error, absorb_datagram, handle_udp_package,
}

equal_sound : (p q : Bytes) → equal p q ≡ true → p ≡ q
unfolding equal
equal_sound [] [] h = refl
equal_sound [] (b ∷ q) h = cc
equal_sound (a ∷ p) [] h = cc
equal_sound (a ∷ p) (b ∷ q) h = ground (arith, h, equal_sound p q)

equal_refl : (p : Bytes) → equal p p ≡ true
unfolding equal
equal_refl [] = refl
equal_refl (a ∷ p) = ground (arith, equal_refl p)

module _ {P : Type 0} (read : Reader P) (max : ℕ) where
  -- The tasks that a list of datagrams makes, one datagram at a time.
  abbrev pub tasks_of : List Datagram → List (Context P)
  tasks_of [] = []
  tasks_of (d ∷ ds) = (decode_datagram read max d).1 ++ tasks_of ds

  tasks_of-snoc :
      (ds : List Datagram) (d : Datagram)
      → tasks_of (ds ++ d ∷ []) ≡ tasks_of ds ++ (decode_datagram read max d).1
  tasks_of-snoc [] d = append-nil (decode_datagram read max d).1
  tasks_of-snoc (c ∷ ds) d = ground (
    arith,
    tasks_of-snoc ds d,
    append_assoc (decode_datagram read max c).1 (tasks_of ds) (decode_datagram read max d).1,
  )

  absorb_datagram-tasks :
      (r : UdpReceiver P) (d : Bytes × Option ℕ × Option Error × UdpConn)
      → r.tasks ≡ tasks_of r.received
      → (absorb_datagram read max r d).0.tasks ≡ tasks_of (absorb_datagram read max r d).0.received
  unfolding absorb_datagram
  absorb_datagram-tasks r (bs, peer, some e, c) h = h
  absorb_datagram-tasks r (bs, peer, none, c) h = h' ∙ sym (tasks_of-snoc r.received (bs, peer))
    where
      h' :
          r.tasks ++ (decode_datagram read max (bs, peer)).1
          ≡ tasks_of r.received ++ (decode_datagram read max (bs, peer)).1
      h' = ap (λ ts. ts ++ (decode_datagram read max (bs, peer)).1) h

  handle_from :
      (net : Net) (closed : ℕ → Bool) (k : ℕ) (r : UdpReceiver P)
      → r.tasks ≡ tasks_of r.received
      → (handle_udp_package read max net closed k r).0.tasks
        ≡ tasks_of (handle_udp_package read max net closed k r).0.received
  unfolding handle_udp_package
  handle_from net closed zero r h = h
  handle_from net closed (suc k) r h =
      let d = Udp.recv net r.conn (udp_read_buffer_size (pos max)) in
      ground (
        arith,
        h,
        absorb_datagram-tasks r d h,
        handle_from net closed k (absorb_datagram read max r d).0 (absorb_datagram-tasks r d h),
      )

  -- The tasks are what the datagrams decode to one at a time.
  pub handle_udp_package-tasks :
      (net : Net) (closed : ℕ → Bool) (k : ℕ) (c : UdpConn)
      → (handle_udp_package read max net closed k (init_udp_receiver c)).0.tasks
        ≡ tasks_of (handle_udp_package read max net closed k (init_udp_receiver c)).0.received
  handle_udp_package-tasks net closed k c = handle_from net closed k (init_udp_receiver c) refl

  -- What may become of a datagram, case by case: no task for one that is empty, a ping, undecodable, too
  -- long, or of which the decoder takes nothing; and for any other the task with its package and peer.
  pub data Verdict : Datagram → List (Context P) → Type 0 where
    empty : (peer : Option ℕ) → Verdict ([], peer) []
    pings : (peer : Option ℕ) → Verdict (connect_ping_package, peer) []
    undecodable :
        (bs : Bytes) (peer : Option ℕ) (e : Error) → (read bs).2 ≡ some e → Verdict (bs, peer) []
    too_long : (bs : Bytes) (peer : Option ℕ) → 0 < max → max < length bs → Verdict (bs, peer) []
    takes_nothing : (bs : Bytes) (peer : Option ℕ) → (read bs).1 ≡ 0 → Verdict (bs, peer) []
    handed :
        (bs : Bytes) (peer : Option ℕ)
        → 0 < length bs
        → bs ≢ connect_ping_package
        → (read bs).2 ≡ none
        → 0 < (read bs).1
        → (max ≡ 0) ⊎ (length bs ≤ max)
        → Verdict (bs, peer) (((read bs).0, peer) ∷ [])

  -- The tasks of datagrams, in their order.
  pub data Served : List Datagram → List (Context P) → Type 0 where
    done : Served [] []
    one :
        {d : Datagram} {ds : List Datagram} {us ts : List (Context P)}
        → Verdict d us
        → Served ds ts
        → Served (d ∷ ds) (us ++ ts)

  decode_datagram-Verdict : (d : Datagram) → Verdict d (decode_datagram read max d).1
  unfolding decode_datagram
  decode_datagram-Verdict ([], peer) = empty peer
  decode_datagram-Verdict (b ∷ bs, peer) = elim (Bool-cases (equal connect_ping_package (b ∷ bs))) [
    | inl p ↦ to (ground (arith, p)) (
        subst (λ q. Verdict (q, peer) []) (equal_sound connect_ping_package (b ∷ bs) p)
          (pings peer))
    | inr p ↦ elim (Option-cases (read (b ∷ bs)).2) [
      | inr (e, x) ↦
          to (unfold datagram_error in ground (arith, p, x)) (undecodable (b ∷ bs) peer e x)
      | inl x ↦ elim (Bool-cases (ltb 0 max && ltb max (length (b ∷ bs)))) [
        | inl l ↦
            to (unfold datagram_error in ground (arith, p, x, l))
              (too_long (b ∷ bs) peer (ground (arith, l)) (ground (arith, l)))
        | inr l ↦ elim (Bool-cases ((read (b ∷ bs)).1 == 0)) [
          | inl z ↦
              to (unfold datagram_error in ground (arith, p, x, l, z))
                (takes_nothing (b ∷ bs) peer (ground (arith, z)))
          | inr z ↦ to (unfold datagram_error in ground (arith, p, x, l, z)) (
              handed (b ∷ bs) peer (omega arith)
                (λ s. ground (
                  arith,
                  subst (λ q. equal connect_ping_package q ≡ false) s p,
                  equal_refl connect_ping_package,
                ))
                x (ground (arith, z)) (ground (arith, l)))
        ]
      ]
    ]
  ]
    where
      to :
          {us : List (Context P)}
          → (decode_datagram read max (b ∷ bs, peer)).1 ≡ us
          → Verdict (b ∷ bs, peer) us
          → Verdict (b ∷ bs, peer) (decode_datagram read max (b ∷ bs, peer)).1
      to e v = subst (Verdict (b ∷ bs, peer)) (sym e) v

  tasks_of-Served : (ds : List Datagram) → Served ds (tasks_of ds)
  tasks_of-Served [] = done
  tasks_of-Served (d ∷ ds) = one (decode_datagram-Verdict d) (tasks_of-Served ds)

  -- Whatever arrives and however the rounds go, the datagram loop serves the datagrams that it received one at a
  -- time and in order: one that is empty, the connect ping, undecodable, longer than a positive limit, or of which
  -- the decoder takes no byte makes no task; any other makes one, with the package and the peer; none changes
  -- what becomes of the others.
  pub handle_udp_package-Served :
      (net : Net) (closed : ℕ → Bool) (k : ℕ) (c : UdpConn)
      → let r = (handle_udp_package read max net closed k (init_udp_receiver c)).0 in
        Served r.received r.tasks
  handle_udp_package-Served net closed k c =
      let r = (handle_udp_package read max net closed k (init_udp_receiver c)).0 in
      subst (Served r.received) (sym (handle_udp_package-tasks net closed k c))
        (tasks_of-Served r.received)

  decode_long :
      (bs : Bytes) (peer : Option ℕ)
      → 0 < max
      → max < length bs
      → (decode_datagram read max (bs, peer)).1 ≡ []
  unfolding decode_datagram datagram_error
  decode_long [] peer h long = refl
  decode_long (b ∷ bs) peer h long = elim (Option-cases (read (b ∷ bs)).2) [
    | inl e ↦ ground (arith, e, h, long)
    | inr (x, e) ↦ ground (arith, e)
  ]

  -- A datagram beyond the limit makes no task, although the buffer cuts its end off and the decoder may
  -- take what is left for a package; the limit is positive and below 64 KiB.
  decode_datagram-oversized :
      (bs : Bytes) (peer : Option ℕ)
      → 0 < max
      → max < max_udp_read_buffer_size
      → max < length bs
      → (decode_datagram read max (take (udp_read_buffer_size (pos max)) bs, peer)).1 ≡ []
  decode_datagram-oversized bs peer h small long =
      let (_, _, room) = udp_read_buffer_size_lem (pos max) in
      decode_long (take (udp_read_buffer_size (pos max)) bs) peer h
        (ground (arith, long, room small, length-take (udp_read_buffer_size (pos max)) bs))

  -- A session that is closed while a read waits, which times out then, ends its loop with that timeout.
  pub handle_udp_package-stale :
      (net : Net) (closed : ℕ → Bool) (k : ℕ) (r : UdpReceiver P) (bs : Bytes) (peer : Option ℕ)
      (c : UdpConn)
      → closed (suc k) ≡ false
      → closed k ≡ true
      → Udp.recv net r.conn (udp_read_buffer_size (pos max)) ≡ (bs, peer, some (io timeout), c)
      → (handle_udp_package read max net closed (suc (suc k)) r).1 ≡ exited (some (io timeout))
  unfolding handle_udp_package
  handle_udp_package-stale net closed k r bs peer c on off e = ground (arith, on, off, e)
