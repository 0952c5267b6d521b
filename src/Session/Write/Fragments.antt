-- ===== src/Session/Write/Fragments.antt =====
-- The loop of `WriteBytes`: enough fuel, the bytes that leave, and the size of each fragment.
use getty.Common.{
  ℕ, zero, suc, ◌+◌, ◌-◌, ◌/◌, ◌≤◌, ◌<◌, ◌≡◌, refl, sym, ◌∙◌, ap, inl, inr, Option, none, some,
  ◌++◌, length, take, drop, append_assoc, append-nil, length-drop, length-take, take-append-take,
  take-take, Bool, Bool-cases, arith, ltb, ltb→lt, ◌==◌,
}
use mathlib.Core.Path.{ap₂, ◌≡⟨◌⟩◌, ◌∎}
use getty.Errors.{Error}
use getty.Connection.Net.{Bytes, bytes, Net, IsWriter}
use getty.Connection.Tcp.{TcpConn}
use getty.Connection.Tcp
use getty.Connection.Tcp.Delivery.{Delivers, send-Delivers}
use getty.Connection.Conn.{Conn, tcp}
use getty.Connection.Conn
use getty.Session.State.{max_packet_len}
use getty.Session.Write.{write_fragments, rounds}

-- The outcome of a write of `pkg` from `c` on: a result, which is a tcp connection again, and which
-- has the confirmed prefix behind what it had.
abbrev pub Wrote : TcpConn → Bytes → Option (ℕ × Option Error × Conn) → Type 0
Wrote c pkg r =
    (n : ℕ) × (e : Option Error) × (c' : TcpConn) × (r ≡ some (n, e, tcp c'))
    × Delivers c pkg n e c'

-- A cut that was written behind the first `sent` bytes.
advance :
    (c₀ c c' : TcpConn) (pkg cut : Bytes) (sent n : ℕ)
    → c.delivered ≡ c₀.delivered ++ take sent pkg
    → c'.delivered ≡ c.delivered ++ take n cut
    → take n cut ≡ take n (drop sent pkg)
    → c'.delivered ≡ c₀.delivered ++ take (sent + n) pkg
advance c₀ c c' pkg cut sent n before after same =
    c'.delivered
    ≡⟨ after ⟩ c.delivered ++ take n cut
    ≡⟨ ap₂ ◌++◌ before same ⟩ (c₀.delivered ++ take sent pkg) ++ take n (drop sent pkg)
    ≡⟨ append_assoc c₀.delivered (take sent pkg) (take n (drop sent pkg)) ⟩
      c₀.delivered ++ (take sent pkg ++ take n (drop sent pkg))
    ≡⟨ ap (λ t. c₀.delivered ++ t) (take-append-take sent n pkg) ⟩
      c₀.delivered ++ take (sent + n) pkg ∎

module _ (net : Net) (w : IsWriter net) (u : Bool) (c₀ : TcpConn) (pkg : Bytes) where
  abbrev Behind : ℕ → TcpConn → Type 0
  Behind sent c =
      (c.delivered ≡ c₀.delivered ++ take sent pkg) × (c.codec_enabled ≡ c₀.codec_enabled)

  -- The fragment of a round: it appends what it confirms, and all of it where there is no error.
  fragment :
      (sent left : ℕ) (c : TcpConn)
      → sent + left ≡ length pkg
      → max_packet_len < left
      → Behind sent c
      → let s = Tcp.send net c (bytes (take max_packet_len (drop sent pkg))) in
        Behind (sent + s.0) s.2 × (s.0 ≤ max_packet_len) × (s.1 ≡ none → s.0 ≡ max_packet_len)
  fragment sent left c total more (behind, same) =
      let cut = take max_packet_len (drop sent pkg) in
      let s = Tcp.send net c (bytes cut) in
      let d = send-Delivers net w c (bytes cut) in
      let len = length-take max_packet_len (drop sent pkg) in
      let rest = length-drop sent pkg in
      let small : s.0 ≤ max_packet_len = omega (arith, d.within, len) in
      (
        (
          advance c₀ c s.2 pkg cut sent s.0 behind d.appended
              (take-take s.0 max_packet_len (drop sent pkg) small),
          d.same_codec ∙ same,
        ),
        small,
        λ e. omega (arith, d.complete e, len, rest),
      )

  -- The last write: what is left of the package.
  remainder :
      (sent left : ℕ) (c : TcpConn)
      → sent + left ≡ length pkg
      → Behind sent c
      → let s = Tcp.send net c (bytes (drop sent pkg)) in
        Behind (sent + s.0) s.2 × (s.0 ≤ left) × (s.1 ≡ none → s.0 ≡ left)
  remainder sent left c total (behind, same) =
      let s = Tcp.send net c (bytes (drop sent pkg)) in
      let d = send-Delivers net w c (bytes (drop sent pkg)) in
      let rest = length-drop sent pkg in
      (
        (advance c₀ c s.2 pkg (drop sent pkg) sent s.0 behind d.appended refl, d.same_codec ∙ same),
        omega (arith, d.within, rest),
        λ e. omega (arith, d.complete e, rest),
      )

  stopped :
      (n : ℕ) (e : Option Error) (c : TcpConn)
      → Behind n c
      → n ≤ length pkg
      → (e ≡ none → n ≡ length pkg)
      → Delivers c₀ pkg n e c
  stopped n e c b h k = record { appended = b.0; within = h; complete = k; same_codec = b.1 }

  -- The write behind the loop.
  abbrev last_of : ℕ → ℕ × Option Error × TcpConn → Option (ℕ × Option Error × Conn)
  last_of sent (n, e, c) = elim e [
    | some x ↦ some (sent + n, some x, tcp c)
    | none ↦ some (length pkg, none, tcp c)
  ]

  last_of-Wrote :
      (left sent : ℕ) (s : ℕ × Option Error × TcpConn)
      → sent + left ≡ length pkg
      → Behind (sent + s.0) s.2 × (s.0 ≤ left) × (s.1 ≡ none → s.0 ≡ left)
      → Wrote c₀ pkg (last_of sent s)
  last_of-Wrote left sent (n, some x, c) total (b, h, k) =
      (sent + n, some x, c, refl, stopped (sent + n) (some x) c b (omega arith) (λ e. cc))
  last_of-Wrote left sent (n, none, c) total (b, h, k) =
      let all : sent + n ≡ length pkg = omega (arith, k refl) in
      (
        length pkg,
        none,
        c,
        refl,
        stopped (length pkg) none c (rw all at b) (omega arith) (λ e. refl),
      )

  -- A round of the loop, given what the rounds behind it do.
  abbrev next_of :
      ℕ
      → ℕ × Option Error × TcpConn
      → Option (ℕ × Option Error × Conn)
      → Option (ℕ × Option Error × Conn)
  next_of sent (n, e, c) rest = elim e [ some x ↦ some (sent + n, some x, tcp c) | none ↦ rest ]

  next_of-Wrote :
      (left sent : ℕ) (s : ℕ × Option Error × TcpConn) (rest : Option (ℕ × Option Error × Conn))
      → sent + left ≡ length pkg
      → max_packet_len < left
      → Behind (sent + s.0) s.2 × (s.0 ≤ max_packet_len) × (s.1 ≡ none → s.0 ≡ max_packet_len)
      → (Behind (sent + max_packet_len) s.2 → Wrote c₀ pkg rest)
      → Wrote c₀ pkg (next_of sent s rest)
  next_of-Wrote left sent (n, some x, c) rest total more (b, h, k) ih =
      (sent + n, some x, c, refl, stopped (sent + n) (some x) c b (omega arith) (λ e. cc))
  next_of-Wrote left sent (n, none, c) rest total more (b, h, k) ih = ih (rw (k refl) at b)

  write_fragments-Wrote :
      (fuel left sent : ℕ) (c : TcpConn)
      → left / max_packet_len < fuel
      → sent + left ≡ length pkg
      → Behind sent c
      → Wrote c₀ pkg (write_fragments fuel net u pkg left sent (tcp c))
  unfolding write_fragments Conn.send
  write_fragments-Wrote zero left sent c enough total b = absurd (omega arith)
  write_fragments-Wrote (suc fuel) left sent c enough total b =
      elim (Bool-cases (ltb max_packet_len left)) [
        | inl more ↦
            let above = ltb→lt max_packet_len left more in
            rw more (
              next_of-Wrote left sent _ _ total above (fragment sent left c total above b) (
                write_fragments-Wrote fuel (left - max_packet_len) (sent + max_packet_len) _
                  (omega arith) (omega arith)))
        | inr fits ↦ rw fits (elim (Bool-cases (left == 0)) [
          | inl done ↦
              rw done (sent, none, c, refl, stopped sent none c b (omega arith) (λ e. ground arith))
          | inr some_left ↦
              rw some_left (last_of-Wrote left sent _ total (remainder sent left c total b))
        ])
      ]

  -- The fuel of `WriteBytes` is enough, whatever the connection answers.
  pub all_fragments-Wrote :
      Wrote c₀ pkg (write_fragments (rounds pkg) net u pkg (length pkg) 0 (tcp c₀))
  all_fragments-Wrote =
      write_fragments-Wrote (rounds pkg) (length pkg) 0 c₀ (omega arith) (omega arith)
        (sym (append-nil c₀.delivered), refl)
