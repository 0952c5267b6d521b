-- ===== src/Client/Pool/Stop.antt =====
-- `stop`: what becomes of the sessions of the pool.
use getty.Common.{
  ℕ, ◌≡◌, refl, sym, ap, subst, ◌∙◌, inl, inr, true, false, none, some, List, [], ◌∷◌, ◌==◌, arith,
  Bool-cases,
}
use getty.Client.Pool.{
  World, update_session, is_active, client_session_active, member, reject, reject_all, stop,
}
use getty.Client.Pool.Admission.{IsSettled, reject_lem, reject_all-client}

abbrev pub AllSettled : World → Type 0
AllSettled w = (b : ℕ) → IsSettled (w.sessions b)

-- What the rejection of one session does to another, or to itself.
reject_one :
    (b : ℕ) (w : World)
    → AllSettled w
    → (a : ℕ)
    → IsSettled ((update_session b reject w).sessions a)
      × (((update_session b reject w).sessions a).reconnects ≡ (w.sessions a).reconnects)
      × ((w.sessions a).session.done ≡ true
          → ((update_session b reject w).sessions a).session.done ≡ true)
      × (a == b ≡ true → ((update_session b reject w).sessions a).session.done ≡ true)
reject_one b w h a = elim (Bool-cases (a == b)) [
  | inl e ↦ ground (arith, e, h a, reject_lem (w.sessions b) (h b))
  | inr e ↦ ground (arith, e, h a)
]

reject_all_lem :
    (m : List ℕ) (w : World)
    → AllSettled w
    → (a : ℕ)
    → (((reject_all m w).sessions a).reconnects ≡ (w.sessions a).reconnects)
      × ((w.sessions a).session.done ≡ true → ((reject_all m w).sessions a).session.done ≡ true)
      × (member a m ≡ true → ((reject_all m w).sessions a).session.done ≡ true)
unfolding reject_all member
reject_all_lem [] w h a = (refl, λ d. d, λ p. ground (arith, p))
reject_all_lem (b ∷ m) w h a =
    let (_, silent, kept, hit) = reject_one b w h a in
    let (silent', kept', hit') =
      reject_all_lem m (update_session b reject w) (λ c. (reject_one b w h c).0) a in
    (
      silent' ∙ silent,
      λ d. kept' (kept d),
      λ p. elim (Bool-cases (a == b)) [
        | inl e ↦ kept' (hit e)
        | inr e ↦ hit' (ground (arith, e, p))
      ],
    )

abbrev closed : World → World
closed w = record w { client = record (w.client) { once = true; done = true; ss_map = none } }

stop_once :
    (w : World) (m : List ℕ)
    → w.client.once ≡ false
    → w.client.ss_map ≡ some m
    → stop w ≡ reject_all m (closed w)
unfolding stop
stop_once w m first e = ground (arith, first, e)

off : (w : World) (a : ℕ) → (w.sessions a).session.done ≡ true → is_active w a ≡ false
unfolding is_active client_session_active
off w a d = ground (arith, d)

-- What `stop_lem` says of the result.
abbrev pub Emptied : World → List ℕ → World → Type 0
Emptied w m v =
    (v.client.done ≡ true)
    × (v.client.ss_map ≡ none)
    × ((a : ℕ) → member a m ≡ true → is_active v a ≡ false)
    × ((a : ℕ) → (v.sessions a).reconnects ≡ (w.sessions a).reconnects)

-- Closing a client empties its pool for good: the client is closed, the map is gone, every session that
-- was in it is inactive, and no other connection was asked for on account of any session. The sessions
-- are ones that reachable states have: `once` of each agrees with its channel.
pub stop_lem :
    (w : World) (m : List ℕ)
    → w.client.once ≡ false
    → w.client.ss_map ≡ some m
    → AllSettled w
    → Emptied w m (stop w)
stop_lem w m first e h =
    let same = reject_all-client m (closed w) in
    subst (Emptied w m) (sym (stop_once w m first e)) (
      ap (λ c. c.done) same,
      ap (λ c. c.ss_map) same,
      λ a p. off (reject_all m (closed w)) a ((reject_all_lem m (closed w) h a).2 p),
      λ a. (reject_all_lem m (closed w) h a).0,
    )
