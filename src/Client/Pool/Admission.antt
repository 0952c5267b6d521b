-- ===== src/Client/Pool/Admission.antt =====
-- What the pool admits, and what becomes of a session that it does not.
use getty.Common.{
  subst, ℕ, suc, ◌≤◌, ◌<◌, ◌≡◌, refl, sym, ◌⊎◌, inl, inr, ◌≢◌, Bool, true, false, not, ◌||◌, Option,
  none, some, List, [], ◌∷◌, leb, length, arith, Option-cases, Bool-cases,
}
use getty.Constants.{EndPointType}
use getty.Options.{ClientOption}
use getty.Session.Lifecycle.{System}
use getty.Session.Lifecycle
use getty.Session.Lifecycle.Stops.{stop-asks, stop-again}
use getty.Client.Pool.{
  Client, World, new_client, client_session_active, is_active, prune, session_num, update_session,
  drop_attributes, member, insert, reject, admit, reject_all, stop,
}

-- The number of sessions in a map, which may be nil.
abbrev pub size : Option (List ℕ) → ℕ
size none = 0
size (some m) = length m

-- The pool holds no more sessions than the client asked for, and a closed client has none.
pub record Inv (c : Client) : Type 0 where
  pub capped : size c.ss_map ≤ c.opts.number
  pub gone : c.done ≡ true → c.ss_map ≡ none
  pub once_done : c.once ≡ c.done

-- A client that could be built asks for at least one connection, and starts within its bounds.
pub new_client-Inv :
    (kind : EndPointType) (opts : List ClientOption) (id : ℕ) {c : Client}
    → new_client kind opts id ≡ some c
    → Inv c × (0 < c.opts.number)
unfolding new_client
new_client-Inv kind opts id e = ground (arith, e)

prune-le : (w : World) (m : List ℕ) → length (prune w m) ≤ length m
unfolding prune
prune-le w [] = omega arith
prune-le w (a ∷ m) = ground (arith, prune-le w m)

insert-le : (a : ℕ) (m : List ℕ) → length (insert a m) ≤ suc (length m)
unfolding insert
insert-le a m = ground arith

pub session_num-Inv : (w : World) → Inv w.client → Inv (session_num w).0.client
unfolding session_num
session_num-Inv w v = elim (Option-cases w.client.ss_map) [
  | inl e ↦ ground (arith, e)
  | inr (m, e) ↦ ground (arith, e, prune-le w m)
]

pub admit-Inv : (a : ℕ) (w : World) → Inv w.client → Inv (admit a w).0.client
unfolding admit
admit-Inv a w v = elim (Option-cases w.client.ss_map) [
  | inl e ↦ ground (arith, e)
  | inr (m, e) ↦ ground (arith, e, prune-le w m, insert-le a (prune w m))
]

pub reject_all-client : (m : List ℕ) (w : World) → (reject_all m w).client ≡ w.client
unfolding reject_all
reject_all-client [] w = refl
reject_all-client (a ∷ m) w = reject_all-client m (update_session a reject w)

pub stop-Inv : (w : World) → Inv w.client → Inv (stop w).client
unfolding stop
stop-Inv w v = elim (Option-cases w.client.ss_map) [
  | inl e ↦ ground (arith, e)
  | inr (m, e) ↦ ground (
    arith,
    e,
    reject_all-client m
        (record w { client = record (w.client) { once = true; done = true; ss_map = none } }),
  )
]

-- Without its attributes a session has no owner that would connect again.
drop_attributes-owner :
    (s : System) → Lifecycle.owner_to_reconnect (drop_attributes s).session ≡ none
unfolding drop_attributes Lifecycle.owner_to_reconnect
drop_attributes-owner s = elim (Option-cases s.session.attrs) [
  | inl e ↦ ground (arith, e)
  | inr (m, e) ↦ ground (arith, e)
]

stop_without_owner :
    (s : System)
    → Lifecycle.owner_to_reconnect s.session ≡ none
    → ((Lifecycle.stop s).reconnects ≡ s.reconnects)
      × ((Lifecycle.stop s).session.done ≡ (s.session.done || not s.session.once))
      × ((Lifecycle.stop s).session.once ≡ true)
stop_without_owner s h = elim (Bool-cases s.session.once) [
  | inl o ↦ ground (arith, o, stop-again s o)
  | inr o ↦ ground (arith, o, stop-asks s none o h)
]

-- `once` and the channel agree, as they do on every session (Session/Lifecycle/Invariant.antt).
abbrev pub IsSettled : System → Type 0
IsSettled s = s.session.once ≡ s.session.done

drop_attributes-same :
    (s : System)
    → ((drop_attributes s).session.once ≡ s.session.once)
      × ((drop_attributes s).session.done ≡ s.session.done)
      × ((drop_attributes s).session.connection ≡ s.session.connection)
      × ((drop_attributes s).reconnects ≡ s.reconnects)
unfolding drop_attributes
drop_attributes-same s = elim (Option-cases s.session.attrs) [
  | inl e ↦ ground (arith, e)
  | inr (m, e) ↦ ground (arith, e)
]

pub reject_lem :
    (s : System)
    → IsSettled s
    → ((reject s).reconnects ≡ s.reconnects)
      × ((reject s).session.done ≡ true)
      × IsSettled (reject s)
unfolding reject
reject_lem s h =
    let owner = drop_attributes-owner s in
    ground (arith, h, drop_attributes-same s, stop_without_owner (drop_attributes s) owner)

-- An admitted session is active and in the map, and no session was touched.
pub record Admitted (a : ℕ) (w w' : World) : Type 0 where
  pub same : w'.sessions ≡ w.sessions
  pub active : is_active w' a ≡ true
  pub map : List ℕ
  pub ss_map : w'.client.ss_map ≡ some map
  pub listed : member a map ≡ true

-- A session that was turned away is inactive, neither its loss nor its close asked for another
-- connection, and no other session was touched.
pub record Refused (a : ℕ) (w w' : World) : Type 0 where
  pub others : (b : ℕ) → b ≢ a → w'.sessions b ≡ w.sessions b
  pub silent : (w'.sessions a).reconnects ≡ (w.sessions a).reconnects
  pub inactive : is_active w' a ≡ false

refuse :
    (a : ℕ) (w : World) (c : Client) (f : System → System)
    → (f (w.sessions a)).reconnects ≡ (w.sessions a).reconnects
    → client_session_active (f (w.sessions a)).session ≡ false
    → Refused a w (update_session a f (record w { client = c }))
unfolding is_active
refuse a w c f silent off = record {
  others = λ b h. ground arith;
  silent = ground (arith, silent);
  inactive = ground (arith, off);
}

reject-Refused :
    (a : ℕ) (w : World) (c : Client)
    → IsSettled (w.sessions a)
    → Refused a w (update_session a reject (record w { client = c }))
unfolding client_session_active
reject-Refused a w c h =
    let (silent, closed, _) = reject_lem (w.sessions a) h in
    refuse a w c reject silent (ground (arith, closed))

drop-Refused :
    (a : ℕ) (w : World) → is_active w a ≡ false → Refused a w (update_session a drop_attributes w)
unfolding client_session_active is_active
drop-Refused a w off =
    let (_, done, conn, silent) = drop_attributes-same (w.sessions a) in
    refuse a w w.client drop_attributes silent (ground (arith, done, conn, off))

member-insert : (a : ℕ) (m : List ℕ) → member a (insert a m) ≡ true
unfolding insert member
member-insert a m = ground arith

insert-Admitted :
    (a : ℕ) (w : World) (m : List ℕ)
    → is_active w a ≡ true
    → Admitted a w (record w { client = record (w.client) { ss_map = some (insert a m) } })
unfolding is_active
insert-Admitted a w m on = record {
  same = refl;
  active = on;
  map = insert a m;
  ss_map = refl;
  listed = member-insert a m;
}

-- How the critical section ended.
abbrev pub Settled : ℕ → World → World × Bool → Type 0
Settled a w (w', ok) = (ok ≡ true) × Admitted a w w' ⊎ (ok ≡ false) × Refused a w w'

settle :
    (a : ℕ) (w : World) {r : World × Bool} → admit a w ≡ r → Settled a w r → Settled a w (admit a w)
settle a w e p = subst (Settled a w) (sym e) p

-- The critical section in which `connect` admits a session that its callback accepted ends in one of two ways: the
-- session is admitted, active and untouched, or it is turned away, and then it is inactive and no other connection
-- was asked for on its account. `once` of the session agrees with its channel, as on every session.
pub admit-settles : (a : ℕ) (w : World) → IsSettled (w.sessions a) → Settled a w (admit a w)
unfolding admit
admit-settles a w h = elim (Option-cases w.client.ss_map) [
  | inl e ↦ settle a w (ground (arith, e)) (inr (refl, reject-Refused a w w.client h))
  | inr (m, e) ↦ elim (Bool-cases (is_active w a)) [
    | inr off ↦ settle a w (ground (arith, e, off)) (inr (refl, drop-Refused a w off))
    | inl on ↦ elim (Bool-cases (leb w.client.opts.number (length (prune w m)))) [
      | inl full ↦
          settle a w (ground (arith, e, on, full))
            (inr (refl, reject-Refused a w (record (w.client) { ss_map = some (prune w m) }) h))
      | inr room ↦
          settle a w (ground (arith, e, on, room)) (inl (refl, insert-Admitted a w (prune w m) on))
    ]
  ]
]
