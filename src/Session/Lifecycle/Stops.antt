-- ===== src/Session/Lifecycle/Stops.antt =====
-- What one `stop` with nothing in between comes to.
use getty.Common.{ℕ, ◌≡◌, refl, true, false, Option, none, some, ◌∷◌, arith, Option-cases, inl, inr}
use getty.Session.Setters.{get_attribute}
use getty.Session.Lifecycle.{
  System, stop_mark, stop_take, stop_shut, stop_call, stop_ask, stop_body, stop, spawn,
  owner_to_reconnect,
}

-- The session before the attributes are read.
abbrev before_ask : System → System
before_ask w = let a = w.session.lifecycle in stop_call a (stop_shut a (stop_take (stop_mark w)))

before_ask_lem :
    (w : System)
    → (owner_to_reconnect (before_ask w).session ≡ owner_to_reconnect w.session)
      × ((before_ask w).reconnects ≡ w.reconnects)
      × ((before_ask w).session.done ≡ true)
      × ((before_ask w).session.once ≡ true)
unfolding owner_to_reconnect get_attribute stop_mark stop_take stop_shut stop_call spawn
before_ask_lem w = (refl, refl, refl, refl)

pub stop-asks :
    (w : System) (o : Option ℕ)
    → w.session.once ≡ false
    → owner_to_reconnect w.session ≡ o
    → ((stop w).reconnects ≡ elim o [ none ↦ w.reconnects | some c ↦ c ∷ w.reconnects ])
      × ((stop w).session.done ≡ true)
      × ((stop w).session.once ≡ true)
unfolding stop stop_body stop_ask
stop-asks w none h e = ground (arith, h, e, before_ask_lem w)
stop-asks w (some c) h e = ground (arith, h, e, before_ask_lem w)

pub stop-again : (w : System) → w.session.once ≡ true → stop w ≡ w
unfolding stop
stop-again w h = ground (arith, h)

pub stop-closes :
    (w : System)
    → w.session.once ≡ false
    → ((stop w).session.done ≡ true)
      × (((stop w).lives w.session.lifecycle).closed ≡ true)
      × ((stop w).fresh ≡ w.fresh)
unfolding stop stop_body stop_mark stop_take stop_shut stop_call stop_ask spawn
stop-closes w o = elim (Option-cases (owner_to_reconnect w.session)) [
  | inl e ↦ ground (arith, o, e)
  | inr (c, e) ↦ ground (arith, o, e)
]
