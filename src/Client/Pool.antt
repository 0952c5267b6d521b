-- ===== src/Client/Pool.antt =====
-- The state of a client, and its critical sections on the pool.
pub mod Admission
pub mod Stop
use getty.Common.{
  foldl, ℕ, zero, suc, ◌≤◌, ◌≡◌, Bool, true, false, not, ◌&&◌, ◌||◌, Option, none, some, List, [],
  ◌∷◌, ◌==◌, leb, if◌then◌else◌, length, is_some,
}
use getty.Constants.{EndPointType, tcp_client}
use text.Mathlib.Text.{◌==◌ as str_eq}
use getty.Options.{ClientOption, ClientOptions, no_client_options}
use getty.Session.State.{Session, session_client_key, ignore_reconnect_key, owner, flag}
use getty.Session.Setters.{set_attribute, remove_attribute}
use getty.Session.Lifecycle.{System}
use getty.Session.Lifecycle

-- Sessions are references: a number for each. `ss_map` is `none` when the map is nil; its keys are in
-- no order that the code depends on. `reconnect_done` says that a reconnect loop runs, `once` that the
-- body of `stop` has run, `done` that the channel is closed.
pub record Client : Type 0 where
  pub id : ℕ
  pub opts : ClientOptions
  pub ss_map : Option (List ℕ)
  pub reconnect_done : Bool
  pub reconnect_pending : Bool
  pub done : Bool
  pub once : Bool

pub record World : Type 0 where
  pub client : Client
  pub sessions : ℕ → System

-- `init`: each option changes what the ones before it left.
unfoldable pub init : List ClientOption → ClientOptions
init opts = foldl (λ o f. f o) no_client_options opts

-- `newClient`: it panics on a connection number below 1, on an empty address, and on a TLS client of
-- TCP without the builder of its configuration.
unfoldable pub new_client : EndPointType → List ClientOption → ℕ → Option Client
new_client kind opts id =
    let o = init opts in
    if leb o.number 0 || str_eq o.addr ""
    then none
    else if (kind == tcp_client) && o.ssl_enabled && not (is_some o.tls_config_builder)
    then none
    else (some (record {
      id = id;
      opts = o;
      ss_map = some [];
      reconnect_done = false;
      reconnect_pending = false;
      done = false;
      once = false;
    }))

-- `clientSessionActive`.
unfoldable pub client_session_active : Session → Bool
client_session_active s = is_some s.connection && not s.done

unfoldable pub is_active : World → ℕ → Bool
unfolding client_session_active
is_active w a = client_session_active (w.sessions a).session

-- The loop that deletes the inactive sessions from the map.
unfoldable pub prune : World → List ℕ → List ℕ
prune w [] = []
prune w (a ∷ m) = let rest = prune w m in if is_active w a then a ∷ rest else rest

-- `sessionNum`.
unfoldable pub session_num : World → World × ℕ
session_num w = elim w.client.ss_map [
  | none ↦ (w, 0)
  | some m ↦
      let kept = prune w m in
      (record w { client = record (w.client) { ss_map = some kept } }, length kept)
]

abbrev pub update_session : ℕ → (System → System) → World → World
update_session a f w = record w {
  sessions = λ b. if b == a then f (w.sessions a) else w.sessions b;
}

-- `ss.RemoveAttribute` of the two keys.
unfoldable pub drop_attributes : System → System
unfolding remove_attribute
drop_attributes w = record w {
  session = remove_attribute ignore_reconnect_key (remove_attribute session_client_key w.session);
}

-- What `connect` sets on a session before it runs.
unfoldable pub own : ℕ → System → System
unfolding set_attribute
own c w = record w {
  session =
      set_attribute ignore_reconnect_key (flag false)
        (set_attribute session_client_key (owner c) w.session);
}

unfoldable pub member : ℕ → List ℕ → Bool
member a [] = false
member a (b ∷ m) = let rest = member a m in if a == b then true else rest

-- `c.ssMap[ss] = struct{}{}`.
unfoldable pub insert : ℕ → List ℕ → List ℕ
unfolding member
insert a m = if member a m then m else a ∷ m

-- The loss of a session that finds no place: its attributes go first, so that closing it asks for no
-- other connection.
unfoldable pub reject : System → System
unfolding drop_attributes
reject s = Lifecycle.stop (drop_attributes s)

-- The end of `connect`, behind `run`: the critical section that admits the session, and the `Close` of
-- one that is rejected. The result says whether it was admitted.
unfoldable pub admit : ℕ → World → World × Bool
admit a w = elim w.client.ss_map [
  | none ↦ (update_session a reject w, false)
  | some m ↦
      let kept = prune w m in
      let pruned = record w { client = record (w.client) { ss_map = some kept } } in
      if not (is_active w a)
      then (update_session a drop_attributes w, false)
      else if leb w.client.opts.number (length kept)
      then (update_session a reject pruned, false)
      else (record w { client = record (w.client) { ss_map = some (insert a kept) } }, true)
]

-- The loop of `stop` over the sessions.
unfoldable pub reject_all : List ℕ → World → World
reject_all [] w = w
reject_all (a ∷ m) w = reject_all m (update_session a reject w)

-- `stop`, and `Close`.
unfoldable pub stop : World → World
unfolding reject_all
stop w =
    if w.client.once
    then w
    else (let closed = record w {
      client = record (w.client) { once = true; done = true; ss_map = none };
    } in
        elim w.client.ss_map [ none ↦ closed | some m ↦ reject_all m closed ])
