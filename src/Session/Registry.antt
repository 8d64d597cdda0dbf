-- ===== src/Session/Registry.antt =====
-- internal/session/manager.go: `Acquire`, `Status`, `Close` and the rest, cut where the code
-- unlocks: each function below up to `acquire` is one critical section. What the clock and the
-- calls of other packages answer are arguments.
use shellcn.Prelude.{
  ℕ, suc, ◌+◌, String, Bool, true, false, List, [], ◌∷◌, ◌++◌, Option, none, some, ltb, leb, ◌==◌,
  string_eq, nat_eq, if◌then◌else◌, length,
}
use shellcn.Prelude.Map.{Map, lookup, insert, delete, delete_if}
use shellcn.Session.Types.{
  Key, key_eq, Error, session_closed, session_limit, Result, ok, err, error, Snapshot, Entry,
  Failure, Effect, lease_claimed, lease_released, session_opened, session_shut, Manager,
  snapshot_locked, error_text,
}

-- `e.userID == userID` at an address.
abbrev pub is_owner : String → Option Entry → Bool
is_owner user none = false
is_owner user (some e) = e.user_id == user

unfoldable pub count_user : String → Map Key ℕ → Map ℕ Entry → ℕ
count_user user [] heap = 0
count_user user ((key, e) ∷ rest) heap =
    (if is_owner user (lookup e heap) then 1 else 0) + count_user user rest heap

-- A new entry in the table, with the lease that was claimed for it.
unfoldable pub register : Manager → Key → String → ℕ → Option ℕ → List Effect → Manager
register m key user now lease effects = record m {
  sessions = insert key m.next m.sessions;
  failures = delete key m.failures;
  heap =
      insert m.next
        (record {
          key = key;
          user_id = user;
          sess = none;
          channels = 0;
          streams = 0;
          last_used = now;
          created = now;
          last_health_check = 0;
          reason = "";
          is_closed = false;
          lease = lease;
        })
        m.heap;
  next = suc m.next;
  log = effects ++ m.log;
}

unfoldable pub reserve_new : Manager → Key → String → ℕ → Result ℕ → Manager × Result ℕ
unfolding count_user register
reserve_new m key user now claim =
    if leb m.opts.max_sessions_per_user (count_user user m.sessions m.heap)
    then (m, err session_limit)
    else if m.opts.has_lease_registry
    then elim claim [
      | err e ↦ (m, err e)
      | ok lease ↦ (register m key user now (some lease) (lease_claimed lease ∷ []), ok m.next)
    ]
    else (register m key user now none [], ok m.next)

reserve_over : Manager → Key → String → ℕ → Result ℕ → Option ℕ → Manager × Result ℕ
unfolding reserve_new
reserve_over m key user now claim none = reserve_new m key user now claim
reserve_over m key user now claim (some e) = (m, ok e)

-- The part of `Acquire` under `m.mu`. `claim` is the answer of the lease registry, if asked.
unfoldable pub reserve : Manager → Key → String → ℕ → Result ℕ → Manager × Result ℕ
unfolding reserve_over
reserve m key user now claim = reserve_over m key user now claim (lookup key m.sessions)

-- What is left to do once the entry's lock is released.
pub data Connection : Type 0 where
  borrowed : Connection
  refused : Error → Connection
  broken : Key → Snapshot → Option ℕ → Error → Connection

-- The answers of the outside to one connection attempt, and the instants at which it is asked.
pub record Attempt : Type 0 where
  pub connect : Result ℕ
  pub health : Result (Unit {0})
  pub connected_at : ℕ
  pub used_at : ℕ

-- The entry after a failed attempt: closed, with the reason, and without its lease.
unfoldable pub fail_locked : Entry → Error → ℕ → Entry
fail_locked e x now = record e {
  last_used = now;
  last_health_check = now;
  reason = error_text x;
  is_closed = true;
  lease = none;
}

-- The snapshot is taken before the entry is closed.
unfoldable pub failed_snapshot : Entry → Error → ℕ → Snapshot
unfolding snapshot_locked
failed_snapshot e x now =
    snapshot_locked (record e { last_used = now; last_health_check = now; reason = error_text x })
      (some error)

unfoldable pub store_entry : Manager → ℕ → Entry → List Effect → Manager
store_entry m a e effects = record m { heap = insert a e m.heap; log = effects ++ m.log }

unfoldable pub attempt_open : Manager → ℕ → Entry → Attempt → Manager × Connection
unfolding store_entry fail_locked failed_snapshot
attempt_open m a e t = elim t.connect [
  | err x ↦ (
    store_entry m a (fail_locked e x t.connected_at) [],
    broken e.key (failed_snapshot e x t.connected_at) e.lease x,
  )
  | ok s ↦ elim t.health [
    | err x ↦ (
      store_entry m a (fail_locked e x t.connected_at) (session_shut s ∷ session_opened s ∷ []),
      broken e.key (failed_snapshot e x t.connected_at) e.lease x,
    )
    | ok u ↦ (
      store_entry m a
          (record e {
            sess = some s;
            last_health_check = t.connected_at;
            reason = "";
            last_used = t.used_at;
          })
          (session_opened s ∷ []),
      borrowed,
    )
  ]
]

connect_over : Manager → ℕ → Attempt → Option Entry → Manager × Connection
unfolding attempt_open
connect_over m a t none = (m, refused session_closed)
connect_over m a t (some e) = if e.is_closed then (m, refused session_closed) else elim e.sess [
  | none ↦ attempt_open m a e t
  | some s ↦ (store_entry m a (record e { last_used = t.used_at }) [], borrowed)
]

-- The part of `Acquire` under `e.mu`.
unfoldable pub connect_entry : Manager → ℕ → Attempt → Manager × Connection
unfolding connect_over
connect_entry m a t = connect_over m a t (lookup a m.heap)

-- `if cur, ok := m.sessions[key]; ok && cur == e { delete(m.sessions, key) }`
abbrev pub drop_if_current : Key → ℕ → Option ℕ → Map Key ℕ → Map Key ℕ
drop_if_current key a none table = table
drop_if_current key a (some cur) table = if cur == a then delete key table else table

unfoldable pub remove_and_remember_failure : Manager → Key → ℕ → Snapshot → ℕ → Manager
remove_and_remember_failure m key a snap now = record m {
  sessions = drop_if_current key a (lookup key m.sessions) m.sessions;
  failures =
      insert key (record { snapshot = snap; expires_at = now + m.opts.failure_retention })
        m.failures;
}

unfoldable pub release_lease : Manager → Option ℕ → Manager
release_lease m none = m
release_lease m (some l) = record m { log = lease_released l ∷ m.log }

finish_acquire : ℕ → ℕ → Manager × Connection → Manager × Result ℕ
unfolding remove_and_remember_failure release_lease
finish_acquire a now (m, borrowed) = (m, ok a)
finish_acquire a now (m, refused x) = (m, err x)
finish_acquire a now (m, broken key snap lease x) =
    (release_lease (remove_and_remember_failure m key a snap now) lease, err x)

acquire_over : Attempt → ℕ → Manager × Result ℕ → Manager × Result ℕ
unfolding finish_acquire connect_entry
acquire_over t failed_at (m, err x) = (m, err x)
acquire_over t failed_at (m, ok a) = finish_acquire a failed_at (connect_entry m a t)

-- `Acquire` with no other call between its critical sections. The result is the entry's address.
unfoldable pub acquire : Manager → Key → String → ℕ → Result ℕ → Attempt → ℕ → Manager × Result ℕ
unfolding acquire_over reserve
acquire m key user now claim t failed_at = acquire_over t failed_at (reserve m key user now claim)

-- `Status`: the entry's state, or a remembered failure that has not lapsed.
status_failure : Manager → Key → ℕ → Option Failure → Manager × Option Snapshot
status_failure m key now none = (m, none)
status_failure m key now (some f) =
    if ltb now f.expires_at
    then (m, some f.snapshot)
    else (record m { failures = delete key m.failures }, none)

abbrev pub snapshot_at : Option Entry → Option Snapshot
unfolding snapshot_locked
snapshot_at none = none
snapshot_at (some e) = some (snapshot_locked e none)

status_over : Manager → Key → ℕ → Option ℕ → Manager × Option Snapshot
unfolding status_failure snapshot_at
status_over m key now (some a) = (m, snapshot_at (lookup a m.heap))
status_over m key now none = status_failure m key now (lookup key m.failures)

unfoldable pub status : Manager → Key → ℕ → Manager × Option Snapshot
unfolding status_over
status m key now = status_over m key now (lookup key m.sessions)

-- What `shutdown` does to an entry, and the effects after it unlocks.
abbrev pub shut_effects : Option ℕ → Option ℕ → List Effect
shut_effects none none = []
shut_effects (some s) none = session_shut s ∷ []
shut_effects none (some l) = lease_released l ∷ []
shut_effects (some s) (some l) = lease_released l ∷ session_shut s ∷ []

shutdown_over : Manager → ℕ → Option Entry → Manager
unfolding store_entry
shutdown_over m a none = m
shutdown_over m a (some e) =
    if e.is_closed
    then m
    else store_entry m a (record e { is_closed = true; sess = none; lease = none })
        (shut_effects e.sess e.lease)

unfoldable pub shutdown_entry : Manager → ℕ → Manager
unfolding shutdown_over
shutdown_entry m a = shutdown_over m a (lookup a m.heap)

unfoldable pub shutdown_entries : Manager → List ℕ → Manager
shutdown_entries m [] = m
shutdown_entries m (a ∷ rest) = shutdown_entries (shutdown_entry m a) rest

-- The part of `Close` under `m.mu`.
unfoldable pub unlink : Manager → Key → Manager
unlink m key = record m { sessions = delete key m.sessions; failures = delete key m.failures }

abbrev pub shutdown_found : Manager → Option ℕ → Manager
unfolding shutdown_entry
shutdown_found m none = m
shutdown_found m (some a) = shutdown_entry m a

unfoldable pub close : Manager → Key → Manager
unfolding unlink shutdown_found
close m key = shutdown_found (unlink m key) (lookup key m.sessions)

abbrev pub of_connection {ℓ} : {V : Type ℓ} → String → Key → V → Bool
of_connection connection_id key v = key.connection_id == connection_id

-- The addresses that a `range` loop collects.
unfoldable pub addresses_if : (Key → ℕ → Bool) → Map Key ℕ → List ℕ
addresses_if p [] = []
addresses_if p ((key, a) ∷ rest) =
    let others = addresses_if p rest in if p key a then a ∷ others else others

unfoldable pub close_connection : Manager → String → Manager
unfolding shutdown_entries addresses_if
close_connection m connection_id =
    shutdown_entries
      (record m {
        sessions = delete_if (of_connection connection_id) m.sessions;
        failures = delete_if (of_connection connection_id) m.failures;
      })
      (addresses_if (of_connection connection_id) m.sessions)

-- `Shutdown`, after the janitor has stopped.
unfoldable pub shutdown : Manager → Manager
unfolding shutdown_entries addresses_if
shutdown m =
    shutdown_entries (record m { sessions = []; failures = [] })
      (addresses_if (λ key a. true) m.sessions)

pub record Stats : Type 0 where
  pub sessions : ℕ
  pub channels : ℕ

abbrev pub channels_at : Option Entry → ℕ
channels_at none = 0
channels_at (some e) = e.channels

unfoldable pub sum_channels : Map Key ℕ → Map ℕ Entry → ℕ
sum_channels [] heap = 0
sum_channels ((key, a) ∷ rest) heap = channels_at (lookup a heap) + sum_channels rest heap

unfoldable pub stats : Manager → Stats
unfolding sum_channels
stats m = record { sessions = length m.sessions; channels = sum_channels m.sessions m.heap }
