-- ===== src/Session/Acquire.antt =====
-- What `Acquire` and `Status` do, on every outcome of the connection attempt.
use shellcn.Prelude.{
  ℕ, ◌+◌, ◌<◌, ◌≡◌, refl, String, true, false, List, [], ◌∷◌, ◌++◌, Option, none, some, arith, ltb,
  nat_eq, beq_refl, if◌then◌else◌,
}
use shellcn.Prelude.Map.{lookup, insert, delete, lookup-insert, lookup-delete}
use shellcn.Session.Types.{
  Key, key_eq, Error, Result, ok, err, error, Entry, Effect, Manager, lease_claimed, lease_released,
  session_opened, session_shut, error_text,
}
use shellcn.Session.Registry.{
  count_user, reserve, Attempt, connect_entry, acquire, status, register, reserve_new, attempt_open,
  fail_locked, failed_snapshot, store_entry, broken, release_lease, remove_and_remember_failure,
}

-- A live entry with a session is shared: no claim, no connection, and only its last use changes.
pub acquire_reuses :
    (m : Manager) (key : Key) (user : String) (now : ℕ) (claim : Result ℕ) (t : Attempt)
    (failed_at a s : ℕ) (e : Entry)
    → lookup key m.sessions ≡ some a
    → lookup a m.heap ≡ some e
    → e.is_closed ≡ false
    → e.sess ≡ some s
    → acquire m key user now claim t failed_at
      ≡ (record m { heap = insert a (record e { last_used = t.used_at }) m.heap }, ok a)
unfolding acquire connect_entry reserve store_entry
acquire_reuses m key user now claim t failed_at a s e at cell up sess =
    rw (at, acquire) (rw (cell, connect_entry) (ground arith))

-- The attempt's error, and what it opened and shut on the way to it.
pub data Breaks (t : Attempt) : Error → List Effect → Type 0 where
  no_connection : (x : Error) → t.connect ≡ err x → Breaks t x []
  no_health :
      (x : Error) (s : ℕ)
      → t.connect ≡ ok s
      → t.health ≡ err x
      → Breaks t x (session_shut s ∷ session_opened s ∷ [])

-- The error, and the entry that it leaves behind.
attempt_open-Breaks :
    (m : Manager) (a : ℕ) (e : Entry) (t : Attempt) (x : Error) (effects : List Effect)
    → Breaks t x effects
    → attempt_open m a e t ≡ (
      store_entry m a (fail_locked e x t.connected_at) effects,
      broken e.key (failed_snapshot e x t.connected_at) e.lease x,
    )
unfolding attempt_open store_entry
attempt_open-Breaks m a e t x effects (no_connection x' p) = rw (p, attempt_open)
attempt_open-Breaks m a e t x effects (no_health x' s p q) = rw (p, attempt_open) (rw q)

-- The entry that `Acquire` makes.
abbrev pub fresh : Key → String → ℕ → Option ℕ → Entry
fresh key user now lease = record {
  key = key;
  user_id = user;
  sess = none;
  channels = 0;
  streams = 0;
  last_used = now;
  created = now;
  last_health_check = 0;
  reason = "";
  is_closed = false;
  lease = lease;
}

-- A user with room, a key with no entry and a granted lease.
pub record Admitted (m : Manager) (key : Key) (user : String) : Type 0 where
  pub absent : lookup key m.sessions ≡ none
  pub room : count_user user m.sessions m.heap < m.opts.max_sessions_per_user
  pub registry : m.opts.has_lease_registry ≡ true

module _ (m : Manager) (key : Key) (user : String) (now lease : ℕ)
    (admitted : Admitted m key user) where
  registered : Manager
  unfolding register
  registered = register m key user now (some lease) (lease_claimed lease ∷ [])

  reserve-Admitted : reserve m key user now (ok lease) ≡ (registered, ok m.next)
  unfolding reserve reserve_new registered
  reserve-Admitted =
      rw (admitted.absent, reserve) (ground (arith, admitted.room, admitted.registry))

  lookup-registered : lookup m.next registered.heap ≡ some (fresh key user now (some lease))
  unfolding registered
  lookup-registered =
      rw (lookup-insert m.next m.next (fresh key user now (some lease)) m.heap, beq_refl m.next)

  acquire-Breaks :
      (t : Attempt) (x : Error) (effects : List Effect) (failed_at : ℕ)
      → Breaks t x effects
      → acquire m key user now (ok lease) t failed_at ≡ (
        release_lease
            (remove_and_remember_failure
              (store_entry registered m.next
                (fail_locked (fresh key user now (some lease)) x t.connected_at)
                effects)
              key
              m.next
              (failed_snapshot (fresh key user now (some lease)) x t.connected_at)
              failed_at)
            (some lease),
        err x,
      )
  unfolding acquire connect_entry
  acquire-Breaks t x effects failed_at b =
      rw (reserve-Admitted, acquire)
        (rw (lookup-registered, connect_entry)
          (rw (
            attempt_open-Breaks registered m.next (fresh key user now (some lease)) t x effects b,
            acquire,
          )))

-- When the upstream cannot be reached or fails its first health check, `Acquire` gives back the
-- error, leaves no entry for the key, shuts what it opened and then releases the lease that it
-- claimed. Until the retention ends `Status` reports the error state with the error's text, and
-- from then on nothing.
pub acquire_failure :
    (m : Manager) (key : Key) (user : String) (now lease : ℕ) (t : Attempt) (x : Error)
    (effects : List Effect) (failed_at later : ℕ)
    → Admitted m key user
    → Breaks t x effects
    → let m' = (acquire m key user now (ok lease) t failed_at).0 in
      ((acquire m key user now (ok lease) t failed_at).1 ≡ err x)
      × (lookup key m'.sessions ≡ none)
      × (m'.log ≡ lease_released lease ∷ effects ++ lease_claimed lease ∷ m.log)
      × ((status m' key later).1 ≡ (
          if ltb later (failed_at + m.opts.failure_retention)
          then some (record {
            key = key;
            user_id = user;
            state = error;
            reason = error_text x;
            channels = 0;
            streams = 0;
            last_used = t.connected_at;
            created_at = now;
            last_health_check = t.connected_at;
          })
          else none))
unfolding registered register release_lease remove_and_remember_failure store_entry status
    failed_snapshot
acquire_failure m key user now lease t x effects failed_at later admitted b =
    rw (acquire-Breaks m key user now lease admitted t x effects failed_at b) (
      rw (lookup-insert key key m.next m.sessions, beq_refl key, beq_refl m.next)
        (rw
          (
            lookup-delete key key (insert key m.next m.sessions),
            beq_refl key,
            lookup-insert key key
                (record {
                  snapshot = failed_snapshot (fresh key user now (some lease)) x t.connected_at;
                  expires_at = failed_at + m.opts.failure_retention;
                })
                (delete key m.failures),
            beq_refl key,
          )
          (refl, refl, refl, ground arith)))
