-- ===== src/Session/Sweep.antt =====
-- internal/session/manager.go: the janitor's `sweep`, `failEntry` and `pruneFailuresLocked`. The
-- sweep reads an entry under its lock, and acts on what it read after unlocking.
use shellcn.Prelude.{
  ℕ, ◌-◌, Bool, true, not, ◌&&◌, List, [], ◌∷◌, ◌++◌, Option, none, some, ltb, ◌==◌, nat_eq,
  if◌then◌else◌,
}
use shellcn.Prelude.Map.{lookup, insert, delete_if}
use shellcn.Session.Types.{
  Key, key_eq, Error, Result, ok, err, Entry, Failure, Manager, error_text, Snapshot,
}
use shellcn.Session.Registry.{
  close, remove_and_remember_failure, failed_snapshot, shut_effects, addresses_if,
}

-- `!now.Before(f.expiresAt)`
abbrev pub failure_lapsed : ℕ → Key → Failure → Bool
failure_lapsed now key f = not (ltb now f.expires_at)

unfoldable pub prune_failures_locked : Manager → ℕ → Manager
prune_failures_locked m now = record m { failures = delete_if (failure_lapsed now) m.failures }

-- The critical section of `failEntry`, and what is left to do after it.
fail_over : Manager → ℕ → Error → ℕ → Option Entry → Manager × Option (Key × Snapshot)
unfolding failed_snapshot
fail_over m a x checked_at none = (m, none)
fail_over m a x checked_at (some e) = if e.is_closed then (m, none) else (
  record m {
    heap =
        insert a
          (record e {
            last_used = checked_at;
            last_health_check = checked_at;
            reason = error_text x;
            is_closed = true;
            sess = none;
            lease = none;
          })
          m.heap;
    log = shut_effects e.sess e.lease ++ m.log;
  },
  some (e.key, failed_snapshot e x checked_at),
)

unfoldable pub fail_section : Manager → ℕ → Error → ℕ → Manager × Option (Key × Snapshot)
unfolding fail_over
fail_section m a x checked_at = fail_over m a x checked_at (lookup a m.heap)

abbrev pub remember : ℕ → ℕ → Manager × Option (Key × Snapshot) → Manager
remember a now (m, none) = m
remember a now (m, some (key, snap)) = remove_and_remember_failure m key a snap now

unfoldable pub fail_entry : Manager → ℕ → Error → ℕ → ℕ → Manager
unfolding fail_section remove_and_remember_failure
fail_entry m a x checked_at now = remember a now (fail_section m a x checked_at)

-- What the sweep reads of an entry under its lock. Instants are compared as in
-- `now.Sub(e.lastUsed) > IdleTimeout`, whose difference is not positive before `last_used`.
pub record Look : Type 0 where
  pub idle : Bool
  pub sess : Option ℕ
  pub is_closed : Bool
  pub lease : Option ℕ
  pub key : Key

unfoldable pub look : Manager → Entry → ℕ → Look
look m e now = record {
  idle = e.channels == 0 && e.streams == 0 && ltb m.opts.idle_timeout (now - e.last_used);
  sess = e.sess;
  is_closed = e.is_closed;
  lease = e.lease;
  key = e.key;
}

-- The answers of the lease and of the upstream to one round, and the instants read.
pub record Round : Type 0 where
  pub renewed : Result (Unit {0})
  pub health : Result (Unit {0})
  pub looked_at : ℕ
  pub checked_at : ℕ
  pub failed_at : ℕ

-- A passed health check is noted unless the entry was closed meanwhile.
note_health : Manager → ℕ → ℕ → Option Entry → Manager
note_health m a checked_at none = m
note_health m a checked_at (some e) = if e.is_closed then m else record m {
  heap = insert a (record e { last_health_check = checked_at; reason = "" }) m.heap;
}

check_health : Manager → ℕ → Look → Round → Manager
unfolding fail_entry note_health
check_health m a l r = elim l.sess [
  | none ↦ m
  | some s ↦ elim r.health [
    | err x ↦ fail_entry m a x r.checked_at r.failed_at
    | ok u ↦ note_health m a r.checked_at (lookup a m.heap)
  ]
]

after_renewal : Manager → ℕ → Look → Round → Manager
unfolding check_health close
after_renewal m a l r = if l.idle then close m l.key else check_health m a l r

-- What the sweep does with what it read.
unfoldable pub act : Manager → ℕ → Look → Round → Manager
unfolding after_renewal fail_entry
act m a l r = if l.is_closed then m else elim l.lease [
  | none ↦ after_renewal m a l r
  | some lease ↦ elim r.renewed [
    | err x ↦ fail_entry m a x r.checked_at r.failed_at
    | ok u ↦ after_renewal m a l r
  ]
]

visit_over : Manager → ℕ → Round → Option Entry → Manager
unfolding look act
visit_over m a r none = m
visit_over m a r (some e) = act m a (look m e r.looked_at) r

-- One turn of the loop, with no other call between the reading and the acting.
unfoldable pub visit : Manager → ℕ → Round → Manager
unfolding visit_over
visit m a r = visit_over m a r (lookup a m.heap)

unfoldable pub visit_all : (ℕ → Round) → Manager → List ℕ → Manager
unfolding visit
visit_all rounds m [] = m
visit_all rounds m (a ∷ rest) = visit_all rounds (visit m a (rounds a)) rest

unfoldable pub sweep : Manager → ℕ → (ℕ → Round) → Manager
unfolding visit_all prune_failures_locked addresses_if
sweep m now rounds =
    visit_all rounds (prune_failures_locked m now) (addresses_if (λ key a. true) m.sessions)
