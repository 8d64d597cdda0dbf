-- ===== src/Session/Preservation.antt =====
-- Every critical section keeps the invariant.
mod Handles
use Handles.{
  track_stream-Inv, release_stream-Inv, reserve_channel-Inv, abandon_channel-Inv, close_channel-Inv,
}
use shellcn.Prelude.{
  ℕ, suc, ◌+◌, ◌≤◌, ◌<◌, ◌≡◌, refl, String, Bool, true, false, not, List, [], ◌∷◌, ◌++◌, Option,
  none, some, arith, ltb, leb, ◌==◌, string_eq, nat_eq, if◌then◌else◌, Option-cases, Bool-cases,
  if_elim, inl, inr,
}
use shellcn.Prelude.Map.{Map, lookup, insert, delete, delete_if}
use shellcn.Session.Types.{
  Key, key_eq, Error, Result, ok, err, Entry, Effect, lease_claimed, Failure, Manager, Snapshot,
  GivenOptions, new,
}
use shellcn.Session.Registry.{
  count_user, reserve, Attempt, connect_entry, remove_and_remember_failure, release_lease,
  shutdown_entry, unlink, reserve_new, attempt_open, of_connection, register, status, fail_locked,
}
use shellcn.Session.Sweep.{prune_failures_locked, failure_lapsed, fail_section}
use shellcn.Session.Handle.{
  track_stream, release_stream, reserve_channel, abandon_channel, close_channel,
}
use shellcn.Session.Invariant.{
  Inv, IsTidy, Fits, Inv-cell, write-Inv, rest-Inv, drop-Inv, drop_if-Inv, clear-Inv, register-Inv,
}
use shellcn.Session.Sections.{
  Section, reserves, connects, remembers, releases, reports, unlinks, unlinks_connection,
  unlinks_all, shuts, prunes, fails, notes_health, tracks, untracks, reserves_channel,
  abandons_channel, closes_channel, perform, run,
}

reserve_new-Inv :
    (m : Manager) (key : Key) (user : String) (now : ℕ) (claim : Result ℕ)
    → Inv m
    → lookup key m.sessions ≡ none
    → Inv (reserve_new m key user now claim).0
unfolding reserve_new
reserve_new-Inv m key user now (err e) v absent =
    elim (Bool-cases (leb m.opts.max_sessions_per_user (count_user user m.sessions m.heap))) [
      | inl full ↦ rw full v
      | inr room ↦
          let free : count_user user m.sessions m.heap < m.opts.max_sessions_per_user =
            ground (arith, room) in
          rw room (elim (Bool-cases m.opts.has_lease_registry) [
            | inl leased ↦ simp leased v
            | inr plain ↦ simp plain (register-Inv m key user now none [] v absent free)
          ])
    ]
reserve_new-Inv m key user now (ok lease) v absent =
    elim (Bool-cases (leb m.opts.max_sessions_per_user (count_user user m.sessions m.heap))) [
      | inl full ↦ rw full v
      | inr room ↦
          let free : count_user user m.sessions m.heap < m.opts.max_sessions_per_user =
            ground (arith, room) in
          rw room (elim (Bool-cases m.opts.has_lease_registry) [
            | inl leased ↦
                simp leased (
                  register-Inv m key user now (some lease) (lease_claimed lease ∷ []) v absent free)
            | inr plain ↦ simp plain (register-Inv m key user now none [] v absent free)
          ])
    ]

reserve-Inv :
    (m : Manager) (key : Key) (user : String) (now : ℕ) (claim : Result ℕ)
    → Inv m
    → Inv (reserve m key user now claim).0
unfolding reserve
reserve-Inv m key user now claim v = elim (Option-cases (lookup key m.sessions)) [
  | inr (a, e) ↦ rw (e, reserve) v
  | inl e ↦ rw (e, reserve) (reserve_new-Inv m key user now claim v e)
]

attempt_open-Inv :
    (m : Manager) (a : ℕ) (e : Entry) (connect : Result ℕ) (health : Result (Unit {0}))
    (connected_at used_at : ℕ)
    → Inv m
    → lookup a m.heap ≡ some e
    → e.is_closed ≡ false
    → e.sess ≡ none
    → Inv
        (attempt_open m a e (record {
          connect = connect;
          health = health;
          connected_at = connected_at;
          used_at = used_at;
        })).0
unfolding attempt_open
attempt_open-Inv m a e (err x) health connected_at used_at v at o n =
    write-Inv m a e (fail_locked e x connected_at) m.failures _ at refl refl
      (Inv-cell m a v at).bounded (λ h. (n, refl)) v
attempt_open-Inv m a e (ok s) (err x) connected_at used_at v at o n =
    write-Inv m a e (fail_locked e x connected_at) m.failures _ at refl refl
      (Inv-cell m a v at).bounded (λ h. (n, refl)) v
attempt_open-Inv m a e (ok s) (ok u) connected_at used_at v at o n =
    write-Inv m a e _ m.failures _ at refl refl (Inv-cell m a v at).bounded (λ h. absurd (cc)) v

connect_entry-Inv : (m : Manager) (a : ℕ) (t : Attempt) → Inv m → Inv (connect_entry m a t).0
unfolding connect_entry
connect_entry-Inv m a t v = elim (Option-cases (lookup a m.heap)) [
  | inl e ↦ rw (e, connect_entry) v
  | inr (x, e) ↦
      rw (e, connect_entry)
        (elim (Bool-cases x.is_closed) [
          | inl shut ↦ rw shut v
          | inr open_now ↦ rw open_now (elim (Option-cases x.sess) [
            | inl n ↦
                rw n (
                  attempt_open-Inv m a x t.connect t.health t.connected_at t.used_at v e open_now n)
            | inr (s, n) ↦ rw n (
                write-Inv m a x _ m.failures _ e refl refl (Inv-cell m a v e).bounded
                  (λ h. absurd (cc)) v)
          ])
        ])
]

remember-Inv :
    (m : Manager) (key : Key) (a : ℕ) (snap : Snapshot) (now : ℕ)
    → Inv m
    → Inv (remove_and_remember_failure m key a snap now)
unfolding remove_and_remember_failure
remember-Inv m key a snap now v = elim (Option-cases (lookup key m.sessions)) [
  | inl e ↦ rw (e, remove_and_remember_failure) (rest-Inv m _ m.log v)
  | inr (cur, e) ↦
      rw (e, remove_and_remember_failure)
        (elim (Bool-cases (cur == a)) [
          | inl same ↦ rw same (drop-Inv m key _ v)
          | inr different ↦ rw different (rest-Inv m _ m.log v)
        ])
]

release_lease-Inv : (m : Manager) (lease : Option ℕ) → Inv m → Inv (release_lease m lease)
unfolding release_lease
release_lease-Inv m none v = v
release_lease-Inv m (some l) v = rest-Inv m m.failures _ v

status-Inv : (m : Manager) (key : Key) (now : ℕ) → Inv m → Inv (status m key now).0
unfolding status
status-Inv m key now v = elim (Option-cases (lookup key m.sessions)) [
  | inr (a, e) ↦ rw (e, status) v
  | inl e ↦
      rw (e, status)
        (elim (Option-cases (lookup key m.failures)) [
          | inl f ↦ rw f v
          | inr (f, at) ↦ rw at (elim (Bool-cases (ltb now f.expires_at)) [
            | inl fresh ↦ rw fresh v
            | inr stale ↦ rw stale (rest-Inv m _ m.log v)
          ])
        ])
]

pub shutdown_entry-Inv : (m : Manager) (a : ℕ) → Inv m → Inv (shutdown_entry m a)
unfolding shutdown_entry
shutdown_entry-Inv m a v = elim (Option-cases (lookup a m.heap)) [
  | inl e ↦ rw (e, shutdown_entry) v
  | inr (x, e) ↦
      rw (e, shutdown_entry)
        (elim (Bool-cases x.is_closed) [
          | inl shut ↦ rw shut v
          | inr open_now ↦ rw open_now (
              write-Inv m a x _ m.failures _ e refl refl (Inv-cell m a v e).bounded
                (λ h. (refl, refl)) v)
        ])
]

fail_section-Inv :
    (m : Manager) (a : ℕ) (x : Error) (checked_at : ℕ)
    → Inv m
    → Inv (fail_section m a x checked_at).0
unfolding fail_section
fail_section-Inv m a x checked_at v = elim (Option-cases (lookup a m.heap)) [
  | inl e ↦ rw (e, fail_section) v
  | inr (y, e) ↦
      rw (e, fail_section)
        (elim (Bool-cases y.is_closed) [
          | inl shut ↦ rw shut v
          | inr open_now ↦ rw open_now (
              write-Inv m a y _ m.failures _ e refl refl (Inv-cell m a v e).bounded
                (λ h. (refl, refl)) v)
        ])
]

note-Inv : (m : Manager) (a checked_at : ℕ) → Inv m → Inv (perform (notes_health a checked_at) m)
unfolding perform
note-Inv m a checked_at v = elim (Option-cases (lookup a m.heap)) [
  | inl e ↦ rw (e, perform) v
  | inr (x, e) ↦
      rw (e, perform)
        (if_elim Inv x.is_closed m _ (λ shut. v)
          λ up.
            write-Inv m a x _ m.failures m.log e refl refl (Inv-cell m a v e).bounded
              (Inv-cell m a v e).tidy v)
]

pub perform-Inv : (s : Section) (m : Manager) → Inv m → Inv (perform s m)
unfolding perform unlink prune_failures_locked
perform-Inv (reserves key user now claim) m v = reserve-Inv m key user now claim v
perform-Inv (connects a t) m v = connect_entry-Inv m a t v
perform-Inv (remembers key a snap now) m v = remember-Inv m key a snap now v
perform-Inv (releases lease) m v = release_lease-Inv m lease v
perform-Inv (reports key now) m v = status-Inv m key now v
perform-Inv (unlinks key) m v = drop-Inv m key _ v
perform-Inv (unlinks_connection id) m v = drop_if-Inv m (of_connection id) _ v
perform-Inv unlinks_all m v = clear-Inv m [] v
perform-Inv (shuts a) m v = shutdown_entry-Inv m a v
perform-Inv (prunes now) m v = rest-Inv m _ m.log v
perform-Inv (fails a x checked_at) m v = fail_section-Inv m a x checked_at v
perform-Inv (notes_health a checked_at) m v = note-Inv m a checked_at v
perform-Inv (tracks a now) m v = track_stream-Inv m a now v
perform-Inv (untracks a now armed) m v = release_stream-Inv m a now armed v
perform-Inv (reserves_channel a now) m v = reserve_channel-Inv m a now v
perform-Inv (abandons_channel a) m v = abandon_channel-Inv m a v
perform-Inv (closes_channel a now armed) m v = close_channel-Inv m a now armed v

new-Inv : (given : GivenOptions) → Inv (new given)
unfolding new count_user
new-Inv given = record {
  table = tt;
  cells = tt;
  linked = tt;
  fit = tt;
  limited = λ user. omega arith;
}

run-Inv : (sections : List Section) (m : Manager) → Inv m → Inv (run sections m)
unfolding run
run-Inv [] m v = v
run-Inv (s ∷ rest) m v = run-Inv rest (perform s m) (perform-Inv s m v)

-- However the critical sections of any calls interleave after a manager is made: no user has more
-- sessions than the limit, every key of the table leads to an entry for that key, no entry has more
-- channels than the limit, and a closed entry holds neither an upstream session nor a lease.
pub run-new-Inv : (given : GivenOptions) (sections : List Section) → Inv (run sections (new given))
run-new-Inv given sections = run-Inv sections (new given) (new-Inv given)
