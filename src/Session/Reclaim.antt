-- ===== src/Session/Reclaim.antt =====
-- What the sweep does with a healthy session, alone and against a stream that starts meanwhile.
use shellcn.Prelude.{
  ℕ, ◌-◌, ◌≡◌, refl, Bool, true, false, ◌&&◌, ◌++◌, none, some, arith, ltb, ◌==◌, nat_eq, beq_refl,
  if◌then◌else◌, Option-cases, Bool-cases, inl, inr,
}
use shellcn.Prelude.Map.{lookup, insert, delete, lookup-insert, lookup-delete}
use shellcn.Session.Types.{key_eq, ok, Entry, Manager}
use shellcn.Session.Registry.{close, unlink, shutdown_entry, store_entry, shut_effects}
use shellcn.Session.Sweep.{look, Round, act, visit}
use shellcn.Session.Handle.{track_stream, put}

-- An open entry with an upstream session, in the table under its key.
pub record IsServing (m : Manager) (a : ℕ) (e : Entry) (s : ℕ) : Type 0 where
  pub at : lookup e.key m.sessions ≡ some a
  pub cell : lookup a m.heap ≡ some e
  pub up : e.is_closed ≡ false
  pub session : e.sess ≡ some s

abbrev pub shut : Entry → Entry
shut e = record e { is_closed = true; sess = none; lease = none }

-- `Close` of a serving entry.
close-IsServing :
    (m : Manager) (a : ℕ) (e : Entry) (s : ℕ)
    → IsServing m a e s
    → close m e.key ≡ record m {
      sessions = delete e.key m.sessions;
      failures = delete e.key m.failures;
      heap = insert a (shut e) m.heap;
      log = shut_effects (some s) e.lease ++ m.log;
    }
unfolding close unlink shutdown_entry store_entry
close-IsServing m a e s v =
    rw (v.at, close) (rw (v.cell, shutdown_entry) (ground (arith, v.up, v.session)))

-- The round finds the lease renewed, or there is none, and the upstream healthy.
pub record IsHealthy (r : Round) : Type 0 where
  pub renewed : r.renewed ≡ ok tt
  pub health : r.health ≡ ok tt

-- Not in use, and unused for longer than the timeout.
abbrev pub is_idle : Manager → Entry → ℕ → Bool
is_idle m e now = e.channels == 0 && e.streams == 0 && ltb m.opts.idle_timeout (now - e.last_used)

act_idle :
    (m m' : Manager) (a : ℕ) (e : Entry) (s : ℕ) (r : Round)
    → IsServing m a e s
    → IsHealthy r
    → is_idle m e r.looked_at ≡ true
    → act m' a (look m e r.looked_at) r ≡ close m' e.key
unfolding act look
act_idle m m' a e s r v h idle = elim (Option-cases e.lease) [
  | inl n ↦ ground (arith, v.up, h.renewed, n, idle)
  | inr (l, n) ↦ ground (arith, v.up, h.renewed, n, idle)
]

act_busy :
    (m : Manager) (a : ℕ) (e : Entry) (s : ℕ) (r : Round)
    → IsServing m a e s
    → IsHealthy r
    → is_idle m e r.looked_at ≡ false
    → act m a (look m e r.looked_at) r ≡ record m {
      heap = insert a (record e { last_health_check = r.checked_at; reason = "" }) m.heap;
    }
unfolding act look
act_busy m a e s r v h busy = elim (Option-cases e.lease) [
  | inl n ↦ ground (arith, v.up, v.session, v.cell, h.renewed, h.health, n, busy)
  | inr (l, n) ↦ ground (arith, v.up, v.session, v.cell, h.renewed, h.health, n, busy)
]

-- One turn of the sweep over a healthy session: if it has no channel and no stream and was last
-- used longer ago than the timeout it is closed, leaves the table, and its upstream session is shut
-- and its lease released; otherwise only its last health check and its reason change.
pub visit_healthy :
    (m : Manager) (a : ℕ) (e : Entry) (s : ℕ) (r : Round)
    → IsServing m a e s
    → IsHealthy r
    → visit m a r ≡ (
        if is_idle m e r.looked_at
        then record m {
          sessions = delete e.key m.sessions;
          failures = delete e.key m.failures;
          heap = insert a (shut e) m.heap;
          log = shut_effects (some s) e.lease ++ m.log;
        }
        else record m {
          heap = insert a (record e { last_health_check = r.checked_at; reason = "" }) m.heap;
        })
unfolding visit
visit_healthy m a e s r v h =
    rw (v.cell, visit)
      (elim (Bool-cases (is_idle m e r.looked_at)) [
        | inl idle ↦ rw (act_idle m m a e s r v h idle, close-IsServing m a e s v, idle)
        | inr busy ↦ rw (act_busy m a e s r v h busy, busy)
      ])

abbrev streaming : Entry → ℕ → Entry
streaming e tracked_at = record e { streams = 1; last_used = tracked_at }

track_stream_lem :
    (m : Manager) (a : ℕ) (e : Entry) (s tracked_at : ℕ)
    → IsServing m a e s
    → e.streams ≡ 0
    → track_stream m a tracked_at ≡ (put m a (streaming e tracked_at), true)
unfolding track_stream
track_stream_lem m a e s tracked_at v n =
    rw (v.cell, track_stream) (ground (arith, v.up, v.session, n))

streaming-IsServing :
    (m : Manager) (a : ℕ) (e : Entry) (s tracked_at : ℕ)
    → IsServing m a e s
    → IsServing (put m a (streaming e tracked_at)) a (streaming e tracked_at) s
streaming-IsServing m a e s tracked_at v = record {
  at = v.at;
  cell = rw (lookup-insert a a (streaming e tracked_at) m.heap, beq_refl a);
  up = v.up;
  session = v.session;
}

-- A stream that starts after the sweep has read the entry as idle, and before it acts, does not
-- save the session: `TrackStream` accepts the stream, and then the sweep closes the entry with that
-- stream on it and shuts the upstream session.
pub act-track_stream :
    (m : Manager) (a : ℕ) (e : Entry) (s tracked_at : ℕ) (r : Round)
    → IsServing m a e s
    → IsHealthy r
    → is_idle m e r.looked_at ≡ true
    → let m' = (track_stream m a tracked_at).0 in
      let m'' = act m' a (look m e r.looked_at) r in
      ((track_stream m a tracked_at).1 ≡ true)
      × (lookup a m''.heap ≡ some (shut (record e { streams = 1; last_used = tracked_at })))
      × (lookup e.key m''.sessions ≡ none)
      × (m''.log ≡ shut_effects (some s) e.lease ++ m.log)
act-track_stream m a e s tracked_at r v h idle =
    rw
      (
        track_stream_lem m a e s tracked_at v (ground (arith, idle)),
        act_idle m (put m a (streaming e tracked_at)) a e s r v h idle,
        close-IsServing (put m a (streaming e tracked_at)) a (streaming e tracked_at) s
            (streaming-IsServing m a e s tracked_at v),
      )
      (
        refl,
        rw (lookup-insert a a (shut (streaming e tracked_at)) _, beq_refl a),
        rw (lookup-delete e.key e.key m.sessions, beq_refl e.key),
        refl,
      )
