-- ===== src/Session/Preservation/Handles.antt =====
-- The sections of a handle keep the invariant.
use shellcn.Prelude.{
  ℕ, ◌+◌, ◌-◌, ◌≤◌, ◌≡◌, refl, Bool, true, false, Option, none, some, arith, ltb, leb, nat_eq,
  if◌then◌else◌, Option-cases, Bool-cases, if_elim, inl, inr,
}
use shellcn.Prelude.Map.{lookup}
use shellcn.Session.Types.{Entry, Manager, Result}
use shellcn.Session.Handle.{
  track_stream, release_stream, reserve_channel, reserve_guards, abandon_channel, close_channel,
  unusable, put,
}
use shellcn.Session.Invariant.{Inv, Inv-cell, write-Inv}

-- A write that leaves the session, the lease, the key and the user of an entry alone.
put-Inv :
    (m : Manager) (a : ℕ) (e : Entry) (channels streams last_used : ℕ)
    → Inv m
    → lookup a m.heap ≡ some e
    → channels ≤ m.opts.max_channels_per_session
    → Inv (put m a (record e { channels = channels; streams = streams; last_used = last_used }))
put-Inv m a e channels streams last_used v at n =
    write-Inv m a e _ m.failures m.log at refl refl n (Inv-cell m a v at).tidy v

pub track_stream-Inv : (m : Manager) (a now : ℕ) → Inv m → Inv (track_stream m a now).0
unfolding track_stream
track_stream-Inv m a now v = elim (Option-cases (lookup a m.heap)) [
  | inl e ↦ rw (e, track_stream) v
  | inr (x, e) ↦
      rw (e, track_stream)
        (elim (Bool-cases (unusable x)) [
          | inl off ↦ rw off v
          | inr on ↦
              rw on (put-Inv m a x x.channels (x.streams + 1) now v e (Inv-cell m a v e).bounded)
        ])
]

pub release_stream-Inv :
    (m : Manager) (a now : ℕ) (armed : Bool) → Inv m → Inv (release_stream m a now armed).0
unfolding release_stream
release_stream-Inv m a now false v = v
release_stream-Inv m a now true v = elim (Option-cases (lookup a m.heap)) [
  | inl e ↦ rw (e, release_stream) v
  | inr (x, e) ↦
      rw (e, release_stream)
        (put-Inv m a x x.channels (if ltb 0 x.streams then x.streams - 1 else x.streams) now v e
          (Inv-cell m a v e).bounded)
]

reserve_guards-Inv :
    (m : Manager) (a now : ℕ) (x : Entry) (sess : Option ℕ)
    → Inv m
    → lookup a m.heap ≡ some x
    → Inv (reserve_guards m a now x sess).0
unfolding reserve_guards
reserve_guards-Inv m a now x none v e = v
reserve_guards-Inv m a now x (some s) v e =
    if_elim (λ (r : Manager × Result ℕ). Inv r.0) x.is_closed _ _ (λ shut. v)
      λ up.
        if_elim (λ (r : Manager × Result ℕ). Inv r.0)
          (leb m.opts.max_channels_per_session x.channels) _ _ (λ full. v)
          λ room. put-Inv m a x (x.channels + 1) x.streams now v e (ground (arith, room))

pub reserve_channel-Inv : (m : Manager) (a now : ℕ) → Inv m → Inv (reserve_channel m a now).0
unfolding reserve_channel
reserve_channel-Inv m a now v = elim (Option-cases (lookup a m.heap)) [
  | inl e ↦ rw (e, reserve_channel) v
  | inr (x, e) ↦ rw (e, reserve_channel) (reserve_guards-Inv m a now x x.sess v e)
]

pub abandon_channel-Inv : (m : Manager) (a : ℕ) → Inv m → Inv (abandon_channel m a)
unfolding abandon_channel
abandon_channel-Inv m a v = elim (Option-cases (lookup a m.heap)) [
  | inl e ↦ rw (e, abandon_channel) v
  | inr (x, e) ↦
      rw (e, abandon_channel)
        (put-Inv m a x (x.channels - 1) x.streams x.last_used v e
          (omega (arith, (Inv-cell m a v e).bounded)))
]

pub close_channel-Inv :
    (m : Manager) (a now : ℕ) (armed : Bool) → Inv m → Inv (close_channel m a now armed).0
unfolding close_channel
close_channel-Inv m a now false v = v
close_channel-Inv m a now true v = elim (Option-cases (lookup a m.heap)) [
  | inl e ↦ rw (e, close_channel) v
  | inr (x, e) ↦
      rw (e, close_channel)
        (put-Inv m a x (if ltb 0 x.channels then x.channels - 1 else x.channels) x.streams now v e
          (ground (arith, (Inv-cell m a v e).bounded)))
]
