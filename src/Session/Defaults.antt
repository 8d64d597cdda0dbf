-- ===== src/Session/Defaults.antt =====
-- What `withDefaults` guarantees, whatever the caller gives.
use shellcn.Prelude.{ℕ, ◌≤◌, ◌<◌, arith, nat_eq}
use shellcn.Prelude.Int.{ℤ, pos, negsuc}
use shellcn.Session.Types.{GivenOptions, with_defaults, or_default, renewal}

or_default_pos : (given : ℤ) (fallback : ℕ) → 0 < fallback → 0 < or_default given fallback
or_default_pos (pos n) fallback h = ground arith
or_default_pos (negsuc n) fallback h = h

renewal-lt : (given : ℤ) (ttl : ℕ) → 0 < ttl → renewal given ttl < ttl
renewal-lt (pos n) ttl h = ground arith
renewal-lt (negsuc n) ttl h = omega arith

renewal_pos : (given : ℤ) (ttl : ℕ) → 3 ≤ ttl → 0 < renewal given ttl
renewal_pos (pos n) ttl h = ground arith
renewal_pos (negsuc n) ttl h = omega arith

-- Every limit and every duration is positive, and a lease is renewed before it lapses. The renewal
-- interval is positive too unless the lease's lifetime is under three nanoseconds.
pub with_defaults_bounds :
    (o : GivenOptions)
    → let d = with_defaults o in
      (0 < d.idle_timeout)
      × (0 < d.max_sessions_per_user)
      × (0 < d.max_channels_per_session)
      × (0 < d.health_interval)
      × (0 < d.failure_retention)
      × (d.renew_interval < d.lease_ttl)
      × (3 ≤ d.lease_ttl → 0 < d.renew_interval)
unfolding with_defaults
with_defaults_bounds o = (
  or_default_pos o.idle_timeout 900000000000 (omega arith),
  or_default_pos o.max_sessions_per_user 50 (omega arith),
  or_default_pos o.max_channels_per_session 20 (omega arith),
  or_default_pos o.health_interval 30000000000 (omega arith),
  or_default_pos o.failure_retention 120000000000 (omega arith),
  renewal-lt o.renew_interval _ (or_default_pos o.lease_ttl 15000000000 (omega arith)),
  renewal_pos o.renew_interval _,
)
