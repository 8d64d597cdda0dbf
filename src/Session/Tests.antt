-- ===== src/Session/Tests.antt =====
-- Runs of the session registry, and the theorems about it at concrete inputs.
use shellcn.Prelude.{ℕ, ◌≡◌, refl, ap, true, false, [], ◌∷◌, some, arith, nat_eq}
use shellcn.Prelude.Int.{pos, negsuc}
use shellcn.Prelude.Map.{lookup, insert, delete}
use shellcn.Session.Types.{
  Key, key_eq, Error, other, ok, err, GivenOptions, with_defaults, new, Entry, Manager,
  session_opened, session_shut, lease_claimed, lease_released,
}
use shellcn.Session.Registry.{acquire, Attempt, reserve, connect_entry, count_user}
use shellcn.Session.Sweep.{Round, visit, look, act}
use shellcn.Session.Handle.{track_stream}
use shellcn.Session.Sections.{reserves, connects, shuts, run}
use shellcn.Session.Invariant.{Inv}
use shellcn.Session.Preservation.{run-new-Inv}
use shellcn.Session.Acquire.{acquire_failure, Admitted, no_health}
use shellcn.Session.Reclaim.{visit_healthy, act-track_stream, IsServing, IsHealthy, shut}

abbrev given : GivenOptions
given = record {
  idle_timeout = pos 100;
  max_sessions_per_user = pos 1;
  max_channels_per_session = negsuc 4;
  health_interval = pos 0;
  failure_retention = pos 50;
  has_lease_registry = true;
  lease_ttl = pos 9;
  renew_interval = pos 9;
}

abbrev web : Key
web = record { connection_id = "c1"; actor_scope = "user:ann" }

abbrev db : Key
db = record { connection_id = "c2"; actor_scope = "user:ann" }

abbrev up : Attempt
up = record { connect = ok 7; health = ok tt; connected_at = 3; used_at = 4 }

abbrev sick : Attempt
sick = record { connect = ok 7; health = err (other "no answer"); connected_at = 3; used_at = 4 }

-- A second key of one user is over the limit of one.
over_limit :
    (reserve (acquire (new given) web "ann" 1 (ok 5) up 9).0 db "ann" 2 (ok 6)).1
    ≡ err Error.session_limit
unfolding acquire new reserve lookup insert connect_entry delete count_user
over_limit = refl

abbrev entry : Entry
entry = record {
  key = web;
  user_id = "ann";
  sess = some 7;
  channels = 0;
  streams = 0;
  last_used = 4;
  created = 1;
  last_health_check = 3;
  reason = "";
  is_closed = false;
  lease = some 5;
}

abbrev serving : Manager
unfolding with_defaults
serving = record {
  sessions = (web, 0) ∷ [];
  failures = [];
  opts = with_defaults given;
  heap = (0, entry) ∷ [];
  next = 1;
  log = [];
}

run-new-Inv_example :
    Inv (run (reserves web "ann" 1 (ok 5) ∷ connects 0 up ∷ shuts 0 ∷ []) (new given))
run-new-Inv_example = run-new-Inv given (reserves web "ann" 1 (ok 5) ∷ connects 0 up ∷ shuts 0 ∷ [])

roomy : Admitted (new given) web "ann"
unfolding new lookup count_user with_defaults
roomy = record { absent = refl; room = omega arith; registry = refl }

acquire_failure_example :
    (acquire (new given) web "ann" 1 (ok 5) sick 9).0.log
    ≡ lease_released 5 ∷ session_shut 7 ∷ session_opened 7 ∷ lease_claimed 5 ∷ []
unfolding new
acquire_failure_example =
    (acquire_failure (new given) web "ann" 1 5 sick (other "no answer")
      (session_shut 7 ∷ session_opened 7 ∷ []) 9 20 roomy
      (no_health (other "no answer") 7 refl refl)).2

serving-IsServing : IsServing serving 0 entry 7
unfolding serving lookup
serving-IsServing = record { at = refl; cell = refl; up = refl; session = refl }

round_at : ℕ → Round
round_at now = record {
  renewed = ok tt;
  health = ok tt;
  looked_at = now;
  checked_at = now;
  failed_at = now;
}

round_at-IsHealthy : (now : ℕ) → IsHealthy (round_at now)
unfolding round_at
round_at-IsHealthy now = record { renewed = refl; health = refl }

visit_healthy_example :
    (visit serving 0 (round_at 200)).log ≡ lease_released 5 ∷ session_shut 7 ∷ []
unfolding serving round_at with_defaults
visit_healthy_example =
    ap (λ (m : Manager). m.log)
      (visit_healthy serving 0 entry 7 (round_at 200) serving-IsServing (round_at-IsHealthy 200))

act-track_stream_example :
    lookup 0 (act (track_stream serving 0 201).0 0 (look serving entry 200) (round_at 200)).heap
    ≡ some (shut (record entry { streams = 1; last_used = 201 }))
unfolding serving round_at with_defaults
act-track_stream_example =
    (act-track_stream serving 0 entry 7 201 (round_at 200) serving-IsServing
      (round_at-IsHealthy 200) refl).1
