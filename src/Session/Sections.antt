-- ===== src/Session/Sections.antt =====
-- Every critical section of the package as one step, so that a list of them is an interleaving of
-- any calls by any goroutines. A section that finishes a call may come at any time, with any
-- arguments: more histories are allowed than the code has.
use shellcn.Prelude.{
  ℕ, String, Bool, List, [], ◌∷◌, Option, none, some, string_eq, nat_eq, if◌then◌else◌,
}
use shellcn.Prelude.Map.{lookup, delete_if}
use shellcn.Session.Types.{Key, key_eq, Error, Result, Entry, Manager, Snapshot}
use shellcn.Session.Registry.{
  reserve, Attempt, connect_entry, remove_and_remember_failure, release_lease, shutdown_entry,
  unlink, of_connection, status,
}
use shellcn.Session.Sweep.{prune_failures_locked, fail_section}
use shellcn.Session.Handle.{
  track_stream, release_stream, reserve_channel, abandon_channel, close_channel, put,
}

pub data Section : Type 0 where
  reserves : Key → String → ℕ → Result ℕ → Section
  connects : ℕ → Attempt → Section
  remembers : Key → ℕ → Snapshot → ℕ → Section
  releases : Option ℕ → Section
  reports : Key → ℕ → Section
  unlinks : Key → Section
  unlinks_connection : String → Section
  unlinks_all : Section
  shuts : ℕ → Section
  prunes : ℕ → Section
  fails : ℕ → Error → ℕ → Section
  notes_health : ℕ → ℕ → Section
  tracks : ℕ → ℕ → Section
  untracks : ℕ → ℕ → Bool → Section
  reserves_channel : ℕ → ℕ → Section
  abandons_channel : ℕ → Section
  closes_channel : ℕ → ℕ → Bool → Section

note_over : Manager → ℕ → ℕ → Option Entry → Manager
note_over m a checked_at none = m
note_over m a checked_at (some e) =
    if e.is_closed then m else put m a (record e { last_health_check = checked_at; reason = "" })

unfoldable pub perform : Section → Manager → Manager
unfolding note_over
perform (reserves key user now claim) m = (reserve m key user now claim).0
perform (connects a t) m = (connect_entry m a t).0
perform (remembers key a snap now) m = remove_and_remember_failure m key a snap now
perform (releases lease) m = release_lease m lease
perform (reports key now) m = (status m key now).0
perform (unlinks key) m = unlink m key
perform (unlinks_connection id) m = record m {
  sessions = delete_if (of_connection id) m.sessions;
  failures = delete_if (of_connection id) m.failures;
}
perform unlinks_all m = record m { sessions = []; failures = [] }
perform (shuts a) m = shutdown_entry m a
perform (prunes now) m = prune_failures_locked m now
perform (fails a x checked_at) m = (fail_section m a x checked_at).0
perform (notes_health a checked_at) m = note_over m a checked_at (lookup a m.heap)
perform (tracks a now) m = (track_stream m a now).0
perform (untracks a now armed) m = (release_stream m a now armed).0
perform (reserves_channel a now) m = (reserve_channel m a now).0
perform (abandons_channel a) m = abandon_channel m a
perform (closes_channel a now armed) m = (close_channel m a now armed).0

unfoldable pub run : List Section → Manager → Manager
unfolding perform
run [] m = m
run (s ∷ rest) m = run rest (perform s m)
