-- ===== src/Session/Handle.antt =====
-- internal/session/handle.go: borrowed sessions. A `sync.Once` is a flag that the caller keeps.
use shellcn.Prelude.{
  ℕ, ◌+◌, ◌-◌, Bool, true, false, ◌||◌, Option, none, some, ltb, leb, if◌then◌else◌, nat_eq,
}
use shellcn.Prelude.Map.{lookup, insert}
use shellcn.Session.Types.{session_closed, channel_limit, Result, ok, err, Entry, Manager}
use shellcn.Session.Registry.{close}

abbrev pub unusable : Entry → Bool
unusable e = e.is_closed || elim e.sess [ none ↦ true | some s ↦ false ]

abbrev pub put : Manager → ℕ → Entry → Manager
put m a e = record m { heap = insert a e m.heap }

-- `TrackStream`: the flag says whether there is a stream to release.
track_over : Manager → ℕ → ℕ → Option Entry → Manager × Bool
track_over m a now none = (m, false)
track_over m a now (some e) =
    if unusable e
    then (m, false)
    else (put m a (record e { streams = e.streams + 1; last_used = now }), true)

unfoldable pub track_stream : Manager → ℕ → ℕ → Manager × Bool
unfolding track_over
track_stream m a now = track_over m a now (lookup a m.heap)

release_stream_over : Manager → ℕ → ℕ → Option Entry → Manager
release_stream_over m a now none = m
release_stream_over m a now (some e) =
    put m a
      (record e { streams = if ltb 0 e.streams then e.streams - 1 else e.streams; last_used = now })

-- The function that `TrackStream` returns; `armed` is false once it has run.
unfoldable pub release_stream : Manager → ℕ → ℕ → Bool → Manager × Bool
unfolding release_stream_over
release_stream m a now armed =
    if armed then (release_stream_over m a now (lookup a m.heap), false) else (m, false)

-- `OpenChannel` up to the call of the upstream.
unfoldable pub reserve_guards : Manager → ℕ → ℕ → Entry → Option ℕ → Manager × Result ℕ
reserve_guards m a now e none = (m, err session_closed)
reserve_guards m a now e (some s) =
    if e.is_closed
    then (m, err session_closed)
    else if leb m.opts.max_channels_per_session e.channels
    then (m, err channel_limit)
    else (put m a (record e { channels = e.channels + 1; last_used = now }), ok s)

reserve_over : Manager → ℕ → ℕ → Option Entry → Manager × Result ℕ
unfolding reserve_guards
reserve_over m a now none = (m, err session_closed)
reserve_over m a now (some e) = reserve_guards m a now e e.sess

unfoldable pub reserve_channel : Manager → ℕ → ℕ → Manager × Result ℕ
unfolding reserve_over
reserve_channel m a now = reserve_over m a now (lookup a m.heap)

-- The upstream refused: `e.channels--`, with no test. `-` stops at 0; the code's `int` would not.
abandon_over : Manager → ℕ → Option Entry → Manager
abandon_over m a none = m
abandon_over m a (some e) = put m a (record e { channels = e.channels - 1 })

unfoldable pub abandon_channel : Manager → ℕ → Manager
unfolding abandon_over
abandon_channel m a = abandon_over m a (lookup a m.heap)

release_channel_over : Manager → ℕ → ℕ → Option Entry → Manager
release_channel_over m a now none = m
release_channel_over m a now (some e) = put m a (record e {
  channels = if ltb 0 e.channels then e.channels - 1 else e.channels;
  last_used = now;
})

-- `trackedChannel.Close`: its release runs once.
unfoldable pub close_channel : Manager → ℕ → ℕ → Bool → Manager × Bool
unfolding release_channel_over
close_channel m a now armed =
    if armed then (release_channel_over m a now (lookup a m.heap), false) else (m, false)

-- `OpenChannel` with no other call between its critical sections. `answer` is the upstream's.
open_over : ℕ → Result ℕ → Manager × Result ℕ → Manager × Result ℕ
unfolding abandon_channel
open_over a answer (m, err x) = (m, err x)
open_over a answer (m, ok s) = elim answer [
  | err x ↦ (abandon_channel m a, err x)
  | ok channel ↦ (m, ok channel)
]

unfoldable pub open_channel : Manager → ℕ → ℕ → Result ℕ → Manager × Result ℕ
unfolding open_over reserve_channel
open_channel m a now answer = open_over a answer (reserve_channel m a now)

abbrev pub close_found : Manager → Option Entry → Manager
unfolding close
close_found m none = m
close_found m (some e) = close m e.key

-- `Handle.Close` goes through the registry.
unfoldable pub close_handle : Manager → ℕ → Manager
unfolding close_found
close_handle m a = close_found m (lookup a m.heap)

-- The optional interfaces of an upstream channel, and the wrapper's.
pub data Wrapper : Type 0 where
  tracked tracked_resizable tracked_desktop tracked_resizable_desktop : Wrapper

unfoldable pub wrap_tracked_channel : Bool → Bool → Wrapper
wrap_tracked_channel true true = tracked_resizable_desktop
wrap_tracked_channel true false = tracked_resizable
wrap_tracked_channel false true = tracked_desktop
wrap_tracked_channel false false = tracked

-- The methods that each wrapper type declares.
abbrev pub can_resize : Wrapper → Bool
can_resize tracked_resizable = true
can_resize tracked_resizable_desktop = true
can_resize _ = false

abbrev pub has_server_init : Wrapper → Bool
has_server_init tracked_desktop = true
has_server_init tracked_resizable_desktop = true
has_server_init _ = false
