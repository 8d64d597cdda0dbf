-- ===== src/Session/Types.antt =====
-- The data of internal/session/manager.go. Upstream sessions and leases are values of other packages
-- and stand here as numbers. An entry is a shared object, so the manager has a heap of entries and
-- its table holds their addresses. What calls of an upstream or a lease bring about is appended to
-- `log`, latest first.
use shellcn.Prelude.{
  ℕ, ◌/◌, ◌≡◌, ◌↔◌, String, Bool, true, ◌&&◌, ◌||◌, List, [], Option, none, some, arith, leb,
  Comparable, ◌==◌, string_eq, nat_eq, if◌then◌else◌,
}
use shellcn.Prelude.Int.{ℤ, pos, negsuc}
use shellcn.Prelude.Map.{Map}

pub record Key : Type 0 where
  pub connection_id : String
  pub actor_scope : String

abbrev pub key_same : Key → Key → Bool
key_same j k = j.connection_id == k.connection_id && j.actor_scope == k.actor_scope

pub key_same_iff : (j k : Key) → (key_same j k ≡ true) ↔ (j ≡ k)
key_same_iff j k = ground (
  arith,
  string_eq.same_iff j.connection_id k.connection_id,
  string_eq.same_iff j.actor_scope k.actor_scope,
)

instance abbrev pub key_eq : Comparable Key
key_eq = record { same = key_same; same_iff = key_same_iff }

-- ErrSessionClosed, ErrSessionLimit, ErrChannelLimit, and the errors of other packages.
pub data Error : Type 0 where
  session_closed session_limit channel_limit : Error
  other : String → Error

-- `err.Error()`
abbrev pub error_text : Error → String
error_text session_closed = "session: closed"
error_text session_limit = "session: per-user limit reached"
error_text channel_limit = "session: per-session channel limit reached"
error_text (other text) = text

-- A value and an error of Go, of which one is given.
pub data Result {ℓ} (A : Type ℓ) : Type ℓ where
  ok : A → Result A
  err : Error → Result A

pub data State : Type 0 where
  connecting connected closed error : State

pub record Snapshot : Type 0 where
  pub key : Key
  pub user_id : String
  pub state : State
  pub reason : String
  pub channels : ℕ
  pub streams : ℕ
  pub last_used : ℕ
  pub created_at : ℕ
  pub last_health_check : ℕ

-- Options as the caller gives them: durations and limits may be zero or negative.
pub record GivenOptions : Type 0 where
  pub idle_timeout : ℤ
  pub max_sessions_per_user : ℤ
  pub max_channels_per_session : ℤ
  pub health_interval : ℤ
  pub failure_retention : ℤ
  pub has_lease_registry : Bool
  pub lease_ttl : ℤ
  pub renew_interval : ℤ

-- Options after `withDefaults`, in nanoseconds.
pub record Options : Type 0 where
  pub idle_timeout : ℕ
  pub max_sessions_per_user : ℕ
  pub max_channels_per_session : ℕ
  pub health_interval : ℕ
  pub failure_retention : ℕ
  pub has_lease_registry : Bool
  pub lease_ttl : ℕ
  pub renew_interval : ℕ

-- `if given <= 0 { given = fallback }`
abbrev pub or_default : ℤ → ℕ → ℕ
or_default (pos n) fallback = if n == 0 then fallback else n
or_default (negsuc n) fallback = fallback

-- `if given <= 0 || given >= ttl { given = ttl / 3 }`
abbrev pub renewal : ℤ → ℕ → ℕ
renewal (pos n) ttl = if n == 0 || leb ttl n then ttl / 3 else n
renewal (negsuc n) ttl = ttl / 3

unfoldable pub with_defaults : GivenOptions → Options
with_defaults o = record {
  idle_timeout = or_default o.idle_timeout 900000000000;
  max_sessions_per_user = or_default o.max_sessions_per_user 50;
  max_channels_per_session = or_default o.max_channels_per_session 20;
  health_interval = or_default o.health_interval 30000000000;
  failure_retention = or_default o.failure_retention 120000000000;
  has_lease_registry = o.has_lease_registry;
  lease_ttl = or_default o.lease_ttl 15000000000;
  renew_interval = renewal o.renew_interval (or_default o.lease_ttl 15000000000);
}

pub record Entry : Type 0 where
  pub key : Key
  pub user_id : String
  pub sess : Option ℕ
  pub channels : ℕ
  pub streams : ℕ
  pub last_used : ℕ
  pub created : ℕ
  pub last_health_check : ℕ
  pub reason : String
  pub is_closed : Bool
  pub lease : Option ℕ

pub record Failure : Type 0 where
  pub snapshot : Snapshot
  pub expires_at : ℕ

-- A call that reached another package and succeeded, or was made for its effect alone.
pub data Effect : Type 0 where
  lease_claimed lease_released : ℕ → Effect
  session_opened session_shut : ℕ → Effect

pub record Manager : Type 0 where
  pub sessions : Map Key ℕ
  pub failures : Map Key Failure
  pub opts : Options
  pub heap : Map ℕ Entry
  pub next : ℕ  -- the address of the next entry
  pub log : List Effect

unfoldable pub new : GivenOptions → Manager
unfolding with_defaults
new given = record {
  sessions = [];
  failures = [];
  opts = with_defaults given;
  heap = [];
  next = 0;
  log = [];
}

-- `force` is `none` for the empty state of the code.
unfoldable pub snapshot_locked : Entry → Option State → Snapshot
snapshot_locked e force = record {
  key = e.key;
  user_id = e.user_id;
  state = elim force [
    | some s ↦ s
    | none ↦ if e.is_closed then closed else elim e.sess [ none ↦ connecting | some s ↦ connected ]
  ];
  reason = e.reason;
  channels = e.channels;
  streams = e.streams;
  last_used = e.last_used;
  created_at = e.created;
  last_health_check = e.last_health_check;
}
