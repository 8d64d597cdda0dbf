-- ===== src/Service/Enrollment.antt =====
-- internal/service/enrollment.go: agents that join by a token, over memEnrollmentStore. The digest of
-- a token, the connections and the manifests of plugins are the fields of a `Gateway`.
pub mod Redeemed
pub mod Offline
pub mod Reconnect
use shellcn.Prelude.{
  ℕ, String, Bool, true, false, not, ◌&&◌, List, [], ◌∷◌, Option, none, some, ◌==◌, string_eq,
  if◌then◌else◌, ltb,
}
use shellcn.Prelude.Map.{Map}
use shellcn.Store.Enrollments.{
  AgentEnrollment, Enrollments, enrollment_pending, enrollment_online, enrollment_offline, consume,
  get_by_token_hash, update_status,
}

-- `protocol` is that of a connection, none where there is none of the id; `proxy` is what the plugin
-- of a protocol has its agents proxy, none where it has no agent.
pub record Gateway (T : Type 0) : Type 0 where
  pub hash_token : String → String
  pub protocol : String → Option String
  pub proxy : String → Option T

pub data Redeem (T : Type 0) : Type 0 where
  redeemed : String → T → Redeem T
  enrollment_invalid no_agent_support : Redeem T

abbrev pub join_result : {T : Type 0} → String → T → Enrollments × Bool → Enrollments × Redeem T
join_result connection_id target (m, true) = (m, redeemed connection_id target)
join_result connection_id target (m, false) = (m, enrollment_invalid)

module _ {T : Type 0} (g : Gateway T) where
  abbrev pub redeem_proxy : AgentEnrollment → Option T → ℕ → Enrollments → Enrollments × Redeem T
  redeem_proxy e none now m = (m, no_agent_support)
  redeem_proxy e (some target) now m = join_result e.connection_id target (consume e.id now m)

  abbrev pub redeem_connection :
      AgentEnrollment → Option String → ℕ → Enrollments → Enrollments × Redeem T
  redeem_connection e none now m = (m, enrollment_invalid)
  redeem_connection e (some protocol) now m = redeem_proxy e (g.proxy protocol) now m

  abbrev pub redeem_found : Option AgentEnrollment → ℕ → Enrollments → Enrollments × Redeem T
  redeem_found none now m = (m, enrollment_invalid)
  redeem_found (some e) now m = redeem_connection e (g.protocol e.connection_id) now m

  unfoldable pub redeem_token : String → ℕ → Enrollments → Enrollments × Redeem T
  redeem_token token now m = redeem_found (get_by_token_hash (g.hash_token token) m) now m

-- `ListByConnection`
unfoldable pub list_of_connection : String → Enrollments → List AgentEnrollment
list_of_connection connection_id [] = []
list_of_connection connection_id ((k, e) ∷ m) =
    let rest = list_of_connection connection_id m in
    if e.connection_id == connection_id then e ∷ rest else rest

-- The loop of `MarkOffline`; the error of a write is dropped.
unfoldable pub mark_from : ℕ → List AgentEnrollment → Enrollments → Enrollments
mark_from now [] m = m
mark_from now (e ∷ enrollments) m =
    mark_from now enrollments
      (if e.status == enrollment_online then (update_status e.id enrollment_offline now m).0 else m)

unfoldable pub mark_offline : String → ℕ → Enrollments → Enrollments
mark_offline connection_id now m = mark_from now (list_of_connection connection_id m) m

-- The loop of `State`.
unfoldable pub latest_of : AgentEnrollment → List AgentEnrollment → AgentEnrollment
latest_of latest [] = latest
latest_of latest (e ∷ enrollments) =
    latest_of (if ltb latest.created_at e.created_at then e else latest) enrollments

abbrev pub state_message : String → String
state_message status =
    if status == enrollment_pending
    then "Waiting for the agent to dial back."
    else if status == enrollment_online
    then "Agent connected."
    else if status == enrollment_offline
    then "Agent disconnected."
    else ""

pub record AgentState : Type 0 where
  pub status : String
  pub message : String

abbrev pub state_from : List AgentEnrollment → AgentState
state_from [] = record { status = enrollment_offline; message = "No agent enrolled yet." }
state_from (e ∷ enrollments) =
    let latest = latest_of e enrollments in
    record { status = latest.status; message = state_message latest.status }

unfoldable pub agent_state : String → Enrollments → AgentState
agent_state connection_id m = state_from (list_of_connection connection_id m)

-- `deliveryMode`, from whether each artifact is delivered by a URL; `none` is a mix.
unfoldable pub delivery_from : Bool → Bool → List Bool → Option Bool
delivery_from saw_url saw_inline [] = if saw_url && saw_inline then none else some saw_url
delivery_from saw_url saw_inline (true ∷ specs) = delivery_from true saw_inline specs
delivery_from saw_url saw_inline (false ∷ specs) = delivery_from saw_url true specs

unfoldable pub delivery_mode : List Bool → Option Bool
delivery_mode specs = delivery_from false false specs
