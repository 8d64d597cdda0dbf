-- ===== src/Service/AgentTests.antt =====
-- Runs of the agents' functions, and the theorems at concrete inputs.
use shellcn.Prelude.{
  ◌≡◌, refl, sym, ◌∙◌, inl, inr, Bool-cases, String, [], ◌∷◌, none, some, ◌==◌, string_eq, nat_eq,
  if◌then◌else◌, arith,
}
use shellcn.Prelude.Map.{IsMap, lookup}
use shellcn.Prelude.Bytes.{Bytes}
use shellcn.Store.Enrollments.{
  AgentEnrollment, Enrollments, consume, consume_over, get_by_token_hash,
}
use shellcn.Service.Slug.{
  connection_slug, slugify, slug_from, trim_left, trim_right, remove_dashes, short_id, named,
  shell_quote, escape_quotes,
}
use shellcn.Service.Slug.Label.{IsDnsLabel, connection_slug-IsDnsLabel}
use shellcn.Service.Slug.Unique.{connection_slug-long}
use shellcn.Service.Slug.Quote.{outside, shell_read, read-shell_quote}
use shellcn.Service.Enrollment.{
  Gateway, redeem_token, redeemed, enrollment_invalid, mark_offline, agent_state,
  list_of_connection, latest_of,
}
use shellcn.Service.Enrollment.Redeemed.{Keyed, Outcome, redeem_lem}
use shellcn.Service.Enrollment.Offline.{closed, mark_offline_lem}
use shellcn.Service.Enrollment.Reconnect.{UniqueTokens, redeem_reconnects}

-- "My DB" and the id "0a-1b".
abbrev my_db : Bytes
my_db = b'm' ∷ b'y' ∷ b' ' ∷ b'd' ∷ b'b' ∷ []

abbrev some_id : Bytes
some_id = b'0' ∷ b'a' ∷ b'-' ∷ b'1' ∷ b'b' ∷ []

my_db_slug :
    connection_slug my_db some_id
    ≡ b'm' ∷ b'y' ∷ b'-' ∷ b'd' ∷ b'b' ∷ b'-' ∷ b'0' ∷ b'a' ∷ b'1' ∷ b'b' ∷ []
unfolding connection_slug slugify slug_from trim_left trim_right remove_dashes short_id named
my_db_slug = refl

connection_slug-IsDnsLabel_example : IsDnsLabel (connection_slug my_db some_id)
connection_slug-IsDnsLabel_example =
    connection_slug-IsDnsLabel my_db some_id (refl, (refl, (refl, (refl, (refl, tt)))))

abbrev ten_then : Bytes → Bytes
ten_then s = b'a' ∷ b'a' ∷ b'a' ∷ b'a' ∷ b'a' ∷ b'a' ∷ b'a' ∷ b'a' ∷ b'a' ∷ b'a' ∷ s

abbrev long_name : Bytes
long_name = ten_then (ten_then (ten_then (ten_then (ten_then (ten_then (ten_then []))))))

connection_slug-long_example :
    connection_slug long_name (b'1' ∷ []) ≡ connection_slug long_name (b'2' ∷ [])
unfolding slugify slug_from trim_left trim_right remove_dashes short_id named
connection_slug-long_example =
    connection_slug-long long_name (b'1' ∷ []) (b'2' ∷ []) (omega arith) refl refl

-- "it's"
abbrev its : Bytes
its = b'i' ∷ b't' ∷ 39 ∷ b's' ∷ []

its_quoted : shell_quote its ≡ 39 ∷ b'i' ∷ b't' ∷ 39 ∷ 92 ∷ 39 ∷ 39 ∷ b's' ∷ 39 ∷ []
unfolding shell_quote escape_quotes
its_quoted = refl

read-shell_quote_example : shell_read outside (shell_quote its) ≡ some (outside, its)
read-shell_quote_example = read-shell_quote its

abbrev pending : AgentEnrollment
pending = record {
  id = "e1";
  connection_id = "c1";
  token_hash = "h";
  status = "pending";
  expires_at = 100;
  created_at = 0;
  updated_at = 0;
}

enrolled : Enrollments
enrolled = ("e1", pending) ∷ []

gateway : Gateway String
gateway = record {
  hash_token = λ token. if token == "t" then "h" else "other";
  protocol = λ id. if id == "c1" then some "docker" else none;
  proxy = λ protocol. some "socket";
}

token_lets_in : (redeem_token gateway "t" 10 enrolled).1 ≡ redeemed "c1" "socket"
unfolding gateway enrolled redeem_token get_by_token_hash consume consume_over lookup
token_lets_in = refl

late_token_refused : redeem_token gateway "t" 100 enrolled ≡ (enrolled, enrollment_invalid)
unfolding gateway enrolled redeem_token get_by_token_hash consume consume_over lookup
late_token_refused = refl

waiting : (agent_state "c1" enrolled).message ≡ "Waiting for the agent to dial back."
unfolding enrolled agent_state list_of_connection latest_of
waiting = refl

enrolled-IsMap : IsMap enrolled
unfolding enrolled lookup
enrolled-IsMap = (refl, tt)

enrolled-Keyed : Keyed enrolled
unfolding enrolled
enrolled-Keyed = (refl, tt)

redeem_lem_example : Outcome gateway "t" 10 enrolled (redeem_token gateway "t" 10 enrolled)
redeem_lem_example = redeem_lem gateway "t" 10 enrolled enrolled-IsMap enrolled-Keyed

enrolled-UniqueTokens : UniqueTokens enrolled
unfolding enrolled lookup
enrolled-UniqueTokens k j e f l h same = elim (Bool-cases ("e1" == k)) [
  | inr b ↦ absurd (ground (arith, b, l))
  | inl b ↦ elim (Bool-cases ("e1" == j)) [
    | inr c ↦ absurd (ground (arith, c, h))
    | inl c ↦ sym ((string_eq.same_iff "e1" k).0 b) ∙ (string_eq.same_iff "e1" j).0 c
  ]
]

redeem_reconnects_example :
    (redeem_token gateway "t" 200 (mark_offline "c1" 20 (redeem_token gateway "t" 10 enrolled).0)).1
    ≡ redeemed "c1" "socket"
redeem_reconnects_example =
    redeem_reconnects gateway "t" 10 20 200 enrolled "c1" "socket" enrolled-IsMap enrolled-Keyed
      enrolled-UniqueTokens token_lets_in

mark_offline_lem_example :
    lookup "e1" (mark_offline "c1" 20 enrolled) ≡ closed "c1" 20 (lookup "e1" enrolled)
mark_offline_lem_example = mark_offline_lem "c1" 20 "e1" enrolled enrolled-IsMap enrolled-Keyed
