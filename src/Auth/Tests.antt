-- ===== src/Auth/Tests.antt =====
-- Runs of the sessions and tickets, and the theorems at concrete inputs.
use shellcn.Prelude.{
  ◌≡◌, ◌≢◌, refl, inl, true, false, [], ◌∷◌, none, some, arith, string_eq, nat_eq, ne_of_beq,
}
use shellcn.Prelude.Int.{pos}
use shellcn.Prelude.Map.{lookup}
use shellcn.Store.Leases.Hold.{gets, run as run_store}
use shellcn.Live.{InstanceRef}
use shellcn.Live.Tests.{plain}
use shellcn.Auth.Jwt.{valid}
use shellcn.Auth.Codec.{plain_jwt, sign_text-ne-empty}
use shellcn.Auth.Session.{SessionManager, session_claims, get, create, parse_mfa_challenge, destroy}
use shellcn.Auth.Ticket.{
  TicketScope, Clock, ticket_key, ticket_claims, expected, same_params, same_audience,
  check_ws_origin, mint, redeem,
}
use shellcn.Auth.Purposes.{kinds_apart}
use shellcn.Auth.Revocation.{asks, run, destroyed_refused}
use shellcn.Auth.SingleUse.{redeemed_once}
use shellcn.Auth.Scope.{mint-redeem, mint-redeem_other_params}

abbrev manager : SessionManager
manager = record { ttl = 100; revoked = [] }

abbrev terminal : TicketScope
terminal = record {
  connection_id = "c1";
  route_id = "ssh.shell";
  params = ("cols", "80") ∷ [];
  user_id = "u1";
}

abbrev gateway : InstanceRef
gateway = record { id = "a"; internal_url = ""; candidates = [] }

abbrev at_20 : Clock
at_20 = record { parsed_at = 20; read_at = 20; claimed_at = 20 }

abbrev at_25 : Clock
at_25 = record { parsed_at = 25; read_at = 25; claimed_at = 25 }

same_audience_swapped : same_audience ("c1" ∷ "r1" ∷ []) ("r1" ∷ "c1" ∷ []) ≡ true
unfolding same_audience
same_audience_swapped = refl

origin_refused : check_ws_origin (λ o. some o) "evil.example" "gateway.example" [] ≡ false
unfolding check_ws_origin
origin_refused = refl

kinds_apart_example :
    parse_mfa_challenge plain_jwt (create plain_jwt manager "u1" [] "csrf" "j1" 10).id 20 ≡ none
kinds_apart_example =
    (kinds_apart plain_jwt plain manager manager "u1" "j1" "csrf" "L1" [] terminal terminal gateway
      30 10 20 20 at_20 []).2

token_text : (create plain_jwt manager "u1" [] "csrf" "j1" 10).id ≢ ""
unfolding create
token_text = sign_text-ne-empty (session_claims plain_jwt "u1" (pos 0) "csrf" "j1" 10 110)

destroyed_refused_example :
    let token = (create plain_jwt manager "u1" [] "csrf" "j1" 10).id in
    (get plain_jwt token 50 50
      (run plain_jwt (asks "other" 40 40 ∷ []) (destroy token 30 30 manager))).1
    ≡ none
destroyed_refused_example =
    destroyed_refused plain_jwt manager manager "u1" "csrf" "j1" [] 10 30 30 50 50
      (asks "other" 40 40 ∷ []) refl tt token_text (omega arith, omega arith, omega arith)
      (omega arith, tt)

redeems :
    (redeem plain_jwt plain gateway terminal
      (mint plain_jwt plain 30 terminal "j1" 10).0
      "L1"
      at_20
      []).1
    ≡ true
unfolding same_params lookup
redeems =
    mint-redeem plain_jwt plain gateway terminal terminal.params 30 10 "j1" "L1" at_20 [] refl refl
      (ne_of_beq "a" "" refl) (ne_of_beq "j1" "" refl) (omega arith, omega arith, omega arith)

mint-redeem_example :
    (redeem plain_jwt plain gateway terminal
      (mint plain_jwt plain 30 terminal "j1" 10).0
      "L1"
      at_20
      []).1
    ≡ true
unfolding same_params lookup
mint-redeem_example =
    mint-redeem plain_jwt plain gateway terminal terminal.params 30 10 "j1" "L1" at_20 [] refl refl
      (ne_of_beq "a" "" refl) (ne_of_beq "j1" "" refl) (omega arith, omega arith, omega arith)

mint-redeem_other_params_example :
    (redeem plain_jwt plain gateway
      (record terminal { params = ("host", "db") ∷ [] })
      (mint plain_jwt plain 30 (record terminal { params = ("tab", "") ∷ [] }) "j1" 10).0
      "L1"
      at_20
      []).1
    ≡ true
unfolding lookup
mint-redeem_other_params_example =
    mint-redeem_other_params plain_jwt plain gateway terminal "tab" "host" "db" 30 10 "j1" "L1"
      at_20 [] (ne_of_beq "tab" "host" refl) refl (ne_of_beq "a" "" refl) (ne_of_beq "j1" "" refl)
      (omega arith, omega arith, omega arith)

redeemed_once_example :
    let token = (mint plain_jwt plain 30 terminal "j1" 10).0 in
    let m' =
      run_store plain.unmarshal
        ((22, gets "ticket:j1") ∷ [])
        (redeem plain_jwt plain gateway terminal token "L1" at_20 []).0 in
    redeem plain_jwt plain gateway terminal token "L2" at_25 m' ≡ (m', false)
unfolding mint valid expected ticket_claims ticket_key
redeemed_once_example =
    redeemed_once plain_jwt plain gateway gateway terminal terminal
      (mint plain_jwt plain 30 terminal "j1" 10).0 "L1" "L2" at_20 at_25 []
      (ticket_claims plain_jwt plain terminal "j1" 10 40) 40 ((22, gets "ticket:j1") ∷ []) tt
      (rw
        (plain_jwt.parse-sign (expected plain_jwt plain terminal 20)
          (ticket_claims plain_jwt plain terminal "j1" 10 40))
        refl)
      refl redeems (omega arith, tt) (inl (omega arith)) (ne_of_beq "a" "" refl)
