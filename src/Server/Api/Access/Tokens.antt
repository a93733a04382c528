-- ===== src/Server/Api/Access/Tokens.antt =====
-- server/src/api.rs: which `Authorization` headers `require_bearer` lets pass.
use civ6_lan_bridge.Prelude.{
  ℕ, ◌<◌, ◌≡◌, ◌↔◌, ◌⊎◌, inl, inr, refl, ap, arith, true, ◌==◌, ==→≡, ltb, nat_key, list_key,
  Option, none, some, Option-cases, Bool-cases, List, [], ◌∷◌, ◌++◌, ok,
}
use civ6_lan_bridge.Prelude.HashMap
use civ6_lan_bridge.Router.State.{Instant}
use civ6_lan_bridge.Server.RateLimiter.{allow}
use civ6_lan_bridge.Server.State.{AppState, ClientSession}
use civ6_lan_bridge.Server.Api.Handler.{Draws}
use civ6_lan_bridge.Server.Api.Access.{
  bearer_prefix, strip_prefix, within_rate, drop_ended, check_token, require_bearer,
}

pub strip_prefix-append : (prefix text : List ℕ) → strip_prefix prefix (prefix ++ text) ≡ some text
unfolding strip_prefix
strip_prefix-append [] text = refl
strip_prefix-append (p ∷ prefix) text = ground (arith, strip_prefix-append prefix text)

pub strip_prefix_inv :
    (prefix text rest : List ℕ) → strip_prefix prefix text ≡ some rest → text ≡ prefix ++ rest
unfolding strip_prefix
strip_prefix_inv [] text rest h = cc
strip_prefix_inv (p ∷ prefix) [] rest h = cc
strip_prefix_inv (p ∷ prefix) (c ∷ text) rest h = ground (arith, strip_prefix_inv prefix text rest)

-- A session of a token that has not ended
pub record Lives (now : Instant) (found : Option ClientSession) : Type 0 where
  pub session : ClientSession
  pub stored : found ≡ some session
  pub later : now < session.expires_at

-- The token is the server's own or of a session that lives, and its window has room.
pub record Admitted (app : AppState) (draws : Draws) (token : List ℕ) : Type 0 where
  pub known :
      (token ≡ app.bearer_token) ⊎ Lives draws.session_now (HashMap.get app.client_sessions token)
  pub in_time : (allow app.api_rate_limiter token draws.arrival).0 ≡ true

within_rate_lem :
    (token : List ℕ) (arrival : Instant) (app : AppState)
    → ((within_rate token arrival app).0 ≡ ok tt)
      ↔ ((allow app.api_rate_limiter token arrival).0 ≡ true)
unfolding within_rate
within_rate_lem token arrival app = (λ h. ground arith, λ h. ground arith)

kept_Lives :
    (now : Instant) (app : AppState) (token : List ℕ)
    → HashMap.contains_key (drop_ended now app).client_sessions token ≡ true
    → Lives now (HashMap.get app.client_sessions token)
kept_Lives now app token kept = elim (Option-cases (HashMap.get app.client_sessions token)) [
  | inl e ↦ ground (
    arith,
    HashMap.get-retain app.client_sessions (λ _ (s : ClientSession). ltb now s.expires_at) token,
  )
  | inr (session, e) ↦ record {
    session = session;
    stored = e;
    later = ground (
      arith,
      HashMap.get-retain app.client_sessions (λ _ (s : ClientSession). ltb now s.expires_at) token,
    );
  }
]

Lives-kept :
    (now : Instant) (app : AppState) (token : List ℕ)
    → Lives now (HashMap.get app.client_sessions token)
    → HashMap.contains_key (drop_ended now app).client_sessions token ≡ true
Lives-kept now app token lives = ground (
  arith,
  lives.stored,
  lives.later,
  HashMap.get-retain app.client_sessions (λ _ (s : ClientSession). ltb now s.expires_at) token,
)

check_token_lem :
    (token : List ℕ) (draws : Draws) (app : AppState)
    → ((check_token token draws app).0 ≡ ok tt) ↔ Admitted app draws token
unfolding check_token within_rate
check_token_lem token draws app = (there, back)
  where
    there : (check_token token draws app).0 ≡ ok tt → Admitted app draws token
    there h = elim (Bool-cases (token == app.bearer_token)) [
      | inl own ↦ record { known = inl (==→≡ token app.bearer_token own); in_time = ground arith }
      | inr other ↦
          elim (Bool-cases
            (HashMap.contains_key (drop_ended draws.session_now app).client_sessions token)) [
              | inl kept ↦ record {
                known = inr (kept_Lives draws.session_now app token kept);
                in_time = ground arith;
              }
              | inr gone ↦ ground arith
            ]
    ]

    back : Admitted app draws token → (check_token token draws app).0 ≡ ok tt
    back admitted = elim admitted.known [
      | inl own ↦ ground (arith, admitted.in_time)
      | inr lives ↦ ground (arith, admitted.in_time, Lives-kept draws.session_now app token lives)
    ]

-- require_bearer lets a request pass exactly if its header is "Bearer " followed by a token that
-- is the server's own or of a client session that has not ended, and the rate limiter allows
-- that token.
pub require_bearer_iff :
    (header : Option (List ℕ)) (draws : Draws) (app : AppState)
    → ((require_bearer header draws app).0 ≡ ok tt)
      ↔ ((token : List ℕ) × (header ≡ some (bearer_prefix ++ token)) × Admitted app draws token)
unfolding require_bearer
require_bearer_iff none draws app = (λ h. ground arith, λ (token, e, _). cc)
require_bearer_iff (some header) draws app = (
  λ h. elim (Option-cases (strip_prefix bearer_prefix header)) [
    | inl e ↦ ground arith
    | inr (token, e) ↦ (
      token,
      ap some (strip_prefix_inv bearer_prefix header token e),
      (check_token_lem token draws app).0 (ground arith),
    )
  ],
  λ (token, e, admitted). ground (
    arith,
    strip_prefix-append bearer_prefix token,
    (check_token_lem token draws app).1 admitted,
  ),
)
