-- ===== src/Server/Api/Access/Accounts.antt =====
-- server/src/api.rs: an account that was registered, and the token that its owner gets.
use civ6_lan_bridge.Prelude.{
  ℕ, ◌+◌, ◌<◌, ◌≡◌, refl, sym, ap, ◌∙◌, arith, true, nat_key, list_key, some, Result, inr, List,
  ◌++◌, ok, err,
}
use civ6_lan_bridge.Prelude.HashMap
use civ6_lan_bridge.Server.RateLimiter.{allow}
use civ6_lan_bridge.Server.State.{AppState, client_session_ttl}
use civ6_lan_bridge.Server.Api.{ApiError, AuthRequest, AuthResponse}
use civ6_lan_bridge.Server.Api.Handler.{World, Draws, Handler, ◌>>=◌, continue, give, Api, on_app}
use civ6_lan_bridge.Server.Api.Access.{
  bearer_prefix, login_prefix, within_rate, add_user, create_client_session, stored_hash,
  register_user, login_user, validate_username, hash_password, verify, require_bearer,
}
use civ6_lan_bridge.Server.Api.Access.Tokens.{require_bearer_iff}

-- Where a chain of steps has succeeded, its first step has, and the others on what that gave.
module _ {S : Type 0} {A B C : Type 0} {done : B} {last : S} where
  pub then-succeeds :
      (step : Handler S A) (next : A → Handler S B) (start : S)
      → (step >>= next) start ≡ (ok done, last)
      → ((value : A) (middle : S)
          → step start ≡ (ok value, middle)
          → next value middle ≡ (ok done, last)
          → C)
      → C
  unfolding ◌>>=◌
  then-succeeds step next start finished use_them = go (step start) refl finished
    where
      go : (o : Result ApiError A × S) → step start ≡ o → continue o next ≡ (ok done, last) → C
      go (err e, middle) reached finished = cc
      go (ok value, middle) reached finished = use_them value middle reached finished

-- What is so after a registration
record Registered (world : World) (payload : AuthRequest) (draws : Draws) (response : AuthResponse)
    (app : AppState) : Type 0 where
  pub hash : List ℕ
  pub named : validate_username world payload.username ≡ ok response.username
  pub hashed : world.hash_password payload.password draws.salt ≡ some hash
  pub account : HashMap.get app.users response.username ≡ some (record { password_hash = hash })
  pub token : response.access_token ≡ draws.access_token
  pub session :
      HashMap.get app.client_sessions response.access_token
      ≡ some (record { expires_at = draws.session_now + client_session_ttl })

module _ (world : World) where
  given :
      {A : Type 0} (r : Result ApiError A) (api last : Api world) (value : A)
      → give r api ≡ (ok value, last)
      → (r ≡ ok value) × (api ≡ last)
  unfolding give
  given r api last value h = (cc, cc)

  hash_password_inv :
      (password hash : List ℕ) (draws : Draws)
      → hash_password world password draws ≡ ok hash
      → world.hash_password password draws.salt ≡ some hash
  unfolding hash_password
  hash_password_inv password hash draws h = ground arith

  add_user_inv :
      (name hash : List ℕ) (app : AppState)
      → (add_user name hash app).0 ≡ ok tt
      → HashMap.get (add_user name hash app).1.users name ≡ some (record { password_hash = hash })
  unfolding add_user
  add_user_inv name hash app added =
      ground (arith, HashMap.get-insert app.users name (record { password_hash = hash }) name)

  account_added :
      (name hash : List ℕ) (api middle : Api world)
      → on_app world (add_user name hash) api ≡ (ok tt, middle)
      → HashMap.get middle.0.users name ≡ some (record { password_hash = hash })
  unfolding on_app
  account_added name hash api middle added =
      ap (λ o. HashMap.get o.1.0.users name) (sym added)
      ∙ add_user_inv name hash api.0 (ap (λ o. o.0) added)

  session_made :
      (payload : AuthRequest) (name hash : List ℕ) (draws : Draws) (api last : Api world)
      (response : AuthResponse)
      → validate_username world payload.username ≡ ok name
      → world.hash_password payload.password draws.salt ≡ some hash
      → HashMap.get api.0.users name ≡ some (record { password_hash = hash })
      → on_app world (create_client_session name draws) api ≡ (ok response, last)
      → Registered world payload draws response last.0
  unfolding on_app create_client_session
  session_made payload name hash draws api last response named hashed account made = record {
    hash = hash;
    named = cc;
    hashed = hashed;
    account =
        ap (λ o. HashMap.get o.1.0.users response.username) (sym made)
        ∙ (let h : response.username ≡ name = cc in rw (h) account);
    token = cc;
    session =
        ap (λ o. HashMap.get o.1.0.client_sessions response.access_token) (sym made)
        ∙ (let h : response.access_token ≡ draws.access_token = cc in
            rw (h) (
              ground (
                arith,
                HashMap.get-insert api.0.client_sessions draws.access_token
                    (record { expires_at = draws.session_now + client_session_ttl })
                    draws.access_token,
              )));
  }

  register_user_inv :
      (payload : AuthRequest) (draws : Draws) (api last : Api world) (response : AuthResponse)
      → register_user world payload draws api ≡ (ok response, last)
      → Registered world payload draws response last.0
  unfolding register_user
  register_user_inv payload draws api last response h0 = then-succeeds _ _ _ h0 λ name s1 e1 h1.
      then-succeeds _ _ _ h1 λ _ s2 e2 h2. then-succeeds _ _ _ h2 λ _ s3 e3 h3.
        then-succeeds _ _ _ h3 λ hash s4 e4 h4. then-succeeds _ _ _ h4 λ _ s5 e5 h5.
          session_made payload name hash draws s5 last response (given _ _ _ _ e1).0
            (hash_password_inv payload.password hash draws (given _ _ _ _ e4).0)
            (account_added name hash s4 s5 e5) h5

  -- With the name and password of a registration that succeeded, a login succeeds for as long as
  -- the account is stored and the limiter allows it: the reply has the stored name and the token
  -- drawn for it.
  pub register_user-login_user :
      (payload : AuthRequest) (draws again : Draws) (api last later : Api world)
      (response : AuthResponse)
      → register_user world payload draws api ≡ (ok response, last)
      → HashMap.get later.0.users response.username ≡ HashMap.get last.0.users response.username
      → (allow later.0.api_rate_limiter (login_prefix ++ response.username) again.arrival).0 ≡ true
      → (login_user world payload again later).0
        ≡ ok (record {
          username = response.username;
          access_token = again.access_token;
          expires_in_seconds = client_session_ttl;
        })
  unfolding login_user on_app give ◌>>=◌ within_rate stored_hash verify create_client_session
  register_user-login_user payload draws again api last later response done still allowed =
      let registered = register_user_inv payload draws api last response done in
      rw
        (
          registered.named,
          allowed,
          still ∙ registered.account,
          world.verify-hash payload.password draws.salt registered.hash registered.hashed,
        )
        refl

  -- The token that a registration gave is let through until its session ends, for as long as
  -- that session is stored and the limiter allows the token.
  pub register_user-require_bearer :
      (payload : AuthRequest) (draws again : Draws) (api last : Api world) (later : AppState)
      (response : AuthResponse)
      → register_user world payload draws api ≡ (ok response, last)
      → HashMap.get later.client_sessions response.access_token
        ≡ HashMap.get last.0.client_sessions response.access_token
      → again.session_now < draws.session_now + client_session_ttl
      → (allow later.api_rate_limiter response.access_token again.arrival).0 ≡ true
      → (require_bearer (some (bearer_prefix ++ response.access_token)) again later).0 ≡ ok tt
  register_user-require_bearer payload draws again api last later response done still live allowed =
      let registered = register_user_inv payload draws api last response done in
      (require_bearer_iff _ again later).1 (
        response.access_token,
        refl,
        record {
          known = inr (record {
            session = record { expires_at = draws.session_now + client_session_ttl };
            stored = still ∙ registered.session;
            later = live;
          });
          in_time = allowed;
        },
      )
