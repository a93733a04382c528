-- ===== src/Server/Api/Ends.antt =====
-- server/src/api.rs: rules for a handler that undoes what it did when it fails.
use civ6_lan_bridge.Prelude.{◌≡◌, refl, Result, ok, err}
use civ6_lan_bridge.Router.State.{RoomRouter, RouterError, Outcome}
use civ6_lan_bridge.Server.State.{AppState}
use civ6_lan_bridge.Server.Api.{ApiError}
use civ6_lan_bridge.Server.Api.Handler.{
  World, Handler, ◌>>=◌, continue, or_undo, undo, of_router, Api, on_router, ask_router, pure,
}
use civ6_lan_bridge.Server.Api.Keeps.{Leads, Keeps}

-- What holds of the router behind a step: `Q` where it has succeeded, `E` where it has failed.
abbrev pub Behind :
    {O A : Type 0}
    → (A → RoomRouter → Type 0)
    → (RoomRouter → Type 0)
    → Result ApiError A × (AppState × O)
    → Type 0
Behind Q E (ok a, api) = Q a api.0.router
Behind Q E (err e, api) = E api.0.router

pub record Ends {O A : Type 0} (P : RoomRouter → Type 0) (Q : A → RoomRouter → Type 0)
    (E : RoomRouter → Type 0) (step : Handler (AppState × O) A) : Type 0 where
  pub apply : (api : AppState × O) → P api.0.router → Behind Q E (step api)

module _ {O : Type 0} {A B : Type 0} (E : RoomRouter → Type 0) (Q : A → RoomRouter → Type 0)
    (R : B → RoomRouter → Type 0) where
  continue-Ends :
      (o : Result ApiError A × (AppState × O)) (next : A → Handler (AppState × O) B)
      → Behind Q E o
      → ((a : A) → Ends (Q a) R E (next a))
      → Behind R E (continue o next)
  continue-Ends (err e, api) next end f = end
  continue-Ends (ok a, api) next end f = (f a).apply api end

module _ {O : Type 0} {A B : Type 0} {P E : RoomRouter → Type 0} {Q : A → RoomRouter → Type 0}
    {R : B → RoomRouter → Type 0} where
  pub Ends-then :
      {step : Handler (AppState × O) A} {next : A → Handler (AppState × O) B}
      → Ends P Q E step
      → ((a : A) → Ends (Q a) R E (next a))
      → Ends P R E (step >>= next)
  unfolding ◌>>=◌
  Ends-then {step} {next} first rest = record {
    apply = λ api p. continue-Ends E Q R (step api) next (first.apply api p) rest;
  }

module _ {O : Type 0} {A B : Type 0} (E F : RoomRouter → Type 0) (Q : A → RoomRouter → Type 0) where
  undo-Ends :
      (o : Result ApiError A × (AppState × O)) (cleanup : Handler (AppState × O) B)
      → Behind Q F o
      → Leads F E cleanup
      → Behind Q E (undo o cleanup)
  undo-Ends (ok a, api) cleanup end f = end
  undo-Ends (err e, api) cleanup end f = f.apply api end

module _ {O : Type 0} {A B : Type 0} {P E F : RoomRouter → Type 0}
    {Q : A → RoomRouter → Type 0} where
  pub or_undo-Ends :
      {step : Handler (AppState × O) A} {cleanup : Handler (AppState × O) B}
      → Ends P Q F step
      → Leads F E cleanup
      → Ends P Q E (or_undo step cleanup)
  unfolding or_undo
  or_undo-Ends {step} {cleanup} first rest = record {
    apply = λ api p. undo-Ends E F Q (step api) cleanup (first.apply api p) rest;
  }

module _ {O : Type 0} {A : Type 0} where
  kept_ends :
      (P : RoomRouter → Type 0) (o : Result ApiError A × (AppState × O))
      → P o.1.0.router
      → Behind (λ _. P) P o
  kept_ends P (ok a, api) p = p
  kept_ends P (err e, api) p = p

  pub Keeps-Ends :
      {P : RoomRouter → Type 0} {step : Handler (AppState × O) A}
      → Keeps P step
      → Ends P (λ _. P) P step
  Keeps-Ends {P} {step} keeps = record {
    apply = λ api p. kept_ends P (step api) (keeps.apply api p);
  }

module _ (world : World) {A : Type 0} (E : RoomRouter → Type 0) (Q : A → RoomRouter → Type 0) where
  router_ends :
      (app : AppState) (outside : world.Outside) (o : Outcome A)
      → ((a : A) → o.0 ≡ ok a → Q a o.1)
      → ((e : RouterError) → o.0 ≡ err e → E o.1)
      → Behind Q E (of_router o.0, (record app { router = o.1 }, outside))
  router_ends app outside (ok a, s) succeeds fails = succeeds a refl
  router_ends app outside (err e, s) succeeds fails = fails e refl

  asked_ends :
      (api : Api world) (r : Result ApiError A)
      → ((a : A) → r ≡ ok a → Q a api.0.router)
      → ((e : ApiError) → r ≡ err e → E api.0.router)
      → Behind Q E (r, api)
  asked_ends api (ok a) succeeds fails = succeeds a refl
  asked_ends api (err e) succeeds fails = fails e refl

module _ (world : World) {A : Type 0} {P E : RoomRouter → Type 0}
    {Q : A → RoomRouter → Type 0} where
  -- A call of a method, by what it makes of a router that has `P`
  pub on_router-Ends :
      (method : RoomRouter → Outcome A)
      → ((s : RoomRouter) → P s → (a : A) → (method s).0 ≡ ok a → Q a (method s).1)
      → ((s : RoomRouter) → P s → (e : RouterError) → (method s).0 ≡ err e → E (method s).1)
      → Ends P Q E (on_router world method)
  unfolding on_router
  on_router-Ends method succeeds fails = record {
    apply = λ api p.
        router_ends world E Q api.0 api.1 (method api.0.router) (succeeds api.0.router p)
          (fails api.0.router p);
  }

  pub ask_router-Ends :
      (question : RoomRouter → Result ApiError A)
      → ((s : RoomRouter) → P s → (a : A) → question s ≡ ok a → Q a s)
      → ((s : RoomRouter) → P s → (e : ApiError) → question s ≡ err e → E s)
      → Ends P Q E (ask_router world question)
  unfolding ask_router
  ask_router-Ends question succeeds fails = record {
    apply = λ api p.
        asked_ends world E Q api (question api.0.router) (succeeds api.0.router p)
          (fails api.0.router p);
  }

module _ {O : Type 0} {A : Type 0} {P E : RoomRouter → Type 0} {Q : A → RoomRouter → Type 0} where
  pub pure-Ends : (a : A) → ((s : RoomRouter) → P s → Q a s) → Ends {O = O} P Q E (pure a)
  unfolding pure
  pure-Ends a f = record { apply = λ api p. f api.0.router p }

module _ {O : Type 0} {A : Type 0} (P E : RoomRouter → Type 0) where
  kept-Behind :
      (o : Result ApiError A × (AppState × O))
      → P o.1.0.router
      → ((s : RoomRouter) → P s → E s)
      → Behind (λ _. P) E o
  kept-Behind (ok a, api) p f = p
  kept-Behind (err e, api) p f = f api.0.router p

module _ {O : Type 0} {A : Type 0} {P E : RoomRouter → Type 0} where
  pub quiet-Ends :
      {step : Handler (AppState × O) A}
      → Keeps P step
      → ((s : RoomRouter) → P s → E s)
      → Ends P (λ _. P) E step
  quiet-Ends {step} keeps f = record {
    apply = λ api p. kept-Behind P E (step api) (keeps.apply api p) f;
  }
