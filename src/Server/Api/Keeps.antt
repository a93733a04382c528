-- ===== src/Server/Api/Keeps.antt =====
-- server/src/api.rs: rules for what a handler makes of the router, step by step.
use civ6_lan_bridge.Prelude.{◌≡◌, subst, sym, Bool, true, false, if◌then◌else◌, Result, ok, err}
use civ6_lan_bridge.Router.State.{RoomRouter, Outcome}
use civ6_lan_bridge.Server.State.{AppState}
use civ6_lan_bridge.Server.Api.{ApiError}
use civ6_lan_bridge.Server.Api.Handler.{
  World, Handler, ◌>>=◌, continue, pure, give, or_undo, undo, either_way, Statement, on_app,
  on_router, ask_router, ask_app, in_database, executed,
}

-- Whatever the step gives, it takes a router with `P` to a router with `Q`.
pub record Leads {O A : Type 0} (P Q : RoomRouter → Type 0) (step : Handler (AppState × O) A)
    : Type 0 where
  pub apply : (api : AppState × O) → P api.0.router → Q (step api).1.0.router

abbrev pub Keeps : {O A : Type 0} → (RoomRouter → Type 0) → Handler (AppState × O) A → Type 0
Keeps P step = Leads P P step

module _ {O : Type 0} {A B : Type 0} {Q R : RoomRouter → Type 0} where
  continue-Leads :
      (o : Result ApiError A × (AppState × O)) (next : A → Handler (AppState × O) B)
      → Q o.1.0.router
      → ((a : A) → Leads Q R (next a))
      → ((s : RoomRouter) → Q s → R s)
      → R (continue o next).1.0.router
  continue-Leads (err e, api) next q f w = w api.0.router q
  continue-Leads (ok a, api) next q f w = (f a).apply api q

module _ {O : Type 0} {A B : Type 0} {P Q R : RoomRouter → Type 0} where
  -- Where the first step fails, its own end has to do.
  pub Leads-then :
      {step : Handler (AppState × O) A} {next : A → Handler (AppState × O) B}
      → ((s : RoomRouter) → Q s → R s)
      → Leads P Q step
      → ((a : A) → Leads Q R (next a))
      → Leads P R (step >>= next)
  unfolding ◌>>=◌
  Leads-then {step} {next} w first rest = record {
    apply = λ api p. continue-Leads (step api) next (first.apply api p) rest w;
  }

module _ {O : Type 0} {A B : Type 0} {P : RoomRouter → Type 0} where
  pub Keeps-then :
      {step : Handler (AppState × O) A} {next : A → Handler (AppState × O) B}
      → Keeps P step
      → ((a : A) → Keeps P (next a))
      → Keeps P (step >>= next)
  Keeps-then {step} {next} first rest = Leads-then {step = step} {next = next} (λ s p. p) first rest

  undo-Keeps :
      (o : Result ApiError A × (AppState × O)) (cleanup : Handler (AppState × O) B)
      → P o.1.0.router
      → Keeps P cleanup
      → P (undo o cleanup).1.0.router
  undo-Keeps (ok a, api) cleanup p f = p
  undo-Keeps (err e, api) cleanup p f = f.apply api p

  pub or_undo-Keeps :
      {step : Handler (AppState × O) A} {cleanup : Handler (AppState × O) B}
      → Keeps P step
      → Keeps P cleanup
      → Keeps P (or_undo step cleanup)
  unfolding or_undo
  or_undo-Keeps {step} {cleanup} first rest = record {
    apply = λ api p. undo-Keeps (step api) cleanup (first.apply api p) rest;
  }

module _ {O : Type 0} {A B : Type 0} {P Q R : RoomRouter → Type 0} where
  pub either_way-Leads :
      {step : Handler (AppState × O) A} {rest : Handler (AppState × O) B}
      → Leads P Q step
      → Leads Q R rest
      → Leads P R (either_way step rest)
  unfolding either_way
  either_way-Leads {step} first rest = record {
    apply = λ api p. rest.apply (step api).1 (first.apply api p);
  }

module _ {O A : Type 0} {P : RoomRouter → Type 0} where
  pub give-Keeps : (r : Result ApiError A) → Keeps {O = O} P (give r)
  unfolding give
  give-Keeps r = record { apply = λ api p. p }

  pub pure-Keeps : (a : A) → Keeps {O = O} P (pure a)
  unfolding pure
  pure-Keeps a = record { apply = λ api p. p }

module _ (world : World) {A : Type 0} {P : RoomRouter → Type 0} where
  pub ask_router-Keeps : (f : RoomRouter → Result ApiError A) → Keeps P (ask_router world f)
  unfolding ask_router
  ask_router-Keeps f = record { apply = λ api p. p }

  pub ask_app-Keeps : (f : AppState → A) → Keeps P (ask_app world f)
  unfolding ask_app
  ask_app-Keeps f = record { apply = λ api p. p }

  pub on_app-Keeps :
      (step : AppState → Result ApiError A × AppState)
      → ((app : AppState) → (step app).1.router ≡ app.router)
      → Keeps P (on_app world step)
  unfolding on_app
  on_app-Keeps step same = record { apply = λ api p. subst P (sym (same api.0)) p }

  pub on_router-Leads :
      {Q : RoomRouter → Type 0} (method : RoomRouter → Outcome A)
      → ((s : RoomRouter) → P s → Q (method s).1)
      → Leads P Q (on_router world method)
  unfolding on_router
  on_router-Leads method f = record { apply = λ api p. f api.0.router p }

module _ (world : World) (P : RoomRouter → Type 0) where
  executed-Keeps :
      (error : ApiError) (app : AppState) (o : Bool × world.Outside)
      → P app.router
      → P (executed world error app o).1.0.router
  executed-Keeps error app (true, outside) p = p
  executed-Keeps error app (false, outside) p = p

  pub in_database-Keeps :
      (statement : Statement) (error : ApiError) → Keeps P (in_database world statement error)
  unfolding in_database
  in_database-Keeps statement error = record { apply = λ api p. go api.0 api.1 api.0.database p }
    where
      go :
          (app : AppState) (outside : world.Outside) (configured : Bool)
          → P app.router
          → P
              (if configured
                then executed world error app (world.execute statement outside)
                else (ok tt, (app, outside))).1.0.router
      go app outside true p = executed-Keeps error app (world.execute statement outside) p
      go app outside false p = p
