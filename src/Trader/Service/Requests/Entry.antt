-- ===== src/Trader/Service/Requests/Entry.antt =====
-- `Create` of internal/api/v1/service/trader_svc.go.
use fxcore.Prelude.{
  ℕ, ◌≡◌, ◌≢◌, ◌≤◌, refl, Bool, true, false, not, Option, none, some, String, eq_iff, eq_refl,
  arith, if◌then◌else◌, is_some, length,
}
use fxcore.Prelude.Int.{pos, ltb_ℤ}
use fxcore.Prelude.Float.{Float64}
use fxcore.Prelude.Dict.Laws.{lookup-insert}
use fxcore.Model.Trader.{Schedule, Trader}
use fxcore.Middleware.ApiError.{ApiError}
use fxcore.Store.{Store}
use fxcore.Store.Traders.{get_model, get_trader, create_trader}
use fxcore.Trader.Service.Requests.{
  CreateRequest, ok, err, valid_exchange, max_active_hours, schedule_error, first_error,
  create_error, fresh_trader, entered, create,
}

-- A schedule, if there is one, has no negative interval and at most 24 active hours.
abbrev pub IsBounded : Option Schedule → Type 0
IsBounded none = Unit
IsBounded (some c) = (ltb_ℤ c.interval (pos 0) ≡ false) × (length c.active_hours ≤ max_active_hours)

schedule_error-none : (o : Option Schedule) → schedule_error o ≡ none → IsBounded o
schedule_error-none none h = tt
schedule_error-none (some c) h = (ground (arith, h), ground (arith, h))

first_error-none : (a b : Option ApiError) → first_error a b ≡ none → (a ≡ none) × (b ≡ none)
first_error-none none b h = (refl, h)
first_error-none (some e) b h = cc

if-none : (e : ApiError) (b : Bool) → (if b then none else some e) ≡ none → b ≡ true
if-none e true h = refl
if-none e false h = cc

if_not-none :
    (e : ApiError) (o : Option ApiError) (b : Bool)
    → (if not b then some e else o) ≡ none
    → (b ≡ true) × (o ≡ none)
if_not-none e o true h = (refl, h)
if_not-none e o false h = cc

module _ {F : Type 0} where
  -- What holds of a request that passes the checks.
  abbrev pub IsAcceptable : CreateRequest F → Store F → Type 0
  IsAcceptable r s =
      (valid_exchange r.exchange ≡ true)
      × (is_some (get_model r.model_config.model_id s) ≡ true)
      × IsBounded r.schedule

  create_error-none :
      (r : CreateRequest F) (s : Store F) → create_error r s ≡ none → IsAcceptable r s
  unfolding create_error
  create_error-none r s h =
      let (valid, rest) = if_not-none _ _ (valid_exchange r.exchange) h in
      let (model, schedule) = first_error-none _ (schedule_error r.schedule) rest in
      (
        valid,
        if-none _ (is_some (get_model r.model_config.model_id s)) model,
        schedule_error-none r.schedule schedule,
      )

module _ {F : Type 0} ⦃f : Float64 F⦄ where
  -- The trader that is entered: idle and of the user.
  abbrev pub new_trader : ℕ → String → String → CreateRequest F → Trader F
  new_trader now fresh user_id r = record (fresh_trader user_id r) {
    id = fresh;
    created_at = now;
    updated_at = now;
  }

  entered-eq :
      (now : ℕ) (fresh user_id : String) (r : CreateRequest F) (s : Store F)
      → let (a, s') = entered now fresh user_id r s in
        let t = new_trader now fresh user_id r in
        (a ≡ ok t)
        × (get_trader fresh s' ≡ some t)
        × ((j : String) → j ≢ fresh → get_trader j s' ≡ get_trader j s)
  unfolding create_trader get_trader
  entered-eq now fresh user_id r s = (
    rw lookup-insert (rw eq_refl refl),
    rw lookup-insert (rw eq_refl refl),
    λ j ne. rw lookup-insert (ground (arith, eq_iff fresh j)),
  )

  -- `Create` enters nothing if one of its checks fails. If none does, it enters an idle trader of the
  -- user under the new id, of a known exchange, with a model that is there and a schedule within
  -- bounds, answers with it as it is stored, and leaves the other traders alone.
  pub create_lem :
      (now : ℕ) (fresh user_id : String) (r : CreateRequest F) (s : Store F)
      → let (a, s') = create now fresh user_id r s in
        let t = new_trader now fresh user_id r in
        ((e : ApiError) → create_error r s ≡ some e → (a ≡ err e) × (s' ≡ s))
        × (create_error r s ≡ none
            → (a ≡ ok t)
              × (get_trader fresh s' ≡ some t)
              × ((j : String) → j ≢ fresh → get_trader j s' ≡ get_trader j s)
              × IsAcceptable r s)
  unfolding create
  create_lem now fresh user_id r s = (
    λ e h. rw h (refl, refl),
    λ h.
        let (answer, there, others) = entered-eq now fresh user_id r s in
        rw h (answer, there, others, create_error-none r s h),
  )
