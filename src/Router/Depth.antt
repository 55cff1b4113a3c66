-- ===== src/Router/Depth.antt =====
-- `Complete` calls itself at most once.
use mathlib.Core.Path.{subst}
use cloud_agent_platform.Base.{
  ℕ, suc, ◌+◌, ◌≡◌, ◌∙◌, sym, ap, refl, inl, inr, String, true, false, not, ◌&&◌, Option, some,
  arith, ◌==◌, string_comparable, contains, Bool-cases, Option-cases,
}
use cloud_agent_platform.Base.Float.{Float}
use cloud_agent_platform.Retry.{RetryResult, succeeded, context_error, gave_up, do_with_retry}
use cloud_agent_platform.Router.Selector.{is_model_available}
use cloud_agent_platform.Router.{
  LlmRequest, RouterError, Answers, Level, returned, upgraded, record_calls, try_fallback,
  after_failure, after_retry, call_model, complete_level, complete_from, complete, chosen_model,
  called_model, last_error,
}
use cloud_agent_platform.Router.State.{Router, try_upgrade, upgrade_model}
use cloud_agent_platform.Router.Levels.{
  LevelHas, complete_level-LevelHas, Level-cases, try_upgrade-fixed,
}

module _ (fl : Float) where
  abbrev IsLast : Level fl → Type 0
  IsLast (returned r response err) = Unit
  IsLast (upgraded u r) = ⊥

  after_failure-IsLast :
      (a : Answers) (u : String) (err : Option RouterError) (r : Router fl)
      → upgrade_model u ≡ u
      → IsLast (after_failure fl a u err r)
  unfolding after_failure
  after_failure-IsLast a u err r h =
      let after = try_fallback fl a u r in
      let next = try_upgrade fl u after.0 in
      elim (Option-cases after.1) [
        | inl e ↦
            elim (Bool-cases
              (r.config.enable_adaptive_routing && (not (next == u) && not (next == "")))) [
                | inl b ↦ absurd (ground (arith, try_upgrade-fixed fl u after.0 h))
                | inr b ↦ rw (e, b, after_failure) tt
              ]
        | inr (resp, e) ↦ rw (e, after_failure) tt
      ]

  after_retry-IsLast :
      (a : Answers) (u : String) (result : RetryResult) (calls : ℕ) (r : Router fl)
      → upgrade_model u ≡ u
      → IsLast (after_retry fl a u (result, calls) r)
  unfolding after_retry
  after_retry-IsLast a u succeeded calls r h = tt
  after_retry-IsLast a u context_error calls r h =
      after_failure-IsLast a u (last_error fl (a.rounds u) calls)
        (record_calls fl a.now u (a.rounds u) calls 0 r) h
  after_retry-IsLast a u (gave_up err) calls r h =
      after_failure-IsLast a u (last_error fl (a.rounds u) calls)
        (record_calls fl a.now u (a.rounds u) calls 0 r) h

  call_model-IsLast :
      (a : Answers) (u : String) (r : Router fl)
      → upgrade_model u ≡ u
      → IsLast (call_model fl a u r)
  unfolding call_model
  call_model-IsLast a u r h =
      let retried = do_with_retry r.config.retry_config (a.rounds u) in
      after_retry-IsLast a u retried.0 retried.1 r h

  -- An available model with a name is the one that is chosen and called.
  chosen_model-available :
      (req : LlmRequest) (r : Router fl)
      → is_model_available fl req.model r.selector ≡ true
      → (req.model == "") ≡ false
      → (chosen_model fl req r ≡ req.model) × (called_model fl req.model r ≡ req.model)
  unfolding chosen_model called_model
  chosen_model-available req r h k = (rw (h, k) refl, rw h refl)

  complete_level-IsLast :
      (a : Answers) (req : LlmRequest) (r : Router fl)
      → is_model_available fl req.model r.selector ≡ true
      → (req.model == "") ≡ false
      → upgrade_model req.model ≡ req.model
      → IsLast (complete_level fl a req r)
  unfolding complete_level
  complete_level-IsLast a req r h k u =
      let (chosen, called) = chosen_model-available req r h k in
      let same : called_model fl (chosen_model fl req r) r ≡ req.model =
        ap (λ m. called_model fl m r) chosen ∙ called in
      elim (Bool-cases (contains (chosen_model fl req r) r.providers)) [
        | inl e ↦
            rw (e, complete_level)
              (subst (λ m. IsLast (call_model fl a m r)) (sym same)
                (call_model-IsLast a req.model r u))
        | inr e ↦ rw (e, complete_level) tt
      ]

  module _ (fuel level : ℕ) (answers : ℕ → Answers) (req : LlmRequest) (r : Router fl) where
    pub complete_from-returned :
        (r' : Router fl) (response : Option String) (err : Option RouterError)
        → complete_level fl (answers level) req r ≡ returned r' response err
        → complete_from fl (suc fuel) level answers req r ≡ some (r', response, err)
    unfolding complete_from
    complete_from-returned r' response err e = rw (e, complete_from) refl

    complete_from-upgraded :
        (u : String) (r' : Router fl)
        → complete_level fl (answers level) req r ≡ upgraded u r'
        → complete_from fl (suc fuel) level answers req r
          ≡ complete_from fl fuel (level + 1) answers (record req { model = u }) r'
    unfolding complete_from
    complete_from-upgraded u r' e = rw (e, complete_from) refl

  -- After at most one upgrade `Complete` returns: the fuel is enough.
  pub complete-returns :
      (answers : ℕ → Answers) (req : LlmRequest) (r : Router fl)
      → (r' : Router fl) × (response : Option String) × (err : Option RouterError) × (complete fl
            answers req r
          ≡ some (r', response, err))
  unfolding complete
  complete-returns answers req r =
      let any : Router fl → Type 0 = λ r'. Unit {0} in
      let has =
        complete_level-LevelHas fl any (λ now k r' h. tt) (λ now k r' h. tt) (answers 0) req r tt in
      elim (Level-cases fl (complete_level fl (answers 0) req r)) [
        | inl (r', response, err, e) ↦
            (r', response, err, complete_from-returned 1 0 answers req r r' response err e)
        | inr (u, r', e) ↦
            let up = subst (LevelHas fl any (λ now k r' h. tt) (λ now k r' h. tt)) e has in
            let req' = record req { model = u } in
            let last = complete_level-IsLast (answers 1) req' r' up.2 up.3 up.1 in
            elim (Level-cases fl (complete_level fl (answers 1) req' r')) [
              | inl (r'', response, err, f) ↦ (
                r'',
                response,
                err,
                complete_from-upgraded 1 0 answers req r u r' e
                    ∙ complete_from-returned 0 1 answers req' r' r'' response err f,
              )
              | inr (v, r'', f) ↦ absurd (subst IsLast f last)
            ]
      ]
