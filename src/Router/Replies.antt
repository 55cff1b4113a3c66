-- ===== src/Router/Replies.antt =====
-- Which provider is called, and what a caller gets when the context is done.
use mathlib.Core.Path.{subst}
use cloud_agent_platform.Base.{
  ℕ, suc, ◌-◌, ◌<◌, ◌≡◌, ◌∙◌, sym, ap, refl, inl, inr, ◌⊎◌, String, true, false, not, ◌&&◌, Option,
  none, some, List, [], ◌∷◌, arith, ◌==◌, string_comparable, same_self, if◌then◌else◌, contains,
  All, Bool-cases,
}
use cloud_agent_platform.Base.Int64.{slt, slt_small, IsNonneg}
use cloud_agent_platform.Base.Float.{Float}
use cloud_agent_platform.Retry.{
  CallError, RetryConfig, Round, context_error, retry_from, do_with_retry,
}
use cloud_agent_platform.Router.Selector.{ModelSelector, is_model_available}
use cloud_agent_platform.Router.{
  LlmRequest, RouterError, Answers, returned, fallback_from, try_fallback, after_failure,
  after_retry, call_model, complete_level, complete, chosen_model, called_model, or_default, others,
  record_calls,
}
use cloud_agent_platform.Router.State.{Router, find_alternative, handle_failure, try_upgrade}
use cloud_agent_platform.Router.Depth.{complete_from-returned}

retry_from-done :
    (c : RetryConfig) (at : ℕ → Round) (left : ℕ)
    → (at 0).done_before ≡ true
    → retry_from c at (suc left) 0 none ≡ (context_error, 0)
unfolding retry_from
retry_from-done c at left h = rw (h, retry_from) refl

do_with_retry-done :
    (c : RetryConfig) (at : ℕ → Round)
    → 0 < c.max_attempts
    → IsNonneg c.max_attempts
    → (at 0).done_before ≡ true
    → do_with_retry c at ≡ (context_error, 0)
unfolding do_with_retry
do_with_retry-done c at p n h =
    let all : (if slt 0 c.max_attempts then c.max_attempts else 0) ≡ suc (c.max_attempts - 1) =
      ground (arith, slt_small 0 c.max_attempts (omega arith) n) in
    ap (λ left. retry_from c at left 0 none) all ∙ retry_from-done c at (c.max_attempts - 1) h

module _ (fl : Float) where
  -- Every provider refuses as a fallback.
  abbrev pub Refuse : Answers → Type 0
  Refuse a = (c : String) → (err : CallError) × (a.fallback_error c ≡ some err)

  fallback_from-none :
      (a : Answers) (failed : String) (candidates : List String) (r : Router fl)
      → Refuse a
      → (fallback_from fl a failed candidates r).1 ≡ none
  unfolding fallback_from
  fallback_from-none a failed [] r h = refl
  fallback_from-none a failed (c ∷ cs) r h =
      let (err, e) = h c in
      ground (
        arith,
        e,
        fallback_from-none a failed cs r h,
        fallback_from-none a failed cs (handle_failure fl a.now c r) h,
      )

  after_failure-refused :
      (a : Answers) (m : String) (err : Option RouterError) (r : Router fl)
      → Refuse a
      → r.config.enable_adaptive_routing ≡ false
      → after_failure fl a m err r ≡ returned (try_fallback fl a m r).0 none err
  unfolding after_failure try_fallback
  after_failure-refused a m err r refuse not_adaptive =
      let after = try_fallback fl a m r in
      let next = try_upgrade fl m after.0 in
      let gone : after.1 ≡ none =
        fallback_from-none a m (or_default fl (others fl m r.providers) r.config.fallback_order) r
          refuse in
      let stays : (r.config.enable_adaptive_routing && (not (next == m) && not (next == "")))
          ≡ false =
        ground arith in
      rw (gone, stays, after_failure) refl

  -- The context is done before the first attempt: no call is made, and there is no error to return.
  call_model-done :
      (a : Answers) (m : String) (r : Router fl)
      → 0 < r.config.retry_config.max_attempts
      → IsNonneg r.config.retry_config.max_attempts
      → (a.rounds m 0).done_before ≡ true
      → call_model fl a m r ≡ after_failure fl a m none r
  unfolding call_model after_retry record_calls
  call_model-done a m r p n h =
      ap (λ q. after_retry fl a m q r) (do_with_retry-done r.config.retry_config (a.rounds m) p n h)

  complete_level-registered :
      (a : Answers) (req : LlmRequest) (r : Router fl)
      → contains (chosen_model fl req r) r.providers ≡ true
      → complete_level fl a req r ≡ call_model fl a (called_model fl (chosen_model fl req r) r) r
  unfolding complete_level
  complete_level-registered a req r h = rw (h, complete_level) refl

  -- A request whose context is done before the first attempt, and which every provider refuses as a
  -- fallback, gets neither a response nor an error, if the provider of the chosen model is registered,
  -- at least one attempt is allowed and adaptive routing is off.
  pub complete-done :
      (answers : ℕ → Answers) (req : LlmRequest) (r : Router fl)
      → contains (chosen_model fl req r) r.providers ≡ true
      → (((answers 0).rounds (called_model fl (chosen_model fl req r) r) 0).done_before ≡ true)
      → Refuse (answers 0)
      → 0 < r.config.retry_config.max_attempts
      → IsNonneg r.config.retry_config.max_attempts
      → r.config.enable_adaptive_routing ≡ false
      → (r' : Router fl) × (complete fl answers req r ≡ some (r', none, none))
  unfolding complete
  complete-done answers req r registered done refuse p n not_adaptive =
      let m = called_model fl (chosen_model fl req r) r in
      let r' = (try_fallback fl (answers 0) m r).0 in
      (
        r',
        complete_from-returned fl 1 0 answers req r r' none none (
            complete_level-registered (answers 0) req r registered
            ∙ call_model-done (answers 0) m r p n done
            ∙ after_failure-refused (answers 0) m none r refuse not_adaptive),
      )

  module _ (m : String) (s : ModelSelector fl) where
    find_alternative-nil : find_alternative fl m s [] ≡ ""
    unfolding find_alternative
    find_alternative-nil = refl

    find_alternative-cons :
        (p : String) (ps : List String)
        → find_alternative fl m s (p ∷ ps)
          ≡ (if not (p == m) && is_model_available fl p s then p else find_alternative fl m s ps)
    unfolding find_alternative
    find_alternative-cons p ps = refl

    -- An available provider with a name.
    abbrev Found : String → List String → Type 0
    Found x ps = (is_model_available fl x s ≡ true) × (contains x ps ≡ true) × ((x == "") ≡ false)

    -- The loop finds an available provider other than `m`, or finds none because there is none.
    find_alternative_lem :
        (ps : List String)
        → All (λ p. (p == "") ≡ false) ps
        → Found (find_alternative fl m s ps) ps
          ⊎ ((find_alternative fl m s ps ≡ "")
              × All (λ p. ((p == m) ≡ true) ⊎ (is_model_available fl p s ≡ false)) ps)
    unfolding contains
    find_alternative_lem [] named = inr (find_alternative-nil, tt)
    find_alternative_lem (p ∷ ps) (name, named) =
        elim (Bool-cases (not (p == m) && is_model_available fl p s)) [
          | inl e ↦
              let step : find_alternative fl m s (p ∷ ps) ≡ p =
                rw (find_alternative-cons p ps, e) refl in
              inl (
                subst (λ x. Found x (p ∷ ps)) (sym step)
                  (ground arith, ground (arith, same_self p), name))
          | inr e ↦ elim (find_alternative_lem ps named) [
            | inl (available, inside, other) ↦
                let step : find_alternative fl m s (p ∷ ps) ≡ find_alternative fl m s ps =
                  rw (find_alternative-cons p ps, e) refl in
                inl (subst (λ x. Found x (p ∷ ps)) (sym step) (available, ground arith, other))
            | inr (none_found, rest) ↦ inr (
              rw (find_alternative-cons p ps, e) none_found,
              (elim (Bool-cases (p == m)) [ inl q ↦ inl q | inr q ↦ inr (ground arith) ], rest),
            )
          ]
        ]

  -- The model that is called is available, and a registered provider if it is not the chosen one, or
  -- else no other registered provider is available; the names of the providers are not empty.
  called_model_lem :
      (m : String) (r : Router fl)
      → All (λ p. (p == "") ≡ false) r.providers
      → ((is_model_available fl (called_model fl m r) r.selector ≡ true)
          × ((called_model fl m r ≡ m) ⊎ (contains (called_model fl m r) r.providers ≡ true)))
        ⊎ ((called_model fl m r ≡ m)
            × All
                (λ p. ((p == m) ≡ true) ⊎ (is_model_available fl p r.selector ≡ false))
                r.providers)
  unfolding called_model
  called_model_lem m r named = elim (Bool-cases (is_model_available fl m r.selector)) [
    | inl e ↦ inl (rw (e, called_model) (e, inl refl))
    | inr e ↦ elim (find_alternative_lem m r.selector r.providers named) [
      | inl (available, inside, other) ↦ inl (rw (e, other, called_model) (available, inr inside))
      | inr (none_found, rest) ↦ inr (rw (e, none_found, called_model) refl, rest)
    ]
  ]
