-- ===== src/Router/Levels.antt =====
-- What one level of `Complete` keeps, and when it goes on with an upgraded model.
use mathlib.Core.Path.{subst}
use cloud_agent_platform.Base.{
  ℕ, zero, suc, ◌+◌, ◌≡◌, sym, refl, inl, inr, ◌⊎◌, String, true, false, not, ◌&&◌, Option, List,
  [], ◌∷◌, arith, ◌==◌, string_comparable, contains, Bool-cases, Option-cases,
}
use cloud_agent_platform.Base.Float.{Float}
use cloud_agent_platform.Retry.{
  Round, RetryResult, succeeded, context_error, gave_up, do_with_retry,
}
use cloud_agent_platform.Router.Selector.{
  claude_sonnet, claude_haiku, glm_5, glm_5_air, is_model_available,
}
use cloud_agent_platform.Router.{
  LlmRequest, RouterError, Answers, Level, returned, upgraded, record_calls, fallback_from,
  try_fallback, after_failure, after_retry, call_model, complete_level, chosen_model, called_model,
  or_default, others, last_error,
}
use cloud_agent_platform.Router.State.{
  Router, handle_failure, handle_success, try_upgrade, upgrade_model,
}

-- An upgraded model is not upgraded again.
upgrade_model-range : (m : String) → (upgrade_model m ≡ claude_sonnet) ⊎ (upgrade_model m ≡ glm_5)
unfolding upgrade_model
upgrade_model-range m = elim (Bool-cases (m == claude_haiku)) [
  | inl e ↦ inl (rw e refl)
  | inr e ↦ elim (Bool-cases (m == glm_5_air)) [
    | inl f ↦ inr (rw (e, f) refl)
    | inr f ↦ elim (Bool-cases (m == claude_sonnet)) [
      | inl g ↦ inl (rw (e, f, g) ((string_comparable.same_iff m claude_sonnet).0 g))
      | inr g ↦ elim (Bool-cases (m == glm_5)) [
        | inl h ↦ inr (rw (e, f, g, h) ((string_comparable.same_iff m glm_5).0 h))
        | inr h ↦ inl (rw (e, f, g, h) refl)
      ]
    ]
  ]
]

pub upgrade_model_idem : (m : String) → upgrade_model (upgrade_model m) ≡ upgrade_model m
unfolding upgrade_model
upgrade_model_idem m = elim (upgrade_model-range m) [
  | inl e ↦ subst (λ u. upgrade_model u ≡ u) (sym e) refl
  | inr e ↦ subst (λ u. upgrade_model u ≡ u) (sym e) refl
]

upgrade_model-named : (m : String) → (upgrade_model m == "") ≡ false
upgrade_model-named m = elim (upgrade_model-range m) [ inl e ↦ rw e refl | inr e ↦ rw e refl ]

module _ (fl : Float) where
  -- A model that is not the current one is its upgrade, and available.
  try_upgrade_lem :
      (k : String) (r : Router fl)
      → (try_upgrade fl k r == k) ≡ false
      → (try_upgrade fl k r ≡ upgrade_model k)
        × (is_model_available fl (try_upgrade fl k r) r.selector ≡ true)
  unfolding try_upgrade
  try_upgrade_lem k r h =
      ground (arith, string_comparable.same_iff k k, string_comparable.same_iff (upgrade_model k) k)

  -- A model which is its own upgrade stays.
  pub try_upgrade-fixed :
      (k : String) (r : Router fl) → upgrade_model k ≡ k → (try_upgrade fl k r == k) ≡ true
  unfolding try_upgrade
  try_upgrade-fixed k r h =
      ground (arith, string_comparable.same_iff k k, string_comparable.same_iff (upgrade_model k) k)

  module _ (Q : Router fl → Type 0)
      (failure_keeps : (now : ℕ) (k : String) (r : Router fl) → Q r → Q (handle_failure fl now k r))
      (success_keeps : (now : ℕ) (k : String) (r : Router fl)
        → Q r
        → Q (handle_success fl now k r)) where
    -- `Q` holds of the router; an upgraded model is available, has a name and is not upgraded again.
    abbrev pub LevelHas : Level fl → Type 0
    LevelHas (returned r response err) = Q r
    LevelHas (upgraded u r) =
        Q r
        × (upgrade_model u ≡ u)
        × (is_model_available fl u r.selector ≡ true)
        × ((u == "") ≡ false)

    record_calls-keeps :
        (now : ℕ) (k : String) (at : ℕ → Round) (calls attempt : ℕ) (r : Router fl)
        → Q r
        → Q (record_calls fl now k at calls attempt r)
    unfolding record_calls
    record_calls-keeps now k at zero attempt r h = h
    record_calls-keeps now k at (suc calls) attempt r h =
        elim (Option-cases (at attempt).returned) [
          | inl e ↦
              rw (e, record_calls)
                (record_calls-keeps now k at calls (attempt + 1) (handle_success fl now k r)
                  (success_keeps now k r h))
          | inr (err, e) ↦
              rw (e, record_calls)
                (record_calls-keeps now k at calls (attempt + 1) (handle_failure fl now k r)
                  (failure_keeps now k r h))
        ]

    fallback_from-keeps :
        (a : Answers) (failed : String) (candidates : List String) (r : Router fl)
        → Q r
        → Q (fallback_from fl a failed candidates r).0
    unfolding fallback_from
    fallback_from-keeps a failed [] r h = h
    fallback_from-keeps a failed (candidate ∷ candidates) r h = ground (
      arith,
      fallback_from-keeps a failed candidates r h,
      fallback_from-keeps a failed candidates (handle_failure fl a.now candidate r)
          (failure_keeps a.now candidate r h),
      success_keeps a.now candidate r h,
    )

    after_failure-LevelHas :
        (a : Answers) (k : String) (err : Option RouterError) (r : Router fl)
        → Q r
        → LevelHas (after_failure fl a k err r)
    unfolding after_failure try_fallback
    after_failure-LevelHas a k err r h =
        let candidates = or_default fl (others fl k r.providers) r.config.fallback_order in
        let after = fallback_from fl a k candidates r in
        let kept = fallback_from-keeps a k candidates r h in
        let next = try_upgrade fl k after.0 in
        elim (Option-cases after.1) [
          | inl e ↦
              elim (Bool-cases
                (r.config.enable_adaptive_routing && (not (next == k) && not (next == "")))) [
                  | inl b ↦
                      let (up, available) = try_upgrade_lem k after.0 (ground arith) in
                      rw (e, b, after_failure)
                        (
                          kept,
                          subst (λ u. upgrade_model u ≡ u) (sym up) (upgrade_model_idem k),
                          available,
                          ground arith,
                        )
                  | inr b ↦ rw (e, b, after_failure) kept
                ]
          | inr (resp, e) ↦ rw (e, after_failure) kept
        ]

    after_retry-LevelHas :
        (a : Answers) (k : String) (result : RetryResult) (calls : ℕ) (r : Router fl)
        → Q r
        → LevelHas (after_retry fl a k (result, calls) r)
    unfolding after_retry
    after_retry-LevelHas a k succeeded calls r h =
        record_calls-keeps a.now k (a.rounds k) calls 0 r h
    after_retry-LevelHas a k context_error calls r h =
        after_failure-LevelHas a k (last_error fl (a.rounds k) calls)
          (record_calls fl a.now k (a.rounds k) calls 0 r)
          (record_calls-keeps a.now k (a.rounds k) calls 0 r h)
    after_retry-LevelHas a k (gave_up err) calls r h =
        after_failure-LevelHas a k (last_error fl (a.rounds k) calls)
          (record_calls fl a.now k (a.rounds k) calls 0 r)
          (record_calls-keeps a.now k (a.rounds k) calls 0 r h)

    call_model-LevelHas :
        (a : Answers) (k : String) (r : Router fl) → Q r → LevelHas (call_model fl a k r)
    unfolding call_model
    call_model-LevelHas a k r h =
        let retried = do_with_retry r.config.retry_config (a.rounds k) in
        after_retry-LevelHas a k retried.0 retried.1 r h

    pub complete_level-LevelHas :
        (a : Answers) (req : LlmRequest) (r : Router fl)
        → Q r
        → LevelHas (complete_level fl a req r)
    unfolding complete_level
    complete_level-LevelHas a req r h =
        elim (Bool-cases (contains (chosen_model fl req r) r.providers)) [
          | inl e ↦
              rw (e, complete_level)
                (call_model-LevelHas a (called_model fl (chosen_model fl req r) r) r h)
          | inr e ↦ rw (e, complete_level) h
        ]

  pub Level-cases :
      (l : Level fl)
      → ((r : Router fl) × (response : Option String) × (err : Option RouterError) × (l
            ≡ returned r response err))
        ⊎ ((u : String) × (r : Router fl) × (l ≡ upgraded u r))
  Level-cases (returned r response err) = inl (r, response, err, refl)
  Level-cases (upgraded u r) = inr (u, r, refl)
