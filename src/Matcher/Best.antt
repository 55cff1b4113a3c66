-- ===== src/Matcher/Best.antt =====
-- The agent that `FindBestAgent` chooses.
use cloud_agent_platform.Base.{
  Bool, true, false, none, some, List, [], ◌∷◌, ◌++◌, ◌≡◌, refl, ap, sym, ◌∙◌, ◌⊎◌, inl, inr, All,
  Bool-cases, List-cases,
}
use mathlib.Core.Path.{subst}
use cloud_agent_platform.Base.Float.{Float}
use cloud_agent_platform.Sorting.{sort_by}
use cloud_agent_platform.Sorting.First.{sort_by-IsFirst}
use cloud_agent_platform.Matcher.{
  AgentProfile, TaskRequirements, MatchResult, is_role_compatible, score, score_all, match_result,
  score_less, first_agent, find_best_agent,
}

-- A value that is not NaN, which alone differs from itself.
abbrev pub is_number : (fl : Float) → fl.F → Bool
is_number fl x = fl.equal x x

-- `>` of float64: NaN is not above or below any value, and the others are ordered.
pub record IsOrder (fl : Float) : Type 0 where
  pub asym : (x y : fl.F) → fl.greater y x ≡ true → fl.greater x y ≡ false
  pub trans :
      (x y z : fl.F)
      → is_number fl y ≡ true
      → fl.greater y x ≡ false
      → fl.greater z y ≡ false
      → fl.greater z x ≡ false

module _ (fl : Float) (ordered : IsOrder fl) (reqs : TaskRequirements fl) where
  -- The role of the agent may take the task.
  abbrev pub Fits : AgentProfile fl → Type 0
  Fits p = is_role_compatible p.role reqs.task_type ≡ true

  abbrev pub FitsNot : AgentProfile fl → Type 0
  FitsNot p = is_role_compatible p.role reqs.task_type ≡ false

  score_all-skips :
      (p : AgentProfile fl) (ps : List (AgentProfile fl))
      → FitsNot p
      → score_all fl reqs (p ∷ ps) ≡ score_all fl reqs ps
  unfolding score_all score
  score_all-skips p ps e = rw (e, score_all, score) refl

  score_all-adds :
      (p : AgentProfile fl) (ps : List (AgentProfile fl))
      → Fits p
      → score_all fl reqs (p ∷ ps) ≡ match_result fl reqs p ∷ score_all fl reqs ps
  unfolding score_all score
  score_all-adds p ps e = rw (e, score_all, score) refl

  score_all-Fits : (ps : List (AgentProfile fl)) → All (λ r. Fits r.agent) (score_all fl reqs ps)
  unfolding score_all match_result
  score_all-Fits [] = tt
  score_all-Fits (p ∷ ps) = elim (Bool-cases (is_role_compatible p.role reqs.task_type)) [
    | inl e ↦
        subst (λ rs. All (λ q. Fits q.agent) rs) (sym (score_all-adds p ps e))
          (e, score_all-Fits ps)
    | inr e ↦
        subst (λ rs. All (λ q. Fits q.agent) rs) (sym (score_all-skips p ps e)) (score_all-Fits ps)
  ]

  score_all-FitsNot : (ps : List (AgentProfile fl)) → score_all fl reqs ps ≡ [] → All FitsNot ps
  score_all-FitsNot [] h = tt
  score_all-FitsNot (p ∷ ps) h = elim (Bool-cases (is_role_compatible p.role reqs.task_type)) [
    | inl e ↦ absurd (cc (h, score_all-adds p ps e))
    | inr e ↦ (e, score_all-FitsNot ps (sym (score_all-skips p ps e) ∙ h))
  ]

  All-middle :
      (before : List (MatchResult fl)) (r : MatchResult fl) (after : List (MatchResult fl))
      → All (λ q. Fits q.agent) (before ++ r ∷ after)
      → Fits r.agent
  All-middle [] r after (h, a) = h
  All-middle (q ∷ before) r after (h, a) = All-middle before r after a

  -- `FindBestAgent` finds no agent if the role of none may take the task, and else an agent whose role
  -- may, with a total score that none of the other results exceeds; no total score is NaN, and `>` orders
  -- all other values.
  pub find_best_agent_lem :
      (ps : List (AgentProfile fl))
      → All (λ q. is_number fl q.total_score ≡ true) (score_all fl reqs ps)
      → ((find_best_agent fl reqs ps ≡ none) × All FitsNot ps)
        ⊎ ((r : MatchResult fl) × (before after : List (MatchResult fl)) × (before ++ r ∷ after
              ≡ score_all fl reqs ps)
            × (find_best_agent fl reqs ps ≡ some r.agent)
            × Fits r.agent
            × All (λ q. fl.greater q.total_score r.total_score ≡ false) (score_all fl reqs ps))
  unfolding find_best_agent
  find_best_agent_lem ps numbers = elim (List-cases (score_all fl reqs ps)) [
    | inl e ↦ inl (rw e refl, score_all-FitsNot ps e)
    | inr (q, qs, e) ↦
        let f =
          sort_by-IsFirst (score_less fl) (λ r. is_number fl r.total_score ≡ true)
            (λ x y. ordered.asym x.total_score y.total_score)
            (λ x y z. ordered.trans x.total_score y.total_score z.total_score) q qs
            (subst (λ rs. All (λ t. is_number fl t.total_score ≡ true) rs) e numbers) in
        inr (
          f.first,
          f.before,
          f.after,
          f.found ∙ sym e,
          ap (λ rs. first_agent fl (sort_by (score_less fl) rs)) e ∙ ap (first_agent fl) f.sorted,
          All-middle f.before f.first f.after
              (subst (λ rs. All (λ t. Fits t.agent) rs) (e ∙ sym f.found) (score_all-Fits ps)),
          subst (λ rs. All (λ t. fl.greater t.total_score f.first.total_score ≡ false) rs) (sym e)
              f.low,
        )
  ]
