-- ===== src/Router/Latency.antt =====
-- The choice by latency.
use mathlib.Core.Path.{subst}
use cloud_agent_platform.Base.{
  ℕ, ◌≤◌, ◌≡◌, ◌∙◌, sym, refl, inl, inr, ◌⊎◌, String, Bool, true, false, not, ◌&&◌, ◌||◌, [], ◌∷◌,
  arith, ◌==◌, string_comparable, nat_beq, All, Bool-cases,
}
use cloud_agent_platform.Base.Int64.{slt, slt_small, IsNonneg}
use cloud_agent_platform.Base.Float.{Float}
use cloud_agent_platform.Breaker.{is_open}
use cloud_agent_platform.Router.Selector.{
  Providers, Circuits, ModelSelector, state_in, fastest_from, or_primary, select_by_latency,
}

module _ (fl : Float) (cs : Circuits fl) where
  -- The circuit of the model is not open.
  unfoldable pub available : String → Bool
  unfolding state_in
  available model = not (is_open (state_in fl model cs))

  -- The model is listed with the latency, and available.
  unfoldable pub offers : Providers fl → String → ℕ → Bool
  unfolding available
  offers [] m l = false
  offers ((k, p) ∷ ps) m l =
      (k == m && (available k && nat_beq p.avg_latency_ms l)) || offers ps m l

  abbrev pub NoFaster : Providers fl → ℕ → Type 0
  NoFaster ps l = All (λ e. available e.0 ≡ true → l ≤ e.1.avg_latency_ms) ps

  abbrev pub Nonneg : Providers fl → Type 0
  Nonneg ps = All (λ e. IsNonneg e.1.avg_latency_ms) ps

  -- The model that the loop holds, or a listed one that is at least as fast.
  abbrev Found : Providers fl → String → ℕ → String → Type 0
  Found ps fastest min m =
      (l : ℕ) × (l ≤ min) × (((m ≡ fastest) × (l ≡ min)) ⊎ (offers ps m l ≡ true)) × NoFaster ps l

  fastest_from-Found :
      (ps : Providers fl) (fastest : String) (min : ℕ)
      → IsNonneg min
      → Nonneg ps
      → Found ps fastest min (fastest_from fl cs ps fastest min)
  unfolding fastest_from offers available
  fastest_from-Found [] fastest min n ns = (min, omega arith, inl (refl, refl), tt)
  fastest_from-Found ((k, p) ∷ ps) fastest min n (n', ns) =
      let better = not (is_open (state_in fl k cs)) && (slt min 0 || slt p.avg_latency_ms min) in
      elim (Bool-cases better) [
        | inl e ↦
            let (l, le, which, least) = fastest_from-Found ps k p.avg_latency_ms n' ns in
            let faster = slt_small p.avg_latency_ms min n' n in
            let below = slt_small min 0 n (omega arith) in
            let m = fastest_from fl cs ps k p.avg_latency_ms in
            let step : fastest_from fl cs ((k, p) ∷ ps) fastest min ≡ m = rw e refl in
            subst (Found ((k, p) ∷ ps) fastest min) (sym step) (
              l,
              ground arith,
              inr (elim which [
                | inl (q, r) ↦ ground (arith, string_comparable.same_iff k m)
                | inr q ↦ ground arith
              ]),
              (λ h. le, least),
            )
        | inr e ↦
            let (l, le, which, least) = fastest_from-Found ps fastest min n ns in
            let slower = slt_small p.avg_latency_ms min n' n in
            let m = fastest_from fl cs ps fastest min in
            let step : fastest_from fl cs ((k, p) ∷ ps) fastest min ≡ m = rw e refl in
            subst (Found ((k, p) ∷ ps) fastest min) (sym step) (
              l,
              le,
              elim which [ inl q ↦ inl q | inr q ↦ inr (ground arith) ],
              (λ h. ground arith, least),
            )
      ]

  abbrev pub Named : Providers fl → Type 0
  Named ps = All (λ e. (e.0 == "") ≡ false) ps

  offers-Named :
      (ps : Providers fl) (m : String) (l : ℕ) → Named ps → offers ps m l ≡ true → (m == "") ≡ false
  unfolding offers
  offers-Named [] m l named h = absurd (cc)
  offers-Named ((k, p) ∷ ps) m l (name, named) h =
      ground (arith, offers-Named ps m l named, string_comparable.same_iff k m)

  abbrev pub minus_one : ℕ
  minus_one = 18446744073709551615

  -- A listed model that is available, and that no available one is faster than.
  abbrev pub IsFastest : Providers fl → String → Type 0
  IsFastest ps m = (l : ℕ) × (offers ps m l ≡ true) × NoFaster ps l

  abbrev pub NoneAvailable : Providers fl → Type 0
  NoneAvailable ps = All (λ e. available e.0 ≡ false) ps

  fastest_from-first :
      (ps : Providers fl)
      → Nonneg ps
      → Named ps
      → ((fastest_from fl cs ps "" minus_one ≡ "") × NoneAvailable ps)
        ⊎ IsFastest ps (fastest_from fl cs ps "" minus_one)
  unfolding fastest_from offers available
  fastest_from-first [] ns named = inl (refl, tt)
  fastest_from-first ((k, p) ∷ ps) (n, ns) (name, named) =
      elim (Bool-cases (is_open (state_in fl k cs))) [
        | inl e ↦
            let m = fastest_from fl cs ps "" minus_one in
            let step : fastest_from fl cs ((k, p) ∷ ps) "" minus_one ≡ m = rw e refl in
            elim (fastest_from-first ps ns named) [
              | inl (q, none_rest) ↦ inl (step ∙ q, (ground arith, none_rest))
              | inr (l, q, least) ↦ inr (
                  subst (IsFastest ((k, p) ∷ ps)) (sym step)
                    (l, ground arith, (λ h. absurd (ground arith), least)))
            ]
        | inr e ↦
            let m = fastest_from fl cs ps k p.avg_latency_ms in
            let step : fastest_from fl cs ((k, p) ∷ ps) "" minus_one ≡ m = rw e refl in
            let (l, le, which, least) = fastest_from-Found ps k p.avg_latency_ms n ns in
            inr (
              subst (IsFastest ((k, p) ∷ ps)) (sym step) (
                l,
                elim which [
                  | inl (q, r) ↦ ground (arith, string_comparable.same_iff k m)
                  | inr q ↦ ground arith
                ],
                (λ h. le, least),
              ))
      ]

-- The choice by latency is an available model that no available one is faster than, or the primary
-- provider if none is available; latencies are not negative, and models have names.
pub select_by_latency_lem :
    (fl : Float) (s : ModelSelector fl)
    → Nonneg fl s.circuits s.config.provider_configs
    → Named fl s.circuits s.config.provider_configs
    → ((select_by_latency fl s ≡ s.config.primary_provider)
        × NoneAvailable fl s.circuits s.config.provider_configs)
      ⊎ IsFastest fl s.circuits s.config.provider_configs (select_by_latency fl s)
unfolding select_by_latency or_primary
select_by_latency_lem fl s ns named =
    let ps = s.config.provider_configs in
    let m = fastest_from fl s.circuits ps "" 18446744073709551615 in
    elim (fastest_from-first fl s.circuits ps ns named) [
      | inl (q, none_available) ↦ inl (rw q refl, none_available)
      | inr (l, q, least) ↦
          let name : (m == "") ≡ false = offers-Named fl s.circuits ps m l named q in
          let same : select_by_latency fl s ≡ m = rw name refl in
          inr (subst (IsFastest fl s.circuits ps) (sym same) (l, q, least))
    ]
