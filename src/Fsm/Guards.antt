-- ===== src/Fsm/Guards.antt =====
-- The guard and action factories of internal/domain/statemachine.go, and their laws.
use cloud_agent_platform.Base.{
  ℕ, ◌≡◌, refl, ◌↔◌, String, Bool, true, false, not, ◌||◌, Option, none, some, List, [], ◌∷◌, ◌++◌,
  map, arith, Comparable, ◌==◌, nat_comparable, string_comparable, if◌then◌else◌,
}
use cloud_agent_platform.Base.Int64.{inc, slt, sign_bit}
use cloud_agent_platform.Fsm.{
  Aggregate, Error, Guard, Action, Transition, optimistic_lock, version_too_low, field_not_zero,
  invalid_state, of_action, log, after_guard, after_action, eval_guards, run_actions, fire,
}

-- A value of type `any`: the types that the guard tells apart. A float64 is its bit pattern.
pub data AnyValue : Type 0 where
  nil other : AnyValue
  string : String → AnyValue
  int int64 float64 : ℕ → AnyValue

pub is_zero : AnyValue → Bool
is_zero nil = true
is_zero other = false
is_zero (string v) = v == ""
is_zero (int v) = v == 0
is_zero (int64 v) = v == 0
is_zero (float64 v) = v == 0 || v == sign_bit

module _ {S E : Type 0} where
  unfoldable pub guard_func : Bool → Option (Error S E) → Guard S E
  guard_func allowed err a = (allowed, err)

  unfoldable pub guard_and : List (Guard S E) → Guard S E
  guard_and [] a = (true, none)
  guard_and (g ∷ gs) a = after_guard (g a) (guard_and gs a)

  abbrev pub after_or :
      Bool × Option (Error S E) → Bool × Option (Error S E) → Bool × Option (Error S E)
  after_or (allowed, some err) rest = (false, some err)
  after_or (true, none) rest = (true, none)
  after_or (false, none) rest = rest

  unfoldable pub guard_or : List (Guard S E) → Guard S E
  guard_or [] a = (false, none)
  guard_or (g ∷ gs) a = after_or (g a) (guard_or gs a)

  abbrev pub negated : Bool × Option (Error S E) → Bool × Option (Error S E)
  negated (allowed, some err) = (false, some err)
  negated (allowed, none) = (not allowed, none)

  unfoldable pub guard_not : Guard S E → Guard S E
  guard_not g a = negated (g a)

  unfoldable pub guard_field_not_zero : String → (Aggregate S E → AnyValue) → Guard S E
  unfolding is_zero
  guard_field_not_zero field get_value a =
      if is_zero (get_value a) then (false, some (field_not_zero field)) else (true, none)

  unfoldable pub guard_version_match : ℕ → Guard S E
  guard_version_match expected a =
      if a.version == expected
      then (true, none)
      else (false, some (optimistic_lock a.entity_type a.entity_id expected a.version))

  unfoldable pub guard_version_greater_than : ℕ → Guard S E
  guard_version_greater_than min_version a =
      if slt min_version a.version
      then (true, none)
      else (false, some (version_too_low min_version a.version))

  unfoldable pub action_func : (Aggregate S E → Aggregate S E × Option (Error S E)) → Action S E
  action_func fn = fn

  unfoldable pub action_chain : List (Action S E) → Action S E
  action_chain [] a = (a, none)
  action_chain (f ∷ fs) a = after_action (f a) (action_chain fs)

  unfoldable pub action_increment_version : Action S E
  action_increment_version a = (record a { version = inc a.version }, none)

  unfoldable pub action_record_audit : String → Action S E
  unfolding log
  action_record_audit name a = (log a.state a.state (of_action name) true none a, none)

module _ {S E : Type 0} ⦃eq_s : Comparable S⦄ where
  unfoldable pub guard_state_in : List S → Guard S E
  guard_state_in [] a =
      (false, some (invalid_state a.entity_type a.state "state not in allowed list"))
  guard_state_in (s ∷ ss) a = if a.state == s then (true, none) else guard_state_in ss a

  unfoldable pub guard_state_not_in : List S → Guard S E
  guard_state_not_in [] a = (true, none)
  guard_state_not_in (s ∷ ss) a =
      if a.state == s
      then (false, some (invalid_state a.entity_type a.state "state in forbidden list"))
      else guard_state_not_in ss a

module _ {S E : Type 0} where
  -- De Morgan for a conjunction: the same verdict and the same error, since both loops stop at the
  -- same guard.
  pub guard_not-guard_and :
      (gs : List (Guard S E)) (a : Aggregate S E)
      → guard_not (guard_and gs) a ≡ guard_or (map guard_not gs) a
  unfolding guard_not guard_and guard_or
  guard_not-guard_and [] a = refl
  guard_not-guard_and (g ∷ gs) a = ground (arith, guard_not-guard_and gs a)

  guard_not-guard_or :
      (gs : List (Guard S E)) (a : Aggregate S E)
      → guard_not (guard_or gs) a ≡ guard_and (map guard_not gs) a
  unfolding guard_not guard_and guard_or
  guard_not-guard_or [] a = refl
  guard_not-guard_or (g ∷ gs) a = ground (arith, guard_not-guard_or gs a)

  -- The guards of a transition are one conjunction, however they are grouped.
  eval_guards-grouped :
      (gs hs : List (Guard S E)) (a : Aggregate S E)
      → eval_guards (gs ++ hs) a ≡ eval_guards (guard_and gs ∷ guard_and hs ∷ []) a
  unfolding eval_guards guard_and
  eval_guards-grouped [] [] a = refl
  eval_guards-grouped [] (h ∷ hs) a = ground (arith, eval_guards-grouped [] hs a)
  eval_guards-grouped (g ∷ gs) hs a = ground (arith, eval_guards-grouped gs hs a)

  after_action_assoc :
      (p : Aggregate S E × Option (Error S E)) (f g h : Action S E)
      → ((b : Aggregate S E) → f b ≡ after_action (g b) h)
      → after_action p f ≡ after_action (after_action p g) h
  after_action_assoc (a, some err) f g h e = refl
  after_action_assoc (a, none) f g h e = e a

  -- The actions of a transition are one chain, however they are grouped.
  pub run_actions-chain :
      (fs gs : List (Action S E)) (a : Aggregate S E)
      → run_actions (fs ++ gs) a ≡ run_actions (action_chain fs ∷ gs) a
  unfolding run_actions action_chain
  run_actions-chain [] gs a = refl
  run_actions-chain (f ∷ fs) gs a =
      after_action_assoc (f a) (run_actions (fs ++ gs)) (action_chain fs) (run_actions gs)
        (run_actions-chain fs gs)

  -- A transition guarded by the expected version fires at that version alone, and once it has
  -- fired the same expectation is refused, whatever the event: the lost update is caught.
  version_match-fires_once :
      (event again : E) (expected : ℕ) (t : Transition S E) (gs : List (Guard S E))
      (a : Aggregate S E)
      → t.actions ≡ []
      → t.guards ≡ guard_version_match expected ∷ gs
      → (fire event t a).2 ≡ none
      → (a.version ≡ expected)
        × ((fire again t (fire event t a).0).2
            ≡ some (optimistic_lock a.entity_type a.entity_id expected (inc expected)))
  unfolding fire guard_version_match
  version_match-fires_once event again expected t gs a bare guarded e = ground arith

module _ {S E : Type 0} ⦃eq_s : Comparable S⦄ where
  -- The two guards on states refuse each other's states.
  state_in-iff_not_in :
      (ss : List S) (a : Aggregate S E)
      → ((guard_state_in {E = E} ss a).0 ≡ true) ↔ ((guard_state_not_in {E = E} ss a).0 ≡ false)
  unfolding guard_state_in guard_state_not_in
  state_in-iff_not_in [] a = ground arith
  state_in-iff_not_in (s ∷ ss) a = ground (arith, state_in-iff_not_in ss a)
