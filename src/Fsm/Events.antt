-- ===== src/Fsm/Events.antt =====
-- `AvailableEvents` and `Transitions` of internal/domain/statemachine.go: what can happen next.
use cloud_agent_platform.Base.{
  ◌≡◌, true, false, ◌&&◌, ◌||◌, Option, none, some, List, [], ◌∷◌, ◌++◌, arith, Comparable, ◌==◌,
  if◌then◌else◌, is_some, get_elem?, contains, contains-append, IsDistinct, IsDistinct-snoc,
  Bool-cases, inl, inr,
}
use cloud_agent_platform.Fsm.{Index, StateMachine, Transition, lookup_key, can_transition}

module _ {S E : Type 0} ⦃eq_s : Comparable S⦄ ⦃eq_e : Comparable E⦄ where
  -- The loop over the map's keys; `seen` holds the events collected so far.
  unfoldable pub collect : S → Index S E → List E → List E
  unfolding contains
  collect s [] seen = seen
  collect s (((from, event), idx) ∷ m) seen = collect s m (
      if from == s && (if contains event seen then false else true)
      then seen ++ event ∷ []
      else seen)

  unfoldable pub available_events : StateMachine S E → List E
  unfolding collect
  available_events sm = collect sm.aggregate.state sm.transitions_map []

  -- `none` is an index out of range.
  unfoldable pub transitions_from :
      S → List (Transition S E) → Index S E → Option (List (Transition S E))
  transitions_from s ts [] = some []
  transitions_from s ts (((from, event), idx) ∷ m) = elim (transitions_from s ts m) [
    | none ↦ none
    | some rest ↦
        if from == s
        then elim (get_elem? ts idx) [ none ↦ none | some t ↦ some (t ∷ rest) ]
        else some rest
  ]

  contains-collect :
      (e : E) (s : S) (m : Index S E) (seen : List E)
      → contains e (collect s m seen) ≡ (contains e seen || is_some (lookup_key s e m))
  unfolding collect lookup_key
  contains-collect e s [] seen = ground arith
  contains-collect e s (((from, event), idx) ∷ m) seen = ground (
    arith,
    contains-collect e s m seen,
    contains-collect e s m (seen ++ event ∷ []),
    contains-append e seen (event ∷ []),
    eq_e.same_iff event e,
  )

  -- An event is listed exactly if it can trigger a transition.
  contains-available_events :
      (e : E) (sm : StateMachine S E) → contains e (available_events sm) ≡ can_transition e sm
  unfolding available_events can_transition contains
  contains-available_events e sm = contains-collect e sm.aggregate.state sm.transitions_map []

  collect-IsDistinct :
      (s : S) (m : Index S E) (seen : List E) → IsDistinct seen → IsDistinct (collect s m seen)
  unfolding collect
  collect-IsDistinct s [] seen d = d
  collect-IsDistinct s (((from, event), idx) ∷ m) seen d =
      elim (Bool-cases (from == s && (if contains event seen then false else true))) [
        | inl e ↦ rw e (
            collect-IsDistinct s m (seen ++ event ∷ [])
              (IsDistinct-snoc seen event d (ground arith)))
        | inr e ↦ rw e (collect-IsDistinct s m seen d)
      ]

  pub available_events-IsDistinct : (sm : StateMachine S E) → IsDistinct (available_events sm)
  unfolding available_events
  available_events-IsDistinct sm = collect-IsDistinct sm.aggregate.state sm.transitions_map [] tt
