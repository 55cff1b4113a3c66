-- ===== src/Fsm/Table.antt =====
-- The table of transitions: the map from keys to indices against a scan of the slice.
use cloud_agent_platform.Base.{
  ℕ, zero, suc, ◌≡◌, refl, sym, ap, ◌∙◌, ◌⊎◌, inl, inr, false, ◌&&◌, Option, none, some, List, [],
  ◌∷◌, ◌++◌, arith, length, get_elem?, Comparable, ◌==◌, if◌then◌else◌, Option-cases, Bool-cases,
  All,
}
use mathlib.Core.Path.{subst}
use mathlib.Core.Option.{some-injective}
use cloud_agent_platform.Fsm.{
  Transition, StateMachine, Fired, transition_failed, of_event, log, fire, lookup_key,
  add_transition, trigger, new_state_machine_of,
}

module _ {S E : Type 0} ⦃eq_s : Comparable S⦄ ⦃eq_e : Comparable E⦄ where
  -- `FindTransition`: the first transition with the state and the event.
  unfoldable pub find_transition : S → E → List (Transition S E) → Option (Transition S E)
  find_transition from event [] = none
  find_transition from event (t ∷ ts) =
      if t.from == from && t.event == event then some t else find_transition from event ts

  -- What a key of the map stands for: no entry, or the element of the slice (`none` is a panic).
  abbrev pub at_key : Option ℕ → List (Transition S E) → Option (Option (Transition S E))
  at_key none ts = some none
  at_key (some idx) ts = elim (get_elem? ts idx) [ none ↦ none | some t ↦ some (some t) ]

  -- The map and the slice agree.
  abbrev pub IsIndexed : StateMachine S E → Type 0
  IsIndexed sm =
      (s : S) (e : E)
      → at_key (lookup_key s e sm.transitions_map) sm.transitions
        ≡ some (find_transition s e sm.transitions)

  pub new-IsIndexed : (t i : _) (s : S) → IsIndexed (new_state_machine_of t i s)
  unfolding new_state_machine_of lookup_key find_transition
  new-IsIndexed t i s from event = refl

  at_key-append :
      (o : Option ℕ) (ts us : List (Transition S E)) (found : Option (Transition S E))
      → at_key o ts ≡ some found
      → at_key o (ts ++ us) ≡ some found
  at_key-append none ts us found h = h
  at_key-append (some i) [] us found h = cc
  at_key-append (some zero) (t ∷ ts) us found h = h
  at_key-append (some (suc i)) (t ∷ ts) us found h = at_key-append (some i) ts us found h

  at_key-length :
      (ts : List (Transition S E)) (t : Transition S E)
      → at_key (some (length ts)) (ts ++ t ∷ []) ≡ some (some t)
  at_key-length [] t = refl
  at_key-length (u ∷ ts) t = at_key-length ts t

  -- What is found is a member of the table.
  pub find_transition-All {κ} :
      (P : Transition S E → Type κ) (from : S) (event : E) (ts : List (Transition S E))
      {t : Transition S E}
      → All P ts
      → find_transition from event ts ≡ some t
      → P t
  unfolding find_transition
  find_transition-All P from event [] h e = cc
  find_transition-All P from event (u ∷ ts) {t} h e =
      elim (Bool-cases (u.from == from && u.event == event)) [
        | inl here ↦ subst P (some-injective u t (rw (here, find_transition) at e)) h.0
        | inr later ↦ find_transition-All P from event ts h.1 (rw (later, find_transition) at e)
      ]

  abbrev pub bare : S → S → E → Transition S E
  bare from to event = record { from = from; to = to; event = event; guards = []; actions = [] }

  -- Appending a transition whose key is not there.
  find_transition-snoc :
      (from to s : S) (event e : E) (ts : List (Transition S E))
      → find_transition from event ts ≡ none
      → find_transition s e (ts ++ bare from to event ∷ [])
        ≡ (if from == s && event == e then some (bare from to event) else find_transition s e ts)
  unfolding find_transition
  find_transition-snoc from to s event e [] h = refl
  find_transition-snoc from to s event e (t ∷ ts) h = ground (
    arith,
    eq_s.same_iff from s,
    eq_e.same_iff event e,
    eq_s.same_iff t.from s,
    eq_e.same_iff t.event e,
    eq_s.same_iff t.from from,
    eq_e.same_iff t.event event,
    find_transition-snoc from to s event e ts,
  )

  find_none :
      (from : S) (event : E) (sm : StateMachine S E)
      → IsIndexed sm
      → lookup_key from event sm.transitions_map ≡ none
      → find_transition from event sm.transitions ≡ none
  find_none from event sm h e = ground (arith, h from event)

  abbrev extended : S → S → E → StateMachine S E → StateMachine S E
  extended from to event sm = record sm {
    transitions = sm.transitions ++ bare from to event ∷ [];
    transitions_map = ((from, event), length sm.transitions) ∷ sm.transitions_map;
  }

  add_transition_cases :
      (from to : S) (event : E) (sm : StateMachine S E)
      → ((add_transition from to event sm).0 ≡ sm)
          × ((i : ℕ) × (lookup_key from event sm.transitions_map ≡ some i))
        ⊎ ((add_transition from to event sm).0 ≡ extended from to event sm)
          × (lookup_key from event sm.transitions_map ≡ none)
  unfolding add_transition
  add_transition_cases from to event sm =
      elim (Option-cases (lookup_key from event sm.transitions_map)) [
        | inl e ↦ inr (rw (e, add_transition), e)
        | inr (i, e) ↦ inl (rw (e, add_transition), (i, e))
      ]

  at_key-extended :
      (from to s : S) (event e : E) (sm : StateMachine S E)
      → IsIndexed sm
      → at_key
          (lookup_key s e (extended from to event sm).transitions_map)
          (extended from to event sm).transitions
        ≡ some (
            if from == s && event == e
            then some (bare from to event)
            else find_transition s e sm.transitions)
  unfolding lookup_key
  at_key-extended from to s event e sm h = elim (Bool-cases (from == s && event == e)) [
    | inl same ↦ rw (same, lookup_key) (at_key-length sm.transitions (bare from to event))
    | inr other ↦
        rw (other, lookup_key)
          (at_key-append (lookup_key s e sm.transitions_map) sm.transitions
            (bare from to event ∷ []) _ (h s e))
  ]

  first_scanned :
      (from to : S) (event : E) (s : S) (e : E) (sm : StateMachine S E)
      → IsIndexed sm
      → find_transition s e (add_transition from to event sm).0.transitions
        ≡ elim (find_transition s e sm.transitions) [
          | some t ↦ some t
          | none ↦ if from == s && event == e then some (bare from to event) else none
        ]
  first_scanned from to event s e sm h = elim (add_transition_cases from to event sm) [
    | inl (old, (i, key)) ↦
        rw old (ground (arith, h from event, eq_s.same_iff from s, eq_e.same_iff event e))
    | inr (new, key) ↦
        let absent = find_none from event sm h key in
        rw (new, find_transition-snoc from to s event e sm.transitions absent)
          (ground (arith, eq_s.same_iff from s, eq_e.same_iff event e))
  ]

  pub add_transition-IsIndexed :
      (from to : S) (event : E) (sm : StateMachine S E)
      → IsIndexed sm
      → IsIndexed (add_transition from to event sm).0
  add_transition-IsIndexed from to event sm h = elim (add_transition_cases from to event sm) [
    | inl (old, _) ↦ rw old h
    | inr (new, key) ↦ rw new λ s e.
        at_key-extended from to s event e sm h
        ∙ ap some (
            sym (
              find_transition-snoc from to s event e sm.transitions
                (find_none from event sm h key)))
  ]

  -- The transition that `Trigger` takes, through the map; `none` is a panic.
  abbrev pub rule_for : S → E → StateMachine S E → Option (Option (Transition S E))
  rule_for s e sm = at_key (lookup_key s e sm.transitions_map) sm.transitions

  -- After `AddTransition` on an indexed machine, every lookup through its map that found a rule still
  -- finds the same rule, and otherwise finds the new one exactly for its state and event: a second rule
  -- for a state and an event is ignored.
  pub first_wins :
      (from to : S) (event : E) (s : S) (e : E) (sm : StateMachine S E)
      → IsIndexed sm
      → rule_for s e (add_transition from to event sm).0
        ≡ some (elim (rule_for s e sm) [
          | some (some t) ↦ some t
          | _ ↦ if from == s && event == e then some (bare from to event) else none
        ])
  first_wins from to event s e sm h =
      add_transition-IsIndexed from to event sm h s e
      ∙ ap some (first_scanned from to event s e sm h)
      ∙ rw (h s e) refl

  -- `Trigger` by a scan of the slice.
  unfoldable pub scan_trigger : E → StateMachine S E → Fired S E
  unfolding find_transition
  scan_trigger event sm =
      let a = sm.aggregate in
      elim (find_transition a.state event sm.transitions) [
        | none ↦ record {
          machine = record sm { aggregate = log a.state a.state (of_event event) false none a };
          state = a.state;
          error = some (
              transition_failed a.entity_type a.entity_id a.state a.state event
                "transition not found");
        }
        | some t ↦
            let (a', state, error) = fire event t a in
            record { machine = record sm { aggregate = a' }; state = state; error = error }
      ]

  pub trigger-eq_scan :
      (event : E) (sm : StateMachine S E)
      → IsIndexed sm
      → trigger event sm ≡ some (scan_trigger event sm)
  unfolding trigger scan_trigger
  trigger-eq_scan event sm h = ground (arith, h sm.aggregate.state event)

  -- What is found has the state and the event that were asked for.
  pub find_transition_key :
      (from : S) (event : E) (ts : List (Transition S E)) {t : Transition S E}
      → find_transition from event ts ≡ some t
      → (t.from ≡ from) × (t.event ≡ event)
  unfolding find_transition
  find_transition_key from event [] e = cc
  find_transition_key from event (u ∷ ts) {t} e = ground (
    arith,
    eq_s.same_iff u.from from,
    eq_e.same_iff u.event event,
    find_transition_key from event ts {t = t},
  )
