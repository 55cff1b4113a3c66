-- ===== src/Fsm/Trigger.antt =====
-- What one call of `Trigger` does, on every branch, and its agreement with `TransitionAllowed`.
use cloud_agent_platform.Base.{
  ◌≡◌, refl, ◌↔◌, ◌⊎◌, inl, inr, Bool, true, false, not, Option, none, some, [], ◌∷◌, ◌++◌, arith,
  Comparable, is_some, Option-cases, All,
}
use mathlib.Core.Path.{subst, sym, ◌∙◌}
use mathlib.Core.Option.{some-injective}
use cloud_agent_platform.Base.Int64.{inc}
use cloud_agent_platform.Fsm.{
  Transition, StateMachine, Fired, Aggregate, Error, TransitionRecord, of_event, log, eval_guards,
  settle, fire, trigger, transition_allowed, run_actions,
}
use cloud_agent_platform.Fsm.Table.{
  find_transition-All, find_transition, IsIndexed, scan_trigger, trigger-eq_scan,
}

module _ {S E : Type 0} ⦃eq_s : Comparable S⦄ ⦃eq_e : Comparable E⦄ where
  -- The aggregate moved along `t`: state, version and nothing else but the audit log.
  pub record HasMoved (a a' : Aggregate S E) (to : S) : Type 0 where
    pub state_moved : a'.state ≡ to
    pub version_moved : a'.version ≡ inc a.version
    pub same_id : a'.entity_id ≡ a.entity_id
    pub same_type : a'.entity_type ≡ a.entity_type
    pub same_initial : a'.initial_state ≡ a.initial_state

  pub record HasStayed (a a' : Aggregate S E) : Type 0 where
    pub state_stayed : a'.state ≡ a.state
    pub version_stayed : a'.version ≡ a.version
    pub same_id : a'.entity_id ≡ a.entity_id
    pub same_type : a'.entity_type ≡ a.entity_type
    pub same_initial : a'.initial_state ≡ a.initial_state

  abbrev pub Allows : Transition S E → Aggregate S E → Type 0
  Allows t a = eval_guards t.guards a ≡ (true, none)

  -- The row that was found allows the move; if none was found, nothing does.
  abbrev pub AllowsFound : Option (Transition S E) → Aggregate S E → Type 0
  AllowsFound none a = ⊥
  AllowsFound (some t) a = Allows t a

  -- One audit record, which tells the move and whether it was made.
  abbrev pub Audited : E → Aggregate S E → Aggregate S E → Option (Error S E) → Type 0
  Audited event a a' error =
      (r : TransitionRecord S E) × (a'.audit ≡ a.audit ++ r ∷ [])
      × (r.from_state ≡ a.state)
      × (r.to_state ≡ a'.state)
      × (r.version ≡ a'.version)
      × (r.label ≡ of_event event)
      × (r.success ≡ not (is_some error))

  fire_moves :
      (event : E) (t : Transition S E) (a : Aggregate S E)
      → t.actions ≡ []
      → let (a', state, error) = fire event t a in
        (state ≡ a'.state)
        × ((error ≡ none) × Allows t a × HasMoved a a' t.to
            ⊎ (is_some error ≡ true) × (¬ Allows t a) × HasStayed a a')
  unfolding fire
  fire_moves event t a e = ground (arith)

  abbrev entry :
      E → Aggregate S E → Aggregate S E → Option (Error S E) → Bool → TransitionRecord S E
  entry event a a' logged success = record {
    entity_type = a.entity_type;
    entity_id = a.entity_id;
    from_state = a.state;
    to_state = a'.state;
    label = of_event event;
    version = a'.version;
    success = success;
    error = logged;
  }

  settle_audits :
      (event : E) (t : Transition S E) (a : Aggregate S E) (v : Bool × Option (Error S E))
      → t.actions ≡ []
      → Audited event a (settle event t a v).0 (settle event t a v).2
  unfolding settle
  settle_audits event t a (b, some err) e =
      (entry event a a (some err) false, refl, refl, refl, refl, refl, refl)
  settle_audits event t a (false, none) e =
      (entry event a a none false, refl, refl, refl, refl, refl, refl)
  settle_audits event t a (true, none) e =
      rw (e, run_actions)
        (
          entry event a (record a { state = t.to; version = inc a.version }) none true,
          refl,
          refl,
          refl,
          refl,
          refl,
          refl,
        )

  fire_audits :
      (event : E) (t : Transition S E) (a : Aggregate S E)
      → t.actions ≡ []
      → Audited event a (fire event t a).0 (fire event t a).2
  unfolding fire
  fire_audits event t a e = settle_audits event t a (eval_guards t.guards a) e

  -- The outcome of `Trigger` on a table without actions.
  pub record Outcome (event : E) (sm : StateMachine S E) (f : Fired S E) : Type 0 where
    pub returned : f.state ≡ f.machine.aggregate.state
    pub same_transitions : f.machine.transitions ≡ sm.transitions
    pub same_map : f.machine.transitions_map ≡ sm.transitions_map
    pub audited : Audited event sm.aggregate f.machine.aggregate f.error
    pub moved_or_stayed :
        (f.error ≡ none)
          × ((t : Transition S E) × (find_transition sm.aggregate.state event sm.transitions
                ≡ some t)
              × Allows t sm.aggregate
              × HasMoved sm.aggregate f.machine.aggregate t.to)
        ⊎ (is_some f.error ≡ true)
          × (¬ AllowsFound (find_transition sm.aggregate.state event sm.transitions) sm.aggregate)
          × HasStayed sm.aggregate f.machine.aggregate

  abbrev pub NoActions : StateMachine S E → Type 0
  NoActions sm = All (λ t. t.actions ≡ []) sm.transitions

  scan_outcome :
      (event : E) (sm : StateMachine S E) → NoActions sm → Outcome event sm (scan_trigger event sm)
  unfolding scan_trigger log
  scan_outcome event sm h =
      elim (Option-cases (find_transition sm.aggregate.state event sm.transitions)) [
        | inl e ↦
            rw (e, scan_trigger)
              record {
                returned = refl;
                same_transitions = refl;
                same_map = refl;
                audited = (
                  entry event sm.aggregate sm.aggregate none false,
                  refl,
                  refl,
                  refl,
                  refl,
                  refl,
                  refl,
                );
                moved_or_stayed = inr (
                  refl,
                  rw e (λ impossible. impossible),
                  record {
                    state_stayed = refl;
                    version_stayed = refl;
                    same_id = refl;
                    same_type = refl;
                    same_initial = refl;
                  },
                );
              }
        | inr (t, e) ↦
            let bare = find_transition-All (λ u. u.actions ≡ []) _ _ _ h e in
            let (returned, moves) = fire_moves event t sm.aggregate bare in
            rw (e, scan_trigger)
              record {
                returned = returned;
                same_transitions = refl;
                same_map = refl;
                audited = fire_audits event t sm.aggregate bare;
                moved_or_stayed = elim moves [
                  | inl (fine, allows, moved) ↦ inl (fine, (t, e, allows, moved))
                  | inr (wrong, refuses, stayed) ↦
                      inr (wrong, subst (λ o. ¬ AllowsFound o sm.aggregate) (sym e) refuses, stayed)
                ];
              }
      ]

  -- On an indexed table without actions, `Trigger` does not panic. It returns the state that the
  -- machine has after the call, leaves the table alone and adds one record to the audit log. Either it
  -- succeeds: the first rule for the state and the event has guards that allow the move, the state
  -- becomes the rule's target and the version is one higher. Or it fails: no rule allows the move, and
  -- the state and the version stay.
  pub trigger_outcome :
      (event : E) (sm : StateMachine S E)
      → IsIndexed sm
      → NoActions sm
      → (f : Fired S E) × (trigger event sm ≡ some f) × Outcome event sm f
  trigger_outcome event sm h bare =
      (scan_trigger event sm, trigger-eq_scan event sm h, scan_outcome event sm bare)

  allowed_scan :
      (event : E) (sm : StateMachine S E)
      → IsIndexed sm
      → transition_allowed event sm
        ≡ some (elim (find_transition sm.aggregate.state event sm.transitions) [
          | none ↦ (false, none)
          | some t ↦ eval_guards t.guards sm.aggregate
        ])
  unfolding transition_allowed
  allowed_scan event sm h = ground (arith, h sm.aggregate.state event)

  allowed-iff_scan :
      (event : E) (sm : StateMachine S E) {f : Fired S E}
      → IsIndexed sm
      → Outcome event sm f
      → (f.error ≡ none) ↔ (transition_allowed event sm ≡ some (true, none))
  allowed-iff_scan event sm h o =
      elim (Option-cases (find_transition sm.aggregate.state event sm.transitions)) [
        | inl e ↦ ground (arith, allowed_scan event sm h, o.moved_or_stayed)
        | inr (t, e) ↦ elim o.moved_or_stayed [
          | inl (fine, (u, found, allows, moved)) ↦ ground (arith, allowed_scan event sm h)
          | inr (wrong, refuses, stayed) ↦
              let refused = subst (λ o. ¬ AllowsFound o sm.aggregate) e refuses in
              ground (arith, allowed_scan event sm h, refused)
        ]
      ]

  -- On an indexed table without actions, `TransitionAllowed` says yes, without an error, exactly when
  -- `Trigger` succeeds.
  allowed-iff_trigger :
      (event : E) (sm : StateMachine S E) (f : Fired S E)
      → IsIndexed sm
      → NoActions sm
      → trigger event sm ≡ some f
      → (f.error ≡ none) ↔ (transition_allowed event sm ≡ some (true, none))
  allowed-iff_trigger event sm f h bare e =
      let scanned =
        some-injective (scan_trigger event sm) f (sym (trigger-eq_scan event sm h) ∙ e) in
      subst (λ g. (g.error ≡ none) ↔ (transition_allowed event sm ≡ some (true, none))) scanned
        (allowed-iff_scan event sm h (scan_outcome event sm bare))
