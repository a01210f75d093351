-- ===== src/Alerts/Ids.antt =====
-- An alert gives out ids and takes none back.
use servers_manager.Base.{
  ℕ, ◌≤◌, Bool, true, false, Option, none, some, List, [], ◌∷◌, Text, filter, text_eq,
  if◌then◌else◌, arith, Throws, ok, throw,
}
use servers_manager.Db.{Db, AlertRule}
use servers_manager.Alerts.Channels.{ChannelSendResult}
use servers_manager.Alerts.{
  AlertPorts, EvaluateTransitionInput, is_within_cooldown, matches, attempt, log_attempt,
  evaluate_rule, evaluate_rules, dispatch, dispatch_transition, build_transition_condition,
  evaluate_transition,
}

module _ (ports : AlertPorts) (now : ℕ) where
  evaluate_rule-next_id :
      (db : Db) (rule : AlertRule) (entity_id : ℕ) (message : Text)
      → db.next_id ≤ (evaluate_rule ports now db rule entity_id message).next_id
  unfolding evaluate_rule
  evaluate_rule-next_id db rule entity_id message =
      go (is_within_cooldown db.alert_logs now rule entity_id) (attempt ports now rule message)
    where
      go :
          (b : Bool) (t : Throws ChannelSendResult)
          → db.next_id
            ≤ (if b then db else log_attempt ports now db rule entity_id message t).next_id
      go true t = omega arith
      go false (ok result) = omega arith
      go false (throw e) = omega arith

  evaluate_rules-next_id :
      (db : Db) (rules : List AlertRule) (entity_id : ℕ) (message : Text)
      → db.next_id ≤ (evaluate_rules ports now db rules entity_id message).next_id
  unfolding evaluate_rules
  evaluate_rules-next_id db [] entity_id message = omega arith
  evaluate_rules-next_id db (rule ∷ rules) entity_id message = omega (
    arith,
    evaluate_rule-next_id db rule entity_id message,
    evaluate_rules-next_id (evaluate_rule ports now db rule entity_id message) rules entity_id
        message,
  )

  dispatch_transition-next_id :
      (db : Db) (input : EvaluateTransitionInput) (condition : Option Text)
      → db.next_id ≤ (dispatch_transition ports now db input condition).next_id
  unfolding dispatch_transition dispatch
  dispatch_transition-next_id db input none = omega arith
  dispatch_transition-next_id db input (some condition) =
      evaluate_rules-next_id db
        (filter (matches input.org_id input.entity_type condition) db.alert_rules) input.entity_id _

  pub evaluate_transition-next_id :
      (db : Db) (input : EvaluateTransitionInput)
      → db.next_id ≤ (evaluate_transition ports now db input).next_id
  unfolding evaluate_transition
  evaluate_transition-next_id db input =
      go (text_eq input.previous_status input.new_status)
        (build_transition_condition input.entity_type input.new_status)
    where
      go :
          (same : Bool) (condition : Option Text)
          → db.next_id
            ≤ (if same then db else dispatch_transition ports now db input condition).next_id
      go true condition = omega arith
      go false condition = dispatch_transition-next_id db input condition
