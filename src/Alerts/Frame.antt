-- ===== src/Alerts/Frame.antt =====
-- What an alert leaves alone: all of the database but the alert logs and the id counter.
use servers_manager.Base.{
  ℕ, ◌≡◌, refl, ap, ◌∙◌, Bool, true, false, Option, none, some, List, [], ◌∷◌, Text, filter,
  text_eq, if◌then◌else◌, Throws, ok, throw,
}
use servers_manager.Db.{Db, AlertRule, AlertEntityType}
use servers_manager.Alerts.Channels.{ChannelSendResult}
use servers_manager.Alerts.{
  AlertPorts, EvaluateTransitionInput, EvaluateDirectConditionInput, is_within_cooldown, matches,
  attempt, log_attempt, evaluate_rule, evaluate_rules, dispatch, dispatch_transition,
  build_transition_condition, evaluate_transition, evaluate_direct_condition,
}

-- `db'` is `db` but for the alert logs and the id counter.
abbrev pub IsAlerted : Db → Db → Type 0
IsAlerted db db' = db' ≡ record db { alert_logs = db'.alert_logs; next_id = db'.next_id }

IsAlerted-trans : (db db' db'' : Db) → IsAlerted db db' → IsAlerted db' db'' → IsAlerted db db''
IsAlerted-trans db db' db'' h k =
    k
    ∙ ap {A = Db} {B = Db} (λ d. record d { alert_logs = db''.alert_logs; next_id = db''.next_id })
        h

module _ (ports : AlertPorts) (now : ℕ) where
  evaluate_rule-IsAlerted :
      (db : Db) (rule : AlertRule) (entity_id : ℕ) (message : Text)
      → IsAlerted db (evaluate_rule ports now db rule entity_id message)
  unfolding evaluate_rule
  evaluate_rule-IsAlerted db rule entity_id message =
      go (is_within_cooldown db.alert_logs now rule entity_id) (attempt ports now rule message)
    where
      go :
          (b : Bool) (t : Throws ChannelSendResult)
          → IsAlerted db (if b then db else log_attempt ports now db rule entity_id message t)
      go true t = refl
      go false (ok result) = refl
      go false (throw x) = refl

  evaluate_rules-IsAlerted :
      (db : Db) (rules : List AlertRule) (entity_id : ℕ) (message : Text)
      → IsAlerted db (evaluate_rules ports now db rules entity_id message)
  unfolding evaluate_rules
  evaluate_rules-IsAlerted db [] entity_id message = refl
  evaluate_rules-IsAlerted db (rule ∷ rules) entity_id message =
      IsAlerted-trans db _ _ (evaluate_rule-IsAlerted db rule entity_id message) (
        evaluate_rules-IsAlerted (evaluate_rule ports now db rule entity_id message) rules entity_id
          message)

  dispatch-IsAlerted :
      (db : Db) (org : ℕ) (type : AlertEntityType) (entity : ℕ) (condition message : Text)
      → IsAlerted db (dispatch ports now db org type entity condition message)
  unfolding dispatch
  dispatch-IsAlerted db org type entity condition message =
      evaluate_rules-IsAlerted db (filter (matches org type condition) db.alert_rules) entity
        message

  dispatch_transition-IsAlerted :
      (db : Db) (input : EvaluateTransitionInput) (condition : Option Text)
      → IsAlerted db (dispatch_transition ports now db input condition)
  unfolding dispatch_transition
  dispatch_transition-IsAlerted db input none = refl
  dispatch_transition-IsAlerted db input (some condition) =
      dispatch-IsAlerted db input.org_id input.entity_type input.entity_id condition _

  pub evaluate_transition-IsAlerted :
      (db : Db) (input : EvaluateTransitionInput)
      → IsAlerted db (evaluate_transition ports now db input)
  unfolding evaluate_transition
  evaluate_transition-IsAlerted db input =
      go (text_eq input.previous_status input.new_status)
        (build_transition_condition input.entity_type input.new_status)
    where
      go :
          (same : Bool) (condition : Option Text)
          → IsAlerted db (if same then db else dispatch_transition ports now db input condition)
      go true condition = refl
      go false condition = dispatch_transition-IsAlerted db input condition

  pub evaluate_direct_condition-IsAlerted :
      (db : Db) (input : EvaluateDirectConditionInput)
      → IsAlerted db (evaluate_direct_condition ports now db input)
  unfolding evaluate_direct_condition
  evaluate_direct_condition-IsAlerted db input =
      dispatch-IsAlerted db input.org_id input.entity_type input.entity_id input.condition
        input.message
