-- ===== src/Alerts/Cooldown.antt =====
-- The cooldown of src/alerts/alert-evaluation.service.ts: what it keeps apart.
use servers_manager.Base.{
  ℕ, ◌+◌, ◌≤◌, ◌≡◌, refl, Bool, true, false, Option, none, some, List, [], ◌∷◌, ◌++◌, Text, filter,
  text_eq, if◌then◌else◌, Throws, ok, throw, All, arith, Bool-cases, inl, inr,
}
use servers_manager.Db.{Db, AlertRule, AlertLog, AlertEntityType}
use servers_manager.Alerts.Channels.{ChannelSendResult}
use servers_manager.Alerts.{
  AlertPorts, EvaluateTransitionInput, EvaluateDirectConditionInput, is_send_of, cooldown_ms,
  is_within_cooldown, write_alert_log, matches, attempt, log_attempt, evaluate_rule, evaluate_rules,
  dispatch, dispatch_transition, build_transition_condition, evaluate_transition,
  evaluate_direct_condition,
}

-- Any two messages that the rule sent for the entity are at least `window` apart.
abbrev pub Spaced : ℕ → ℕ → ℕ → List AlertLog → Type 0
Spaced rule_id entity_id window [] = Unit
Spaced rule_id entity_id window (log ∷ logs) =
    (is_send_of rule_id entity_id log ≡ true
      → All
          (λ later.
            is_send_of rule_id entity_id later ≡ true → log.fired_at + window ≤ later.fired_at)
          logs)
    × Spaced rule_id entity_id window logs

-- Every message sent before has its window behind it.
abbrev Rested : ℕ → ℕ → ℕ → ℕ → List AlertLog → Type 0
Rested rule_id entity_id window now logs =
    All (λ log. is_send_of rule_id entity_id log ≡ true → log.fired_at + window ≤ now) logs

All-snoc {ℓ κ} :
    {A : Type ℓ} (P : A → Type κ) (xs : List A) (x : A) → All P xs → P x → All P (xs ++ x ∷ [])
All-snoc P [] x h p = (p, tt)
All-snoc P (y ∷ xs) x h p = (h.0, All-snoc P xs x h.1 p)

Spaced-snoc :
    (rule_id entity_id window : ℕ) (logs : List AlertLog) (new : AlertLog)
    → Spaced rule_id entity_id window logs
    → (is_send_of rule_id entity_id new ≡ true → Rested rule_id entity_id window new.fired_at logs)
    → Spaced rule_id entity_id window (logs ++ new ∷ [])
Spaced-snoc rule_id entity_id window [] new s r = ((λ h. tt), tt)
Spaced-snoc rule_id entity_id window (log ∷ logs) new s r = (
  (λ h. All-snoc _ logs new (s.0 h) (λ k. (r k).0 h)),
  Spaced-snoc rule_id entity_id window logs new s.1 (λ k. (r k).1),
)

not_within-Rested :
    (logs : List AlertLog) (now : ℕ) (rule : AlertRule) (entity_id : ℕ)
    → is_within_cooldown logs now rule entity_id ≡ false
    → Rested rule.id entity_id (cooldown_ms rule) now logs
unfolding is_within_cooldown
not_within-Rested [] now rule entity_id h = tt
not_within-Rested (log ∷ logs) now rule entity_id h =
    (ground arith, not_within-Rested logs now rule entity_id (ground arith))

module _ (ports : AlertPorts) (now rule_id entity_id window : ℕ) where
  -- Every rule of that id has that window.
  abbrev pub HasWindow : List AlertRule → Type 0
  HasWindow rules = All (λ rule. rule.id ≡ rule_id → cooldown_ms rule ≡ window) rules

  write_alert_log-Spaced :
      (db : Db) (rule : AlertRule) (entity : ℕ) (message : Text) (success : Bool)
      (error : Option Text)
      → (rule.id ≡ rule_id → cooldown_ms rule ≡ window)
      → is_within_cooldown db.alert_logs now rule entity ≡ false
      → Spaced rule_id entity_id window db.alert_logs
      → Spaced rule_id entity_id window
          (write_alert_log db now rule entity message success error).alert_logs
  unfolding write_alert_log
  write_alert_log-Spaced db rule entity message success error same rested s =
      Spaced-snoc rule_id entity_id window db.alert_logs _ s (λ sent.
        let rule_is : rule.id ≡ rule_id = ground arith in
        let entity_is : entity ≡ entity_id = ground arith in
        rw (← rule_is, ← entity_is, ← same rule_is)
          (not_within-Rested db.alert_logs now rule entity rested))

  evaluate_rule-Spaced :
      (db : Db) (rule : AlertRule) (entity : ℕ) (message : Text)
      → (rule.id ≡ rule_id → cooldown_ms rule ≡ window)
      → Spaced rule_id entity_id window db.alert_logs
      → Spaced rule_id entity_id window (evaluate_rule ports now db rule entity message).alert_logs
  unfolding evaluate_rule
  evaluate_rule-Spaced db rule entity message same s =
      go (is_within_cooldown db.alert_logs now rule entity) refl (attempt ports now rule message)
    where
      go :
          (b : Bool)
          → is_within_cooldown db.alert_logs now rule entity ≡ b
          → (t : Throws ChannelSendResult)
          → Spaced rule_id entity_id window
              (if b then db else log_attempt ports now db rule entity message t).alert_logs
      go true e t = s
      go false e (ok result) =
          write_alert_log-Spaced db rule entity message result.success result.error same e s
      go false e (throw x) =
          write_alert_log-Spaced db rule entity message false (some (ports.message_of x)) same e s

  evaluate_rules-Spaced :
      (db : Db) (rules : List AlertRule) (entity : ℕ) (message : Text)
      → HasWindow rules
      → Spaced rule_id entity_id window db.alert_logs
      → Spaced rule_id entity_id window
          (evaluate_rules ports now db rules entity message).alert_logs
  unfolding evaluate_rules
  evaluate_rules-Spaced db [] entity message h s = s
  evaluate_rules-Spaced db (rule ∷ rules) entity message h s =
      evaluate_rules-Spaced (evaluate_rule ports now db rule entity message) rules entity message
        h.1 (evaluate_rule-Spaced db rule entity message h.0 s)

  HasWindow-filter :
      (p : AlertRule → Bool) (rules : List AlertRule) → HasWindow rules → HasWindow (filter p rules)
  HasWindow-filter p [] h = tt
  HasWindow-filter p (rule ∷ rules) h = elim (Bool-cases (p rule)) [
    | inl e ↦ rw e (h.0, HasWindow-filter p rules h.1)
    | inr e ↦ rw e (HasWindow-filter p rules h.1)
  ]

  dispatch-Spaced :
      (db : Db) (org : ℕ) (type : AlertEntityType) (entity : ℕ) (condition message : Text)
      → HasWindow db.alert_rules
      → Spaced rule_id entity_id window db.alert_logs
      → Spaced rule_id entity_id window
          (dispatch ports now db org type entity condition message).alert_logs
  unfolding dispatch
  dispatch-Spaced db org type entity condition message h s =
      evaluate_rules-Spaced db (filter (matches org type condition) db.alert_rules) entity message
        (HasWindow-filter (matches org type condition) db.alert_rules h) s

  -- A status transition keeps any two messages that a rule sent for an entity apart by the rule's
  -- cooldown, whatever the clock reads and whatever the deliveries come to.
  pub evaluate_transition-Spaced :
      (db : Db) (input : EvaluateTransitionInput)
      → HasWindow db.alert_rules
      → Spaced rule_id entity_id window db.alert_logs
      → Spaced rule_id entity_id window (evaluate_transition ports now db input).alert_logs
  unfolding evaluate_transition
  evaluate_transition-Spaced db input h s =
      go (text_eq input.previous_status input.new_status)
        (build_transition_condition input.entity_type input.new_status)
    where
      go :
          (same : Bool) (condition : Option Text)
          → Spaced rule_id entity_id window
              (if same then db else dispatch_transition ports now db input condition).alert_logs
      go true condition = s
      go false none = s
      go false (some condition) =
          dispatch-Spaced db input.org_id input.entity_type input.entity_id condition _ h s

  -- So does a condition that is reported directly.
  pub evaluate_direct_condition-Spaced :
      (db : Db) (input : EvaluateDirectConditionInput)
      → HasWindow db.alert_rules
      → Spaced rule_id entity_id window db.alert_logs
      → Spaced rule_id entity_id window (evaluate_direct_condition ports now db input).alert_logs
  unfolding evaluate_direct_condition
  evaluate_direct_condition-Spaced db input h s =
      dispatch-Spaced db input.org_id input.entity_type input.entity_id input.condition
        input.message h s
