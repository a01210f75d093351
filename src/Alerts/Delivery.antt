-- ===== src/Alerts/Delivery.antt =====
-- Which rules leave a log row in src/alerts/alert-evaluation.service.ts.
use servers_manager.Base.{
  ℕ, ◌+◌, ◌≡◌, ◌≢◌, refl, ap, ◌∙◌, Bool, true, false, not, ◌&&◌, Option, some, List, [], ◌∷◌, ◌++◌,
  Text, ◌==◌, find?, filter, text_eq, if◌then◌else◌, Throws, ok, throw, All, arith, Bool-cases, inl,
  inr, count, count-append, text_eq_iff,
}
use servers_manager.Db.{Db, AlertRule, AlertLog}
use servers_manager.Alerts.Channels.{ChannelSendResult}
use servers_manager.Alerts.{
  AlertPorts, EvaluateTransitionInput, is_some, is_within_cooldown, write_alert_log, matches,
  attempt, log_attempt, evaluate_rule, evaluate_rules, dispatch, build_transition_condition,
  evaluate_transition,
}

-- The row is one of the rule's for the entity, sent or failed.
abbrev pub is_log_of : ℕ → ℕ → AlertLog → Bool
is_log_of rule_id entity_id log = log.alert_rule_id == rule_id && log.entity_id == entity_id

-- No two rules share an id.
abbrev pub HasDistinctIds : List AlertRule → Type 0
HasDistinctIds [] = Unit
HasDistinctIds (rule ∷ rules) = All (λ r. r.id ≢ rule.id) rules × HasDistinctIds rules

-- The rule has the id and its cooldown for the entity is over.
abbrev pub is_due : ℕ → List AlertLog → ℕ → ℕ → AlertRule → Bool
is_due now logs rule_id entity_id rule =
    rule.id == rule_id && not (is_within_cooldown logs now rule entity_id)

is_some-find?-snoc {ℓ} :
    {A : Type ℓ} (p : A → Bool) (xs : List A) (x : A)
    → p x ≡ false
    → is_some (find? p (xs ++ x ∷ [])) ≡ is_some (find? p xs)
is_some-find?-snoc p [] x h = rw h
is_some-find?-snoc p (y ∷ xs) x h = elim (Bool-cases (p y)) [
  | inl e ↦ rw e
  | inr e ↦ rw e (is_some-find?-snoc p xs x h)
]

module _ (ports : AlertPorts) (now entity_id : ℕ) where
  write_alert_log-count :
      (db : Db) (rule : AlertRule) (message : Text) (success : Bool) (error : Option Text)
      (rule_id : ℕ)
      → count
          (is_log_of rule_id entity_id)
          (write_alert_log db now rule entity_id message success error).alert_logs
        ≡ count (is_log_of rule_id entity_id) db.alert_logs + (if rule.id == rule_id then 1 else 0)
  unfolding write_alert_log
  write_alert_log-count db rule message success error rule_id = rw count-append (ground arith)

  write_alert_log-within :
      (db : Db) (rule : AlertRule) (message : Text) (success : Bool) (error : Option Text)
      (r : AlertRule)
      → r.id ≢ rule.id
      → is_within_cooldown
          (write_alert_log db now rule entity_id message success error).alert_logs
          now
          r
          entity_id
        ≡ is_within_cooldown db.alert_logs now r entity_id
  unfolding write_alert_log is_within_cooldown
  write_alert_log-within db rule message success error r h =
      is_some-find?-snoc _ db.alert_logs _ (ground arith)

  -- What one rule adds, and that it leaves the cooldown of the others alone.
  evaluate_rule-count :
      (db : Db) (rule : AlertRule) (message : Text) (rule_id : ℕ)
      → count
          (is_log_of rule_id entity_id)
          (evaluate_rule ports now db rule entity_id message).alert_logs
        ≡ count (is_log_of rule_id entity_id) db.alert_logs
          + (if is_due now db.alert_logs rule_id entity_id rule then 1 else 0)
  unfolding evaluate_rule
  evaluate_rule-count db rule message rule_id =
      go (is_within_cooldown db.alert_logs now rule entity_id) (attempt ports now rule message)
    where
      go :
          (b : Bool) (t : Throws ChannelSendResult)
          → count
              (is_log_of rule_id entity_id)
              (if b then db else log_attempt ports now db rule entity_id message t).alert_logs
            ≡ count (is_log_of rule_id entity_id) db.alert_logs
              + (if rule.id == rule_id && not b then 1 else 0)
      go true t = ground arith
      go false (ok result) =
          ground (arith, write_alert_log-count db rule message result.success result.error rule_id)
      go false (throw x) =
          ground
            (arith, write_alert_log-count db rule message false (some (ports.message_of x)) rule_id)

  evaluate_rule-within :
      (db : Db) (rule : AlertRule) (message : Text) (r : AlertRule)
      → r.id ≢ rule.id
      → is_within_cooldown
          (evaluate_rule ports now db rule entity_id message).alert_logs
          now
          r
          entity_id
        ≡ is_within_cooldown db.alert_logs now r entity_id
  unfolding evaluate_rule
  evaluate_rule-within db rule message r h =
      go (is_within_cooldown db.alert_logs now rule entity_id) (attempt ports now rule message)
    where
      go :
          (b : Bool) (t : Throws ChannelSendResult)
          → is_within_cooldown
              (if b then db else log_attempt ports now db rule entity_id message t).alert_logs
              now
              r
              entity_id
            ≡ is_within_cooldown db.alert_logs now r entity_id
      go true t = refl
      go false (ok result) = write_alert_log-within db rule message result.success result.error r h
      go false (throw x) =
          write_alert_log-within db rule message false (some (ports.message_of x)) r h

  evaluate_rule-due :
      (db : Db) (rule : AlertRule) (message : Text) (rule_id : ℕ) (rules : List AlertRule)
      → All (λ r. r.id ≢ rule.id) rules
      → count
          (is_due now
            (evaluate_rule ports now db rule entity_id message).alert_logs
            rule_id
            entity_id)
          rules
        ≡ count (is_due now db.alert_logs rule_id entity_id) rules
  evaluate_rule-due db rule message rule_id [] h = refl
  evaluate_rule-due db rule message rule_id (r ∷ rules) h =
      rw (evaluate_rule-within db rule message r h.0)
        (rw (evaluate_rule-due db rule message rule_id rules h.1))

  evaluate_rules-count :
      (db : Db) (rules : List AlertRule) (message : Text) (rule_id : ℕ)
      → HasDistinctIds rules
      → count
          (is_log_of rule_id entity_id)
          (evaluate_rules ports now db rules entity_id message).alert_logs
        ≡ count (is_log_of rule_id entity_id) db.alert_logs
          + count (is_due now db.alert_logs rule_id entity_id) rules
  unfolding evaluate_rules
  evaluate_rules-count db [] message rule_id h = omega arith
  evaluate_rules-count db (rule ∷ rules) message rule_id h =
      let db' = evaluate_rule ports now db rule entity_id message in
      ground (
        arith,
        evaluate_rules-count db' rules message rule_id h.1,
        evaluate_rule-due db rule message rule_id rules h.0,
        evaluate_rule-count db rule message rule_id,
      )

All-filter {ℓ κ} :
    {A : Type ℓ} (P : A → Type κ) (p : A → Bool) (xs : List A) → All P xs → All P (filter p xs)
All-filter P p [] h = tt
All-filter P p (x ∷ xs) h = elim (Bool-cases (p x)) [
  | inl e ↦ rw e (h.0, All-filter P p xs h.1)
  | inr e ↦ rw e (All-filter P p xs h.1)
]

HasDistinctIds-filter :
    (p : AlertRule → Bool) (rules : List AlertRule)
    → HasDistinctIds rules
    → HasDistinctIds (filter p rules)
HasDistinctIds-filter p [] h = tt
HasDistinctIds-filter p (rule ∷ rules) h = elim (Bool-cases (p rule)) [
  | inl e ↦ rw e (All-filter _ p rules h.0, HasDistinctIds-filter p rules h.1)
  | inr e ↦ rw e (HasDistinctIds-filter p rules h.1)
]

count-filter {ℓ} :
    {A : Type ℓ} (p q : A → Bool) (xs : List A) → count q (filter p xs) ≡ count (λ x. p x && q x) xs
count-filter p q [] = refl
count-filter p q (x ∷ xs) = elim (Bool-cases (p x)) [
  | inl e ↦ rw e (rw (count-filter p q xs))
  | inr e ↦ rw e (count-filter p q xs)
]

-- When a status changed and its kind of entity has a condition, every enabled rule of the
-- organization for that condition whose cooldown is over gets exactly one more log row for the
-- entity, whether the delivery succeeds, fails or throws, and no other rule gets one (rule ids being
-- distinct).
pub evaluate_transition-count :
    (ports : AlertPorts) (now : ℕ) (db : Db) (input : EvaluateTransitionInput) (condition : Text)
    (rule_id : ℕ)
    → HasDistinctIds db.alert_rules
    → input.previous_status ≢ input.new_status
    → build_transition_condition input.entity_type input.new_status ≡ some condition
    → count (is_log_of rule_id input.entity_id) (evaluate_transition ports now db input).alert_logs
      ≡ count (is_log_of rule_id input.entity_id) db.alert_logs
        + count
            (λ rule.
              matches input.org_id input.entity_type condition rule
              && is_due now db.alert_logs rule_id input.entity_id rule)
            db.alert_rules
unfolding evaluate_transition dispatch
evaluate_transition-count ports now db input condition rule_id distinct changed built =
    let p = matches input.org_id input.entity_type condition in
    let differ : text_eq input.previous_status input.new_status ≡ false =
      ground (arith, text_eq_iff input.previous_status input.new_status) in
    rw differ (
      rw built (
        evaluate_rules-count ports now input.entity_id db (filter p db.alert_rules) _ rule_id
          (HasDistinctIds-filter p db.alert_rules distinct)
        ∙ ap (λ n. count (is_log_of rule_id input.entity_id) db.alert_logs + n)
            (count-filter p (is_due now db.alert_logs rule_id input.entity_id) db.alert_rules)))
