-- ===== src/Insights/Silent.antt =====
-- Who is not reported by the daily job of src/insights/insights.service.ts.
use servers_manager.Base.{
  ℕ, ◌≡◌, ◌≢◌, ◌⊎◌, inl, inr, refl, ap, ◌∙◌, Bool, true, false, not, Option, none, some, List, [],
  ◌∷◌, Text, ◌==◌, find?, filter, any, count, count-append, arith, if◌then◌else◌, Throws, ok, throw,
  Bool-cases,
}
use servers_manager.Db.{Db, AlertRule, AlertLog, AlertEntityType, InsightFlag, InsightState}
use servers_manager.Alerts.Channels.{ChannelSendResult}
use servers_manager.Alerts.{
  AlertPorts, is_within_cooldown, write_alert_log, matches, attempt, log_attempt, evaluate_rule,
  evaluate_rules, dispatch, evaluate_direct_condition,
}
use servers_manager.Insights.{
  Candidate, is_state_of, put_state, upsert_flag, report, raise_flags, lower_flags, active_states,
  evaluate_flag_transitions, condition_for_flag,
}

-- The log row is about the entity.
abbrev pub is_about : ℕ → AlertLog → Bool
is_about entity_id log = log.entity_id == entity_id

module _ (ports : AlertPorts) (now entity_id : ℕ) where
  write_alert_log-about :
      (db : Db) (rule : AlertRule) (other : ℕ) (message : Text) (success : Bool)
      (error : Option Text)
      → other ≢ entity_id
      → count
          (is_about entity_id)
          (write_alert_log db now rule other message success error).alert_logs
        ≡ count (is_about entity_id) db.alert_logs
  unfolding write_alert_log
  write_alert_log-about db rule other message success error h = rw count-append (ground arith)

  evaluate_rule-about :
      (db : Db) (rule : AlertRule) (other : ℕ) (message : Text)
      → other ≢ entity_id
      → count (is_about entity_id) (evaluate_rule ports now db rule other message).alert_logs
        ≡ count (is_about entity_id) db.alert_logs
  unfolding evaluate_rule
  evaluate_rule-about db rule other message h =
      go (is_within_cooldown db.alert_logs now rule other) (attempt ports now rule message)
    where
      go :
          (b : Bool) (t : Throws ChannelSendResult)
          → count
              (is_about entity_id)
              (if b then db else log_attempt ports now db rule other message t).alert_logs
            ≡ count (is_about entity_id) db.alert_logs
      go true t = refl
      go false (ok result) =
          write_alert_log-about db rule other message result.success result.error h
      go false (throw e) =
          write_alert_log-about db rule other message false (some (ports.message_of e)) h

  evaluate_rules-about :
      (db : Db) (rules : List AlertRule) (other : ℕ) (message : Text)
      → other ≢ entity_id
      → count (is_about entity_id) (evaluate_rules ports now db rules other message).alert_logs
        ≡ count (is_about entity_id) db.alert_logs
  unfolding evaluate_rules
  evaluate_rules-about db [] other message h = refl
  evaluate_rules-about db (rule ∷ rules) other message h =
      evaluate_rules-about (evaluate_rule ports now db rule other message) rules other message h
      ∙ evaluate_rule-about db rule other message h

module _ (ports : AlertPorts) (now : ℕ) (flag : InsightFlag) where
  upsert_flag-logs :
      (db : Db) (id : ℕ) (active : Bool)
      → (upsert_flag db now id flag active).alert_logs ≡ db.alert_logs
  unfolding upsert_flag
  upsert_flag-logs db id active = go (find? (is_state_of id flag) db.insight_states)
    where
      go :
          (found : Option InsightState)
          → (put_state db now id flag active found).alert_logs ≡ db.alert_logs
      go none = refl
      go (some state) = refl

  lower_flags-logs :
      (db : Db) (states : List InsightState)
      → (lower_flags ports now flag db states).alert_logs ≡ db.alert_logs
  unfolding lower_flags
  lower_flags-logs db [] = refl
  lower_flags-logs db (state ∷ states) =
      lower_flags-logs (upsert_flag db now state.entity_id flag false) states
      ∙ upsert_flag-logs db state.entity_id false

  -- The entity was active before, or does not match now.
  abbrev pub IsOld : ℕ → List InsightState → List Candidate → Type 0
  IsOld entity_id previous current =
      (any (λ state. state.entity_id == entity_id) previous ≡ true)
      ⊎ (any (λ entity. entity.id == entity_id) current ≡ false)

  report-about :
      (db : Db) (previous : List InsightState) (entity : Candidate) (rest : List Candidate)
      (entity_id : ℕ)
      → IsOld entity_id previous (entity ∷ rest)
      → count (is_about entity_id) (report ports now flag db previous entity).alert_logs
        ≡ count (is_about entity_id) db.alert_logs
  unfolding report evaluate_direct_condition dispatch
  report-about db previous entity rest entity_id old =
      elim (Bool-cases (any (λ state. state.entity_id == entity.id) previous)) [
        | inl e ↦ rw e refl
        | inr e ↦ rw e (
            evaluate_rules-about ports now entity_id db
              (filter (matches entity.org_id AlertEntityType.system (condition_for_flag flag))
                db.alert_rules)
              entity.id entity.message (λ same. distinct same e old))
      ]
    where
      distinct :
          entity.id ≡ entity_id
          → any (λ state. state.entity_id == entity.id) previous ≡ false
          → IsOld entity_id previous (entity ∷ rest)
          → ⊥
      distinct same e (inl h) =
          let e' : any (λ state. state.entity_id == entity_id) previous ≡ false = simp same at e in
          cc
      distinct same e (inr h) = ground arith

  raise_flags-about :
      (db : Db) (previous : List InsightState) (current : List Candidate) (entity_id : ℕ)
      → IsOld entity_id previous current
      → count (is_about entity_id) (raise_flags ports now flag db previous current).alert_logs
        ≡ count (is_about entity_id) db.alert_logs
  unfolding raise_flags
  raise_flags-about db previous [] entity_id old = refl
  raise_flags-about db previous (entity ∷ rest) entity_id old =
      let reported = report ports now flag db previous entity in
      raise_flags-about (upsert_flag reported now entity.id flag true) previous rest entity_id
        (later old)
      ∙ ap (count (is_about entity_id)) (upsert_flag-logs reported entity.id true)
      ∙ report-about db previous entity rest entity_id old
    where
      later : IsOld entity_id previous (entity ∷ rest) → IsOld entity_id previous rest
      later (inl h) = inl h
      later (inr h) = inr (ground arith)

  -- The daily job of a flag writes no alert log about an entity that was active for the flag before
  -- the run, nor about one that does not match now: whatever else is reported, an entity that keeps
  -- matching stays silent.
  pub evaluate_flag_transitions-about :
      (db : Db) (current : List Candidate) (entity_id : ℕ)
      → IsOld entity_id (active_states ports now flag db) current
      → count (is_about entity_id) (evaluate_flag_transitions ports now flag db current).alert_logs
        ≡ count (is_about entity_id) db.alert_logs
  unfolding evaluate_flag_transitions
  evaluate_flag_transitions-about db current entity_id old =
      ap (count (is_about entity_id)) (
        lower_flags-logs (raise_flags ports now flag db (active_states ports now flag db) current) (
          filter (λ state. not (any (λ entity. entity.id == state.entity_id) current))
            (active_states ports now flag db)))
      ∙ raise_flags-about db (active_states ports now flag db) current entity_id old
