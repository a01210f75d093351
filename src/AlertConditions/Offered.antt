-- ===== src/AlertConditions/Offered.antt =====
-- That the frontend offers what the backend admits, for the entities that the backend reports it of.
use servers_manager.Base.{
  ◌≡◌, refl, true, false, ◌||◌, some, Text, codes, ◌++◌, text_eq, text_eq_sound, sym, ◌⊎◌, arith,
  Bool-cases, inl, inr,
}
use servers_manager.Db.{AlertEntityType}
use servers_manager.Alerts.{build_transition_condition}
use servers_manager.AlertConditions.{
  is_alert_condition, AlertConditionOption, find_alert_condition_option,
}

-- The option of the page for a condition is one for entities of the type.
pub record IsOffered (condition : Text) (entity_type : AlertEntityType) : Type 0 where
  pub option : AlertConditionOption
  pub found : find_alert_condition_option condition ≡ some option
  pub typed : option.entity_type ≡ entity_type

one_of : (a b s : Text) → (text_eq a s || (text_eq b s || false)) ≡ true → (s ≡ a) ⊎ (s ≡ b)
one_of a b s h = elim (Bool-cases (text_eq a s)) [
  | inl e ↦ inl (sym (text_eq_sound a s e))
  | inr e ↦ inr (sym (text_eq_sound b s (ground (arith, h, e))))
]

-- Every condition that a status transition of an entity builds, and that a rule may have, is offered
-- on the page with the type of that entity, so that a rule made there matches the transition.
pub build_transition_condition-IsOffered :
    (entity_type : AlertEntityType) (new_status condition : Text)
    → build_transition_condition entity_type new_status ≡ some condition
    → is_alert_condition condition ≡ true
    → IsOffered condition entity_type
unfolding build_transition_condition is_alert_condition find_alert_condition_option text_eq
build_transition_condition-IsOffered AlertEntityType.domain new_status condition e h =
    absurd (ground arith)
build_transition_condition-IsOffered AlertEntityType.system new_status condition e h =
    absurd (ground arith)
build_transition_condition-IsOffered AlertEntityType.host new_status condition e h =
    let same : codes "host_status_transitioned_to:" ++ new_status ≡ condition = ground arith in
    rw (← same)
      (elim (one_of (codes "unreachable") (codes "degraded") new_status (rw (← same) at h)) [
        | inl s ↦ rw s (record { option = _; found = refl; typed = refl })
        | inr s ↦ rw s (record { option = _; found = refl; typed = refl })
      ])
build_transition_condition-IsOffered AlertEntityType.ssl_certificate new_status condition e h =
    let same : codes "ssl_status_transitioned_to:" ++ new_status ≡ condition = ground arith in
    rw (← same)
      (elim (one_of (codes "expiring_soon") (codes "expired") new_status (rw (← same) at h)) [
        | inl s ↦ rw s (record { option = _; found = refl; typed = refl })
        | inr s ↦ rw s (record { option = _; found = refl; typed = refl })
      ])
build_transition_condition-IsOffered AlertEntityType.service new_status condition e h =
    let same : codes "service_status_transitioned_to:" ++ new_status ≡ condition = ground arith in
    rw (← same)
      (elim (one_of (codes "crash_loop") (codes "unhealthy") new_status (rw (← same) at h)) [
        | inl s ↦ rw s (record { option = _; found = refl; typed = refl })
        | inr s ↦ rw s (record { option = _; found = refl; typed = refl })
      ])
build_transition_condition-IsOffered AlertEntityType.rollback_event new_status condition e h =
    elim (Bool-cases (text_eq new_status (codes "failed"))) [
      | inl k ↦
          let same : codes "rollback_event:failed" ≡ condition = ground (arith, rw k at e) in
          rw (← same) (record { option = _; found = refl; typed = refl })
      | inr k ↦ absurd (ground (arith, rw k at e))
    ]
