-- ===== src/Container/Status/Classified.antt =====
-- When src/services/container-status-classifier.ts counts a container as running.
use servers_manager.Base.{◌≡◌, ◌↔◌, true, false, Text, codes, Contains, includes, arith}
use servers_manager.Base.Search.{includes_iff}
use servers_manager.Container.Status.{running, classify_container_status}

running_tests :
    (status : Text)
    → (classify_container_status status ≡ running)
      ↔ (includes status (codes "Restarting") ≡ false)
        × (includes status (codes "Up") ≡ true)
        × (includes status (codes "(unhealthy)") ≡ false)
unfolding classify_container_status
running_tests status = (λ h. (ground arith, ground arith, ground arith), λ h. ground arith)

excluded : (s p : Text) → (includes s p ≡ false) ↔ (¬ Contains s p)
excluded s p = (
  λ h c. let e = (includes_iff s p).1 c in cc,
  λ h. ground (arith, λ (e : includes s p ≡ true). h ((includes_iff s p).0 e)),
)

-- A container is classified as running exactly when Docker's status text says "Up" somewhere and
-- says neither "Restarting" nor "(unhealthy)": a container that Docker is restarting is never taken
-- for a running one.
pub classify_container_status-running_iff :
    (status : Text)
    → (classify_container_status status ≡ running)
      ↔ (¬ Contains status (codes "Restarting"))
        × Contains status (codes "Up")
        × (¬ Contains status (codes "(unhealthy)"))
classify_container_status-running_iff status = (
  λ h.
      let (r, u, n) = (running_tests status).0 h in
      ((excluded status _).0 r, (includes_iff status _).0 u, (excluded status _).0 n),
  λ (r, u, n).
      (running_tests status).1
        ((excluded status _).1 r, (includes_iff status _).1 u, (excluded status _).1 n),
)
