-- ===== src/Tests/ClientRuns.antt =====
-- Two requests of the page that share a refresh, and a condition that the page offers.
use servers_manager.Base.{refl, true, false, none, some, [], ◌∷◌, codes, ok, throw, error, text_eq}
use servers_manager.Db.{AlertEntityType}
use servers_manager.AlertConditions.{is_alert_condition}
use servers_manager.AlertConditions.Offered.{IsOffered, build_transition_condition-IsOffered}
use servers_manager.Alerts.{build_transition_condition}
use servers_manager.ApiClient.{Response, Client, sent, on_response}
use servers_manager.ApiClient.Steps.{stored, answered, progress, requested, Reaches, here, after}
use servers_manager.ApiClient.Kept.{AreServed}
use servers_manager.ApiClient.Served.{Reaches-AreServed}
use servers_manager.ApiClient.Settled.{Settles, Reaches-Settles}

abbrev idle_client : Client
idle_client = record {
  configured = true;
  access_token = some (codes "old");
  refresh_token = some (codes "r");
  refreshing = none;
  requests = [];
}

abbrev expired : Response
expired = record {
  status = 401;
  status_text = codes "Unauthorized";
  json = throw (error (codes "no body"));
}

abbrev one_sent : Client
one_sent = record idle_client { requests = sent idle_client false ∷ [] }

abbrev one_waits : Client
one_waits = stored 0 (on_response one_sent (sent idle_client false) (ok expired))

one_waits-Reaches : Reaches idle_client one_waits
unfolding sent
one_waits-Reaches =
    after (after here (requested false))
      (progress (answered 0 (sent idle_client false) (ok expired) refl refl))

Reaches-AreServed_example : AreServed one_waits
Reaches-AreServed_example = Reaches-AreServed idle_client one_waits refl one_waits-Reaches

Reaches-Settles_example : Settles one_waits
Reaches-Settles_example = Reaches-Settles idle_client one_waits refl one_waits-Reaches

build_transition_condition-IsOffered_example :
    IsOffered (codes "host_status_transitioned_to:degraded") AlertEntityType.host
unfolding build_transition_condition is_alert_condition text_eq
build_transition_condition-IsOffered_example =
    build_transition_condition-IsOffered AlertEntityType.host (codes "degraded")
      (codes "host_status_transitioned_to:degraded") refl refl
