-- ===== src/Lab4/Start.antt =====
-- lab4/internal/infrastructure/network/udp_server.go: `Start`, `startServiceListener` and `GetStats`. Whether the pool
-- starts and which sockets open is outside. A listener is its port and the service that its loop serves.
pub mod Served
mod Examples
use nssa_ds.Base.{ℕ, Bool, true, false, List, [], ◌∷◌, Option, none, some, String, if◌then◌else◌}
use nssa_ds.Base.Map.{Key, nat_key, string_key, insert}
use nssa_ds.Base.Result.{Result, ok, err, panic}
use nssa_ds.Base.Text.{Text}
use nssa_ds.Lab4.Server.{ServiceStats}
use nssa_ds.Lab4.Registry.{Service, ServiceError, ServiceRegistry, get_service}

-- What Start reads of a service's configuration.
pub record ServiceConfig : Type 0 where
  pub port : ℕ
  pub enabled : Bool

pub record UdpServer {ℓ} (H : Type ℓ) : Type ℓ where
  pub listeners : List (ℕ × Service H)
  pub stats : List (String × ServiceStats)

abbrev pub zero_stats : ServiceStats
zero_stats = record {
  requests_received = 0;
  requests_processed = 0;
  errors = 0;
  avg_response_time = 0;
  last_request = 0;
}

-- `GetStats` copies every entry.
unfoldable pub copied_stats : List (String × ServiceStats) → List (String × ServiceStats)
copied_stats [] = []
copied_stats ((service_type, stat) ∷ stats) =
    insert service_type
      (record {
        requests_received = stat.requests_received;
        requests_processed = stat.requests_processed;
        errors = stat.errors;
        avg_response_time = stat.avg_response_time;
        last_request = stat.last_request;
      })
      (copied_stats stats)

module _ {ℓ} {H : Type ℓ} where
  unfoldable pub new_udp_server : UdpServer H
  new_udp_server = record { listeners = []; stats = [] }

  -- None is an error of ResolveUDPAddr or ListenUDP.
  unfoldable pub start_service_listener :
      UdpServer H → Service H → ServiceConfig → Bool → Option (UdpServer H)
  start_service_listener s service config opens =
      if opens then some (record s { listeners = insert config.port service s.listeners }) else none

  abbrev pub with_stats : UdpServer H → String → Option (UdpServer H) → UdpServer H
  with_stats s service_type none = s
  with_stats s service_type (some s') = record s' {
    stats = insert service_type zero_stats s'.stats;
  }

  abbrev pub start_found :
      UdpServer H → String → ServiceConfig → Bool → Result ServiceError (Service H) → UdpServer H
  start_found s service_type config opens (ok service) =
      with_stats s service_type (start_service_listener s service config opens)
  start_found s service_type config opens (err e) = s
  start_found s service_type config opens panic = s

  -- One round of the loop of `Start`. `opens` is by the name of the service.
  unfoldable pub start_service :
      ServiceRegistry H → (String → Bool) → String → ServiceConfig → UdpServer H → UdpServer H
  start_service registry opens service_type config s =
      if config.enabled
      then start_found s service_type config (opens service_type)
          (get_service registry service_type)
      else s

  unfoldable pub start_services :
      ServiceRegistry H
      → (String → Bool)
      → List (String × ServiceConfig)
      → UdpServer H
      → UdpServer H
  start_services registry opens [] s = s
  start_services registry opens ((service_type, config) ∷ services) s =
      start_services registry opens services (start_service registry opens service_type config s)

  -- `pool` is the error of the thread pool's start.
  unfoldable pub start :
      ServiceRegistry H
      → (String → Bool)
      → List (String × ServiceConfig)
      → Option Text
      → UdpServer H
      → Result Text (UdpServer H)
  start registry opens services (some e) s = err e
  start registry opens services none s = ok (start_services registry opens services s)

  unfoldable pub get_stats : UdpServer H → List (String × ServiceStats)
  get_stats s = copied_stats s.stats
