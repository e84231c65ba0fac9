-- ===== src/Lab4/Start/Examples.antt =====
-- A server of two services, of which one is enabled.
use nssa_ds.Base.{ℕ, ◌≡◌, refl, true, false, List, [], ◌∷◌, none, some, String}
use nssa_ds.Base.Map.{Distinct, nat_key, string_key, lookup}
use nssa_ds.Base.Result.{ok}
use nssa_ds.Lab4.Registry.{Service, ServiceRegistry, new_service_registry, register_all}
use nssa_ds.Lab4.Registry.Consistent.{register_all-IsRegistry}
use nssa_ds.Lab4.Start.{ServiceConfig, UdpServer, zero_stats, new_udp_server, start, get_stats}
use nssa_ds.Lab4.Start.Served.{served_or, start-Served}

abbrev registered : List (Service ℕ)
registered =
    record { name = "echo"; port = 8081; handle_request = 0 }
    ∷ (record { name = "time"; port = 8082; handle_request = 1 } ∷ [])

abbrev registry : ServiceRegistry ℕ
registry = register_all new_service_registry registered

abbrev configured : List (String × ServiceConfig)
configured =
    ("echo", record { port = 8081; enabled = true })
    ∷ (("time", record { port = 8082; enabled = false }) ∷ [])

configured-Distinct : Distinct configured
unfolding lookup
configured-Distinct = (refl, (refl, tt))

start-Served_example :
    (s : UdpServer ℕ) × (start registry (λ name. true) configured none new_udp_server ≡ ok s)
    × ((name : String)
        → lookup name (get_stats s)
          ≡ served_or registry (λ n. true) name (lookup name configured) none)
    × ((port : ℕ) (service : Service ℕ)
        → lookup port s.listeners ≡ some service
        → lookup service.name (get_stats s) ≡ some zero_stats)
start-Served_example =
    start-Served registry (λ name. true) configured (register_all-IsRegistry registered)
      configured-Distinct
