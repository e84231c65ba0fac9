-- ===== src/Lab4/Registry/Examples.antt =====
-- The services of the server: the theorems at inputs that meet their hypotheses.
use nssa_ds.Base.{ℕ, ◌≡◌, ◌⊎◌, List, [], ◌∷◌, some, String}
use nssa_ds.Base.Map.{nat_key, string_key}
use nssa_ds.Base.Result.{ok, err}
use nssa_ds.Lab4.Registry.{
  Service, ServiceRegistry, service_not_found, service_exists, port_in_use, new_service_registry,
  register_service, register_all, get_service, get_service_by_port,
}
use nssa_ds.Lab4.Registry.Consistent.{
  IsRegistry, Registered, register_all-IsRegistry, register_service_lem,
}

abbrev service : String → ℕ → Service ℕ
service name port = record { name = name; port = port; handle_request = 0 }

-- The third is refused for its name, and the fourth for its port.
abbrev four : List (Service ℕ)
four =
    service "echo" 8081 ∷ (service "time" 8082 ∷ (service "echo" 8083 ∷ (service "calc" 8082 ∷ [])))

abbrev filled : ServiceRegistry ℕ
filled = register_all new_service_registry four

register_all-IsRegistry_example : IsRegistry filled
register_all-IsRegistry_example = register_all-IsRegistry four

register_service_lem_example :
    ((s : Service ℕ) × (get_service filled "stats" ≡ ok s)
      × (register_service filled (service "stats" 8084) ≡ err service_exists))
    ⊎ (((s : Service ℕ) × (get_service filled "stats" ≡ err service_not_found)
          × (get_service_by_port filled 8084 ≡ ok (some s))
          × (register_service filled (service "stats" 8084) ≡ err port_in_use))
        ⊎ ((after : ServiceRegistry ℕ) × (get_service filled "stats" ≡ err service_not_found)
            × (get_service_by_port filled 8084 ≡ err service_not_found)
            × (register_service filled (service "stats" 8084) ≡ ok after)
            × Registered filled (service "stats" 8084) after))
register_service_lem_example =
    register_service_lem filled (service "stats" 8084) (register_all-IsRegistry four)
