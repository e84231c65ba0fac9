-- ===== src/Lab4/Registry.antt =====
-- lab4/internal/domain/service.go (the service and the errors) and
-- lab4/internal/infrastructure/network/service_registry.go: two maps, from a name to its service and
-- from a port to a name.
pub mod Consistent
mod Examples
use nssa_ds.Base.{ℕ, List, [], ◌∷◌, Option, none, some, String, map}
use nssa_ds.Base.Map.{Key, nat_key, string_key, lookup, insert}
use nssa_ds.Base.Result.{Result, ok, err, panic}

-- The values of `Name()` and `Port()`; `H` is what handles a request.
pub record Service {ℓ} (H : Type ℓ) : Type ℓ where
  pub name : String
  pub port : ℕ
  pub handle_request : H

-- The errors of the package that the registry returns.
pub data ServiceError : Type 0 where
  service_not_found service_exists port_in_use : ServiceError

pub record ServiceRegistry {ℓ} (H : Type ℓ) : Type ℓ where
  pub services : List (String × Service H)
  pub ports : List (ℕ × String)

-- The two early returns, on what the maps hold for the name and for the port.
abbrev pub admit {ℓ κ ι} :
    {A : Type ℓ} {B : Type κ} {C : Type ι} → Option A → Option B → C → Result ServiceError C
admit (some _) _ sr = err service_exists
admit none (some _) sr = err port_in_use
admit none none sr = ok sr

abbrev pub or_not_found {ℓ} : {A : Type ℓ} → Option A → Result ServiceError A
or_not_found none = err service_not_found
or_not_found (some a) = ok a

module _ {ℓ} {H : Type ℓ} where
  unfoldable pub new_service_registry : ServiceRegistry H
  new_service_registry = record { services = []; ports = [] }

  abbrev pub add_service : ServiceRegistry H → Service H → ServiceRegistry H
  add_service sr service = record {
    services = insert service.name service sr.services;
    ports = insert service.port service.name sr.ports;
  }

  -- The registry after the call; an error leaves it.
  unfoldable pub register_service :
      ServiceRegistry H → Service H → Result ServiceError (ServiceRegistry H)
  register_service sr service =
      admit (lookup service.name sr.services) (lookup service.port sr.ports)
        (add_service sr service)

  unfoldable pub get_service : ServiceRegistry H → String → Result ServiceError (Service H)
  get_service sr service_type = or_not_found (lookup service_type sr.services)

  -- The order is the map's, which Go leaves open.
  unfoldable pub list_services : ServiceRegistry H → List String
  list_services sr = map (λ entry. entry.0) sr.services

  abbrev pub port_of : Result ServiceError (Service H) → Result ServiceError ℕ
  port_of (ok service) = ok service.port
  port_of (err e) = err e
  port_of panic = panic

  unfoldable pub get_service_port : ServiceRegistry H → String → Result ServiceError ℕ
  get_service_port sr service_type = port_of (get_service sr service_type)

  -- `ok none` is the nil service, which `sr.services[serviceType]` is for a missing name.
  abbrev pub service_named :
      ServiceRegistry H → Option String → Result ServiceError (Option (Service H))
  service_named sr none = err service_not_found
  service_named sr (some service_type) = ok (lookup service_type sr.services)

  unfoldable pub get_service_by_port :
      ServiceRegistry H → ℕ → Result ServiceError (Option (Service H))
  get_service_by_port sr port = service_named sr (lookup port sr.ports)

  abbrev pub kept : ServiceRegistry H → Result ServiceError (ServiceRegistry H) → ServiceRegistry H
  kept sr (ok after) = after
  kept sr (err _) = sr
  kept sr panic = sr

  -- lab4/cmd/server/main.go: an error is logged, and the next service is registered.
  unfoldable pub register_all : ServiceRegistry H → List (Service H) → ServiceRegistry H
  register_all sr [] = sr
  register_all sr (service ∷ rest) = register_all (kept sr (register_service sr service)) rest
