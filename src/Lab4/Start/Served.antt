-- ===== src/Lab4/Start/Served.antt =====
-- Which services a started server serves, and that each has its statistics.
use nssa_ds.Base.{
  ℕ, ◌≡◌, refl, sym, ◌∙◌, ap, inl, inr, Bool, true, false, ◌&&◌, Bool-cases, List, [], ◌∷◌, Option,
  none, some, Option-cases, String, if◌then◌else◌, ◌==◌,
}
use nssa_ds.Base.Map.{
  Distinct, nat_key, string_key, lookup, insert, lookup-insert, lookup-insert_same,
}
use nssa_ds.Base.Result.{ok}
use nssa_ds.Lab4.Server.{ServiceStats}
use nssa_ds.Lab4.Registry.{Service, ServiceRegistry, get_service}
use nssa_ds.Lab4.Registry.Consistent.{IsRegistry}
use nssa_ds.Lab4.Start.{
  ServiceConfig, UdpServer, zero_stats, new_udp_server, start_service_listener, start_service,
  start_services, start, copied_stats, get_stats,
}

copied_stats-lookup :
    (name : String) (stats : List (String × ServiceStats))
    → lookup name (copied_stats stats) ≡ lookup name stats
unfolding copied_stats lookup
copied_stats-lookup name [] = refl
copied_stats-lookup name ((k, stat) ∷ stats) =
    rw (lookup-insert k name stat (copied_stats stats), copied_stats-lookup name stats) refl

module _ {ℓ} {H : Type ℓ} (registry : ServiceRegistry H) (opens : String → Bool) where
  -- A service is served if its configuration enables it, the registry has it and its socket opens.
  abbrev pub is_served : String → Option ServiceConfig → Option (Service H) → Bool
  is_served name (some config) (some service) = config.enabled && opens name
  is_served name (some config) none = false
  is_served name none service = false

  and_false : (b : Bool) → (b && false) ≡ false
  and_false true = refl
  and_false false = refl

  and_true : (b : Bool) → (b && true) ≡ b
  and_true true = refl
  and_true false = refl

  start_service-stats :
      (name k : String) (config : ServiceConfig) (s : UdpServer H)
      → lookup name (start_service registry opens k config s).stats ≡ (
          if string_key.beq k name && is_served k (some config) (lookup k registry.services)
          then some zero_stats
          else lookup name s.stats)
  unfolding start_service start_service_listener get_service
  start_service-stats name k config s = elim (Option-cases (lookup k registry.services)) [
    | inl e ↦ elim (Bool-cases config.enabled) [
      | inl on ↦ rw (start_service, e, on, and_false (string_key.beq k name)) refl
      | inr off ↦ rw (start_service, e, off, and_false (string_key.beq k name)) refl
    ]
    | inr (service, e) ↦ elim (Bool-cases config.enabled) [
      | inr off ↦ rw (start_service, e, off, and_false (string_key.beq k name)) refl
      | inl on ↦ elim (Bool-cases (opens k)) [
        | inr shut ↦ rw (start_service, e, on, shut, and_false (string_key.beq k name)) refl
        | inl up ↦
            rw (start_service, e, on, up, and_true (string_key.beq k name))
              (lookup-insert k name zero_stats s.stats)
      ]
    ]
  ]

  abbrev pub served_or : String → Option ServiceConfig → Option ServiceStats → Option ServiceStats
  served_or name config old =
      if is_served name config (lookup name registry.services) then some zero_stats else old

  start_services-stats :
      (name : String) (services : List (String × ServiceConfig)) (s : UdpServer H)
      → Distinct services
      → lookup name (start_services registry opens services s).stats
        ≡ served_or name (lookup name services) (lookup name s.stats)
  unfolding start_services lookup
  start_services-stats name [] s d = refl
  start_services-stats name ((k, config) ∷ services) s (fresh, d) =
      let rest = start_services-stats name services (start_service registry opens k config s) d in
      let step = start_service-stats name k config s in
      elim (Bool-cases (string_key.beq k name)) [
        | inr miss ↦
            let kept : lookup name (start_service registry opens k config s).stats
                ≡ lookup name s.stats =
              rw miss at step in
            rw miss (rest ∙ ap (served_or name (lookup name services)) kept)
        | inl hit ↦
            let same : k ≡ name = (string_key.beq_iff k name).0 hit in
            let gone : lookup name services ≡ none =
              ap (λ n. lookup n services) (sym same) ∙ fresh in
            let here : is_served k (some config) (lookup k registry.services)
                ≡ is_served name (some config) (lookup name registry.services) =
              ap (λ n. is_served n (some config) (lookup n registry.services)) same in
            let begun : lookup name (start_service registry opens k config s).stats
                ≡ served_or name (some config) (lookup name s.stats) =
              rw (hit, here) at step in
            rw hit (
              rest
              ∙ (ap
                    (λ c.
                      served_or name c
                        (lookup name (start_service registry opens k config s).stats))
                    gone
                  ∙ begun))
      ]

  -- Every listener finds the statistics of its service.
  abbrev pub Attended : UdpServer H → Type ℓ
  Attended s =
      (port : ℕ) (service : Service H)
      → lookup port s.listeners ≡ some service
      → lookup service.name s.stats ≡ some zero_stats

  kept_zero :
      (b : Bool) (o : Option ServiceStats)
      → o ≡ some zero_stats
      → (if b then some zero_stats else o) ≡ some zero_stats
  kept_zero true o e = refl
  kept_zero false o e = e

  start_service-zero :
      (name k : String) (config : ServiceConfig) (s : UdpServer H)
      → lookup name s.stats ≡ some zero_stats
      → lookup name (start_service registry opens k config s).stats ≡ some zero_stats
  start_service-zero name k config s e =
      start_service-stats name k config s ∙ kept_zero _ (lookup name s.stats) e

  name_of : (a b : Service H) → ◌≡◌ {A = Option (Service H)} (some a) (some b) → a.name ≡ b.name
  name_of a b e = let same : a ≡ b = cc in ap (λ (t : Service H). t.name) same

  start_service-Attended :
      (k : String) (config : ServiceConfig) (s : UdpServer H)
      → IsRegistry registry
      → Attended s
      → Attended (start_service registry opens k config s)
  unfolding start_service start_service_listener get_service
  start_service-Attended k config s i h port found there =
      elim (Option-cases (lookup k registry.services)) [
        | inl e ↦ elim (Bool-cases config.enabled) [
          | inl on ↦
              start_service-zero found.name k config s
                (h port found (rw (start_service, e, on) at there))
          | inr off ↦
              start_service-zero found.name k config s
                (h port found (rw (start_service, e, off) at there))
        ]
        | inr (service, e) ↦ elim (Bool-cases config.enabled) [
          | inr off ↦
              start_service-zero found.name k config s
                (h port found (rw (start_service, e, off) at there))
          | inl on ↦ elim (Bool-cases (opens k)) [
            | inr shut ↦
                start_service-zero found.name k config s
                  (h port found (rw (start_service, e, on, shut) at there))
            | inl up ↦
                let now : lookup port (insert config.port service s.listeners) ≡ some found =
                  rw (start_service, e, on, up) at there in
                elim (Bool-cases (config.port == port)) [
                  | inl hit ↦
                      let same : ◌≡◌ {A = Option (Service H)} (some service) (some found) =
                        rw (lookup-insert config.port port service s.listeners, hit) at now in
                      let name : found.name ≡ k =
                        sym (name_of service found same) ∙ (i.named k service e).0 in
                      rw (start_service, e, on, up)
                        (ap (λ n. lookup n (insert k zero_stats s.stats)) name
                          ∙ lookup-insert_same k zero_stats s.stats)
                  | inr miss ↦ start_service-zero found.name k config s (
                      h port found
                        (rw (lookup-insert config.port port service s.listeners, miss) at now))
                ]
          ]
        ]
      ]

  start_services-Attended :
      (services : List (String × ServiceConfig)) (s : UdpServer H)
      → IsRegistry registry
      → Attended s
      → Attended (start_services registry opens services s)
  unfolding start_services
  start_services-Attended [] s i h = h
  start_services-Attended ((k, config) ∷ services) s i h =
      start_services-Attended services (start_service registry opens k config s) i
        (start_service-Attended k config s i h)

  -- A started server: it has the statistics of just the services that are enabled, registered and have a socket,
  -- all 0, and GetStats returns them; and every listener's service has its statistics among them. The pool starts,
  -- the configuration has a name once, and the registry is one.
  pub start-Served :
      (services : List (String × ServiceConfig))
      → IsRegistry registry
      → Distinct services
      → (s : UdpServer H) × (start registry opens services none new_udp_server ≡ ok s)
        × ((name : String) → lookup name (get_stats s) ≡ served_or name (lookup name services) none)
        × ((port : ℕ) (service : Service H)
            → lookup port s.listeners ≡ some service
            → lookup service.name (get_stats s) ≡ some zero_stats)
  unfolding start get_stats new_udp_server lookup
  start-Served services i d =
      let s = start_services registry opens services new_udp_server in
      (
        s,
        refl,
        λ name.
            copied_stats-lookup name s.stats ∙ start_services-stats name services new_udp_server d,
        λ port service there.
            copied_stats-lookup service.name s.stats
            ∙ start_services-Attended services new_udp_server i (λ p v e. cc) port service there,
      )
