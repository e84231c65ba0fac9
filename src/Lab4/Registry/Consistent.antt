-- ===== src/Lab4/Registry/Consistent.antt =====
-- The two maps of a registry agree, and what registering a service does to the answers.
use nssa_ds.Base.{
  ℕ, ◌≡◌, ◌≢◌, ◌↔◌, ◌⊎◌, inl, inr, refl, ◌∙◌, ap, subst, List, [], ◌∷◌, Option, none, some, String,
  if◌then◌else◌, Bool-cases, Option-cases, ◌==◌, ==_iff,
}
use nssa_ds.Base.Map.{
  nat_key, string_key, lookup, insert, lookup-insert, lookup-insert_same, lookup-insert_ne,
}
use nssa_ds.Base.Result.{ok, err}
use nssa_ds.Lab4.Registry.{
  Service, service_not_found, service_exists, port_in_use, ServiceRegistry, new_service_registry,
  register_service, get_service, get_service_by_port, or_not_found, service_named, add_service,
  register_all, kept,
}

cc-some {ℓ} : {A : Type ℓ} {a b : A} → some a ≡ some b → a ≡ b
cc-some h = cc

or_not_found-ok {ℓ} : {A : Type ℓ} (o : Option A) (a : A) → or_not_found o ≡ ok a → o ≡ some a
or_not_found-ok none a h = cc
or_not_found-ok (some b) a h = cc

module _ {ℓ} {H : Type ℓ} where
  -- Every service is under its own name and its port leads to it, and every port leads to a service
  -- on that port.
  pub record IsRegistry (sr : ServiceRegistry H) : Type ℓ where
    pub named :
        (t : String) (s : Service H)
        → lookup t sr.services ≡ some s
        → (s.name ≡ t) × (lookup s.port sr.ports ≡ some t)
    pub ported :
        (p : ℕ) (t : String)
        → lookup p sr.ports ≡ some t
        → (s : Service H) × (lookup t sr.services ≡ some s) × (s.port ≡ p)

  new_service_registry-IsRegistry : IsRegistry new_service_registry
  unfolding new_service_registry lookup
  new_service_registry-IsRegistry = record { named = λ t s h. cc; ported = λ p t h. cc }

  add_service-IsRegistry :
      (sr : ServiceRegistry H) (service : Service H)
      → IsRegistry sr
      → lookup service.name sr.services ≡ none
      → lookup service.port sr.ports ≡ none
      → IsRegistry (add_service sr service)
  add_service-IsRegistry sr service i free unused = record {
    named = λ t s h. elim (Bool-cases (string_key.beq service.name t)) [
      | inl hit ↦
          let same : service ≡ s =
            cc-some (rw (lookup-insert service.name t service sr.services, hit) at h) in
          let t' : service.name ≡ t = (string_key.beq_iff service.name t).0 hit in
          subst
            (λ (x : Service H).
              (x.name ≡ t) × (lookup x.port (add_service sr service).ports ≡ some t))
            same (t', lookup-insert_same service.port service.name sr.ports ∙ ap some t')
      | inr miss ↦
          let (n, q) =
            i.named t s (rw (lookup-insert service.name t service sr.services, miss) at h) in
          (n, lookup-insert_ne service.port s.port service.name sr.ports (λ e. cc) ∙ q)
    ];
    ported = λ p t h. elim (Bool-cases (service.port == p)) [
      | inl hit ↦
          let same : service.name ≡ t =
            cc-some (rw (lookup-insert service.port p service.name sr.ports, hit) at h) in
          (
            service,
            subst (λ x. lookup x (insert service.name service sr.services) ≡ some service) same
                (lookup-insert_same service.name service sr.services),
            (==_iff service.port p).0 hit,
          )
      | inr miss ↦
          let (s, there, at_p) =
            i.ported p t (rw (lookup-insert service.port p service.name sr.ports, miss) at h) in
          (s, lookup-insert_ne service.name t service sr.services (λ e. cc) ∙ there, at_p)
    ];
  }

  register_service-IsRegistry :
      (sr : ServiceRegistry H) (service : Service H)
      → IsRegistry sr
      → IsRegistry (kept sr (register_service sr service))
  unfolding register_service
  register_service-IsRegistry sr service i = elim (Option-cases (lookup service.name sr.services)) [
    | inr (s, taken) ↦ rw taken i
    | inl free ↦ elim (Option-cases (lookup service.port sr.ports)) [
      | inr (t, used) ↦ rw (free, used) i
      | inl unused ↦ rw (free, unused) (add_service-IsRegistry sr service i free unused)
    ]
  ]

  register_all-keeps :
      (sr : ServiceRegistry H) (services : List (Service H))
      → IsRegistry sr
      → IsRegistry (register_all sr services)
  unfolding register_all
  register_all-keeps sr [] i = i
  register_all-keeps sr (service ∷ rest) i =
      register_all-keeps (kept sr (register_service sr service)) rest
        (register_service-IsRegistry sr service i)

  -- However many services the server registers, and whichever of them are refused, the two maps agree.
  pub register_all-IsRegistry :
      (services : List (Service H)) → IsRegistry (register_all new_service_registry services)
  register_all-IsRegistry services =
      register_all-keeps new_service_registry services new_service_registry-IsRegistry

  by_port :
      (sr : ServiceRegistry H) (o : Option String) (r : Option (Service H))
      → service_named sr o ≡ ok r
      → (t : String) × (o ≡ some t) × (lookup t sr.services ≡ r)
  by_port sr none r h = cc
  by_port sr (some t) r h = (t, refl, cc)

  -- A service is found by its port exactly when it is found by its name, and a port that is in use
  -- never leads to a nil service.
  pub get_service_by_port_lem :
      (sr : ServiceRegistry H)
      → IsRegistry sr
      → ((s : Service H)
          → (get_service_by_port sr s.port ≡ ok (some s)) ↔ (get_service sr s.name ≡ ok s))
        × ((p : ℕ) → get_service_by_port sr p ≢ ok none)
  unfolding get_service_by_port get_service
  get_service_by_port_lem sr i = (
    λ s. (
      λ h.
          let (t, _, there) = by_port sr (lookup s.port sr.ports) (some s) h in
          let (name, _) = i.named t s there in
          ap or_not_found (ap (λ x. lookup x sr.services) name ∙ there),
      λ h.
          let there = or_not_found-ok (lookup s.name sr.services) s h in
          let (_, port) = i.named s.name s there in ap (service_named sr) port ∙ ap ok there,
    ),
    λ p h.
        let (t, at_p, missing) = by_port sr (lookup p sr.ports) none h in
        let (_, there, _) = i.ported p t at_p in cc,
  )

  -- What a call of `RegisterService` answers, and what the registry answers afterwards.
  abbrev pub Registered : ServiceRegistry H → Service H → ServiceRegistry H → Type ℓ
  Registered sr service after =
      ((t : String)
        → get_service after t
          ≡ (if string_key.beq service.name t then ok service else get_service sr t))
      × ((p : ℕ)
          → get_service_by_port after p
            ≡ (if service.port == p then ok (some service) else get_service_by_port sr p))

  other_ports :
      (sr : ServiceRegistry H) (service : Service H) (p : ℕ)
      → IsRegistry sr
      → lookup service.name sr.services ≡ none
      → service_named (add_service sr service) (lookup p sr.ports)
        ≡ service_named sr (lookup p sr.ports)
  other_ports sr service p i free = elim (Option-cases (lookup p sr.ports)) [
    | inl unused ↦ rw unused refl
    | inr (t, used) ↦
        let (s, there, _) = i.ported p t used in
        rw used (ap ok (lookup-insert_ne service.name t service sr.services (λ e. cc)))
  ]

  add_service-Registered :
      (sr : ServiceRegistry H) (service : Service H)
      → IsRegistry sr
      → lookup service.name sr.services ≡ none
      → Registered sr service (add_service sr service)
  unfolding get_service get_service_by_port
  add_service-Registered sr service i free = (
    λ t. elim (Bool-cases (string_key.beq service.name t)) [
      | inl hit ↦ rw (lookup-insert service.name t service sr.services, hit) refl
      | inr miss ↦ rw (lookup-insert service.name t service sr.services, miss) refl
    ],
    λ p. elim (Bool-cases (service.port == p)) [
      | inl hit ↦
          rw (lookup-insert service.port p service.name sr.ports, hit)
            (ap ok (lookup-insert_same service.name service sr.services))
      | inr miss ↦
          rw (lookup-insert service.port p service.name sr.ports, miss)
            (other_ports sr service p i free)
    ],
  )

  -- The one answer to a registration: the name is taken; or it is free and the port is in use; or both
  -- are free, and then the service is found by its name and by its port, and every other name and
  -- port leads where it did.
  pub register_service_lem :
      (sr : ServiceRegistry H) (service : Service H)
      → IsRegistry sr
      → ((s : Service H) × (get_service sr service.name ≡ ok s)
          × (register_service sr service ≡ err service_exists))
        ⊎ (((s : Service H) × (get_service sr service.name ≡ err service_not_found)
              × (get_service_by_port sr service.port ≡ ok (some s))
              × (register_service sr service ≡ err port_in_use))
            ⊎ ((after : ServiceRegistry H) × (get_service sr service.name ≡ err service_not_found)
                × (get_service_by_port sr service.port ≡ err service_not_found)
                × (register_service sr service ≡ ok after)
                × Registered sr service after))
  unfolding get_service get_service_by_port register_service
  register_service_lem sr service i = elim (Option-cases (lookup service.name sr.services)) [
    | inr (s, taken) ↦ inl (s, ap or_not_found taken, rw taken refl)
    | inl free ↦ elim (Option-cases (lookup service.port sr.ports)) [
      | inr (t, used) ↦
          let (s, there, _) = i.ported service.port t used in
          inr (
            inl (
              s,
              ap or_not_found free,
              ap (service_named sr) used ∙ ap ok there,
              rw (free, used) refl,
            ))
      | inl unused ↦ inr (
          inr (
            add_service sr service,
            ap or_not_found free,
            ap (service_named sr) unused,
            rw (free, unused) refl,
            add_service-Registered sr service i free,
          ))
    ]
  ]
