-- ===== src/Svc/ServiceLocator/Histories.antt =====
-- src/voxen/svc/service_locator.cpp: any calls of a locator, from its construction on.
use voxen.Prelude.{ℕ, suc, ◌≡◌, refl, ap, ◌∙◌, List, [], ◌∷◌, length, arith, Option-cases, inl, inr}
use voxen.Svc.ServiceLocator.{
  Locator, Factory, request_service, register_service_factory, lookup, new,
}
use voxen.Svc.ServiceLocator.Maps.{free}
use voxen.Svc.ServiceLocator.Serving.{request_service-Serves}
use voxen.Svc.ServiceLocator.Requests.{IsLocator, Serves}

-- A call from outside of a factory.
pub data Call {ℓ} (S : Type ℓ) : Type ℓ where
  register : ℕ → Factory S → Call S
  request : ℕ → Call S

-- The fuel of a request: one more than there are factories.
abbrev pub fuel_for {ℓ} : {S : Type ℓ} → Locator S → ℕ
fuel_for p = suc (length p.factory_map)

-- The locator after the calls, the last first.
unfoldable pub after {ℓ} : {S : Type ℓ} → List (Call S) → Locator S
unfolding request_service register_service_factory new
after [] = new
after (register id f ∷ cs) = (register_service_factory id f (after cs)).0
after (request id ∷ cs) = (request_service (fuel_for (after cs)) id (after cs)).0

free-nil {ℓ} : {A : Type ℓ} (xs : List (ℕ × A)) → free xs [] ≡ length xs
free-nil [] = refl
free-nil ((k, a) ∷ xs) = ap suc (free-nil xs)

module _ {ℓ} {S : Type ℓ} where
  -- A locator in order that is in no request.
  abbrev IsIdle : Locator S → Type ℓ
  IsIdle p = IsLocator p × (p.pending_services ≡ [])

  register-IsIdle :
      (id : ℕ) (f : Factory S) (p : Locator S)
      → IsIdle p
      → IsIdle (register_service_factory id f p).0
  unfolding register_service_factory
  register-IsIdle id f p w = elim (Option-cases (lookup id p.factory_map)) [
    | inr (g, e) ↦ rw (register_service_factory, e) w
    | inl e ↦
        rw (register_service_factory, e)
          (record { ordered = w.0.ordered; distinct = w.0.distinct; idle = w.0.idle }, w.1)
  ]

  request-Serves :
      (id : ℕ) (p : Locator S) → IsIdle p → Serves id p (request_service (fuel_for p) id p)
  request-Serves id p w =
      request_service-Serves (fuel_for p) id p w.0
        (omega (arith, ap (free p.factory_map) w.1 ∙ free-nil p.factory_map))

  after-IsIdle : (cs : List (Call S)) → IsIdle (after cs)
  unfolding after new
  after-IsIdle [] = (record { ordered = refl; distinct = tt; idle = λ id e. refl }, refl)
  after-IsIdle (register id f ∷ cs) = register-IsIdle id f (after cs) (after-IsIdle cs)
  after-IsIdle (request id ∷ cs) =
      let w = after-IsIdle cs in
      let s = request-Serves id (after cs) w in (s.locator_ok, s.extends.same_pending ∙ w.1)

  -- After any registrations and requests, a further request ends: on one more fuel than there are
  -- factories it gives a service or an error. The services that were active are active still, in the
  -- order of their start, each once; no request is left pending and the factories are the same; and
  -- a service that is returned is the one that the locator then finds.
  pub request_service_lem :
      (cs : List (Call S)) (id : ℕ)
      → Serves id (after cs) (request_service (fuel_for (after cs)) id (after cs))
  request_service_lem cs id = request-Serves id (after cs) (after-IsIdle cs)

  pub after-IsLocator : (cs : List (Call S)) → IsLocator (after cs)
  after-IsLocator cs = (after-IsIdle cs).0
