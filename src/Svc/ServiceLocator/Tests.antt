-- ===== src/Svc/ServiceLocator/Tests.antt =====
-- The service locator with numbers for services.
use voxen.Prelude.{ℕ, ◌≡◌, refl, List, [], ◌∷◌}
use voxen.Svc.ServiceLocator.{
  Factory, construct, throw_error, request_first, Outcome, started, thrown, stuck, request_service,
  register_service_factory, destroy_all, circular_dependency, unresolved_dependency, new,
  factory_error,
}
use voxen.Svc.ServiceLocator.Requests.{Serves}
use voxen.Svc.ServiceLocator.Teardown.{destroy_all_lem, unwind}
use voxen.Svc.ServiceLocator.Histories.{
  Call, register, request, after, fuel_for, request_service_lem, after-IsLocator,
}

-- A factory that needs another service, and passes its error on.
abbrev needs : ℕ → ℕ → Factory ℕ
needs id s = request_first id (λ r. finish r)
  where
    finish : Outcome ℕ → Factory ℕ
    finish (started t) = construct s
    finish (thrown e) = throw_error e
    finish stuck = construct s

-- Service 1 needs 2; 3 needs 2 and fails; 4 and 5 need each other.
abbrev registered : List (Call ℕ)
registered =
    register 1 (needs 2 10)
    ∷ register 2 (construct 20)
    ∷ register 3 (request_first 2 (λ r. throw_error (factory_error 9)))
    ∷ register 4 (needs 5 40)
    ∷ register 5 (needs 4 50)
    ∷ []

abbrev started_calls : List (Call ℕ)
started_calls = request 1 ∷ registered

request_runs : (request_service 6 1 (after registered)).1 ≡ started 10
unfolding request_service after new register_service_factory
request_runs = refl

start_order_runs : (after started_calls).start_order ≡ 2 ∷ 1 ∷ []
unfolding request_service after new register_service_factory
start_order_runs = refl

circular_runs : (request_service 6 4 (after registered)).1 ≡ thrown circular_dependency
unfolding request_service after new register_service_factory
circular_runs = refl

unresolved_runs : (request_service 6 7 (after registered)).1 ≡ thrown unresolved_dependency
unfolding request_service after new register_service_factory
unresolved_runs = refl

-- A service that was started for one whose factory then fails stays.
failure_runs : (after (request 3 ∷ registered)).start_order ≡ 2 ∷ []
unfolding request_service after new register_service_factory
failure_runs = refl

-- The destroyed services, the last first.
abbrev record_service : List (ℕ × ℕ) → ℕ → List ℕ → List ℕ
record_service active s destroyed = s ∷ destroyed

destroy_runs : (destroy_all record_service (after started_calls) []).1 ≡ 20 ∷ 10 ∷ []
unfolding request_service after new register_service_factory destroy_all
destroy_runs = refl

request_service_lem_example :
    Serves 1 (after registered) (request_service (fuel_for (after registered)) 1 (after registered))
request_service_lem_example = request_service_lem registered 1

destroy_all_lem_example :
    destroy_all record_service (after started_calls) []
    ≡ ([], unwind record_service [] (after started_calls).active_services [])
destroy_all_lem_example =
    destroy_all_lem record_service (after started_calls) [] (after-IsLocator started_calls)
