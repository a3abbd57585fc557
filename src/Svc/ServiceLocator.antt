-- ===== src/Svc/ServiceLocator.antt =====
-- src/voxen/svc/service_locator.cpp: services started by their factories on demand.
-- A map is the list of its entries, the oldest first. A factory is given by what it does with the
-- locator: it looks for services and requests them, goes on with what it gets, and in the end
-- returns a service or throws. Calls are made by one thread; the logged texts are left out.
pub mod Maps
pub mod Requests
pub mod Serving
pub mod Teardown
pub mod Histories
mod Tests
use voxen.Prelude.{
  ℕ, zero, suc, ◌+◌, ◌-◌, ◌<◌, ◌≡◌, Bool, true, false, not, List, [], ◌∷◌, ◌++◌, map, Option, none,
  some, ◌==◌, if◌then◌else◌,
}

-- `VoxenErrc`, for what a locator throws; a factory throws errors of its own.
pub data Error : Type 0 where
  circular_dependency : Error
  unresolved_dependency : Error
  already_registered : Error
  factory_error : ℕ → Error

-- What a call gives: a service, or the error it throws. A run on too little fuel is stuck.
pub data Outcome {ℓ} (S : Type ℓ) : Type ℓ where
  started : S → Outcome S
  thrown : Error → Outcome S
  stuck : Outcome S

pub data Factory {ℓ} (S : Type ℓ) : Type ℓ where
  construct : S → Factory S
  throw_error : Error → Factory S
  find_first : ℕ → (Option S → Factory S) → Factory S
  request_first : ℕ → (Outcome S → Factory S) → Factory S

pub record Locator {ℓ} (S : Type ℓ) : Type ℓ where
  pub active_services : List (ℕ × S)
  pub factory_map : List (ℕ × Factory S)
  pub start_order : List ℕ
  pub pending_services : List ℕ
  pub request_service_fail_logged : Bool

module _ {ℓ} {A : Type ℓ} where
  abbrev pub lookup : ℕ → List (ℕ × A) → Option A
  lookup id [] = none
  lookup id ((k, a) ∷ xs) = if k == id then some a else lookup id xs

  abbrev pub remove : ℕ → List (ℕ × A) → List (ℕ × A)
  remove id [] = []
  remove id ((k, a) ∷ xs) = if k == id then xs else (k, a) ∷ remove id xs

  -- `emplace`, which keeps an entry that is there.
  abbrev pub emplace : ℕ → A → List (ℕ × A) → List (ℕ × A)
  emplace id a [] = (id, a) ∷ []
  emplace id a ((k, b) ∷ xs) = if k == id then (k, b) ∷ xs else (k, b) ∷ emplace id a xs

abbrev pub contains : ℕ → List ℕ → Bool
contains id [] = false
contains id (k ∷ ks) = if k == id then true else contains id ks

abbrev pub pop_back : List ℕ → List ℕ
pop_back [] = []
pop_back (k ∷ []) = []
pop_back (k ∷ l ∷ ks) = k ∷ pop_back (l ∷ ks)

module _ {ℓ} {S : Type ℓ} where
  abbrev pub find_service : ℕ → Locator S → Option S
  find_service id p = lookup id p.active_services

  abbrev pub set_logged : Bool → Locator S → Locator S
  set_logged b p = record p { request_service_fail_logged = b }

  abbrev pub push : ℕ → Locator S → Locator S
  push id p = record p { pending_services = p.pending_services ++ id ∷ [] }

  abbrev pub pop : Locator S → Locator S
  pop p = record p { pending_services = pop_back p.pending_services }

  abbrev pub activate : ℕ → S → Locator S → Locator S
  activate id s p = record p {
    active_services = emplace id s p.active_services;
    start_order = p.start_order ++ id ∷ [];
  }

  -- The call of a factory, given how a request is answered.
  pub run_factory :
      (ℕ → Locator S → Locator S × Outcome S) → Factory S → Locator S → Locator S × Outcome S
  run_factory request (construct s) p = (p, started s)
  run_factory request (throw_error e) p = (p, thrown e)
  run_factory request (find_first id next) p = run_factory request (next (find_service id p)) p
  run_factory request (request_first id next) p =
      let (q, r) = request id p in run_factory request (next r) q

  -- What follows the call of the factory of the id.
  abbrev pub settle : ℕ → Locator S × Outcome S → Locator S × Outcome S
  settle id (p, started s) = (pop (activate id s p), started s)
  settle id (p, thrown e) = (pop (set_logged true p), thrown e)
  settle id (p, stuck) = (pop p, stuck)

  -- `requestService`, the depth of its recursive calls being limited by the fuel.
  pub request_service : ℕ → ℕ → Locator S → Locator S × Outcome S
  unfolding run_factory
  request_service zero id p = (p, stuck)
  request_service (suc fuel) id p =
      let q = set_logged false p in
      elim (find_service id p) [
        | some s ↦ (p, started s)
        | none ↦
            if contains id p.pending_services
            then (set_logged true q, thrown circular_dependency)
            else elim (lookup id p.factory_map) [
              | none ↦ (pop (set_logged true (push id q)), thrown unresolved_dependency)
              | some f ↦ settle id (run_factory (request_service fuel) f (push id q))
            ]
      ]

  pub register_service_factory : ℕ → Factory S → Locator S → Locator S × Option Error
  register_service_factory id f p = elim (lookup id p.factory_map) [
    | none ↦ (record p { factory_map = emplace id f p.factory_map }, none)
    | some g ↦ (p, some already_registered)
  ]

  -- The loop of the destructor over the identifiers, from the last one started. A service's own
  -- destructor sees the services that are still active.
  pub destroy_services :
      {T : Type 0} → (List (ℕ × S) → S → T → T) → List ℕ → List (ℕ × S) → T → List (ℕ × S) × T
  destroy_services destroy [] active t = (active, t)
  destroy_services destroy (id ∷ ids) active t = elim (lookup id active) [
    | none ↦ destroy_services destroy ids active t
    | some s ↦ destroy_services destroy ids (remove id active) (destroy (remove id active) s t)
  ]

abbrev pub reverse {ℓ} : {A : Type ℓ} → List A → List A
reverse [] = []
reverse (x ∷ xs) = reverse xs ++ x ∷ []

-- `~ServiceLocator`.
pub destroy_all {ℓ} :
    {S : Type ℓ} {T : Type 0} → (List (ℕ × S) → S → T → T) → Locator S → T → List (ℕ × S) × T
unfolding destroy_services
destroy_all destroy p t = destroy_services destroy (reverse p.start_order) p.active_services t

pub new {ℓ} : {S : Type ℓ} → Locator S
new = record {
  active_services = [];
  factory_map = [];
  start_order = [];
  pending_services = [];
  request_service_fail_logged = false;
}
