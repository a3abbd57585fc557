-- ===== src/Svc/ServiceLocator/Requests.antt =====
-- src/voxen/svc/service_locator.cpp: what a request does to the locator.
use voxen.Prelude.{
  ap₂, append_nil, append_assoc, ℕ, ◌<◌, ◌≡◌, refl, sym, ap, ◌∙◌, subst, Bool, true, false, List,
  [], ◌++◌, none, some,
}
use voxen.Svc.ServiceLocator.{
  Locator, Factory, Outcome, lookup, contains, construct, throw_error, find_first, request_first,
  started, thrown, stuck, find_service, run_factory,
}
use voxen.Svc.ServiceLocator.Maps.{keys, IsDistinct, free}

module _ {ℓ} {S : Type ℓ} where
  -- The services stand in the order of their start, each once, and none that is pending is active.
  pub record IsLocator (p : Locator S) : Type ℓ where
    pub ordered : p.start_order ≡ keys p.active_services
    pub distinct : IsDistinct p.active_services
    pub idle : (id : ℕ) → contains id p.pending_services ≡ true → lookup id p.active_services ≡ none

  -- The services of p and others started after them, with the same factories and pending services.
  pub record Extends (p q : Locator S) : Type ℓ where
    pub same_pending : q.pending_services ≡ p.pending_services
    pub same_factories : q.factory_map ≡ p.factory_map
    pub later : List (ℕ × S)
    pub grown : q.active_services ≡ p.active_services ++ later

  abbrev pub is_stuck : Outcome S → Bool
  is_stuck (started s) = false
  is_stuck (thrown e) = false
  is_stuck stuck = true

  pub Extends-refl :
      (p q : Locator S)
      → q.pending_services ≡ p.pending_services
      → q.factory_map ≡ p.factory_map
      → q.active_services ≡ p.active_services
      → Extends p q
  Extends-refl p q a b c = record {
    same_pending = a;
    same_factories = b;
    later = [];
    grown = c ∙ sym (append_nil p.active_services);
  }

  Extends-trans : (p q r : Locator S) → Extends p q → Extends q r → Extends p r
  Extends-trans p q r a b = record {
    same_pending = b.same_pending ∙ a.same_pending;
    same_factories = b.same_factories ∙ a.same_factories;
    later = a.later ++ b.later;
    grown =
        b.grown ∙ ap (λ y. y ++ b.later) a.grown ∙ append_assoc p.active_services a.later b.later;
  }

  -- What a call promises.
  pub record Serves (id : ℕ) (p : Locator S) (r : Locator S × Outcome S) : Type ℓ where
    pub extends : Extends p r.0
    pub locator_ok : IsLocator r.0
    pub finished : is_stuck r.1 ≡ false
    pub serves : (s : S) → r.1 ≡ started s → find_service id r.0 ≡ some s

  abbrev pub free_factories : Locator S → ℕ
  free_factories p = free p.factory_map p.pending_services

  -- What a factory's run keeps, if requests on less than n free factories are answered well.
  pub run-Extends :
      (request : ℕ → Locator S → Locator S × Outcome S) (n : ℕ)
      → ((id : ℕ) (p : Locator S) → IsLocator p → free_factories p < n → Serves id p (request id p))
      → (f : Factory S) (p : Locator S) → IsLocator p
      → free_factories p < n
      → Extends p (run_factory request f p).0
        × IsLocator (run_factory request f p).0
        × (is_stuck (run_factory request f p).1 ≡ false)
  unfolding run_factory
  run-Extends request n good (construct s) p w h = (Extends-refl p p refl refl refl, w, refl)
  run-Extends request n good (throw_error e) p w h = (Extends-refl p p refl refl refl, w, refl)
  run-Extends request n good (find_first id next) p w h =
      run-Extends request n good (next (find_service id p)) p w h
  run-Extends request n good (request_first id next) p w h =
      let a = good id p w h in
      let q = (request id p).0 in
      let b =
        run-Extends request n good (next (request id p).1) q a.locator_ok
          (subst (λ y. y < n) (sym (ap₂ free a.extends.same_factories a.extends.same_pending)) h) in
      (Extends-trans p q _ a.extends b.0, b.1, b.2)
