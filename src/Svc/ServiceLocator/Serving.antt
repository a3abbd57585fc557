-- ===== src/Svc/ServiceLocator/Serving.antt =====
-- src/voxen/svc/service_locator.cpp: every request is answered.
use voxen.Prelude.{
  append_assoc, ℕ, zero, suc, ◌<◌, ◌≡◌, refl, sym, ap, ◌∙◌, subst, Bool, true, false, [], ◌∷◌, ◌++◌,
  Option, none, some, ◌==◌, if◌then◌else◌, arith, Bool-cases, Option-cases, inl, inr, ==→eq,
}
use voxen.Svc.ServiceLocator.{
  Locator, Outcome, Error, lookup, contains, pop_back, started, thrown, stuck, find_service,
  set_logged, push, pop, run_factory, settle, request_service, circular_dependency,
  unresolved_dependency,
}
use voxen.Svc.ServiceLocator.Maps.{
  keys, IsDistinct, lookup-append, emplace-append, keys-append, append-IsDistinct, free_push,
  pop_back-append, contains-append,
}
use voxen.Svc.ServiceLocator.Requests.{
  IsLocator, Extends, Serves, is_stuck, Extends-refl, free_factories, run-Extends,
}

==_refl : (i : ℕ) → (i == i) ≡ true
==_refl i = ground arith

either : (b : Bool) → (if b then true else true) ≡ true
either true = refl
either false = refl

module _ {ℓ} {S : Type ℓ} where
  push-IsLocator :
      (id : ℕ) (b : Bool) (p : Locator S)
      → IsLocator p
      → find_service id p ≡ none
      → IsLocator (push id (set_logged b p))
  push-IsLocator id b p w e = record {
    ordered = w.ordered;
    distinct = w.distinct;
    idle = λ x t. elim (Bool-cases (contains x p.pending_services)) [
      | inl u ↦ w.idle x u
      | inr u ↦
          subst (λ y. lookup y p.active_services ≡ none)
            (==→eq id x (
              ap (λ b. if b then true else id == x) (sym u)
              ∙ sym (contains-append x id p.pending_services)
              ∙ t))
            e
    ];
  }

  started_injective : (s u : S) → started s ≡ started u → some s ≡ some u
  started_injective s u e = ap served e
    where
      served : Outcome S → Option S
      served (started s) = some s
      served (thrown e) = none
      served stuck = none

  fails :
      (id : ℕ) (p q : Locator S) (e : Error)
      → IsLocator p
      → q.pending_services ≡ p.pending_services
      → q.factory_map ≡ p.factory_map
      → q.active_services ≡ p.active_services
      → q.start_order ≡ p.start_order
      → Serves id p (q, thrown e)
  fails id p q e w a b c d = record {
    extends = Extends-refl p q a b c;
    locator_ok = record {
      ordered = d ∙ w.ordered ∙ ap keys (sym c);
      distinct = subst IsDistinct (sym c) w.distinct;
      idle = λ x t. ap (lookup x) c ∙ w.idle x (ap (contains x) (sym a) ∙ t);
    };
    finished = refl;
    serves = λ s t. absurd (ground (arith, t));
  }

  popped :
      (id : ℕ) (b : Bool) (p q : Locator S)
      → Extends (push id (set_logged b p)) q
      → pop_back q.pending_services ≡ p.pending_services
  popped id b p q a = ap pop_back a.same_pending ∙ pop_back-append p.pending_services id

  still :
      (id : ℕ) (b : Bool) (p q : Locator S)
      → Extends (push id (set_logged b p)) q
      → (y : ℕ) → contains y (pop_back q.pending_services) ≡ true
      → contains y q.pending_services ≡ true
  still id b p q a y t =
      ap (contains y) a.same_pending
      ∙ contains-append y id p.pending_services
      ∙ ap (λ c. if c then true else id == y) (sym (ap (contains y) (popped id b p q a)) ∙ t)

  settle-Serves :
      (id : ℕ) (b : Bool) (p : Locator S) (r : Locator S × Outcome S)
      → contains id p.pending_services ≡ false
      → Extends (push id (set_logged b p)) r.0
      → IsLocator r.0
      → is_stuck r.1 ≡ false
      → Serves id p (settle id r)
  settle-Serves id b p (q, stuck) c a w e = absurd (ground (arith, e))
  settle-Serves id b p (q, thrown x) c a w e = record {
    extends = record {
      same_pending = popped id b p q a;
      same_factories = a.same_factories;
      later = a.later;
      grown = a.grown;
    };
    locator_ok = record {
      ordered = w.ordered;
      distinct = w.distinct;
      idle = λ y t. w.idle y (still id b p q a y t);
    };
    finished = refl;
    serves = λ s t. absurd (ground (arith, t));
  }
  settle-Serves id b p (q, started s) c a w e = record {
    extends = record {
      same_pending = popped id b p q a;
      same_factories = a.same_factories;
      later = a.later ++ (id, s) ∷ [];
      grown =
          emplace-append id s q.active_services free
          ∙ ap (λ y. y ++ (id, s) ∷ []) a.grown
          ∙ append_assoc p.active_services a.later ((id, s) ∷ []);
    };
    locator_ok = record {
      ordered =
          ap (λ y. y ++ id ∷ []) w.ordered
          ∙ sym (keys-append id s q.active_services)
          ∙ ap keys (sym (emplace-append id s q.active_services free));
      distinct =
          subst IsDistinct (sym (emplace-append id s q.active_services free))
            (append-IsDistinct id s q.active_services free w.distinct);
      idle = λ y t.
          ap (lookup y) (emplace-append id s q.active_services free)
          ∙ lookup-append y id s q.active_services free
          ∙ other y t (w.idle y (still id b p q a y t));
    };
    finished = refl;
    serves = λ u t.
        ap (lookup id) (emplace-append id s q.active_services free)
        ∙ lookup-append id id s q.active_services free
        ∙ ap (λ g. if g then some s else lookup id q.active_services) (==_refl id)
        ∙ started_injective s u t;
  }
    where
      free : lookup id q.active_services ≡ none
      free = w.idle id (
          ap (contains id) a.same_pending
          ∙ contains-append id id p.pending_services
          ∙ ap (λ g. if contains id p.pending_services then true else g) (==_refl id)
          ∙ either (contains id p.pending_services))

      other :
          (y : ℕ)
          → contains y (pop_back q.pending_services) ≡ true
          → lookup y q.active_services ≡ none
          → (if id == y then some s else lookup y q.active_services) ≡ none
      other y t f = elim (Bool-cases (id == y)) [
        | inl u ↦ absurd (
            ground (
              arith,
              sym c
                  ∙ ap (λ x. contains x p.pending_services) (==→eq id y u)
                  ∙ sym (ap (contains y) (popped id b p q a))
                  ∙ t,
            ))
        | inr u ↦ rw (u) f
      ]

  pub request_service-Serves :
      (n id : ℕ) (p : Locator S)
      → IsLocator p
      → free_factories p < n
      → Serves id p (request_service n id p)
  unfolding request_service
  request_service-Serves zero id p w h = absurd (omega (arith, h))
  request_service-Serves (suc n) id p w h = elim (Option-cases (find_service id p)) [
    | inr (s, e) ↦
        rw (request_service, e)
          (record {
            extends = Extends-refl p p refl refl refl;
            locator_ok = w;
            finished = refl;
            serves = λ u t. e ∙ started_injective s u t;
          })
    | inl e ↦ elim (Bool-cases (contains id p.pending_services)) [
      | inl c ↦
          rw (request_service, e, c)
            (fails id p (set_logged true (set_logged false p)) circular_dependency w refl refl refl
              refl)
      | inr c ↦ elim (Option-cases (lookup id p.factory_map)) [
        | inl f ↦
            rw (request_service, e, c, f)
              (fails id p (pop (set_logged true (push id (set_logged false p))))
                unresolved_dependency w (pop_back-append p.pending_services id) refl refl refl)
        | inr (f, u) ↦
            let a =
              run-Extends (request_service n) n (request_service-Serves n) f
                (push id (set_logged false p)) (push-IsLocator id false p w e)
                (omega (arith, h, free_push id f p.factory_map p.pending_services u c)) in
            rw (request_service, e, c, u)
              (settle-Serves id false p
                (run_factory (request_service n) f (push id (set_logged false p))) c a.0 a.1 a.2)
      ]
    ]
  ]
