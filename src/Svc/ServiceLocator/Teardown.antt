-- ===== src/Svc/ServiceLocator/Teardown.antt =====
-- src/voxen/svc/service_locator.cpp: the order in which services are destroyed.
use voxen.Prelude.{
  Option-cases, Bool-cases, inl, inr, ==→eq, ℕ, ◌≡◌, refl, sym, ap, ◌∙◌, subst, true, false, List,
  [], ◌∷◌, ◌++◌, none, ◌==◌, arith, append_nil, append_assoc,
}
use voxen.Svc.ServiceLocator.{Locator, lookup, remove, destroy_services, destroy_all, reverse}
use voxen.Svc.ServiceLocator.Maps.{keys, IsDistinct, lookup-append, lookup-later}
use voxen.Svc.ServiceLocator.Requests.{IsLocator}

==_refl : (i : ℕ) → (i == i) ≡ true
==_refl i = ground arith

module _ {ℓ} {S : Type ℓ} where
  remove-append :
      (id : ℕ) (s : S) (xs : List (ℕ × S))
      → lookup id xs ≡ none
      → remove id (xs ++ (id, s) ∷ []) ≡ xs
  remove-append id s [] e = rw (==_refl id) refl
  remove-append id s ((k, b) ∷ xs) e =
      let (t, f) = lookup-later id k b xs e in
      rw (t) (ap (λ y. (k, b) ∷ y) (remove-append id s xs f))

  occurs :
      (id : ℕ) (s : S) (before xs : List (ℕ × S))
      → lookup id (before ++ (id, s) ∷ xs) ≡ none
      → true ≡ false
  occurs id s [] xs e = absurd (ground (arith, e))
  occurs id s ((k, b) ∷ before) xs e =
      occurs id s before xs (lookup-later id k b (before ++ (id, s) ∷ xs) e).1

  -- A key occurs once.
  lookup-distinct :
      (id : ℕ) (s : S) (before xs : List (ℕ × S))
      → IsDistinct (before ++ (id, s) ∷ xs)
      → lookup id before ≡ none
  lookup-distinct id s [] xs d = refl
  lookup-distinct id s ((k, b) ∷ before) xs d = elim (Bool-cases (k == id)) [
    | inl t ↦ absurd (
        ground (
          arith,
          occurs id s before xs
              (subst (λ y. lookup y (before ++ (id, s) ∷ xs) ≡ none) (==→eq k id t) d.0),
        ))
    | inr t ↦ rw (t) (lookup-distinct id s before xs d.1)
  ]

module _ {ℓ} {S : Type ℓ} {T : Type 0} (destroy : List (ℕ × S) → S → T → T) where
  -- Each service after all those after it, with those before it still there.
  pub unwind : List (ℕ × S) → List (ℕ × S) → T → T
  unwind before [] t = t
  unwind before ((id, s) ∷ xs) t = destroy before s (unwind (before ++ (id, s) ∷ []) xs t)

  destroy_services-append :
      (ids later : List ℕ) (active : List (ℕ × S)) (t : T)
      → destroy_services destroy (ids ++ later) active t
        ≡ (let r = destroy_services destroy ids active t in destroy_services destroy later r.0 r.1)
  unfolding destroy_services
  destroy_services-append [] later active t = refl
  destroy_services-append (id ∷ ids) later active t = elim (Option-cases (lookup id active)) [
    | inl e ↦ rw (destroy_services, e) (destroy_services-append ids later active t)
    | inr (s, e) ↦
        rw (destroy_services, e)
          (destroy_services-append ids later (remove id active) (destroy (remove id active) s t))
  ]

  destroy_last :
      (id : ℕ) (s : S) (active : List (ℕ × S)) (t : T)
      → lookup id active ≡ none
      → destroy_services destroy (id ∷ []) (active ++ (id, s) ∷ []) t ≡ (active, destroy active s t)
  unfolding destroy_services
  destroy_last id s active t e =
      rw (destroy_services, lookup-append id id s active e, ==_refl id, remove-append id s active e)
        refl

  nothing :
      (active : List (ℕ × S)) (t : T) → destroy_services destroy [] (active ++ []) t ≡ (active, t)
  unfolding destroy_services
  nothing active t = ap (λ y. (y, t)) (append_nil active)

  destroy_services-reverse :
      (before xs : List (ℕ × S)) (t : T)
      → IsDistinct (before ++ xs)
      → destroy_services destroy (reverse (keys xs)) (before ++ xs) t ≡ (before, unwind before xs t)
  unfolding unwind
  destroy_services-reverse before [] t d = nothing before t
  destroy_services-reverse before ((id, s) ∷ xs) t d =
      destroy_services-append (reverse (keys xs)) (id ∷ []) (before ++ (id, s) ∷ xs) t
      ∙ ap (λ (r : List (ℕ × S) × T). destroy_services destroy (id ∷ []) r.0 r.1)
          (ap (λ y. destroy_services destroy (reverse (keys xs)) y t)
              (sym (append_assoc before ((id, s) ∷ []) xs))
            ∙ destroy_services-reverse (before ++ (id, s) ∷ []) xs t
                (subst IsDistinct (sym (append_assoc before ((id, s) ∷ []) xs)) d))
      ∙ destroy_last id s before (unwind (before ++ (id, s) ∷ []) xs t)
          (lookup-distinct id s before xs d)

  -- In a locator in order the destructor ends with no active service; each service is destroyed once,
  -- after all those that were started after it and while exactly those started before it are active.
  pub destroy_all_lem :
      (p : Locator S) (t : T)
      → IsLocator p
      → destroy_all destroy p t ≡ ([], unwind [] p.active_services t)
  unfolding destroy_all
  destroy_all_lem p t w =
      ap (λ y. destroy_services destroy (reverse y) p.active_services t) w.ordered
      ∙ destroy_services-reverse [] p.active_services t w.distinct
