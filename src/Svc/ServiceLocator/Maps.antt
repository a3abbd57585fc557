-- ===== src/Svc/ServiceLocator/Maps.antt =====
-- src/voxen/svc/service_locator.cpp: the maps and the stack of the locator.
use voxen.Prelude.{
  ℕ, suc, ◌<◌, ◌≤◌, ◌≡◌, refl, ap, true, false, List, [], ◌∷◌, ◌++◌, none, some, ◌==◌,
  if◌then◌else◌, arith, Bool-cases, inl, inr, ==→eq,
}
use voxen.Svc.ServiceLocator.{lookup, emplace, contains, pop_back}

pub pop_back-append : (ks : List ℕ) (id : ℕ) → pop_back (ks ++ id ∷ []) ≡ ks
pop_back-append [] id = refl
pop_back-append (k ∷ []) id = refl
pop_back-append (k ∷ l ∷ ks) id = ap (λ y. k ∷ y) (pop_back-append (l ∷ ks) id)

pub contains-append :
    (x id : ℕ) (ks : List ℕ)
    → contains x (ks ++ id ∷ []) ≡ (if contains x ks then true else id == x)
contains-append x id [] = ground arith
contains-append x id (k ∷ ks) = ground (arith, contains-append x id ks)

module _ {ℓ} {A : Type ℓ} where
  -- The keys in order.
  abbrev pub keys : List (ℕ × A) → List ℕ
  keys [] = []
  keys ((k, a) ∷ xs) = k ∷ keys xs

  abbrev pub IsDistinct : List (ℕ × A) → Type ℓ
  IsDistinct [] = Unit
  IsDistinct ((k, a) ∷ xs) = (lookup k xs ≡ none) × IsDistinct xs

  pub lookup-append :
      (x id : ℕ) (a : A) (xs : List (ℕ × A))
      → lookup id xs ≡ none
      → lookup x (xs ++ (id, a) ∷ []) ≡ (if id == x then some a else lookup x xs)
  lookup-append x id a [] e = refl
  lookup-append x id a ((k, b) ∷ xs) e = ground (arith, lookup-append x id a xs)

  pub emplace-append :
      (id : ℕ) (a : A) (xs : List (ℕ × A))
      → lookup id xs ≡ none
      → emplace id a xs ≡ xs ++ (id, a) ∷ []
  emplace-append id a [] e = refl
  emplace-append id a ((k, b) ∷ xs) e = ground (arith, emplace-append id a xs)

  pub keys-append :
      (id : ℕ) (a : A) (xs : List (ℕ × A)) → keys (xs ++ (id, a) ∷ []) ≡ keys xs ++ id ∷ []
  keys-append id a [] = refl
  keys-append id a ((k, b) ∷ xs) = ap (λ y. k ∷ y) (keys-append id a xs)

  pub lookup-later :
      (id k : ℕ) (b : A) (xs : List (ℕ × A))
      → lookup id ((k, b) ∷ xs) ≡ none
      → ((k == id) ≡ false) × (lookup id xs ≡ none)
  lookup-later id k b xs e = elim (Bool-cases (k == id)) [
    | inl t ↦ absurd (ground (arith, e, t))
    | inr t ↦ (t, ground (arith, e, t))
  ]

  pub append-IsDistinct :
      (id : ℕ) (a : A) (xs : List (ℕ × A))
      → lookup id xs ≡ none
      → IsDistinct xs
      → IsDistinct (xs ++ (id, a) ∷ [])
  append-IsDistinct id a [] e d = (refl, tt)
  append-IsDistinct id a ((k, b) ∷ xs) e d =
      let (t, f) = lookup-later id k b xs e in
      (ground (arith, lookup-append k id a xs f, t, d.0), append-IsDistinct id a xs f d.1)

  -- The keys that are in the map but not in the list, counted.
  abbrev pub free : List (ℕ × A) → List ℕ → ℕ
  free [] ks = 0
  free ((k, a) ∷ xs) ks = if contains k ks then free xs ks else suc (free xs ks)

  free_mono : (id : ℕ) (xs : List (ℕ × A)) (ks : List ℕ) → free xs (ks ++ id ∷ []) ≤ free xs ks
  free_mono id [] ks = omega arith
  free_mono id ((k, a) ∷ xs) ks = ground (arith, contains-append k id ks, free_mono id xs ks)

  pub free_push :
      (id : ℕ) (a : A) (xs : List (ℕ × A)) (ks : List ℕ)
      → lookup id xs ≡ some a
      → contains id ks ≡ false
      → free xs (ks ++ id ∷ []) < free xs ks
  free_push id a [] ks e c = absurd (ground (arith, e))
  free_push id a ((k, b) ∷ xs) ks e c = elim (Bool-cases (k == id)) [
    | inl t ↦ ground (
      arith,
      contains-append k id ks,
      free_mono id xs ks,
      ap (λ y. contains y ks) (==→eq k id t),
      c,
      t,
    )
    | inr t ↦ ground (arith, contains-append k id ks, free_push id a xs ks, e, c, t)
  ]
