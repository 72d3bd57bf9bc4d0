-- ===== src/Prelude/Members.antt =====
-- Elements of lists that are appended, filtered and mapped.
use mathlib.Core.Path.{◌≡◌, refl, sym, ap, ◌∙◌, subst}
use mathlib.Core.Logic.{◌⊎◌, inl, inr}
use mathlib.Core.Bool.{Bool, true, false, ◌&&◌}
use mathlib.Core.List.{List, [], ◌∷◌, ◌++◌, map}
use native.Mathlib.Omega.{arith}
use grosh.Prelude.Tests.{Bool-cases}
use grosh.Prelude.Lists.{filter, any, All, Member}

module _ {A : Type 0} where
  pub Member-append_left : (x : A) (xs ys : List A) → Member x xs → Member x (xs ++ ys)
  Member-append_left x [] ys m = elim m [ ]
  Member-append_left x (y ∷ xs) ys (inl e) = inl e
  Member-append_left x (y ∷ xs) ys (inr m) = inr (Member-append_left x xs ys m)

  pub Member-append_right : (x : A) (xs ys : List A) → Member x ys → Member x (xs ++ ys)
  Member-append_right x [] ys m = m
  Member-append_right x (y ∷ xs) ys m = inr (Member-append_right x xs ys m)

  pub Member-append_cases :
      (x : A) (xs ys : List A) → Member x (xs ++ ys) → Member x xs ⊎ Member x ys
  Member-append_cases x [] ys m = inr m
  Member-append_cases x (y ∷ xs) ys (inl e) = inl (inl e)
  Member-append_cases x (y ∷ xs) ys (inr m) = elim (Member-append_cases x xs ys m) [
    | inl n ↦ inl (inr n)
    | inr n ↦ inr n
  ]

  filter-cases :
      (x : A) (p : A → Bool) (y : A) (xs : List A)
      → Member x (filter p (y ∷ xs))
      → ((y ≡ x) × (p y ≡ true)) ⊎ Member x (filter p xs)
  filter-cases x p y xs m = elim (Bool-cases (p y)) [
    | inl e ↦ taken e (ground (arith, e, m))
    | inr e ↦ inr (ground (arith, e, m))
  ]
    where
      taken :
          p y ≡ true
          → (y ≡ x) ⊎ Member x (filter p xs)
          → ((y ≡ x) × (p y ≡ true)) ⊎ Member x (filter p xs)
      taken e (inl same) = inl (same, e)
      taken e (inr n) = inr n

  pub Member-filter :
      (x : A) (p : A → Bool) (xs : List A) → Member x (filter p xs) → Member x xs × (p x ≡ true)
  Member-filter x p [] m = elim m [ ]
  Member-filter x p (y ∷ xs) m = elim (filter-cases x p y xs m) [
    | inl (same, e) ↦ (inl same, ap p (sym same) ∙ e)
    | inr n ↦ let (n', h) = Member-filter x p xs n in (inr n', h)
  ]

  pub filter-Member :
      (x : A) (p : A → Bool) (xs : List A) → Member x xs → p x ≡ true → Member x (filter p xs)
  filter-Member x p [] m h = elim m [ ]
  filter-Member x p (y ∷ xs) (inl same) h = rw (ap p same ∙ h) (inl same)
  filter-Member x p (y ∷ xs) (inr n) h =
      let rest = filter-Member x p xs n h in
      elim (Bool-cases (p y)) [ inl e ↦ rw e (inr rest) | inr e ↦ rw e rest ]

  pub Member-All : (P : A → Type 0) (x : A) (xs : List A) → All P xs → Member x xs → P x
  Member-All P x [] h m = elim m [ ]
  Member-All P x (y ∷ xs) h (inl same) = subst P same h.0
  Member-All P x (y ∷ xs) h (inr m) = Member-All P x xs h.1 m

  pub any-Member :
      (p : A → Bool) (xs : List A) → any p xs ≡ true → (x : A) × Member x xs × (p x ≡ true)
  any-Member p [] h = absurd (ground arith)
  any-Member p (y ∷ xs) h = elim (Bool-cases (p y)) [
    | inl e ↦ (y, inl refl, e)
    | inr e ↦ let (x, m, k) = any-Member p xs (ground (arith, e, h)) in (x, inr m, k)
  ]

  pub Member-any : (x : A) (p : A → Bool) (xs : List A) → Member x xs → p x ≡ true → any p xs ≡ true
  Member-any x p [] m h = elim m [ ]
  Member-any x p (y ∷ xs) (inl same) h = rw (ap p same ∙ h) refl
  Member-any x p (y ∷ xs) (inr m) h = ground (arith, Member-any x p xs m h)

  pub filter-filter :
      (p q : A → Bool) (xs : List A) → filter p (filter q xs) ≡ filter (λ x. q x && p x) xs
  filter-filter p q [] = refl
  filter-filter p q (x ∷ xs) = ground (arith, filter-filter p q xs)

  pub filter-none :
      (p : A → Bool) (xs : List A) → ((x : A) → Member x xs → p x ≡ false) → filter p xs ≡ []
  filter-none p [] h = refl
  filter-none p (x ∷ xs) h = rw (h x (inl refl)) (filter-none p xs (λ y m. h y (inr m)))

  pub append_assoc : (xs ys zs : List A) → xs ++ ys ++ zs ≡ xs ++ (ys ++ zs)
  append_assoc [] ys zs = refl
  append_assoc (x ∷ xs) ys zs = ap (λ l. x ∷ l) (append_assoc xs ys zs)

  pub append_nil : (xs : List A) → xs ++ [] ≡ xs
  append_nil [] = refl
  append_nil (x ∷ xs) = ap (λ l. x ∷ l) (append_nil xs)

  pub append_last : (xs : List A) (x : A) (ys : List A) → (xs ++ x ∷ []) ++ ys ≡ xs ++ x ∷ ys
  append_last [] x ys = refl
  append_last (y ∷ xs) x ys = ap (λ l. y ∷ l) (append_last xs x ys)

  pub filter-kept :
      (p q : A → Bool) (xs : List A)
      → ((x : A) → Member x xs → p x ≡ true → q x ≡ true)
      → filter p (filter q xs) ≡ filter p xs
  filter-kept p q [] h = refl
  filter-kept p q (x ∷ xs) h =
      let rest = filter-kept p q xs (λ y m. h y (inr m)) in
      let here = h x (inl refl) in
      elim (Bool-cases (p x)) [
        | inl e ↦ rw (e, here e, e) (ap (λ l. x ∷ l) rest)
        | inr e ↦ elim (Bool-cases (q x)) [ inl f ↦ rw (f, e) rest | inr f ↦ rw (f, e) rest ]
      ]

  pub filter-append :
      (p : A → Bool) (xs ys : List A) → filter p (xs ++ ys) ≡ filter p xs ++ filter p ys
  filter-append p [] ys = refl
  filter-append p (x ∷ xs) ys = elim (Bool-cases (p x)) [
    | inl e ↦ rw e (ap (λ l. x ∷ l) (filter-append p xs ys))
    | inr e ↦ rw e (filter-append p xs ys)
  ]

  pub map-append {κ} :
      {B : Type κ} (f : A → B) (xs ys : List A) → map f (xs ++ ys) ≡ map f xs ++ map f ys
  map-append f [] ys = refl
  map-append f (x ∷ xs) ys = ap (λ l. f x ∷ l) (map-append f xs ys)
