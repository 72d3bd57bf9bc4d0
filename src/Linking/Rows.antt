-- ===== src/Linking/Rows.antt =====
-- The first row that passes a test, and rows that are changed.
use grosh.Prelude.{
  Option, ℕ, String, opt_eq, str_eq_iff, map, filter, ◌++◌, Bool, true, false, none, some, List, [],
  ◌∷◌, ◌≡◌, refl, sym, ap, ◌∙◌, arith, any, inl, inr, Bool-cases, Member, Member-any,
}
use grosh.Linking.{column_is, first_of}

pub column_is-some :
    (column : Option String) (text : String) → column_is column text ≡ true → column ≡ some text
column_is-some none text h = absurd cc
column_is-some (some value) text h = ap some ((str_eq_iff value text).0 h)

pub opt_eq-some : (o : Option ℕ) (n : ℕ) → opt_eq o (some n) ≡ true → o ≡ some n
opt_eq-some none n h = absurd cc
opt_eq-some (some m) n h = let e : m ≡ n = ground (arith, h) in ap some e

module _ {A : Type 0} where
  pub first_of-Member :
      (p : A → Bool) (xs : List A) (x : A) → first_of p xs ≡ some x → Member x xs × (p x ≡ true)
  first_of-Member p [] x h = absurd (no_row h)
    where
      no_row : none ≡ some x → ⊥
      no_row h = cc
  first_of-Member p (y ∷ xs) x h = elim (Bool-cases (p y)) [
    | inl e ↦ first e (ground (arith, e, h))
    | inr e ↦ let (m, k) = first_of-Member p xs x (ground (arith, e, h)) in (inr m, k)
  ]
    where
      first : p y ≡ true → y ≡ x → Member x (y ∷ xs) × (p x ≡ true)
      first e same = (inl same, ap p (sym same) ∙ e)

  pub first_of-none :
      (p : A → Bool) (xs : List A) → ((x : A) → Member x xs → p x ≡ false) → first_of p xs ≡ none
  first_of-none p [] h = refl
  first_of-none p (y ∷ xs) h = rw (h y (inl refl)) (first_of-none p xs (λ x m. h x (inr m)))

  pub Member-map :
      {B : Type 0} (change : A → B) (r : A) (rows : List A)
      → Member r rows
      → Member (change r) (map change rows)
  Member-map change r [] m = elim m [ ]
  Member-map change r (x ∷ rows) (inl e) = inl (ap change e)
  Member-map change r (x ∷ rows) (inr m) = inr (Member-map change r rows m)

  pub map-Member :
      (change : A → A) (r : A) (rows : List A)
      → Member r (map change rows)
      → (s : A) × Member s rows × (r ≡ change s)
  map-Member change r [] m = elim m [ ]
  map-Member change r (x ∷ rows) (inl e) = (x, inl refl, sym e)
  map-Member change r (x ∷ rows) (inr m) =
      let (s, n, e) = map-Member change r rows m in (s, inr n, e)

  pub first_of-last :
      (p : A → Bool) (xs : List A) (x : A)
      → ((y : A) → Member y xs → p y ≡ false)
      → p x ≡ true
      → first_of p (xs ++ x ∷ []) ≡ some x
  first_of-last p [] x h e = rw e refl
  first_of-last p (y ∷ xs) x h e = rw (h y (inl refl)) (first_of-last p xs x (λ z m. h z (inr m)) e)

  pub any-false :
      (p : A → Bool) (xs : List A) → ((x : A) → Member x xs → p x ≡ false) → any p xs ≡ false
  any-false p [] h = refl
  any-false p (y ∷ xs) h = rw (h y (inl refl)) (any-false p xs (λ x m. h x (inr m)))

  pub any-filter :
      (p q s : A → Bool) (xs : List A)
      → ((x : A) → p x ≡ true → (q x ≡ true) × (s x ≡ true))
      → any p xs ≡ true
      → any s (filter q xs) ≡ true
  any-filter p q s [] k h = absurd (ground arith)
  any-filter p q s (x ∷ xs) k h = elim (Bool-cases (p x)) [
    | inl e ↦ let (a, b) = k x e in rw (a, b) refl
    | inr e ↦
        let rest = any-filter p q s xs k (ground (arith, e, h)) in
        elim (Bool-cases (q x)) [ inl f ↦ ground (arith, f, rest) | inr f ↦ rw f rest ]
  ]

  pub first_of-false :
      (p : A → Bool) (xs : List A) → first_of p xs ≡ none → (x : A) → Member x xs → p x ≡ false
  first_of-false p [] h x m = elim m [ ]
  first_of-false p (y ∷ xs) h x m = elim (Bool-cases (p y)) [
    | inl e ↦ absurd (ground (arith, e, h))
    | inr e ↦ elim m [
      | inl same ↦ ap p (sym same) ∙ e
      | inr n ↦ first_of-false p xs (ground (arith, e, h)) x n
    ]
  ]

  pub any-none :
      (p : A → Bool) (xs : List A) → any p xs ≡ false → (x : A) → Member x xs → p x ≡ false
  any-none p xs h x m = elim (Bool-cases (p x)) [
    | inl e ↦ absurd (differ (Member-any x p xs m e))
    | inr e ↦ e
  ]
    where
      differ : any p xs ≡ true → ⊥
      differ e = ground (arith, e, h)
