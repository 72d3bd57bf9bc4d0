-- ===== src/Backfill/Windows.antt =====
-- Which periods the walk asks for.
use grosh.Prelude.{
  ℕ, String, contains_text, zero, suc, ◌+◌, ◌-◌, ◌≤◌, ◌<◌, ◌≡◌, ◌∙◌, Bool, true, false, ◌&&◌,
  Option, none, some, List, refl, sym, subst, inl, inr, Bool-cases, All, All-map, arith, any, leb,
  leb→lt, ltb, ◌⊎◌, ◌==◌,
}
use grosh.Backfill.{
  chunk_seconds, Reply, Progress, completed, statements, api_error, chunk_start, publish,
  on_api_error, nothing_more, option_map, fetch_back,
}

-- The instant lies in one of the periods, whose ends belong to it.
abbrev pub is_covered : ℕ → List (ℕ × ℕ) → Bool
is_covered t periods = any (λ w. leb w.0 t && leb t w.1) periods

-- A period of at most 31 days that lies between two instants.
abbrev pub IsPeriod : ℕ → ℕ → ℕ × ℕ → Type 0
IsPeriod from to (start, end) =
    (from ≤ start) × (start ≤ end) × (end ≤ to) × (end ≤ start + chunk_seconds)

chunk_start_bounds :
    (from to : ℕ)
    → from < to
    → (from ≤ chunk_start from to)
      × (chunk_start from to ≤ to)
      × (to ≤ chunk_start from to + chunk_seconds)
unfolding chunk_start
chunk_start_bounds from to h = ground arith

Reply-cases {ℓ} :
    {A : Type ℓ} (r : Reply A)
    → ((items : List A) × (r ≡ statements items))
      ⊎ (code : ℕ) × (message : String) × (r ≡ api_error code message)
Reply-cases (statements items) = inl (items, refl)
Reply-cases (api_error code message) = inr (code, message, refl)

some_same {ℓ} : {A : Type ℓ} {a b : A} → some a ≡ some b → a ≡ b
some_same h = cc

mapped {ℓ} :
    {A : Type ℓ} {f : Progress A → Progress A} {p : Progress A} (o : Option (Progress A))
    → option_map f o ≡ some p
    → (q : Progress A) × (o ≡ some q) × (f q ≡ p)
mapped none h = cc
mapped (some q) h = (q, refl, some_same h)

ltb→lt : (m n : ℕ) → ltb m n ≡ true → m < n
ltb→lt m n h = ground arith

module _ {ℓ} {A : Type ℓ} (get_statements : ℕ → ℕ → Reply A) (user_id account_id from : ℕ) where
  abbrev walk : ℕ → ℕ → Option (Progress A)
  walk = fetch_back get_statements user_id account_id from

  step_done :
      (fuel to : ℕ) → ltb from to ≡ false → walk (suc fuel) to ≡ some (nothing_more false completed)
  unfolding fetch_back
  step_done fuel to e = rw (fetch_back, e)

  step_fetch :
      (fuel to : ℕ) (items : List A)
      → ltb from to ≡ true
      → get_statements (chunk_start from to) to ≡ statements items
      → walk (suc fuel) to
        ≡ option_map
            (publish user_id account_id (chunk_start from to, to) items)
            (walk fuel (chunk_start from to - 1))
  unfolding fetch_back
  step_fetch fuel to items e f = rw (fetch_back, e, f)

  step_error :
      (fuel to status_code : ℕ) (message : String)
      → ltb from to ≡ true
      → get_statements (chunk_start from to) to ≡ api_error status_code message
      → walk (suc fuel) to ≡ some (on_api_error status_code message)
  unfolding fetch_back
  step_error fuel to status_code message e f = rw (fetch_back, e, f)

  -- With more fuel than the newest timestamp the loop ends.
  fetch_back_ends : (fuel to : ℕ) → to < fuel → (p : Progress A) × (walk fuel to ≡ some p)
  fetch_back_ends zero to h = absurd (omega arith)
  fetch_back_ends (suc fuel) to h = elim (Bool-cases (ltb from to)) [
    | inr e ↦ (_, step_done fuel to e)
    | inl e ↦ elim (Reply-cases (get_statements (chunk_start from to) to)) [
      | inr (code, message, f) ↦ (_, step_error fuel to code message e f)
      | inl (items, f) ↦
          let low = chunk_start_bounds from to (ltb→lt from to e) in
          let (p, done) =
            fetch_back_ends fuel (chunk_start from to - 1)
              (omega (arith, low.0, low.1, ltb→lt from to e)) in
          (
            publish user_id account_id (chunk_start from to, to) items p,
            rw (step_fetch fuel to items e f, done),
          )
    ]
  ]

  -- What is claimed of the walk from `to`.
  abbrev IsWalk : ℕ → Progress A → Type 0
  IsWalk to p =
      All (IsPeriod from to) p.periods
      × (p.ending ≡ completed → (t : ℕ) → from < t → t ≤ to → is_covered t p.periods ≡ true)

  publish-IsWalk :
      (to : ℕ) (items : List A) (p : Progress A)
      → from < to
      → IsWalk (chunk_start from to - 1) p
      → IsWalk to (publish user_id account_id (chunk_start from to, to) items p)
  unfolding publish
  publish-IsWalk to items p h (inside, covers) =
      let (low, mid, long) = chunk_start_bounds from to h in
      (
        (
          (low, mid, omega arith, long),
          All-map (λ w b. (b.0, b.1, omega (arith, b.2), b.3)) p.periods inside,
        ),
        λ ended t a b. elim (Bool-cases (leb (chunk_start from to) t)) [
          | inl e ↦ ground (arith, e)
          | inr e ↦ rw (e, covers ended t a (omega (arith, leb→lt _ _ e)))
        ],
      )

  on_api_error-IsWalk : (to code : ℕ) (message : String) → IsWalk to (on_api_error code message)
  unfolding on_api_error
  on_api_error-IsWalk to code message =
      elim (Bool-cases (code == 400 && contains_text message "out of bounds")) [
        | inl e ↦ rw e (tt, λ ended. cc)
        | inr e ↦ rw e (tt, λ ended. cc)
      ]

  done-IsWalk : (to : ℕ) → ltb from to ≡ false → IsWalk to (nothing_more false completed)
  done-IsWalk to e = (tt, λ ended t a b. absurd (ground (arith, e, a, b)))

  fetch_back-IsWalk : (fuel to : ℕ) (p : Progress A) → walk fuel to ≡ some p → IsWalk to p
  unfolding fetch_back
  fetch_back-IsWalk zero to p h = cc
  fetch_back-IsWalk (suc fuel) to p h = elim (Bool-cases (ltb from to)) [
    | inr e ↦ subst (IsWalk to) (some_same (sym (step_done fuel to e) ∙ h)) (done-IsWalk to e)
    | inl e ↦ elim (Reply-cases (get_statements (chunk_start from to) to)) [
      | inr (code, message, f) ↦
          subst (IsWalk to) (some_same (sym (step_error fuel to code message e f) ∙ h))
            (on_api_error-IsWalk to code message)
      | inl (items, f) ↦
          let (q, inner, same) =
            mapped (walk fuel (chunk_start from to - 1)) (sym (step_fetch fuel to items e f) ∙ h) in
          subst (IsWalk to) same (
            publish-IsWalk to items q (ltb→lt from to e)
              (fetch_back-IsWalk fuel (chunk_start from to - 1) q inner))
    ]
  ]

  -- The walk back from `to`, with more fuel than `to`, ends. Each period that it fetched lies between
  -- `from` and `to` and is at most 31 days long, and where the walk completes every instant later
  -- than `from` and up to `to` lies in one of them.
  pub fetch_back-ends_covers :
      (fuel to : ℕ)
      → to < fuel
      → (p : Progress A) × (fetch_back get_statements user_id account_id from fuel to ≡ some p)
        × All (IsPeriod from to) p.periods
        × (p.ending ≡ completed → (t : ℕ) → from < t → t ≤ to → is_covered t p.periods ≡ true)
  fetch_back-ends_covers fuel to h =
      let (p, done) = fetch_back_ends fuel to h in
      let (inside, covers) = fetch_back-IsWalk fuel to p done in (p, done, inside, covers)
