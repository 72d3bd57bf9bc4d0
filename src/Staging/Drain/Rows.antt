-- ===== src/Staging/Drain/Rows.antt =====
-- The order of the rows that a drain starts from, and which they are.
use grosh.Prelude.{
  ℕ, ◌≤◌, Bool, true, false, List, [], ◌∷◌, ◌≡◌, inl, inr, ◌⊎◌, filter, arith, ltb, if◌then◌else◌,
  Member, filter-Member, Member-filter,
}
use grosh.Staging.{StagedRow, Store, sort_rows, place, is_of, select_staged_for_user}

module _ {P : Type 0} where
  -- The times do not decrease.
  abbrev pub IsOrdered : List (StagedRow P) → Type 0
  IsOrdered [] = Unit
  IsOrdered (row ∷ []) = Unit
  IsOrdered (row ∷ next ∷ rows) = (row.created_at ≤ next.created_at) × IsOrdered (next ∷ rows)

  place-IsOrdered :
      (row : StagedRow P) (rows : List (StagedRow P)) → IsOrdered rows → IsOrdered (place row rows)
  unfolding place
  place-IsOrdered row [] h = tt
  place-IsOrdered row (r ∷ []) h = ground arith
  place-IsOrdered row (r ∷ s ∷ rows) h = ground (arith, place-IsOrdered row (s ∷ rows) h.1)

  sort_rows-IsOrdered : (rows : List (StagedRow P)) → IsOrdered (sort_rows rows)
  unfolding sort_rows
  sort_rows-IsOrdered [] = tt
  sort_rows-IsOrdered (row ∷ rows) = place-IsOrdered row (sort_rows rows) (sort_rows-IsOrdered rows)

  pub select-IsOrdered :
      (db : Store P) (user_id : ℕ) → IsOrdered (select_staged_for_user db user_id)
  unfolding select_staged_for_user
  select-IsOrdered db user_id = sort_rows-IsOrdered (filter (is_of user_id) db.staged)

  Member-place :
      (x row : StagedRow P) (rows : List (StagedRow P))
      → Member x (place row rows)
      → (row ≡ x) ⊎ Member x rows
  unfolding place
  Member-place x row [] (inl e) = inl e
  Member-place x row [] (inr m) = elim m [ ]
  Member-place x row (r ∷ rows) m =
      split (ltb r.created_at row.created_at) (Member-place x row rows) m
    where
      split :
          (b : Bool)
          → (Member x (place row rows) → (row ≡ x) ⊎ Member x rows)
          → Member x (if b then r ∷ place row rows else row ∷ r ∷ rows)
          → (row ≡ x) ⊎ Member x (r ∷ rows)
      split true rest (inl e) = inr (inl e)
      split true rest (inr m) = elim (rest m) [ inl e ↦ inl e | inr n ↦ inr (inr n) ]
      split false rest m = m

  place-Member :
      (x row : StagedRow P) (rows : List (StagedRow P))
      → (row ≡ x) ⊎ Member x rows
      → Member x (place row rows)
  unfolding place
  place-Member x row [] m = m
  place-Member x row (r ∷ rows) m =
      split (ltb r.created_at row.created_at) (place-Member x row rows) m
    where
      split :
          (b : Bool)
          → ((row ≡ x) ⊎ Member x rows → Member x (place row rows))
          → (row ≡ x) ⊎ Member x (r ∷ rows)
          → Member x (if b then r ∷ place row rows else row ∷ r ∷ rows)
      split true rest (inl e) = inr (rest (inl e))
      split true rest (inr (inl e)) = inl e
      split true rest (inr (inr m)) = inr (rest (inr m))
      split false rest m = m

  Member-sort_rows :
      (x : StagedRow P) (rows : List (StagedRow P)) → Member x (sort_rows rows) → Member x rows
  unfolding sort_rows
  Member-sort_rows x [] m = m
  Member-sort_rows x (row ∷ rows) m = elim (Member-place x row (sort_rows rows) m) [
    | inl e ↦ inl e
    | inr n ↦ inr (Member-sort_rows x rows n)
  ]

  sort_rows-Member :
      (x : StagedRow P) (rows : List (StagedRow P)) → Member x rows → Member x (sort_rows rows)
  unfolding sort_rows
  sort_rows-Member x [] m = m
  sort_rows-Member x (row ∷ rows) (inl e) = place-Member x row (sort_rows rows) (inl e)
  sort_rows-Member x (row ∷ rows) (inr m) =
      place-Member x row (sort_rows rows) (inr (sort_rows-Member x rows m))

  -- The rows that a drain starts from: staged rows of the user.
  pub Member-select :
      (db : Store P) (user_id : ℕ) (x : StagedRow P)
      → Member x (select_staged_for_user db user_id)
      → Member x db.staged × (x.user_id ≡ user_id)
  unfolding select_staged_for_user
  Member-select db user_id x m =
      let (n, h) =
        Member-filter x (is_of user_id) db.staged
          (Member-sort_rows x (filter (is_of user_id) db.staged) m) in
      (n, ground (arith, h))

  pub select-Member :
      (db : Store P) (user_id : ℕ) (x : StagedRow P)
      → Member x db.staged
      → x.user_id ≡ user_id
      → Member x (select_staged_for_user db user_id)
  unfolding select_staged_for_user
  select-Member db user_id x m h =
      sort_rows-Member x (filter (is_of user_id) db.staged)
        (filter-Member x (is_of user_id) db.staged m (ground (arith, h)))
