-- ===== src/Replay/Order.antt =====
-- The order of the replay (`ORDER BY time, id`).
use grosh.Prelude.{
  ℕ, ◌<◌, ◌≤◌, ◌⊎◌, ◌==◌, filter, map, true, false, List, [], ◌∷◌, ◌≡◌, refl, inl, inr, Bool-cases,
  All, All-map, arith,
}
use mathlib.Core.List.{Permᴰ}
use mathlib.Core.List.Permᴰ
use grosh.Domain.{Transaction}
use grosh.Replay.{read_row, select_for_user, is_before, place, sort_rows}

-- Each row is earlier than those after it, or at the same instant and with no greater id.
abbrev pub IsOrdered : List Transaction → Type 0
IsOrdered [] = Unit
IsOrdered (row ∷ rows) =
    All (λ later. (row.time < later.time) ⊎ ((row.time ≡ later.time) × (row.id ≤ later.id))) rows
    × IsOrdered rows

-- The same by the comparison of the query.
abbrev IsSorted : List Transaction → Type 0
IsSorted [] = Unit
IsSorted (row ∷ rows) = All (λ later. is_before later row ≡ false) rows × IsSorted rows

is_before-trans-not :
    (a b c : Transaction) → is_before b a ≡ false → is_before c b ≡ false → is_before c a ≡ false
is_before-trans-not a b c h k = ground arith

is_before-asym : (a b : Transaction) → is_before a b ≡ true → is_before b a ≡ false
is_before-asym a b h = ground arith

All-place :
    (P : Transaction → Type 0) (row : Transaction) (rows : List Transaction)
    → P row
    → All P rows
    → All P (place row rows)
unfolding place
All-place P row [] h k = (h, tt)
All-place P row (r ∷ rows) h k = elim (Bool-cases (is_before r row)) [
  | inl e ↦ rw e (k.0, All-place P row rows h k.1)
  | inr e ↦ rw e (h, k)
]

place-IsSorted :
    (row : Transaction) (rows : List Transaction) → IsSorted rows → IsSorted (place row rows)
unfolding place
place-IsSorted row [] o = (tt, tt)
place-IsSorted row (r ∷ rows) o = elim (Bool-cases (is_before r row)) [
  | inl e ↦ rw e (All-place _ row rows (is_before-asym r row e) o.0, place-IsSorted row rows o.1)
  | inr e ↦ rw e ((e, All-map (λ later h. is_before-trans-not row r later e h) rows o.0), o)
]

place-Perm : (row : Transaction) (rows : List Transaction) → Permᴰ (place row rows) (row ∷ rows)
unfolding place
place-Perm row [] = Permᴰ.cons refl Permᴰ.nil
place-Perm row (r ∷ rows) = elim (Bool-cases (is_before r row)) [
  | inl e ↦ rw e (Permᴰ.trans (Permᴰ.cons refl (place-Perm row rows)) (Permᴰ.swap refl refl))
  | inr e ↦ rw e (Permᴰ.refl (row ∷ r ∷ rows))
]

sort_rows-IsSorted :
    (rows : List Transaction) → IsSorted (sort_rows rows) × Permᴰ (sort_rows rows) rows
unfolding sort_rows
sort_rows-IsSorted [] = (tt, Permᴰ.nil)
sort_rows-IsSorted (row ∷ rows) =
    let (ordered, same) = sort_rows-IsSorted rows in
    (
      place-IsSorted row (sort_rows rows) ordered,
      Permᴰ.trans (place-Perm row (sort_rows rows)) (Permᴰ.cons refl same),
    )

sorted-IsOrdered : (rows : List Transaction) → IsSorted rows → IsOrdered rows
sorted-IsOrdered [] s = tt
sorted-IsOrdered (row ∷ rows) s =
    (All-map (λ later h. not_before row later h) rows s.0, sorted-IsOrdered rows s.1)
  where
    not_before :
        (a b : Transaction)
        → is_before b a ≡ false
        → (a.time < b.time) ⊎ ((a.time ≡ b.time) × (a.id ≤ b.id))
    not_before a b h = ground (arith, h)

-- The replay reads the rows of one user, all of them and each once, in the order of their time and, at
-- one instant, of their id.
pub select_for_user-IsOrdered :
    (rows : List Transaction) (user_id : ℕ)
    → (sorted : List Transaction) × (select_for_user rows user_id ≡ map read_row sorted)
      × IsOrdered sorted
      × Permᴰ sorted (filter (λ row. row.user_id == user_id) rows)
unfolding select_for_user
select_for_user-IsOrdered rows user_id =
    let kept = filter (λ row. row.user_id == user_id) rows in
    let (ordered, same) = sort_rows-IsSorted kept in
    (sort_rows kept, refl, sorted-IsOrdered (sort_rows kept) ordered, same)
