-- ===== src/Rates/Ingest/Updates.antt =====
-- Updates of one row of a table whose ids are distinct, seen through counts.
use grosh.Prelude.{
  ℕ, ◌+◌, ◌≤◌, Bool, true, false, none, some, List, [], ◌∷◌, ◌++◌, ◌≡◌, ◌≢◌, refl, sym, subst, inl,
  inr, Bool-cases, All, Member, filter, arith, ◌==◌,
}
use grosh.Rates.Table.{CurrencyRate}
use grosh.Rates.Ingest.{update_by_id, find_row}

abbrev pub bit : Bool → ℕ
bit true = 1
bit false = 0

abbrev pub count : (CurrencyRate → Bool) → List CurrencyRate → ℕ
count p [] = 0
count p (row ∷ rows) = bit (p row) + count p rows

-- No two rows have one id.
abbrev pub IsUnique : List CurrencyRate → Type 0
IsUnique [] = Unit
IsUnique (row ∷ rows) = All (λ s. s.id ≢ row.id) rows × IsUnique rows

pub find_row_sound :
    (keep : CurrencyRate → Bool) (rows : List CurrencyRate) {row : CurrencyRate}
    → find_row keep rows ≡ some row
    → (keep row ≡ true) × Member row rows
unfolding find_row
find_row_sound keep [] h = cc
find_row_sound keep (r ∷ rows) {row} h = elim (Bool-cases (keep r)) [
  | inl kept ↦
      let same : r ≡ row = ground (arith, kept) in (subst (λ x. keep x ≡ true) same kept, inl same)
  | inr dropped ↦
      let (kept, inside) = find_row_sound keep rows {row = row} (ground (arith, dropped)) in
      (kept, inr inside)
]

pub find_row-none :
    (keep : CurrencyRate → Bool) (rows : List CurrencyRate)
    → find_row keep rows ≡ none
    → count keep rows ≡ 0
unfolding find_row
find_row-none keep [] h = refl
find_row-none keep (r ∷ rows) h = ground (arith, find_row-none keep rows)

pub count-append :
    (p : CurrencyRate → Bool) (xs ys : List CurrencyRate)
    → count p (xs ++ ys) ≡ count p xs + count p ys
count-append p [] ys = omega arith
count-append p (x ∷ xs) ys = omega (arith, count-append p xs ys)

module _ (f : CurrencyRate → CurrencyRate) where
  absent_same :
      (i : ℕ) (rows : List CurrencyRate) → All (λ s. s.id ≢ i) rows → update_by_id i f rows ≡ rows
  unfolding update_by_id
  absent_same i [] h = refl
  absent_same i (r ∷ rows) h = ground (arith, absent_same i rows h.1)

  absent-Member :
      (c : CurrencyRate) (i : ℕ) (rows : List CurrencyRate)
      → All (λ s. s.id ≢ i) rows
      → Member c rows
      → c.id ≢ i
  absent-Member c i [] h m = elim m [ ]
  absent-Member c i (r ∷ rows) h (inl e) = λ same. h.0 (ground arith)
  absent-Member c i (r ∷ rows) h (inr m) = absent-Member c i rows h.1 m

  update_hit :
      (r : CurrencyRate) (rows : List CurrencyRate)
      → update_by_id r.id f (r ∷ rows) ≡ f r ∷ update_by_id r.id f rows
  unfolding update_by_id
  update_hit r rows = ground arith

  update_miss :
      (i : ℕ) (r : CurrencyRate) (rows : List CurrencyRate)
      → r.id ≢ i
      → update_by_id i f (r ∷ rows) ≡ r ∷ update_by_id i f rows
  unfolding update_by_id
  update_miss i r rows h = ground arith

  pub count-update :
      (p : CurrencyRate → Bool) (c : CurrencyRate) (rows : List CurrencyRate)
      → IsUnique rows
      → Member c rows
      → count p (update_by_id c.id f rows) + bit (p c) ≡ count p rows + bit (p (f c))
  count-update p c [] u m = elim m [ ]
  count-update p c (r ∷ rows) u (inl e) =
      subst
        (λ d.
          count p (update_by_id d.id f (r ∷ rows)) + bit (p d) ≡ count p (r ∷ rows) + bit (p (f d)))
        e (rw (update_hit r rows, absent_same r.id rows u.0) (omega arith))
  count-update p c (r ∷ rows) u (inr m) =
      rw (update_miss c.id r rows (λ same. absent-Member c r.id rows u.0 m (sym same)))
        (omega (arith, count-update p c rows u.1 m))

  -- Rows that fail a test before and after the update are invisible to a filter by it.
  pub filter-update :
      (p : CurrencyRate → Bool) (c : CurrencyRate) (rows : List CurrencyRate)
      → IsUnique rows
      → Member c rows
      → p c ≡ false
      → p (f c) ≡ false
      → filter p (update_by_id c.id f rows) ≡ filter p rows
  filter-update p c [] u m a b = elim m [ ]
  filter-update p c (r ∷ rows) u (inl e) a b =
      subst
        (λ d.
          p d ≡ false
          → p (f d) ≡ false
          → filter p (update_by_id d.id f (r ∷ rows)) ≡ filter p (r ∷ rows))
        e (λ a' b'. rw (update_hit r rows, absent_same r.id rows u.0) (rw (a', b'))) a b
  filter-update p c (r ∷ rows) u (inr m) a b =
      rw (update_miss c.id r rows (λ same. absent-Member c r.id rows u.0 m (sym same)))
        (rw (filter-update p c rows u.1 m a b))

  module _ (keeps_id : (r : CurrencyRate) → (f r).id ≡ r.id) where
    pub All-ids-update :
        (i j : ℕ) (rows : List CurrencyRate)
        → All (λ s. s.id ≢ j) rows
        → All (λ s. s.id ≢ j) (update_by_id i f rows)
    unfolding update_by_id
    All-ids-update i j [] h = tt
    All-ids-update i j (r ∷ rows) h = (ground (arith, keeps_id r), All-ids-update i j rows h.1)

    pub IsUnique-update :
        (i : ℕ) (rows : List CurrencyRate) → IsUnique rows → IsUnique (update_by_id i f rows)
    unfolding update_by_id
    IsUnique-update i [] u = tt
    IsUnique-update i (r ∷ rows) u = (
      elim (Bool-cases (r.id == i)) [
        | inl e ↦ rw e (rw (keeps_id r) (All-ids-update i r.id rows u.0))
        | inr e ↦ rw e (All-ids-update i r.id rows u.0)
      ],
      IsUnique-update i rows u.1,
    )

pub IsUnique-append :
    (rows : List CurrencyRate) (row : CurrencyRate)
    → IsUnique rows
    → All (λ s. s.id ≢ row.id) rows
    → IsUnique (rows ++ row ∷ [])
IsUnique-append [] row u h = (tt, tt)
IsUnique-append (r ∷ rows) row u h =
    (All-snoc rows (u.0) (λ e. h.0 (sym e)), IsUnique-append rows row u.1 h.1)
  where
    All-snoc :
        (xs : List CurrencyRate)
        → All (λ s. s.id ≢ r.id) xs
        → row.id ≢ r.id
        → All (λ s. s.id ≢ r.id) (xs ++ row ∷ [])
    All-snoc [] a b = (b, tt)
    All-snoc (x ∷ xs) a b = (a.0, All-snoc xs a.1 b)

module _ (p : CurrencyRate → Bool) where
  pub count_pos :
      (c : CurrencyRate) (rows : List CurrencyRate) → Member c rows → p c ≡ true → 1 ≤ count p rows
  count_pos c [] m h = elim m [ ]
  count_pos c (r ∷ rows) (inl e) h = rw (subst (λ x. p x ≡ true) (sym e) h) (omega arith)
  count_pos c (r ∷ rows) (inr m) h = omega (arith, count_pos c rows m h)

  pub count-eq-zero : (rows : List CurrencyRate) → count p rows ≡ 0 → All (λ r. p r ≡ false) rows
  count-eq-zero [] h = tt
  count-eq-zero (r ∷ rows) h = (ground arith, count-eq-zero rows (ground arith))

  pub count_none : (rows : List CurrencyRate) → All (λ r. p r ≡ false) rows → count p rows ≡ 0
  count_none [] h = refl
  count_none (r ∷ rows) h = rw h.0 (omega (arith, count_none rows h.1))

pub count_le_add :
    (p q s : CurrencyRate → Bool)
    → ((r : CurrencyRate) → bit (p r) ≤ bit (q r) + bit (s r))
    → (rows : List CurrencyRate) → count p rows ≤ count q rows + count s rows
count_le_add p q s h [] = omega arith
count_le_add p q s h (r ∷ rows) = omega (arith, h r, count_le_add p q s h rows)

pub All-append {κ} :
    (P : CurrencyRate → Type κ) (rows : List CurrencyRate) (row : CurrencyRate)
    → All P rows
    → P row
    → All P (rows ++ row ∷ [])
All-append P [] row h k = (k, tt)
All-append P (r ∷ rows) row h k = (h.0, All-append P rows row h.1 k)

module _ (P : CurrencyRate → Type 0) (f : CurrencyRate → CurrencyRate) where
  pub All-update :
      (c : CurrencyRate) (rows : List CurrencyRate)
      → IsUnique rows
      → Member c rows
      → All P rows
      → P (f c)
      → All P (update_by_id c.id f rows)
  All-update c [] u m h k = elim m [ ]
  All-update c (r ∷ rows) u (inl e) h k =
      subst (λ d. P (f d) → All P (update_by_id d.id f (r ∷ rows))) e
        (λ k'. rw (update_hit f r rows, absent_same f r.id rows u.0) (k', h.1)) k
  All-update c (r ∷ rows) u (inr m) h k =
      rw (update_miss f c.id r rows (λ same. absent-Member f c r.id rows u.0 m (sym same)))
        (h.0, All-update c rows u.1 m h.1 k)

pub All-Member {κ} :
    (P : CurrencyRate → Type κ) (c : CurrencyRate) (rows : List CurrencyRate)
    → All P rows
    → Member c rows
    → P c
All-Member P c [] h m = elim m [ ]
All-Member P c (r ∷ rows) h (inl e) = subst P e h.0
All-Member P c (r ∷ rows) h (inr m) = All-Member P c rows h.1 m
