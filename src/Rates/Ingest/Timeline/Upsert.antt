-- ===== src/Rates/Ingest/Timeline/Upsert.antt =====
-- An upsert keeps the historical sequence whole.
use grosh.Prelude.{
  ℕ, ◌+◌, ◌≤◌, ◌<◌, true, false, ◌&&◌, Option, none, some, List, [], ◌∷◌, ◌++◌, ◌≡◌, ◌≢◌, ◌∙◌, refl,
  ◌⊎◌, inl, inr, Bool-cases, Option-cases, All, All-map, All-zip, Member, arith, ltb, leb, leb→le,
  leb→lt, any,
}
use grosh.Domain.{Result, ok}
use grosh.Rates.Table.{CurrencyRate}
use grosh.Rates.Lookup.{open_after, first_by}
use grosh.Rates.Lookup.Selection.First.{first_by_sound, first_by-none, first_by-least}
use grosh.Rates.Ingest.{
  NormalizedRate, is_historical, starts_at, spans, starts_after, new_row, find_row, replace_at,
  split_row, prepend, upsert_historical,
}
use grosh.Rates.Ingest.Updates.{
  bit, count, find_row_sound, find_row-none, count-append, IsUnique-append, count_pos,
  count-eq-zero, count_none, count_le_add, All-append,
}
use grosh.Rates.Ingest.Timeline.{
  started, covers, IsSpan, IsTimeline, covers_le, new_row-started, new_row-covers,
  replace_at-IsTimeline, split_row-IsTimeline,
}

module _ (r : NormalizedRate) (rates : List CurrencyRate) (line : IsTimeline r rates) where
  -- With no row at the instant and none around it, the whole sequence lies after it.
  nothing_started :
      find_row (starts_at r) rates ≡ none
      → find_row (spans r) rates ≡ none
      → All (λ row. started r r.at_time row ≡ false) rates
  nothing_started p q =
      let at = find_row-none (starts_at r) rates p in
      let around = find_row-none (spans r) rates q in
      let bound =
        count_le_add (covers r r.at_time) (starts_at r) (spans r) (λ row. ground arith) rates in
      count-eq-zero (started r r.at_time) rates (zero_of bound at around)
    where
      zero_of :
          count (covers r r.at_time) rates ≤ count (starts_at r) rates + count (spans r) rates
          → count (starts_at r) rates ≡ 0
          → count (spans r) rates ≡ 0
          → count (started r r.at_time) rates ≡ 0
      zero_of b x y = elim (Bool-cases (leb 1 (count (started r r.at_time) rates))) [
        | inl some_row ↦ absurd (omega (arith, line.one r.at_time (leb→le 1 _ some_row)))
        | inr no_row ↦ omega (arith, leb→lt 1 _ no_row)
      ]

  extend-one :
      (i : ℕ) (v : Option ℕ) (t : ℕ)
      → (count (started r t) rates ≡ 0)
        ⊎ (1 ≤ count (started r t) rates) × (leb r.at_time t && open_after v t ≡ false)
      → (count (started r t) rates ≡ 0 → leb r.at_time t ≡ true → open_after v t ≡ true)
      → 1 ≤ count (started r t) (rates ++ new_row i r v none none ∷ [])
      → count (covers r t) (rates ++ new_row i r v none none ∷ []) ≡ 1
  extend-one i v t (inl z) fill k =
      let new = new_row i r v none none in
      let a = count-append (started r t) rates (new ∷ []) in
      let b = count-append (covers r t) rates (new ∷ []) in
      let below = covers_le r t rates in
      elim (Bool-cases (leb r.at_time t)) [
        | inl later ↦
            let new_covers : covers r t new ≡ true =
              rw (new_row-covers r rates line i v t) (rw (later, fill z later)) in
            let unit : bit (covers r t new) ≡ 1 = rw new_covers in omega arith
        | inr earlier ↦
            let none_new : bit (started r t new) ≡ 0 =
              rw (new_row-started r rates line i v t) (rw earlier) in
            absurd (omega arith)
      ]
  extend-one i v t (inr (before, past)) fill k =
      let new = new_row i r v none none in
      let b = count-append (covers r t) rates (new ∷ []) in
      let unit : bit (covers r t new) ≡ 0 = rw (new_row-covers r rates line i v t) (rw past) in
      omega (arith, line.one t before)

  extend-IsTimeline :
      (i : ℕ) (v : Option ℕ)
      → All (λ s. s.id ≢ i) rates
      → open_after v r.at_time ≡ true
      → ((t : ℕ)
          → (count (started r t) rates ≡ 0)
            ⊎ (1 ≤ count (started r t) rates) × (leb r.at_time t && open_after v t ≡ false))
      → ((t : ℕ) → count (started r t) rates ≡ 0 → leb r.at_time t ≡ true → open_after v t ≡ true)
      → IsTimeline r (rates ++ new_row i r v none none ∷ [])
  extend-IsTimeline i v free fit apart fill = record {
    unique = IsUnique-append rates _ line.unique (unfold new_row in free);
    nonempty = All-append (IsSpan r) rates _ line.nonempty (λ _. unfold new_row in fit);
    one = λ t k. extend-one i v t (apart t) (fill t) k;
  }

  -- Case 3: the new row ends where the earliest row starts.
  prepend_before :
      (i : ℕ) (next : CurrencyRate)
      → All (λ s. s.id ≢ i) rates
      → All (λ row. started r r.at_time row ≡ false) rates
      → Member next rates
      → starts_after r next ≡ true
      → All (λ row. starts_after r row ≡ true → next.valid_from ≤ row.valid_from) rates
      → IsTimeline r (rates ++ new_row i r (some next.valid_from) none none ∷ [])
  prepend_before i next free later m after least =
      extend-IsTimeline i (some next.valid_from) free (ground arith) apart fill
    where
      before_next : (t : ℕ) → t < next.valid_from → All (λ row. started r t row ≡ false) rates
      before_next t h = All-zip (λ row a b. ground (arith, a, b)) rates later least

      apart :
          (t : ℕ)
          → (count (started r t) rates ≡ 0)
            ⊎ (1 ≤ count (started r t) rates)
              × (leb r.at_time t && open_after (some next.valid_from) t ≡ false)
      apart t = elim (Bool-cases (ltb t next.valid_from)) [
        | inl h ↦ inl (count_none (started r t) rates (before_next t (ground arith)))
        | inr h ↦ inr (count_pos (started r t) next rates m (ground arith), ground arith)
      ]

      fill :
          (t : ℕ)
          → count (started r t) rates ≡ 0
          → leb r.at_time t ≡ true
          → open_after (some next.valid_from) t ≡ true
      fill t z h = elim (Bool-cases (ltb t next.valid_from)) [
        | inl e ↦ e
        | inr e ↦
            let some_row : 1 ≤ count (started r t) rates =
              count_pos (started r t) next rates m (ground arith) in
            absurd (omega arith)
      ]

  -- The first row of a history.
  prepend_first :
      (i : ℕ)
      → All (λ s. s.id ≢ i) rates
      → All (λ row. is_historical r row ≡ false) rates
      → IsTimeline r (rates ++ new_row i r none none none ∷ [])
  prepend_first i free empty =
      extend-IsTimeline i none free refl
        (λ t.
          inl (count_none (started r t) rates (All-map (λ row e. ground (arith, e)) rates empty)))
        (λ t z h. refl)

  any-false :
      (rows : List CurrencyRate)
      → All (λ row. is_historical r row ≡ false) rows
      → any (is_historical r) rows ≡ false
  any-false [] h = refl
  any-false (row ∷ rows) h = rw h.0 (any-false rows h.1)

  abbrev Succeeds : Result (List CurrencyRate) → Type 0
  Succeeds result = (rates' : List CurrencyRate) × (result ≡ ok rates') × IsTimeline r rates'

  prepend-IsTimeline :
      (i : ℕ)
      → All (λ s. s.id ≢ i) rates
      → All (λ row. started r r.at_time row ≡ false) rates
      → Succeeds (prepend rates i r)
  unfolding prepend
  prepend-IsTimeline i free later =
      let before = λ (a b : CurrencyRate). ltb a.valid_from b.valid_from in
      elim (Option-cases (first_by (starts_after r) before rates)) [
        | inr (next, e) ↦
            let (after, m) = first_by_sound (starts_after r) before rates e in
            let least =
              first_by-least (starts_after r) before (λ row. row.valid_from) (λ a b h. ground arith)
                (λ a b h. ground arith) rates e in
            (
              rates ++ new_row i r (some next.valid_from) none none ∷ [],
              ground (arith, e),
              prepend_before i next free later m after least,
            )
        | inl e ↦
            let empty : All (λ row. is_historical r row ≡ false) rates =
              All-zip (λ row a b. ground (arith, a, b)) rates later
                (first_by-none (starts_after r) before rates e) in
            (
              rates ++ new_row i r none none none ∷ [],
              ground (arith, e, any-false rates empty),
              prepend_first i free empty,
            )
      ]

  -- The three cases of the upsert, by what its queries return.
  same_instant_lem :
      (i : ℕ) (c : CurrencyRate)
      → find_row (starts_at r) rates ≡ some c
      → upsert_historical rates i r ≡ ok (replace_at rates r c)
  unfolding upsert_historical
  same_instant_lem i c e = rw (upsert_historical, e)

  covered_lem :
      (i : ℕ) (c : CurrencyRate)
      → find_row (starts_at r) rates ≡ none
      → find_row (spans r) rates ≡ some c
      → upsert_historical rates i r ≡ ok (split_row rates i r c)
  unfolding upsert_historical
  covered_lem i c e f = rw (upsert_historical, e, f)

  uncovered_lem :
      (i : ℕ)
      → find_row (starts_at r) rates ≡ none
      → find_row (spans r) rates ≡ none
      → upsert_historical rates i r ≡ prepend rates i r
  unfolding upsert_historical
  uncovered_lem i e f = rw (upsert_historical, e, f)

  -- Where ids are distinct, no interval of the pair's historical rows is empty, and from their first
  -- start on each instant is covered by exactly one of them, an upsert with a new id succeeds (its
  -- RuntimeError is not raised) and leaves rows of which the same holds.
  pub upsert_historical-IsTimeline :
      (i : ℕ)
      → All (λ s. s.id ≢ i) rates
      → (rates' : List CurrencyRate) × (upsert_historical rates i r ≡ ok rates')
        × IsTimeline r rates'
  upsert_historical-IsTimeline i free = elim (Option-cases (find_row (starts_at r) rates)) [
    | inr (c, e) ↦ (
      replace_at rates r c,
      same_instant_lem i c e,
      replace_at-IsTimeline r rates line c (find_row_sound (starts_at r) rates e).1,
    )
    | inl e ↦ elim (Option-cases (find_row (spans r) rates)) [
      | inr (c, f) ↦
          let (h, m) = find_row_sound (spans r) rates f in
          (
            split_row rates i r c,
            covered_lem i c e f,
            split_row-IsTimeline r rates line c i h m free,
          )
      | inl f ↦
          let (rates', done, kept) = prepend-IsTimeline i free (nothing_started e f) in
          (rates', uncovered_lem i e f ∙ done, kept)
    ]
  ]
