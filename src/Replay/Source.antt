-- ===== src/Replay/Source.antt =====
-- What of an event survives its enrichment and its replay.
use grosh.Prelude.{
  ℕ, String, false, Option, none, some, List, [], ◌∷◌, ◌≡◌, refl, sym, inl, inr, Bool-cases, arith,
  str_eq, str_eq_iff, subst,
}
use grosh.Domain.{
  NormalizedTransaction, SpecialCategory, Json, Fields, object, end, field, get, put, Result, ok,
  >>=-eq-ok, ok-injective,
}
use grosh.Rates.Display.{ConversionResult}
use grosh.Enrichment.{build_metadata, merge_layers, inserted_row, stored_metadata}
use grosh.Replay.{read_row, source_of, to_normalized}

pub get-put :
    (k j : String) (v : Json) (fields : Fields)
    → str_eq j k ≡ false
    → get k (put j v fields) ≡ get k fields
unfolding get put
get-put k j v end h = rw h refl
get-put k j v (field i w fields) h = elim (Bool-cases (str_eq i j)) [
  | inl e ↦
      let same : i ≡ j = (str_eq_iff i j).0 e in
      let other : str_eq i k ≡ false = subst (λ t. str_eq t k ≡ false) (sym same) h in
      rw (e, get, other)
  | inr e ↦ ground (arith, e, get-put k j v fields h)
]

stored-put :
    (k : String) (v : Json) (fields : Fields)
    → stored_metadata (some (put k v fields)) ≡ some (put k v fields)
unfolding put
stored-put k v end = refl
stored-put k v (field i w fields) = elim (Bool-cases (str_eq i k)) [
  | inl e ↦ rw e refl
  | inr e ↦ rw e refl
]

source_of-stored : (source : Option Fields) → source_of (stored_metadata source) ≡ source_of source
unfolding source_of
source_of-stored none = refl
source_of-stored (some end) = refl
source_of-stored (some (field k v fields)) = refl

same_source :
    (a b : Fields) → get "source" a ≡ get "source" b → source_of (some a) ≡ source_of (some b)
unfolding source_of
same_source a b h = rw (source_of, h)

source_of-layer :
    (source : Option Fields) (layer : Json)
    → source_of (some (put "layer" layer (elim source [ none ↦ end | some fields ↦ fields ])))
      ≡ source_of source
unfolding source_of
source_of-layer none layer =
    same_source (put "layer" layer end) end (get-put "source" "layer" layer end refl)
source_of-layer (some fields) layer =
    same_source (put "layer" layer fields) fields (get-put "source" "layer" layer fields refl)

source_of-build_metadata :
    (source : Option Fields) (contributions : List (String × Fields)) {metadata : Option Fields}
    → build_metadata source contributions ≡ ok metadata
    → source_of (stored_metadata metadata) ≡ source_of source
unfolding build_metadata
source_of-build_metadata source [] h =
    subst (λ m. source_of (stored_metadata m) ≡ source_of source) (ok-injective h)
      (source_of-stored source)
source_of-build_metadata source (c ∷ contributions) h =
    let (layer, merged, e) = >>=-eq-ok (merge_layers end (c ∷ contributions)) finish h in
    subst (λ m. source_of (stored_metadata m) ≡ source_of source) (ok-injective e)
      (rw (stored-put "layer" (object layer) base) (source_of-layer source (object layer)))
  where
    base : Fields
    base = elim source [ none ↦ end | some fields ↦ fields ]

    finish : Fields → Result (Option Fields)
    finish layer = ok (some (put "layer" (object layer) base))

-- An event that is enriched, stored with the metadata that the orchestrator builds and read back is
-- the event that was enriched, whatever the layers found; of its metadata the source part is kept.
pub to_normalized-inserted_row :
    (tx : NormalizedTransaction) (account_currency : String)
    (special_category : Option SpecialCategory) (conversion : ConversionResult)
    (contributions : List (String × Fields)) (related : Option ℕ) {metadata : Option Fields}
    → build_metadata tx.metadata contributions ≡ ok metadata
    → to_normalized
        (read_row (inserted_row tx account_currency special_category conversion metadata related))
      ≡ record tx { metadata = some (field "source" (source_of tx.metadata) end) }
unfolding to_normalized read_row inserted_row
to_normalized-inserted_row tx account_currency special_category conversion contributions related h =
    rw (source_of-build_metadata tx.metadata contributions h) refl
