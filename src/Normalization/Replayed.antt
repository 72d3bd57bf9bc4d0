-- ===== src/Normalization/Replayed.antt =====
-- A normalized event that was stored, and read back for the replay.
use grosh.Prelude.{
  ℕ, String, true, Option, none, some, List, ◌≡◌, ◌∙◌, ◌⊎◌, inl, inr, refl, ap, subst, is_some,
}
use grosh.Domain.{
  NormalizedTransaction, SpecialCategory, Json, Fields, end, field, object, get, Result, ok,
  value_error, ◌>>=◌, >>=-eq-ok, ok-injective, or_raise,
}
use grosh.Backfill.{Envelope}
use grosh.Rates.Display.{ConversionResult}
use grosh.Enrichment.{build_metadata, inserted_row}
use grosh.Replay.{to_normalized, read_row, source_of}
use grosh.Replay.Source.{to_normalized-inserted_row}
use grosh.Normalization.{
  MonobankStatementItem, ManualTransactionPayload, Outside, numeric_to_alpha, from_timestamp,
  event_of, source_fields, source_metadata, normalize_item, manual_event_of, normalize_monobank,
  normalize_manual,
}

-- The metadata has nothing, or nothing but a source part.
abbrev IsPlain : Option Fields → Type 0
IsPlain metadata = (metadata ≡ none) ⊎ (part : Json) × (metadata ≡ some (field "source" part end))

plain_source :
    (metadata : Option Fields)
    → IsPlain metadata
    → is_some metadata ≡ true
    → some (field "source" (source_of metadata) end) ≡ metadata
unfolding source_of get
plain_source metadata (inl e) h = absurd (cc (e, h))
plain_source metadata (inr (part, e)) h = rw e refl

module _ {A : Type 0} (outside : Outside A) (envelope : Envelope A) where
  normalize_item-IsPlain :
      (item : MonobankStatementItem) {tx : NormalizedTransaction}
      → normalize_item outside envelope item ≡ ok tx
      → IsPlain tx.metadata
  unfolding normalize_item event_of
  normalize_item-IsPlain item h =
      let (time, _, h') = >>=-eq-ok (from_timestamp item.time) with_time h in
      let (currency, _, e) =
        >>=-eq-ok (numeric_to_alpha outside.find_currency item.currency_code) (finish time) h' in
      subst (λ tx. IsPlain tx.metadata) (ok-injective e) (plain (source_fields item))
    where
      finish : ℕ → String → Result NormalizedTransaction
      finish time currency = ok (event_of outside envelope item time currency)

      with_time : ℕ → Result NormalizedTransaction
      with_time time = numeric_to_alpha outside.find_currency item.currency_code >>= finish time

      plain : (fields : Fields) → IsPlain (source_metadata fields)
      plain end = inl refl
      plain (field k v fields) = inr (object (field k v fields), refl)

  normalize-IsPlain :
      {tx : NormalizedTransaction}
      → (normalize_monobank outside envelope ≡ ok tx) ⊎ (normalize_manual outside envelope ≡ ok tx)
      → IsPlain tx.metadata
  unfolding normalize_monobank normalize_manual manual_event_of
  normalize-IsPlain (inl h) =
      let (item, _, h') =
        >>=-eq-ok (or_raise (outside.read_item envelope.payload) value_error)
          (normalize_item outside envelope) h in
      normalize_item-IsPlain item h'
  normalize-IsPlain (inr h) =
      let (payload, _, e) =
        >>=-eq-ok (or_raise (outside.read_manual envelope.payload) value_error) manual h in
      subst (λ tx. IsPlain tx.metadata) (ok-injective e) (inr (object end, refl))
    where
      manual : ManualTransactionPayload → Result NormalizedTransaction
      manual payload = ok (manual_event_of envelope payload)

  -- An event that either normalizer made and that has metadata: enriched, whatever the layers found,
  -- stored with the metadata that the orchestrator builds, and read back for a reprocessing, it is
  -- the same event in every field.
  pub normalize-replayed :
      (tx : NormalizedTransaction)
      → (normalize_monobank outside envelope ≡ ok tx) ⊎ (normalize_manual outside envelope ≡ ok tx)
      → is_some tx.metadata ≡ true
      → (account_currency : String) (special_category : Option SpecialCategory)
        (conversion : ConversionResult) (contributions : List (String × Fields))
        (related : Option ℕ) {metadata : Option Fields}
      → build_metadata tx.metadata contributions ≡ ok metadata
      → to_normalized
          (read_row (inserted_row tx account_currency special_category conversion metadata related))
        ≡ tx
  normalize-replayed tx h s currency category conversion contributions related built =
      to_normalized-inserted_row tx currency category conversion contributions related built
      ∙ ap (λ m. record tx { metadata = m }) (plain_source tx.metadata (normalize-IsPlain h) s)
