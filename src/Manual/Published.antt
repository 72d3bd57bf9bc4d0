-- ===== src/Manual/Published.antt =====
-- What a manual entry becomes in the pipeline.
use grosh.Prelude.{
  ℕ, String, Bool, true, false, not, ◌&&◌, Option, none, some, List, [], ◌∷◌, ◌++◌, ◌≡◌, ◌∙◌, refl,
  sym, ap, arith, Member, inl, inr, subst, if◌then◌else◌, ◌==◌, str_eq, str_eq_iff, Bool-cases,
}
use grosh.Domain.{NormalizedTransaction, ok}
use grosh.Backfill.{Envelope}
use grosh.Normalization.{
  ManualTransactionPayload, Outside, generate_transaction_id, normalize_manual, manual_event_of,
}
use grosh.Manual.{
  AccountRow, Store, Request, ManualTransactionResult, returned, raised, account_not_manual,
  invalid_rate_source, buffer_error, get_by_id, resolved_rate_source, is_valid_rate_source,
  source_id_of, payload_of, envelope_of, result_of, create_for, create_transaction,
}

get_by_id-Member :
    (accounts : List AccountRow) (account_id user_id : ℕ) {account : AccountRow}
    → get_by_id accounts account_id user_id ≡ some account
    → Member account accounts × (account.id ≡ account_id) × (account.user_id ≡ user_id)
unfolding get_by_id
get_by_id-Member [] account_id user_id h = absurd (no_account h)
  where
    no_account : {account : AccountRow} → none ≡ some account → ⊥
    no_account h = cc
get_by_id-Member (a ∷ accounts) account_id user_id {account} h =
    elim (Bool-cases (a.id == account_id && a.user_id == user_id)) [
      | inl e ↦ first e (ground (arith, e, h))
      | inr e ↦
          let (m, i, u) = get_by_id-Member accounts account_id user_id (ground (arith, e, h)) in
          (inr m, i, u)
    ]
  where
    first :
        (a.id == account_id && a.user_id == user_id) ≡ true
        → a ≡ account
        → Member account (a ∷ accounts) × (account.id ≡ account_id) × (account.user_id ≡ user_id)
    first e same = (
      inl same,
      ap (λ x. x.id) (sym same) ∙ ground (arith, e),
      ap (λ x. x.user_id) (sym same) ∙ ground (arith, e),
    )

-- Two tests and a full queue, before an answer.
guarded :
    (s v takes : Bool) (r x : ManualTransactionResult × Store)
    → (if not s
        then raised account_not_manual
        else (if not v
            then raised invalid_rate_source
            else (if takes then returned r else raised buffer_error)))
      ≡ returned x
    → (s ≡ true) × (v ≡ true) × (r ≡ x)
guarded true true true r x h = (refl, refl, cc)
guarded true true false r x h = absurd cc
guarded true false takes r x h = absurd cc
guarded false v takes r x h = absurd cc

-- The entry of a request to an account: it is published, and normalized to what was asked for.
abbrev pub IsEntry :
    (String → ℕ)
    → String
    → Outside ManualTransactionPayload
    → Store
    → Request
    → AccountRow
    → ManualTransactionResult
    → Store
    → Type 0
IsEntry uuid5 uuid4 outside db request account result db' =
    (envelope : Envelope ManualTransactionPayload) × (tx : NormalizedTransaction) × (db'
      ≡ record db { published = db.published ++ envelope ∷ [] })
    × (normalize_manual outside envelope ≡ ok tx)
    × (result.source_id ≡ source_id_of uuid4 request.idempotency_key)
    × (result.id ≡ generate_transaction_id uuid5 "manual" result.source_id)
    × (tx.id ≡ result.id)
    × (tx.source_id ≡ result.source_id)
    × (tx.rate_source ≡ result.rate_source)
    × (is_valid_rate_source db tx.rate_source ≡ true)
    × (tx.user_id ≡ account.user_id)
    × (tx.account_id ≡ account.id)
    × (tx.time ≡ request.time)
    × (tx.amount_cents ≡ request.amount_cents)
    × (tx.direction ≡ request.direction)

module _ (uuid5 : String → ℕ) (uuid4 : String) (takes : Bool)
    (outside : Outside ManualTransactionPayload)
    (reads : (payload : ManualTransactionPayload)
      → outside.read_manual payload ≡ some payload) where
  -- What an accepted request answers and leaves.
  accepted : Store → Request → ManualTransactionResult × Store
  accepted db request =
      let rate_source = resolved_rate_source db request in
      let source_id = source_id_of uuid4 request.idempotency_key in
      let id = generate_transaction_id uuid5 "manual" source_id in
      let envelope = envelope_of request (payload_of id source_id request rate_source) in
      (
        result_of id source_id request rate_source,
        record db { published = db.published ++ envelope ∷ [] },
      )

  normalized :
      (envelope : Envelope ManualTransactionPayload)
      → normalize_manual outside envelope ≡ ok (manual_event_of envelope envelope.payload)
  unfolding normalize_manual
  normalized envelope = rw (reads envelope.payload) refl

  accepted-IsEntry :
      (db : Store) (request : Request) (account : AccountRow)
      → account.id ≡ request.account_id
      → account.user_id ≡ request.user_id
      → is_valid_rate_source db (resolved_rate_source db request) ≡ true
      → IsEntry uuid5 uuid4 outside db request account
          (accepted db request).0
          (accepted db request).1
  unfolding accepted manual_event_of
  accepted-IsEntry db request account a u v =
      (_, _, refl, normalized _, refl, refl, refl, refl, refl, v, sym u, sym a, refl, refl, refl)

  create_for-cases :
      (db : Store) (request : Request) (account : AccountRow) {result : ManualTransactionResult}
      {db' : Store}
      → create_for uuid5 uuid4 takes db request (some account) ≡ returned (result, db')
      → (str_eq account.source "manual" ≡ true)
        × (is_valid_rate_source db (resolved_rate_source db request) ≡ true)
        × (accepted db request ≡ (result, db'))
  unfolding accepted
  create_for-cases db request account {result} {db'} h =
      guarded (str_eq account.source "manual")
        (is_valid_rate_source db (resolved_rate_source db request)) takes (accepted db request)
        (result, db') h

  -- A manual entry that is accepted belongs to a manual account of the user. It is published after
  -- what was published before, and nothing else changes; where payloads are read back as they were
  -- written, it is normalized to an event with the id, the source id and the rate source of the
  -- answer, of which the rate source is configured, and with the user, account, time, amount and
  -- direction of the request. The id depends on the idempotency key only, where there is one.
  pub create_transaction-IsEntry :
      (db : Store) (request : Request) {result : ManualTransactionResult} {db' : Store}
      → create_transaction uuid5 uuid4 takes db request ≡ returned (result, db')
      → (account : AccountRow) × Member account db.accounts
        × (account.source ≡ "manual")
        × IsEntry uuid5 uuid4 outside db request account result db'
  unfolding create_transaction
  create_transaction-IsEntry db request {result} {db'} h =
      found (get_by_id db.accounts request.account_id request.user_id) refl h
    where
      found :
          (o : Option AccountRow)
          → get_by_id db.accounts request.account_id request.user_id ≡ o
          → create_for uuid5 uuid4 takes db request o ≡ returned (result, db')
          → (account : AccountRow) × Member account db.accounts
            × (account.source ≡ "manual")
            × IsEntry uuid5 uuid4 outside db request account result db'
      found none e h = absurd cc
      found (some account) e h =
          let (m, a, u) = get_by_id-Member db.accounts request.account_id request.user_id e in
          let (s, v, same) = create_for-cases db request account h in
          (
            account,
            m,
            (str_eq_iff account.source "manual").0 s,
            subst (λ x. IsEntry uuid5 uuid4 outside db request account x.0 x.1) same
                (accepted-IsEntry db request account a u v),
          )
