-- ===== src/Enrichment/Consumer/Settled.antt =====
-- What the loop leaves of the messages that it has committed.
use grosh.Prelude.{
  ℕ, Bool, true, Option, none, some, ◌≡◌, ◌∙◌, ◌⊎◌, inl, inr, refl, sym, ap, Option-cases,
  Bool-cases, arith, Member, ◌++◌,
}
use grosh.Domain.{
  NormalizedTransaction, Result, ok, raise, Error, account_not_found, key_error, rate_source_chain,
  value_error, division_by_zero, invalid_operation, runtime_error, reprocess_error,
  unique_violation,
}
use grosh.Database.{Database}
use grosh.Rates.Display.{Printer}
use grosh.Transfer.Queries.{transaction_exists}
use grosh.Enrichment.{transfer_strategies, run}
use grosh.Enrichment.Redelivery.{run-redelivered}
use grosh.Enrichment.Consumer.{
  Handled, committed, settle, is_permanent, handle_message, System, Reach,
}

permanent_error : (e : Error) → is_permanent e ≡ true → e ≡ account_not_found
permanent_error account_not_found h = refl
permanent_error key_error h = cc
permanent_error rate_source_chain h = cc
permanent_error value_error h = cc
permanent_error division_by_zero h = cc
permanent_error invalid_operation h = cc
permanent_error runtime_error h = cc
permanent_error reprocess_error h = cc
permanent_error unique_violation h = cc

module _ {M : Type 0} (print : Printer) (decode : M → Option NormalizedTransaction) where
  -- Some run of the event found no account: in a database that the system `s₀` came to, before `s`.
  abbrev pub WasWithoutAccount : System M → System M → NormalizedTransaction → Type 0
  WasWithoutAccount s₀ s tx =
      (locked : ℕ → Bool) × (t : System M) × Reach print decode s₀ t
      × Reach print decode t s
      × (run print (transfer_strategies locked) t.db tx ≡ raise account_not_found)

  -- The message cannot be read, or its event is stored, or had no account.
  abbrev pub IsSettled : System M → System M → M → Type 0
  IsSettled s₀ s m =
      (decode m ≡ none)
      ⊎ (tx : NormalizedTransaction) × (decode m ≡ some tx)
        × ((transaction_exists s.db.transactions tx.id ≡ true) ⊎ WasWithoutAccount s₀ s tx)

  settle-cases :
      (db : Database) (r : Result Database) {db' : Database}
      → settle db r ≡ committed db'
      → (r ≡ ok db') ⊎ (r ≡ raise account_not_found)
  settle-cases db (ok d) h = inl cc
  settle-cases db (raise e) h = elim (Bool-cases (is_permanent e)) [
    | inl p ↦ inr (ap raise (permanent_error e p))
    | inr p ↦ absurd (ground (arith, p, h))
  ]

  -- What a handled message was.
  pub handle_message-settled :
      (locked : ℕ → Bool) (db : Database) (m : M) {db' : Database}
      → handle_message print decode locked db m ≡ committed db'
      → (decode m ≡ none)
        ⊎ (tx : NormalizedTransaction) × (decode m ≡ some tx)
          × ((transaction_exists db'.transactions tx.id ≡ true)
              ⊎ (run print (transfer_strategies locked) db tx ≡ raise account_not_found))
  unfolding handle_message
  handle_message-settled locked db m {db'} h = elim (Option-cases (decode m)) [
    | inl e ↦ inl e
    | inr (tx, e) ↦ inr (
      tx,
      e,
      elim (settle-cases db (run print (transfer_strategies locked) db tx) (found tx e h)) [
        | inl ran ↦ inl (run-redelivered print locked locked db tx ran).0
        | inr failed ↦ inr failed
      ],
    )
  ]
    where
      handled : Option NormalizedTransaction → Handled
      handled none = committed db
      handled (some tx) = settle db (run print (transfer_strategies locked) db tx)

      found :
          (tx : NormalizedTransaction)
          → decode m ≡ some tx
          → handled (decode m) ≡ committed db'
          → settle db (run print (transfer_strategies locked) db tx) ≡ committed db'
      found tx e h = ap handled (sym e) ∙ h

  -- Every message that was handled, its offset committed or not, is settled.
  abbrev pub AreSettled : System M → System M → Type 0
  AreSettled s₀ s = (m : M) → Member m (s.done ++ s.handled) → IsSettled s₀ s m
