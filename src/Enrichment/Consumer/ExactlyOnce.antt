-- ===== src/Enrichment/Consumer/ExactlyOnce.antt =====
-- At-least-once delivery, message by message.
use grosh.Prelude.{
  ℕ, Bool, true, false, Option, none, some, List, [], ◌∷◌, ◌≡◌, ◌∙◌, ◌⊎◌, inl, inr, sym, ap, subst,
  Option-cases, Bool-cases, if◌then◌else◌, arith,
}
use grosh.Domain.{NormalizedTransaction, Fields, Result, ok, raise, Error, ok-injective}
use grosh.Accounts.{AccountProps}
use grosh.Transfer.Detector.{TransferResult}
use grosh.Database.{Database}
use grosh.Rates.Display.{Printer, ConversionResult}
use grosh.Transfer.Queries.{transaction_exists}
use grosh.Enrichment.{transfer_strategies, run, inserted_row, persist}
use grosh.Enrichment.Parts.{run-parts, detection-known}
use grosh.Enrichment.Redelivery.{persist_known}
use grosh.Enrichment.Consumer.{
  Handled, committed, crashed, settle, is_permanent, handle_message, System, Step, handles, commits,
  restarts, crashes, arrives, writes, Reach, here, next, Once, start, runs, writes_beside,
}

committed-injective : {a b : Database} → committed a ≡ committed b → a ≡ b
committed-injective h = cc

-- A run of an event that is stored changes nothing, however the accounts and rates have changed.
pub run_again :
    (print : Printer) (locked : ℕ → Bool) (db : Database) (tx : NormalizedTransaction)
    {db' : Database}
    → transaction_exists db.transactions tx.id ≡ true
    → run print (transfer_strategies locked) db tx ≡ ok db'
    → db' ≡ db
unfolding inserted_row
run_again print locked db tx {db'} known h =
    let (account, res, db₁, conversion, metadata, a, d, c, e) =
      run-parts print (transfer_strategies locked) db tx h in
    let same = ok-injective (sym (detection-known locked db tx known) ∙ d) in
    sym (
      unchanged account conversion metadata (
        subst
          (λ (p : TransferResult × Database).
            persist p.1
              (inserted_row tx account.currency_code p.0.special_category conversion metadata
                p.0.related_transaction_id)
              p.0.anomalies
            ≡ ok db')
          (sym same) e))
  where
    unchanged :
        (account : AccountProps) (conversion : ConversionResult) (metadata : Option Fields)
        → persist db (inserted_row tx account.currency_code none conversion metadata none) []
          ≡ ok db'
        → db ≡ db'
    unchanged account conversion metadata h = ok-injective (
        sym (
          persist_known db (inserted_row tx account.currency_code none conversion metadata none)
            known)
        ∙ h)

module _ {M : Type 0} (print : Printer) (decode : M → Option NormalizedTransaction) where
  -- A handled message changed nothing, or its event was run.
  pub handle_message-cases :
      (locked : ℕ → Bool) (db : Database) (m : M) {db' : Database}
      → handle_message print decode locked db m ≡ committed db'
      → (db ≡ db')
        ⊎ (tx : NormalizedTransaction) × (decode m ≡ some tx)
          × (run print (transfer_strategies locked) db tx ≡ ok db')
  unfolding handle_message
  handle_message-cases locked db m {db'} h = elim (Option-cases (decode m)) [
    | inl e ↦ inl (unread e h)
    | inr (tx, e) ↦ elim (settled (run print (transfer_strategies locked) db tx) (found tx e h)) [
      | inl same ↦ inl same
      | inr ran ↦ inr (tx, e, ran)
    ]
  ]
    where
      handled : Option NormalizedTransaction → Handled
      handled none = committed db
      handled (some tx) = settle db (run print (transfer_strategies locked) db tx)

      unread : decode m ≡ none → handled (decode m) ≡ committed db' → db ≡ db'
      unread e h = committed-injective (ap handled (sym e) ∙ h)

      found :
          (tx : NormalizedTransaction)
          → decode m ≡ some tx
          → handled (decode m) ≡ committed db'
          → settle db (run print (transfer_strategies locked) db tx) ≡ committed db'
      found tx e h = ap handled (sym e) ∙ h

      permanent :
          (e : Error)
          → is_permanent e ≡ true
          → (if is_permanent e then committed db else crashed e) ≡ committed db'
          → committed db ≡ committed db'
      permanent e p h = ground (arith, p, h)

      other :
          (e : Error)
          → is_permanent e ≡ false
          → (if is_permanent e then committed db else crashed e) ≡ committed db'
          → ⊥
      other e p h = ground (arith, p, h)

      settled : (r : Result Database) → settle db r ≡ committed db' → (db ≡ db') ⊎ (r ≡ ok db')
      settled (ok d) h = inr (ap ok (committed-injective h))
      settled (raise e) h = elim (Bool-cases (is_permanent e)) [
        | inl p ↦ inl (committed-injective (permanent e p h))
        | inr p ↦ absurd (other e p h)
      ]

  -- The database is reached by runs of events, each of which was not stored.
  abbrev pub IsRefined : Database → Database → Type 0
  IsRefined db₀ db = (events : List NormalizedTransaction) × Once print decode db₀ events db

  -- A message that is handled, the first time or again.
  handled-IsRefined :
      (db₀ db : Database) (locked : ℕ → Bool) (m : M) {db' : Database}
      → IsRefined db₀ db
      → handle_message print decode locked db m ≡ committed db'
      → IsRefined db₀ db'
  handled-IsRefined db₀ db locked m (events, once) h = elim (handle_message-cases locked db m h) [
    | inl same ↦ subst (IsRefined db₀) same (events, once)
    | inr (tx, d, ran) ↦ elim (Bool-cases (transaction_exists db.transactions tx.id)) [
      | inl known ↦
          subst (IsRefined db₀) (sym (run_again print locked db tx known ran)) (events, once)
      | inr new ↦ (tx ∷ events, runs locked m tx once d new ran)
    ]
  ]

  Step-IsRefined :
      (db₀ : Database) {s s' : System M}
      → Step print decode s s'
      → IsRefined db₀ s.db
      → IsRefined db₀ s'.db
  Step-IsRefined db₀ {s} (handles locked m rest db p h e) k =
      rw e (handled-IsRefined db₀ s.db locked m k h)
  Step-IsRefined db₀ (commits covered rest p e) k = rw e k
  Step-IsRefined db₀ (restarts e) k = rw e k
  Step-IsRefined db₀ (crashes locked m rest x p h e) k = rw e k
  Step-IsRefined db₀ (arrives m e) k = rw e k
  Step-IsRefined db₀ (writes db same e) (events, once) = rw e (events, writes_beside once same)

  -- However often a message is delivered, its event is stored at most once: from any database and any
  -- messages, however often the process ends with any number of handled messages whose commits were lost, or has
  -- other services write to accounts and rates meanwhile, the database is one that is reached by
  -- successful runs of messages' events one after the other, each of an event that was not stored
  -- before it, and by those writes. So no event takes effect twice.
  pub Reach-IsRefined :
      (db₀ : Database) (pending : List M) {s : System M}
      → Reach print decode (record { db = db₀; pending = pending; handled = []; done = [] }) s
      → IsRefined db₀ s.db
  Reach-IsRefined db₀ pending here = ([], start)
  Reach-IsRefined db₀ pending (next r st) = Step-IsRefined db₀ st (Reach-IsRefined db₀ pending r)
