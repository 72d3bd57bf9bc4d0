-- ===== src/Enrichment/Consumer/Rest.antt =====
-- Where the loop stops.
use grosh.Prelude.{ℕ, Bool, Option, some, List, [], ◌∷◌, ◌≡◌, ◌⊎◌, ◌++◌, ◌≢◌}
use grosh.Domain.{NormalizedTransaction, raise, Error, account_not_found}
use grosh.Database.{Database}
use grosh.Rates.Display.{Printer}
use grosh.Enrichment.{transfer_strategies, run}
use grosh.Enrichment.Consumer.{System}

module _ {M : Type 0} (print : Printer) (decode : M → Option NormalizedTransaction) where
  -- A message that ends the process: its event is read, and a run of it raises another error than a
  -- missing account.
  abbrev pub IsBlocking : (ℕ → Bool) → Database → M → Type 0
  IsBlocking locked db m =
      (tx : NormalizedTransaction) × (e : Error) × (decode m ≡ some tx)
      × (run print (transfer_strategies locked) db tx ≡ raise e)
      × (e ≢ account_not_found)

  -- Nothing is left, or the next message ends the process; the messages are those of before, in their
  -- order.
  abbrev pub IsAtRest : (ℕ → Bool) → List M → System M → Type 0
  IsAtRest locked messages s =
      (s.handled ≡ [])
      × (s.done ++ s.pending ≡ messages)
      × ((s.pending ≡ [])
          ⊎ (m : M) × (rest : List M) × (s.pending ≡ m ∷ rest) × IsBlocking locked s.db m)
