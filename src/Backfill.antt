-- ===== src/Backfill.antt =====
-- The walk back through a Monobank account
-- (`run_backfill` of services/ingestion/src/grosh_ingestion/sources/monobank/backfill.py, from the
-- first request on). What the bank answers is a parameter; the queue of the producer is never full, so
-- a BufferError of `produce`, which ends the loop, is left out. Timestamps are seconds since the epoch,
-- and `from_timestamp` is not negative, so a difference that stops at 0 decides every test as the
-- code's does.
pub mod Windows
mod Examples
use grosh.Prelude.{
  ℕ, zero, suc, ◌-◌, String, Bool, true, false, ◌&&◌, ◌||◌, Option, none, some, List, [], ◌∷◌, ◌++◌,
  map, if◌then◌else◌, ◌==◌, ltb, contains_text,
}

-- `_CHUNK_SECONDS`
abbrev pub chunk_seconds : ℕ
chunk_seconds = 2_678_400

-- The statements of a period, or a MonobankAPIError.
pub data Reply {ℓ} (A : Type ℓ) : Type ℓ where
  statements : List A → Reply A
  api_error : (status_code : ℕ) (message : String) → Reply A

-- `TransactionEnvelope`, around a statement item
pub record Envelope {ℓ} (A : Type ℓ) : Type ℓ where
  pub user_id : ℕ
  pub account_id : ℕ
  pub source : String
  pub payload : A

-- How the loop ends: the period is done, the bank has no older data, or the error is raised.
pub data Ending : Type 0 where
  completed out_of_bounds : Ending
  raised : (status_code : ℕ) → Ending

-- The periods that were fetched, the newest first, what was published, whether the integration was
-- marked with status 'error', and the ending.
pub record Progress {ℓ} (A : Type ℓ) : Type ℓ where
  pub periods : List (ℕ × ℕ)
  pub published : List (Envelope A)
  pub marks_error : Bool
  pub ending : Ending

-- `max(from_timestamp, current_to - _CHUNK_SECONDS)`
unfoldable pub chunk_start : ℕ → ℕ → ℕ
chunk_start from_timestamp current_to =
    if ltb from_timestamp (current_to - chunk_seconds)
    then current_to - chunk_seconds
    else from_timestamp

module _ {ℓ} {A : Type ℓ} where
  abbrev pub nothing_more : Bool → Ending → Progress A
  nothing_more marks_error ending = record {
    periods = [];
    published = [];
    marks_error = marks_error;
    ending = ending;
  }

  -- The handler of a MonobankAPIError.
  unfoldable pub on_api_error : ℕ → String → Progress A
  on_api_error status_code message =
      if status_code == 400 && contains_text message "out of bounds"
      then nothing_more false out_of_bounds
      else nothing_more (status_code == 401 || status_code == 403) (raised status_code)

  envelope : ℕ → ℕ → A → Envelope A
  envelope user_id account_id item = record {
    user_id = user_id;
    account_id = account_id;
    source = "monobank";
    payload = item;
  }

  unfoldable pub publish : ℕ → ℕ → ℕ × ℕ → List A → Progress A → Progress A
  unfolding envelope
  publish user_id account_id period items rest = record rest {
    periods = period ∷ rest.periods;
    published = map (envelope user_id account_id) items ++ rest.published;
  }

  abbrev pub option_map : (Progress A → Progress A) → Option (Progress A) → Option (Progress A)
  option_map f none = none
  option_map f (some p) = some (f p)

  module _ (get_statements : ℕ → ℕ → Reply A) (user_id account_id from_timestamp : ℕ) where
    -- The loop, on fuel; none is a loop that is not over yet.
    unfoldable pub fetch_back : ℕ → ℕ → Option (Progress A)
    unfolding chunk_start publish on_api_error
    fetch_back zero current_to = none
    fetch_back (suc fuel) current_to =
        let current_from = chunk_start from_timestamp current_to in
        let rest = fetch_back fuel (current_from - 1) in
        if ltb from_timestamp current_to
        then elim (get_statements current_from current_to) [
          | statements items ↦
              option_map (publish user_id account_id (current_from, current_to) items) rest
          | api_error status_code message ↦ some (on_api_error status_code message)
        ]
        else some (nothing_more false completed)
