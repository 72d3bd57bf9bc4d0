-- ===== src/Staging/Examples.antt =====
-- Two users with staged events, one of them still locked; and a drain that is cut off.
use grosh.Prelude.{
  ℕ, true, false, Option, none, some, List, [], ◌∷◌, ◌≡◌, ◌∙◌, refl, sym, ap, inl, inr, arith, any,
  Member-any, ◌==◌,
}
use grosh.Domain.{TransactionDirection, NormalizedTransaction, pos, runtime_error, ok}
use grosh.Kafka.{Broker, taken, buffer_full, refused, produce}
use grosh.Staging.{
  StagedRow, Store, select_staged_for_user, sort_rows, place, insert_staged, route, lock_exists,
  get_staging_age_and_count, oldest, delete_staged, select_unlocked_user_ids_with_staged_rows,
  distinct_users,
}
use grosh.Staging.Drain.{
  finished, raised, drain_for_user, drain_rows, sweep_once, drain_users, log_staging_age, warning,
}
use grosh.Staging.Drain.Order.{IsDrained}
use grosh.Staging.Drain.Rows.{IsOrdered}
use grosh.Staging.Drain.Users.{HasKey, drain_for_user-IsDrained}
use grosh.Staging.Interleaving.{
  publishing, deleting, System, IsFresh, Reach, here, next, routes, begins, publishes, stops, locks,
}
use grosh.Staging.Interleaving.Kept.{IsHeld}
use grosh.Staging.Interleaving.Reached.{Reach-IsHeld}
use grosh.Staging.Interleaving.Alone.{idle, drain_for_user-Reach}

abbrev event : ℕ → ℕ → NormalizedTransaction
event id user_id = record {
  id = id;
  source = "monobank";
  source_id = "x";
  user_id = user_id;
  account_id = 1;
  time = 0;
  amount_cents = 100;
  operation_amount_cents = none;
  operation_currency_code = "UAH";
  description = none;
  mcc = none;
  cashback_amount_cents = pos 0;
  balance_cents = none;
  hold = some false;
  direction = TransactionDirection.expense;
  counterparty_iban = none;
  rate_source = none;
  metadata = none;
}

-- A payload is the event itself.
abbrev dump : NormalizedTransaction → NormalizedTransaction
dump tx = tx

abbrev validate : NormalizedTransaction → Option NormalizedTransaction
validate tx = some tx

-- A broker whose queue is full at first.
abbrev busy : Broker
busy published tx = (buffer_full, taken)

abbrev down : Broker
down published tx = (refused, refused)

abbrev row : ℕ → ℕ → ℕ → StagedRow NormalizedTransaction
row id user_id created_at = record {
  id = id;
  user_id = user_id;
  payload = event id user_id;
  created_at = created_at;
}

abbrev tables : Store NormalizedTransaction
tables = record {
  staged = row 1 8 900_000_000 ∷ row 2 7 10_000_000 ∷ row 3 8 20_000_000 ∷ [];
  locks = 7 ∷ [];
  published = [];
}

-- The older event of user 8 goes first.
sweeps : (sweep_once validate busy tables 1_000_000_000).1.published ≡ event 3 8 ∷ event 1 8 ∷ []
unfolding sweep_once drain_users drain_for_user drain_rows select_staged_for_user sort_rows place
    produce delete_staged select_unlocked_user_ids_with_staged_rows distinct_users lock_exists
sweeps = refl

warns : (sweep_once validate busy tables 1_000_000_000).0 ≡ warning
unfolding sweep_once log_staging_age get_staging_age_and_count oldest
warns = refl

keeps : drain_for_user validate down tables 8 ≡ (raised runtime_error, tables)
unfolding drain_for_user drain_rows select_staged_for_user sort_rows place produce
keeps = refl

cons-HasKey :
    (x : StagedRow NormalizedTransaction) (rows : List (StagedRow NormalizedTransaction))
    → any (λ r. r.id == x.id) rows ≡ false
    → HasKey rows
    → HasKey (x ∷ rows)
cons-HasKey x rows new key a b (inl e) (inl f) h = sym e ∙ f
cons-HasKey x rows new key a b (inr m) (inr n) h = key a b m n h
cons-HasKey x rows new key a b (inl e) (inr n) h =
    let found = Member-any b (λ r. r.id == x.id) rows n (ground (arith, ap (λ r. r.id) e, h)) in
    absurd (ground (arith, found, new))
cons-HasKey x rows new key a b (inr m) (inl f) h =
    let found = Member-any a (λ r. r.id == x.id) rows m (ground (arith, ap (λ r. r.id) f, h)) in
    absurd (ground (arith, found, new))

tables-HasKey : HasKey tables.staged
tables-HasKey =
    cons-HasKey (row 1 8 900_000_000) (row 2 7 10_000_000 ∷ row 3 8 20_000_000 ∷ []) refl (
      cons-HasKey (row 2 7 10_000_000) (row 3 8 20_000_000 ∷ []) refl
        (cons-HasKey (row 3 8 20_000_000) [] refl (λ a b m. elim m [ ])))

drain_for_user-IsDrained_example :
    IsDrained validate tables
      (select_staged_for_user tables 8)
      (drain_for_user validate busy tables 8).0
      (drain_for_user validate busy tables 8).1
    × IsOrdered (select_staged_for_user tables 8)
    × ((drain_for_user validate busy tables 8).0 ≡ finished
        → select_staged_for_user (drain_for_user validate busy tables 8).1 8 ≡ [])
drain_for_user-IsDrained_example = drain_for_user-IsDrained validate busy tables 8

is_locked : lock_exists tables 7 ≡ true
unfolding lock_exists
is_locked = refl

drain_for_user-Reach_example :
    Reach dump validate (idle dump validate (publishing (row 2 7 10_000_000 ∷ []) ∷ []) [] tables) (
      idle dump validate
        (publishing (row 2 7 10_000_000 ∷ []) ∷ [])
        []
        (drain_for_user validate busy tables 8).1)
drain_for_user-Reach_example =
    drain_for_user-Reach dump validate (publishing (row 2 7 10_000_000 ∷ []) ∷ []) [] busy tables 8

-- An event of the locked user is staged; once the lock is gone a drain publishes it, and is cancelled
-- before the delete.
abbrev empty : Store NormalizedTransaction
empty = record { staged = []; locks = 7 ∷ []; published = [] }

abbrev start : System NormalizedTransaction
start = record { db = empty; tasks = []; routed = [] }

abbrev staged : Store NormalizedTransaction
staged = record { staged = row 4 7 5 ∷ []; locks = 7 ∷ []; published = [] }

abbrev cut_off : System NormalizedTransaction
cut_off = record {
  db = record { staged = row 4 7 5 ∷ []; locks = []; published = event 4 7 ∷ [] };
  tasks = [];
  routed = event 4 7 ∷ [];
}

start-IsFresh : IsFresh 4 start
start-IsFresh = record { staged = λ r m. elim m [ ]; held = λ t m. elim m [ ] }

is_staged : route dump down 4 5 empty (event 4 7) ≡ ok staged
unfolding route lock_exists insert_staged
is_staged = refl

is_published : produce busy [] (event 4 7) ≡ ok (event 4 7 ∷ [])
unfolding produce
is_published = refl

is_selected :
    select_staged_for_user (record { staged = row 4 7 5 ∷ []; locks = []; published = [] }) 7
    ≡ row 4 7 5 ∷ []
unfolding select_staged_for_user sort_rows place
is_selected = refl

run : Reach dump validate start cut_off
run =
    next
      (next
        (next
          (next (next here (routes down 4 5 (event 4 7) staged start-IsFresh is_staged refl))
            (locks [] refl))
          (begins 7 refl))
        (publishes busy [] [] (row 4 7 5) [] (event 4 7) (event 4 7 ∷ [])
          (ap (λ rows. publishing rows ∷ []) is_selected) refl is_published refl))
      (stops [] [] (deleting (row 4 7 5) []) refl refl)

Reach-IsHeld_example : IsHeld validate cut_off.db (event 4 7)
Reach-IsHeld_example =
    Reach-IsHeld dump validate (λ tx. refl) empty (λ a b m. elim m [ ]) run (event 4 7) (inl refl)
