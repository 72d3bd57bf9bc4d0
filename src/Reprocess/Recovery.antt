-- ===== src/Reprocess/Recovery.antt =====
-- What the job leaves of a user's transactions, however it ends.
use grosh.Prelude.{
  ℕ, Bool, true, false, not, ◌&&◌, some, List, [], ◌∷◌, ◌≡◌, ◌∙◌, refl, ap, sym, subst, inl, inr,
  Bool-cases, map, filter, any, arith, if◌then◌else◌, ◌==◌, length,
}
use grosh.Domain.{
  NormalizedTransaction, Transaction, Result, ok, raise, Error, reprocess_error, ◌>>=◌, >>=-eq-ok,
  or_raise, ok-injective, Result-cases,
}
use grosh.Replay.{to_normalized, select_for_user}
use grosh.Reprocess.{
  Store, World, Outcome, skipped, completed, restored, aborted, lock_exists, user_rows,
  snapshot_transactions, delete_user_transactions, verify_snapshot, release_lock_atomic,
  latest_backup, insert_all, restore_from_backup, wait_for_pipeline_catchup, recover, replay,
  reprocess_user, is_empty_list,
}
use grosh.Reprocess.Ids.{HasIds, insert_all-HasIds, verify_snapshot-HasIds}

-- The ids of the snapshot are stored, and the user's lock is released.
abbrev pub IsBack : Store → ℕ → List ℕ → Type 0
IsBack db user_id ids = HasIds db.transactions ids × (lock_exists db user_id ≡ false)

release-unlocks :
    (db : Store) (user_id : ℕ) → lock_exists (release_lock_atomic db user_id) user_id ≡ false
unfolding lock_exists release_lock_atomic
release-unlocks db user_id = gone db.locks
  where
    gone : (us : List ℕ) → any (λ u. u == user_id) (filter (λ u. not (u == user_id)) us) ≡ false
    gone [] = refl
    gone (u ∷ us) = elim (Bool-cases (u == user_id)) [
      | inl e ↦ rw e (gone us)
      | inr e ↦ rw (e, e) (gone us)
    ]

-- The job took a branch that leaves the user's rows in place: it completed, or it restored them.
abbrev pub is_settled : Outcome → Bool
is_settled completed = true
is_settled restored = true
is_settled skipped = false
is_settled (aborted _) = false

restore-HasIds :
    (db : Store) (user_id : ℕ) (snapshot : List Transaction) {db' : Store}
    → latest_backup db.backups user_id ≡ some snapshot
    → restore_from_backup db user_id ≡ ok db'
    → HasIds db'.transactions (map (λ row. row.id) snapshot)
unfolding restore_from_backup
restore-HasIds db user_id snapshot b h =
    let found : or_raise (latest_backup db.backups user_id) reprocess_error ≡ ok snapshot =
      rw b refl in
    let (snapshot', found', h') =
      >>=-eq-ok (or_raise (latest_backup db.backups user_id) reprocess_error) insert_rows h in
    let (rows, inserted, e) = >>=-eq-ok (insert_all db.transactions snapshot') store h' in
    let same : snapshot' ≡ snapshot = ok-injective (sym found' ∙ found) in
    subst (λ d. HasIds d.transactions (map (λ row. row.id) snapshot)) (ok-injective e)
      (subst (λ s. HasIds rows (map (λ row. row.id) s)) same
        (insert_all-HasIds db.transactions snapshot' inserted))
  where
    store : List Transaction → Result Store
    store rows = ok (record db { transactions = rows })

    insert_rows : List Transaction → Result Store
    insert_rows snapshot = insert_all db.transactions snapshot >>= store

release-transactions :
    (db : Store) (user_id : ℕ) → (release_lock_atomic db user_id).transactions ≡ db.transactions
unfolding release_lock_atomic
release-transactions db user_id = refl

released-IsBack :
    (db : Store) (user_id : ℕ) (ids : List ℕ)
    → HasIds db.transactions ids
    → IsBack (release_lock_atomic db user_id) user_id ids
released-IsBack db user_id ids h =
    (rw (release-transactions db user_id) h, release-unlocks db user_id)

recover_raised :
    (db : Store) (user_id : ℕ) (e : Error)
    → restore_from_backup db user_id ≡ raise e
    → recover db user_id ≡ (aborted e, db)
unfolding recover
recover_raised db user_id e r = rw (recover, r)

recover_done :
    (db db' : Store) (user_id : ℕ)
    → restore_from_backup db user_id ≡ ok db'
    → recover db user_id ≡ (restored, release_lock_atomic db' user_id)
unfolding recover
recover_done db db' user_id r = rw (recover, r)

recover-IsBack :
    (db : Store) (user_id : ℕ) (snapshot : List Transaction)
    → latest_backup db.backups user_id ≡ some snapshot
    → is_settled (recover db user_id).0 ≡ true
    → IsBack (recover db user_id).1 user_id (map (λ row. row.id) snapshot)
recover-IsBack db user_id snapshot b h = elim (Result-cases (restore_from_backup db user_id)) [
  | inl (e, r) ↦
      absurd (false_true (sym (ap (λ o. is_settled o.0) (recover_raised db user_id e r)) ∙ h))
  | inr (db', r) ↦ rw (recover_done db db' user_id r) (
      released-IsBack db' user_id (map (λ row. row.id) snapshot)
        (restore-HasIds db user_id snapshot b r))
]
  where
    false_true : false ≡ true → ⊥
    false_true e = cc

and_right : (a b : Bool) → (a && b) ≡ true → b ≡ true
and_right a b h = ground arith

replay-IsBack :
    (world : World) (db : Store) (user_id : ℕ) (snapshot : List Transaction)
    (events : List NormalizedTransaction)
    → latest_backup db.backups user_id ≡ some snapshot
    → is_settled (replay world db user_id (map (λ row. row.id) snapshot) events).0 ≡ true
    → IsBack
        (replay world db user_id (map (λ row. row.id) snapshot) events).1
        user_id
        (map (λ row. row.id) snapshot)
unfolding replay
replay-IsBack world db user_id snapshot events b =
    settled (not (world.is_published events))
      (wait_for_pipeline_catchup world user_id (length events) db.transactions)
  where
    ids : List ℕ
    ids = map (λ row. row.id) snapshot

    fails : Store
    fails = record db { transactions = world.stored_on_failure db.transactions }

    after_wait : Bool × List Transaction → Outcome × Store
    after_wait (caught_up, rows) =
        if caught_up && is_empty_list (verify_snapshot rows user_id ids)
        then (completed, release_lock_atomic (record db { transactions = rows }) user_id)
        else recover (record db { transactions = rows }) user_id

    chosen :
        (rows : List Transaction) (passed : Bool)
        → (passed ≡ true → HasIds rows ids)
        → is_settled
            (if passed
              then (completed, release_lock_atomic (record db { transactions = rows }) user_id)
              else recover (record db { transactions = rows }) user_id).0
          ≡ true
        → IsBack
            (if passed
              then (completed, release_lock_atomic (record db { transactions = rows }) user_id)
              else recover (record db { transactions = rows }) user_id).1
            user_id
            ids
    chosen rows true has h =
        released-IsBack (record db { transactions = rows }) user_id ids (has refl)
    chosen rows false has h =
        recover-IsBack (record db { transactions = rows }) user_id snapshot b h

    waited :
        (w : Bool × List Transaction)
        → is_settled (after_wait w).0 ≡ true
        → IsBack (after_wait w).1 user_id ids
    waited (caught_up, rows) h =
        chosen rows (caught_up && is_empty_list (verify_snapshot rows user_id ids))
          (λ e. verify_snapshot-HasIds rows user_id ids (and_right caught_up _ e)) h

    settled :
        (failed : Bool) (w : Bool × List Transaction)
        → is_settled (if failed then recover fails user_id else after_wait w).0 ≡ true
        → IsBack (if failed then recover fails user_id else after_wait w).1 user_id ids
    settled true w h = recover-IsBack fails user_id snapshot b h
    settled false w h = waited w h

saved_lem :
    (db : Store) (user_id : ℕ)
    → latest_backup
        (delete_user_transactions (snapshot_transactions db user_id).1 user_id).backups
        user_id
      ≡ some (user_rows db user_id)
unfolding latest_backup delete_user_transactions snapshot_transactions
saved_lem db user_id = ground arith

-- A job that found the user's lock, and neither skipped nor failed within the restore itself, has
-- returned True or raised the ReprocessError after a restore. In both cases, whatever other services
-- stored and whether or not the events were published, the id of each transaction that the user had
-- is stored, and the user's lock is released.
pub reprocess_user-IsBack :
    (world : World) (db : Store) (user_id : ℕ)
    → is_settled (reprocess_user world db user_id).0 ≡ true
    → IsBack
        (reprocess_user world db user_id).1
        user_id
        (map (λ row. row.id) (user_rows db user_id))
unfolding reprocess_user snapshot_transactions
reprocess_user-IsBack world db user_id = started (not (lock_exists db user_id))
  where
    deleted : Store
    deleted = delete_user_transactions (snapshot_transactions db user_id).1 user_id

    run : Outcome × Store
    run =
        replay world deleted user_id (map (λ row. row.id) (user_rows db user_id))
          (map to_normalized (select_for_user db.transactions user_id))

    saved : latest_backup deleted.backups user_id ≡ some (user_rows db user_id)
    saved = saved_lem db user_id

    started :
        (absent : Bool)
        → is_settled (if absent then (skipped, db) else run).0 ≡ true
        → IsBack
            (if absent then (skipped, db) else run).1
            user_id
            (map (λ row. row.id) (user_rows db user_id))
    started true h = cc
    started false h = replay-IsBack world deleted user_id (user_rows db user_id) _ saved h
