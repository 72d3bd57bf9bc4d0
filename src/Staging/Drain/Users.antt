-- ===== src/Staging/Drain/Users.antt =====
-- Whose events a drain and a sweep take.
use grosh.Prelude.{
  ℕ, true, false, not, Option, List, [], ◌∷◌, ◌++◌, ◌≡◌, ◌≢◌, ◌∙◌, refl, ap, sym, subst, inl, inr,
  Bool-cases, filter, arith, ◌==◌, Member, filter-none, filter-kept, Member-any, any-Member,
  Member-filter, Member-append_left, append_nil,
}
use grosh.Domain.{NormalizedTransaction}
use grosh.Kafka.{Broker}
use grosh.Staging.{
  StagedRow, Store, sort_rows, is_of, select_staged_for_user, lock_exists, distinct_users,
  select_unlocked_user_ids_with_staged_rows,
}
use grosh.Staging.Drain.{Ending, finished, drain_rows, drain_for_user, drain_users, sweep_once}
use grosh.Staging.Drain.Order.{is_one_of, without, IsDrained, drain_rows-IsDrained}
use grosh.Staging.Drain.Rows.{IsOrdered, select-IsOrdered, Member-select, select-Member}

module _ {P : Type 0} where
  -- Rows of one id are one row, as the primary key says.
  abbrev pub HasKey : List (StagedRow P) → Type 0
  HasKey rows = (a b : StagedRow P) → Member a rows → Member b rows → a.id ≡ b.id → a ≡ b

  module _ (validate : P → Option NormalizedTransaction) (broker : Broker) where
    done_whole :
        (db db' : Store P) (rows : List (StagedRow P)) (d : IsDrained validate db rows finished db')
        → d.done ≡ rows
    done_whole db db' rows d =
        sym (append_nil d.done) ∙ ap (λ l. d.done ++ l) (sym (d.whole refl)) ∙ d.split

    of_user :
        (db : Store P) (user_id : ℕ) (x : StagedRow P)
        → Member x (without (select_staged_for_user db user_id) db.staged)
        → is_of user_id x ≡ false
    of_user db user_id x m = elim (Bool-cases (is_of user_id x)) [
      | inr e ↦ e
      | inl e ↦
          let rows = select_staged_for_user db user_id in
          let (n, h) = Member-filter x (λ row. not (is_one_of rows row)) db.staged m in
          let found : is_one_of rows x ≡ true =
            Member-any x (λ d. x.id == d.id) rows (select-Member db user_id x n (ground (arith, e)))
              (ground arith) in
          absurd (ground (arith, found, h))
    ]

    -- What a drain that returned has left of the user.
    finished-select :
        (db db' : Store P) (user_id : ℕ)
        → IsDrained validate db (select_staged_for_user db user_id) finished db'
        → select_staged_for_user db' user_id ≡ []
    unfolding select_staged_for_user sort_rows
    finished-select db db' user_id d = ap sort_rows (
        filter-none (is_of user_id) db'.staged (λ x m. of_user db user_id x (
          subst (λ l. Member x (without l db.staged))
            (done_whole db db' (select_staged_for_user db user_id) d)
            (subst (Member x) d.staged m))))

    not_done :
        (db : Store P) (user_id other : ℕ) (done left : List (StagedRow P)) (x : StagedRow P)
        → HasKey db.staged
        → other ≢ user_id
        → done ++ left ≡ select_staged_for_user db user_id
        → Member x db.staged
        → is_of other x ≡ true
        → not (is_one_of done x) ≡ true
    not_done db user_id other done left x key n split m h = elim (Bool-cases (is_one_of done x)) [
      | inr e ↦ rw e refl
      | inl e ↦
          let (d, k, same) = any-Member (λ d. x.id == d.id) done e in
          let (inside, owner) =
            Member-select db user_id d
              (subst (Member d) split (Member-append_left d done left k)) in
          let equal = key d x inside m (ground (arith, same)) in
          absurd (n (ground (arith, h) ∙ ap (λ r. r.user_id) (sym equal) ∙ owner))
    ]

    kept_rows :
        (db db' : Store P) (user_id other : ℕ) {ending : Ending}
        → HasKey db.staged
        → other ≢ user_id
        → IsDrained validate db (select_staged_for_user db user_id) ending db'
        → filter (is_of other) db'.staged ≡ filter (is_of other) db.staged
    kept_rows db db' user_id other key n d =
        ap (filter (is_of other)) d.staged
        ∙ filter-kept (is_of other) (λ row. not (is_one_of d.done row)) db.staged
            (λ x m h. not_done db user_id other d.done d.left x key n d.split m h)

    kept-HasKey :
        (db db' : Store P) (rows : List (StagedRow P)) {ending : Ending}
        → HasKey db.staged
        → IsDrained validate db rows ending db'
        → HasKey db'.staged
    kept-HasKey db db' rows key d a b m n e = key a b (old a m) (old b n) e
      where
        old : (x : StagedRow P) → Member x db'.staged → Member x db.staged
        old x k =
            (Member-filter x (λ row. not (is_one_of d.done row)) db.staged
              (subst (Member x) d.staged k)).0

    -- A drain of a user publishes a first part of the staged events of the user, in the order of their
    -- times, each of which can be read and is taken by the producer, and deletes exactly the rows of
    -- those that it published. Where it returns, no row of the user is left.
    pub drain_for_user-IsDrained :
        (db : Store P) (user_id : ℕ)
        → IsDrained validate db
            (select_staged_for_user db user_id)
            (drain_for_user validate broker db user_id).0
            (drain_for_user validate broker db user_id).1
          × IsOrdered (select_staged_for_user db user_id)
          × ((drain_for_user validate broker db user_id).0 ≡ finished
              → select_staged_for_user (drain_for_user validate broker db user_id).1 user_id ≡ [])
    unfolding drain_for_user
    drain_for_user-IsDrained db user_id =
        let rows = select_staged_for_user db user_id in
        let drained = drain_rows-IsDrained validate broker db rows in
        (
          drained,
          select-IsOrdered db user_id,
          λ e. finished-select db _ user_id (
              subst (λ x. IsDrained validate db rows x (drain_rows validate broker db rows).1) e
                drained),
        )

    drain_users-kept :
        (db : Store P) (other : ℕ) (user_ids : List ℕ)
        → HasKey db.staged
        → ((user_id : ℕ) → Member user_id user_ids → other ≢ user_id)
        → filter (is_of other) (drain_users validate broker db user_ids).staged
          ≡ filter (is_of other) db.staged
    unfolding drain_users drain_for_user
    drain_users-kept db other [] key n = refl
    drain_users-kept db other (user_id ∷ user_ids) key n =
        let rows = select_staged_for_user db user_id in
        let d = drain_rows-IsDrained validate broker db rows in
        let db' = (drain_rows validate broker db rows).1 in
        drain_users-kept db' other user_ids (kept-HasKey db db' rows key d) (λ v m. n v (inr m))
        ∙ kept_rows db db' user_id other key (n user_id (inl refl)) d

  Member-distinct_users :
      (user_id : ℕ) (rows : List (StagedRow P))
      → Member user_id (distinct_users rows)
      → (row : StagedRow P) × Member row rows × (row.user_id ≡ user_id)
  unfolding distinct_users
  Member-distinct_users user_id [] m = elim m [ ]
  Member-distinct_users user_id (row ∷ rows) (inl e) = (row, inl refl, e)
  Member-distinct_users user_id (row ∷ rows) (inr m) =
      let (n, _) = Member-filter user_id (λ u. not (u == row.user_id)) (distinct_users rows) m in
      let (found, k, e) = Member-distinct_users user_id rows n in (found, inr k, e)

  unlocked_users :
      (db : Store P) (user_id : ℕ)
      → Member user_id (select_unlocked_user_ids_with_staged_rows db)
      → lock_exists db user_id ≡ false
  unfolding select_unlocked_user_ids_with_staged_rows
  unlocked_users db user_id m =
      let (row, k, e) =
        Member-distinct_users user_id (filter (λ row. not (lock_exists db row.user_id)) db.staged)
          m in
      let (_, h) = Member-filter row (λ row. not (lock_exists db row.user_id)) db.staged k in
      ap (lock_exists db) (sym e) ∙ ground (arith, h)

  -- Where the ids of the staged rows are distinct, a sweep leaves all staged rows of a user whose
  -- reprocessing holds the lock, whatever the broker does.
  pub sweep_once-locked :
      (validate : P → Option NormalizedTransaction) (broker : Broker) (db : Store P) (now : ℕ)
      (user_id : ℕ)
      → HasKey db.staged
      → lock_exists db user_id ≡ true
      → filter (is_of user_id) (sweep_once validate broker db now).1.staged
        ≡ filter (is_of user_id) db.staged
  unfolding sweep_once
  sweep_once-locked validate broker db now user_id key locked =
      drain_users-kept validate broker db user_id (select_unlocked_user_ids_with_staged_rows db) key
        (λ v m same. cc (locked, unlocked_users db v m, ap (lock_exists db) same))
