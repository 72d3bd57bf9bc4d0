-- ===== src/Jobs/Trigger/Guards.antt =====
-- When a request of one user starts a reprocessing.
use grosh.Prelude.{
  ℕ, ◌+◌, ◌<◌, ◌≤◌, String, Bool, true, false, not, ◌&&◌, Option, none, some, List, [], ◌∷◌, ◌++◌,
  ◌≡◌, ◌≢◌, ◌⊎◌, inl, inr, refl, ap, subst, arith, any, map, ltb, ◌==◌, if◌then◌else◌, Member,
}
use grosh.Jobs.{Outcome, returned, raised, BatchApi}
use grosh.Jobs.Status.{find_active_job}
use grosh.Jobs.Submit.{Texts, Settings, submit}
use grosh.Jobs.Trigger.{
  UserRole, one_hour, started, User, Tables, get_role, is_admin, is_eligible, claim_reprocess_slot,
  insert_lock_atomic, Response, ok, problem, insufficient_permissions, rate_limited,
  reprocess_locked, job_submission_failed, active_job_or_none, label_selector,
  trigger_user_reprocess,
}

-- The last start is none, or more than an hour before an instant.
abbrev pub IsOver : ℕ → Option ℕ → Type 0
IsOver now none = Unit
IsOver now (some t) = t + 3_600_000_000 < now

-- The last start is within the hour before an instant, or later.
abbrev pub IsRecent : ℕ → Option ℕ → Type 0
IsRecent now none = ⊥
IsRecent now (some t) = now ≤ t + 3_600_000_000

-- A stored row of the user that has this last start.
abbrev pub HasStart : List User → ℕ → Option ℕ → Type 0
HasStart users user_id last =
    (u : User) × Member u users × (u.id ≡ user_id) × (u.last_reprocess_started_at ≡ last)

-- No row of the user may start again within the hour.
abbrev pub IsLimited : ℕ → List User → ℕ → Type 0
IsLimited now users user_id =
    (u : User) → Member u users → (u.id ≢ user_id) ⊎ IsRecent now u.last_reprocess_started_at

-- What the claim changes: it sets the last start of the user, and nothing else.
abbrev pub unstarted : ℕ → User → User
unstarted user_id u = if u.id == user_id then record u { last_reprocess_started_at = none } else u

IsOver-eligible :
    (now : ℕ) (u : User) → is_eligible now u ≡ true → IsOver now u.last_reprocess_started_at
IsOver-eligible now u h = over u.last_reprocess_started_at h
  where
    over :
        (o : Option ℕ)
        → elim o [ none ↦ true | some t ↦ ltb (t + one_hour) now ] ≡ true
        → IsOver now o
    over none e = tt
    over (some t) e = ground (arith, e)

pub IsRecent-ineligible :
    (now : ℕ) (u : User) → is_eligible now u ≡ false → IsRecent now u.last_reprocess_started_at
IsRecent-ineligible now u h = recent u.last_reprocess_started_at h
  where
    recent :
        (o : Option ℕ)
        → elim o [ none ↦ true | some t ↦ ltb (t + one_hour) now ] ≡ false
        → IsRecent now o
    recent none e = absurd cc
    recent (some t) e = ground (arith, e)

-- A claim that succeeds: the user may start, and has started now; whatever its outcome, the user
-- cannot start again within the hour.
abbrev pub IsClaimed : ℕ → ℕ → List User → Bool → List User → Type 0
IsClaimed now user_id users claimed users' =
    ((claimed ≡ false)
      ⊎ ((last : Option ℕ) × HasStart users user_id last
          × IsOver now last
          × HasStart users' user_id (some now)))
    × IsLimited now users' user_id
    × (map (unstarted user_id) users' ≡ map (unstarted user_id) users)

cons-HasStart :
    (u : User) (users : List User) (user_id : ℕ) (last : Option ℕ)
    → HasStart users user_id last
    → HasStart (u ∷ users) user_id last
cons-HasStart u users user_id last (v, m, i, e) = (v, inr m, i, e)

cons-IsLimited :
    (now : ℕ) (u : User) (users : List User) (user_id : ℕ)
    → ((u.id ≢ user_id) ⊎ IsRecent now u.last_reprocess_started_at)
    → IsLimited now users user_id
    → IsLimited now (u ∷ users) user_id
cons-IsLimited now u users user_id h k v (inl same) =
    subst (λ x. (x.id ≢ user_id) ⊎ IsRecent now x.last_reprocess_started_at) same h
cons-IsLimited now u users user_id h k v (inr m) = k v m

pub claim-IsClaimed :
    (now : ℕ) (users : List User) (user_id : ℕ)
    → IsClaimed now user_id users
        (claim_reprocess_slot now users user_id).0
        (claim_reprocess_slot now users user_id).1
unfolding claim_reprocess_slot
claim-IsClaimed now [] user_id = (inl refl, λ u m. elim m [ ], refl)
claim-IsClaimed now (u ∷ users) user_id =
    row (claim_reprocess_slot now users user_id) (u.id == user_id) (is_eligible now u) refl refl
      (claim-IsClaimed now users user_id)
  where
    after : Bool → Bool → Bool × List User → Bool × List User
    after own free rest =
        if own && free then (true, started now u ∷ rest.1) else (rest.0, u ∷ rest.1)

    kept :
        (rest : Bool × List User)
        → ((u.id ≢ user_id) ⊎ IsRecent now u.last_reprocess_started_at)
        → IsClaimed now user_id users rest.0 rest.1
        → IsClaimed now user_id (u ∷ users) rest.0 (u ∷ rest.1)
    kept rest h (inl e, limited, same) = (
      inl e,
      cons-IsLimited now u rest.1 user_id h limited,
      ap (λ l. unstarted user_id u ∷ l) same,
    )
    kept rest h (inr (last, before, over, began), limited, same) = (
      inr (
        last,
        cons-HasStart u users user_id last before,
        over,
        cons-HasStart u rest.1 user_id (some now) began,
      ),
      cons-IsLimited now u rest.1 user_id h limited,
      ap (λ l. unstarted user_id u ∷ l) same,
    )

    row :
        (rest : Bool × List User) (own free : Bool)
        → (u.id == user_id) ≡ own
        → is_eligible now u ≡ free
        → IsClaimed now user_id users rest.0 rest.1
        → IsClaimed now user_id (u ∷ users) (after own free rest).0 (after own free rest).1
    row rest true true o f (_, limited, same) =
        let mine : u.id ≡ user_id = ground (arith, o) in
        (
          inr (
            u.last_reprocess_started_at,
            (u, inl refl, mine, refl),
            IsOver-eligible now u f,
            (started now u, inl refl, mine, refl),
          ),
          cons-IsLimited now (started now u) rest.1 user_id (inr (omega arith)) limited,
          rw o (ap (λ l. record u { last_reprocess_started_at = none } ∷ l) same),
        )
    row rest true false o f k = kept rest (inr (IsRecent-ineligible now u f)) k
    row rest false true o f k = kept rest (inl (λ e. ground (arith, o, e))) k
    row rest false false o f k = kept rest (inl (λ e. ground (arith, o, e))) k

insert_lock-cases :
    (locks : List ℕ) (user_id : ℕ)
    → ((insert_lock_atomic locks user_id).0 ≡ true)
    → (any (λ u. u == user_id) locks ≡ false)
      × ((insert_lock_atomic locks user_id).1 ≡ locks ++ user_id ∷ [])
unfolding insert_lock_atomic
insert_lock-cases locks user_id h = ground arith

-- What an answer says of the caller and of the tables before and after it.
abbrev pub IsTriggered : ℕ → ℕ → ℕ → Tables → Response String → Tables → Type 0
IsTriggered now user_id caller_id db (problem p) db' = db' ≡ db
IsTriggered now user_id caller_id db (ok job_name) db' =
    ((caller_id ≡ user_id) ⊎ (get_role db.users caller_id ≡ some UserRole.admin))
    × ((last : Option ℕ) × HasStart db.users user_id last × IsOver now last)
    × HasStart db'.users user_id (some now)
    × IsLimited now db'.users user_id
    × (map (unstarted user_id) db'.users ≡ map (unstarted user_id) db.users)
    × (any (λ u. u == user_id) db.locks ≡ false)
    × (db'.locks ≡ db.locks ++ user_id ∷ [])

-- A request to reprocess a user that is answered with a problem changes nothing. One that is answered
-- with a job came from the user or an admin; a row of the user had no start, or one more than an hour
-- before, and the user had no lock. Then the user has the lock, a row of the user has the time of the
-- request as its start, no row of the user may start again within the hour, and nothing else of the
-- users has changed.
pub trigger_user_reprocess-IsTriggered :
    (texts : Texts) (settings : Settings) (api : Option BatchApi) (now : ℕ) (db : Tables)
    (user_id caller_id : ℕ)
    → IsTriggered now user_id caller_id db
        (trigger_user_reprocess texts settings api now db user_id caller_id).0
        (trigger_user_reprocess texts settings api now db user_id caller_id).1
unfolding trigger_user_reprocess
trigger_user_reprocess-IsTriggered texts settings api now db user_id caller_id =
    chosen (caller_id == user_id) (is_admin (get_role db.users caller_id))
      (claim_reprocess_slot now db.users user_id).0 (insert_lock_atomic db.locks user_id).0
      (submit texts settings api now (user_id ∷ []) (some user_id)) refl refl
      (claim-IsClaimed now db.users user_id) (insert_lock-cases db.locks user_id)
  where
    after : Tables
    after = record {
      users = (claim_reprocess_slot now db.users user_id).1;
      locks = (insert_lock_atomic db.locks user_id).1;
    }

    submitted : Outcome String → Response String × Tables
    submitted (raised e) = (problem job_submission_failed, db)
    submitted (returned job_name) = (ok job_name, after)

    Claimed : Bool → Type 0
    Claimed claimed =
        IsClaimed now user_id db.users claimed (claim_reprocess_slot now db.users user_id).1

    submitted-IsTriggered :
        (o : Outcome String)
        → ((caller_id ≡ user_id) ⊎ (get_role db.users caller_id ≡ some UserRole.admin))
        → Claimed true
        → (any (λ u. u == user_id) db.locks ≡ false)
          × ((insert_lock_atomic db.locks user_id).1 ≡ db.locks ++ user_id ∷ [])
        → IsTriggered now user_id caller_id db (submitted o).0 (submitted o).1
    submitted-IsTriggered (raised e) w m l = refl
    submitted-IsTriggered (returned job_name) w (inl e, _, _) l = absurd cc
    submitted-IsTriggered (returned job_name) w (inr (last, before, over, began), limited, same) l =
        (w, (last, before, over), began, limited, same, l.0, l.1)

    admin_role : (r : Option UserRole) → is_admin r ≡ true → r ≡ some UserRole.admin
    admin_role none h = absurd cc
    admin_role (some UserRole.admin) h = refl
    admin_role (some UserRole.user) h = absurd cc

    guarded : Bool → Bool → Bool → Bool → Outcome String → Response String × Tables
    guarded own admin claimed inserted o =
        if not own && not admin
        then (problem insufficient_permissions, db)
        else (if not claimed
            then (problem rate_limited, db)
            else (if not inserted
                then (
                  problem (
                      reprocess_locked (
                        active_job_or_none
                          (find_active_job api (label_selector texts settings api user_id)))),
                  db,
                )
                else submitted o))

    chosen :
        (own admin claimed inserted : Bool) (o : Outcome String)
        → (caller_id == user_id) ≡ own
        → is_admin (get_role db.users caller_id) ≡ admin
        → Claimed claimed
        → (inserted ≡ true
            → (any (λ u. u == user_id) db.locks ≡ false)
              × ((insert_lock_atomic db.locks user_id).1 ≡ db.locks ++ user_id ∷ []))
        → IsTriggered now user_id caller_id db
            (guarded own admin claimed inserted o).0
            (guarded own admin claimed inserted o).1
    chosen false false claimed inserted o w a m l = refl
    chosen true admin false inserted o w a m l = refl
    chosen false true false inserted o w a m l = refl
    chosen true admin true false o w a m l = refl
    chosen false true true false o w a m l = refl
    chosen true admin true true o w a m l =
        submitted-IsTriggered o (inl (ground (arith, w))) m (l refl)
    chosen false true true true o w a m l =
        submitted-IsTriggered o (inr (admin_role _ a)) m (l refl)
