-- ===== src/Jobs/Trigger/Bulk/Targets.antt =====
-- Whom a bulk reprocessing targets.
use grosh.Prelude.{
  none, ℕ, String, Bool, true, false, not, Option, some, List, [], ◌∷◌, ◌++◌, ◌≡◌, ◌≢◌, ◌∙◌, ◌⊎◌,
  inl, inr, refl, sym, subst, arith, any, ◌==◌, Bool-cases, if◌then◌else◌, Member, append_nil,
  append_last, is_some, any-Member,
}
use grosh.Jobs.{Outcome, returned, raised, BatchApi}
use grosh.Jobs.Submit.{Texts, Settings, submit}
use grosh.Jobs.Trigger.{User, Tables, insert_lock_atomic, Response, ok, problem}
use grosh.Jobs.Trigger.Bulk.{
  SkipReason, reprocess_locked, rate_limited, SkippedUser, BulkReprocessResponse, Selection,
  skipping, targeting, claim, refusal, select_targets, target_ids, submitted, answer,
  trigger_bulk_reprocess,
}
use grosh.Jobs.Trigger.Guards.{HasStart, IsOver, IsLimited}
use grosh.Jobs.Trigger.Bulk.Users.{
  IsLater, IsLater-refl, IsLater-trans, later-HasStart, earlier-HasStart, later-IsLimited,
  later-Absent, claim-IsLater, claim-IsLimited, claim-began, force-absent, force-began,
}

abbrev pub is_locked : List ℕ → ℕ → Bool
is_locked locks user_id = any (λ u. u == user_id) locks

abbrev pub AreDistinct : List ℕ → Type 0
AreDistinct [] = Unit
AreDistinct (u ∷ us) = (is_locked us u ≡ false) × AreDistinct us

-- The users of a request, in its order, each either a target or skipped.
pub data IsSplit : List ℕ → List ℕ → List SkippedUser → Type 0 where
  nobody : IsSplit [] [] []
  targets :
      {users us : List ℕ} {skipped : List SkippedUser} (user_id : ℕ)
      → IsSplit users us skipped
      → IsSplit (user_id ∷ users) (user_id ∷ us) skipped
  skips :
      {users us : List ℕ} {skipped : List SkippedUser} (user_id : ℕ) (reason : SkipReason)
      → IsSplit users us skipped
      → IsSplit (user_id ∷ users) us (record { user_id = user_id; reason = reason } ∷ skipped)

-- Why a user is skipped: he has a lock, or with force he is not stored; or without force no row of
-- his may start again within the hour. Targets of the request itself count.
abbrev pub IsReason : Bool → ℕ → Tables → ℕ → SkipReason → Type 0
IsReason force now db user_id reprocess_locked =
    (is_locked db.locks user_id ≡ true)
    ⊎ ((force ≡ true) × ((v : User) → Member v db.users → v.id ≢ user_id))
IsReason force now db user_id rate_limited = (force ≡ false) × IsLimited now db.users user_id

-- A target: he had no lock; without force a row of his had no start, or one more than an hour before;
-- and a row of his has this instant as its start.
abbrev pub IsTarget : Bool → ℕ → Tables → Tables → ℕ → Type 0
IsTarget force now db db' user_id =
    (is_locked db.locks user_id ≡ false)
    × ((force ≡ true) ⊎ ((last : Option ℕ) × HasStart db.users user_id last × IsOver now last))
    × HasStart db'.users user_id (some now)

-- The locks that were added are exactly those of the targets, each of which is targeted once; every
-- user is a target or skipped, and for such a reason.
pub record IsSelected (force : Bool) (now : ℕ) (db : Tables) (user_ids : List ℕ) (s : Selection)
    : Type 0 where
  pub locks : s.2.locks ≡ db.locks ++ s.0
  pub free : (u : ℕ) → Member u s.0 → IsTarget force now db s.2 u
  pub distinct : AreDistinct s.0
  pub split : IsSplit user_ids s.0 s.1
  pub reasons : (k : SkippedUser) → Member k s.1 → IsReason force now s.2 k.user_id k.reason
  pub users : IsLater now db.users s.2.users

earlier-IsTarget :
    (force : Bool) (now : ℕ) (mid db db' : Tables) (user_id : ℕ)
    → IsLater now db.users mid.users
    → is_locked db.locks user_id ≡ false
    → IsTarget force now mid db' user_id
    → IsTarget force now db db' user_id
earlier-IsTarget force now mid db db' user_id later new (_, inl f, began) = (new, inl f, began)
earlier-IsTarget force now mid db db' user_id later new (_, inr (last, before, over), began) = (
  new,
  inr (last, earlier-HasStart now db.users mid.users user_id last later over before, over),
  began,
)

any-append : (p : ℕ → Bool) (xs ys : List ℕ) → any p xs ≡ true → any p (xs ++ ys) ≡ true
any-append p [] ys h = absurd cc
any-append p (x ∷ xs) ys h = ground (arith, any-append p xs ys, h)

skipping-IsSelected :
    (force : Bool) (now : ℕ) (db : Tables) (user_ids : List ℕ) (user_id : ℕ) (reason : SkipReason)
    (users : List User) (s : Selection)
    → IsLater now db.users users
    → IsReason force now s.2 user_id reason
    → IsSelected force now (record db { users = users }) user_ids s
    → IsSelected force now db (user_id ∷ user_ids) (skipping user_id reason s)
skipping-IsSelected force now db user_ids user_id reason users s later why k = record {
  locks = k.locks;
  free = λ u m.
      earlier-IsTarget force now (record db { users = users }) db s.2 u later (k.free u m).0
        (k.free u m);
  distinct = k.distinct;
  split = skips user_id reason k.split;
  reasons = λ r m. elim m [
    | inl e ↦ subst (λ x. IsReason force now s.2 x.user_id x.reason) e why
    | inr n ↦ k.reasons r n
  ];
  users = IsLater-trans now db.users users s.2.users later k.users;
}

still_free :
    (locks : List ℕ) (u v : ℕ) → is_locked (locks ++ u ∷ []) v ≡ false → is_locked locks v ≡ false
still_free [] u v h = refl
still_free (l ∷ locks) u v h = ground (arith, still_free locks u v)

now_locked : (locks : List ℕ) (u : ℕ) → is_locked (locks ++ u ∷ []) u ≡ true
now_locked [] u = ground arith
now_locked (l ∷ locks) u = ground (arith, now_locked locks u)

targeting-IsSelected :
    (force : Bool) (now : ℕ) (db : Tables) (user_ids : List ℕ) (user_id : ℕ) (users : List User)
    (s : Selection)
    → IsLater now db.users users
    → IsTarget force now db (record db { users = users }) user_id
    → IsSelected force now (record { users = users; locks = db.locks ++ user_id ∷ [] }) user_ids s
    → IsSelected force now db (user_id ∷ user_ids) (targeting user_id s)
targeting-IsSelected force now db user_ids user_id users s later (new, over, began) k = record {
  locks = k.locks ∙ append_last db.locks user_id s.0;
  free = λ u m. elim m [
    | inl e ↦
        subst (IsTarget force now db s.2) e
          (new, over, later-HasStart now users s.2.users user_id k.users began)
    | inr n ↦
        earlier-IsTarget force now (record { users = users; locks = db.locks ++ user_id ∷ [] }) db
          s.2 u later (still_free db.locks user_id u (k.free u n).0) (k.free u n)
  ];
  distinct = (
    elim (Bool-cases (is_locked s.0 user_id)) [ inr e ↦ e | inl e ↦ absurd (twice e) ],
    k.distinct,
  );
  split = targets user_id k.split;
  reasons = k.reasons;
  users = IsLater-trans now db.users users s.2.users later k.users;
}
  where
    twice : is_locked s.0 user_id ≡ true → ⊥
    twice e =
        let (u, m, same) = any-Member (λ u. u == user_id) s.0 e in
        let equal : u ≡ user_id = ground (arith, same) in
        cc (
          now_locked db.locks user_id,
          subst (λ v. is_locked (db.locks ++ user_id ∷ []) v ≡ false) equal (k.free u m).0,
        )

inserted_cases :
    (locks : List ℕ) (user_id : ℕ)
    → ((is_locked locks user_id ≡ true) × (insert_lock_atomic locks user_id ≡ (false, locks)))
      ⊎ ((is_locked locks user_id ≡ false)
          × (insert_lock_atomic locks user_id ≡ (true, locks ++ user_id ∷ [])))
unfolding insert_lock_atomic
inserted_cases locks user_id = elim (Bool-cases (is_locked locks user_id)) [
  | inl e ↦ inl (e, rw e refl)
  | inr e ↦ inr (e, rw e refl)
]

-- A refusal of the claim, and its reason in the tables that follow.
refused-IsReason :
    (force : Bool) (now : ℕ) (users : List User) (user_id : ℕ) (db' : Tables)
    → (claim force now users user_id).0 ≡ false
    → IsLater now users db'.users
    → IsReason force now db' user_id (refusal force)
refused-IsReason true now users user_id db' h later =
    inr (refl, later-Absent now users db'.users user_id later (force-absent now users user_id h))
refused-IsReason false now users user_id db' h later =
    (refl, later-IsLimited now users db'.users user_id later (claim-IsLimited now users user_id h))

claimed-IsTarget :
    (force : Bool) (now : ℕ) (db : Tables) (user_id : ℕ)
    → is_locked db.locks user_id ≡ false
    → (claim force now db.users user_id).0 ≡ true
    → IsTarget force now db (record db { users = (claim force now db.users user_id).1 }) user_id
claimed-IsTarget true now db user_id new h = (new, inl refl, force-began now db.users user_id h)
claimed-IsTarget false now db user_id new h =
    let (last, before, over, began) = claim-began now db.users user_id h in
    (new, inr (last, before, over), began)

pub select_targets-IsSelected :
    (force : Bool) (now : ℕ) (db : Tables) (user_ids : List ℕ)
    → IsSelected force now db user_ids (select_targets force now db user_ids)
unfolding select_targets
select_targets-IsSelected force now db [] = record {
  locks = sym (append_nil db.locks);
  free = λ u m. elim m [ ];
  distinct = tt;
  split = nobody;
  reasons = λ k m. elim m [ ];
  users = IsLater-refl now db.users;
}
select_targets-IsSelected force now db (user_id ∷ user_ids) =
    chosen (claim force now db.users user_id).0 (insert_lock_atomic db.locks user_id) refl
      (inserted_cases db.locks user_id) (λ d. select_targets-IsSelected force now d user_ids)
  where
    users : List User
    users = (claim force now db.users user_id).1

    later : IsLater now db.users users
    later = claim-IsLater force now db.users user_id

    rest : Tables → Selection
    rest d = select_targets force now d user_ids

    chosen :
        (claimed : Bool) (out : Bool × List ℕ)
        → (claim force now db.users user_id).0 ≡ claimed
        → ((is_locked db.locks user_id ≡ true) × (out ≡ (false, db.locks)))
          ⊎ ((is_locked db.locks user_id ≡ false) × (out ≡ (true, db.locks ++ user_id ∷ [])))
        → ((d : Tables) → IsSelected force now d user_ids (rest d))
        → IsSelected force now db (user_id ∷ user_ids) (
            if not claimed
            then skipping user_id (refusal force) (rest db)
            else (if out.0
                then targeting user_id (rest (record { users = users; locks = out.1 }))
                else skipping user_id reprocess_locked (rest (record db { users = users }))))
    chosen false out c o ih =
        skipping-IsSelected force now db user_ids user_id (refusal force) db.users (rest db)
          (IsLater-refl now db.users)
          (refused-IsReason force now db.users user_id (rest db).2 c (ih db).users) (ih db)
    chosen true out c (inl (old, e)) ih =
        let after = record db { users = users } in
        rw e (
          skipping-IsSelected force now db user_ids user_id reprocess_locked users (rest after)
            later
            (inl (
              subst (λ l. is_locked l user_id ≡ true) (sym (ih after).locks)
                (any-append (λ u. u == user_id) db.locks (rest after).0 old)))
            (ih after))
    chosen true out c (inr (new, e)) ih = rw e (
        targeting-IsSelected force now db user_ids user_id users
          (rest (record { users = users; locks = db.locks ++ user_id ∷ [] })) later
          (claimed-IsTarget force now db user_id new c)
          (ih (record { users = users; locks = db.locks ++ user_id ∷ [] })))

abbrev is_nonempty : List ℕ → Bool
is_nonempty [] = false
is_nonempty (_ ∷ _) = true

-- What an answer says of the tables before and after it.
abbrev pub IsBulk : Bool → ℕ → Tables → List ℕ → Response BulkReprocessResponse → Tables → Type 0
IsBulk force now db user_ids (problem p) db' = db' ≡ db
IsBulk force now db user_ids (ok response) db' =
    (s : Selection) × IsSelected force now db user_ids s
    × (db' ≡ s.2)
    × (response.skipped ≡ s.1)
    × (is_some response.job_id ≡ is_nonempty s.0)
    × (is_some response.status_url ≡ is_nonempty s.0)

-- A bulk request that is answered with a problem changes nothing. Otherwise every user of the request
-- is, in its order, a target or skipped. The locks that were added are exactly those of the targets,
-- each of whom had no lock and is targeted once, however often the request names him, and has this
-- instant as his start; without force, a row of his had no start or one more than an hour before. A
-- skipped user has a lock afterwards, or with force is not stored, or without force may not start again
-- within the hour, as his reason says. The answer lists the skipped users, and has a job, and with it a
-- status URL, exactly where some user is targeted.
pub trigger_bulk_reprocess-IsBulk :
    (texts : Texts) (settings : Settings) (api : Option BatchApi) (now : ℕ) (db : Tables)
    (user_ids : Option (List ℕ)) (force : Bool)
    → IsBulk force now db
        (target_ids db user_ids)
        (trigger_bulk_reprocess texts settings api now db user_ids force).0
        (trigger_bulk_reprocess texts settings api now db user_ids force).1
unfolding trigger_bulk_reprocess
trigger_bulk_reprocess-IsBulk texts settings api now db user_ids force =
    answered (select_targets force now db (target_ids db user_ids))
      (select_targets-IsSelected force now db (target_ids db user_ids))
  where
    submitted-IsBulk :
        (t : ℕ) (more : List ℕ) (skipped : List SkippedUser) (db' : Tables) (o : Outcome String)
        → IsSelected force now db (target_ids db user_ids) (t ∷ more, skipped, db')
        → IsBulk force now db
            (target_ids db user_ids)
            (submitted db (t ∷ more, skipped, db') o).0
            (submitted db (t ∷ more, skipped, db') o).1
    submitted-IsBulk t more skipped db' (raised e) k = refl
    submitted-IsBulk t more skipped db' (returned job_name) k =
        ((t ∷ more, skipped, db'), k, refl, refl, refl, refl)

    answered :
        (s : Selection)
        → IsSelected force now db (target_ids db user_ids) s
        → IsBulk force now db
            (target_ids db user_ids)
            (answer texts settings api now db s).0
            (answer texts settings api now db s).1
    answered ([], skipped, db') k = (([], skipped, db'), k, refl, refl, refl, refl)
    answered (t ∷ more, skipped, db') k =
        submitted-IsBulk t more skipped db' (submit texts settings api now (t ∷ more) none) k
