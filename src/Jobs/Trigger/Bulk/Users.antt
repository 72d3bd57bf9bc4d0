-- ===== src/Jobs/Trigger/Bulk/Users.antt =====
-- How claims change the users: rows are started, and nothing else.
use grosh.Prelude.{
  ℕ, Bool, true, false, ◌&&◌, Option, some, List, [], ◌∷◌, ◌≡◌, ◌≢◌, ◌∙◌, ◌⊎◌, inl, inr, refl, sym,
  ap, subst, arith, ◌==◌, Bool-cases, Member,
}
use grosh.Jobs.Trigger.{
  User, started, is_eligible, claim_reprocess_slot, force_claim_reprocess_slot,
}
use grosh.Jobs.Trigger.Guards.{
  HasStart, IsOver, IsRecent, IsLimited, claim-IsClaimed, IsRecent-ineligible,
}
use grosh.Jobs.Trigger.Bulk.{claim}

-- A row is as it was, or is started.
abbrev pub IsStep : ℕ → User → User → Type 0
IsStep now u v = (v ≡ u) ⊎ (v ≡ started now u)

pub record IsLater (now : ℕ) (users users' : List User) : Type 0 where
  pub back : (v : User) → Member v users' → (u : User) × Member u users × IsStep now u v
  pub forth : (u : User) → Member u users → (v : User) × Member v users' × IsStep now u v

IsStep-trans : (now : ℕ) (u v w : User) → IsStep now u v → IsStep now v w → IsStep now u w
IsStep-trans now u v w h (inl e) = subst (IsStep now u) (sym e) h
IsStep-trans now u v w (inl e) (inr f) = inr (f ∙ ap (started now) e)
IsStep-trans now u v w (inr e) (inr f) = inr (f ∙ ap (started now) e)

pub IsLater-refl : (now : ℕ) (users : List User) → IsLater now users users
IsLater-refl now users = record { back = λ v m. (v, m, inl refl); forth = λ u m. (u, m, inl refl) }

pub IsLater-trans :
    (now : ℕ) (a b c : List User) → IsLater now a b → IsLater now b c → IsLater now a c
IsLater-trans now a b c h k = record {
  back = λ w m.
      let (v, n, e) = k.back w m in
      let (u, o, f) = h.back v n in (u, o, IsStep-trans now u v w f e);
  forth = λ u m.
      let (v, n, e) = h.forth u m in
      let (w, o, f) = k.forth v n in (w, o, IsStep-trans now u v w e f);
}

IsLater-cons :
    (now : ℕ) (u v : User) (users users' : List User)
    → IsStep now u v
    → IsLater now users users'
    → IsLater now (u ∷ users) (v ∷ users')
IsLater-cons now u v users users' step k = record {
  back = λ w m. elim m [
    | inl e ↦ (u, inl refl, subst (IsStep now u) e step)
    | inr n ↦ let (x, o, f) = k.back w n in (x, inr o, f)
  ];
  forth = λ x m. elim m [
    | inl e ↦ (v, inl refl, subst (λ y. IsStep now y v) e step)
    | inr n ↦ let (w, o, f) = k.forth x n in (w, inr o, f)
  ];
}

pub later-HasStart :
    (now : ℕ) (users users' : List User) (user_id : ℕ)
    → IsLater now users users'
    → HasStart users user_id (some now)
    → HasStart users' user_id (some now)
later-HasStart now users users' user_id k (u, m, i, e) =
    let (v, n, step) = k.forth u m in kept v n step
  where
    kept : (v : User) → Member v users' → IsStep now u v → HasStart users' user_id (some now)
    kept v n (inl f) = (v, n, ap (λ x. x.id) f ∙ i, ap (λ x. x.last_reprocess_started_at) f ∙ e)
    kept v n (inr f) = (v, n, ap (λ x. x.id) f ∙ i, ap (λ x. x.last_reprocess_started_at) f)

pub earlier-HasStart :
    (now : ℕ) (users users' : List User) (user_id : ℕ) (last : Option ℕ)
    → IsLater now users users'
    → IsOver now last
    → HasStart users' user_id last
    → HasStart users user_id last
earlier-HasStart now users users' user_id last k over (v, m, i, e) =
    let (u, n, step) = k.back v m in kept u n step
  where
    kept : (u : User) → Member u users → IsStep now u v → HasStart users user_id last
    kept u n (inl f) =
        (u, n, ap (λ x. x.id) (sym f) ∙ i, ap (λ x. x.last_reprocess_started_at) (sym f) ∙ e)
    kept u n (inr f) =
        absurd
          (too_late (subst (IsOver now) (sym e ∙ ap (λ x. x.last_reprocess_started_at) f) over))
      where
        too_late : IsOver now (some now) → ⊥
        too_late h = omega (arith, h)

pub later-IsLimited :
    (now : ℕ) (users users' : List User) (user_id : ℕ)
    → IsLater now users users'
    → IsLimited now users user_id
    → IsLimited now users' user_id
later-IsLimited now users users' user_id k h v m =
    let (u, n, step) = k.back v m in kept u step (h u n)
  where
    kept :
        (u : User)
        → IsStep now u v
        → ((u.id ≢ user_id) ⊎ IsRecent now u.last_reprocess_started_at)
        → (v.id ≢ user_id) ⊎ IsRecent now v.last_reprocess_started_at
    kept u (inl e) l =
        subst (λ x. (x.id ≢ user_id) ⊎ IsRecent now x.last_reprocess_started_at) (sym e) l
    kept u (inr e) l =
        inr (subst (λ x. IsRecent now x.last_reprocess_started_at) (sym e) (omega arith))

pub later-Absent :
    (now : ℕ) (users users' : List User) (user_id : ℕ)
    → IsLater now users users'
    → ((u : User) → Member u users → u.id ≢ user_id)
    → (v : User) → Member v users'
    → v.id ≢ user_id
later-Absent now users users' user_id k h v m =
    let (u, n, step) = k.back v m in λ e. h u n (same u step ∙ e)
  where
    same : (u : User) → IsStep now u v → u.id ≡ v.id
    same u (inl e) = ap (λ x. x.id) (sym e)
    same u (inr e) = ap (λ x. x.id) (sym e)

pub claim-IsLater :
    (force : Bool) (now : ℕ) (users : List User) (user_id : ℕ)
    → IsLater now users (claim force now users user_id).1
unfolding claim_reprocess_slot force_claim_reprocess_slot
claim-IsLater true now [] user_id = IsLater-refl now []
claim-IsLater false now [] user_id = IsLater-refl now []
claim-IsLater true now (u ∷ users) user_id = elim (Bool-cases (u.id == user_id)) [
  | inl e ↦
      rw e (
        IsLater-cons now u (started now u) users _ (inr refl)
          (claim-IsLater true now users user_id))
  | inr e ↦ rw e (IsLater-cons now u u users _ (inl refl) (claim-IsLater true now users user_id))
]
claim-IsLater false now (u ∷ users) user_id =
    elim (Bool-cases (u.id == user_id && is_eligible now u)) [
      | inl e ↦ rw e (
          IsLater-cons now u (started now u) users _ (inr refl)
            (claim-IsLater false now users user_id))
      | inr e ↦
          rw e (IsLater-cons now u u users _ (inl refl) (claim-IsLater false now users user_id))
    ]

-- A claim that is refused finds no row of the user that may start.
pub claim-IsLimited :
    (now : ℕ) (users : List User) (user_id : ℕ)
    → (claim_reprocess_slot now users user_id).0 ≡ false
    → IsLimited now users user_id
unfolding claim_reprocess_slot
claim-IsLimited now [] user_id h = λ u m. elim m [ ]
claim-IsLimited now (u ∷ users) user_id h =
    elim (Bool-cases (u.id == user_id && is_eligible now u)) [
      | inl e ↦ absurd (ground (arith, h, e))
      | inr e ↦
          let rest = claim-IsLimited now users user_id (ground (arith, h, e)) in
          λ v m. elim m [
            | inl same ↦
                subst (λ x. (x.id ≢ user_id) ⊎ IsRecent now x.last_reprocess_started_at) same
                  (limited e)
            | inr n ↦ rest v n
          ]
    ]
  where
    limited :
        (u.id == user_id && is_eligible now u) ≡ false
        → (u.id ≢ user_id) ⊎ IsRecent now u.last_reprocess_started_at
    limited e = elim (Bool-cases (u.id == user_id)) [
      | inl own ↦ inr (IsRecent-ineligible now u (ground (arith, e, own)))
      | inr other ↦ inl (λ same. ground (arith, other, same))
    ]

pub claim-began :
    (now : ℕ) (users : List User) (user_id : ℕ)
    → (claim_reprocess_slot now users user_id).0 ≡ true
    → (last : Option ℕ) × HasStart users user_id last
      × IsOver now last
      × HasStart (claim_reprocess_slot now users user_id).1 user_id (some now)
claim-began now users user_id h = elim (claim-IsClaimed now users user_id).0 [
  | inl e ↦ absurd cc
  | inr k ↦ k
]

pub force-absent :
    (now : ℕ) (users : List User) (user_id : ℕ)
    → (force_claim_reprocess_slot now users user_id).0 ≡ false
    → (u : User) → Member u users
    → u.id ≢ user_id
unfolding force_claim_reprocess_slot
force-absent now [] user_id h v m = elim m [ ]
force-absent now (u ∷ users) user_id h v m = elim (Bool-cases (u.id == user_id)) [
  | inl e ↦ absurd (ground (arith, h, e))
  | inr e ↦ elim m [
    | inl same ↦ λ i. different e (ap (λ x. x.id) same ∙ i)
    | inr n ↦ force-absent now users user_id (ground (arith, h, e)) v n
  ]
]
  where
    different : (u.id == user_id) ≡ false → u.id ≢ user_id
    different e i = ground (arith, e, i)

pub force-began :
    (now : ℕ) (users : List User) (user_id : ℕ)
    → (force_claim_reprocess_slot now users user_id).0 ≡ true
    → HasStart (force_claim_reprocess_slot now users user_id).1 user_id (some now)
unfolding force_claim_reprocess_slot
force-began now [] user_id h = absurd (ground (arith, h))
force-began now (u ∷ users) user_id h = elim (Bool-cases (u.id == user_id)) [
  | inl e ↦ rw e (started now u, inl refl, ground (arith, e), refl)
  | inr e ↦
      let (v, m, i, b) = force-began now users user_id (ground (arith, h, e)) in
      rw e (v, inr m, i, b)
]
