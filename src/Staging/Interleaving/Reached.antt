-- ===== src/Staging/Interleaving/Reached.antt =====
-- Every system that the steps reach keeps its routed events.
use grosh.Prelude.{
  ℕ, Option, some, List, [], ◌∷◌, ◌++◌, ◌≡◌, ◌≢◌, ◌∙◌, ◌⊎◌, inl, inr, refl, sym, ap, Member,
  Member-append_left, Member-append_right, Member-append_cases,
}
use grosh.Domain.{NormalizedTransaction}
use grosh.Staging.{StagedRow, Store, insert_staged}
use grosh.Staging.Routes.{route-cases}
use grosh.Staging.Drain.Users.{HasKey}
use grosh.Staging.Interleaving.{
  Task, publishing, deleting, System, IsFresh, Step, routes, begins, publishes, deletes, stops,
  locks, Reach, here, next,
}
use grosh.Staging.Interleaving.Kept.{
  IsKept, IsHeld, IsSound, HoldsRows, begun-IsKept, published-IsKept, deleted-IsKept,
  stopped-IsKept, later-IsSound,
}

module _ {P : Type 0} (dump : NormalizedTransaction → P)
    (validate : P → Option NormalizedTransaction) where
  staged-IsKept :
      (s : System P) (id now : ℕ) (tx : NormalizedTransaction)
      → validate (dump tx) ≡ some tx
      → IsFresh id s
      → IsKept validate s
      → IsKept validate
          (record s { db = insert_staged s.db id now tx.user_id (dump tx); routed = tx ∷ s.routed })
  unfolding insert_staged
  staged-IsKept s id now tx round fresh k = record {
    held = λ x m. elim m [
      | inl e ↦ inr (
        row,
        Member-append_right row s.db.staged (row ∷ []) (inl refl),
        round ∙ ap (λ y. some y) e,
      )
      | inr n ↦ elim (k.held x n) [
        | inl q ↦ inl q
        | inr (r, q, v) ↦ inr (r, Member-append_left r s.db.staged (row ∷ []) q, v)
      ]
    ];
    key = λ a b m n e. elim (old_or_new a m) [
      | inl m' ↦ elim (old_or_new b n) [
        | inl n' ↦ k.key a b m' n' e
        | inr n' ↦ absurd (fresh.staged a m' (e ∙ ap (λ r. r.id) (sym n')))
      ]
      | inr m' ↦ elim (old_or_new b n) [
        | inl n' ↦ absurd (fresh.staged b n' (sym e ∙ ap (λ r. r.id) (sym m')))
        | inr n' ↦ sym m' ∙ n'
      ]
    ];
    sound = λ task m. sound task m (k.sound task m);
  }
    where
      row : StagedRow P
      row = record { id = id; user_id = tx.user_id; payload = dump tx; created_at = now }

      db' : Store P
      db' = record s.db { staged = s.db.staged ++ row ∷ [] }

      old_or_new :
          (r : StagedRow P) → Member r (s.db.staged ++ row ∷ []) → Member r s.db.staged ⊎ (row ≡ r)
      old_or_new r m = elim (Member-append_cases r s.db.staged (row ∷ []) m) [
        | inl n ↦ inl n
        | inr (inl e) ↦ inr e
        | inr (inr n) ↦ elim n [ ]
      ]

      holds :
          (rows : List (StagedRow P))
          → ((r : StagedRow P) → Member r rows → r.id ≢ id)
          → HoldsRows s.db rows
          → HoldsRows db' rows
      holds rows other h a m b n e = elim (old_or_new b n) [
        | inl n' ↦ h a m b n' e
        | inr n' ↦ absurd (other a m (sym e ∙ ap (λ r. r.id) (sym n')))
      ]

      sound :
          (task : Task P)
          → Member task s.tasks
          → IsSound validate s.db task
          → IsSound validate db' task
      sound (publishing rows) m h = holds rows (fresh.held (publishing rows) m) h
      sound (deleting r rows) m h = (holds (r ∷ rows) (fresh.held (deleting r rows) m) h.0, h.1)

  routed-IsKept :
      (s : System P) (tx : NormalizedTransaction)
      → IsKept validate s
      → IsKept validate (record s {
        db = record s.db { published = s.db.published ++ tx ∷ [] };
        routed = tx ∷ s.routed;
      })
  routed-IsKept s tx k = record {
    held = λ x m. elim m [
      | inl e ↦ inl (Member-append_right x s.db.published (tx ∷ []) (inl e))
      | inr n ↦ elim (k.held x n) [
        | inl q ↦ inl (Member-append_left x s.db.published (tx ∷ []) q)
        | inr q ↦ inr q
      ]
    ];
    key = k.key;
    sound = λ task m.
        later-IsSound validate s.db (record s.db { published = s.db.published ++ tx ∷ [] })
          (λ r n. n) (λ x n. Member-append_left x s.db.published (tx ∷ []) n) task (k.sound task m);
  }

  Step-IsKept :
      ((tx : NormalizedTransaction) → validate (dump tx) ≡ some tx)
      → {s s' : System P} → Step dump validate s s'
      → IsKept validate s
      → IsKept validate s'
  Step-IsKept round {s} (routes broker id now tx db fresh h e) k =
      rw e (elim (route-cases dump broker id now s.db tx h) [
        | inl (_, whole) ↦ rw whole (staged-IsKept s id now tx (round tx) fresh k)
        | inr (_, whole) ↦ rw whole (routed-IsKept s tx k)
      ])
  Step-IsKept round {s} (begins user_id e) k = rw e (begun-IsKept validate s user_id k)
  Step-IsKept round {s} (publishes broker before after row rows tx published t v p e) k =
      rw e (published-IsKept validate s broker before after row rows tx published t v p k)
  Step-IsKept round {s} (deletes before after row rows t e) k =
      rw e (deleted-IsKept validate s before after row rows t k)
  Step-IsKept round {s} (stops before after task t e) k =
      rw e (stopped-IsKept validate s before after task t k)
  Step-IsKept round {s} (locks users e) k =
      rw e (record { held = k.held; key = k.key; sound = k.sound })

  Reach-IsKept :
      ((tx : NormalizedTransaction) → validate (dump tx) ≡ some tx)
      → {s s' : System P} → IsKept validate s
      → Reach dump validate s s'
      → IsKept validate s'
  Reach-IsKept round k here = k
  Reach-IsKept round k (next r st) = Step-IsKept round st (Reach-IsKept round k r)

  -- Where a payload is read back as the event that it was made of, and the staged rows that there are
  -- at first have distinct ids: whichever drains of one or of several users overlap, fail, or are
  -- cancelled between a publication and its delete, while events are routed and locks are taken and
  -- released, each event that the consumer has routed is staged, or was handed to the producer.
  pub Reach-IsHeld :
      ((tx : NormalizedTransaction) → validate (dump tx) ≡ some tx)
      → (db : Store P) → HasKey db.staged
      → {s : System P} → Reach dump validate (record { db = db; tasks = []; routed = [] }) s
      → (tx : NormalizedTransaction) → Member tx s.routed
      → IsHeld validate s.db tx
  Reach-IsHeld round db key r = (Reach-IsKept round start r).held
    where
      start : IsKept validate (record { db = db; tasks = []; routed = [] })
      start = record { held = λ tx m. elim m [ ]; key = key; sound = λ task m. elim m [ ] }
