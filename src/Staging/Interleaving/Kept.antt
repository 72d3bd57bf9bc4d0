-- ===== src/Staging/Interleaving/Kept.antt =====
-- No routed event is lost between its staging and its publication.
use grosh.Prelude.{
  ℕ, not, Option, some, List, [], ◌∷◌, ◌++◌, ◌≡◌, ◌∙◌, ◌⊎◌, inl, inr, refl, sym, ap, subst, arith,
  filter, Bool-cases, ◌==◌, Member, Member-append_left, Member-append_right, Member-append_cases,
  Member-filter, filter-Member,
}
use grosh.Domain.{NormalizedTransaction, ok}
use grosh.Kafka.{Broker, produce}
use grosh.Staging.{StagedRow, Store, select_staged_for_user, delete_staged}
use grosh.Staging.Drain.Order.{produce-append}
use grosh.Staging.Drain.Rows.{Member-select}
use grosh.Staging.Drain.Users.{HasKey}
use grosh.Staging.Interleaving.{Task, publishing, deleting, System}

module _ {P : Type 0} where
  -- A staged row with the id of one of the rows is that row.
  abbrev pub HoldsRows : Store P → List (StagedRow P) → Type 0
  HoldsRows db rows =
      (a : StagedRow P)
      → Member a rows
      → (b : StagedRow P) → Member b db.staged
      → b.id ≡ a.id
      → a ≡ b

  module _ (validate : P → Option NormalizedTransaction) where
    abbrev pub WasPublished : Store P → StagedRow P → Type 0
    WasPublished db row =
        (tx : NormalizedTransaction) → validate row.payload ≡ some tx → Member tx db.published

    abbrev pub IsSound : Store P → Task P → Type 0
    IsSound db (publishing rows) = HoldsRows db rows
    IsSound db (deleting row rows) = HoldsRows db (row ∷ rows) × WasPublished db row

    -- The event was published, or a staged row holds it.
    abbrev pub IsHeld : Store P → NormalizedTransaction → Type 0
    IsHeld db tx =
        Member tx db.published
        ⊎ (row : StagedRow P) × Member row db.staged × (validate row.payload ≡ some tx)

    -- Each routed event is held, and each drain knows its rows.
    pub record IsKept (s : System P) : Type 0 where
      pub held : (tx : NormalizedTransaction) → Member tx s.routed → IsHeld s.db tx
      pub key : HasKey s.db.staged
      pub sound : (task : Task P) → Member task s.tasks → IsSound s.db task

    -- Staged rows that go and published events that come.
    module _ (db db' : Store P)
        (staged : (row : StagedRow P) → Member row db'.staged → Member row db.staged)
        (published : (tx : NormalizedTransaction)
          → Member tx db.published
          → Member tx db'.published) where
      pub later-IsSound : (task : Task P) → IsSound db task → IsSound db' task
      later-IsSound (publishing rows) h = λ a m b n e. h a m b (staged b n) e
      later-IsSound (deleting row rows) h =
          (λ a m b n e. h.0 a m b (staged b n) e, λ tx e. published tx (h.1 tx e))

      pub later-HasKey : HasKey db.staged → HasKey db'.staged
      later-HasKey key a b m n e = key a b (staged a m) (staged b n) e

    replaced :
        (before after : List (Task P)) (old new task : Task P)
        → Member task (before ++ new ∷ after)
        → (new ≡ task) ⊎ Member task (before ++ old ∷ after)
    replaced before after old new task m = elim (Member-append_cases task before (new ∷ after) m) [
      | inl n ↦ inr (Member-append_left task before (old ∷ after) n)
      | inr (inl e) ↦ inl e
      | inr (inr n) ↦ inr (Member-append_right task before (old ∷ after) (inr n))
    ]

    removed :
        (before after : List (Task P)) (old task : Task P)
        → Member task (before ++ after)
        → Member task (before ++ old ∷ after)
    removed before after old task m = elim (Member-append_cases task before after m) [
      | inl n ↦ Member-append_left task before (old ∷ after) n
      | inr n ↦ Member-append_right task before (old ∷ after) (inr n)
    ]

    chosen : (before after : List (Task P)) (old : Task P) → Member old (before ++ old ∷ after)
    chosen before after old = Member-append_right old before (old ∷ after) (inl refl)

    same_event :
        (row : StagedRow P) {a b : NormalizedTransaction}
        → validate row.payload ≡ some a
        → validate row.payload ≡ some b
        → a ≡ b
    same_event row h k = cc (h, k)

    pub begun-IsKept :
        (s : System P) (user_id : ℕ)
        → IsKept s
        → IsKept (record s { tasks = publishing (select_staged_for_user s.db user_id) ∷ s.tasks })
    begun-IsKept s user_id k = record {
      held = k.held;
      key = k.key;
      sound = λ task m. elim m [
        | inl e ↦
            subst (IsSound s.db) e
              (λ a n b n' same. k.key a b (Member-select s.db user_id a n).0 n' (sym same))
        | inr n ↦ k.sound task n
      ];
    }

    pub published-IsKept :
        (s : System P) (broker : Broker) (before after : List (Task P)) (row : StagedRow P)
        (rows : List (StagedRow P)) (tx : NormalizedTransaction)
        (published : List NormalizedTransaction)
        → s.tasks ≡ before ++ publishing (row ∷ rows) ∷ after
        → validate row.payload ≡ some tx
        → produce broker s.db.published tx ≡ ok published
        → IsKept s
        → IsKept (record s {
          db = record s.db { published = published };
          tasks = before ++ deleting row rows ∷ after;
        })
    published-IsKept s broker before after row rows tx published e read taken k = record {
      held = λ x m. elim (k.held x m) [ inl n ↦ inl (more x n) | inr (r, n, v) ↦ inr (r, n, v) ];
      key = k.key;
      sound = λ task m.
          elim (replaced before after (publishing (row ∷ rows)) (deleting row rows) task m) [
            | inl same ↦ subst (IsSound db') same (holds, was_published)
            | inr n ↦ later task (k.sound task (subst (Member task) (sym e) n))
          ];
    }
      where
        db' : Store P
        db' = record s.db { published = published }

        more : (x : NormalizedTransaction) → Member x s.db.published → Member x published
        more x n =
            subst (Member x) (sym (produce-append broker s.db.published tx taken))
              (Member-append_left x s.db.published (tx ∷ []) n)

        holds : HoldsRows s.db (row ∷ rows)
        holds = k.sound (publishing (row ∷ rows)) (
            subst (Member (publishing (row ∷ rows))) (sym e)
              (chosen before after (publishing (row ∷ rows))))

        was_published : WasPublished db' row
        was_published x v =
            subst (Member x) (sym (produce-append broker s.db.published tx taken))
              (Member-append_right x s.db.published (tx ∷ []) (inl (same_event row read v)))

        later : (task : Task P) → IsSound s.db task → IsSound db' task
        later = later-IsSound s.db db' (λ r m. m) more

    pub deleted-IsKept :
        (s : System P) (before after : List (Task P)) (row : StagedRow P)
        (rows : List (StagedRow P))
        → s.tasks ≡ before ++ deleting row rows ∷ after
        → IsKept s
        → IsKept
            (record s { db = delete_staged s.db row.id; tasks = before ++ publishing rows ∷ after })
    unfolding delete_staged
    deleted-IsKept s before after row rows e k = record {
      held = λ x m. elim (k.held x m) [
        | inl n ↦ inl n
        | inr (r, n, v) ↦ elim (Bool-cases (r.id == row.id)) [
          | inl same ↦
              let equal = sound.0 row (inl refl) r n (ground (arith, same)) in
              inl (sound.1 x (ap (λ q. validate q.payload) equal ∙ v))
          | inr other ↦
              inr (r, filter-Member r (λ q. not (q.id == row.id)) s.db.staged n (rw other refl), v)
        ]
      ];
      key = later-HasKey s.db db' less (λ x n. n) k.key;
      sound = λ task m. elim (replaced before after (deleting row rows) (publishing rows) task m) [
        | inl same ↦ subst (IsSound db') same (λ a n b n' h. sound.0 a (inr n) b (less b n') h)
        | inr n ↦
            later-IsSound s.db db' less (λ x n'. n') task
              (k.sound task (subst (Member task) (sym e) n))
      ];
    }
      where
        db' : Store P
        db' = record s.db { staged = filter (λ r. not (r.id == row.id)) s.db.staged }

        less : (r : StagedRow P) → Member r db'.staged → Member r s.db.staged
        less r m = (Member-filter r (λ q. not (q.id == row.id)) s.db.staged m).0

        sound : IsSound s.db (deleting row rows)
        sound =
            k.sound (deleting row rows)
              (subst (Member (deleting row rows)) (sym e) (chosen before after (deleting row rows)))

    pub stopped-IsKept :
        (s : System P) (before after : List (Task P)) (task : Task P)
        → s.tasks ≡ before ++ task ∷ after
        → IsKept s
        → IsKept (record s { tasks = before ++ after })
    stopped-IsKept s before after task e k = record {
      held = k.held;
      key = k.key;
      sound = λ t m. k.sound t (subst (Member t) (sym e) (removed before after task t m));
    }
