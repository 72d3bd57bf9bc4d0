-- ===== src/Reprocess/Ids.antt =====
-- Which ids the inserts of a restore and the verification of a snapshot leave stored.
use grosh.Prelude.{ℕ, true, List, [], ◌∷◌, ◌≡◌, subst, inl, inr, Bool-cases, map, arith}
use grosh.Domain.{Transaction, ok, >>=-eq-ok, ok-injective}
use grosh.Transfer.Queries.{transaction_exists}
use grosh.Enrichment.{insert}
use grosh.Enrichment.Parts.{exists_insert, insert-keeps}
use grosh.Reprocess.{is_present, verify_snapshot, insert_all, is_empty_list}

-- Every listed id is stored.
abbrev pub HasIds : List Transaction → List ℕ → Type 0
HasIds rows [] = Unit
HasIds rows (i ∷ ids) = (transaction_exists rows i ≡ true) × HasIds rows ids

insert_all-keeps :
    (rows snapshot : List Transaction) {rows' : List Transaction} (i : ℕ)
    → insert_all rows snapshot ≡ ok rows'
    → transaction_exists rows i ≡ true
    → transaction_exists rows' i ≡ true
unfolding insert_all
insert_all-keeps rows [] i h k = subst (λ rs. transaction_exists rs i ≡ true) (ok-injective h) k
insert_all-keeps rows (tx ∷ snapshot) i h k =
    let (rows₁, stored, rest) = >>=-eq-ok (insert rows tx) (λ rs. insert_all rs snapshot) h in
    insert_all-keeps rows₁ snapshot i rest (insert-keeps rows tx i stored k)

-- Inserting a snapshot stores each of its ids.
pub insert_all-HasIds :
    (rows snapshot : List Transaction) {rows' : List Transaction}
    → insert_all rows snapshot ≡ ok rows'
    → HasIds rows' (map (λ row. row.id) snapshot)
unfolding insert_all
insert_all-HasIds rows [] h = tt
insert_all-HasIds rows (tx ∷ snapshot) h =
    let (rows₁, stored, rest) = >>=-eq-ok (insert rows tx) (λ rs. insert_all rs snapshot) h in
    (
      insert_all-keeps rows₁ snapshot tx.id rest (exists_insert rows tx stored),
      insert_all-HasIds rows₁ snapshot rest,
    )

is_present-exists :
    (rows : List Transaction) (user_id i : ℕ)
    → is_present rows user_id i ≡ true
    → transaction_exists rows i ≡ true
unfolding transaction_exists
is_present-exists [] user_id i h = h
is_present-exists (r ∷ rows) user_id i h = ground (arith, is_present-exists rows user_id i)

-- A verification that finds nothing missing.
pub verify_snapshot-HasIds :
    (rows : List Transaction) (user_id : ℕ) (ids : List ℕ)
    → is_empty_list (verify_snapshot rows user_id ids) ≡ true
    → HasIds rows ids
unfolding verify_snapshot
verify_snapshot-HasIds rows user_id [] h = tt
verify_snapshot-HasIds rows user_id (i ∷ ids) h = elim (Bool-cases (is_present rows user_id i)) [
  | inl e ↦ (
    is_present-exists rows user_id i e,
    verify_snapshot-HasIds rows user_id ids (ground (arith, e, h)),
  )
  | inr e ↦ absurd (ground (arith, e, h))
]
