-- ===== src/Staging/Routes.antt =====
-- The two branches of `_route`.
use grosh.Prelude.{
  ℕ, Bool, true, false, List, [], ◌∷◌, ◌++◌, ◌≡◌, ◌∙◌, ◌⊎◌, inl, inr, sym, ap, Bool-cases,
  if◌then◌else◌,
}
use grosh.Domain.{NormalizedTransaction, Result, ok, ◌>>=◌, >>=-eq-ok, ok-injective}
use grosh.Kafka.{Broker, produce}
use grosh.Staging.{Store, route, insert_staged, lock_exists}
use grosh.Staging.Drain.Order.{produce-append}

module _ {P : Type 0} (dump : NormalizedTransaction → P) where
  -- The event was handed to the producer, or a new row holds it; nothing else has changed.
  pub route-cases :
      (broker : Broker) (id now : ℕ) (db : Store P) (tx : NormalizedTransaction) {db' : Store P}
      → route dump broker id now db tx ≡ ok db'
      → ((lock_exists db tx.user_id ≡ true) × (db' ≡ insert_staged db id now tx.user_id (dump tx)))
        ⊎ ((lock_exists db tx.user_id ≡ false)
            × (db' ≡ record db { published = db.published ++ tx ∷ [] }))
  unfolding route
  route-cases broker id now db tx {db'} h = elim (Bool-cases (lock_exists db tx.user_id)) [
    | inl e ↦ inl (e, sym (staged_lem e h))
    | inr e ↦
        let (published, taken, same) =
          >>=-eq-ok (produce broker db.published tx) keep (published_lem e h) in
        inr (
          e,
          sym (ok-injective same)
              ∙ ap (λ p. record db { published = p }) (produce-append broker db.published tx taken),
        )
  ]
    where
      keep : List NormalizedTransaction → Result (Store P)
      keep published = ok (record db { published = published })

      branches : Bool → Result (Store P)
      branches locked =
          if locked
          then ok (insert_staged db id now tx.user_id (dump tx))
          else produce broker db.published tx >>= keep

      staged_lem :
          lock_exists db tx.user_id ≡ true
          → branches (lock_exists db tx.user_id) ≡ ok db'
          → insert_staged db id now tx.user_id (dump tx) ≡ db'
      staged_lem e h = ok-injective (ap branches (sym e) ∙ h)

      published_lem :
          lock_exists db tx.user_id ≡ false
          → branches (lock_exists db tx.user_id) ≡ ok db'
          → (produce broker db.published tx >>= keep) ≡ ok db'
      published_lem e h = ap branches (sym e) ∙ h
