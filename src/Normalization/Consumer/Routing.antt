-- ===== src/Normalization/Consumer/Routing.antt =====
-- Where the events of the loop go.
use grosh.Prelude.{
  ℕ, Bool, true, false, not, Option, none, some, List, [], ◌∷◌, ◌++◌, ◌≡◌, ◌∙◌, ◌⊎◌, inl, inr, refl,
  sym, ap, arith, map, filter, any, ◌==◌, lookup, append_nil, append_assoc, filter-append,
  map-append,
}
use grosh.Domain.{NormalizedTransaction, Result, ok, raise}
use grosh.Backfill.{Envelope}
use grosh.Staging.{Store, route, lock_exists, insert_staged}
use grosh.Staging.Routes.{route-cases}
use grosh.Normalization.{Outside}
use grosh.Normalization.Consumer.{
  Normalizer, normalizer_registry, Handled, undecodable, unknown_source, not_normalized, not_routed,
  routed, Turn, try_route, conclude, route_normalized, dispatch, handle_message, consume,
}

-- The events among the outcomes.
abbrev pub events_of : List Handled → List NormalizedTransaction
events_of [] = []
events_of (routed tx ∷ handled) = tx ∷ events_of handled
events_of (_ ∷ handled) = events_of handled

abbrev pub payloads : {P : Type 0} → Store P → List P
payloads db = map (λ row. row.payload) db.staged

module _ {P : Type 0} (dump : NormalizedTransaction → P) where
  -- The events were split by the locks of their users, each part in its order.
  abbrev pub IsSplit : Store P → List NormalizedTransaction → Store P → Type 0
  IsSplit db events db' =
      (db'.published ≡ db.published ++ filter (λ tx. not (lock_exists db tx.user_id)) events)
      × (payloads db' ≡ payloads db ++ map dump (filter (λ tx. lock_exists db tx.user_id) events))
      × (db'.locks ≡ db.locks)

  nothing-IsSplit : (db : Store P) → IsSplit db [] db
  nothing-IsSplit db = (sym (append_nil db.published), sym (append_nil (payloads db)), refl)

  -- An outcome is routed by a turn, or changes nothing.
  abbrev IsCase : Turn → Store P → Handled × Store P → Type 0
  IsCase turn db out =
      ((events_of (out.0 ∷ []) ≡ []) × (out.1 ≡ db))
      ⊎ (tx : NormalizedTransaction) × (events_of (out.0 ∷ []) ≡ tx ∷ [])
        × (try_route dump turn db tx ≡ ok out.1)

  conclude-IsCase :
      (turn : Turn) (db : Store P) (tx : NormalizedTransaction) (r : Result (Store P))
      → try_route dump turn db tx ≡ r
      → IsCase turn db (conclude dump db tx r)
  conclude-IsCase turn db tx (raise e) h = inl (refl, refl)
  conclude-IsCase turn db tx (ok db') h = inr (tx, refl, h)

  route_normalized-IsCase :
      (turn : Turn) (db : Store P) (r : Result NormalizedTransaction)
      → IsCase turn db (route_normalized dump turn db r)
  route_normalized-IsCase turn db (raise e) = inl (refl, refl)
  route_normalized-IsCase turn db (ok tx) =
      conclude-IsCase turn db tx (try_route dump turn db tx) refl

  dispatch-IsCase :
      {A : Type 0} (turn : Turn) (db : Store P) (envelope : Envelope A)
      (normalizer : Option (Normalizer A))
      → IsCase turn db (dispatch dump turn db envelope normalizer)
  dispatch-IsCase turn db envelope none = inl (refl, refl)
  dispatch-IsCase turn db envelope (some normalize) =
      route_normalized-IsCase turn db (normalize envelope)

  connected :
      (turn : Turn) (db : Store P) (tx : NormalizedTransaction) {db' : Store P}
      → try_route dump turn db tx ≡ ok db'
      → route dump turn.broker turn.id turn.now db tx ≡ ok db'
  connected turn db tx h = ground arith

  staged-IsSplit :
      (db : Store P) (id now : ℕ) (tx : NormalizedTransaction)
      → lock_exists db tx.user_id ≡ true
      → IsSplit db (tx ∷ []) (insert_staged db id now tx.user_id (dump tx))
  unfolding insert_staged
  staged-IsSplit db id now tx e =
      rw e (sym (append_nil db.published), map-append (λ row. row.payload) db.staged _, refl)

  published-IsSplit :
      (db : Store P) (tx : NormalizedTransaction)
      → lock_exists db tx.user_id ≡ false
      → IsSplit db (tx ∷ []) (record db { published = db.published ++ tx ∷ [] })
  published-IsSplit db tx e = rw e (refl, sym (append_nil (payloads db)), refl)

  try_route-IsSplit :
      (turn : Turn) (db : Store P) (tx : NormalizedTransaction) {db' : Store P}
      → try_route dump turn db tx ≡ ok db'
      → IsSplit db (tx ∷ []) db'
  try_route-IsSplit turn db tx h =
      elim (route-cases dump turn.broker turn.id turn.now db tx (connected turn db tx h)) [
        | inl (e, same) ↦ rw same (staged-IsSplit db turn.id turn.now tx e)
        | inr (e, same) ↦ rw same (published-IsSplit db tx e)
      ]

  case-IsSplit :
      (turn : Turn) (db : Store P) (out : Handled × Store P)
      → IsCase turn db out
      → IsSplit db (events_of (out.0 ∷ [])) out.1
  case-IsSplit turn db out (inl (no_event, same)) = rw (no_event, same) (nothing-IsSplit db)
  case-IsSplit turn db out (inr (tx, one, h)) = rw one (try_route-IsSplit turn db tx h)

  joined-IsSplit :
      (db₁ db₂ db₃ : Store P) (xs ys : List NormalizedTransaction)
      → IsSplit db₁ xs db₂
      → IsSplit db₂ ys db₃
      → IsSplit db₁ (xs ++ ys) db₃
  unfolding lock_exists
  joined-IsSplit db₁ db₂ db₃ xs ys (p, s, l) (p', s', l') = (
    appended db₁.published _ _ p
        (p' ∙ ap (λ k. db₂.published ++ filter (λ tx. not (locked k tx)) ys) l)
        (filter-append (λ tx. not (locked db₁.locks tx)) xs ys),
    appended (payloads db₁) _ _ s (s' ∙ ap (λ k. payloads db₂ ++ map dump (filter (locked k) ys)) l)
        (ap (map dump) (filter-append (locked db₁.locks) xs ys)
          ∙ map-append dump (filter (locked db₁.locks) xs) (filter (locked db₁.locks) ys)),
    l' ∙ l,
  )
    where
      locked : List ℕ → NormalizedTransaction → Bool
      locked locks tx = any (λ u. u == tx.user_id) locks

      appended :
          {B : Type 0} (a₁ u v : List B) {a₂ a₃ w : List B}
          → a₂ ≡ a₁ ++ u
          → a₃ ≡ a₂ ++ v
          → w ≡ u ++ v
          → a₃ ≡ a₁ ++ w
      appended a₁ u v h h' k =
          h' ∙ ap (λ l. l ++ v) h ∙ append_assoc a₁ u v ∙ ap (λ l. a₁ ++ l) (sym k)

  events-cons :
      (h : Handled) (handled : List Handled)
      → events_of (h ∷ handled) ≡ events_of (h ∷ []) ++ events_of handled
  events-cons undecodable handled = refl
  events-cons unknown_source handled = refl
  events-cons (not_normalized e) handled = refl
  events-cons (not_routed e) handled = refl
  events-cons (routed tx) handled = refl

  module _ {A : Type 0} {M : Type 0} (outside : Outside A) (decode : M → Option (Envelope A)) where
    handle_message-IsSplit :
        (turn : Turn) (db : Store P) (m : M)
        → IsSplit db
            (events_of ((handle_message outside decode dump turn db m).0 ∷ []))
            (handle_message outside decode dump turn db m).1
    unfolding handle_message
    handle_message-IsSplit turn db m = decoded (decode m)
      where
        handled : Option (Envelope A) → Handled × Store P
        handled none = (undecodable, db)
        handled (some envelope) =
            dispatch dump turn db envelope (lookup envelope.source (normalizer_registry outside))

        decoded :
            (e : Option (Envelope A)) → IsSplit db (events_of ((handled e).0 ∷ [])) (handled e).1
        decoded none = nothing-IsSplit db
        decoded (some envelope) =
            case-IsSplit turn db
              (dispatch dump turn db envelope
                (lookup envelope.source (normalizer_registry outside)))
              (dispatch-IsCase turn db envelope
                (lookup envelope.source (normalizer_registry outside)))

    -- However the messages of a loop end (an envelope that cannot be read, an unknown source, a
    -- normalizer or a routing that raises), each event that was routed went to exactly one place: the
    -- events of users without a lock were handed to the producer, those of users with one were
    -- appended to the staging table, both in the order of the messages; no other row and no lock
    -- changed.
    pub consume-IsSplit :
        (db : Store P) (messages : List (Turn × M))
        → IsSplit db
            (events_of (consume outside decode dump db messages).0)
            (consume outside decode dump db messages).1
    unfolding consume
    consume-IsSplit db [] = nothing-IsSplit db
    consume-IsSplit db ((turn, m) ∷ messages) =
        let out = handle_message outside decode dump turn db m in
        let rest = consume outside decode dump out.1 messages in
        rw (events-cons out.0 rest.0) (
          joined-IsSplit db out.1 rest.1 (events_of (out.0 ∷ [])) (events_of rest.0)
            (handle_message-IsSplit turn db m) (consume-IsSplit out.1 messages))
