-- ===== src/Auth/Refreshed.antt =====
-- What a refresh that returns has found and done.
use grosh.Prelude.{
  ℕ, String, true, false, Option, none, some, List, [], ◌∷◌, ◌++◌, ◌≡◌, ◌≢◌, ◌∙◌, inl, inr, refl,
  sym, ap, arith, any, ltb, str_eq, str_eq_iff, str_eq_refl, Bool-cases, Member,
}
use grosh.Auth.{
  UserRecord, TokenRecord, Tables, Crypto, Call, Answer, raised, returned, get_by_id, get_by_hash,
  delete_token, create_refresh_token, new_token, session_of, open_session, refresh_for,
  refresh_with, find_token, refresh,
}

pub returned-injective : {A : Type 0} {a b : A} → returned a ≡ returned b → a ≡ b
returned-injective h = cc

pub get_by_hash-Member :
    (tokens : List TokenRecord) (hash : String) (t : TokenRecord)
    → get_by_hash tokens hash ≡ some t
    → Member t tokens × (t.token_hash ≡ hash)
unfolding get_by_hash
get_by_hash-Member [] hash t h = absurd cc
get_by_hash-Member (s ∷ tokens) hash t h = elim (Bool-cases (str_eq s.token_hash hash)) [
  | inl e ↦ found e (ground (arith, e, h))
  | inr e ↦ let (m, same) = get_by_hash-Member tokens hash t (ground (arith, e, h)) in (inr m, same)
]
  where
    found : str_eq s.token_hash hash ≡ true → s ≡ t → Member t (s ∷ tokens) × (t.token_hash ≡ hash)
    found e same =
        (inl same, ap (λ x. x.token_hash) (sym same) ∙ (str_eq_iff s.token_hash hash).0 e)

pub get_by_hash-none :
    (tokens : List TokenRecord) (hash : String)
    → ((t : TokenRecord) → Member t tokens → t.token_hash ≢ hash)
    → get_by_hash tokens hash ≡ none
unfolding get_by_hash
get_by_hash-none [] hash n = refl
get_by_hash-none (s ∷ tokens) hash n = elim (Bool-cases (str_eq s.token_hash hash)) [
  | inl e ↦ absurd (n s (inl refl) ((str_eq_iff s.token_hash hash).0 e))
  | inr e ↦ rw e (get_by_hash-none tokens hash (λ t m. n t (inr m)))
]

pub get_by_hash-last :
    (tokens : List TokenRecord) (t : TokenRecord)
    → any (λ x. str_eq x.token_hash t.token_hash) tokens ≡ false
    → get_by_hash (tokens ++ t ∷ []) t.token_hash ≡ some t
unfolding get_by_hash
get_by_hash-last [] t h = rw (str_eq_refl t.token_hash) refl
get_by_hash-last (s ∷ tokens) t h = ground (arith, h, get_by_hash-last tokens t)

module _ {B : Type 0} (crypto : Crypto B) where
  -- The hash is new, and the session has the token.
  create-parts :
      (call : Call B) (tokens : List TokenRecord) (user_id : ℕ) {raw : String}
      {tokens' : List TokenRecord}
      → create_refresh_token crypto call tokens user_id ≡ returned (raw, tokens')
      → (any (λ t. str_eq t.token_hash (crypto.sha256 call.token_bytes)) tokens ≡ false)
        × (raw ≡ crypto.to_hex call.token_bytes)
        × (tokens' ≡ tokens ++ new_token crypto call user_id ∷ [])
  unfolding create_refresh_token
  create-parts call tokens user_id h = ground arith

  -- What a refresh that returns has found and done.
  pub record IsRefreshed (call : Call B) (db : Tables) (raw : String) (new_raw : String)
      (db' : Tables) : Type 0 where
    pub token : TokenRecord
    pub user : UserRecord
    pub found : find_token crypto db raw ≡ some token
    pub in_time : ltb token.expires_at call.now ≡ false
    pub owner : get_by_id db.users token.user_id ≡ some user
    pub active : user.is_active ≡ true
    pub new_hash :
        any
          (λ t. str_eq t.token_hash (crypto.sha256 call.token_bytes))
          (delete_token db.refresh_tokens token.id)
        ≡ false
    pub raw_text : new_raw ≡ crypto.to_hex call.token_bytes
    pub tokens :
        db'.refresh_tokens
        ≡ delete_token db.refresh_tokens token.id ++ new_token crypto call user.id ∷ []

  pub refresh-IsRefreshed :
      (call : Call B) (db : Tables) (raw : String) {access new_raw : String} {db' : Tables}
      → refresh crypto call db raw ≡ returned ((access, new_raw), db')
      → IsRefreshed call db raw new_raw db'
  unfolding refresh
  refresh-IsRefreshed call db raw {access} {new_raw} {db'} h =
      with_token (find_token crypto db raw) refl h
    where
      result : Answer ((String × String) × Tables)
      result = returned ((access, new_raw), db')

      with_session :
          (token : TokenRecord) (user : UserRecord) (c : Answer (String × List TokenRecord))
          → find_token crypto db raw ≡ some token
          → ltb token.expires_at call.now ≡ false
          → get_by_id db.users token.user_id ≡ some user
          → user.is_active ≡ true
          → create_refresh_token crypto call (delete_token db.refresh_tokens token.id) user.id ≡ c
          → session_of crypto call db user.id c ≡ result
          → IsRefreshed call db raw new_raw db'
      with_session token user (raised e) f t o a c h = absurd cc
      with_session token user (returned (r, tokens')) f t o a c h =
          let (new, text, all_tokens) =
            create-parts call (delete_token db.refresh_tokens token.id) user.id c in
          record {
            token = token;
            user = user;
            found = f;
            in_time = t;
            owner = o;
            active = a;
            new_hash = new;
            raw_text = sym (raw_of h) ∙ text;
            tokens = sym (tokens_of h) ∙ all_tokens;
          }
        where
          raw_of : session_of crypto call db user.id (returned (r, tokens')) ≡ result → r ≡ new_raw
          raw_of h = cc

          tokens_of :
              session_of crypto call db user.id (returned (r, tokens')) ≡ result
              → tokens' ≡ db'.refresh_tokens
          tokens_of h = ap (λ p. p.1.refresh_tokens) (returned-injective h)

      with_user :
          (token : TokenRecord) (u : Option UserRecord)
          → find_token crypto db raw ≡ some token
          → ltb token.expires_at call.now ≡ false
          → get_by_id db.users token.user_id ≡ u
          → refresh_for crypto call db token u ≡ result
          → IsRefreshed call db raw new_raw db'
      with_user token none f t o h = absurd cc
      with_user token (some user) f t o h = elim (Bool-cases user.is_active) [
        | inl a ↦ with_session token user _ f t o a refl (opened a h)
        | inr a ↦ absurd (closed a h)
      ]
        where
          opened :
              user.is_active ≡ true
              → refresh_for crypto call db token (some user) ≡ result
              → open_session crypto call db (delete_token db.refresh_tokens token.id) user.id
                ≡ result
          opened a h = ground (arith, a, h)

          closed :
              user.is_active ≡ false → refresh_for crypto call db token (some user) ≡ result → ⊥
          closed a h = ground (arith, a, h)

      with_token :
          (t : Option TokenRecord)
          → find_token crypto db raw ≡ t
          → refresh_with crypto call db t ≡ result
          → IsRefreshed call db raw new_raw db'
      with_token none f h = absurd cc
      with_token (some token) f h = elim (Bool-cases (ltb token.expires_at call.now)) [
        | inl late ↦ absurd (expired late h)
        | inr t ↦ with_user token _ f t refl (fresh t h)
      ]
        where
          expired :
              ltb token.expires_at call.now ≡ true
              → refresh_with crypto call db (some token) ≡ result
              → ⊥
          expired late h = ground (arith, late, h)

          fresh :
              ltb token.expires_at call.now ≡ false
              → refresh_with crypto call db (some token) ≡ result
              → refresh_for crypto call db token (get_by_id db.users token.user_id) ≡ result
          fresh t h = ground (arith, t, h)
          -- Where the bytes of a token that was found differ in their hash from the new ones.
