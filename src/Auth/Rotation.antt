-- ===== src/Auth/Rotation.antt =====
-- A refresh token is good for one refresh.
use grosh.Prelude.{
  String, true, false, not, none, some, List, [], ◌∷◌, ◌++◌, ◌≡◌, ◌≢◌, ◌∙◌, inl, inr, sym, ap,
  arith, filter, ◌==◌, ltb, Option-cases, Member, Member-filter, Member-append_cases,
}
use grosh.Auth.{
  UserRecord, TokenRecord, Tables, Crypto, Call, session_expired, raised, returned, get_by_id,
  get_by_hash, delete_token, new_token, refresh_with, looked_up, find_token, refresh,
}
use grosh.Auth.Refreshed.{
  get_by_hash-Member, get_by_hash-none, get_by_hash-last, IsRefreshed, refresh-IsRefreshed,
}

-- Tokens of one hash are one token, as the unique constraint says.
abbrev pub HasKey : List TokenRecord → Type 0
HasKey tokens =
    (a b : TokenRecord) → Member a tokens → Member b tokens → a.token_hash ≡ b.token_hash → a ≡ b

module _ {B : Type 0} (crypto : Crypto B) where
  used_up :
      (call : Call B) (db : Tables) (raw new_raw : String) (db' : Tables) (bytes : B)
      → HasKey db.refresh_tokens
      → crypto.from_hex raw ≡ some bytes
      → crypto.sha256 bytes ≢ crypto.sha256 call.token_bytes
      → IsRefreshed crypto call db raw new_raw db'
      → get_by_hash db'.refresh_tokens (crypto.sha256 bytes) ≡ none
  unfolding delete_token
  used_up call db raw new_raw db' bytes key b other r =
      ap (λ l. get_by_hash l (crypto.sha256 bytes)) r.tokens
      ∙ get_by_hash-none
          (filter (λ t. not (t.id == r.token.id)) db.refresh_tokens
            ++ new_token crypto call r.user.id ∷ [])
          (crypto.sha256 bytes) gone
    where
      token_found : Member r.token db.refresh_tokens × (r.token.token_hash ≡ crypto.sha256 bytes)
      token_found =
          get_by_hash-Member db.refresh_tokens (crypto.sha256 bytes) r.token
            (sym (ap (looked_up crypto db.refresh_tokens) b) ∙ r.found)

      gone :
          (t : TokenRecord)
          → Member t (
              filter (λ t. not (t.id == r.token.id)) db.refresh_tokens
              ++ new_token crypto call r.user.id ∷ [])
          → t.token_hash ≢ crypto.sha256 bytes
      gone t m e =
          elim (Member-append_cases t (filter (λ t. not (t.id == r.token.id)) db.refresh_tokens)
            (new_token crypto call r.user.id ∷ []) m) [
              | inl old ↦
                  let (n, h) =
                    Member-filter t (λ t. not (t.id == r.token.id)) db.refresh_tokens old in
                  let same = key t r.token n token_found.0 (e ∙ sym token_found.1) in
                  absurd (ground (arith, h, ap (λ x. x.id) same))
              | inr (inl new) ↦ other (sym e ∙ ap (λ x. x.token_hash) (sym new))
              | inr (inr n) ↦ elim n [ ]
            ]

  -- Where the hashes in the table are distinct, hexadecimal texts are read back, and the new random
  -- bytes have another hash than those of the token that is used: a refresh that returns has found a
  -- token of an active user that had not expired. That token is used up, so that every later refresh
  -- with it is refused; the new one is found for the same user, and expires after thirty days.
  pub refresh-rotates :
      (call : Call B) (db : Tables) (raw : String) {access new_raw : String} {db' : Tables}
      → HasKey db.refresh_tokens
      → ((b : B) → crypto.from_hex (crypto.to_hex b) ≡ some b)
      → ((b : B) → crypto.from_hex raw ≡ some b → crypto.sha256 b ≢ crypto.sha256 call.token_bytes)
      → refresh crypto call db raw ≡ returned ((access, new_raw), db')
      → ((later : Call B) → refresh crypto later db' raw ≡ raised session_expired)
        × (user : UserRecord) × (token : TokenRecord) × (find_token crypto db raw ≡ some token)
        × (ltb token.expires_at call.now ≡ false)
        × (get_by_id db.users token.user_id ≡ some user)
        × (user.is_active ≡ true)
        × (find_token crypto db' new_raw ≡ some (new_token crypto call user.id))
  unfolding refresh
  refresh-rotates call db raw {access} {new_raw} {db'} key hex other h =
      let r = refresh-IsRefreshed crypto call db raw h in
      elim (Option-cases (crypto.from_hex raw)) [
        | inl e ↦ absurd (none_some (sym (ap (looked_up crypto db.refresh_tokens) e) ∙ r.found))
        | inr (bytes, e) ↦
            let gone =
              ap (looked_up crypto db'.refresh_tokens) e
              ∙ used_up call db raw new_raw db' bytes key e (other bytes e) r in
            (
              λ later. refused later gone,
              r.user,
              r.token,
              r.found,
              r.in_time,
              r.owner,
              r.active,
              fresh r,
            )
      ]
    where
      none_some : {t : TokenRecord} → none ≡ some t → ⊥
      none_some e = cc

      refused :
          (later : Call B)
          → find_token crypto db' raw ≡ none
          → refresh crypto later db' raw ≡ raised session_expired
      refused later e = ap (refresh_with crypto later db') e

      fresh :
          (r : IsRefreshed crypto call db raw new_raw db')
          → find_token crypto db' new_raw ≡ some (new_token crypto call r.user.id)
      fresh r =
          ap (find_token crypto db') r.raw_text
          ∙ ap (looked_up crypto db'.refresh_tokens) (hex call.token_bytes)
          ∙ ap (λ l. get_by_hash l (crypto.sha256 call.token_bytes)) r.tokens
          ∙ get_by_hash-last (delete_token db.refresh_tokens r.token.id)
              (new_token crypto call r.user.id) r.new_hash
