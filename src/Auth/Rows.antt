-- ===== src/Auth/Rows.antt =====
-- The table of refresh tokens under a rotation and a revocation.
use field_note.Common.{
  ℕ, ◌≡◌, ◌≢◌, refl, ap, ◌∙◌, Bool, true, false, not, Bool-cases, inl, inr, some, List, [], ◌∷◌,
  ◌++◌, map, Text, text_eq, text_eq_iff, text_eq_refl, is_some, any, find?, filter, All,
  find?-map_if, find?-map_skip, find?-append_some, find?-append_none, find?-of_any, any-of_find?,
  any-append, any-map_same, if◌then◌else◌, arith,
}
use mathlib.Core.Option
use field_note.Result.{ok}
use field_note.Database.{RefreshToken, Db}
use field_note.Tokens.{Generated}
use field_note.Auth.{has_hash, find_token, is_active_of, revoke_chain, replaced, new_token, rotate}

new_token-HasHash :
    (user_id : Text) (next : Generated) → has_hash next.hash (new_token user_id next) ≡ true
unfolding has_hash new_token
new_token-HasHash user_id next = text_eq_refl next.hash

module _ (p : RefreshToken → Bool) (t : RefreshToken) where
  found_only : p t ≡ true → find? p (t ∷ []) ≡ some t
  unfolding find?
  found_only h = rw h refl

  any_only : p t ≡ false → any p (t ∷ []) ≡ false
  unfolding any
  any_only h = rw h refl

new_token_other :
    (user_id other : Text) (next : Generated)
    → other ≢ next.hash
    → has_hash other (new_token user_id next) ≡ false
unfolding has_hash new_token
new_token_other user_id other next ne = ground (arith, ne, text_eq_iff next.hash other)

module _ (user_id hash : Text) (next : Generated) (now : ℕ) (db : Db) where
  -- The rows of a rotation.
  abbrev rotated : List RefreshToken
  rotated = map (λ t. if has_hash hash t then replaced now next.hash t else t) db.refresh_tokens

  same_hash :
      (other : Text) (t : RefreshToken)
      → has_hash other (if has_hash hash t then replaced now next.hash t else t) ≡ has_hash other t
  unfolding has_hash replaced
  same_hash other t = elim (Bool-cases (text_eq t.token_hash hash)) [
    | inl e ↦ rw e refl
    | inr e ↦ rw e refl
  ]

  module _ (t : RefreshToken) (found : find_token hash db ≡ some t)
      (unused : any (has_hash next.hash) db.refresh_tokens ≡ false) where
    pub rotate_ok :
        rotate user_id hash next now db
        ≡ (ok tt, record db { refresh_tokens = rotated ++ new_token user_id next ∷ [] })
    unfolding rotate find_token
    rotate_ok = rw (any-of_find? (has_hash hash) db.refresh_tokens t found, unused) refl

    -- The presented token is revoked and names its successor.
    pub find_token-presented :
        find_token hash (rotate user_id hash next now db).1 ≡ some (replaced now next.hash t)
    unfolding find_token has_hash replaced
    find_token-presented =
        ap (λ z. find_token hash z.1) rotate_ok
        ∙ find?-append_some (has_hash hash) rotated _ _ (
            find?-map_if (has_hash hash) (has_hash hash) (replaced now next.hash) db.refresh_tokens
              (λ x. refl) (λ x e. e)
            ∙ ap (Option.map (replaced now next.hash)) found)

    -- Its successor is found.
    pub find_token-next :
        find_token next.hash (rotate user_id hash next now db).1 ≡ some (new_token user_id next)
    unfolding find_token
    find_token-next =
        ap (λ z. find_token next.hash z.1) rotate_ok
        ∙ find?-append_none (has_hash next.hash) rotated _ (
            find?-of_any (has_hash next.hash) rotated (
              any-map_same (has_hash next.hash) _ db.refresh_tokens (same_hash next.hash) ∙ unused))
        ∙ found_only (has_hash next.hash) (new_token user_id next) (new_token-HasHash user_id next)

    -- Another token is found as before.
    pub find_token-other :
        (other : Text) (x : RefreshToken)
        → other ≢ hash
        → find_token other db ≡ some x
        → find_token other (rotate user_id hash next now db).1 ≡ some x
    unfolding find_token has_hash replaced
    find_token-other other x ne h =
        ap (λ z. find_token other z.1) rotate_ok
        ∙ find?-append_some (has_hash other) rotated _ x (
            find?-map_skip (has_hash other) (has_hash hash) (replaced now next.hash)
              db.refresh_tokens (λ y. refl)
              (λ y e.
                ground
                  (arith, e, ne, text_eq_iff y.token_hash other, text_eq_iff y.token_hash hash))
            ∙ h)

    -- An unused hash is not the presented one.
    pub unused-other : next.hash ≢ hash
    unfolding find_token
    unused-other e =
        let there = any-of_find? (has_hash hash) db.refresh_tokens t found in
        cc (unused, there, ap (λ h. any (has_hash h) db.refresh_tokens) e)

    -- A hash that was unused, and is not the successor's, is unused still.
    pub rotate-unused :
        (other : Text)
        → other ≢ next.hash
        → any (has_hash other) db.refresh_tokens ≡ false
        → any (has_hash other) (rotate user_id hash next now db).1.refresh_tokens ≡ false
    rotate-unused other ne h =
        ap (λ z. any (has_hash other) z.1.refresh_tokens) rotate_ok
        ∙ any-append (has_hash other) rotated _
        ∙ rw
            (
              any-map_same (has_hash other)
                  (λ t. if has_hash hash t then replaced now next.hash t else t) db.refresh_tokens
                  (same_hash other),
              h,
            )
            (any_only (has_hash other) (new_token user_id next)
              (new_token_other user_id other next ne))

module _ (user_id : Text) where
  -- No token of the user is active.
  abbrev pub AllRevoked : Db → Type 0
  AllRevoked db =
      All (λ (t : RefreshToken). t.user_id ≡ user_id → is_some t.revoked_at ≡ true)
        db.refresh_tokens

  revoked_row :
      (now : ℕ) (t : RefreshToken)
      → (if is_active_of user_id t then (record t { revoked_at = some now }) else t).user_id
        ≡ user_id
      → is_some
          (if is_active_of user_id t then (record t { revoked_at = some now }) else t).revoked_at
        ≡ true
  unfolding is_active_of
  revoked_row now t own = ground (arith, own, text_eq_iff t.user_id user_id)

  revoked_rows :
      (now : ℕ) (ts : List RefreshToken)
      → All
          (λ (t : RefreshToken). t.user_id ≡ user_id → is_some t.revoked_at ≡ true)
          (map (λ t. if is_active_of user_id t then (record t { revoked_at = some now }) else t) ts)
  revoked_rows now [] = tt
  revoked_rows now (t ∷ ts) = (revoked_row now t, revoked_rows now ts)

  pub revoke_chain-AllRevoked : (now : ℕ) (db : Db) → AllRevoked (revoke_chain user_id now db)
  unfolding revoke_chain
  revoke_chain-AllRevoked now db = revoked_rows now db.refresh_tokens

  -- The tokens of other users.
  abbrev pub others : List RefreshToken → List RefreshToken
  others = filter (λ t. not (text_eq t.user_id user_id))

  others_rows :
      (now : ℕ) (ts : List RefreshToken)
      → others
          (map (λ t. if is_active_of user_id t then (record t { revoked_at = some now }) else t) ts)
        ≡ others ts
  unfolding filter is_active_of
  others_rows now [] = refl
  others_rows now (t ∷ ts) = ground (arith, others_rows now ts)

  pub others-revoke_chain :
      (now : ℕ) (db : Db)
      → others (revoke_chain user_id now db).refresh_tokens ≡ others db.refresh_tokens
  unfolding revoke_chain
  others-revoke_chain now db = others_rows now db.refresh_tokens
