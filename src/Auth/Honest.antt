-- ===== src/Auth/Honest.antt =====
-- backend/src/auth/auth.service.ts: what the cache says of a token agrees with the table.
use lendoor_stellar.Common.{
  ℕ, ◌+◌, ◌-◌, ◌≤◌, ◌<◌, ◌≡◌, ◌≢◌, ◌⊎◌, refl, sym, ap, ◌∙◌, true, false, not, ◌||◌, Option, none,
  some, List, [], ◌∷◌, Text, text_eq, ltb, min, inl, inr, arith, is_none, Bool-cases,
  find_row-append, find_row-update_rows, find_row-delete_rows, All, All-find_row, text_eq_iff,
  eq_of_text_eq, true_or_false,
}
use mathlib.Core.Path.{subst}
use lendoor_stellar.Auth.{
  AccessToken, CacheManager, Cached, IsCache, AuthState, is_token, find_token, token_key, new_token,
  token_entry, used_entry,
}
use lendoor_stellar.Auth.SignIn.{replay_key}
use lendoor_stellar.Auth.Sessions.{
  cleanup_expired_auth, is_unrevoked, revoked, is_expired, cache_ttl, is_beyond_grace, is_past,
  is_past_grace, ttl_until,
}
use lendoor_stellar.Auth.Short.{IsOffExpiry, IsShort, min_positive}
use lendoor_stellar.Auth.Overlap.{revoke_row, finish_validation, finish_validation-gone}
use lendoor_stellar.Auth.Calls.{validation_ends, IsLongRevoked, Late, IsOver}
use lendoor_stellar.Auth.Changes.{
  Change, add_nonce, spend_nonce, spend_entry, add_token, revoke, cache_token, put_used,
  revoke_only, evict, late_entry, clean,
}

-- A token that may be used at a time: the row that is found for it is the wallet's, is not expired
-- and is not revoked.
pub record IsLive (rows : List AccessToken) (token wallet : Text) (at : ℕ) : Type 0 where
  pub row : AccessToken
  pub found : find_token token rows ≡ some row
  pub owned : row.wallet_address ≡ wallet
  pub unexpired : is_expired at row ≡ false
  pub unrevoked : is_none row.revoked_at ≡ true

-- From the clock and the limit on, an entry for the token stands for a token that is live as long as
-- it is found.
abbrev pub IsHonest : {C : Type 0} → CacheManager C → Text → ℕ → ℕ → AuthState C → Type 0
IsHonest cache token limit clock s =
    (at : ℕ) (v : Cached)
    → clock ≤ at
    → limit ≤ at
    → cache.get s.cache (token_key token) at ≡ some v
    → (wallet : Text) × (v ≡ token_entry wallet) × IsLive s.tokens token wallet at

pub IsOffExpiry-new_token :
    (now : ℕ) (drawn wallet : Text) → IsOffExpiry now (new_token drawn wallet now)
IsOffExpiry-new_token now drawn wallet e = ground arith

-- A row that is still found keeps its token live.
IsLive-kept :
    {rows rows' : List AccessToken} {token wallet : Text} {at : ℕ}
    → ((row : AccessToken)
        → find_token token rows ≡ some row
        → is_expired at row ≡ false
        → is_none row.revoked_at ≡ true
        → find_token token rows' ≡ some row)
    → IsLive rows token wallet at
    → IsLive rows' token wallet at
IsLive-kept kept live = record {
  row = live.row;
  found = kept live.row live.found live.unexpired live.unrevoked;
  owned = live.owned;
  unexpired = live.unexpired;
  unrevoked = live.unrevoked;
}

some_or_none : {v : Cached} {o : Option Cached} → o ≡ some v → o ≡ none → ⊥
some_or_none e f = cc

min_within :
    (expires now at : ℕ)
    → expires < at
    → ltb expires now ≡ false
    → now + min (expires - now) 10000 < at
min_within expires now at gone fresh = ground arith

-- An entry that the service adds is gone before its token expires.
ttl_until-within :
    (now at : ℕ) (expires : Option ℕ)
    → is_past now expires ≡ false
    → expires ≢ some now
    → (is_past at expires ≡ false)
      ⊎ ((0 < ttl_until now expires) × (now + ttl_until now expires < at))
ttl_until-within now at none fresh off = inl refl
ttl_until-within now at (some expires) fresh off =
    let differ : expires ≢ now = λ same. off (ap some same) in
    let h : (at ≤ expires) ⊎ (expires < at) = ground arith in
    elim h [
      | inl e ↦ inl (ground arith)
      | inr e ↦ inr (min_positive expires now fresh differ, min_within expires now at e fresh)
    ]

past_grace :
    (now at : ℕ) (expires : Option ℕ)
    → now ≤ at
    → is_past at expires ≡ false
    → is_past_grace now expires ≡ false
past_grace now at none le fresh = refl
past_grace now at (some expires) le fresh = ground arith

other_token :
    (row : AccessToken) (changed token : Text)
    → is_unrevoked changed row ≡ true
    → text_eq changed token ≡ false
    → is_token token row ≡ false
other_token row changed token is other = elim (Bool-cases (is_token token row)) [
  | inr e ↦ e
  | inl e ↦
      let is_changed : is_token changed row ≡ true = ground (arith, is) in
      let same =
        sym (eq_of_text_eq row.token changed is_changed) ∙ eq_of_text_eq row.token token e in
      absurd (true_or_false ((text_eq_iff changed token).1 same) other)
]

-- A token that is live later is kept by the cleanup now.
kept_by_cleanup :
    (now at : ℕ) (row : AccessToken)
    → now ≤ at
    → is_expired at row ≡ false
    → is_none row.revoked_at ≡ true
    → (is_beyond_grace now row || not (is_none row.revoked_at)) ≡ false
kept_by_cleanup now at row le fresh valid =
    rw (past_grace now at row.expires_at le fresh, valid) refl

module _ {C : Type 0} (cache : CacheManager C) (laws : IsCache cache) where
  -- An entry of another key stays, and one of an evicted key does not.
  kept_entry :
      (c : C) (key evicted : Text) (at : ℕ) (v : Cached)
      → cache.get (cache.del c evicted) key at ≡ some v
      → (text_eq evicted key ≡ false) × (cache.get c key at ≡ some v)
  kept_entry c key evicted at v e = elim (Bool-cases (text_eq evicted key)) [
    | inr other ↦ (other, sym (laws.get_other_deleted c evicted key at other) ∙ e)
    | inl same ↦
        let gone = laws.get_deleted c evicted at in
        let hit =
          subst (λ k. cache.get (cache.del c evicted) k at ≡ some v)
            (sym (eq_of_text_eq evicted key same)) e in
        absurd (some_or_none hit gone)
  ]

  -- An entry that is added stands for the live row it was read from.
  added_entry :
      (now : ℕ) (s : AuthState C) (t' : Text) (row : AccessToken)
      → find_token t' s.tokens ≡ some row
      → is_expired now row ≡ false
      → is_none row.revoked_at ≡ true
      → (token : Text) (at : ℕ) (v : Cached)
      → cache.get
          (cache.set s.cache
            (token_key t')
            (token_entry row.wallet_address)
            (cache_ttl now row)
            now)
          (token_key token)
          at
        ≡ some v
      → All (IsOffExpiry now) s.tokens
      → t' ≡ token
      → (wallet : Text) × (v ≡ token_entry wallet) × IsLive s.tokens token wallet at
  added_entry now s t' row found fresh valid token at v e off same =
      let hit =
        subst
          (λ t.
            cache.get
              (cache.set s.cache (token_key t') (token_entry row.wallet_address) (cache_ttl now row)
                now)
              (token_key t) at
            ≡ some v)
          (sym same) e in
      let value =
        laws.get_value s.cache (token_key t') (token_entry row.wallet_address) v (cache_ttl now row)
          now at hit in
      let timely = All-find_row (IsOffExpiry now) (is_token t') s.tokens off found in
      elim (ttl_until-within now at row.expires_at fresh timely) [
        | inl unexpired ↦ (
          row.wallet_address,
          sym value,
          record {
            row = row;
            found = subst (λ t. find_token t s.tokens ≡ some row) same found;
            owned = refl;
            unexpired = unexpired;
            unrevoked = valid;
          },
        )
        | inr (positive, gone) ↦ absurd (
            some_or_none hit (
              laws.get_gone s.cache (token_key t') (token_entry row.wallet_address)
                (cache_ttl now row) now at positive gone))
      ]

  -- The entry of a validation that ended late is gone from the limit on.
  late-gone :
      (token : Text) (limit now : ℕ) (s : AuthState C) (t' : Text) (row : AccessToken)
      (began at : ℕ)
      → text_eq t' token ≡ true
      → IsOver token limit now (validation_ends t' row began)
      → limit ≤ at
      → cache.get (finish_validation cache t' row began now s).cache (token_key token) at ≡ none
  late-gone token limit now s t' row began at same over from =
      let is = eq_of_text_eq t' token same in
      let (positive, before) = over is in
      rw⁻¹ is (
        finish_validation-gone cache laws t' row began now at s positive
          (omega (arith, before, from)))

  -- A token stays live where another one is revoked.
  IsLive-beside_revoked :
      (now : ℕ) (s : AuthState C) (t' token wallet : Text) (at : ℕ)
      → text_eq t' token ≡ false
      → IsLive s.tokens token wallet at
      → IsLive (revoke_row t' now s).tokens token wallet at
  IsLive-beside_revoked now s t' token wallet at other live =
      IsLive-kept
        (λ row there fresh valid.
          find_row-update_rows (is_token token) (is_unrevoked t') (revoked now) s.tokens
            (λ x is. other_token x t' token is other) (λ x is. other_token x t' token is other)
          ∙ there)
        live

  pub Change-IsHonest :
      (token : Text) (limit now : ℕ) (drawn : Text) (late : Late) (s t : AuthState C)
      → Change cache now drawn late s t
      → IsOver token limit now late
      → IsLongRevoked token limit now late
      → IsShort cache token now s
      → All (IsOffExpiry now) s.tokens
      → IsHonest cache token limit now s
      → IsHonest cache token limit now t
  unfolding cleanup_expired_auth
  Change-IsHonest token limit now drawn late s _ add_nonce over long short off h = h
  Change-IsHonest token limit now drawn late s _ (spend_nonce spent) over long short off h = h
  Change-IsHonest token limit now drawn late s _ (spend_entry n a) over long short off h =
      λ at v le from e. h at v le from (
        sym
          (laws.get_other s.cache (replay_key n a) (token_key token) used_entry 600000 now at refl)
        ∙ e)
  Change-IsHonest token limit now drawn late s _ (add_token w new) over long short off h =
      λ at v le from e.
        let (wallet, same, live) = h at v le from e in
        (
          wallet,
          same,
          IsLive-kept
              (λ row there fresh valid.
                find_row-append (is_token token) s.tokens (new_token drawn w now ∷ []) there)
              live,
        )
  Change-IsHonest token limit now drawn late s _ (revoke t') over long short off h =
      λ at v le from e.
        let (other, hit) = kept_entry s.cache (token_key token) (token_key t') at v e in
        let (wallet, same, live) = h at v le from hit in
        (wallet, same, IsLive-beside_revoked now s t' token wallet at other live)
  Change-IsHonest token limit now drawn late s _ (cache_token t' row found fresh valid) over long
        short off h =
      λ at v le from e. elim (Bool-cases (text_eq t' token)) [
        | inr other ↦ h at v le from (
            sym (
              laws.get_other s.cache (token_key t') (token_key token)
                (token_entry row.wallet_address) (cache_ttl now row) now at other)
            ∙ e)
        | inl same ↦
            added_entry now s t' row found fresh valid token at v e off
              (eq_of_text_eq t' token same)
      ]
  Change-IsHonest token limit now drawn late s _ (put_used stored) over long short off h = h
  Change-IsHonest token limit now drawn late s _ (late_entry t' row began is) over long short off
        h =
      λ at v le from e. elim (Bool-cases (text_eq t' token)) [
        | inr other ↦ h at v le from (
            sym (
              laws.get_other s.cache (token_key t') (token_key token)
                (token_entry row.wallet_address) (cache_ttl began row) now at other)
            ∙ e)
        | inl same ↦ absurd (
            some_or_none e (
              late-gone token limit now s t' row began at same
                (subst (IsOver token limit now) is over) from))
      ]
  Change-IsHonest token limit now drawn late s _ (revoke_only t' is) over long short off h =
      λ at v le from e. elim (Bool-cases (text_eq t' token)) [
        | inl same ↦
            let before =
              subst (IsLongRevoked token limit now) is long (eq_of_text_eq t' token same) in
            absurd (some_or_none e (short at (omega (arith, before, from))))
        | inr other ↦
            let (wallet, same, live) = h at v le from e in
            (wallet, same, IsLive-beside_revoked now s t' token wallet at other live)
      ]
  Change-IsHonest token limit now drawn late s _ (evict t') over long short off h =
      λ at v le from e.
        h at v le from (kept_entry s.cache (token_key token) (token_key t') at v e).1
  Change-IsHonest token limit now drawn late s _ clean over long short off h = λ at v le from e.
      let (wallet, same, live) = h at v le from e in
      (
        wallet,
        same,
        IsLive-kept
            (λ row there fresh valid.
              find_row-delete_rows (is_token token)
                (λ row. is_beyond_grace now row || not (is_none row.revoked_at)) s.tokens there
                (kept_by_cleanup now at row le fresh valid))
            live,
      )
