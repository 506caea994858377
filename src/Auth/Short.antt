-- ===== src/Auth/Short.antt =====
-- backend/src/auth/auth.service.ts: the entries of a token do not live long.
use mathlib.Core.Path.{subst}
use lendoor_stellar.Common.{
  ℕ, ◌+◌, ◌-◌, ◌<◌, ◌≡◌, ◌≢◌, refl, ap, ◌∙◌, false, Option, none, some, Text, text_eq, ltb, min,
  inl, inr, arith, Bool-cases, All, All-find_row, eq_of_text_eq,
}
use lendoor_stellar.Auth.{
  AccessToken, CacheManager, IsCache, AuthState, is_token, token_key, token_entry, used_entry,
}
use lendoor_stellar.Auth.SignIn.{replay_key}
use lendoor_stellar.Auth.Sessions.{cleanup_expired_auth, is_past, ttl_until, cache_ttl}
use lendoor_stellar.Auth.Overlap.{finish_validation-gone}
use lendoor_stellar.Auth.Calls.{Late, IsOver}
use lendoor_stellar.Auth.Changes.{
  Change, add_nonce, spend_nonce, spend_entry, add_token, revoke, cache_token, put_used, late_entry,
  revoke_only, evict, clean,
}

-- No token expires at this very millisecond.
abbrev pub IsOffExpiry : ℕ → AccessToken → Type 0
IsOffExpiry now row = row.expires_at ≢ some now

-- More than ten seconds after the clock the cache has no entry for the token that is there now.
abbrev pub IsShort : {C : Type 0} → CacheManager C → Text → ℕ → AuthState C → Type 0
IsShort cache token clock s =
    (at : ℕ) → clock + 10000 < at → cache.get s.cache (token_key token) at ≡ none

pub min_positive :
    (expires now : ℕ) → ltb expires now ≡ false → expires ≢ now → 0 < min (expires - now) 10000
min_positive expires now fresh off = ground arith

-- A row that is not expired has time left, off the millisecond of its expiry.
ttl_until-positive :
    (now : ℕ) (expires : Option ℕ)
    → is_past now expires ≡ false
    → expires ≢ some now
    → 0 < ttl_until now expires
ttl_until-positive now none fresh off = omega arith
ttl_until-positive now (some expires) fresh off =
    let differ : expires ≢ now = λ same. off (ap some same) in min_positive expires now fresh differ

module _ {C : Type 0} (cache : CacheManager C) (laws : IsCache cache) (token : Text) where
  gone_after_del :
      (c : C) (key : Text) (at : ℕ)
      → cache.get c (token_key token) at ≡ none
      → cache.get (cache.del c key) (token_key token) at ≡ none
  gone_after_del c key at h = elim (Bool-cases (text_eq key (token_key token))) [
    | inl same ↦
        subst (λ k. cache.get (cache.del c key) k at ≡ none)
          (eq_of_text_eq key (token_key token) same) (laws.get_deleted c key at)
    | inr other ↦ laws.get_other_deleted c key (token_key token) at other ∙ h
  ]

  pub Change-IsShort :
      (limit now : ℕ) (drawn : Text) (late : Late) (s t : AuthState C)
      → Change cache now drawn late s t
      → IsOver token limit now late
      → All (IsOffExpiry now) s.tokens
      → IsShort cache token now s
      → IsShort cache token now t
  unfolding cleanup_expired_auth
  Change-IsShort limit now drawn late s _ add_nonce over off h = h
  Change-IsShort limit now drawn late s _ (spend_nonce spent) over off h = h
  Change-IsShort limit now drawn late s _ (spend_entry n a) over off h = λ at far.
      laws.get_other s.cache (replay_key n a) (token_key token) used_entry 600000 now at refl
      ∙ h at far
  Change-IsShort limit now drawn late s _ (add_token w new) over off h = h
  Change-IsShort limit now drawn late s _ (revoke t') over off h =
      λ at far. gone_after_del s.cache (token_key t') at (h at far)
  Change-IsShort limit now drawn late s _ (revoke_only t' e) over off h = h
  Change-IsShort limit now drawn late s _ (evict t') over off h =
      λ at far. gone_after_del s.cache (token_key t') at (h at far)
  Change-IsShort limit now drawn late s _ (put_used stored) over off h = h
  Change-IsShort limit now drawn late s _ (cache_token t' row found fresh valid) over off h =
      λ at far. elim (Bool-cases (text_eq t' token)) [
        | inr other ↦
            laws.get_other s.cache (token_key t') (token_key token) (token_entry row.wallet_address)
              (cache_ttl now row) now at other
            ∙ h at far
        | inl same ↦
            let is = eq_of_text_eq t' token same in
            let timely = All-find_row (IsOffExpiry now) (is_token t') s.tokens off found in
            let positive = ttl_until-positive now row.expires_at fresh timely in
            rw⁻¹ is (finish_validation-gone cache laws t' row now now at s positive far)
      ]
  Change-IsShort limit now drawn late s _ (late_entry t' row began e) over off h = λ at far.
      elim (Bool-cases (text_eq t' token)) [
        | inr other ↦
            laws.get_other s.cache (token_key t') (token_key token) (token_entry row.wallet_address)
              (cache_ttl began row) now at other
            ∙ h at far
        | inl same ↦
            let is = eq_of_text_eq t' token same in
            let (positive, before) = subst (IsOver token limit now) e over is in
            rw⁻¹ is (finish_validation-gone cache laws t' row began now at s positive far)
      ]
  Change-IsShort limit now drawn late s _ clean over off h = h
