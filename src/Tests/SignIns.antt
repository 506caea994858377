-- ===== src/Tests/SignIns.antt =====
-- Sign-ins with a cache of two wallets, one of the Lemon mini-app.
use lendoor_stellar.Common.{
  ℕ, ◌+◌, ◌<◌, ◌≡◌, ◌≢◌, refl, Bool, true, false, Option, none, some, List, [], ◌∷◌, Text, text_eq,
  codes, true_or_false, replicate, find_row, ◌++◌, text_eq_refl, text_eq_iff, ltb, ◌==◌,
  if◌then◌else◌, ok, err, arith, inl, inr, Bool-cases, is_ok,
}
use lendoor_stellar.Wallet.{normalize_wallet}
use lendoor_stellar.Auth.{
  SiweNonce, AccessToken, Cached, CacheManager, IsCache, AuthState, nonce_already_used, find_token,
  is_live_nonce,
}
use lendoor_stellar.Auth.SignIn.{
  SignIn, SiweMessage, Checks, Claimed, base_chain, claimed, verify_siwe_and_issue_token,
}
use lendoor_stellar.Auth.Sessions.{
  cleanup_expired_auth, check_refresh, finish_refresh, refresh_token, validate_token,
}
use lendoor_stellar.Auth.Calls.{
  revokes, evicts, AreLongRevoked, ends_stellar, ends_validation, AreOver, Call, step, run,
  creates_nonce, validates, cleans_up,
}
use lendoor_stellar.Auth.Once.{whole, Accepted, by_siwe, signed_in_nonce_refused}
use lendoor_stellar.Auth.Overlap.{revoke_row, evict_and_issue}
use lendoor_stellar.Auth.Revoked.{in_parts, token_refreshes_once}
use lendoor_stellar.Auth.Honest.{IsLive}
use lendoor_stellar.Auth.Live.{IsTimely, accepted_token-IsLive}
use lendoor_stellar.Auth.Lemon.{lemon_signs_in_once}
use lendoor_stellar.Auth.Cleanup.{cleanup-keeps}
use lendoor_stellar.Auth.Expiry.{
  IsSigned, expiry_millisecond_sticks, lemon_replays_after_ten_minutes,
}
use lendoor_stellar.Tests.LedgerSample.{borrower}

-- Entries by their keys, each with the time until which it lives if it does not live forever.
abbrev Entries : Type 0
Entries = Text → Option (Cached × Option ℕ)

abbrev entry_at : Option (Cached × Option ℕ) → ℕ → Option Cached
entry_at none at = none
entry_at (some (v, none)) at = some v
entry_at (some (v, some end)) at = if ltb end at then none else some v

abbrev end_of : ℕ → ℕ → Option ℕ
end_of ttl now = if ttl == 0 then none else some (now + ttl)

abbrev redis : CacheManager Entries
redis = record {
  get = λ c k at. entry_at (c k) at;
  set = λ c k v ttl now. λ k'. if text_eq k k' then some (v, end_of ttl now) else c k';
  del = λ c k. λ k'. if text_eq k k' then none else c k';
}

live_entry :
    (v : Cached) (ttl now later : ℕ)
    → later < now + ttl
    → entry_at (some (v, end_of ttl now)) later ≡ some v
live_entry v ttl now later h = elim (Bool-cases (ttl == 0)) [
  | inl zero ↦ rw zero refl
  | inr more ↦ let before : ltb (now + ttl) later ≡ false = ground arith in rw (more, before) refl
]

gone_entry :
    (v : Cached) (ttl now later : ℕ)
    → 0 < ttl
    → now + ttl < later
    → entry_at (some (v, end_of ttl now)) later ≡ none
gone_entry v ttl now later positive h =
    let more : (ttl == 0) ≡ false = ground arith in
    let after : ltb (now + ttl) later ≡ true = ground arith in rw (more, after) refl

value_entry :
    (v w : Cached) (ttl now later : ℕ) → entry_at (some (v, end_of ttl now)) later ≡ some w → v ≡ w
value_entry v w ttl now later h = elim (Bool-cases (ttl == 0)) [
  | inl zero ↦ ground arith
  | inr more ↦ elim (Bool-cases (ltb (now + ttl) later)) [
    | inl after ↦ ground arith
    | inr before ↦ ground arith
  ]
]

redis-IsCache : IsCache redis
redis-IsCache = record {
  get_other = λ c k k' v ttl now later other. rw other refl;
  get_live = λ c k v ttl now later h. rw (text_eq_refl k) (live_entry v ttl now later h);
  get_gone =
      λ c k v ttl now later positive h. rw (text_eq_refl k) (gone_entry v ttl now later positive h);
  get_value = λ c k v w ttl now later h. value_entry v w ttl now later (rw (text_eq_refl k) at h);
  get_forever = λ c k v now later. rw (text_eq_refl k) refl;
  get_deleted = λ c k later. rw (text_eq_refl k) refl;
  get_other_deleted = λ c k k' later other. rw other refl;
}

other_text : (a b : Text) → text_eq a b ≡ false → a ≢ b
other_text a b h e = true_or_false ((text_eq_iff a b).1 e) h

other_time : (a b : ℕ) → (a == b) ≡ false → some a ≢ some b
other_time a b h e = ground arith

abbrev ecdsa : Text
ecdsa = codes "0x" ++ replicate 130 49

abbrev from_lemon : Text
from_lemon = codes "lemon"

-- One message of the web page and one of Lemon, both with the nonce "n1".
abbrev parsed : Text → SiweMessage
parsed message = record {
  address = some borrower;
  nonce = some (codes "n1");
  chain_id = some 8453;
  domain = some (if text_eq message from_lemon then codes "app.lemon.me" else codes "lendoor.xyz");
  issued_at = none;
}

abbrev checks : Checks
checks = record {
  parse_siwe_message = λ message. some (parsed message);
  verify_siwe_message = λ chain message signature address now. false;
  recover_message_address = λ message signature. some borrower;
  verify_message = λ chain address message signature. false;
  sha256 = λ bytes. bytes;
  base64 = λ s. s;
  verify_ed25519 = λ signature message key. false;
}

abbrev input : Text → SignIn
input message = record {
  wallet = borrower;
  signature = ecdsa;
  message = message;
  nonce = codes "n1";
}

abbrev claim : Bool → Claimed
claim is_lemon = record {
  address = some borrower;
  nonce = codes "n1";
  chain = base_chain;
  is_lemon = is_lemon;
  issued_at = none;
}

abbrev stored : SiweNonce
stored = record { nonce = codes "n1"; used = false; expires_at = 600000 }

abbrev session : AccessToken
session = record {
  token = codes "t1";
  wallet_address = borrower;
  revoked_at = none;
  expires_at = some 5000;
}

abbrev begin : AuthState Entries
begin = record { nonces = stored ∷ []; tokens = session ∷ []; cache = λ k. none }

abbrev calls : List (ℕ × Call)
calls =
    (10, creates_nonce (codes "n2"))
    ∷ (10, ends_stellar (codes "t4") borrower stored)
    ∷ (11, cleans_up)
    ∷ []

claims_web : claimed checks (codes "web") ≡ ok (claim false)
unfolding claimed
claims_web = refl

claims_lemon : claimed checks from_lemon ≡ ok (claim true)
unfolding claimed
claims_lemon = refl

abbrev by_web : AuthState Entries
by_web = (verify_siwe_and_issue_token redis checks (codes "t2") 9 (input (codes "web")) begin).1

web_accepted :
    is_ok (verify_siwe_and_issue_token redis checks (codes "t2") 9 (input (codes "web")) begin).0
    ≡ true
unfolding verify_siwe_and_issue_token
web_accepted = refl

signed_in_nonce_refused_example :
    ¬ Accepted redis checks
      (codes "n1")
      20
      (run redis checks by_web calls)
      (run redis checks by_web calls)
signed_in_nonce_refused_example =
    signed_in_nonce_refused redis checks (codes "n1") 9 20 begin by_web
      (run redis checks by_web calls) calls
      (whole (
        by_siwe (codes "t2") (input (codes "web")) (claim false) claims_web refl refl web_accepted))
      (other_text _ _ refl, (other_text _ _ refl, (other_text _ _ refl, tt)))

abbrev by_lemon : AuthState Entries
by_lemon = (verify_siwe_and_issue_token redis checks (codes "t2") 9 (input from_lemon) begin).1

lemon_accepted :
    is_ok (verify_siwe_and_issue_token redis checks (codes "t2") 9 (input from_lemon) begin).0
    ≡ true
unfolding verify_siwe_and_issue_token
lemon_accepted = refl

lemon_signs_in_once_example :
    verify_siwe_and_issue_token redis checks
      (codes "t3")
      20
      (input from_lemon)
      (run redis checks by_lemon calls)
    ≡ (err nonce_already_used, run redis checks by_lemon calls)
lemon_signs_in_once_example =
    lemon_signs_in_once redis redis-IsCache checks (codes "t2") (codes "t3") 9 20 (input from_lemon)
      (input from_lemon) begin (claim true) (claim true) borrower calls claims_lemon refl refl
      lemon_accepted (omega arith, (omega arith, (omega arith, tt))) claims_lemon refl refl refl
      (omega arith)

unused_text :
    find_token
      (codes "t3")
      (verify_siwe_and_issue_token redis checks (codes "t2") 9 (input from_lemon) begin).1.tokens
    ≡ none
unfolding verify_siwe_and_issue_token
unused_text = refl

normal : normalize_wallet borrower ≡ ok borrower
unfolding normalize_wallet
normal = refl

signed : IsSigned checks (input from_lemon) (claim true) borrower borrower
signed = record {
  parsed = claims_lemon;
  lemon = refl;
  given = refl;
  normal = normal;
  plain = refl;
  recovered = refl;
}

lemon_replays_after_ten_minutes_example :
    ((verify_siwe_and_issue_token redis checks (codes "t2") 9 (input from_lemon) begin).0
      ≡ ok (record { wallet = borrower; access_token = codes "t2" }))
    × ((verify_siwe_and_issue_token redis checks (codes "t3") 700000 (input from_lemon) by_lemon).0
        ≡ ok (record { wallet = borrower; access_token = codes "t3" }))
lemon_replays_after_ten_minutes_example =
    lemon_replays_after_ten_minutes redis redis-IsCache checks (codes "t2") (codes "t3") 9 700000
      (input from_lemon) (claim true) borrower borrower begin signed refl refl (omega arith)
      unused_text

refreshed : is_ok (refresh_token redis (codes "t2") (codes "t1") 9 begin).0 ≡ true
unfolding refresh_token
refreshed = refl

-- A refresh in parts, with a validation between, and one that read the token before and ends after.
abbrev in_two : AuthState Entries
in_two =
    (evict_and_issue redis (codes "t2") (codes "t1") session 10
      (run redis checks (revoke_row (codes "t1") 9 begin) ((9, validates (codes "t1")) ∷ []))).1

abbrev overlapping : List (ℕ × Call)
overlapping =
    (10, ends_validation (codes "t1") session 8)
    ∷ (11, evicts (codes "t5") (codes "t9") session)
    ∷ []

overlapping-AreOver : AreOver (codes "t1") 10011 overlapping
overlapping-AreOver = (λ e. (omega arith, omega arith), (tt, tt))

token_refreshes_once_example :
    let after = run redis checks in_two overlapping in
    (is_ok (refresh_token redis (codes "t3") (codes "t1") 20000 after).0 ≡ false)
    × (is_ok (finish_refresh redis (codes "t3") (codes "t1") session 20000 after).0 ≡ false)
    × (is_ok (validate_token redis (codes "t1") 20000 after).0 ≡ false)
token_refreshes_once_example =
    token_refreshes_once redis redis-IsCache checks (codes "t3") (codes "t1") session 10011 20000
      begin in_two overlapping
      (in_parts (codes "t2") session 9 10 ((9, validates (codes "t1")) ∷ []) (other_text _ _ refl)
        (other_text _ _ refl, tt))
      (other_text _ _ refl, (other_text _ _ refl, tt)) overlapping-AreOver (omega arith)

abbrev guarded : List (ℕ × Call)
guarded =
    (10, validates (codes "t1"))
    ∷ (11, ends_validation (codes "t9") session 8)
    ∷ (12, revokes (codes "t8"))
    ∷ []

guarded-AreLongRevoked : AreLongRevoked (codes "t1") 20 guarded
guarded-AreLongRevoked = (tt, (tt, ((λ e. absurd (other_text _ _ refl e)), tt)))

guarded-AreOver : AreOver (codes "t1") 20 guarded
guarded-AreOver = (tt, ((λ e. absurd (other_text _ _ refl e)), (tt, tt)))

guard_accepts :
    (validate_token redis (codes "t1") 20 (run redis checks begin guarded)).0 ≡ ok borrower
unfolding validate_token run
guard_accepts = refl

timely : IsTimely redis checks begin guarded
unfolding step
timely = (
  (other_time 5000 10 refl, tt),
  ((other_time 5000 11 refl, tt), ((other_time 5000 12 refl, tt), tt)),
)

accepted_token-IsLive_example :
    IsLive (run redis checks begin guarded).tokens (codes "t1") borrower 20
accepted_token-IsLive_example =
    accepted_token-IsLive redis redis-IsCache checks 0 20 20 begin guarded (codes "t1") borrower
      (λ token at. refl) (omega arith, (omega arith, (omega arith, tt))) timely guarded-AreOver
      guarded-AreLongRevoked (omega arith) (omega arith) guard_accepts

expiry_millisecond_sticks_example :
    ((validate_token redis (codes "t1") 5000 begin).0 ≡ ok borrower)
    × ((validate_token redis
          (codes "t1")
          99999999
          (validate_token redis (codes "t1") 5000 begin).1).0
        ≡ ok borrower)
expiry_millisecond_sticks_example =
    expiry_millisecond_sticks redis redis-IsCache (codes "t1") session 5000 99999999 begin refl refl
      refl refl

passes : check_refresh (codes "t1") 400 begin ≡ ok session
unfolding check_refresh
passes = refl

cleanup-keeps_example :
    let after = cleanup_expired_auth 300 begin in
    (check_refresh (codes "t1") 400 after ≡ ok session)
    × (find_token (codes "t1") after.tokens ≡ find_token (codes "t1") begin.tokens)
    × (find_row (is_live_nonce (codes "n1") 400) after.nonces ≡ some stored)
cleanup-keeps_example =
    cleanup-keeps 300 400 (codes "t1") (codes "n1") session stored begin (omega arith) passes refl
