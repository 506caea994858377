-- ===== src/Loans/Grant.antt =====
-- `verify` of backend/src/loan/loan-verification.service.ts, with the tests of
-- backend/src/self/self.service.ts, backend/src/user/user-query.service.ts and
-- backend/src/user/early-access.service.ts that it calls: who gets a line of credit, and what the
-- chain is asked to record. A call returns its result beside the state, since a platform is saved
-- before later tests refuse.
pub mod Kept
pub mod Gates
use lendoor_stellar.Common.{
  ℕ, suc, ◌+◌, Bool, true, false, not, ◌&&◌, ◌||◌, Option, none, some, List, [], ◌∷◌, ◌++◌, map,
  Text, text_eq, codes, ltb, leb, ◌==◌, if◌then◌else◌, Result, ok, err, throw_if, or_throw, ◌>>=◌,
  ◌>>◌, is_none, find_row, update_rows,
}
use lendoor_stellar.Cctp.Transfer.{is_falsy}
use lendoor_stellar.Wallet.{normalize_wallet, trim, to_lower}
use lendoor_stellar.Credit.Ladder.{get_step_for_score}
use lendoor_stellar.Loans.{to_units, Borrower, CreditWrite, WriteCredit, is_200}
use lendoor_stellar.Loans.Score.{default_credit_limit}

-- The columns of a user that `verify` reads, and whether the table of verifications has the user as
-- verified.
pub record LineUser : Type 0 where
  pub row : Borrower
  pub email : Option Text
  pub work_type : Option Text
  pub platform : Option Text
  pub terms_accepted_at : Option ℕ
  pub created_at : Option ℕ
  pub waitlist_priority : Option ℕ
  pub is_self_verified : Bool

pub record LineState : Type 0 where
  pub users : List LineUser
  pub writes : List CreditWrite

pub data LineError : Type 0 where
  invalid_wallet user_not_found email_required work_type_required terms_required : LineError
  self_verification_required early_access_full refresh_failed set_failed set_refused : LineError
  read_failed : LineError

pub data UserPlatform : Type 0 where
  lemon farcaster webapp : UserPlatform

abbrev pub platform_text : UserPlatform → Text
platform_text lemon = codes "lemon"
platform_text farcaster = codes "farcaster"
platform_text webapp = codes "webapp"

abbrev named_platform : Text → Option UserPlatform
named_platform v =
    if text_eq v (codes "lemon")
    then some lemon
    else if text_eq v (codes "farcaster")
    then some farcaster
    else if text_eq v (codes "webapp")
    then some webapp
    else none

unfoldable pub normalize_platform : Option Text → Option UserPlatform
unfolding trim
normalize_platform none = none
normalize_platform (some p) = named_platform (map to_lower (trim p))

abbrev pub platform_or : Option UserPlatform → Option UserPlatform → UserPlatform
platform_or (some p) _ = p
platform_or none (some p) = p
platform_or none none = lemon

abbrev pub is_same_platform : Option Text → UserPlatform → Bool
is_same_platform none p = false
is_same_platform (some t) p = text_eq t (platform_text p)

abbrev pub with_platform : UserPlatform → LineUser → LineUser
with_platform p user = record user { platform = some (platform_text p) }

-- A platform that is missing is set, if the request names one.
abbrev pub set_missing : Option UserPlatform → LineUser → LineUser
set_missing none user = user
set_missing (some p) user = if is_falsy user.platform then with_platform p user else user

-- The user with the platform that counts. It is not empty, so the second test for a missing one, after
-- the verification by Self, changes nothing.
abbrev pub on_platform : Option UserPlatform → LineUser → LineUser
on_platform asked user =
    let first = set_missing asked user in
    let effective = platform_or (normalize_platform first.platform) asked in
    if is_same_platform first.platform effective then first else with_platform effective first

abbrev pub effective_platform : Option UserPlatform → LineUser → UserPlatform
effective_platform asked user =
    platform_or (normalize_platform (set_missing asked user).platform) asked

abbrev pub is_farcaster : UserPlatform → Bool
is_farcaster farcaster = true
is_farcaster _ = false

abbrev lower_or_empty : Option Text → Text
lower_or_empty none = []
lower_or_empty (some p) = map to_lower p

-- ensureSelfVerificationForPlatform
abbrev pub lacks_self_verification : LineUser → Bool
lacks_self_verification user =
    text_eq (lower_or_empty user.platform) (codes "farcaster")
    && not (not (user.row.id == 0) && user.is_self_verified)

-- getUserUntilWaitlist, for any platform
abbrev pub get_user_until_waitlist : UserPlatform → ℕ
get_user_until_waitlist p = 0

abbrev pub number_or_0 : Option ℕ → ℕ
number_or_0 none = 0
number_or_0 (some n) = n

-- The users of Lemon, or of no platform, that come no later.
abbrev is_ahead : ℕ → ℕ → LineUser → Bool
is_ahead priority created other =
    (is_none other.platform || is_same_platform other.platform lemon)
    && (ltb (number_or_0 other.waitlist_priority) priority
        || (number_or_0 other.waitlist_priority == priority
            && leb (number_or_0 other.created_at) created))

abbrev count_rows : (LineUser → Bool) → List LineUser → ℕ
count_rows p [] = 0
count_rows p (u ∷ us) = (if p u then 1 else 0) + count_rows p us

abbrev is_lemon : UserPlatform → Bool
is_lemon lemon = true
is_lemon _ = false

-- isEarlyUser: the first thousand of Lemon
unfoldable pub is_early_user : LineUser → UserPlatform → List LineUser → Bool
is_early_user user p users = elim user.created_at [
  | none ↦ false
  | some created ↦
      is_lemon p
      && leb (count_rows (is_ahead (number_or_0 user.waitlist_priority) created) users) 1000
]

abbrev pub can_access_credit : LineUser → UserPlatform → List LineUser → Bool
can_access_credit user p users =
    let limit = get_user_until_waitlist p in limit == 0 || is_early_user user p users

abbrev pub has_credit : LineUser → Bool
has_credit user = ltb 0 (number_or_0 user.row.credit_limit) && leb 1 (number_or_0 user.row.score)

abbrev pub is_wallet_of : Text → LineUser → Bool
is_wallet_of wallet user = text_eq user.row.wallet_address wallet

abbrev pub save_line : Text → (LineUser → LineUser) → LineState → LineState
save_line wallet change s = record s { users = update_rows (is_wallet_of wallet) change s.users }

-- What a call answers: whether there was credit before, whether the chain was refreshed, and the
-- score and the limit.
pub record Line : Type 0 where
  pub already_had_credit : Bool
  pub refreshed_on_chain : Bool
  pub score : ℕ
  pub credit_limit : ℕ

-- The calls of the chain. `none` is a call that throws.
pub record ChainCredit : Type 0 where
  pub read_credit_limit : Text → Option ℕ
  pub give : WriteCredit

-- The tests of a user that is found, on the row with its platform.
unfoldable pub check_line :
    Option UserPlatform → LineUser → LineUser → List LineUser → Result LineError (Unit {0})
unfolding is_early_user
check_line asked user current users = do
  throw_if (is_none user.terms_accepted_at && not (is_farcaster (effective_platform asked user)))
      terms_required
  throw_if (lacks_self_verification current) self_verification_required
  throw_if (not (can_access_credit current (effective_platform asked user) users)) early_access_full

-- giveCreditScoreAndLimit, and the log of it.
abbrev pub asked_for : CreditWrite → LineState → LineState
asked_for request s = record s { writes = s.writes ++ (request ∷ []) }

-- The ladder's limit for the score that the user has.
abbrev pub ladder_request : Text → ℕ → CreditWrite
ladder_request wallet score = record {
  wallet = wallet;
  score = score;
  limit = to_units (get_step_for_score score).limit_usdc;
}

-- A user who has credit: nothing if the chain still has a limit, else the chain is asked again, and
-- whatever code it answers is taken for success.
unfoldable pub keep_line :
    ChainCredit → Text → LineUser → LineState → Result LineError Line × LineState
unfolding get_step_for_score
keep_line chain wallet user s =
    let score = number_or_0 user.row.score in
    let limit = number_or_0 user.row.credit_limit in
    elim (chain.read_credit_limit wallet) [
      | none ↦ (err read_failed, s)
      | some on_chain ↦
          if ltb 0 on_chain
          then (
            ok (record {
              already_had_credit = true;
              refreshed_on_chain = false;
              score = score;
              credit_limit = limit;
            }),
            s,
          )
          else elim (chain.give (ladder_request wallet score)) [
            | none ↦ (err refresh_failed, asked_for (ladder_request wallet score) s)
            | some code ↦ (
              ok (record {
                already_had_credit = true;
                refreshed_on_chain = true;
                score = score;
                credit_limit = limit;
              }),
              asked_for (ladder_request wallet score) s,
            )
          ]
    ]

abbrev pub first_request : Text → CreditWrite
first_request wallet = record { wallet = wallet; score = 1; limit = default_credit_limit }

abbrev pub granted : LineUser → LineUser
granted user = record user {
  row = record user.row { score = some 1; credit_limit = some default_credit_limit };
}

-- The first line of credit, recorded once the chain has answered 200.
unfoldable pub first_line : ChainCredit → Text → LineState → Result LineError Line × LineState
first_line chain wallet s =
    let request = first_request wallet in
    elim (chain.give request) [
      | none ↦ (err set_failed, asked_for request s)
      | some code ↦ if not (code == 200) then (err set_refused, asked_for request s) else (
        ok (record {
          already_had_credit = false;
          refreshed_on_chain = false;
          score = 1;
          credit_limit = default_credit_limit;
        }),
        save_line wallet granted (asked_for request s),
      )
    ]

abbrev pub give_line : ChainCredit → Text → LineUser → LineState → Result LineError Line × LineState
give_line chain wallet user s =
    if has_credit user then keep_line chain wallet user s else first_line chain wallet s

unfoldable pub verify :
    ChainCredit → Text → Option Text → LineState → Result LineError Line × LineState
unfolding normalize_wallet normalize_platform check_line keep_line first_line
verify chain addr platform s =
    let asked = normalize_platform platform in
    elim (normalize_wallet addr) [
      | err e ↦ (err invalid_wallet, s)
      | ok wallet ↦ elim (find_row (is_wallet_of wallet) s.users) [
        | none ↦ (err user_not_found, s)
        | some user ↦
            if is_falsy user.email
            then (err email_required, s)
            else if is_falsy user.work_type
            then (err work_type_required, s)
            else let current = on_platform asked user in
              let saved = save_line wallet (on_platform asked) s in
              elim (check_line asked user current saved.users) [
                | err e ↦ (err e, saved)
                | ok done ↦ give_line chain wallet current saved
              ]
      ]
    ]
