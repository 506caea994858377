-- ===== src/Loans/Grant/Kept.antt =====
-- What `verify` of backend/src/loan/loan-verification.service.ts asks for, and what it keeps.
use mathlib.Core.Path.{subst}
use lendoor_stellar.Common.{
  ◌≡◌, refl, sym, ap, ◌∙◌, ◌⊎◌, inl, inr, true, false, ◌&&◌, Option, none, some, Text, text_eq, ltb,
  leb, ◌==◌, Option-cases, Bool-cases, Result-cases, find_row, find_row-passes, find_row-updated,
  eq_of_text_eq,
}
use lendoor_stellar.Cctp.Transfer.{is_falsy}
use lendoor_stellar.Wallet.{normalize_wallet}
use lendoor_stellar.Loans.{Borrower, is_200}
use lendoor_stellar.Loans.Score.{default_credit_limit}
use lendoor_stellar.Loans.Grant.{
  LineUser, LineState, ChainCredit, UserPlatform, normalize_platform, on_platform, set_missing,
  is_same_platform, platform_or, has_credit, is_wallet_of, save_line, check_line, asked_for,
  ladder_request, keep_line, first_request, granted, first_line, give_line, verify, number_or_0,
}

-- The row of a wallet afterwards: the score and the limit as they were, or those of a first line,
-- for a user who had no credit and once the chain has answered 200.
pub record IsLineOf (chain : ChainCredit) (wallet : Text) (before : LineUser) (s : LineState)
    : Type 0 where
  pub user : LineUser
  pub found : find_row (is_wallet_of wallet) s.users ≡ some user
  pub kept_or_first :
      (user.row ≡ before.row)
      ⊎ ((has_credit before ≡ false)
          × (user.row ≡ (granted before).row)
          × (is_200 (chain.give (first_request wallet)) ≡ true))

set_missing-row :
    (asked : Option UserPlatform) (user : LineUser) → (set_missing asked user).row ≡ user.row
set_missing-row none user = refl
set_missing-row (some p) user = elim (Bool-cases (is_falsy user.platform)) [
  | inl missing ↦ rw missing refl
  | inr there ↦ rw there refl
]

on_platform-row :
    (asked : Option UserPlatform) (user : LineUser) → (on_platform asked user).row ≡ user.row
on_platform-row asked user =
    let first = set_missing asked user in
    elim (Bool-cases
      (is_same_platform first.platform (platform_or (normalize_platform first.platform) asked))) [
        | inl same ↦ rw same (set_missing-row asked user)
        | inr other ↦ rw other (set_missing-row asked user)
      ]

keep_line-users :
    (chain : ChainCredit) (wallet : Text) (user : LineUser) (s : LineState)
    → (keep_line chain wallet user s).1.users ≡ s.users
unfolding keep_line
keep_line-users chain wallet user s = elim (Option-cases (chain.read_credit_limit wallet)) [
  | inl failed ↦ rw (keep_line, failed) refl
  | inr (on_chain, e) ↦ elim (Bool-cases (ltb 0 on_chain)) [
    | inl alive ↦ rw (keep_line, e, alive) refl
    | inr gone ↦
        elim (Option-cases (chain.give (ladder_request wallet (number_or_0 user.row.score)))) [
          | inl thrown ↦ rw (keep_line, e, gone, thrown) refl
          | inr (code, answered) ↦ rw (keep_line, e, gone, answered) refl
        ]
  ]
]

same_wallet :
    (w v : Text) (user : LineUser) → is_wallet_of w user ≡ true → is_wallet_of v user ≡ true → w ≡ v
same_wallet w v user e f =
    sym (eq_of_text_eq user.row.wallet_address w e) ∙ eq_of_text_eq user.row.wallet_address v f

-- The row found, with its platform set or not, has the credit that it had.
unchanged :
    (chain : ChainCredit) (w : Text) (before user : LineUser) (s t : LineState)
    → find_row (is_wallet_of w) s.users ≡ some user
    → user.row ≡ before.row
    → t.users ≡ s.users
    → IsLineOf chain w before t
unchanged chain w before user s t found same e = record {
  user = user;
  found = subst (λ us. find_row (is_wallet_of w) us ≡ some user) (sym e) found;
  kept_or_first = inl same;
}

abbrev first_credit : Borrower → Borrower
first_credit row = record row { score = some 1; credit_limit = some default_credit_limit }

after_grant :
    (chain : ChainCredit) (wallet w : Text) (before user : LineUser) (s : LineState)
    → find_row (is_wallet_of w) s.users ≡ some user
    → user.row ≡ before.row
    → (w ≡ wallet → has_credit before ≡ false)
    → is_200 (chain.give (first_request wallet)) ≡ true
    → IsLineOf chain w before (save_line wallet granted (asked_for (first_request wallet) s))
after_grant chain wallet w before user s found same none_yet done =
    let there =
      find_row-updated (is_wallet_of w) (is_wallet_of wallet) granted s.users (λ x. refl) found in
    elim (Bool-cases (is_wallet_of wallet user)) [
      | inr other ↦ record { user = user; found = there ∙ rw other refl; kept_or_first = inl same }
      | inl own ↦
          let e = same_wallet w wallet user (find_row-passes (is_wallet_of w) s.users found) own in
          record {
            user = granted user;
            found = there ∙ rw own refl;
            kept_or_first = inr (none_yet e, ap first_credit same, rw e done);
          }
    ]

first_line-IsLineOf :
    (chain : ChainCredit) (wallet w : Text) (before user : LineUser) (s : LineState)
    → find_row (is_wallet_of w) s.users ≡ some user
    → user.row ≡ before.row
    → (w ≡ wallet → has_credit before ≡ false)
    → IsLineOf chain w before (first_line chain wallet s).1
unfolding first_line
first_line-IsLineOf chain wallet w before user s found same none_yet =
    elim (Option-cases (chain.give (first_request wallet))) [
      | inl thrown ↦ rw (first_line, thrown) (unchanged chain w before user s _ found same refl)
      | inr (code, answered) ↦ elim (Bool-cases (code == 200)) [
        | inr refused ↦
            rw (first_line, answered, refused) (unchanged chain w before user s _ found same refl)
        | inl done ↦
            rw (first_line, answered, done)
              (after_grant chain wallet w before user s found same none_yet (rw (answered) done))
      ]
    ]

row_has_credit :
    (user before : LineUser) → user.row ≡ before.row → has_credit user ≡ has_credit before
row_has_credit user before e =
    ap (λ (row : Borrower). ltb 0 (number_or_0 row.credit_limit) && leb 1 (number_or_0 row.score)) e

give_line-IsLineOf :
    (chain : ChainCredit) (wallet w : Text) (before user current : LineUser) (s : LineState)
    → find_row (is_wallet_of w) s.users ≡ some user
    → user.row ≡ before.row
    → (w ≡ wallet → current.row ≡ before.row)
    → IsLineOf chain w before (give_line chain wallet current s).1
give_line-IsLineOf chain wallet w before user current s found same own =
    elim (Bool-cases (has_credit current)) [
      | inl has ↦
          rw has
            (unchanged chain w before user s _ found same (keep_line-users chain wallet current s))
      | inr none_yet ↦ rw none_yet (
          first_line-IsLineOf chain wallet w before user s found same
            (λ e. sym (row_has_credit current before (own e)) ∙ none_yet))
    ]

on_platform-wallet :
    (asked : Option UserPlatform) (w : Text) (user : LineUser)
    → is_wallet_of w (on_platform asked user) ≡ is_wallet_of w user
on_platform-wallet asked w user =
    ap (λ (row : Borrower). text_eq row.wallet_address w) (on_platform-row asked user)

-- After the platform is saved, the row that is found has the credit that it had.
saved_row :
    (asked : Option UserPlatform) (wallet w : Text) (before : LineUser) (s : LineState)
    → find_row (is_wallet_of w) s.users ≡ some before
    → (user : LineUser) × (find_row (is_wallet_of w) (save_line wallet (on_platform asked) s).users
        ≡ some user)
      × (user.row ≡ before.row)
saved_row asked wallet w before s found =
    let there =
      find_row-updated (is_wallet_of w) (is_wallet_of wallet) (on_platform asked) s.users
        (on_platform-wallet asked w) found in
    elim (Bool-cases (is_wallet_of wallet before)) [
      | inl own ↦ (on_platform asked before, there ∙ rw own refl, on_platform-row asked before)
      | inr other ↦ (before, there ∙ rw other refl, refl)
    ]

one_row :
    (wallet w : Text) (before user : LineUser) (s : LineState)
    → find_row (is_wallet_of w) s.users ≡ some before
    → find_row (is_wallet_of wallet) s.users ≡ some user
    → w ≡ wallet
    → user ≡ before
one_row wallet w before user s found there e =
    let same : some user ≡ some before =
      sym there ∙ ap (λ x. find_row (is_wallet_of x) s.users) (sym e) ∙ found in
    cc

-- No verification takes credit away: afterwards the row of any wallet has the score and the limit
-- that it had, or else it is that of a user who had no credit, has the first score and the first
-- limit of one dollar, and the chain has answered 200 to the request for just these. This holds on
-- every branch, those included that refuse.
pub verify-IsLineOf :
    (chain : ChainCredit) (addr : Text) (platform : Option Text) (w : Text) (before : LineUser)
    (s : LineState)
    → find_row (is_wallet_of w) s.users ≡ some before
    → IsLineOf chain w before (verify chain addr platform s).1
unfolding verify
verify-IsLineOf chain addr platform w before s found =
    let asked = normalize_platform platform in
    let stays = unchanged chain w before before s s found refl refl in
    elim (Result-cases (normalize_wallet addr)) [
      | inr (e, bad) ↦ rw (verify, bad) stays
      | inl (wallet, good) ↦ elim (Option-cases (find_row (is_wallet_of wallet) s.users)) [
        | inl absent ↦ rw (verify, good, absent) stays
        | inr (user, there) ↦ elim (Bool-cases (is_falsy user.email)) [
          | inl no_mail ↦ rw (verify, good, there, no_mail) stays
          | inr mail ↦ elim (Bool-cases (is_falsy user.work_type)) [
            | inl no_work ↦ rw (verify, good, there, mail, no_work) stays
            | inr work ↦
                let saved = save_line wallet (on_platform asked) s in
                let current = on_platform asked user in
                let (row, kept, same) = saved_row asked wallet w before s found in
                elim (Result-cases (check_line asked user current saved.users)) [
                  | inr (e, refused) ↦
                      rw (verify, good, there, mail, work, refused)
                        (unchanged chain w before row saved saved kept same refl)
                  | inl (done, passed) ↦
                      rw (verify, good, there, mail, work, passed)
                        (give_line-IsLineOf chain wallet w before row current saved kept same (λ e.
                          on_platform-row asked user
                          ∙ ap (λ (u : LineUser). u.row)
                              (one_row wallet w before user s found there e)))
                ]
          ]
        ]
      ]
    ]
