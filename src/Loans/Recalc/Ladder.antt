-- ===== src/Loans/Recalc/Ladder.antt =====
-- Where the recalculation leaves a user.
use lendoor_stellar.Common.{
  ℕ, ◌≡◌, ◌≢◌, refl, ◌∙◌, inl, inr, Bool, true, false, Option, some, List, [], ◌∷◌, arith,
  Bool-cases, Option-cases,
}
use lendoor_stellar.Cctp.Transfer.{is_falsy}
use lendoor_stellar.Credit.Pricing.{score_or_1, or_zero}
use lendoor_stellar.Loans.{Borrower, find_user, count_on_time, is_200, WriteCredit}
use lendoor_stellar.Loans.Score.{Ledger, Credit}
use lendoor_stellar.Loans.Repay.Score.{find_user-save}
use lendoor_stellar.Loans.Recalc.{
  UserRisk, RecalcCalls, error, ladder_credit, is_db_in_sync, is_chain_in_sync, updated,
  update_unless, ladder_write, recalc_on_chain, recalc_user, recalc_level, recalc_levels,
  recalculate_all_limits, by_score, verified_users,
}

-- A user whose score and limit are those of the ladder.
abbrev pub IsOnLadder : Credit → Borrower → Type 0
IsOnLadder c u = (score_or_1 u.score ≡ c.score) × (or_zero u.credit_limit ≡ c.limit)

synced-IsOnLadder : (u : Borrower) (c : Credit) → is_db_in_sync u c ≡ true → IsOnLadder c u
synced-IsOnLadder u c e = (ground arith, ground arith)

update_unless-IsOnLadder :
    (u : Borrower) (c : Credit) (ledger : Ledger) (synced : Bool)
    → is_db_in_sync u c ≡ synced
    → find_user u.id ledger.users ≡ some u
    → (v : Borrower) × (find_user u.id (update_unless synced u c ledger).users ≡ some v)
      × IsOnLadder c v
      × (v.had_default_ever ≡ u.had_default_ever)
update_unless-IsOnLadder u c ledger true e at = (u, at, synced-IsOnLadder u c e, refl)
update_unless-IsOnLadder u c ledger false e at =
    (updated u c, find_user-save u.id u (updated u c) ledger.users at refl, (refl, refl), refl)

recalc_on_chain-IsOnLadder :
    (write : WriteCredit) (u : Borrower) (c : Credit) (risk : Option UserRisk) (ledger : Ledger)
    → find_user u.id ledger.users ≡ some u
    → (recalc_on_chain write u c risk ledger).0 ≢ error
    → (v : Borrower) × (find_user u.id (recalc_on_chain write u c risk ledger).1.users ≡ some v)
      × IsOnLadder c v
      × (v.had_default_ever ≡ u.had_default_ever)
unfolding recalc_on_chain
recalc_on_chain-IsOnLadder write u c risk ledger at ran =
    elim (Bool-cases (is_chain_in_sync risk c)) [
      | inl same ↦ elim (Bool-cases (is_db_in_sync u c)) [
        | inl synced ↦
            rw (recalc_on_chain, same, synced) (u, at, synced-IsOnLadder u c synced, refl)
        | inr stale ↦
            rw (recalc_on_chain, same, stale) (update_unless-IsOnLadder u c ledger false stale at)
      ]
      | inr differs ↦ elim (Bool-cases (is_200 (write (ladder_write u c)))) [
        | inl written ↦
            rw (recalc_on_chain, differs, written)
              (update_unless-IsOnLadder u c _ (is_db_in_sync u c) refl at)
        | inr refused ↦ absurd (ran (rw (recalc_on_chain, differs, refused) refl))
      ]
    ]

ran_on_chain :
    (calls : RecalcCalls) (u : Borrower) (risk : Option UserRisk) (ledger : Ledger)
    → is_falsy (some u.wallet_address) ≡ false
    → calls.read_risk u.wallet_address ≡ some risk
    → (recalc_user calls u true ledger).0 ≢ error
    → (recalc_on_chain calls.write u
        (ladder_credit (count_on_time u.id ledger.loans))
        risk
        ledger).0
      ≢ error
unfolding recalc_user
ran_on_chain calls u risk ledger wallet read ran e = ran (rw (recalc_user, wallet, read) e)

-- A run for a user with a wallet that does not end in an error leaves the score and the limit of the
-- row at what the ladder gives for the loans repaid on time, whatever they were, and whether or not the
-- user has a default on record.
pub recalc_user-IsOnLadder :
    (calls : RecalcCalls) (u : Borrower) (check_chain : Bool) (ledger : Ledger)
    → is_falsy (some u.wallet_address) ≡ false
    → find_user u.id ledger.users ≡ some u
    → (recalc_user calls u check_chain ledger).0 ≢ error
    → (v : Borrower) × (find_user u.id (recalc_user calls u check_chain ledger).1.users ≡ some v)
      × IsOnLadder (ladder_credit (count_on_time u.id ledger.loans)) v
      × (v.had_default_ever ≡ u.had_default_ever)
unfolding recalc_user
recalc_user-IsOnLadder calls u true ledger wallet at ran =
    elim (Option-cases (calls.read_risk u.wallet_address)) [
      | inl failed ↦ absurd (ran (rw (recalc_user, wallet, failed) refl))
      | inr (risk, read) ↦
          let c = ladder_credit (count_on_time u.id ledger.loans) in
          rw (recalc_user, wallet, read)
            (recalc_on_chain-IsOnLadder calls.write u c risk ledger at
              (ran_on_chain calls u risk ledger wallet read ran))
    ]
recalc_user-IsOnLadder calls u false ledger wallet at ran =
    let c = ladder_credit (count_on_time u.id ledger.loans) in
    elim (Bool-cases (is_db_in_sync u c)) [
      | inl synced ↦ rw (recalc_user, wallet, synced) (u, at, synced-IsOnLadder u c synced, refl)
      | inr stale ↦
          rw (recalc_user, wallet, stale) (update_unless-IsOnLadder u c ledger false stale at)
    ]

-- The recalculation is no matter of the loans.
update_unless-loans :
    (synced : Bool) (u : Borrower) (c : Credit) (ledger : Ledger)
    → (update_unless synced u c ledger).loans ≡ ledger.loans
update_unless-loans true u c ledger = refl
update_unless-loans false u c ledger = refl

recalc_on_chain-loans :
    (write : WriteCredit) (u : Borrower) (c : Credit) (risk : Option UserRisk) (ledger : Ledger)
    → (recalc_on_chain write u c risk ledger).1.loans ≡ ledger.loans
unfolding recalc_on_chain
recalc_on_chain-loans write u c risk ledger = elim (Bool-cases (is_chain_in_sync risk c)) [
  | inl same ↦ elim (Bool-cases (is_db_in_sync u c)) [
    | inl synced ↦ rw (recalc_on_chain, same, synced) refl
    | inr stale ↦ rw (recalc_on_chain, same, stale) refl
  ]
  | inr differs ↦ elim (Bool-cases (is_200 (write (ladder_write u c)))) [
    | inl written ↦
        rw (recalc_on_chain, differs, written) (update_unless-loans (is_db_in_sync u c) u c _)
    | inr refused ↦ rw (recalc_on_chain, differs, refused) refl
  ]
]

recalc_user-loans :
    (calls : RecalcCalls) (u : Borrower) (check_chain : Bool) (ledger : Ledger)
    → (recalc_user calls u check_chain ledger).1.loans ≡ ledger.loans
unfolding recalc_user
recalc_user-loans calls u check_chain ledger =
    let c = ladder_credit (count_on_time u.id ledger.loans) in
    elim (Bool-cases (is_falsy (some u.wallet_address))) [
      | inl nowhere ↦ rw (recalc_user, nowhere) refl
      | inr wallet ↦ elim (Bool-cases check_chain) [
        | inl on_chain ↦ elim (Option-cases (calls.read_risk u.wallet_address)) [
          | inl failed ↦ rw (recalc_user, wallet, on_chain, failed) refl
          | inr (risk, read) ↦
              rw (recalc_user, wallet, on_chain, read)
                (recalc_on_chain-loans calls.write u c risk ledger)
        ]
        | inr off_chain ↦ elim (Bool-cases (is_db_in_sync u c)) [
          | inl synced ↦ rw (recalc_user, wallet, off_chain, synced) refl
          | inr stale ↦ rw (recalc_user, wallet, off_chain, stale) refl
        ]
      ]
    ]

recalc_level-loans :
    (calls : RecalcCalls) (check_chain : Bool) (us : List Borrower) (ledger : Ledger)
    → (recalc_level calls check_chain us ledger).loans ≡ ledger.loans
unfolding recalc_level
recalc_level-loans calls check_chain [] ledger = refl
recalc_level-loans calls check_chain (u ∷ us) ledger =
    recalc_level-loans calls check_chain us _ ∙ recalc_user-loans calls u check_chain ledger

recalc_levels-loans :
    (calls : RecalcCalls) (groups : List (ℕ × List Borrower)) (ledger : Ledger)
    → (recalc_levels calls groups ledger).loans ≡ ledger.loans
unfolding recalc_levels
recalc_levels-loans calls [] ledger = refl
recalc_levels-loans calls ((_, users) ∷ rest) ledger =
    recalc_levels-loans calls rest _ ∙ recalc_level-loans calls _ users ledger

pub recalculate_all_limits-loans :
    (calls : RecalcCalls) (ledger : Ledger)
    → (recalculate_all_limits calls ledger).loans ≡ ledger.loans
unfolding recalculate_all_limits
recalculate_all_limits-loans calls ledger =
    recalc_levels-loans calls (by_score (verified_users ledger.users) []) ledger
