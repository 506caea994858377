-- ===== src/Tests/Lines.antt =====
-- A first line of credit.
use lendoor_stellar.Common.{◌≡◌, refl, false, none, some, [], ◌∷◌, codes, ok}
use lendoor_stellar.Loans.Score.{default_credit_limit}
use lendoor_stellar.Loans.Grant.{LineUser, LineState, ChainCredit, Line, verify}
use lendoor_stellar.Loans.Grant.Kept.{IsLineOf, verify-IsLineOf}
use lendoor_stellar.Loans.Grant.Gates.{IsAdmitted, verify-IsAdmitted}
use lendoor_stellar.Tests.LedgerSample.{borrower}

abbrev user : LineUser
user = record {
  row = record {
    id = 7;
    wallet_address = borrower;
    score = none;
    credit_limit = none;
    xp = 0;
    had_default_ever = false;
  };
  email = some (codes "a@b.co");
  work_type = some (codes "taxi");
  platform = none;
  terms_accepted_at = some 1;
  created_at = some 1;
  waitlist_priority = none;
  is_self_verified = false;
}

abbrev state : LineState
state = record { users = user ∷ []; writes = [] }

abbrev chain : ChainCredit
chain = record { read_credit_limit = λ w. some 0; give = λ request. some 200 }

abbrev first : Line
first = record {
  already_had_credit = false;
  refreshed_on_chain = false;
  score = 1;
  credit_limit = default_credit_limit;
}

gets_first : (verify chain borrower (some (codes "webapp")) state).0 ≡ ok first
unfolding verify
gets_first = refl

verify-IsAdmitted_example : IsAdmitted borrower (some (codes "webapp")) state
verify-IsAdmitted_example =
    verify-IsAdmitted chain borrower (some (codes "webapp")) state first gets_first

verify-IsLineOf_example :
    IsLineOf chain borrower user (verify chain borrower (some (codes "webapp")) state).1
verify-IsLineOf_example =
    verify-IsLineOf chain borrower (some (codes "webapp")) borrower user state refl
