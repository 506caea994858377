-- ===== src/Lib.antt =====
-- Lendoor on Stellar: a verification library for the TypeScript backend and client.
--
-- The program lends small sums of USDC. Its money arrives over Circle's CCTP bridge: a burn on an
-- EVM chain becomes a transfer row, which is polled against Circle's attestation service (Iris) and
-- against the chain's record of consumed nonces, and then delivered by a mint and, in vault mode,
-- by a deposit for the beneficiary. Its loans follow a ladder of limits that on-time repayments
-- climb, priced by tiers of risk, with late fees after a grace period. Around these stand identity
-- verification, a phone code, the sponsorship of transaction fees, and a client that retries what
-- the network lost.
--
-- Parts and files (paths from the repository's root):
-- - Common and its children: lists, text as code points, results, Boolean tests.
-- - Cctp.Transfer: backend/src/cctp/cctp-transfer.ts. `transition`, `iris_status_from_http` and
--   `reconcile` are the functions of the same names; a row is the record `Transfer`, and a patch
--   tells an absent key from one that is present and undefined. Its children hold the laws of a
--   transition (Legal), of one reconciliation (Reconcile), of Iris answers (Iris) and of whole
--   histories (Lifecycle, a step relation).
-- - Cctp.Message, Cctp.Errors, Cctp.Utf8, Cctp.Strkey: backend/src/cctp/cctp-message.ts. Layout
--   writes down the format that Circle documents as an encoder, which the parser is compared with.
--   The checks of StrKey belong to the Stellar SDK and are the parameter `StrKey`; what is relied
--   on, that strkeys are short ASCII text, is `IsStrKey`.
-- - Cctp.Delivery: backend/src/cctp/stellar-mint.ts. Cctp.Chains: backend/src/cctp/cctp-chains.ts.
--   Cctp.IrisClient: backend/src/cctp/iris-client.ts.
-- - Cctp.Executor: backend/src/cctp/cctp-executor.ts, over a network whose answers are arguments and
--   with a log of the calls made, so that what a delivery costs can be stated. Cctp.Burn:
--   backend/src/cctp/evm-burn.ts, with the encoder's calls kept as their arguments.
-- - Credit.Ladder, Credit.Pricing: backend/src/domain/services/credit-policy.service.ts and the fee
--   of a term in backend/src/loan/loan.service.ts, in exact arithmetic where the source has
--   doubles and decimals. Credit.Late: backend/src/loan/loan-calculations.service.ts.
--   Credit.Repayment: preflightRepayment of backend/src/loan/loan-repayment.service.ts and
--   backend/src/loan/borrow-cooldown.ts. Credit.Tiers: frontend/src/lib/tiers.ts and
--   shared/tierHelpers.ts.
-- - Loans: the rows of loans and users (backend/src/domain/entities) and the services that close
--   loans, for the Stellar deployment. Score: updateCreditScore; Reconcile: reconcileLoan; Sync:
--   syncLoansWithChain; Scan: scanLoanOpenedEvents and insertMissingLoan; Recalc:
--   recalculateAllLimits, all of backend/src/loan/chain-sync.service.ts. Repay: processRepayment of
--   backend/src/loan/loan-repayment.service.ts. Offer and Opening: borrow and informLoanOpened of
--   backend/src/loan/loan.service.ts. Grant: verify of backend/src/loan/loan-verification.service.ts.
--   Table holds what rows may stand beside each other, and History
--   the steps that two of the jobs and the reports of repayments take on one database. Every answer
--   of the chain is an argument, a failed call included.
-- - Wallet: backend/src/common/stellar-strkey.ts and backend/src/common/normalize-wallet.ts.
-- - Identity.Kyc: backend/src/kyc. Identity.PhoneOtp: backend/src/user/phone-otp.service.ts. Both
--   act on a table that is a function of the normalised wallet.
-- - Auth: backend/src/auth/auth.service.ts, with the cache as a parameter and its documented behaviour
--   as laws (`IsCache`). SignIn: the two sign-ins; Sessions: refresh, validation and cleanup;
--   Overlap: what a sign-in, a refresh and a validation do after their tests; Calls: any calls in a
--   row, each whole, or its tests at one time and the rest of it after other calls; Changes: the
--   changes that a call is made of, over which Spent, RevokedRows, Revoked, Short, Honest and Lemon
--   hold what lasts.
-- - WalletLink: backend/src/wallet-link/wallet-link.service.ts. Codes: start, session and
--   validateLinkSession; Wallets: createNonce, verify and cleanup.
-- - Sponsor: backend/src/sponsor/fee-bump.ts; Fee and Policy hold its laws.
-- - Frontend.Queue: frontend/src/lib/loanOpenQueue.ts, frontend/src/lib/repaymentQueue.ts and
--   frontend/src/lib/wallet-address.ts. Frontend.CreditStore: frontend/src/stores/creditStore.ts.
-- - Tests: concrete runs.
--
-- The parts meet in these places: the executor calls the delivery plan, which calls the message
-- parser, and the state machine; the client's tiers mirror the ladder of the backend; the identity
-- services find their rows by the wallet module's normal form; the loan services climb the credit
-- ladder and write to one table of loans and one of users.
--
-- Every loop is a recursion on the list, the text or the fixed number of bytes or bits that the source
-- loops over (32 bytes of a word, 8 rounds and 16 bits of a CRC). The one definition on fuel writes a
-- number in decimal (Loans.Opening): it is given one more than the number, which is enough for the
-- digits to be read back (Loans.Opening.Decimal).
--
-- Not modelled: the database, HTTP and SDK calls themselves; the renewal
-- of offers and the late-fee snapshot of the synchronisation, and what happens between the calls of a
-- job when another runs; user profiles; the user interface; the contracts, which are written in Rust.
pub mod Common
pub mod Auth
pub mod Cctp
pub mod Credit
pub mod Loans
pub mod Wallet
pub mod Identity
pub mod WalletLink
pub mod Sponsor
pub mod Frontend
pub mod Tests
