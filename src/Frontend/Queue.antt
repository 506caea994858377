-- ===== src/Frontend/Queue.antt =====
-- The retry queues in the browser's local storage, frontend/src/lib/loanOpenQueue.ts and
-- frontend/src/lib/repaymentQueue.ts, and the address form they file under,
-- frontend/src/lib/wallet-address.ts. The two queues differ in what an entry says of its amount,
-- the payload. `Date.now()` and the identifier that is drawn are arguments.
pub mod Filing
use lendoor_stellar.Common.{
  ℕ, ◌+◌, ◌-◌, Bool, true, false, not, ◌&&◌, ◌||◌, Option, none, some, List, [], ◌∷◌, ◌++◌, map,
  Text, text_eq, ltb, leb, ◌==◌, if◌then◌else◌, length,
}
use lendoor_stellar.Wallet.{trim, is_evm_address, all_chars, to_lower}
use lendoor_stellar.Cctp.Transfer.{overwrite}

-- "A" to "Z" and "2" to "7"
unfoldable pub is_base32_char : ℕ → Bool
is_base32_char c = (leb b'A' c && leb c b'Z') || (leb b'2' c && leb c b'7')

-- STELLAR_ACCOUNT_ADDRESS_PATTERN
unfoldable pub looks_like_account : Text → Bool
unfolding all_chars is_base32_char
looks_like_account [] = false
looks_like_account (c ∷ s) = c == b'G' && length s == 55 && all_chars is_base32_char s

-- normalizeWalletAddress, of a non-null address with no mode
unfoldable pub normalize_wallet_address : Text → Option Text
unfolding trim is_evm_address looks_like_account
normalize_wallet_address address =
    let trimmed = trim address in
    if is_evm_address trimmed
    then some (map to_lower trimmed)
    else if looks_like_account trimmed
    then some trimmed
    else none

-- What an entry of each queue says of its amount.
pub record LoanOpen : Type 0 where
  pub amount_human : Text
  pub tenor_days : ℕ

pub record Repayment : Type 0 where
  pub amount_paid_human : Text

-- PendingLoanOpen and PendingRepayment
pub record Pending (P : Type 0) : Type 0 where
  pub id : Text
  pub wallet_address : Text
  pub payload : P
  pub tx_hash : Option Text
  pub created_at : ℕ
  pub attempts : ℕ
  pub last_attempt_at : Option ℕ

-- Local storage under the queue's key: what reading and parsing it gives (nothing where it is
-- missing, broken or unavailable), and whether a write succeeds.
pub record Storage (P : Type 0) : Type 0 where
  pub items : List (Pending P)
  pub writable : Bool

-- `normalizeWalletAddress(wallet) ?? wallet`
abbrev pub filed_under : Text → Text
filed_under wallet = elim (normalize_wallet_address wallet) [ none ↦ wallet | some w ↦ w ]

-- A patch has a value for each key that is present.
pub record PendingPatch (P : Type 0) : Type 0 where
  pub id : Option Text
  pub wallet_address : Option Text
  pub payload : Option P
  pub tx_hash : Option (Option Text)
  pub created_at : Option ℕ
  pub attempts : Option ℕ
  pub last_attempt_at : Option (Option ℕ)

module _ {P : Type 0} where
  abbrev pub write_all : List (Pending P) → Storage P → Storage P
  write_all items st = if st.writable then record st { items = items } else st

  abbrev pub keep : (Pending P → Bool) → List (Pending P) → List (Pending P)
  keep p [] = []
  keep p (r ∷ rs) = let rest = keep p rs in if p r then r ∷ rest else rest

  -- `normalizeWalletAddress(r.walletAddress) === normalized`
  abbrev pub is_of : Text → Pending P → Bool
  is_of normalized r = elim (normalize_wallet_address r.wallet_address) [
    | none ↦ false
    | some w ↦ text_eq w normalized
  ]

  unfoldable pub get_pending_for_wallet : Text → Storage P → List (Pending P)
  unfolding normalize_wallet_address
  get_pending_for_wallet wallet st = keep (is_of (filed_under wallet)) st.items

  abbrev pub new_item : Text → ℕ → Text → P → Option Text → Pending P
  new_item id now wallet payload tx_hash = record {
    id = id;
    wallet_address = filed_under wallet;
    payload = payload;
    tx_hash = tx_hash;
    created_at = now;
    attempts = 0;
    last_attempt_at = none;
  }

  unfoldable pub add_pending : Text → ℕ → Text → P → Option Text → Storage P → Pending P × Storage P
  unfolding normalize_wallet_address
  add_pending id now wallet payload tx_hash st =
      let item = new_item id now wallet payload tx_hash in
      (item, write_all (st.items ++ (item ∷ [])) st)

  unfoldable pub remove_pending : Text → Storage P → Storage P
  remove_pending id st = write_all (keep (λ r. not (text_eq r.id id)) st.items) st

  abbrev pub patched : Pending P → PendingPatch P → Pending P
  patched r p = record {
    id = overwrite p.id r.id;
    wallet_address = overwrite p.wallet_address r.wallet_address;
    payload = overwrite p.payload r.payload;
    tx_hash = overwrite p.tx_hash r.tx_hash;
    created_at = overwrite p.created_at r.created_at;
    attempts = overwrite p.attempts r.attempts;
    last_attempt_at = overwrite p.last_attempt_at r.last_attempt_at;
  }

  abbrev pub update_first : Text → PendingPatch P → List (Pending P) → List (Pending P)
  update_first id p [] = []
  update_first id p (r ∷ rs) =
      let rest = update_first id p rs in if text_eq r.id id then patched r p ∷ rs else r ∷ rest

  unfoldable pub update_pending : Text → PendingPatch P → Storage P → Storage P
  update_pending id p st = write_all (update_first id p st.items) st

  -- `now - r.createdAt < maxAgeMs`, without a negative number
  unfoldable pub clear_stale : ℕ → ℕ → Storage P → Storage P
  clear_stale max_age_ms now st =
      write_all (keep (λ r. ltb now (r.created_at + max_age_ms)) st.items) st
