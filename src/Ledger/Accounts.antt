-- ===== src/Ledger/Accounts.antt =====
-- backend/src/ledger/account-classify.ts and types/enums/account-type.ts, with the naming
-- convention of the account keys that the services build.
use cixtech.Prelude.{
  ℤ, neg, Text, codes, Text-discrete, same, includes, starts_with, ends_with, before, ◌||◌,
  if◌then◌else◌, [], ◌∷◌, ◌++◌, ◌≡◌, refl,
}
use cixtech.Errors.{Result, ok, err, Error, ◌>>=◌}
use cixtech.Ledger.Types.{Direction}

pub data AccountType : Type 0 where
  liability asset revenue expense : AccountType

-- `NORMAL_SIDE`
abbrev pub normal_side : AccountType → Direction
normal_side AccountType.liability = Direction.credit
normal_side AccountType.asset = Direction.debit
normal_side AccountType.revenue = Direction.credit
normal_side AccountType.expense = Direction.debit

-- The classification of a prefix, in the order of the source's tests.
type_of_prefix : Text → Result AccountType
type_of_prefix prefix =
    if starts_with prefix (codes "merchant_") || same prefix (codes "compliance_suspense")
    then ok AccountType.liability
    else if starts_with prefix (codes "pool_addr")
        || includes (codes "treasury" ∷ codes "cold" ∷ codes "gas_float" ∷ []) prefix
    then ok AccountType.asset
    else if ends_with prefix (codes "_revenue")
    then ok AccountType.revenue
    else if ends_with prefix (codes "_expense")
    then ok AccountType.expense
    else err Error.plain

unfoldable pub account_type_of : Text → Result AccountType
unfolding type_of_prefix
account_type_of key = type_of_prefix (before b':' key)

-- The sign that brings a net with debits positive into the account's normal direction.
abbrev pub in_direction : Direction → ℤ → ℤ
in_direction Direction.debit n = n
in_direction Direction.credit n = neg n

unfoldable pub normal_balance : Text → ℤ → Result ℤ
normal_balance key signed = do
  type ← account_type_of key
  ok (in_direction (normal_side type) signed)

-- The account keys.
unfoldable pub merchant_available : Text → Text → Text
merchant_available tenant merchant =
    codes "merchant_available:" ++ (tenant ++ (codes ":" ++ merchant))

unfoldable pub merchant_pending_withdrawal : Text → Text → Text
merchant_pending_withdrawal tenant merchant =
    codes "merchant_pending_withdrawal:" ++ (tenant ++ (codes ":" ++ merchant))

unfoldable pub pool_addr : Text → Text → Text
pool_addr chain merchant = codes "pool_addr:" ++ (chain ++ (codes ":" ++ merchant))

unfoldable pub compliance_suspense : Text → Text
compliance_suspense tenant = codes "compliance_suspense:" ++ tenant

unfoldable pub egofi_fee_revenue : Text → Text
egofi_fee_revenue tenant = codes "egofi_fee_revenue:" ++ tenant

unfoldable pub treasury : Text → Text
treasury chain = codes "treasury:" ++ chain

-- Every key that the services build has the type that its name says.
pub account_type_of_keys :
    (t m c : Text)
    → (account_type_of (merchant_available t m) ≡ ok AccountType.liability)
      × (account_type_of (merchant_pending_withdrawal t m) ≡ ok AccountType.liability)
      × (account_type_of (compliance_suspense t) ≡ ok AccountType.liability)
      × (account_type_of (pool_addr c m) ≡ ok AccountType.asset)
      × (account_type_of (treasury c) ≡ ok AccountType.asset)
      × (account_type_of (egofi_fee_revenue t) ≡ ok AccountType.revenue)
unfolding account_type_of merchant_available merchant_pending_withdrawal compliance_suspense
    pool_addr treasury egofi_fee_revenue Text-discrete
account_type_of_keys t m c = (refl, refl, refl, refl, refl, refl)
