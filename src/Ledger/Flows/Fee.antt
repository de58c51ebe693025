-- ===== src/Ledger/Flows/Fee.antt =====
-- The fee of a deposit.
use cixtech.Prelude.{ℕ, pos, quot, pos_*ℤ_pos, pos_-ℤ_pos, ◌*◌, ◌+◌, ◌-◌, ◌/◌, ◌≤◌, ◌<◌, ◌≡◌, arith}
use cixtech.Errors.{ok}
use cixtech.Ledger.Types.{JsNumber}
use cixtech.Ledger.Flows.{split_fee}

-- On a positive amount and a whole rate below 10000 the split returns the fee rounded down to a
-- base unit, and the rest, which is positive; the two make up the amount.
pub split_fee_lem :
    (amount bps : ℕ)
    → 0 < amount
    → bps < 10_000
    → (fee net : ℕ) × (split_fee (pos amount) (JsNumber.integer (pos bps)) ≡ ok (pos fee, pos net))
      × (fee + net ≡ amount)
      × (0 < net)
      × (fee * 10_000 ≤ amount * bps)
      × (amount * bps < fee * 10_000 + 10_000)
unfolding split_fee quot
split_fee_lem amount bps h k =
    let fee = amount * bps / 10_000 in
    let small : amount * bps < amount * 10_000 = grind arith in
    (
      fee,
      amount - fee,
      ground (arith, pos_*ℤ_pos amount bps, pos_-ℤ_pos amount fee),
      omega arith,
      omega arith,
      omega arith,
      omega arith,
    )
