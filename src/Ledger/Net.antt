-- ===== src/Ledger/Net.antt =====
-- What a list of postings does to an asset, and to one account in one asset: the plain sums that
-- the ledger's running totals are measured against.
use cixtech.Prelude.{
  ℤ, pos, neg, ◌+ℤ◌, ◌<ℤ◌, int_laws, Text, same, if◌then◌else◌, List, [], ◌∷◌, ◌++◌, ◌&&◌, ◌≡◌,
  refl,
}
use cixtech.Ledger.Types.{Direction, Posting, flip}

-- The amount as a change of the account, debits positive.
abbrev pub signed_of : Direction → ℤ → ℤ
signed_of Direction.debit n = n
signed_of Direction.credit n = neg n

abbrev pub signed : Posting → ℤ
signed p = signed_of p.direction p.amount

-- The net of an asset over all accounts.
unfoldable pub net_of_asset : Text → List Posting → ℤ
net_of_asset a [] = pos 0
net_of_asset a (p ∷ ps) = (if same p.asset a then signed p else pos 0) +ℤ net_of_asset a ps

-- The net of one account in one asset.
unfoldable pub net : Text → Text → List Posting → ℤ
net k a [] = pos 0
net k a (p ∷ ps) = (if same p.account k && same p.asset a then signed p else pos 0) +ℤ net k a ps

abbrev pub AllPositive : List Posting → Type 0
AllPositive [] = Unit {0}
AllPositive (p ∷ ps) = (pos 0 <ℤ p.amount) × AllPositive ps

abbrev pub flipped : List Posting → List Posting
flipped [] = []
flipped (p ∷ ps) = record p { direction = flip p.direction } ∷ flipped ps

pub net-append : (k a : Text) (ps qs : List Posting) → net k a (ps ++ qs) ≡ net k a ps +ℤ net k a qs
unfolding net
net-append k a [] qs = omega int_laws
net-append k a (p ∷ ps) qs = rw (net-append k a ps qs) (omega int_laws)

pub net_of_asset-append :
    (a : Text) (ps qs : List Posting)
    → net_of_asset a (ps ++ qs) ≡ net_of_asset a ps +ℤ net_of_asset a qs
unfolding net_of_asset
net_of_asset-append a [] qs = omega int_laws
net_of_asset-append a (p ∷ ps) qs = rw (net_of_asset-append a ps qs) (omega int_laws)

signed_of-flip : (d : Direction) (n : ℤ) → signed_of (flip d) n ≡ neg (signed_of d n)
unfolding flip
signed_of-flip Direction.debit n = refl
signed_of-flip Direction.credit n = omega int_laws

-- Reversing every posting negates every net.
pub net-flipped : (k a : Text) (ps : List Posting) → net k a (flipped ps) ≡ neg (net k a ps)
unfolding net
net-flipped k a [] = omega int_laws
net-flipped k a (p ∷ ps) = grind (int_laws, net-flipped k a ps, signed_of-flip p.direction p.amount)

pub net_of_asset-flipped :
    (a : Text) (ps : List Posting) → net_of_asset a (flipped ps) ≡ neg (net_of_asset a ps)
unfolding net_of_asset
net_of_asset-flipped a [] = omega int_laws
net_of_asset-flipped a (p ∷ ps) =
    grind (int_laws, net_of_asset-flipped a ps, signed_of-flip p.direction p.amount)

pub flipped-AllPositive : (ps : List Posting) → AllPositive ps → AllPositive (flipped ps)
flipped-AllPositive [] h = tt
flipped-AllPositive (p ∷ ps) h = (h.0, flipped-AllPositive ps h.1)
