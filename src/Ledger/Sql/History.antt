-- ===== src/Ledger/Sql/History.antt =====
-- The SQL ledger after any history of posts, accepted or refused, from the empty tables.
use cixtech.Prelude.{pos, int_laws, Text, Bool, true, false, List, [], ◌∷◌, ◌≡◌, refl, ◌∙◌}
use cixtech.Errors.{Result, ok, err}
use cixtech.Ledger.Types.{JournalEntry}
use cixtech.Ledger.Net.{net_of_asset, net_of_asset-append}
use cixtech.Ledger.Store.{AreStorable, TotalsByType}
use cixtech.Ledger.Totals.Equation.{imbalance, imbalance-Sql}
use cixtech.Ledger.Service.{post}
use cixtech.Ledger.Service.Reverse.{post-ok}
use cixtech.Ledger.Sql.{SqlLedger, empty, posted, reconcile_internal, totals_by_type}
use cixtech.Ledger.Sql.Append.{append-applied, append-not_applied, posted-append}
use cixtech.Ledger.Sql.Sound.{
  IsSound, empty-IsSound, append-IsSound, store, reconcile_internal-IsSound,
}

-- The state that a call leaves: an exception rolls back.
abbrev pub left : SqlLedger → Result (Bool × SqlLedger) → SqlLedger
left db (ok (_, db')) = db'
left db (err _) = db

unfoldable pub post_all : List JournalEntry → SqlLedger → SqlLedger
post_all [] db = db
post_all (e ∷ es) db = post_all es (left db (post store e db))

abbrev pub AllStorable : List JournalEntry → Type 0
AllStorable [] = Unit {0}
AllStorable (e ∷ es) = AreStorable e.postings × AllStorable es

-- What every history keeps.
record IsKept (db : SqlLedger) : Type 0 where
  sound : IsSound db
  neutral : (a : Text) → net_of_asset a (posted db.posting) ≡ pos 0

empty-IsKept : IsKept empty
unfolding empty net_of_asset
empty-IsKept = record { sound = empty-IsSound; neutral = λ a. refl }

posted-IsKept :
    (e : JournalEntry) (b : Bool) (db db' : SqlLedger)
    → AreStorable e.postings
    → IsKept db
    → post store e db ≡ ok (b, db')
    → IsKept db'
unfolding store
posted-IsKept e true db db' n v h =
    let (balanced, q) = post-ok store e true db db' h in
    let (_, w) = append-applied e db db' q in
    record {
      sound = append-IsSound e true db db' n v.sound q;
      neutral = λ a.
          rw
            (
              w,
              posted-append db.posting e.id e.postings,
              net_of_asset-append a (posted db.posting) e.postings,
              v.neutral a,
              balanced.2 a,
            )
            (omega int_laws);
    }
posted-IsKept e false db db' n v h =
    let (_, q) = post-ok store e false db db' h in rw ((append-not_applied e db db' q).0) v

left-IsKept :
    (e : JournalEntry) (db : SqlLedger) (r : Result (Bool × SqlLedger))
    → AreStorable e.postings
    → IsKept db
    → post store e db ≡ r
    → IsKept (left db r)
left-IsKept e db (ok (b, db')) n v h = posted-IsKept e b db db' n v h
left-IsKept e db (err _) n v h = v

post_all-IsKept :
    (es : List JournalEntry) (db : SqlLedger) → AllStorable es → IsKept db → IsKept (post_all es db)
unfolding post_all
post_all-IsKept [] db n v = v
post_all-IsKept (e ∷ es) db n v =
    post_all-IsKept es (left db (post store e db)) n.1 (left-IsKept e db _ n.0 v refl)

-- Whatever sequence of entries is posted to the empty SQL ledger, with assets that can be stored and
-- refused entries rolled back, the internal reconciliation afterwards reports no drift.
pub reconcile_internal-post_all :
    (es : List JournalEntry) → AllStorable es → reconcile_internal (post_all es empty) ≡ []
reconcile_internal-post_all es n =
    reconcile_internal-IsSound (post_all es empty) (post_all-IsKept es empty n empty-IsKept).sound

-- After any sequence of posts to the empty SQL ledger, with assets that can be stored and refused
-- entries rolled back, the totals that it reports by account type satisfy the accounting equation
-- in every asset: assets and expenses are liabilities and revenue.
pub imbalance-post_all :
    (es : List JournalEntry) (t : TotalsByType) (a : Text)
    → AllStorable es
    → totals_by_type (post_all es empty) ≡ ok t
    → imbalance t a ≡ pos 0
imbalance-post_all es t a n h =
    imbalance-Sql (post_all es empty) t a h ∙ (post_all-IsKept es empty n empty-IsKept).neutral a
