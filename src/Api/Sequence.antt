-- ===== src/Api/Sequence.antt =====
-- crates/session-sync-protocol/src/api.rs: live record indexes.
pub mod Visitor
pub mod Ascending
use attached.Common.{
  ℕ, zero, suc, Bool, true, false, not, ◌&&◌, ◌||◌, ltb, ◌==◌, if◌then◌else◌, length, List, [], ◌∷◌,
  ◌++◌, Bytes, Result, ok, err, ◌>>=◌, ◌>>◌,
}
use attached.Api.Envelope.{ApiError, invalid_request}

abbrev pub max_live_records : ℕ
max_live_records = 128

pub record LiveRecordIndexEntry : Type 0 where
  pub record_id : Bytes
  pub revision : ℕ

pub record LiveRecordIndex : Type 0 where
  pub records : List LiveRecordIndexEntry

-- `<` of the order that is derived for byte arrays.
unfoldable pub is_less : Bytes → Bytes → Bool
is_less xs [] = false
is_less [] (y ∷ ys) = true
is_less (x ∷ xs) (y ∷ ys) = ltb x y || (x == y && is_less xs ys)

-- `any(|record| record.revision == 0)`
unfoldable pub any_unrevised : List LiveRecordIndexEntry → Bool
any_unrevised [] = false
any_unrevised (entry ∷ entries) = entry.revision == 0 || any_unrevised entries

-- `windows(2)` of an entry and the entries behind it.
unfoldable pub any_descent : LiveRecordIndexEntry → List LiveRecordIndexEntry → Bool
any_descent entry [] = false
any_descent entry (next ∷ entries) =
    not (is_less entry.record_id next.record_id) || any_descent next entries

unfoldable pub any_disorder : List LiveRecordIndexEntry → Bool
any_disorder [] = false
any_disorder (entry ∷ entries) = any_descent entry entries

unfoldable pub validate_index : List LiveRecordIndexEntry → Result ApiError (Unit {0})
validate_index records =
    if ltb max_live_records (length records)
    then err invalid_request
    else if any_unrevised records
    then err invalid_request
    else if any_disorder records
    then err invalid_request
    else ok tt

unfoldable pub new_index : List LiveRecordIndexEntry → Result ApiError LiveRecordIndex
new_index records = do
  let index : LiveRecordIndex = record { records = records }
  validate_index records
  ok index
