-- ===== src/Storage/Ids.antt =====
-- chiffondb-core/src/storage/page.rs and record.rs: record ids and their bytes.
use chiffondb.Prelude.{
  ℕ, ◌≡◌, refl, Bool, true, false, ◌&&◌, Option, none, some, List, [], ◌∷◌, length, arith, ◌==◌,
  if◌then◌else◌, replicate,
}
use chiffondb.Bytes.Slices.{slice, patch}
use chiffondb.Bytes.Words.{IsU16, IsU32, le_bytes_u16, le_bytes_u32, from_le_bytes}

-- `RecordId`: `PageId(u32)` and `SlotId(u16)`.
pub record RecordId : Type 0 where
  pub page_id : ℕ
  pub slot_id : ℕ

pub record IsRid (r : RecordId) : Type 0 where
  pub page : IsU32 r.page_id
  pub slot : IsU16 r.slot_id

-- `==` of two record ids, derived in the source.
abbrev pub rid_eq : RecordId → RecordId → Bool
rid_eq a b = a.page_id == b.page_id && a.slot_id == b.slot_id

abbrev pub IsRidOption : Option RecordId → Type 0
IsRidOption none = Unit
IsRidOption (some r) = IsRid r

unfoldable pub null_record : List ℕ
null_record = 255 ∷ 255 ∷ 255 ∷ 255 ∷ 255 ∷ 255 ∷ 255 ∷ []

-- `*buf == NULL_RECORD`: equality of byte arrays.
abbrev pub bytes_eq : List ℕ → List ℕ → Bool
bytes_eq [] [] = true
bytes_eq [] (b ∷ bs) = false
bytes_eq (a ∷ as') [] = false
bytes_eq (a ∷ as') (b ∷ bs) = a == b && bytes_eq as' bs

unfoldable pub encode_record_id : Option RecordId → List ℕ
unfolding null_record replicate
encode_record_id none = null_record
encode_record_id (some r) =
    patch 6 (0 ∷ [])
      (patch 4 (le_bytes_u16 r.slot_id) (patch 0 (le_bytes_u32 r.page_id) (replicate 7 0)))

unfoldable pub decode_record_id : List ℕ → Option RecordId
unfolding null_record
decode_record_id buf =
    if bytes_eq buf null_record
    then none
    else some (record {
      page_id = from_le_bytes (slice 0 4 buf);
      slot_id = from_le_bytes (slice 4 2 buf);
    })

unfoldable pub encode_record_id_6 : RecordId → List ℕ
unfolding replicate
encode_record_id_6 r =
    patch 4 (le_bytes_u16 r.slot_id) (patch 0 (le_bytes_u32 r.page_id) (replicate 6 0))

unfoldable pub decode_record_id_6 : List ℕ → RecordId
decode_record_id_6 buf = record {
  page_id = from_le_bytes (slice 0 4 buf);
  slot_id = from_le_bytes (slice 4 2 buf);
}

pub length-encode_record_id : (r : Option RecordId) → length (encode_record_id r) ≡ 7
unfolding encode_record_id le_bytes_u16 le_bytes_u32 patch
length-encode_record_id none = refl
length-encode_record_id (some r) = refl

pub length-encode_record_id_6 : (r : RecordId) → length (encode_record_id_6 r) ≡ 6
unfolding encode_record_id_6 le_bytes_u16 le_bytes_u32 patch
length-encode_record_id_6 r = refl

pub decode_record_id_6-encode_record_id_6 :
    (r : RecordId) → IsRid r → decode_record_id_6 (encode_record_id_6 r) ≡ r
unfolding encode_record_id_6 decode_record_id_6 le_bytes_u16 le_bytes_u32 patch slice from_le_bytes
decode_record_id_6-encode_record_id_6 r h = ground arith

pub decode_record_id-encode_record_id :
    (r : Option RecordId) → IsRidOption r → decode_record_id (encode_record_id r) ≡ r
unfolding encode_record_id decode_record_id le_bytes_u16 le_bytes_u32 patch slice from_le_bytes
decode_record_id-encode_record_id none h = refl
decode_record_id-encode_record_id (some r) h = ground arith
