-- ===== src/Storage/Header/Layout.antt =====
-- The header's fields in its bytes, and what `deserialize` accepts.
use chiffondb.Prelude.{
  ℕ, ◌≡◌, refl, sym, ap, ◌∙◌, inl, inr, true, Bool-cases, List, [], ◌∷◌, length, replicate,
  length-replicate, Result, ok, err, panic, ◌==◌, ==_iff, arith,
}
use chiffondb.Bytes.Slices.{slice}
use chiffondb.Bytes.Words.{from_le_bytes, length-le_bytes_u32, from_le_bytes-le_bytes_u32}
use chiffondb.Bytes.Layout.{slice-write_fields, length-write_fields, length-zeros}
use chiffondb.Storage.Ids.{bytes_eq}
use chiffondb.Storage.Page.{page_size}
use chiffondb.Storage.Header.{
  FileHeader, IsFileHeader, magic, format_version, header_fields, word, serialize, deserialize,
}

pub length-serialize : (h : FileHeader) → length (serialize h) ≡ page_size
unfolding serialize
length-serialize h =
    length-write_fields (header_fields h) (replicate page_size 0) ∙ length-replicate page_size 0

ruleset field_laws = (arith, length-le_bytes_u32, length-zeros)

bytes_eq_self : (bytes : List ℕ) → bytes_eq bytes bytes ≡ true
bytes_eq_self [] = refl
bytes_eq_self (b ∷ bytes) = rw ((==_iff b b).1 refl) (bytes_eq_self bytes)

bytes_eq_sound : (a b : List ℕ) → bytes_eq a b ≡ true → a ≡ b
bytes_eq_sound [] [] h = refl
bytes_eq_sound [] (y ∷ b) h = absurd cc
bytes_eq_sound (x ∷ a) [] h = absurd cc
bytes_eq_sound (x ∷ a) (y ∷ b) h = elim (Bool-cases (x == y)) [
  | inl same ↦
      let e : x ≡ y = (==_iff x y).0 same in
      let rest = bytes_eq_sound a b (rw same at h) in λ i. e i ∷ rest i
  | inr other ↦ absurd cc (rw other at h)
]

module _ (h : FileHeader) where
  magic_at_start : slice 0 8 (serialize h) ≡ magic
  unfolding serialize magic
  magic_at_start =
      slice-write_fields 0 (header_fields h) (replicate page_size 0) refl (omega field_laws)
        (omega field_laws) (omega field_laws)

  word_version : IsFileHeader h → word (serialize h) 8 ≡ h.version
  unfolding serialize magic
  word_version fits =
      ap from_le_bytes (
        slice-write_fields 1 (header_fields h) (replicate page_size 0) refl (omega field_laws)
          (omega field_laws) (omega field_laws))
      ∙ from_le_bytes-le_bytes_u32 h.version fits.version_fits

  word_label_index_root : IsFileHeader h → word (serialize h) 16 ≡ h.label_index_root
  unfolding serialize magic
  word_label_index_root fits =
      ap from_le_bytes (
        slice-write_fields 3 (header_fields h) (replicate page_size 0) refl (omega field_laws)
          (omega field_laws) (omega field_laws))
      ∙ from_le_bytes-le_bytes_u32 h.label_index_root fits.label_index_root_fits

  word_property_index_root : IsFileHeader h → word (serialize h) 20 ≡ h.property_index_root
  unfolding serialize magic
  word_property_index_root fits =
      ap from_le_bytes (
        slice-write_fields 4 (header_fields h) (replicate page_size 0) refl (omega field_laws)
          (omega field_laws) (omega field_laws))
      ∙ from_le_bytes-le_bytes_u32 h.property_index_root fits.property_index_root_fits

  word_schema_root : IsFileHeader h → word (serialize h) 32 ≡ h.schema_root
  unfolding serialize magic
  word_schema_root fits =
      ap from_le_bytes (
        slice-write_fields 5 (header_fields h) (replicate page_size 0) refl (omega field_laws)
          (omega field_laws) (omega field_laws))
      ∙ from_le_bytes-le_bytes_u32 h.schema_root fits.schema_root_fits

  word_schema_version : IsFileHeader h → word (serialize h) 36 ≡ h.schema_version
  unfolding serialize magic
  word_schema_version fits =
      ap from_le_bytes (
        slice-write_fields 6 (header_fields h) (replicate page_size 0) refl (omega field_laws)
          (omega field_laws) (omega field_laws))
      ∙ from_le_bytes-le_bytes_u32 h.schema_version fits.schema_version_fits

  word_node_page_count : IsFileHeader h → word (serialize h) 40 ≡ h.node_page_count
  unfolding serialize magic
  word_node_page_count fits =
      ap from_le_bytes (
        slice-write_fields 7 (header_fields h) (replicate page_size 0) refl (omega field_laws)
          (omega field_laws) (omega field_laws))
      ∙ from_le_bytes-le_bytes_u32 h.node_page_count fits.node_page_count_fits

  word_edge_page_count : IsFileHeader h → word (serialize h) 44 ≡ h.edge_page_count
  unfolding serialize magic
  word_edge_page_count fits =
      ap from_le_bytes (
        slice-write_fields 8 (header_fields h) (replicate page_size 0) refl (omega field_laws)
          (omega field_laws) (omega field_laws))
      ∙ from_le_bytes-le_bytes_u32 h.edge_page_count fits.edge_page_count_fits

  word_property_dir_root : IsFileHeader h → word (serialize h) 48 ≡ h.property_dir_root
  unfolding serialize magic
  word_property_dir_root fits =
      ap from_le_bytes (
        slice-write_fields 9 (header_fields h) (replicate page_size 0) refl (omega field_laws)
          (omega field_laws) (omega field_laws))
      ∙ from_le_bytes-le_bytes_u32 h.property_dir_root fits.property_dir_root_fits

  word_property_dir_len : IsFileHeader h → word (serialize h) 52 ≡ h.property_dir_len
  unfolding serialize magic
  word_property_dir_len fits =
      ap from_le_bytes (
        slice-write_fields 10 (header_fields h) (replicate page_size 0) refl (omega field_laws)
          (omega field_laws) (omega field_laws))
      ∙ from_le_bytes-le_bytes_u32 h.property_dir_len fits.property_dir_len_fits

  word_node_dir_root : IsFileHeader h → word (serialize h) 56 ≡ h.node_dir_root
  unfolding serialize magic
  word_node_dir_root fits =
      ap from_le_bytes (
        slice-write_fields 11 (header_fields h) (replicate page_size 0) refl (omega field_laws)
          (omega field_laws) (omega field_laws))
      ∙ from_le_bytes-le_bytes_u32 h.node_dir_root fits.node_dir_root_fits

  word_edge_dir_root : IsFileHeader h → word (serialize h) 60 ≡ h.edge_dir_root
  unfolding serialize magic
  word_edge_dir_root fits =
      ap from_le_bytes (
        slice-write_fields 12 (header_fields h) (replicate page_size 0) refl (omega field_laws)
          (omega field_laws) (omega field_laws))
      ∙ from_le_bytes-le_bytes_u32 h.edge_dir_root fits.edge_dir_root_fits

  word_node_first_free_page : IsFileHeader h → word (serialize h) 64 ≡ h.node_first_free_page
  unfolding serialize magic
  word_node_first_free_page fits =
      ap from_le_bytes (
        slice-write_fields 13 (header_fields h) (replicate page_size 0) refl (omega field_laws)
          (omega field_laws) (omega field_laws))
      ∙ from_le_bytes-le_bytes_u32 h.node_first_free_page fits.node_first_free_page_fits

  word_edge_first_free_page : IsFileHeader h → word (serialize h) 68 ≡ h.edge_first_free_page
  unfolding serialize magic
  word_edge_first_free_page fits =
      ap from_le_bytes (
        slice-write_fields 14 (header_fields h) (replicate page_size 0) refl (omega field_laws)
          (omega field_laws) (omega field_laws))
      ∙ from_le_bytes-le_bytes_u32 h.edge_first_free_page fits.edge_first_free_page_fits

  word_property_first_free_page :
      IsFileHeader h → word (serialize h) 72 ≡ h.property_first_free_page
  unfolding serialize magic
  word_property_first_free_page fits =
      ap from_le_bytes (
        slice-write_fields 15 (header_fields h) (replicate page_size 0) refl (omega field_laws)
          (omega field_laws) (omega field_laws))
      ∙ from_le_bytes-le_bytes_u32 h.property_first_free_page fits.property_first_free_page_fits

  word_property_free_list_head : IsFileHeader h → word (serialize h) 76 ≡ h.property_free_list_head
  unfolding serialize magic
  word_property_free_list_head fits =
      ap from_le_bytes (
        slice-write_fields 16 (header_fields h) (replicate page_size 0) refl (omega field_laws)
          (omega field_laws) (omega field_laws))
      ∙ from_le_bytes-le_bytes_u32 h.property_free_list_head fits.property_free_list_head_fits

-- A header of the current version whose fields fit their types is read back from its page.
pub deserialize-serialize_header :
    (h : FileHeader)
    → IsFileHeader h
    → h.version ≡ format_version
    → deserialize (serialize h) ≡ ok h
unfolding deserialize
deserialize-serialize_header h fits current =
    let known : bytes_eq (slice 0 8 (serialize h)) magic ≡ true =
      rw (magic_at_start h) (bytes_eq_self magic) in
    let version : (word (serialize h) 8 == format_version) ≡ true =
      (==_iff (word (serialize h) 8) format_version).1 (word_version h fits ∙ current) in
    rw (known, version)
      (ap ok (λ i. record {
        version = word_version h fits i;
        label_index_root = word_label_index_root h fits i;
        property_index_root = word_property_index_root h fits i;
        schema_root = word_schema_root h fits i;
        schema_version = word_schema_version h fits i;
        node_page_count = word_node_page_count h fits i;
        edge_page_count = word_edge_page_count h fits i;
        property_dir_root = word_property_dir_root h fits i;
        property_dir_len = word_property_dir_len h fits i;
        node_dir_root = word_node_dir_root h fits i;
        edge_dir_root = word_edge_dir_root h fits i;
        node_first_free_page = word_node_first_free_page h fits i;
        edge_first_free_page = word_edge_first_free_page h fits i;
        property_first_free_page = word_property_first_free_page h fits i;
        property_free_list_head = word_property_free_list_head h fits i;
      }))

abbrev version_of : Result FileHeader → ℕ
version_of (ok h) = h.version
version_of (err e) = 0
version_of panic = 0

-- Every page that is accepted as a header begins with the magic bytes, carries the current version,
-- and gives a header of that version.
pub deserialize_accepts :
    (buf : List ℕ) (h : FileHeader)
    → deserialize buf ≡ ok h
    → (slice 0 8 buf ≡ magic) × (word buf 8 ≡ format_version) × (h.version ≡ format_version)
unfolding deserialize
deserialize_accepts buf h e = elim (Bool-cases (bytes_eq (slice 0 8 buf) magic)) [
  | inr other ↦ absurd cc (rw other at e)
  | inl same ↦ elim (Bool-cases (word buf 8 == format_version)) [
    | inr old ↦ absurd cc (rw (same, old) at e)
    | inl current ↦
        let v : word buf 8 ≡ format_version = (==_iff (word buf 8) format_version).0 current in
        let first : ok _ ≡ ok h = rw (same, current) at e in
        (bytes_eq_sound (slice 0 8 buf) magic same, v, sym (ap version_of first) ∙ v)
  ]
]
