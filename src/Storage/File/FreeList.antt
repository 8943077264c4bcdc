-- ===== src/Storage/File/FreeList.antt =====
-- The list of free property pages: `free_property_page` and `pop_property_free_page`.
use chiffondb.Prelude.{
  ℕ, ◌%◌, ◌<◌, ◌≡◌, ◌≢◌, refl, sym, ap, ◌∙◌, inl, true, false, Option, some, List, replicate,
  Result, ok, err, panic, >>=-ok, ◌>>=◌, ◌==◌, ==_iff, arith,
}
use chiffondb.Bytes.Slices.{slice, patch, slice-patch_self, slice-patch_apart, length-patch}
use chiffondb.Bytes.Words.{
  IsU32, le_bytes_u16, le_bytes_u32, from_le_bytes, length-le_bytes_u16, length-le_bytes_u32,
  from_le_bytes-le_bytes_u16, from_le_bytes-le_bytes_u32,
}
use chiffondb.Bytes.Layout.{length-zeros}
use chiffondb.Storage.Page.{page_size}
use chiffondb.Storage.Slotted.{free_page_marker}
use chiffondb.Storage.Directory.{PageDirectory, dir_page_pid, resolve}
use chiffondb.Storage.Directory.Mapping.{IsPageFile}
use chiffondb.Storage.Directory.Kept.{resolve_kept}
use chiffondb.Storage.Topology.Records.{>>=_inverse}
use chiffondb.Storage.Header.{FileHeader, no_free_page}
use chiffondb.Storage.File.{
  Backend, DatabaseFile, read_page, write_page, page_file, write_header, property_dir,
  found_or_corrupted, resolve_property_page, write_property_page, read_property_page,
  property_free_list_head, with_free_list_head, free_page, free_property_page,
  pop_property_free_page,
}

marker-free_page : (head : ℕ) → from_le_bytes (slice 0 2 (free_page head)) ≡ free_page_marker
unfolding free_page le_bytes_u16
marker-free_page head =
    let stamped = patch 0 (le_bytes_u16 free_page_marker) (replicate page_size 0) in
    ap from_le_bytes (
      slice-patch_apart 0 2 4 (le_bytes_u32 head) stamped (inl (omega arith))
      ∙ slice-patch_self 0 (le_bytes_u16 free_page_marker) (replicate page_size 0)
          (omega (arith, length-zeros page_size, length-le_bytes_u16 free_page_marker)))
    ∙ from_le_bytes-le_bytes_u16 free_page_marker (omega arith)

next-free_page : (head : ℕ) → IsU32 head → from_le_bytes (slice 4 4 (free_page head)) ≡ head
unfolding free_page le_bytes_u32
next-free_page head fits =
    let stamped = patch 0 (le_bytes_u16 free_page_marker) (replicate page_size 0) in
    ap from_le_bytes (
      slice-patch_self 4 (le_bytes_u32 head) stamped (
        omega (
          arith,
          length-patch 0 (le_bytes_u16 free_page_marker) (replicate page_size 0),
          length-zeros page_size,
          length-le_bytes_u32 head,
        )))
    ∙ from_le_bytes-le_bytes_u32 head fits

abbrev header_of : {B : Type 0} → FileHeader → Result (DatabaseFile B) → FileHeader
header_of other (ok file) = file.header
header_of other (err e) = other
header_of other panic = other

module _ {B : Type 0} (ops : Backend B) (laws : IsPageFile (page_file ops)) where
  -- A page write keeps the header.
  pub write_page_header :
      (file file' : DatabaseFile B) (pid : ℕ) (page : List ℕ)
      → write_page ops file pid page ≡ ok file'
      → file'.header ≡ file.header
  unfolding write_page
  write_page_header file file' pid page h =
      let (backend, w, e) = >>=_inverse (ops.backend_write file.backend pid page) _ file' h in
      sym (ap (header_of file.header) e)

  -- The pages that the property directory is made of are neither page 0 nor the given one.
  abbrev pub IsApart : DatabaseFile B → ℕ → Type 0
  IsApart file physical =
      (i q : ℕ)
      → dir_page_pid (page_file ops) (property_dir ops file) file i ≡ ok (some q)
      → (0 ≢ q) × (physical ≢ q)

  -- What freeing a page leaves: its page with the marker and the former head, and the header with
  -- the page as the new head.
  freed :
      (file file' : DatabaseFile B) (logical physical : ℕ)
      → resolve_property_page ops file logical ≡ ok physical
      → free_property_page ops logical file ≡ ok file'
      → (middle : DatabaseFile B) × (write_page ops file physical
            (free_page file.header.property_free_list_head)
          ≡ ok middle)
        × (write_header ops (with_free_list_head (logical % 4294967296) middle) ≡ ok file')
  unfolding free_property_page write_property_page
  freed file file' logical physical r h =
      let (middle, w, h') =
        >>=_inverse
          (write_property_page ops logical (free_page file.header.property_free_list_head) file) _
          file' h in
      (middle, sym (>>=-ok (resolve_property_page ops file logical) _ physical r) ∙ w, h')

  module _ (file file' middle : DatabaseFile B) (logical physical : ℕ)
      (w : write_page ops file physical (free_page file.header.property_free_list_head) ≡ ok middle)
      (w' : write_header ops (with_free_list_head logical middle) ≡ ok file') where
    header_freed : file'.header ≡ (with_free_list_head logical file).header
    unfolding write_header
    header_freed =
        write_page_header (with_free_list_head logical middle) file' 0 _ w'
        ∙ ap (λ (h : FileHeader). record h { property_free_list_head = logical })
            (write_page_header file middle physical _ w)

    read_freed : (q : ℕ) → 0 ≢ q → read_page ops file' q ≡ read_page ops middle q
    unfolding write_header read_page
    read_freed q ne = laws.elsewhere (with_free_list_head logical middle) file' 0 q _ w' ne

    property_dir_freed : property_dir ops file' ≡ property_dir ops file
    unfolding property_dir
    property_dir_freed = rw header_freed refl

    resolve_freed :
        IsApart file physical
        → resolve_property_page ops file' logical ≡ resolve_property_page ops file logical
    unfolding resolve_property_page
    resolve_freed apart =
        ap (λ (m : Result (Option ℕ)). m >>= found_or_corrupted logical)
          (ap (λ (d : PageDirectory). resolve (page_file ops) d file' logical) property_dir_freed
            ∙ resolve_kept (page_file ops) file file' (property_dir ops file) logical (λ i q h.
              read_freed q (apart i q h).0
              ∙ laws.elsewhere file middle physical q _ w (apart i q h).1))

    read_property_freed :
        0 ≢ physical
        → IsApart file physical
        → resolve_property_page ops file logical ≡ ok physical
        → read_property_page ops file' logical ≡ ok (free_page file.header.property_free_list_head)
    unfolding read_property_page
    read_property_freed ne apart r =
        >>=-ok (resolve_property_page ops file' logical) _ physical (resolve_freed apart ∙ r)
        ∙ read_freed physical ne
        ∙ laws.written file middle physical _ w

    head_freed : logical ≢ no_free_page → property_free_list_head ops file' ≡ some logical
    unfolding property_free_list_head
    head_freed real = rw header_freed (
        let differs : (logical == no_free_page) ≡ false =
          ground (arith, ==_iff logical no_free_page) in
        rw differs refl)

    pop_freed :
        0 ≢ physical
        → logical ≢ no_free_page
        → IsU32 file.header.property_free_list_head
        → IsApart file physical
        → resolve_property_page ops file logical ≡ ok physical
        → pop_property_free_page ops file' ≡ (
            write_header ops (with_free_list_head file.header.property_free_list_head file')
            >>= λ after. ok (some logical, after))
    unfolding pop_property_free_page
    pop_freed ne real fits apart r =
        let page = free_page file.header.property_free_list_head in
        let stamped : (from_le_bytes (slice 0 2 page) == free_page_marker) ≡ true =
          (==_iff _ free_page_marker).1 (marker-free_page file.header.property_free_list_head) in
        rw (head_freed real, pop_property_free_page)
          (>>=-ok (read_property_page ops file' logical) _ page (read_property_freed ne apart r)
            ∙ rw (stamped, next-free_page file.header.property_free_list_head fits) refl)

  -- A property page whose number is a u32 other than the sentinel, and whose physical page is neither
  -- page 0 nor a page of the directory. Once it is freed without an error, it is the head of the list
  -- of free pages, and the next page that is taken from the list is this page: taking it writes the
  -- header with the former head, and nothing else.
  pub free_property_page_effect :
      (file file' : DatabaseFile B) (logical physical : ℕ)
      → logical < no_free_page
      → IsU32 file.header.property_free_list_head
      → 0 ≢ physical
      → IsApart file physical
      → resolve_property_page ops file logical ≡ ok physical
      → free_property_page ops logical file ≡ ok file'
      → (property_free_list_head ops file' ≡ some logical)
        × (pop_property_free_page ops file' ≡ (
            write_header ops (with_free_list_head file.header.property_free_list_head file')
            >>= λ after. ok (some logical, after)))
  free_property_page_effect file file' logical physical real fits ne apart r h =
      let (middle, w, w') = freed file file' logical physical r h in
      let small : logical % 4294967296 ≡ logical = omega arith in
      let w'' : write_header ops (with_free_list_head logical middle) ≡ ok file' = rw small at w' in
      (
        head_freed file file' middle logical physical w w'' (omega arith),
        pop_freed file file' middle logical physical w w'' ne (omega arith) fits apart r,
      )
