-- ===== src/Tests/FreePages.antt =====
-- The list of free property pages of storage/file.rs, on a file whose property directory is page 1 and
-- maps its one entry to page 2.
use chiffondb.Prelude.{
  ℕ, zero, suc, ◌≡◌, refl, sym, ap, ◌∙◌, true, Option, none, some, List, replicate,
  length-replicate, >>=-ok, ◌>>=◌, Result, panic, ok, err, io, ◌==◌, if◌then◌else◌, arith,
}
use chiffondb.Bytes.Slices.{length-patch}
use chiffondb.Bytes.Words.{le_bytes_u32, le_bytes_u16}
use chiffondb.Storage.Directory
use chiffondb.Storage.Directory.{write_entry, read_link, read_entry, resolve, dir_page_pid, mapped}
use chiffondb.Storage.Directory.Entries.{read_entry-write_entry_self, read_link-write_entry}
use chiffondb.Storage.Directory.Mapping.{IsPageFile}
use chiffondb.Storage.Topology.Records.{>>=_inverse}
use chiffondb.Storage.Header
use chiffondb.Storage.Header.Layout.{length-serialize}
use chiffondb.Storage.File.{
  Backend, DatabaseFile, page_file, read_page, write_page, property_dir, resolve_property_page,
  write_property_page, free_page, free_property_page, pop_property_free_page,
  property_free_list_head, with_free_list_head, write_header, found_or_corrupted,
}
use chiffondb.Storage.File.FreeList.{free_property_page_effect, IsApart}
use chiffondb.Tests.Directories.{
  Memory, memory, memory-IsPageFile, is_whole, is_whole-of_length, update, leaf, length-leaf,
  link-leaf,
}

abbrev ops : Backend Memory
ops = record {
  backend_read = memory.read_page;
  backend_write = memory.write_page;
  backend_append = λ file page count. err io;
}

backend_of : Memory → Result (DatabaseFile Memory) → Memory
backend_of other (ok file) = file.backend
backend_of other (err e) = other
backend_of other panic = other

ops-IsPageFile : IsPageFile (page_file ops)
unfolding read_page write_page backend_of
ops-IsPageFile = record {
  whole = λ file pid page h. memory-IsPageFile.whole file.backend pid page h;
  written = λ file file' pid page h.
      let (store, w, e) = >>=_inverse (memory.write_page file.backend pid page) _ file' h in
      let b : store ≡ file'.backend = ap (backend_of store) e in
      rw (← b) (memory-IsPageFile.written file.backend store pid page w);
  elsewhere = λ file file' pid other page h ne.
      let (store, w, e) = >>=_inverse (memory.write_page file.backend pid page) _ file' h in
      let b : store ≡ file'.backend = ap (backend_of store) e in
      rw (← b) (memory-IsPageFile.elsewhere file.backend store pid other page w ne);
}

directory : List ℕ
directory = write_entry leaf 0 2

store : Memory
store pid = if pid == 1 then directory else leaf

abbrev file : DatabaseFile Memory
file = record {
  backend = store;
  header = record (Header.new) { property_dir_root = 1; property_dir_len = 1 };
  logical_page_count = 3;
}

directory_fits : is_whole directory ≡ true
unfolding directory write_entry
directory_fits = is_whole-of_length directory (length-patch 4 (le_bytes_u32 2) leaf ∙ length-leaf)

read_directory : memory.read_page store 1 ≡ ok directory
unfolding store
read_directory = rw directory_fits refl

link-directory : read_link directory ≡ 4294967295
unfolding directory
link-directory = read_link-write_entry leaf 0 2 ∙ link-leaf

chain_end : (n : ℕ) → Directory.follow (page_file ops) (suc n) file 1 ≡ ok none
unfolding Directory.follow read_page
chain_end n =
    >>=-ok (memory.read_page store 1) _ directory read_directory ∙ (rw link-directory refl)

apart : IsApart ops ops-IsPageFile file 2
unfolding dir_page_pid property_dir Header.new Directory.follow
apart zero q h = let e : 1 ≡ q = cc h in rw (← e) (omega arith, omega arith)
apart (suc i) q h = absurd cc (sym (chain_end i) ∙ h)

entry-directory : read_entry directory 0 ≡ 2
unfolding directory
entry-directory = read_entry-write_entry_self leaf 0 2 length-leaf (omega arith) (omega arith)

resolved : resolve_property_page ops file 0 ≡ ok 2
unfolding resolve_property_page resolve mapped dir_page_pid property_dir Header.new Directory.follow
    read_page found_or_corrupted
resolved =
    let found : (memory.read_page store 1 >>= λ page. ok (mapped (read_entry page 0)))
        ≡ ok (some 2) =
      >>=-ok (memory.read_page store 1) _ directory read_directory ∙ (rw entry-directory refl) in
    ap (λ (m : Result (Option ℕ)). m >>= found_or_corrupted 0) found

free_page_fits : is_whole (free_page 4294967295) ≡ true
unfolding free_page
free_page_fits = is_whole-of_length (free_page 4294967295) (
    length-patch 4 (le_bytes_u32 4294967295) _
    ∙ length-patch 0 (le_bytes_u16 65535) (replicate 4096 0)
    ∙ length-replicate 4096 0)

write_succeeds :
    (f : DatabaseFile Memory) (pid : ℕ) (page : List ℕ)
    → is_whole page ≡ true
    → write_page ops f pid page ≡ ok (record f { backend = update f.backend pid page })
unfolding write_page
write_succeeds f pid page whole = rw whole refl

abbrev stamped : DatabaseFile Memory
stamped = record file { backend = update store 2 (free_page 4294967295) }

abbrev listed : DatabaseFile Memory
listed = with_free_list_head 0 stamped

abbrev after : DatabaseFile Memory
after = record listed { backend = update listed.backend 0 (Header.serialize listed.header) }

freed : free_property_page ops 0 file ≡ ok after
unfolding free_property_page write_property_page write_header Header.new
freed =
    >>=-ok (write_property_page ops 0 (free_page 4294967295) file) _ stamped (
      >>=-ok (resolve_property_page ops file 0) _ 2 resolved
      ∙ write_succeeds file 2 (free_page 4294967295) free_page_fits)
    ∙ write_succeeds listed 0 (Header.serialize listed.header)
        (is_whole-of_length (Header.serialize listed.header) (length-serialize listed.header))

free_example :
    (property_free_list_head ops after ≡ some 0)
    × (pop_property_free_page ops after
        ≡ (write_header ops (with_free_list_head 4294967295 after) >>= λ f. ok (some 0, f)))
unfolding Header.new
free_example =
    free_property_page_effect ops ops-IsPageFile file after 0 2 (omega arith) (omega arith)
      (omega arith) apart resolved freed
