-- ===== src/Storage/Topology/Contract.antt =====
-- What the topology store relies on in `DatabaseFile`, in the files of an invariant `IsValid` that its
-- writes keep: a page that is written reads back, no other page, of its kind or of the other one,
-- changes, and a search hint leaves the pages alone. A write may fail (an I/O error).
-- Storage/File/Topology.antt is about the database file and this contract.
use chiffondb.Prelude.{ℕ, List, length, ◌≡◌, ◌≢◌, ◌⊎◌, ok}
use chiffondb.Bytes.Words.{IsBytes}
use chiffondb.Storage.Page.{page_size}
use chiffondb.Storage.Topology.{TopologyFile, TopologyKind}

pub record IsTopologyFile {F : Type 0} (files : TopologyFile F) (IsValid : F → Type 0)
    : Type 0 where
  pub whole :
      (kind : TopologyKind) (logical : ℕ) (file : F) (bytes : List ℕ)
      → IsValid file
      → files.read_page kind logical file ≡ ok bytes
      → (length bytes ≡ page_size) × IsBytes bytes
  pub write_valid :
      (kind : TopologyKind) (logical : ℕ) (bytes : List ℕ) (file file' : F)
      → IsValid file
      → IsBytes bytes
      → files.write_page kind logical bytes file ≡ ok file'
      → IsValid file'
  pub page_written :
      (kind : TopologyKind) (logical : ℕ) (bytes : List ℕ) (file file' : F)
      → IsValid file
      → files.write_page kind logical bytes file ≡ ok file'
      → files.read_page kind logical file' ≡ ok bytes
  pub page_elsewhere :
      (kind other : TopologyKind) (logical place : ℕ) (bytes : List ℕ) (file file' : F)
      → IsValid file
      → files.write_page kind logical bytes file ≡ ok file'
      → (kind ≢ other) ⊎ (logical ≢ place)
      → files.read_page other place file' ≡ files.read_page other place file
  pub count_kept :
      (kind other : TopologyKind) (logical : ℕ) (bytes : List ℕ) (file file' : F)
      → files.write_page kind logical bytes file ≡ ok file'
      → files.page_count other file' ≡ files.page_count other file
  pub hint_valid :
      (kind : TopologyKind) (hint : ℕ) (file file' : F)
      → IsValid file
      → files.set_first_free_hint kind hint file ≡ ok file'
      → IsValid file'
  pub hint_pages :
      (kind other : TopologyKind) (hint place : ℕ) (file file' : F)
      → IsValid file
      → files.set_first_free_hint kind hint file ≡ ok file'
      → files.read_page other place file' ≡ files.read_page other place file
  pub hint_count :
      (kind other : TopologyKind) (hint : ℕ) (file file' : F)
      → files.set_first_free_hint kind hint file ≡ ok file'
      → files.page_count other file' ≡ files.page_count other file

-- A file whose writes to pages that it can read meet no error.
pub record IsWritable {F : Type 0} (files : TopologyFile F) : Type 0 where
  pub writable :
      (kind : TopologyKind) (logical : ℕ) (old bytes : List ℕ) (file : F)
      → files.read_page kind logical file ≡ ok old
      → length bytes ≡ page_size
      → IsBytes bytes
      → (file' : F) × (files.write_page kind logical bytes file ≡ ok file')
