-- ===== src/Tests/Stored.antt =====
-- storage/topology.rs on the database in memory of Sound: an edge is appended to a node.
use chiffondb.Prelude.{ℕ, ◌≡◌, ◌≢◌, refl, Option, some, List, [], ◌∷◌, All, ok, arith}
use chiffondb.Storage.Ids.{RecordId}
use chiffondb.Storage.Record.Edge.{EdgeRecord}
use chiffondb.Storage.Topology.{
  EdgeDirection, out_list, in_list, first_edge, with_next, append_edge, collect_edge_chain,
  read_node,
}
use chiffondb.Storage.Topology.Chains.{Segment}
use chiffondb.Storage.Topology.Appends
use chiffondb.Storage.File.{DatabaseFile, memory_backend}
use chiffondb.Storage.File.Sound.{IsSound}
use chiffondb.Storage.File.Topology.{memory_contract}
use chiffondb.Tests.Sound.{
  file, file-IsSound, blank_node, blank_edge, database, origin, node_read, edge_read,
}

appended :
    (after : DatabaseFile (List ℕ)) × (append_edge database out_list origin origin file ≡ ok after)
appended =
    Appends.append_edge_total database (memory_contract.0) out_list file file blank_node blank_edge
      (memory_contract.1) file-IsSound node_read edge_read

append_edge_total_example :
    (after : DatabaseFile (List ℕ)) × (append_edge database in_list origin origin file ≡ ok after)
append_edge_total_example =
    Appends.append_edge_total database (memory_contract.0) in_list file file blank_node blank_edge
      (memory_contract.1) file-IsSound node_read edge_read

append_edge_example :
    (collect_edge_chain database 2 appended.0 origin out_list ≡ some (ok (blank_edge ∷ [])))
    × ((other : EdgeDirection) (start : Option RecordId) (others : List EdgeRecord)
          (end : Option RecordId)
        → All (λ (e : EdgeRecord). origin ≢ e.id) others
        → Segment database other file start others end
        → Segment database other appended.0 start others end)
    × ((rid : RecordId)
        → origin ≢ rid
        → read_node database appended.0 rid ≡ read_node database file rid)
    × IsSound memory_backend appended.0
unfolding first_edge with_next
append_edge_example =
    Appends.append_edge_effect database (memory_contract.0) out_list file appended.0 blank_node
      blank_edge 2 [] file-IsSound node_read edge_read refl tt (omega arith) appended.1
