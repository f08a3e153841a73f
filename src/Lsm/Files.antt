-- ===== src/Lsm/Files.antt =====
-- The files of the tables: what the file system does for the engine, by the names it uses.
use scry_index.Prelude.{Option, none, some, Bool, ◌&&◌, ◌==◌, if◌then◌else◌}
use scry_index.Lsm.Bytes.{Bytes}
use scry_index.Lsm.Manifest.{SstPath}
use scry_index.Lsm.Sstable.Reader.{IoResult, err, not_found, SsTableReader, open_table}

abbrev pub Files : Type 0
Files = SstPath → Option Bytes

abbrev pub same_path : SstPath → SstPath → Bool
same_path p q = p.path_level == q.path_level && p.path_id == q.path_id

unfoldable pub write_file : Files → SstPath → Bytes → Files
write_file files path bytes = λ q. if same_path path q then some bytes else files q

unfoldable pub remove_file : Files → SstPath → Files
remove_file files path = λ q. if same_path path q then none else files q

-- `SsTableReader::open`: the file must be there
unfoldable pub open_path : Files → SstPath → IoResult SsTableReader
unfolding open_table
open_path files path = elim (files path) [ none ↦ err not_found | some file ↦ open_table file ]
