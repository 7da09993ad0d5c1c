-- ===== src/Examples/Archives.antt =====
-- Small archives, two of them with a directory that holds itself.
use ta_engine.Common.{ℕ, ◌≡◌, refl, false, none, List, [], ◌∷◌, arith}
use ta_engine.Crt.{u32_at, c_str}
use ta_engine.Hpi.{thrown, unfinished, lz77_decompress, Entry, Archive, read_entry}
use ta_engine.Hpi.Endings.{Ends, HasSize, lz77_decompress-Ends}
use ta_engine.Hpi.Files.{read_entry-Ends}
use ta_engine.Hpi.Tree.{name_at, walk, list_v1}
use ta_engine.Hpi.Cycles.{IsLoop, IsLoopV1, walk_endless, list_v1-IsLoopV1}

-- Two literals and a reference to them.
abbrev stream : List ℕ
stream = 4 ∷ 97 ∷ 98 ∷ 18 ∷ 0 ∷ []

lz77_decompress-Ends_example : Ends (HasSize 6) (lz77_decompress stream 6)
lz77_decompress-Ends_example = lz77_decompress-Ends stream 6

abbrev entry : Entry
entry = record {
  path = b'a' ∷ [];
  is_directory = false;
  start = 1;
  decompressed_size = 3;
  compressed_size = 0;
  date = 0;
  compression = 0;
}

abbrev archive : Archive
archive = record { version = 0x00020000; key = 0; bytes = 1 ∷ 2 ∷ 3 ∷ 4 ∷ 5 ∷ [] }

read_entry-Ends_example : Ends (HasSize 3) (read_entry (λ p n. none) archive entry)
read_entry-Ends_example = read_entry-Ends (λ p n. none) archive entry

-- The only record: no name, and itself as its one subdirectory.
abbrev loop_dir : List ℕ
loop_dir = 0 ∷ 0 ∷ 0 ∷ 0 ∷ 0 ∷ 0 ∷ 0 ∷ 0 ∷ 1 ∷ 0 ∷ 0 ∷ 0 ∷ 0 ∷ 0 ∷ 0 ∷ 0 ∷ 0 ∷ 0 ∷ 0 ∷ 0 ∷ []

loop_dir-IsLoop : IsLoop loop_dir (0 ∷ []) 0
unfolding u32_at name_at c_str
loop_dir-IsLoop = record {
  inside = omega arith;
  name = [];
  named = refl;
  more = 0;
  subs = refl;
  self = refl;
}

walk_endless_example : walk 1000 loop_dir (0 ∷ []) 0 [] [] ≡ unfinished
walk_endless_example = walk_endless 1000 loop_dir (0 ∷ []) 0 [] [] loop_dir-IsLoop

-- One entry at 8: the name at 17, the record at 0, a directory.
abbrev loop_v1 : List ℕ
loop_v1 = 1 ∷ 0 ∷ 0 ∷ 0 ∷ 8 ∷ 0 ∷ 0 ∷ 0 ∷ 17 ∷ 0 ∷ 0 ∷ 0 ∷ 0 ∷ 0 ∷ 0 ∷ 0 ∷ 1 ∷ 0 ∷ []

loop_v1-IsLoopV1 : IsLoopV1 loop_v1 0
unfolding u32_at name_at c_str
loop_v1-IsLoopV1 = record {
  inside = omega arith;
  more = 0;
  entries = refl;
  first_inside = omega arith;
  name = [];
  named = refl;
  flagged = omega arith;
  self = refl;
}

list_v1-IsLoopV1_example : list_v1 loop_v1 0 ≡ thrown
list_v1-IsLoopV1_example = list_v1-IsLoopV1 loop_v1 0 loop_v1-IsLoopV1
