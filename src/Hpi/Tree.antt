-- ===== src/Hpi/Tree.antt =====
-- The directory walks of src/hpi/hpi.cpp: `walk` for version 2 and `walkV1` for version 1.
use ta_engine.Common.{
  ℕ, zero, suc, ◌+◌, ◌%◌, ◌^◌, true, false, List, [], ◌∷◌, ◌++◌, ltb, leb, ◌==◌, if◌then◌else◌,
  length, get_or, drop,
}
use ta_engine.Crt.{u32_at, c_str}
use ta_engine.Hpi.{Outcome, returned, thrown, unfinished, ◌>>=◌, Entry}

-- `strnlen` on what stands from `off` on.
unfoldable pub name_at : List ℕ → ℕ → Outcome (List ℕ)
name_at names off =
    if leb (length names) off
    then thrown
    else (let s = drop off names in returned (c_str (length s) s))

abbrev pub slash : List ℕ
slash = b'/' ∷ []

-- `path.empty() ? name : path + "/" + name`
unfoldable pub joined_path : List ℕ → List ℕ → List ℕ
joined_path path name = if length path == 0 then name else path ++ slash ++ name

unfoldable pub directory : List ℕ → Entry
directory path = record {
  path = path;
  is_directory = true;
  start = 0;
  decompressed_size = 0;
  compressed_size = 0;
  date = 0;
  compression = 0;
}

unfoldable pub file_v1 : List ℕ → List ℕ → ℕ → Entry
file_v1 path dir at =
    let compression = get_or dir (at + 8) 0 in
    record {
      path = path;
      is_directory = false;
      start = u32_at dir at;
      decompressed_size = u32_at dir (at + 4);
      compressed_size = if compression == 0 then 0 else 1;
      date = 0;
      compression = compression;
    }

-- The entries of a record, by the rounds that are left; `e` is 64 bits wide. `walk dir` is the walk of
-- a subdirectory.
unfoldable pub walk_entries :
    (ℕ → List ℕ → List Entry → Outcome (List Entry))
    → List ℕ
    → ℕ
    → ℕ
    → List ℕ
    → List Entry
    → Outcome (List Entry)
walk_entries walk dir zero e prefix' out = returned out
walk_entries walk dir (suc n) e prefix' out =
    if ltb (length dir) (e + 9)
    then thrown
    else (let data_ptr = u32_at dir (e + 4) in
        name_at dir (u32_at dir e) >>= (λ name.
          let path = joined_path prefix' name in
          (if get_or dir (e + 8) 0 == 0
            then (if ltb (length dir) (data_ptr + 9)
                then thrown
                else returned (out ++ file_v1 path dir data_ptr ∷ []))
            else walk data_ptr path (out ++ directory path ∷ []))
          >>= walk_entries walk dir n (e + 9) prefix'))

-- `walkV1`, with the depths that are left: `depth > 64` throws.
unfoldable pub walk_v1 : ℕ → List ℕ → ℕ → List ℕ → List Entry → Outcome (List Entry)
walk_v1 zero dir record_off prefix' out = thrown
walk_v1 (suc left) dir record_off prefix' out =
    if ltb (length dir) (record_off + 8)
    then thrown
    else walk_entries (walk_v1 left dir) dir (u32_at dir record_off) (u32_at dir (record_off + 4))
        prefix' out

-- The call of `Archive::Archive`, at depth 0.
unfoldable pub list_v1 : List ℕ → ℕ → Outcome (List Entry)
list_v1 dir start = walk_v1 65 dir start [] []

-- `prefix.empty() ? name : (name.empty() ? prefix : prefix + "/" + name)`
unfoldable pub sub_path : List ℕ → List ℕ → List ℕ
sub_path prefix' name =
    if length prefix' == 0
    then name
    else if length name == 0
    then prefix'
    else prefix' ++ slash ++ name

-- The subdirectories, by the rounds that are left; an offset is 32 bits wide.
unfoldable pub walk_subs :
    (ℕ → List ℕ → List Entry → Outcome (List Entry))
    → ℕ
    → ℕ
    → List ℕ
    → List Entry
    → Outcome (List Entry)
walk_subs walk zero off path out = returned out
walk_subs walk (suc n) off path out =
    walk off path out >>= walk_subs walk n ((off + 20) % 2 ^ 32) path

unfoldable pub walk_files : List ℕ → List ℕ → ℕ → ℕ → List ℕ → List Entry → Outcome (List Entry)
walk_files dir names zero f path out = returned out
walk_files dir names (suc n) f path out =
    if ltb (length dir) (f + 24)
    then thrown
    else (name_at names (u32_at dir f) >>= (λ name.
        walk_files dir names n ((f + 24) % 2 ^ 32) path (
          out
          ++ record {
            path = joined_path path name;
            is_directory = false;
            start = u32_at dir (f + 4);
            decompressed_size = u32_at dir (f + 8);
            compressed_size = u32_at dir (f + 12);
            date = u32_at dir (f + 16);
            compression = 0;
          }
            ∷ [])))

-- `walk`, with the nested calls that are left; the source has no limit.
unfoldable pub walk : ℕ → List ℕ → List ℕ → ℕ → List ℕ → List Entry → Outcome (List Entry)
walk zero dir names off prefix' out = unfinished
walk (suc fuel) dir names off prefix' out =
    if ltb (length dir) (off + 20)
    then thrown
    else (name_at names (u32_at dir off) >>= (λ name.
        let path = sub_path prefix' name in
        let out = if length path == 0 then out else out ++ directory path ∷ [] in
        walk_subs (walk fuel dir names) (u32_at dir (off + 8)) (u32_at dir (off + 4)) path out
        >>= walk_files dir names (u32_at dir (off + 16)) (u32_at dir (off + 12)) path))
