-- ===== src/Session/Cleanup/Steps.antt =====
-- crates/lunaroute-session/src/cleanup.rs: the three steps of a cleanup.
use Prim.Native.Char.{code}
use Prim.Native.String.{◌++◌ as str_append}
use lunaroute.Prelude.{
  ℕ, ◌+◌, ◌-◌, ◌*◌, ◌&&◌, not, String, Option, none, some, List, [], ◌∷◌, length, ltb, leb, ◌==◌,
  if◌then◌else◌, Result, ok, err,
}
use lunaroute.Prelude.Texts.{ends_with}
use lunaroute.Prelude.Maps.{lookup, insert, remove}
use lunaroute.Session.Cleanup.{
  CleanupError, CleanupStats, RetentionPolicy, SessionFile, Disk, is_compressed,
  calculate_disk_usage, collect, sort_by_age, exists, delete_session_file, compression,
  invalid_path,
}

unfoldable pub count_deleted : ℕ → CleanupStats → CleanupStats
count_deleted freed stats = record stats {
  sessions_deleted = stats.sessions_deleted + 1;
  bytes_freed = stats.bytes_freed + freed;
}

-- Step 1.
unfoldable pub delete_older : ℕ → List (String × ℕ) → Disk → CleanupStats → Disk × CleanupStats
unfolding delete_session_file count_deleted
delete_older max_age [] disk stats = (disk, stats)
delete_older max_age ((path, age) ∷ files) disk stats =
    let deleted = delete_session_file path disk in
    let older = delete_older max_age files deleted.0 (count_deleted deleted.1 stats) in
    let younger = delete_older max_age files disk stats in
    if ltb max_age age then older else younger

unfoldable pub retain_existing : List (String × ℕ) → Disk → List (String × ℕ)
unfolding exists
retain_existing [] disk = []
retain_existing ((path, age) ∷ files) disk =
    let rest = retain_existing files disk in if exists path disk then (path, age) ∷ rest else rest

-- The text before the last point.
before_point : String → Option String
before_point String.[] = none
before_point (String.◌∷◌ c s) = elim (before_point s) [
  | some t ↦ some (String.◌∷◌ c t)
  | none ↦ if code c == 46 then some String.[] else none
]

-- `path.with_extension("jsonl.zst")`; a point at the start of the name begins no extension.
unfoldable pub compressed_path : String → String
unfolding before_point ends_with
compressed_path path =
    let stem : String = elim (before_point path) [
      | none ↦ path
      | some t ↦ if ends_with "/" t then path else t
    ] in
    str_append stem ".jsonl.zst"

-- zstd's `encode_all` is a parameter; subtraction stops at 0, as `saturating_sub` does.
compress_file :
    (List ℕ → Result String (List ℕ))
    → ℕ
    → String
    → Option SessionFile
    → Disk
    → Disk × Result CleanupError ℕ
unfolding compressed_path insert remove
compress_file encode_all now path none disk = (disk, err (invalid_path "File does not exist"))
compress_file encode_all now path (some file) disk =
    if is_compressed path then (disk, ok 0) else elim (encode_all file.contents) [
      | err e ↦ (disk, err (compression e))
      | ok bytes ↦ (
        remove path
            (insert (compressed_path path) (record { contents = bytes; modified = now }) disk),
        ok (length file.contents - length bytes),
      )
    ]

unfoldable pub compress_session_file :
    (List ℕ → Result String (List ℕ)) → ℕ → String → Disk → Disk × Result CleanupError ℕ
unfolding compress_file lookup
compress_session_file encode_all now path disk =
    compress_file encode_all now path (lookup path disk) disk

count_compressed : ℕ → CleanupStats → CleanupStats
count_compressed saved stats = record stats {
  sessions_compressed = stats.sessions_compressed + 1;
  bytes_saved = stats.bytes_saved + saved;
}

-- Step 2, which stops at the first error.
unfoldable pub compress_older :
    (List ℕ → Result String (List ℕ))
    → ℕ
    → ℕ
    → List (String × ℕ)
    → Disk
    → CleanupStats
    → Disk × Result CleanupError CleanupStats
unfolding compress_session_file count_compressed is_compressed
compress_older encode_all now after [] disk stats = (disk, ok stats)
compress_older encode_all now after ((path, age) ∷ files) disk stats =
    let compressed = compress_session_file encode_all now path disk in
    let goes_on : Disk → CleanupStats → Disk × Result CleanupError CleanupStats =
      λ d s. compress_older encode_all now after files d s in
    if ltb after age && not (is_compressed path)
    then elim compressed.1 [
      | err e ↦ (compressed.0, err e)
      | ok saved ↦ goes_on compressed.0 (count_compressed saved stats)
    ]
    else goes_on disk stats

-- The loop of step 3.
unfoldable pub delete_until : ℕ → ℕ → List (String × ℕ) → Disk → CleanupStats → Disk × CleanupStats
unfolding delete_session_file count_deleted exists
delete_until bytes_to_free freed [] disk stats = (disk, stats)
delete_until bytes_to_free freed ((path, age) ∷ files) disk stats =
    let deleted = delete_session_file path disk in
    let next =
      delete_until bytes_to_free (freed + deleted.1) files deleted.0
        (count_deleted deleted.1 stats) in
    let skipped = delete_until bytes_to_free freed files disk stats in
    if leb bytes_to_free freed then (disk, stats) else (if exists path disk then next else skipped)

unfoldable pub no_stats : CleanupStats
no_stats = record {
  sessions_deleted = 0;
  sessions_compressed = 0;
  bytes_freed = 0;
  bytes_saved = 0;
}

-- Step 1 and the list of what is left.
unfoldable pub step_age :
    Option ℕ → List (String × ℕ) → Disk → CleanupStats → List (String × ℕ) × (Disk × CleanupStats)
unfolding delete_older retain_existing
step_age none files disk stats = (files, (disk, stats))
step_age (some max_age) files disk stats =
    let after = delete_older max_age files disk stats in (retain_existing files after.0, after)

unfoldable pub step_compress :
    (List ℕ → Result String (List ℕ))
    → ℕ
    → Option ℕ
    → List (String × ℕ)
    → Disk
    → CleanupStats
    → Disk × Result CleanupError CleanupStats
unfolding compress_older
step_compress encode_all now none files disk stats = (disk, ok stats)
step_compress encode_all now (some after) files disk stats =
    compress_older encode_all now after files disk stats

unfoldable pub reverse_onto : List (String × ℕ) → List (String × ℕ) → List (String × ℕ)
reverse_onto done [] = done
reverse_onto done (x ∷ xs) = reverse_onto (x ∷ done) xs

-- Step 3, over the list from its end.
unfoldable pub step_size : Option ℕ → List (String × ℕ) → Disk → CleanupStats → Disk × CleanupStats
unfolding delete_until calculate_disk_usage reverse_onto
step_size none files disk stats = (disk, stats)
step_size (some max_size_gb) files disk stats =
    let total = (calculate_disk_usage disk).total_bytes in
    let max_bytes = max_size_gb * 1_073_741_824 in
    if ltb max_bytes total
    then delete_until (total - max_bytes) 0 (reverse_onto [] files) disk stats
    else (disk, stats)

-- The steps 1 to 3, on the sorted list.
unfoldable pub run_steps :
    (List ℕ → Result String (List ℕ))
    → ℕ
    → RetentionPolicy
    → List (String × ℕ)
    → Disk
    → Disk × Result CleanupError CleanupStats
unfolding step_age step_compress step_size no_stats
run_steps encode_all now policy files disk =
    let (left, (disk', stats)) = step_age policy.max_age_days files disk no_stats in
    let compressed = step_compress encode_all now policy.compress_after_days left disk' stats in
    elim compressed.1 [
      | err e ↦ (compressed.0, err e)
      | ok stats' ↦
          let sized = step_size policy.max_total_size_gb left compressed.0 stats' in
          (sized.0, ok sized.1)
    ]

-- The disk that is there; the clock stands still meanwhile.
unfoldable pub execute_cleanup :
    (List ℕ → Result String (List ℕ))
    → ℕ
    → RetentionPolicy
    → Disk
    → Disk × Result CleanupError CleanupStats
unfolding run_steps collect sort_by_age
execute_cleanup encode_all now policy disk = elim (collect now disk) [
  | err e ↦ (disk, err e)
  | ok files ↦ run_steps encode_all now policy (sort_by_age files) disk
]
