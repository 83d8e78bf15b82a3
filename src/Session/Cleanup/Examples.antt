-- ===== src/Session/Cleanup/Examples.antt =====
-- The cleanup at concrete inputs.
use lunaroute.Prelude.{
  ℕ, ◌*◌, ◌≤◌, ◌≡◌, refl, true, false, String, none, some, List, [], ◌∷◌, Result, ok, if◌then◌else◌,
  arith,
}
use lunaroute.Prelude.Maps.{lookup, IsUnique}
use lunaroute.Session.Cleanup.{
  RetentionPolicy, Disk, CleanupStats, is_valid_date_directory, sort_by_age,
}
use lunaroute.Session.Cleanup.Steps.{execute_cleanup, delete_until, reverse_onto, no_stats}
use lunaroute.Session.Cleanup.Usage.{usage, AreOld}
use lunaroute.Session.Cleanup.Ages.{is_due, execute_cleanup-ages}
use lunaroute.Session.Cleanup.Sizes.{execute_cleanup-usage}

abbrev strict : RetentionPolicy
strict = record { max_age_days = some 7; max_total_size_gb = some 0; compress_after_days = some 3 }

abbrev keep : List ℕ → Result String (List ℕ)
keep bytes = ok (1 ∷ [])

abbrev disk : Disk
disk =
    ("2025-01-01/old.jsonl", record { contents = 1 ∷ 2 ∷ []; modified = 0 })
    ∷ ("2025-01-06/mid.jsonl", record { contents = 1 ∷ 2 ∷ 3 ∷ []; modified = 432_000 })
    ∷ ("2025-01-09/new.jsonl", record { contents = 1 ∷ []; modified = 777_600 })
    ∷ ("notes/a.txt", record { contents = 1 ∷ []; modified = 0 })
    ∷ []

disk-IsUnique : IsUnique disk
unfolding lookup
disk-IsUnique = (refl, (refl, (refl, (refl, tt))))

disk-AreOld : AreOld 864_000 disk
disk-AreOld = (omega arith, (omega arith, (omega arith, (omega arith, tt))))

-- With a limit of nothing, a file that was compressed meanwhile is left: it is not in the list.
compressed_stay : execute_cleanup keep 864_000 strict disk ≡ (
  ("notes/a.txt", record { contents = 1 ∷ []; modified = 0 })
      ∷ ("2025-01-06/mid.jsonl.zst", record { contents = 1 ∷ []; modified = 864_000 })
      ∷ [],
  ok (record { sessions_deleted = 2; sessions_compressed = 1; bytes_freed = 3; bytes_saved = 2 }),
)
unfolding execute_cleanup
compressed_stay = refl

-- To free one byte, the youngest of two files is deleted.
youngest_first :
    (delete_until 1 0
      (reverse_onto []
        (sort_by_age (("2025-01-09/new.jsonl", 1) ∷ ("2025-01-01/old.jsonl", 10) ∷ [])))
      disk
      no_stats).0
    ≡ ("2025-01-01/old.jsonl", record { contents = 1 ∷ 2 ∷ []; modified = 0 })
      ∷ ("2025-01-06/mid.jsonl", record { contents = 1 ∷ 2 ∷ 3 ∷ []; modified = 432_000 })
      ∷ ("notes/a.txt", record { contents = 1 ∷ []; modified = 0 })
      ∷ []
unfolding delete_until reverse_onto sort_by_age
youngest_first = refl

execute_cleanup-usage_example :
    let policy : RetentionPolicy = record {
      max_age_days = some 7;
      max_total_size_gb = some 0;
      compress_after_days = none;
    } in
    let after = execute_cleanup keep 864_000 policy disk in
    ((stats : CleanupStats) × (after.1 ≡ ok stats)) × (usage after.0 ≤ 0 * 1_073_741_824)
execute_cleanup-usage_example =
    execute_cleanup-usage keep 864_000 0 (some 7) disk disk-IsUnique disk-AreOld

execute_cleanup-ages_example :
    let policy : RetentionPolicy = record {
      max_age_days = some 7;
      max_total_size_gb = none;
      compress_after_days = none;
    } in
    let after = execute_cleanup keep 864_000 policy disk in
    ((stats : CleanupStats) × (after.1 ≡ ok stats))
    × ((p : String)
        → lookup p after.0 ≡ (if is_due 7 864_000 p (lookup p disk) then none else lookup p disk))
execute_cleanup-ages_example = execute_cleanup-ages keep 864_000 7 disk disk-IsUnique disk-AreOld

taken : is_valid_date_directory "2025-02-30" ≡ true
unfolding is_valid_date_directory
taken = refl

not_taken : is_valid_date_directory "../../etc/" ≡ false
unfolding is_valid_date_directory
not_taken = refl
