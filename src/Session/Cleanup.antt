-- ===== src/Session/Cleanup.antt =====
-- crates/lunaroute-session/src/cleanup.rs: the cleanup of recorded sessions. The disk is the files of
-- the directories below the session directory, each under the path of its directory and name. Names are
-- UTF-8, times are seconds, and the errors of the disk are left out; the duration is not counted.
pub mod Steps
pub mod Dates
pub mod Usage
pub mod Ages
pub mod Sizes
mod Examples
use Prim.Native.Char.{code}
use Prim.Native.String.{◌++◌ as str_append}
use lunaroute.Prelude.{
  ℕ, ◌+◌, ◌-◌, ◌*◌, ◌/◌, Bool, true, false, ◌&&◌, not, String, Option, none, some, List, [], ◌∷◌,
  length, get_elem?, value_or, ltb, leb, ◌==◌, if◌then◌else◌, Result, ok, err, ◌>>=◌,
}
use lunaroute.Prelude.Texts.{bytes_of, ends_with}
use lunaroute.Prelude.Maps.{lookup, insert, remove}
use lunaroute.Prelude.Words.{u32_size}

-- `CleanupError`, as far as the model raises it.
pub data CleanupError : Type 0 where
  compression invalid_path : String → CleanupError

pub record CleanupStats : Type 0 where
  pub sessions_deleted : ℕ
  pub sessions_compressed : ℕ
  pub bytes_freed : ℕ
  pub bytes_saved : ℕ

pub record DiskUsage : Type 0 where
  pub total_bytes : ℕ
  pub session_count : ℕ
  pub compressed_count : ℕ

pub record RetentionPolicy : Type 0 where
  pub max_age_days : Option ℕ
  pub max_total_size_gb : Option ℕ
  pub compress_after_days : Option ℕ

pub record SessionFile : Type 0 where
  pub contents : List ℕ
  pub modified : ℕ

abbrev pub Disk : Type 0
Disk = List (String × SessionFile)

-- `is_ascii_digit`.
unfoldable pub is_digit : ℕ → Bool
is_digit b = leb 48 b && leb b 57

unfoldable pub byte_at : List ℕ → ℕ → ℕ
byte_at bytes i = value_or (get_elem? bytes i) 0

unfoldable pub two_digits : List ℕ → ℕ → ℕ
unfolding byte_at
two_digits bytes i = (byte_at bytes i - 48) * 10 + (byte_at bytes (i + 1) - 48)

-- The checks on the bytes of a name.
unfoldable pub is_date : List ℕ → Bool
unfolding is_digit byte_at two_digits
is_date bytes =
    length bytes == 10
    && (is_digit (byte_at bytes 0)
        && (is_digit (byte_at bytes 1)
            && (is_digit (byte_at bytes 2)
                && (is_digit (byte_at bytes 3)
                    && (byte_at bytes 4 == 45
                        && (is_digit (byte_at bytes 5)
                            && (is_digit (byte_at bytes 6)
                                && (leb 1 (two_digits bytes 5)
                                    && (leb (two_digits bytes 5) 12
                                        && (byte_at bytes 7 == 45
                                            && (is_digit (byte_at bytes 8)
                                                && (is_digit (byte_at bytes 9)
                                                    && (leb 1 (two_digits bytes 8)
                                                        && leb (two_digits bytes 8) 31)))))))))))))

unfoldable pub is_valid_date_directory : String → Bool
unfolding is_date bytes_of
is_valid_date_directory name = is_date (bytes_of name)

-- The directory in a path.
directory_of : String → String
directory_of String.[] = String.[]
directory_of (String.◌∷◌ c s) =
    let rest = directory_of s in if code c == 47 then String.[] else String.◌∷◌ c rest

-- The file lies in a date directory.
unfoldable pub is_session : String → Bool
unfolding is_valid_date_directory directory_of
is_session path = is_valid_date_directory (directory_of path)

-- The extension of the path is zst.
unfoldable pub is_compressed : String → Bool
unfolding ends_with
is_compressed path = ends_with ".zst" path && not (ends_with "/.zst" path)

add_usage : String → SessionFile → DiskUsage → DiskUsage
unfolding is_compressed
add_usage path file usage = record {
  total_bytes = length file.contents + usage.total_bytes;
  session_count = 1 + usage.session_count;
  compressed_count = (if is_compressed path then 1 else 0) + usage.compressed_count;
}

unfoldable pub calculate_disk_usage : Disk → DiskUsage
unfolding add_usage is_session
calculate_disk_usage [] = record { total_bytes = 0; session_count = 0; compressed_count = 0 }
calculate_disk_usage ((path, file) ∷ disk) =
    let usage = calculate_disk_usage disk in
    if is_session path then add_usage path file usage else usage

at_most : ℕ → ℕ → ℕ
at_most max n = if leb n max then n else max

unfoldable pub days_between : ℕ → ℕ → ℕ
unfolding at_most
days_between modified now = at_most (u32_size - 1) ((now - modified) / 86400)

unfoldable pub file_age_days : ℕ → SessionFile → Result CleanupError ℕ
unfolding days_between
file_age_days now file =
    if ltb now file.modified
    then err (invalid_path "Invalid timestamp: second time provided was later than self")
    else ok (days_between file.modified now)

-- The loop that collects the session files with their ages.
unfoldable pub collect : ℕ → Disk → Result CleanupError (List (String × ℕ))
unfolding is_session file_age_days
collect now [] = ok []
collect now ((path, file) ∷ disk) =
    let rest = collect now disk in
    if is_session path
    then (file_age_days now file >>= λ age. rest >>= λ files. ok ((path, age) ∷ files))
    else rest

unfoldable pub insert_by_age : String × ℕ → List (String × ℕ) → List (String × ℕ)
insert_by_age x [] = x ∷ []
insert_by_age x (y ∷ ys) =
    let rest = insert_by_age x ys in if leb y.1 x.1 then x ∷ y ∷ ys else y ∷ rest

-- `sort_by_key` by descending age, which is stable.
unfoldable pub sort_by_age : List (String × ℕ) → List (String × ℕ)
unfolding insert_by_age
sort_by_age [] = []
sort_by_age (x ∷ xs) = insert_by_age x (sort_by_age xs)

unfoldable pub exists : String → Disk → Bool
unfolding lookup
exists path disk = elim (lookup path disk) [ none ↦ false | some file ↦ true ]

-- The size of a file, or nothing if there is none.
unfoldable pub size_at : String → Disk → ℕ
unfolding lookup
size_at path disk = elim (lookup path disk) [ none ↦ 0 | some file ↦ length file.contents ]

-- What is freed is the size of the file; removing what is not there changes nothing.
unfoldable pub delete_session_file : String → Disk → Disk × ℕ
unfolding remove size_at
delete_session_file path disk = (remove path disk, size_at path disk)
