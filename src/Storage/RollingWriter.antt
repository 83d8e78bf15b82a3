-- ===== src/Storage/RollingWriter.antt =====
-- crates/lunaroute-storage/src/rolling_writer.rs: files of lines that roll over at a size. A file is
-- its bytes, and the disk gives for each index the file of the base path with that suffix, if there
-- is one. Errors of the disk are left out, but the one
-- of a file that is not UTF-8 where it is read as a text.
pub mod Lines
pub mod Disk
pub mod Log
pub mod Writes
mod Examples
use Prim.Native.Nat.{zero, suc}
use lunaroute.Prelude.{
  ℕ, ◌+◌, Bool, true, false, Option, none, some, List, [], ◌∷◌, ◌++◌, length, ltb, leb, ◌==◌,
  if◌then◌else◌, and_then, map_some, value_or, is_empty, Result, ok, err, ◌>>=◌,
}

abbrev pub Files : Type 0
Files = ℕ → Option (List ℕ)

unfoldable pub update : Files → ℕ → List ℕ → Files
update files i bytes j = if j == i then some bytes else files j

pub record RollingWriter : Type 0 where
  pub max_file_size : ℕ
  pub current_index : ℕ
  pub current_file : Option ℕ
  pub current_size : ℕ

unfoldable pub new : ℕ → RollingWriter
new max_file_size = record {
  max_file_size = max_file_size;
  current_index = 0;
  current_file = none;
  current_size = 0;
}

-- `OpenOptions::new().create(true).append(true).open(…)`.
unfoldable pub open_file : Files → ℕ → Files
unfolding update
open_file files i = update files i (value_or (files i) [])

-- The recursion of `rotate` on fuel; none is out of fuel.
unfoldable pub rotate : ℕ → RollingWriter → Files → Option (RollingWriter × Files)
unfolding open_file
rotate zero w files = none
rotate (suc fuel) w files =
    let files' = open_file files w.current_index in
    let size = length (value_or (files w.current_index) []) in
    let next =
      rotate fuel
        (record w { current_index = w.current_index + 1; current_file = none; current_size = size })
        files' in
    if leb w.max_file_size size
    then next
    else some (record w { current_file = some w.current_index; current_size = size }, files')

append_to : Option ℕ → List ℕ → RollingWriter → Files → RollingWriter × Files
unfolding update
append_to none bytes w files = (w, files)
append_to (some i) bytes w files = (
  record w { current_size = w.current_size + length bytes },
  update files i (value_or (files i) [] ++ bytes),
)

is_open : Option ℕ → Bool
is_open none = false
is_open (some i) = true

-- A writer with room for so many bytes.
make_room : ℕ → ℕ → RollingWriter → Files → Option (RollingWriter × Files)
unfolding rotate is_open
make_room fuel n w files =
    let rotated = rotate fuel w files in
    if is_open w.current_file
    then (if ltb w.max_file_size (w.current_size + n) then rotated else some (w, files))
    else rotated

unfoldable pub write : ℕ → List ℕ → RollingWriter → Files → Option (RollingWriter × Files)
unfolding make_room append_to
write fuel bytes w files =
    map_some (λ room. append_to room.0.current_file bytes room.0 room.1)
      (make_room fuel (length bytes) w files)

ends_with_cr : List ℕ → Bool
ends_with_cr [] = false
ends_with_cr (b ∷ []) = b == 13
ends_with_cr (b ∷ c ∷ bs) = ends_with_cr (c ∷ bs)

without_last : List ℕ → List ℕ
without_last [] = []
without_last (b ∷ []) = []
without_last (b ∷ c ∷ bs) = b ∷ without_last (c ∷ bs)

-- A line before its end, without a carriage return.
unfoldable pub line_of : List ℕ → List ℕ
unfolding ends_with_cr without_last
line_of bs = if ends_with_cr bs then without_last bs else bs

-- `content.lines()`, after the start of a line.
unfoldable pub lines_from : List ℕ → List ℕ → List (List ℕ)
unfolding line_of
lines_from start [] = if is_empty start then [] else start ∷ []
lines_from start (b ∷ bs) =
    if b == 10 then line_of start ∷ lines_from [] bs else lines_from (start ++ b ∷ []) bs

unfoldable pub keep_filled : List (List ℕ) → List (List ℕ)
keep_filled [] = []
keep_filled (l ∷ ls) = let rest = keep_filled ls in if is_empty l then rest else l ∷ rest

-- The lines that are not empty.
unfoldable pub filled_lines : List ℕ → List (List ℕ)
unfolding keep_filled lines_from
filled_lines content = keep_filled (lines_from [] content)

-- `fs::read_to_string` of bytes that are not UTF-8.
pub data ReadError : Type 0 where
  invalid_data : ReadError

-- The lines of a file before the lines of the files after it, unless reading those failed.
unfoldable pub with_lines :
    List (List ℕ) → Result ReadError (List (List ℕ)) → Result ReadError (List (List ℕ))
with_lines ls rest = rest >>= λ ls'. ok (ls ++ ls')

-- Whether the standard library takes bytes for UTF-8 is the argument `is_utf8`.
module _ (is_utf8 : List ℕ → Bool) where
  -- The loop of `read_all` on fuel, from an index on; none is out of fuel.
  unfoldable pub read_from : ℕ → ℕ → Files → Option (Result ReadError (List (List ℕ)))
  unfolding filled_lines with_lines
  read_from zero index files = none
  read_from (suc fuel) index files = elim (files index) [
    | none ↦ some (ok [])
    | some content ↦
        let rest = read_from fuel (index + 1) files in
        if is_utf8 content
        then map_some (with_lines (filled_lines content)) rest
        else some (err invalid_data)
  ]

  unfoldable pub read_all : ℕ → Files → Option (Result ReadError (List (List ℕ)))
  unfolding read_from
  read_all fuel files = read_from fuel 0 files
