-- ===== src/Storage/RollingWriter/Writes.antt =====
-- Calls of `write`, one after the other, and what `read_all` gives afterwards.
use Prim.Native.Nat.{zero, suc}
use mathlib.Core.List.{append_assoc, append-nil}
use lunaroute.Prelude.{
  ℕ, ◌+◌, ◌≤◌, ◌<◌, ◌≡◌, refl, sym, ap, ◌∙◌, ◌⊎◌, inl, inr, Bool, true, Option, none, some, List,
  [], ◌∷◌, ◌++◌, length, length-append, ltb, Bool-cases, arith, All, and_then, subst, ok,
}
use lunaroute.Storage.RollingWriter.{
  Files, RollingWriter, new, append_to, is_open, make_room, write, filled_lines, read_from,
  read_all, with_lines,
}
use lunaroute.Storage.RollingWriter.Lines.{IsEnded, filled_lines-append, append-IsEnded}
use lunaroute.Storage.RollingWriter.Disk.{Shows, put-Shows, get_elem?-at, get_elem?-end}
use lunaroute.Storage.RollingWriter.Log.{AreFull, IsLog, at_end, Rotated, rotate-Rotated, joined}

-- A new writer before its first call, or one at the end of the last file.
abbrev pub IsReady : ℕ → RollingWriter → List (List ℕ) → Type 0
IsReady max w fs =
    ((w ≡ new max) × IsLog max fs)
    ⊎ ((front : List (List ℕ)) × (last : List ℕ) × (w ≡ at_end max front last)
        × (fs ≡ front ++ last ∷ [])
        × AreFull max front)

-- The calls, in the order in which they are made.
abbrev pub write_all : ℕ → List (List ℕ) → RollingWriter → Files → Option (RollingWriter × Files)
write_all fuel [] w files = some (w, files)
write_all fuel (chunk ∷ chunks) w files =
    and_then (write fuel chunk w files) (λ after. write_all fuel chunks after.0 after.1)

module _ (is_utf8 : List ℕ → Bool) (utf8_empty : is_utf8 [] ≡ true)
    (utf8_append : (a b : List ℕ)
      → is_utf8 a ≡ true
      → is_utf8 b ≡ true
      → is_utf8 (a ++ b) ≡ true) where
  -- A text in UTF-8 that is empty or ends with a newline.
  abbrev pub IsText : List ℕ → Type 0
  IsText bytes = IsEnded bytes × (is_utf8 bytes ≡ true)

  append-IsText : (a b : List ℕ) → IsText a → IsText b → IsText (a ++ b)
  append-IsText a b (e, v) (e', v') = (append-IsEnded a b e e', utf8_append a b v v')

  -- The disk holds these bytes in so many files at most.
  abbrev pub Holds : ℕ → ℕ → List ℕ → RollingWriter → Files → Type 0
  Holds max k bytes w files =
      (fs : List (List ℕ)) × IsReady max w fs
      × Shows files fs
      × All IsText fs
      × (joined fs ≡ bytes)
      × (length fs ≤ k)

  joined-end :
      (front : List (List ℕ)) (last bytes : List ℕ)
      → joined (front ++ (last ++ bytes) ∷ []) ≡ joined (front ++ last ∷ []) ++ bytes
  joined-end [] last bytes = rw (append-nil (last ++ bytes), append-nil last) refl
  joined-end (f ∷ front) last bytes =
      rw (joined-end front last bytes) (sym (append_assoc f (joined (front ++ last ∷ [])) bytes))

  end-IsText :
      (front : List (List ℕ)) (last bytes : List ℕ)
      → All IsText (front ++ last ∷ [])
      → IsText bytes
      → All IsText (front ++ (last ++ bytes) ∷ [])
  end-IsText [] last bytes (e, t) ended = (append-IsText last bytes e ended, tt)
  end-IsText (f ∷ front) last bytes (e, t) ended = (e, end-IsText front last bytes t ended)

  -- What an append at the end does.
  append-Holds :
      (max k : ℕ) (front : List (List ℕ)) (last bytes : List ℕ) (files : Files)
      → Shows files (front ++ last ∷ [])
      → AreFull max front
      → All IsText (front ++ last ∷ [])
      → IsText bytes
      → length (front ++ last ∷ []) ≤ k
      → let after = append_to (some (length front)) bytes (at_end max front last) files in
        Holds max k (joined (front ++ last ∷ []) ++ bytes) after.0 after.1
  unfolding append_to
  append-Holds max k front last bytes files shows full ended ends few = (
    front ++ (last ++ bytes) ∷ [],
    inr (front, last ++ bytes, rw (length-append last bytes) refl, refl, full),
    rw (shows (length front), get_elem?-at front [] last)
        (put-Shows files front [] last (last ++ bytes) shows),
    end-IsText front last bytes ended ends,
    joined-end front last bytes,
    omega (arith, length-append front (last ∷ []), length-append front ((last ++ bytes) ∷ []), few),
  )

  room_of :
      (fuel n max : ℕ) (w : RollingWriter) (files : Files) (fs : List (List ℕ))
      → 0 < max
      → IsReady max w fs
      → Shows files fs
      → length fs < fuel
      → 1 < fuel
      → Rotated max fs (make_room fuel n w files)
        ⊎ ((front : List (List ℕ)) × (last : List ℕ) × (make_room fuel n w files
              ≡ some (at_end max front last, files))
            × (fs ≡ front ++ last ∷ [])
            × AreFull max front)
  unfolding make_room is_open new
  room_of fuel n max w files fs positive (inl (e, log)) shows enough two =
      rw e (inl (rotate-Rotated fuel max [] fs none 0 files positive shows tt log enough))
  room_of fuel n max w files fs positive (inr (front, last, e, here, full)) shows enough two =
      elim (Bool-cases (ltb max (length last + n))) [
        | inl over ↦
            let rotated =
              rotate-Rotated fuel max front (last ∷ []) (some (length front)) (length last) files
                positive (subst (Shows files) here shows) full tt (omega arith) in
            inl (rw (e, over, here) rotated)
        | inr fits ↦ inr (front, last, rw (e, fits) refl, here, full)
      ]

  -- What a call of `write` leads to.
  abbrev Written : ℕ → ℕ → List ℕ → Option (RollingWriter × Files) → Type 0
  Written max k bytes result =
      (w : RollingWriter) × (files : Files) × (result ≡ some (w, files)) × Holds max k bytes w files

  append-Written :
      (max k : ℕ) (front : List (List ℕ)) (last bytes : List ℕ) (files : Files)
      → Shows files (front ++ last ∷ [])
      → AreFull max front
      → All IsText (front ++ last ∷ [])
      → IsText bytes
      → length (front ++ last ∷ []) ≤ k
      → Written max k
          (joined (front ++ last ∷ []) ++ bytes)
          (some (append_to (some (length front)) bytes (at_end max front last) files))
  append-Written max k front last bytes files shows full ended ends few =
      let after = append_to (some (length front)) bytes (at_end max front last) files in
      (after.0, after.1, refl, append-Holds max k front last bytes files shows full ended ends few)

  joined-new : (fs : List (List ℕ)) → joined (fs ++ [] ∷ []) ≡ joined fs
  joined-new [] = refl
  joined-new (f ∷ fs) = ap (λ r. f ++ r) (joined-new fs)

  new-IsText : (fs : List (List ℕ)) → All IsText fs → All IsText (fs ++ [] ∷ [])
  new-IsText [] t = ((inl refl, utf8_empty), tt)
  new-IsText (f ∷ fs) (e, t) = (e, new-IsText fs t)

  write-Written :
      (fuel max k : ℕ) (bytes chunk : List ℕ) (w : RollingWriter) (files : Files)
      → 0 < max
      → k + 1 < fuel
      → IsText chunk
      → Holds max k bytes w files
      → Written max (k + 1) (bytes ++ chunk) (write fuel chunk w files)
  unfolding write
  write-Written fuel max k bytes chunk w files positive enough ends
        (fs, ready, shows, ended, e, few) =
      elim (room_of fuel (length chunk) max w files fs positive ready shows (omega arith)
        (omega arith)) [
          | inl (files', front, last, made, shows', full, free, inl same) ↦
              rw (made, sym e, sym same)
                (append-Written max (k + 1) front last chunk files' shows' full
                  (subst (All IsText) (sym same) ended) ends (rw same (omega arith)))
          | inl (files', front, last, made, shows', full, free, inr added) ↦
              rw (made, sym e, sym (joined-new fs), sym added)
                (append-Written max (k + 1) front last chunk files' shows' full
                  (subst (All IsText) (sym added) (new-IsText fs ended)) ends
                  (rw added (omega (arith, length-append fs ([] ∷ []), few))))
          | inr (front, last, made, here, full) ↦
              rw (made, sym e, here)
                (append-Written max (k + 1) front last chunk files (subst (Shows files) here shows)
                  full (subst (All IsText) here ended) ends (rw (sym here) (omega arith)))
        ]

  zero_right : (k : ℕ) → k + 0 ≡ k
  zero_right k = omega arith

  write_all-Written :
      (fuel max k : ℕ) (bytes : List ℕ) (chunks : List (List ℕ)) (w : RollingWriter) (files : Files)
      → 0 < max
      → k + length chunks < fuel
      → All IsText chunks
      → Holds max k bytes w files
      → Written max (k + length chunks) (bytes ++ joined chunks) (write_all fuel chunks w files)
  write_all-Written fuel max k bytes [] w files positive enough ends holds =
      (w, files, refl, rw (append-nil bytes, zero_right k) holds)
  write_all-Written fuel max k bytes (chunk ∷ chunks) w files positive enough (end, ends) holds =
      let (w', files', made, holds') =
        write-Written fuel max k bytes chunk w files positive (omega arith) end holds in
      let (w'', files'', all, holds'') =
        write_all-Written fuel max (k + 1) (bytes ++ chunk) chunks w' files' positive (omega arith)
          ends holds' in
      let count : (k + 1) + length chunks ≡ k + suc (length chunks) = omega arith in
      let text = append_assoc bytes chunk (joined chunks) in
      (w'', files'', rw made all, rw (sym count, sym text) holds'')

  -- Reading from a file on gives the lines of what follows.
  read_from-lines :
      (fuel : ℕ) (done rest : List (List ℕ)) (files : Files)
      → Shows files (done ++ rest)
      → All IsText rest
      → length rest < fuel
      → read_from is_utf8 fuel (length done) files ≡ some (ok (filled_lines (joined rest)))
  unfolding read_from with_lines
  read_from-lines zero done rest files shows ended enough = absurd (omega arith)
  read_from-lines (suc fuel) done [] files shows ended enough =
      let shown : Shows files done = subst (Shows files) (append-nil done) shows in
      rw (shown (length done), get_elem?-end done, read_from) refl
  read_from-lines (suc fuel) done (f ∷ rest) files shows (e, ended) enough =
      let later =
        read_from-lines fuel (done ++ f ∷ []) rest files
          (subst (Shows files) (sym (append_assoc done (f ∷ []) rest)) shows) ended (omega arith) in
      rw
        (
          shows (length done),
          get_elem?-at done rest f,
          read_from,
          e.1,
          sym (length-append done (f ∷ [])),
          later,
          filled_lines-append f (joined rest) e.0,
        )
        refl

  joined-IsText : (fs : List (List ℕ)) → All IsText fs → IsText (joined fs)
  joined-IsText [] t = (inl refl, utf8_empty)
  joined-IsText (f ∷ fs) (e, t) = append-IsText f (joined fs) e (joined-IsText fs t)

  -- When the empty text is UTF-8 and so are two texts of UTF-8 put together, when the files on the disk
  -- are all full but the last, and when each of them and of the chunks to write is UTF-8 and is empty or
  -- ends with a newline, a new writer with a positive maximum writes every chunk, and `read_all` then
  -- succeeds and gives the lines of the files as they were and then those of the chunks, less the empty
  -- lines. One unit of fuel more than there are files and chunks is enough for each call.
  pub write_all-read_all :
      (fuel max : ℕ) (fs chunks : List (List ℕ)) (files : Files)
      → 0 < max
      → Shows files fs
      → IsLog max fs
      → All IsText fs
      → All IsText chunks
      → length fs + length chunks < fuel
      → (w : RollingWriter) × (files' : Files) × (write_all fuel chunks (new max) files
          ≡ some (w, files'))
        × (read_all is_utf8 fuel files'
            ≡ some (ok (filled_lines (joined fs) ++ filled_lines (joined chunks))))
  unfolding read_all
  write_all-read_all fuel max fs chunks files positive shows log ended ends enough =
      let (w, files', made, (fs', ready, shows', ended', e, few)) =
        write_all-Written fuel max (length fs) (joined fs) chunks (new max) files positive enough
          ends (fs, inl (refl, log), shows, ended, refl, omega arith) in
      let all = read_from-lines fuel [] fs' files' shows' ended' (omega arith) in
      (
        w,
        files',
        made,
        all
            ∙ ap (λ bytes. some (ok (filled_lines bytes))) e
            ∙ ap (λ ls. some (ok ls))
                (filled_lines-append (joined fs) (joined chunks) (joined-IsText fs ended).0),
      )
