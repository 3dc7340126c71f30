-- ===== src/Freebsd/RcConf.antt =====
-- drv_undefine of src/drv_freebsd.c, which copies /etc/rc.conf without the lines of an interface. The
-- file has no NUL byte.
mod Absent
use fbsd_netcf.Prelude.{
  ℕ, zero, suc, ◌≤◌, ◌≡◌, refl, ap, ◌∙◌, ◌≢◌, Bool, true, false, ◌&&◌, not, List, [], ◌∷◌, ◌++◌,
  Option, none, some, Text, length, keep, All, arith, ◌==◌, if◌then◌else◌, strstr, ℤ, pos, negsuc,
  Bool-cases, inl, inr, ◌⊎◌,
}
use fbsd_netcf.Netcf.{NetcfIf}

-- /etc/rc.conf and the temporary file (`none` where there is none), and whether fopen for writing of the latter and
-- the rename succeed.
pub record RcFiles : Type 0 where
  pub rc_conf : Option Text
  pub rc_conf_tmp : Option Text
  pub can_write : Bool
  pub can_rename : Bool

-- fgets with room for that many bytes and the NUL: the line, and what is left of the file.
pub fgets : ℕ → Text → Text × Text
fgets room [] = ([], [])
fgets zero (c ∷ s) = ([], c ∷ s)
fgets (suc room) (c ∷ s) =
    let (line, rest) = fgets room s in if c == b'\n' then (c ∷ [], s) else (c ∷ line, rest)

-- line[0] == '#'
pub is_comment : Text → Bool
is_comment [] = false
is_comment (c ∷ line) = c == b'#'

-- Whether the line is left out.
pub is_dropped : Text → Text → Bool
is_dropped name line =
    not (is_comment line) && elim (strstr line name) [ none ↦ false | some _ ↦ true ]

-- The loop: what it writes. Each round takes a byte at least, so that the length of the file is enough fuel.
pub copy_loop : ℕ → Text → Text → Text
copy_loop zero name s = []
copy_loop (suc fuel) name [] = []
copy_loop (suc fuel) name (c ∷ s) =
    let (line, rest) = fgets 255 (c ∷ s) in
    let copied : Text = copy_loop fuel name rest in
    if is_dropped name line then copied else line ++ copied

-- drv_undefine
pub drv_undefine : NetcfIf → RcFiles → ℤ × RcFiles
drv_undefine nif files = elim files.rc_conf [
  | none ↦ (negsuc 0, files)
  | some text ↦
      let copied : Text = copy_loop (length text) nif.name text in
      let renamed : RcFiles = record files { rc_conf = some copied; rc_conf_tmp = none } in
      let kept : RcFiles = record files { rc_conf_tmp = some copied } in
      if files.can_write
      then (pos 0, if files.can_rename then renamed else kept)
      else (negsuc 0, files)
]

pub fgets-append : (room : ℕ) (s : Text) → (fgets room s).0 ++ (fgets room s).1 ≡ s
unfolding fgets
fgets-append zero [] = refl
fgets-append zero (c ∷ s) = refl
fgets-append (suc room) [] = refl
fgets-append (suc room) (c ∷ s) = elim (Bool-cases (c == b'\n')) [
  | inl newline ↦ rw (newline, fgets) refl
  | inr other ↦ rw (other, fgets) (ap (λ (l : Text). c ∷ l) (fgets-append room s))
]

fgets-length : (room : ℕ) (s : Text) → length (fgets room s).0 ≤ room
unfolding fgets
fgets-length zero [] = omega arith
fgets-length zero (c ∷ s) = omega arith
fgets-length (suc room) [] = omega arith
fgets-length (suc room) (c ∷ s) = ground (arith, fgets-length room s)

pub fgets-rest : (room c : ℕ) (s : Text) → length (fgets (suc room) (c ∷ s)).1 ≤ length s
unfolding fgets
fgets-rest zero c [] = ground arith
fgets-rest zero c (d ∷ s) = ground arith
fgets-rest (suc room) c [] = ground arith
fgets-rest (suc room) c (d ∷ s) = ground (arith, fgets-rest room d s)

-- The lines that fgets gives.
pub rc_lines : ℕ → Text → List Text
rc_lines zero s = []
rc_lines (suc fuel) [] = []
rc_lines (suc fuel) (c ∷ s) = (fgets 255 (c ∷ s)).0 ∷ rc_lines fuel (fgets 255 (c ∷ s)).1

pub joined : List Text → Text
joined [] = []
joined (line ∷ lines) = line ++ joined lines

copy_loop-joined :
    (fuel : ℕ) (name s : Text)
    → copy_loop fuel name s ≡ joined (keep (λ line. not (is_dropped name line)) (rc_lines fuel s))
unfolding copy_loop rc_lines joined
copy_loop-joined zero name s = refl
copy_loop-joined (suc fuel) name [] = refl
copy_loop-joined (suc fuel) name (c ∷ s) =
    let tail = copy_loop-joined fuel name (fgets 255 (c ∷ s)).1 in
    elim (Bool-cases (is_dropped name (fgets 255 (c ∷ s)).0)) [
      | inl dropped ↦ rw (dropped, copy_loop) tail
      | inr stays ↦ rw (stays, copy_loop) (ap (λ (l : Text). (fgets 255 (c ∷ s)).0 ++ l) tail)
    ]

joined-rc_lines : (fuel : ℕ) (s : Text) → length s ≤ fuel → joined (rc_lines fuel s) ≡ s
unfolding rc_lines joined
joined-rc_lines zero [] h = refl
joined-rc_lines zero (c ∷ s) h = absurd (omega arith)
joined-rc_lines (suc fuel) [] h = refl
joined-rc_lines (suc fuel) (c ∷ s) h =
    ap (λ (l : Text). (fgets 255 (c ∷ s)).0 ++ l)
      (joined-rc_lines fuel (fgets 255 (c ∷ s)).1 (omega (arith, fgets-rest 254 c s)))
    ∙ fgets-append 255 (c ∷ s)

rc_lines-length : (fuel : ℕ) (s : Text) → All (λ line. length line ≤ 255) (rc_lines fuel s)
unfolding rc_lines
rc_lines-length zero s = tt
rc_lines-length (suc fuel) [] = tt
rc_lines-length (suc fuel) (c ∷ s) =
    (fgets-length 255 (c ∷ s), rc_lines-length fuel (fgets 255 (c ∷ s)).1)

-- No byte but the last is a newline.
pub NewlineLast : Text → Type 0
NewlineLast [] = Unit
NewlineLast (c ∷ []) = Unit
NewlineLast (c ∷ d ∷ s) = ((c == b'\n') ≡ false) × NewlineLast (d ∷ s)

-- Whether the last byte is a newline.
pub is_ended : Text → Bool
is_ended [] = false
is_ended (c ∷ []) = c == b'\n'
is_ended (c ∷ d ∷ s) = is_ended (d ∷ s)

-- These are the lines of a file, cut behind each newline and where a line has 255 bytes, and nowhere else.
pub AreLines : List Text → Type 0
AreLines [] = Unit
AreLines (line ∷ []) = (line ≢ []) × NewlineLast line
AreLines (line ∷ next ∷ lines) =
    (line ≢ [])
    × NewlineLast line
    × ((is_ended line ≡ true) ⊎ (length line ≡ 255))
    × AreLines (next ∷ lines)

NewlineLast-cons : (c : ℕ) (s : Text) → (c == b'\n') ≡ false → NewlineLast s → NewlineLast (c ∷ s)
unfolding NewlineLast
NewlineLast-cons c [] other last = tt
NewlineLast-cons c (d ∷ s) other last = (other, last)

is_ended-cons : (c : ℕ) (s : Text) → is_ended s ≡ true → is_ended (c ∷ s) ≡ true
unfolding is_ended
is_ended-cons c [] e = absurd (cc)
is_ended-cons c (d ∷ s) e = e

AreLines-cons :
    (line : Text) (lines : List Text)
    → line ≢ []
    → NewlineLast line
    → (lines ≢ [] → (is_ended line ≡ true) ⊎ (length line ≡ 255))
    → AreLines lines
    → AreLines (line ∷ lines)
unfolding AreLines
AreLines-cons line [] some_byte last full rest = (some_byte, last)
AreLines-cons line (next ∷ lines) some_byte last full rest = (some_byte, last, full (λ e. cc), rest)

fgets-NewlineLast : (room : ℕ) (s : Text) → NewlineLast (fgets room s).0
unfolding fgets NewlineLast
fgets-NewlineLast zero [] = tt
fgets-NewlineLast zero (c ∷ s) = tt
fgets-NewlineLast (suc room) [] = tt
fgets-NewlineLast (suc room) (c ∷ s) = elim (Bool-cases (c == b'\n')) [
  | inl newline ↦ rw (newline, fgets) tt
  | inr other ↦
      rw (other, fgets) (NewlineLast-cons c (fgets room s).0 other (fgets-NewlineLast room s))
]

-- Where bytes are left, the line has its newline or fills the room.
fgets-full :
    (room : ℕ) (s : Text)
    → (fgets room s).1 ≢ []
    → (is_ended (fgets room s).0 ≡ true) ⊎ (length (fgets room s).0 ≡ room)
unfolding fgets is_ended
fgets-full zero [] = λ left. absurd (left refl)
fgets-full zero (c ∷ s) = λ left. inr refl
fgets-full (suc room) [] = λ left. absurd (left refl)
fgets-full (suc room) (c ∷ s) = elim (Bool-cases (c == b'\n')) [
  | inl newline ↦ rw (newline, fgets) (λ left. inl newline)
  | inr other ↦
      rw (other, fgets)
        (λ left. elim (fgets-full room s left) [
          | inl ended ↦ inl (is_ended-cons c (fgets room s).0 ended)
          | inr full ↦ inr (ground (arith, full))
        ])
]

fgets-some_byte : (room c : ℕ) (s : Text) → (fgets (suc room) (c ∷ s)).0 ≢ []
unfolding fgets
fgets-some_byte room c s = elim (Bool-cases (c == b'\n')) [
  | inl newline ↦ rw (newline, fgets) (λ e. cc)
  | inr other ↦ rw (other, fgets) (λ e. cc)
]

rc_lines-left : (fuel : ℕ) (s : Text) → rc_lines fuel s ≢ [] → s ≢ []
unfolding rc_lines
rc_lines-left zero s lines = absurd (lines refl)
rc_lines-left (suc fuel) [] lines = absurd (lines refl)
rc_lines-left (suc fuel) (c ∷ s) lines = λ e. cc

rc_lines-AreLines : (fuel : ℕ) (s : Text) → AreLines (rc_lines fuel s)
unfolding rc_lines AreLines
rc_lines-AreLines zero s = tt
rc_lines-AreLines (suc fuel) [] = tt
rc_lines-AreLines (suc fuel) (c ∷ s) =
    let rest : Text = (fgets 255 (c ∷ s)).1 in
    AreLines-cons (fgets 255 (c ∷ s)).0 (rc_lines fuel rest) (fgets-some_byte 254 c s)
      (fgets-NewlineLast 255 (c ∷ s))
      (λ lines. fgets-full 255 (c ∷ s) (rc_lines-left fuel rest lines))
      (rc_lines-AreLines fuel rest)

-- Where the files can be opened and renamed, drv_undefine gives 0, and the new rc.conf consists of those
-- lines of the old one that are comments or do not have the name, each unchanged and in their order. The lines are
-- the pieces of the old file when it is cut behind each newline and where a line has 255 bytes, and nowhere else.
pub drv_undefine_lem :
    (nif : NetcfIf) (files : RcFiles) (text : Text)
    → files.rc_conf ≡ some text
    → files.can_write ≡ true
    → files.can_rename ≡ true
    → (lines : List Text) × (joined lines ≡ text)
      × AreLines lines
      × All (λ line. length line ≤ 255) lines
      × ((drv_undefine nif files).0 ≡ pos 0)
      × ((drv_undefine nif files).1.rc_conf
          ≡ some (joined (keep (λ line. not (is_dropped nif.name line)) lines)))
unfolding drv_undefine
drv_undefine_lem nif files text there writable renames = (
  rc_lines (length text) text,
  joined-rc_lines (length text) text (omega arith),
  rc_lines-AreLines (length text) text,
  rc_lines-length (length text) text,
  rw (there, drv_undefine) (rw writable refl),
  rw (there, drv_undefine)
      (rw (writable, renames) (ap some (copy_loop-joined (length text) nif.name text))),
)
