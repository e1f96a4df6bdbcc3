-- ===== src/Logger.antt =====
-- go-agent/logger/logger.go: the level, the rotation and the writing of lines. The files are numbered: 0 is the
-- log, the others its backups. A line is given as it is printed, with its secrets taken out.
pub mod Rotation
pub mod Sizes
mod Tests
use beryl7_ai_agent.Base.{
  ℕ, zero, suc, ◌+◌, ◌-◌, ◌*◌, ◌^◌, Bool, true, false, not, ◌&&◌, ◌||◌, Option, none, some, List,
  [], ◌∷◌, ◌++◌, ◌==◌, ltb, leb, if◌then◌else◌,
}
use beryl7_ai_agent.Base.Text.{Text}
use beryl7_ai_agent.Config.EnvFile.{utf8_length}

-- The log is not to a file, the file is open, or it was closed and could not be opened again.
pub data Handle : Type 0 where
  unset open_file closed_file : Handle

abbrev pub Files : Type 0
Files = ℕ → Option Text

pub record Logger : Type 0 where
  -- from 0 for DEBUG to 3 for ERROR
  pub level : ℕ
  pub handle : Handle
  pub files : Files
  pub max_bytes : ℕ
  pub backup_count : ℕ

abbrev pub size : Option Text → ℕ
size none = 0
size (some t) = utf8_length t

abbrev pub put : ℕ → Option Text → Files → Files
put j o fs k = if k == j then o else fs k

-- Whether the system carries out what a rotation asks for the file of a number: to move it to the next number,
-- or to remove it if it is the last. The code heeds no error of these.
abbrev pub Works : Type 0
Works = ℕ → Bool

-- `os.Rename`, which fails if there is no such file, or when the system refuses
abbrev pub rename_some : ℕ → ℕ → Option Text → Files → Files
rename_some i j none fs = fs
rename_some i j (some t) fs = put j (some t) (put i none fs)

abbrev pub rename : Works → ℕ → Files → Files
rename works i fs = if works i then rename_some i (suc i) (fs i) fs else fs

-- `os.Remove`
abbrev pub remove : Works → ℕ → Files → Files
remove works i fs = if works i then put i none fs else fs

-- The renames of the loop, from a backup down to the first
unfoldable pub shift_from : Works → ℕ → Files → Files
shift_from works zero fs = fs
shift_from works (suc i) fs = shift_from works i (rename works (suc i) fs)

abbrev pub backups : ℕ → ℕ
backups zero = 5
backups (suc n) = suc n

abbrev pub before : ℕ → ℕ
before zero = zero
before (suc n) = n

-- The files after a rotation with so many backups, before the log is opened again
unfoldable pub rotated : Works → ℕ → Files → Files
unfolding shift_from
rotated works n fs = rename works 0 (shift_from works (before n) (remove works n fs))

abbrev pub or_empty : Option Text → Option Text
or_empty none = some []
or_empty (some t) = some t

abbrev pub opened : Files → Files
opened fs = put 0 (or_empty (fs 0)) fs

abbrev pub reopen : Bool → Logger → Logger
reopen true l = record l { files = opened l.files; handle = open_file }
reopen false l = record l { handle = closed_file }

abbrev pub rotate_open : Works → Bool → Handle → Logger → Logger
rotate_open works ok unset l = l
rotate_open works ok closed_file l = l
rotate_open works ok open_file l =
    if ltb (size (l.files 0)) l.max_bytes
    then l
    else reopen ok (record l { files = rotated works (backups l.backup_count) l.files })

-- `rotate`; the test is whether the log can be opened again.
unfoldable pub rotate : Works → Bool → Logger → Logger
unfolding rotated utf8_length
rotate works ok l = rotate_open works ok l.handle l

abbrev pub appended : Text → Option Text → Option Text
appended line none = some line
appended line (some t) = some (t ++ line)

abbrev pub write : Text → Handle → Logger → Logger
write line unset l = l
write line closed_file l = l
write line open_file l = record l { files = put 0 (appended line (l.files 0)) l.files }

-- `log`
unfoldable pub log : Works → Bool → ℕ → Text → Logger → Logger
unfolding rotate
log works ok level line l =
    if ltb level l.level then l else let l' = rotate works ok l in write line l'.handle l'

-- A line that is logged, with what the system answers when it makes the log rotate
pub record Entry : Type 0 where
  pub works : Works
  pub reopens : Bool
  pub level : ℕ
  pub line : Text

unfoldable pub log_all : List Entry → Logger → Logger
unfolding log
log_all [] l = l
log_all (e ∷ rest) l = log_all rest (log e.works e.reopens e.level e.line l)

-- `SetMaxBytes` and `SetBackupCount` of a number that may not be positive
abbrev pub set_max_bytes : ℕ → Logger → Logger
set_max_bytes zero l = l
set_max_bytes (suc n) l = record l { max_bytes = suc n }

abbrev pub set_backup_count : ℕ → Logger → Logger
set_backup_count zero l = l
set_backup_count (suc n) l = record l { backup_count = suc n }
