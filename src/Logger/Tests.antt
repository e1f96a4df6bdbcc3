-- ===== src/Logger/Tests.antt =====
-- The logger of logger.go at examples.
use beryl7_ai_agent.Base.{
  ℕ, ◌≡◌, refl, Bool, true, false, none, some, List, [], ◌∷◌, ◌==◌, if◌then◌else◌, Bool-cases, inl,
  inr, arith,
}
use beryl7_ai_agent.Base.Text.{Text, codes}
use beryl7_ai_agent.Config.EnvFile.{utf8_length}
use beryl7_ai_agent.Logger.{Files, Entry, Logger, open_file, rotated, log_all}
use beryl7_ai_agent.Logger.Rotation.{rotated-at}
use beryl7_ai_agent.Logger.Sizes.{AtMost, AllShort, log_all-AtMost}

abbrev files : Files
files k = if k == 0 then some (codes "new") else if k == 1 then some (codes "old") else none

rotated-at_example : rotated (λ _. true) 2 files 2 ≡ some (codes "old")
rotated-at_example = rotated-at (λ _. true) 2 files 2 (λ _. refl) (omega arith)

abbrev logger : Logger
logger = record { level = 1; handle = open_file; files = files; max_bytes = 4; backup_count = 2 }

abbrev entry : Bool → ℕ → Text → Entry
entry b level line = record { works = λ _. b; reopens = true; level = level; line = line }

abbrev entries : List Entry
entries =
    entry true 1 (codes "ab\n") ∷ entry true 0 (codes "c\n") ∷ entry true 3 (codes "de\n") ∷ []

-- A log that is not renamed is opened again as it is, and grows.
grows :
    (log_all (entry false 1 (codes "ab\n") ∷ entry false 1 (codes "ab\n") ∷ []) logger).files 0
    ≡ some (codes "newab\nab\n")
unfolding log_all
grows = refl

rotates : (log_all entries logger).files 1 ≡ some (codes "newab\n")
unfolding log_all
rotates = refl

entries-AllShort : AllShort 3 entries
unfolding AllShort utf8_length
entries-AllShort =
    (omega arith, (λ _. refl), (omega arith, (λ _. refl), (omega arith, (λ _. refl), tt)))

files-AtMost : AtMost 7 files
unfolding AtMost utf8_length
files-AtMost k = elim (Bool-cases (k == 0)) [
  | inl e ↦ rw e (omega arith)
  | inr e ↦ elim (Bool-cases (k == 1)) [
    | inl f ↦ rw (e, f) (omega arith)
    | inr f ↦ rw (e, f) (omega arith)
  ]
]

log_all-AtMost_example : AtMost 7 (log_all entries logger).files
log_all-AtMost_example = log_all-AtMost 3 entries logger entries-AllShort (omega arith) files-AtMost
