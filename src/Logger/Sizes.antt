-- ===== src/Logger/Sizes.antt =====
-- How large the files of logger.go grow.
use beryl7_ai_agent.Base.{
  ℕ, zero, suc, ◌+◌, ◌-◌, ◌≤◌, ◌<◌, ◌≡◌, refl, sym, Bool, true, false, Option, none, some, List, [],
  ◌∷◌, ◌++◌, ◌==◌, ltb, leb, if◌then◌else◌, Bool-cases, inl, inr, arith,
}
use mathlib.Core.Path.{subst}
use beryl7_ai_agent.Base.Text.{Text}
use beryl7_ai_agent.Config.EnvFile.{utf8_length}
use beryl7_ai_agent.Logger.{
  Files, Works, Entry, Logger, Handle, unset, open_file, closed_file, size, put, rotated, or_empty,
  reopen, rotate_open, rotate, appended, write, log, log_all, backups,
}
use beryl7_ai_agent.Logger.Rotation.{rotated-at}

utf8_length-append : (s t : Text) → utf8_length (s ++ t) ≡ utf8_length s + utf8_length t
unfolding utf8_length
utf8_length-append [] t = omega arith
utf8_length-append (c ∷ s) t = omega (arith, utf8_length-append s t)

-- No file is larger than a number of bytes.
unfoldable pub AtMost : ℕ → Files → Type 0
AtMost b fs = (k : ℕ) → size (fs k) ≤ b

put-AtMost :
    (b j : ℕ) (o : Option Text) (fs : Files) → size o ≤ b → AtMost b fs → AtMost b (put j o fs)
unfolding AtMost
put-AtMost b j o fs h a k = elim (Bool-cases (k == j)) [ inl e ↦ rw e h | inr e ↦ rw e (a k) ]

size_none : (b : ℕ) → size none ≤ b
size_none b = omega arith

rotated-AtMost :
    (works : Works) (b n : ℕ) (fs : Files)
    → ((j : ℕ) → works j ≡ true)
    → 1 ≤ n
    → AtMost b fs
    → AtMost b (rotated works n fs)
unfolding AtMost
rotated-AtMost works b n fs all h a k =
    subst (λ o. size o ≤ b) (sym (rotated-at works n fs k all h)) (cases (k == 0) (leb k n))
  where
    cases : (x y : Bool) → size (if x then none else if y then fs (k - 1) else fs k) ≤ b
    cases true y = size_none b
    cases false true = a (k - 1)
    cases false false = a k

backups-pos : (n : ℕ) → 1 ≤ backups n
backups-pos zero = omega arith
backups-pos (suc n) = omega arith

-- Room for a line is left in a log that is open.
Room : ℕ → Handle → Files → Type 0
Room m unset fs = Unit {0}
Room m closed_file fs = Unit {0}
Room m open_file fs = size (fs 0) < m

-- A logger with files of at most so many bytes, and with room in its log
record Roomy (b m : ℕ) (l : Logger) : Type 0 where
  same : l.max_bytes ≡ m
  at_most : AtMost b l.files
  room : Room m l.handle l.files

or_empty-size : (o : Option Text) → o ≡ none → size (or_empty o) ≡ 0
unfolding utf8_length
or_empty-size o e = rw e refl

reopen-Roomy :
    (ok : Bool) (l : Logger) (b m : ℕ)
    → AtMost b l.files
    → l.files 0 ≡ none
    → l.max_bytes ≡ m
    → 1 ≤ m
    → Roomy b m (reopen ok l)
unfolding Room
reopen-Roomy true l b m a e same pos =
    let empty = or_empty-size (l.files 0) e in
    record {
      same = same;
      at_most = put-AtMost b 0 (or_empty (l.files 0)) l.files (omega (arith, empty)) a;
      room = omega (arith, empty);
    }
reopen-Roomy false l b m a e same pos = record { same = same; at_most = a; room = tt }

rotate_open-Roomy :
    (works : Works) (ok : Bool) (h : Handle) (l : Logger) (b : ℕ)
    → ((j : ℕ) → works j ≡ true)
    → l.handle ≡ h
    → AtMost b l.files
    → 1 ≤ l.max_bytes
    → Roomy b l.max_bytes (rotate_open works ok h l)
unfolding Room
rotate_open-Roomy works ok unset l b all e a pos = record {
  same = refl;
  at_most = a;
  room = rw e tt;
}
rotate_open-Roomy works ok closed_file l b all e a pos = record {
  same = refl;
  at_most = a;
  room = rw e tt;
}
rotate_open-Roomy works ok open_file l b all e a pos =
    elim (Bool-cases (ltb (size (l.files 0)) l.max_bytes)) [
      | inl f ↦ rw f (record { same = refl; at_most = a; room = rw e (ground arith) })
      | inr f ↦
          let fs = rotated works (backups l.backup_count) l.files in
          rw f (
            reopen-Roomy ok (record l { files = fs }) b l.max_bytes
              (rotated-AtMost works b (backups l.backup_count) l.files all
                (backups-pos l.backup_count) a)
              (rotated-at works (backups l.backup_count) l.files 0 all (backups-pos l.backup_count))
              refl pos)
    ]

appended-size : (line : Text) (o : Option Text) → size (appended line o) ≡ size o + utf8_length line
appended-size line none = omega arith
appended-size line (some t) = utf8_length-append t line

-- What a write leaves
record Written (b m : ℕ) (l : Logger) : Type 0 where
  same : l.max_bytes ≡ m
  at_most : AtMost b l.files

write-Written :
    (line : Text) (h : Handle) (l : Logger) (b m : ℕ)
    → l.handle ≡ h
    → Roomy b m l
    → m + utf8_length line ≤ b
    → Written b m (write line h l)
unfolding Room
write-Written line unset l b m e r short = record { same = r.same; at_most = r.at_most }
write-Written line closed_file l b m e r short = record { same = r.same; at_most = r.at_most }
write-Written line open_file l b m e r short =
    let room : Room m open_file l.files = subst (λ h. Room m h l.files) e r.room in
    record {
      same = r.same;
      at_most =
          put-AtMost b 0 (appended line (l.files 0)) l.files
            (omega (arith, appended-size line (l.files 0), room)) r.at_most;
    }

log-Written :
    (works : Works) (ok : Bool) (level : ℕ) (line : Text) (l : Logger) (b : ℕ)
    → ((j : ℕ) → works j ≡ true)
    → AtMost b l.files
    → 1 ≤ l.max_bytes
    → l.max_bytes + utf8_length line ≤ b
    → Written b l.max_bytes (log works ok level line l)
unfolding log rotate
log-Written works ok level line l b all a pos short = elim (Bool-cases (ltb level l.level)) [
  | inl e ↦ rw e (record { same = refl; at_most = a })
  | inr e ↦
      let l' = rotate works ok l in
      rw e (
        write-Written line l'.handle l' b l.max_bytes refl
          (rotate_open-Roomy works ok l.handle l b all refl a pos) short)
]

-- No line is longer than so many bytes, and no rotation has a removal or a rename refused.
unfoldable pub AllShort : ℕ → List Entry → Type 0
AllShort n [] = Unit {0}
AllShort n (e ∷ rest) = (utf8_length e.line ≤ n) × ((j : ℕ) → e.works j ≡ true) × AllShort n rest

-- Whatever is logged in lines of at most `n` bytes, no file of the log grows beyond the limit of its size and `n`
-- bytes, whether or not the log can be opened again after a rotation, as long as the system refuses no
-- removal and no rename of a file that exists.
pub log_all-AtMost :
    (n : ℕ) (es : List Entry) (l : Logger)
    → AllShort n es
    → 1 ≤ l.max_bytes
    → AtMost (l.max_bytes + n) l.files
    → AtMost (l.max_bytes + n) (log_all es l).files
unfolding log_all AllShort
log_all-AtMost n [] l all pos a = a
log_all-AtMost n (e ∷ rest) l (short, works, all) pos a =
    let l' = log e.works e.reopens e.level e.line l in
    let r =
      log-Written e.works e.reopens e.level e.line l (l.max_bytes + n) works a pos
        (omega (arith, short)) in
    let b = r.same in
    subst (λ m. AtMost (m + n) (log_all rest l').files) b
      (log_all-AtMost n rest l' all (subst (λ m. 1 ≤ m) (sym b) pos)
        (subst (λ m. AtMost (m + n) l'.files) (sym b) r.at_most))
