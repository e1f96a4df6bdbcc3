-- ===== src/Logger/Rotation.antt =====
-- What a rotation of logger.go does to each file.
use beryl7_ai_agent.Base.{
  ℕ, zero, suc, ◌+◌, ◌-◌, ◌≤◌, ◌≡◌, refl, ap, ◌∙◌, true, Option, none, some, ◌==◌, leb,
  if◌then◌else◌, Bool-cases, inl, inr, arith,
}
use beryl7_ai_agent.Base.Text.{Text}
use beryl7_ai_agent.Logger.{Files, Works, put, rename, rename_some, remove, shift_from, rotated}

rename_some-moved :
    (i j : ℕ) (o : Option Text) (fs : Files)
    → fs i ≡ o
    → fs j ≡ none
    → (k : ℕ) → rename_some i j o fs k ≡ (if k == j then o else if k == i then none else fs k)
rename_some-moved i j none fs e free k = elim (Bool-cases (k == j)) [
  | inl f ↦ rw f (ap fs (the_same k j f) ∙ free)
  | inr f ↦ elim (Bool-cases (k == i)) [
    | inl g ↦ rw (f, g) (ap fs (the_same k i g) ∙ e)
    | inr g ↦ rw (f, g) refl
  ]
]
  where
    the_same : (a b : ℕ) → (a == b) ≡ true → a ≡ b
    the_same a b h = ground arith
rename_some-moved i j (some t) fs e free k = refl

rename-at :
    (works : Works) (i : ℕ) (fs : Files)
    → works i ≡ true
    → fs (suc i) ≡ none
    → (k : ℕ) → rename works i fs k ≡ (if k == suc i then fs i else if k == i then none else fs k)
rename-at works i fs ok free k = rw ok (rename_some-moved i (suc i) (fs i) fs refl free k)

-- The files after the renames of the loop
abbrev shifted : ℕ → Files → Files
shifted i fs zero = fs 0
shifted i fs (suc zero) = none
shifted i fs (suc (suc k)) = if leb (k + 1) i then fs (suc k) else fs (suc (suc k))

shift_from-shifted :
    (works : Works) (i : ℕ) (fs : Files)
    → ((j : ℕ) → works j ≡ true)
    → fs (suc i) ≡ none
    → (k : ℕ) → shift_from works i fs k ≡ shifted i fs k
unfolding shift_from
shift_from-shifted works zero fs ok free zero = refl
shift_from-shifted works zero fs ok free (suc zero) = free
shift_from-shifted works zero fs ok free (suc (suc k)) = ground arith
shift_from-shifted works (suc i) fs ok free k = shift_from-shifted works i fs' ok free' k ∙ later k
  where
    fs' : Files
    fs' = rename works (suc i) fs

    at :
        (m : ℕ)
        → fs' m ≡ (if m == suc (suc i) then fs (suc i) else if m == suc i then none else fs m)
    at m = rename-at works (suc i) fs (ok (suc i)) free m

    free' : fs' (suc i) ≡ none
    free' = at (suc i) ∙ ground arith

    later : (k : ℕ) → shifted i fs' k ≡ shifted (suc i) fs k
    later zero = at 0 ∙ ground arith
    later (suc zero) = refl
    later (suc (suc k)) = ground (arith, at (suc k), at (suc (suc k)))

-- When the system refuses no removal and no rename of a file that exists, a rotation moves the log to the first backup and each backup to the next, drops the last backup, and leaves
-- other files as they are.
pub rotated-at :
    (works : Works) (n : ℕ) (fs : Files) (k : ℕ)
    → ((j : ℕ) → works j ≡ true)
    → 1 ≤ n
    → rotated works n fs k ≡ (if k == 0 then none else if leb k n then fs (k - 1) else fs k)
unfolding rotated
rotated-at works zero fs k ok h = absurd (ground arith)
rotated-at works (suc n) fs k ok h = rename-at works 0 fs₁ (ok 0) (spec 1) k ∙ last k
  where
    fs₁ : Files
    fs₁ = shift_from works n (remove works (suc n) fs)

    removed : remove works (suc n) fs ≡ put (suc n) none fs
    removed = rw (ok (suc n)) refl

    free : put (suc n) none fs (suc n) ≡ none
    free = ground arith

    spec : (m : ℕ) → fs₁ m ≡ shifted n (put (suc n) none fs) m
    spec m =
        ap (λ g. shift_from works n g m) removed
        ∙ shift_from-shifted works n (put (suc n) none fs) ok free m

    last :
        (k : ℕ)
        → (if k == 1 then fs₁ 0 else if k == 0 then none else fs₁ k)
          ≡ (if k == 0 then none else if leb k (suc n) then fs (k - 1) else fs k)
    last zero = refl
    last (suc zero) = spec 0 ∙ ground arith
    last (suc (suc k)) = ground (arith, spec (suc (suc k)))
