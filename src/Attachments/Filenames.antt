-- ===== src/Attachments/Filenames.antt =====
-- `sanitizeFilename` of backend/src/modules/attachments/attachments.service.ts.
use messageries.Base.{
  All, Bool, Bool-cases, [], arith, false, if◌then◌else◌, inl, inr, leb, length, refl, suc, take,
  true, zero, ℕ, ◌&&◌, ◌==◌, ◌||◌, ◌∷◌, ◌≡◌, ◌≤◌,
}
use messageries.Base.Text.{Text}

-- `[\w.\-]`
abbrev pub is_safe : ℕ → Bool
is_safe c =
    (leb 48 c && leb c 57)
    || (leb 65 c && leb c 90)
    || (leb 97 c && leb c 122)
    || c == 95
    || c == 46
    || c == 45

-- Each run of other units gives one underscore; the test says whether a run is open.
abbrev pub replace_runs : Bool → Text → Text
replace_runs open_run [] = []
replace_runs open_run (c ∷ t) =
    if is_safe c
    then c ∷ replace_runs false t
    else if open_run
    then replace_runs true t
    else 95 ∷ replace_runs true t

abbrev pub max_filename : ℕ
max_filename = 120

unfoldable pub sanitize_filename : Text → Text
sanitize_filename name = take max_filename (replace_runs false name)

replace_runs-All : (b : Bool) (t : Text) → All (λ c. is_safe c ≡ true) (replace_runs b t)
replace_runs-All b [] = tt
replace_runs-All b (c ∷ t) = elim (Bool-cases (is_safe c)) [
  | inl safe ↦ rw safe (safe, replace_runs-All false t)
  | inr unsafe ↦ rw unsafe (elim (Bool-cases b) [
    | inl t1 ↦ rw t1 (replace_runs-All true t)
    | inr f1 ↦ rw f1 (refl, replace_runs-All true t)
  ])
]

take-All : (P : ℕ → Type 0) (n : ℕ) (t : Text) → All P t → All P (take n t)
take-All P zero t h = tt
take-All P (suc n) [] h = tt
take-All P (suc n) (c ∷ t) (p, h) = (p, take-All P n t h)

length-take_le : (n : ℕ) (t : Text) → length (take n t) ≤ n
length-take_le zero t = omega arith
length-take_le (suc n) [] = omega arith
length-take_le (suc n) (c ∷ t) = omega (arith, length-take_le n t)

-- What is left of a name has only letters, digits, underscores, points and dashes, and at most 120.
pub sanitize_filename-All :
    (name : Text)
    → All (λ c. is_safe c ≡ true) (sanitize_filename name)
      × (length (sanitize_filename name) ≤ max_filename)
unfolding sanitize_filename
sanitize_filename-All name = (
  take-All (λ c. is_safe c ≡ true) max_filename (replace_runs false name)
      (replace_runs-All false name),
  length-take_le max_filename (replace_runs false name),
)
