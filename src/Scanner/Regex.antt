-- ===== src/Scanner/Regex.antt =====
-- The regular expressions of content-scanner.service.ts, as the language runs them: by backtracking,
-- greedily, the alternatives from the left. No group that is repeated matches the empty text.
pub mod Absence
use mathlib.Core.Option
use messageries.Base.{
  Bool, List, Option, [], false, find, if◌then◌else◌, leb, length, none, not, some, suc, true, zero,
  ℕ, ◌&&◌, ◌++◌, ◌-◌, ◌==◌, ◌||◌, ◌∷◌,
}
use messageries.Base.Text.{Text}
use messageries.Scanner.{is_empty}

-- `repeat least more` is `{least,least + more}`, and `many least` is `{least,}`.
pub data Regex : Type 0 where
  unit_where : (ℕ → Bool) → Regex
  boundary : Regex
  chain : Regex → Regex → Regex
  either : Regex → Regex → Regex
  repeat : ℕ → ℕ → Regex → Regex
  many : ℕ → Regex → Regex

-- A place in the text, with what the match has taken so far.
pub record Cursor : Type 0 where
  pub before : Option ℕ
  pub taken : Text
  pub rest : Text

abbrev pub is_digit : ℕ → Bool
is_digit c = leb 48 c && leb c 57

-- `[A-Z]` where the case is ignored.
abbrev pub is_letter : ℕ → Bool
is_letter c = leb 65 c && leb c 90 || leb 97 c && leb c 122

-- `\w`
abbrev pub is_word : ℕ → Bool
is_word c = is_digit c || is_letter c || c == 95

abbrev pub is_word_at : Option ℕ → Bool
is_word_at none = false
is_word_at (some c) = is_word c

abbrev pub first_unit : Text → Option ℕ
first_unit [] = none
first_unit (c ∷ t) = some c

abbrev pub xor : Bool → Bool → Bool
xor true b = not b
xor false b = b

abbrev pub bind : (Cursor → List Cursor) → List Cursor → List Cursor
bind f [] = []
bind f (c ∷ cs) = f c ++ bind f cs

abbrev pub take_unit : (ℕ → Bool) → Option ℕ → Text → Text → List Cursor
take_unit p before taken [] = []
take_unit p before taken (c ∷ rest) =
    if p c then record { before = some c; taken = taken ++ c ∷ []; rest = rest } ∷ [] else []

-- At least `least` times, and at most `more` times more, the most first.
abbrev pub iterate : (Cursor → List Cursor) → ℕ → ℕ → Cursor → List Cursor
iterate f (suc least) more c = bind (iterate f least more) (f c)
iterate f zero zero c = c ∷ []
iterate f zero (suc more) c = bind (iterate f zero more) (f c) ++ c ∷ []

-- Where the match may end, the preferred end first.
unfoldable pub matches : Regex → Cursor → List Cursor
matches (unit_where p) c = take_unit p c.before c.taken c.rest
matches boundary c =
    if xor (is_word_at c.before) (is_word_at (first_unit c.rest)) then c ∷ [] else []
matches (chain r s) c = bind (matches s) (matches r c)
matches (either r s) c = matches r c ++ matches s c
matches (repeat least more r) c = iterate (matches r) least more c
matches (many least r) c = iterate (matches r) least (length c.rest) c

-- The match at a place: the first end, of a text that is not empty.
unfoldable pub match_at : Regex → Option ℕ → Text → Option Text
match_at r before t =
    Option.map (λ c. c.taken)
      (find (λ c. not (is_empty c.taken))
        (matches r (record { before = before; taken = []; rest = t })))

-- `text.replace(/r/g, f)`, where `f` may leave a match as it is; also whether it ever did not. The
-- first number counts the units of the last match that are still to be passed over.
unfoldable pub replace_from : Regex → (Text → Option Text) → ℕ → Option ℕ → Text → Bool × Text
replace_from r f skip before [] = (false, [])
replace_from r f (suc skip) before (c ∷ t) = replace_from r f skip (some c) t
replace_from r f zero before (c ∷ t) = elim (match_at r before (c ∷ t)) [
  | none ↦ let (hit, t') = replace_from r f zero (some c) t in (hit, c ∷ t')
  | some m ↦
      let (hit, t') = replace_from r f (length m - 1) (some c) t in
      elim (f m) [ none ↦ (hit, m ++ t') | some new ↦ (true, new ++ t') ]
]

abbrev pub replace_all : Regex → (Text → Option Text) → Text → Bool × Text
replace_all r f t = replace_from r f 0 none t
