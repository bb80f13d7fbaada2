-- ===== src/Scanner/Regex/Absence.antt =====
-- A pattern that needs a unit of a class matches nowhere in a text without such a unit.
use messageries.Base.{
  All, All-append, Bool, Bool-cases, List, Option, [], arith, false, inl, inr, length, none, refl,
  some, suc, true, zero, ℕ, ◌∷◌, ◌≡◌,
}
use messageries.Base.Text.{Text}
use messageries.Scanner.Regex.{
  Cursor, Regex, bind, boundary, chain, either, first_unit, is_word_at, iterate, many, match_at,
  matches, repeat, replace_from, take_unit, unit_where, xor,
}

module _ (p : ℕ → Bool) where
  -- Every match takes a unit of the class.
  pub data Needs : Regex → Type 0 where
    by_unit : (q : ℕ → Bool) → ((x : ℕ) → q x ≡ true → p x ≡ true) → Needs (unit_where q)
    by_left : (r s : Regex) → Needs r → Needs (chain r s)
    by_right : (r s : Regex) → Needs s → Needs (chain r s)
    by_repeat : (least more : ℕ) (r : Regex) → Needs r → Needs (repeat (suc least) more r)

  abbrev Free : Text → Type 0
  Free t = All (λ x. p x ≡ false) t

  abbrev RestFree : Cursor → Type 0
  RestFree c = Free c.rest

  bind-All :
      (f : Cursor → List Cursor)
      → ((c : Cursor) → RestFree c → All RestFree (f c))
      → (cs : List Cursor) → All RestFree cs
      → All RestFree (bind f cs)
  bind-All f h [] a = tt
  bind-All f h (c ∷ cs) (first, others) =
      All-append RestFree (f c) (bind f cs) (h c first) (bind-All f h cs others)

  iterate-All :
      (f : Cursor → List Cursor)
      → ((c : Cursor) → RestFree c → All RestFree (f c))
      → (least more : ℕ) (c : Cursor) → RestFree c
      → All RestFree (iterate f least more c)
  iterate-All f h (suc least) more c a =
      bind-All (iterate f least more) (iterate-All f h least more) (f c) (h c a)
  iterate-All f h zero zero c a = (a, tt)
  iterate-All f h zero (suc more) c a =
      All-append RestFree (bind (iterate f zero more) (f c)) (c ∷ [])
        (bind-All (iterate f zero more) (iterate-All f h zero more) (f c) (h c a)) (a, tt)

  take_unit-All :
      (q : ℕ → Bool) (before : Option ℕ) (taken rest : Text)
      → Free rest
      → All RestFree (take_unit q before taken rest)
  take_unit-All q before taken [] a = tt
  take_unit-All q before taken (x ∷ rest) (first, a) = elim (Bool-cases (q x)) [
    | inl hit ↦ rw hit (a, tt)
    | inr miss ↦ rw miss tt
  ]

  take_unit-nil :
      (q : ℕ → Bool)
      → ((x : ℕ) → q x ≡ true → p x ≡ true)
      → (before : Option ℕ) (taken rest : Text) → Free rest
      → take_unit q before taken rest ≡ []
  take_unit-nil q h before taken [] a = refl
  take_unit-nil q h before taken (x ∷ rest) (first, a) = elim (Bool-cases (q x)) [
    | inl hit ↦ absurd (ground (arith, h x hit))
    | inr miss ↦ rw miss refl
  ]

  matches-All : (r : Regex) (c : Cursor) → RestFree c → All RestFree (matches r c)
  unfolding matches
  matches-All (unit_where q) c a = take_unit-All q c.before c.taken c.rest a
  matches-All boundary c a =
      elim (Bool-cases (xor (is_word_at c.before) (is_word_at (first_unit c.rest)))) [
        | inl at ↦ rw at (a, tt)
        | inr inside ↦ rw inside tt
      ]
  matches-All (chain r s) c a =
      bind-All (matches s) (matches-All s) (matches r c) (matches-All r c a)
  matches-All (either r s) c a =
      All-append RestFree (matches r c) (matches s c) (matches-All r c a) (matches-All s c a)
  matches-All (repeat least more r) c a = iterate-All (matches r) (matches-All r) least more c a
  matches-All (many least r) c a = iterate-All (matches r) (matches-All r) least (length c.rest) c a

  bind-nil :
      (f : Cursor → List Cursor)
      → ((c : Cursor) → RestFree c → f c ≡ [])
      → (cs : List Cursor) → All RestFree cs
      → bind f cs ≡ []
  bind-nil f h [] a = refl
  bind-nil f h (c ∷ cs) (first, others) = rw (h c first, bind-nil f h cs others) refl

  pub matches-nil : (r : Regex) → Needs r → (c : Cursor) → RestFree c → matches r c ≡ []
  unfolding matches
  matches-nil _ (by_unit q h) c a = take_unit-nil q h c.before c.taken c.rest a
  matches-nil _ (by_left r s n) c a = rw (matches-nil r n c a) refl
  matches-nil _ (by_right r s n) c a =
      bind-nil (matches s) (matches-nil s n) (matches r c) (matches-All r c a)
  matches-nil _ (by_repeat least more r n) c a = rw (matches-nil r n c a) refl

  match_at-none :
      (r : Regex) (before : Option ℕ) (t : Text) → Needs r → Free t → match_at r before t ≡ none
  unfolding match_at
  match_at-none r before t n a =
      rw (matches-nil r n (record { before = before; taken = []; rest = t }) a) refl

  -- Nothing is replaced.
  pub replace_from-Free :
      (r : Regex) (f : Text → Option Text)
      → Needs r
      → (before : Option ℕ) (t : Text) → Free t
      → replace_from r f 0 before t ≡ (false, t)
  unfolding replace_from
  replace_from-Free r f n before [] a = refl
  replace_from-Free r f n before (x ∷ t) (first, a) =
      let missed : match_at r before (x ∷ t) ≡ none = match_at-none r before (x ∷ t) n (first, a) in
      rw (missed, replace_from, replace_from-Free r f n (some x) t a) refl
