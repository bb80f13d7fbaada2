-- ===== src/Http/Uuid.antt =====
-- backend/src/common/pipes/uuid.pipe.ts: which path parameters are identifiers, in their canonical
-- spelling.
use messageries.Base.{
  All, Bool, Bool-cases, List, [], ap, arith, false, if◌then◌else◌, inl, inr, leb, map, refl, subst,
  suc, sym, true, zero, ℕ, ◌&&◌, ◌++◌, ◌+◌, ◌==◌, ◌||◌, ◌∙◌, ◌∷◌, ◌≡◌,
}
use messageries.Base.Text.{Text}
use messageries.Db.{Result, bad_request, err, ok}
use messageries.Scanner.Regex.{is_digit}

abbrev pub is_hex : ℕ → Bool
is_hex c = is_digit c || leb 65 c && leb c 70 || leb 97 c && leb c 102

abbrev pub times : ℕ → (ℕ → Bool) → List (ℕ → Bool)
times zero p = []
times (suc n) p = p ∷ times n p

abbrev pub dash : List (ℕ → Bool)
dash = (λ c. c == 45) ∷ []

-- The classes of `UUID_REGEX`, one for each unit; letters match in both cases.
abbrev pub uuid_shape : List (ℕ → Bool)
uuid_shape =
    times 8 is_hex
    ++ dash
    ++ times 4 is_hex
    ++ dash
    ++ ((λ c. leb 49 c && leb c 53) ∷ [])
    ++ times 3 is_hex
    ++ dash
    ++ ((λ c. c == 56 || c == 57 || c == 97 || c == 98 || c == 65 || c == 66) ∷ [])
    ++ times 3 is_hex
    ++ dash
    ++ times 12 is_hex

unfoldable pub fits : List (ℕ → Bool) → Text → Bool
fits [] [] = true
fits [] (c ∷ t) = false
fits (p ∷ ps) [] = false
fits (p ∷ ps) (c ∷ t) = p c && fits ps t

-- `toLowerCase` of a unit below 128, as those of an identifier are.
abbrev pub lower_unit : ℕ → ℕ
lower_unit c = if leb 65 c && leb c 90 then c + 32 else c

abbrev pub lower_text : Text → Text
lower_text t = map lower_unit t

unfoldable pub transform : Text → Result Text
transform value =
    if fits uuid_shape value then ok (lower_text value) else err (bad_request "UUID invalide")

-- The classes of the shape do not look at the case.
abbrev IsCaseBlind : (ℕ → Bool) → Type 0
IsCaseBlind p = (c : ℕ) → p (lower_unit c) ≡ p c

fits-lower :
    (ps : List (ℕ → Bool)) → All IsCaseBlind ps → (t : Text) → fits ps (lower_text t) ≡ fits ps t
unfolding fits
fits-lower [] a [] = refl
fits-lower [] a (c ∷ t) = refl
fits-lower (p ∷ ps) a [] = refl
fits-lower (p ∷ ps) (blind, a) (c ∷ t) = rw (blind c, fits-lower ps a t) refl

times-All : (n : ℕ) (p : ℕ → Bool) → IsCaseBlind p → All IsCaseBlind (times n p)
times-All zero p h = tt
times-All (suc n) p h = (h, times-All n p h)

hex-IsCaseBlind : IsCaseBlind is_hex
hex-IsCaseBlind c = ground arith

uuid_shape-All : All IsCaseBlind uuid_shape
uuid_shape-All =
    let h = hex-IsCaseBlind in
    let d : IsCaseBlind (λ c. c == 45) = λ c. ground arith in
    let v : IsCaseBlind (λ c. leb 49 c && leb c 53) = λ c. ground arith in
    let w : IsCaseBlind (λ c. c == 56 || c == 57 || c == 97 || c == 98 || c == 65 || c == 66) =
      λ c. ground arith in
    (
      h,
      (
        h,
        (
          h,
          (
            h,
            (
              h,
              (
                h,
                (
                  h,
                  (
                    h,
                    (
                      d,
                      (
                        h,
                        (
                          h,
                          (
                            h,
                            (
                              h,
                              (
                                d,
                                (
                                  v,
                                  (
                                    h,
                                    (
                                      h,
                                      (
                                        h,
                                        (
                                          d,
                                          (
                                            w,
                                            (
                                              h,
                                              (
                                                h,
                                                (
                                                  h,
                                                  (
                                                    d,
                                                    (
                                                      h,
                                                      (
                                                        h,
                                                        (
                                                          h,
                                                          (
                                                            h,
                                                            (
                                                            h,
                                                            (h, (h, (h, (h, (h, (h, (h, tt))))))),
                                                            ),
                                                          ),
                                                        ),
                                                      ),
                                                    ),
                                                  ),
                                                ),
                                              ),
                                            ),
                                          ),
                                        ),
                                      ),
                                    ),
                                  ),
                                ),
                              ),
                            ),
                          ),
                        ),
                      ),
                    ),
                  ),
                ),
              ),
            ),
          ),
        ),
      ),
    )

lower-lower : (t : Text) → lower_text (lower_text t) ≡ lower_text t
lower-lower [] = refl
lower-lower (c ∷ t) = ground (arith, lower-lower t)

-- An identifier that the pipe lets through is returned in one spelling: the pipe leaves that spelling
-- alone, and gives it for every text that differs from the first in case only.
pub transform_canonical :
    (value other id : Text)
    → transform value ≡ ok id
    → lower_text other ≡ lower_text value
    → (transform id ≡ ok id) × (transform other ≡ ok id)
unfolding transform
transform_canonical value other id h same = elim (Bool-cases (fits uuid_shape value)) [
  | inr f ↦ absurd (ground arith)
  | inl t ↦
      let written : lower_text value ≡ id = ground arith in
      let low : fits uuid_shape (lower_text value) ≡ true =
        fits-lower uuid_shape uuid_shape-All value ∙ t in
      let there : fits uuid_shape other ≡ true =
        sym (fits-lower uuid_shape uuid_shape-All other)
        ∙ subst (λ x. fits uuid_shape x ≡ true) (sym same) low in
      subst (λ x. (transform x ≡ ok x) × (transform other ≡ ok x)) written
        (rw low (ap ok (lower-lower value)), rw there (ap ok same))
]
