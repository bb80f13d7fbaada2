-- ===== src/Crypto/Node.antt =====
-- What backend/src/modules/crypto calls of Node.js: the cipher aes-256-gcm, random bytes, base64 and
-- UTF-8, as parameters with the laws that are relied on; and `split` of a string.
use messageries.Base.{
  All, Bool, List, Option, [], ap, arith, false, if◌then◌else◌, length, not, refl, some, true, ℕ,
  ◌&&◌, ◌++◌, ◌<◌, ◌==◌, ◌∷◌, ◌≡◌,
}
use messageries.Base.Text.{Text}

abbrev pub Bytes : Type 0
Bytes = List ℕ

abbrev pub AreBytes : Bytes → Type 0
AreBytes bs = All (λ b. b < 256) bs

abbrev pub HasNoColon : Text → Type 0
HasNoColon t = All (λ c. (c == 58) ≡ false) t

-- `unseal` is `none` where the tag does not authenticate. `random call n` is the result of the call
-- `randomBytes(n)`.
pub record NodeCrypto : Type 0 where
  pub seal : (key iv plain : Bytes) → Bytes × Bytes
  pub unseal : (key iv tag cipher : Bytes) → Option Bytes
  pub random : ℕ → ℕ → Bytes
  pub base64 : Bytes → Text
  pub from_base64 : Text → Bytes
  pub utf8 : Text → Bytes
  pub from_utf8 : Bytes → Text
  pub is_well_formed : Text → Bool
  pub unseal-seal :
      (key iv plain : Bytes)
      → length key ≡ 32
      → AreBytes plain
      → unseal key iv (seal key iv plain).1 (seal key iv plain).0 ≡ some plain
  pub seal-AreBytes :
      (key iv plain : Bytes)
      → AreBytes plain
      → AreBytes (seal key iv plain).0 × AreBytes (seal key iv plain).1
  pub length-tag : (key iv plain : Bytes) → length (seal key iv plain).1 ≡ 16
  pub length-random : (call n : ℕ) → length (random call n) ≡ n
  pub random-AreBytes : (call n : ℕ) → AreBytes (random call n)
  pub from_base64-base64 : (bs : Bytes) → AreBytes bs → from_base64 (base64 bs) ≡ bs
  pub base64-HasNoColon : (bs : Bytes) → HasNoColon (base64 bs)
  pub utf8-AreBytes : (t : Text) → is_well_formed t ≡ true → AreBytes (utf8 t)
  pub from_utf8-utf8 : (t : Text) → is_well_formed t ≡ true → from_utf8 (utf8 t) ≡ t

-- A character before the first piece.
abbrev pub onto_first : ℕ → List Text → List Text
onto_first c [] = (c ∷ []) ∷ []
onto_first c (t ∷ ts) = (c ∷ t) ∷ ts

-- `s.split(sep)` for a separator of one character.
unfoldable pub split : ℕ → Text → List Text
split sep [] = [] ∷ []
split sep (c ∷ s) = let rest = split sep s in if c == sep then [] ∷ rest else onto_first c rest

-- `s.split('::')`; the flag says that the character is the second colon of a separator.
split_pairs : Bool → Text → List Text
split_pairs skip [] = [] ∷ []
split_pairs true (c ∷ s) = split_pairs false s
split_pairs false (c ∷ []) = (c ∷ []) ∷ []
split_pairs false (c ∷ d ∷ s) =
    let after = split_pairs true (d ∷ s) in
    let rest = split_pairs false (d ∷ s) in
    if c == 58 && d == 58 then [] ∷ after else onto_first c rest

unfoldable pub split_double_colon : Text → List Text
unfolding split_pairs
split_double_colon s = split_pairs false s

split_pairs-HasNoColon : (t : Text) → HasNoColon t → split_pairs false t ≡ t ∷ []
unfolding split_pairs
split_pairs-HasNoColon [] h = refl
split_pairs-HasNoColon (c ∷ []) h = refl
split_pairs-HasNoColon (c ∷ d ∷ s) h = ground (arith, split_pairs-HasNoColon (d ∷ s) h.1)

-- No two colons in a row and none at the end.
abbrev pub is_name : Text → Bool
is_name [] = true
is_name (c ∷ []) = not (c == 58)
is_name (c ∷ d ∷ t) = not (c == 58 && d == 58) && is_name (d ∷ t)

pub HasNoColon-is_name : (t : Text) → HasNoColon t → is_name t ≡ true
HasNoColon-is_name [] h = refl
HasNoColon-is_name (c ∷ []) h = ground (arith, h.0)
HasNoColon-is_name (c ∷ d ∷ t) h = ground (arith, h.0, HasNoColon-is_name (d ∷ t) h.1)

-- A name and a value without a colon, joined by two colons, are taken apart again.
pub split-join :
    (name value : Text)
    → is_name name ≡ true
    → HasNoColon value
    → split_double_colon (name ++ 58 ∷ 58 ∷ value) ≡ name ∷ value ∷ []
unfolding split_double_colon split_pairs
split-join [] value hn hv = ap (λ x. [] ∷ x) (split_pairs-HasNoColon value hv)
split-join (c ∷ []) value hn hv =
    ground (arith, split-join [] value refl hv, split_pairs-HasNoColon value hv)
split-join (c ∷ d ∷ name) value hn hv =
    ground (arith, split-join (d ∷ name) value (ground arith) hv)
