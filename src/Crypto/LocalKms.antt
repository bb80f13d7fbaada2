-- ===== src/Crypto/LocalKms.antt =====
-- backend/src/modules/crypto/providers/local-kms.provider.ts: data keys wrapped under a key that the
-- environment gives.
use messageries.Base.{
  List, Option, [], drop, if◌then◌else◌, length, none, some, take, ℕ, ◌%◌, ◌++◌, ◌+◌, ◌==◌, ◌∷◌,
}
use messageries.Base.Text.{Text, codes, text_eq, trim}
use messageries.Crypto.Node.{Bytes, NodeCrypto, split}

-- `kms.interface.ts`: a data key, in clear and wrapped, with the name of the key that wraps it.
pub record DataKey : Type 0 where
  pub key_id : Text
  pub plaintext : Bytes
  pub ciphertext : Bytes

-- The map in the order of insertion, as a `Map` iterates.
pub record LocalKmsProvider : Type 0 where
  pub keys : List (Text × Bytes)
  pub active : Text

-- `map.get(name)`
unfoldable pub key_of : Text → List (Text × Bytes) → Option Bytes
key_of name [] = none
key_of name (k ∷ ks) = if text_eq k.0 name then some k.1 else key_of name ks

-- `map.set(name, key)`: a name that is there keeps its place.
unfoldable pub set_key : Text → Bytes → List (Text × Bytes) → List (Text × Bytes)
set_key name key [] = (name, key) ∷ []
set_key name key (k ∷ ks) = if text_eq k.0 name then (k.0, key) ∷ ks else k ∷ set_key name key ks

-- The last name of the map.
abbrev pub last_name : List (Text × Bytes) → Option Text
last_name [] = none
last_name (k ∷ []) = some k.0
last_name (k ∷ l ∷ ks) = last_name (l ∷ ks)

-- `KMS_LOCAL_ACTIVE ?? <the last name>`
abbrev pub active_name : Option Text → List (Text × Bytes) → Option Text
active_name (some a) ks = some a
active_name none ks = last_name ks

-- The end of the constructor: the active key is named or is the last one, and is in the map.
unfoldable pub choose_active : Option Text → List (Text × Bytes) → Option LocalKmsProvider
choose_active named ks = elim (active_name named ks) [
  | none ↦ none
  | some a ↦ elim (key_of a ks) [ none ↦ none | some _ ↦ some (record { keys = ks; active = a }) ]
]

module _ (node : NodeCrypto) where
  -- One `id:base64` pair; `none` where the code throws: no second piece, or not 32 bytes.
  unfoldable pub parse_pair : List Text → Option (Text × Bytes)
  parse_pair (id ∷ b64 ∷ _) =
      if length (node.from_base64 b64) == 32 then some (trim id, node.from_base64 b64) else none
  parse_pair (id ∷ []) = none
  parse_pair [] = none

  -- The pairs are parsed in turn and set in the map.
  unfoldable pub parse_keys : List Text → List (Text × Bytes) → Option (List (Text × Bytes))
  parse_keys [] ks = some ks
  parse_keys (pair ∷ pairs) ks = elim (parse_pair (split 58 pair)) [
    | none ↦ none
    | some (name, key) ↦ parse_keys pairs (set_key name key ks)
  ]

  -- The constructor: without keys, one random key for development.
  unfoldable pub local_kms : ℕ → Option Text → Option Text → Option LocalKmsProvider
  local_kms call none named =
      some (record {
        keys = (codes "dev-key-1", node.random call 32) ∷ [];
        active = codes "dev-key-1";
      })
  local_kms call (some []) named =
      some (record {
        keys = (codes "dev-key-1", node.random call 32) ∷ [];
        active = codes "dev-key-1";
      })
  local_kms call (some (c ∷ raw)) named = elim (parse_keys (split 44 (c ∷ raw)) []) [
    | none ↦ none
    | some ks ↦ choose_active named ks
  ]

  -- `[1B iv.len][iv][1B tag.len][tag][wrapped]`
  abbrev pub frame : Bytes → Bytes → Bytes → Bytes
  frame iv tag wrapped = (length iv % 256) ∷ (iv ++ ((length tag % 256) ∷ (tag ++ wrapped)))

  abbrev pub wrap : ℕ → Bytes → Bytes → Bytes
  wrap call kek key =
      let iv = node.random (call + 1) 12 in
      let sealed = node.seal kek iv key in frame iv sealed.1 sealed.0

  -- Two calls of `randomBytes`; `none` where the active key is missing.
  unfoldable pub generate_data_key : LocalKmsProvider → ℕ → Option DataKey
  generate_data_key kms call = elim (key_of kms.active kms.keys) [
    | none ↦ none
    | some kek ↦ some (record {
      key_id = kms.active;
      plaintext = node.random call 32;
      ciphertext = wrap call kek (node.random call 32);
    })
  ]

  -- The second part of the frame; `readUInt8` throws at the end of the buffer, `subarray` clamps.
  unfoldable pub open_tagged : Bytes → Bytes → Bytes → Option Bytes
  open_tagged kek iv [] = none
  open_tagged kek iv (n ∷ rest) = node.unseal kek iv (take n rest) (drop n rest)

  unfoldable pub open_frame : Bytes → Bytes → Option Bytes
  open_frame kek [] = none
  open_frame kek (n ∷ rest) = open_tagged kek (take n rest) (drop n rest)

  unfoldable pub decrypt_data_key : LocalKmsProvider → Text → Bytes → Option Bytes
  decrypt_data_key kms name ciphertext = elim (key_of name kms.keys) [
    | none ↦ none
    | some kek ↦ open_frame kek ciphertext
  ]
