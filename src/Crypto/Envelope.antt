-- ===== src/Crypto/Envelope.antt =====
-- backend/src/modules/crypto/envelope-crypto.service.ts: each body under a data key of its own, which
-- the key service wraps; unwrapped data keys are cached for a minute.
use messageries.Base.{
  Bool, List, Option, [], find, if◌then◌else◌, length, ltb, none, some, ℕ, ◌++◌, ◌+◌, ◌∷◌,
}
use messageries.Base.Text.{Text, text_eq}
use messageries.Crypto.{Encrypted}
use messageries.Crypto.LocalKms.{DataKey, LocalKmsProvider, decrypt_data_key, generate_data_key}
use messageries.Crypto.Node.{Bytes, NodeCrypto, split_double_colon}

-- `KmsProvider`; `none` where a call throws.
pub record KmsProvider : Type 0 where
  pub generate : ℕ → Option DataKey
  pub unwrap_key : Text → Bytes → Option Bytes

pub record CacheEntry : Type 0 where
  pub dek_id : Text
  pub dek : Bytes
  pub expires : ℕ

abbrev pub Cache : Type 0
Cache = List CacheEntry

abbrev pub has_dek_id : Text → CacheEntry → Bool
has_dek_id id e = text_eq e.dek_id id

-- `map.set`: the entry of this key is replaced in its place, or the entry is added at the end.
unfoldable pub cache_set : CacheEntry → Cache → Cache
cache_set e [] = e ∷ []
cache_set e (x ∷ c) = if has_dek_id e.dek_id x then e ∷ c else x ∷ cache_set e c

-- `${keyId}::${base64}`
unfoldable pub dek_id_of : NodeCrypto → DataKey → Text
dek_id_of node d = d.key_id ++ 58 ∷ 58 ∷ node.base64 d.ciphertext

module _ (node : NodeCrypto) (kms : KmsProvider) where
  -- `call` numbers the calls of `randomBytes`: two in the key service, one here.
  unfoldable pub encrypt : ℕ → Text → Option Encrypted
  encrypt call plain = elim (kms.generate call) [
    | none ↦ none
    | some d ↦
        let iv = node.random (call + 2) 12 in
        let sealed = node.seal d.plaintext iv (node.utf8 plain) in
        some (record { ciphertext = sealed.0; iv = iv; tag = sealed.1; dek_id = dek_id_of node d })
  ]

  -- The name and the wrapped key of an identifier; without a second piece `Buffer.from` throws.
  unfoldable pub unwrap_pieces : List Text → Option Bytes
  unwrap_pieces (name ∷ b64 ∷ _) = kms.unwrap_key name (node.from_base64 b64)
  unwrap_pieces (name ∷ []) = none
  unwrap_pieces [] = none

  -- What follows a miss of the cache.
  unfoldable pub unwrap_missed : ℕ → Text → Cache → Option Bytes × Cache
  unwrap_missed now id cache = elim (unwrap_pieces (split_double_colon id)) [
    | none ↦ (none, cache)
    | some dek ↦ (
      some dek,
      cache_set (record { dek_id = id; dek = dek; expires = now + 60000 })
          (if ltb 5000 (length cache) then [] else cache),
    )
  ]

  unfoldable pub unwrap : ℕ → Text → Cache → Option Bytes × Cache
  unwrap now id cache = elim (find (has_dek_id id) cache) [
    | none ↦ unwrap_missed now id cache
    | some e ↦ if ltb now e.expires then (some e.dek, cache) else unwrap_missed now id cache
  ]

  unfoldable pub open_body : Encrypted → Option Bytes → Option Text
  open_body e none = none
  open_body e (some dek) = elim (node.unseal dek e.iv e.tag e.ciphertext) [
    | none ↦ none
    | some plain ↦ some (node.from_utf8 plain)
  ]

  unfoldable pub decrypt : ℕ → Encrypted → Cache → Option Text × Cache
  decrypt now e cache = let (dek, cache') = unwrap now e.dek_id cache in (open_body e dek, cache')

  -- The service without its cache.
  unfoldable pub decrypt_uncached : Encrypted → Option Text
  decrypt_uncached e = open_body e (unwrap_pieces (split_double_colon e.dek_id))

-- The local key service as the provider.
abbrev pub local_provider : NodeCrypto → LocalKmsProvider → KmsProvider
local_provider node kms = record {
  generate = generate_data_key node kms;
  unwrap_key = decrypt_data_key node kms;
}
