-- ===== src/Crypto/Service.antt =====
-- `encrypt` and `decrypt` of envelope-crypto.service.ts together, as the cipher of the message bodies.
use messageries.Base.{
  Option, [], ap, arith, length, none, refl, some, true, ℕ, ◌++◌, ◌+◌, ◌∙◌, ◌∷◌, ◌≡◌, ◌≢◌, ◌≤◌,
}
use messageries.Base.Text.{Text}
use messageries.Crypto.{BodyCipher, Encrypted}
use messageries.Crypto.Caching.{IsFaithful, decrypt-decrypt_uncached}
use messageries.Crypto.Envelope.{
  Cache, KmsProvider, decrypt, decrypt_uncached, dek_id_of, encrypt, local_provider, open_body,
  unwrap_pieces,
}
use messageries.Crypto.LocalKms.{DataKey, LocalKmsProvider, generate_data_key, local_kms, wrap}
use messageries.Crypto.Node.{
  AreBytes, HasNoColon-is_name, NodeCrypto, is_name, split-join, split_double_colon,
}
use messageries.Crypto.Unwrapping.{IsReady, local_kms-IsReady, unwrap_generated, wrap-AreBytes}

-- What the services rely on: a key service whose own data keys it unwraps, under names that the
-- separator leaves whole.
pub record IsKeyService (kms : KmsProvider) : Type 0 where
  pub data_key : (call : ℕ) → (d : DataKey) × (kms.generate call ≡ some d)
  pub length_plaintext : (call : ℕ) → length (data_key call).0.plaintext ≡ 32
  pub ciphertext_bytes : (call : ℕ) → AreBytes (data_key call).0.ciphertext
  pub name_clean : (call : ℕ) → is_name (data_key call).0.key_id ≡ true
  pub unwraps :
      (call : ℕ)
      → kms.unwrap_key (data_key call).0.key_id (data_key call).0.ciphertext
        ≡ some (data_key call).0.plaintext

joined-ne-nil : (name value : Text) → (name ++ 58 ∷ 58 ∷ value) ≢ []
joined-ne-nil [] value = ground arith
joined-ne-nil (c ∷ name) value = ground arith

module _ (node : NodeCrypto) (kms : KmsProvider) (service : IsKeyService kms) where
  -- What `encrypt` returns.
  abbrev pub sealed_body : ℕ → Text → Encrypted
  sealed_body call plain =
      let d = (service.data_key call).0 in
      let iv = node.random (call + 2) 12 in
      let sealed = node.seal d.plaintext iv (node.utf8 plain) in
      record { ciphertext = sealed.0; iv = iv; tag = sealed.1; dek_id = dek_id_of node d }

  encrypt-sealed_body :
      (call : ℕ) (plain : Text) → encrypt node kms call plain ≡ some (sealed_body call plain)
  unfolding encrypt
  encrypt-sealed_body call plain =
      let (d, generated) = service.data_key call in rw (generated, encrypt) refl

  pieces-sealed_body :
      (call : ℕ) (plain : Text)
      → unwrap_pieces node kms (split_double_colon (sealed_body call plain).dek_id)
        ≡ some (service.data_key call).0.plaintext
  unfolding unwrap_pieces dek_id_of
  pieces-sealed_body call plain =
      let d = (service.data_key call).0 in
      ap (unwrap_pieces node kms) (
        split-join d.key_id (node.base64 d.ciphertext) (service.name_clean call)
          (node.base64-HasNoColon d.ciphertext))
      ∙ ap (kms.unwrap_key d.key_id)
          (node.from_base64-base64 d.ciphertext (service.ciphertext_bytes call))
      ∙ service.unwraps call

  pub uncached-sealed_body :
      (call : ℕ) (plain : Text)
      → node.is_well_formed plain ≡ true
      → decrypt_uncached node kms (sealed_body call plain) ≡ some plain
  unfolding decrypt_uncached open_body
  uncached-sealed_body call plain valid =
      let d = (service.data_key call).0 in
      ap (open_body node kms (sealed_body call plain)) (pieces-sealed_body call plain)
      ∙ ap (λ o. elim o [ none ↦ none | some p ↦ some (node.from_utf8 p) ])
          (node.unseal-seal d.plaintext (node.random (call + 2) 12) (node.utf8 plain)
            (service.length_plaintext call) (node.utf8-AreBytes plain valid))
      ∙ ap some (node.from_utf8-utf8 plain valid)

  -- A text that UTF-8 can write is encrypted, and any later decryption over a faithful cache gives
  -- it back.
  pub decrypt-encrypt :
      (call now : ℕ) (plain : Text) (cache : Cache)
      → node.is_well_formed plain ≡ true
      → IsFaithful node kms cache
      → length cache ≤ 5001
      → (e : Encrypted) × (encrypt node kms call plain ≡ some e)
        × ((decrypt node kms now e cache).0 ≡ some plain)
  decrypt-encrypt call now plain cache valid faithful bound =
      let e = sealed_body call plain in
      let (same, kept, small) = decrypt-decrypt_uncached node kms now e cache faithful bound in
      (e, encrypt-sealed_body call plain, same ∙ uncached-sealed_body call plain valid)

  pub identifier-ne-nil : (call : ℕ) (plain : Text) → (sealed_body call plain).dek_id ≢ []
  unfolding dek_id_of
  identifier-ne-nil call plain =
      joined-ne-nil (service.data_key call).0.key_id
        (node.base64 (service.data_key call).0.ciphertext)

  -- The service implements the cipher that the message service takes.
  abbrev pub envelope_cipher : BodyCipher
  envelope_cipher = record {
    encodable = node.is_well_formed;
    encrypt = sealed_body;
    decrypt = decrypt_uncached node kms;
    decrypt-encrypt = uncached-sealed_body;
    dek_id_ne_nil = identifier-ne-nil;
  }

-- The local key service, after a constructor that did not throw, is one.
pub local_provider-IsKeyService :
    (node : NodeCrypto) (kms : LocalKmsProvider)
    → IsReady kms
    → IsKeyService (local_provider node kms)
unfolding generate_data_key
local_provider-IsKeyService node kms ready = record {
  data_key = λ call. (
    record {
      key_id = kms.active;
      plaintext = node.random call 32;
      ciphertext = wrap node call ready.kek (node.random call 32);
    },
    generated call,
  );
  length_plaintext = λ call. node.length-random call 32;
  ciphertext_bytes = λ call.
      wrap-AreBytes node call ready.kek (node.random call 32) (node.random-AreBytes call 32);
  name_clean = λ call. HasNoColon-is_name kms.active ready.name_clean;
  unwraps = λ call. unwrap_generated node kms kms call _ ready refl (generated call);
}
  where
    generated :
        (call : ℕ)
        → generate_data_key node kms call
          ≡ some (record {
            key_id = kms.active;
            plaintext = node.random call 32;
            ciphertext = wrap node call ready.kek (node.random call 32);
          })
    generated call = rw (ready.located, generate_data_key) refl

-- Whatever keys of the environment the local key service accepts, a text that UTF-8 can write is
-- encrypted, and any later decryption over a faithful cache of at most 5001 entries gives it back.
pub local_roundtrip :
    (node : NodeCrypto) (start : ℕ) (raw named : Option Text) (kms : LocalKmsProvider)
    (call now : ℕ) (plain : Text) (cache : Cache)
    → local_kms node start raw named ≡ some kms
    → node.is_well_formed plain ≡ true
    → IsFaithful node (local_provider node kms) cache
    → length cache ≤ 5001
    → (e : Encrypted) × (encrypt node (local_provider node kms) call plain ≡ some e)
      × ((decrypt node (local_provider node kms) now e cache).0 ≡ some plain)
local_roundtrip node start raw named kms call now plain cache built valid faithful bound =
    let ready = local_kms-IsReady node start raw named kms built in
    decrypt-encrypt node (local_provider node kms) (local_provider-IsKeyService node kms ready) call
      now plain cache valid faithful bound
