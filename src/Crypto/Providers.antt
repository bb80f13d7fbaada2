-- ===== src/Crypto/Providers.antt =====
-- The providers that backend/src/modules/crypto/crypto.module.ts chooses between keep the promise of
-- kms.interface.ts.
use messageries.Base.{
  Bool-cases, Option, Option-cases, ap, arith, inl, inr, length, some, subst, sym, true, ℕ, ◌∙◌,
  ◌≡◌,
}
use messageries.Base.Text.{Text, codes, text_eq}
use messageries.Crypto.AwsKms.{
  AwsClient, AwsKmsProvider, KmsConfig, arn_setting, aws_decrypt_data_key, aws_generate_data_key,
  aws_kms, aws_provider, kms_provider,
}
use messageries.Crypto.Envelope.{KmsProvider, local_provider}
use messageries.Crypto.LocalKms.{DataKey, local_kms}
use messageries.Crypto.Node.{AreBytes, Bytes, NodeCrypto, is_name}
use messageries.Crypto.Service.{IsKeyService, local_provider-IsKeyService}
use messageries.Crypto.Unwrapping.{local_kms-IsReady}

-- What AWS promises of one key of a service that can be reached: a data key for AES_256 has 32 bytes,
-- and what wraps it is taken back under the same key.
pub record IsAwsKms (aws : AwsClient) (arn : Text) : Type 0 where
  pub installed : aws.is_installed ≡ true
  pub generated : (call : ℕ) → Bytes × Bytes
  pub answers : (call : ℕ) → aws.generate_data_key_command call arn ≡ some (generated call)
  pub length_key : (call : ℕ) → length (generated call).0 ≡ 32
  pub blob_bytes : (call : ℕ) → AreBytes (generated call).1
  pub taken_back : (call : ℕ) → aws.decrypt_command arn (generated call).1 ≡ some (generated call).0

pub aws_provider-IsKeyService :
    (aws : AwsClient) (kms : AwsKmsProvider)
    → IsAwsKms aws kms.key_arn
    → is_name kms.key_arn ≡ true
    → IsKeyService (aws_provider aws kms)
unfolding aws_generate_data_key aws_decrypt_data_key
aws_provider-IsKeyService aws kms law named = record {
  data_key = λ call. (key call, there call);
  length_plaintext = λ call. law.length_key call;
  ciphertext_bytes = λ call. law.blob_bytes call;
  name_clean = λ call. named;
  unwraps = λ call. ground (arith, law.installed, law.taken_back call);
}
  where
    key : ℕ → DataKey
    key call = record {
      key_id = kms.key_arn;
      plaintext = (law.generated call).0;
      ciphertext = (law.generated call).1;
    }

    there : (call : ℕ) → aws_generate_data_key aws kms call ≡ some (key call)
    there call = ground (arith, law.installed, law.answers call)

aws_kms-key_arn :
    (arn : Option Text) (kms : AwsKmsProvider)
    → aws_kms arn ≡ some kms
    → kms.key_arn ≡ arn_setting arn
unfolding aws_kms
aws_kms-key_arn arn kms h = ground arith

module _ (node : NodeCrypto) (aws : AwsClient) (start : ℕ) (cfg : KmsConfig) where
  -- Whatever the settings, a provider that the module builds is a key service: the local one
  -- whatever its keys and without a word on AWS, the one of AWS where its service answers for the
  -- key of the settings and the name of that key has no two colons in a row and none at the end.
  pub kms_provider-IsKeyService :
      (kms : KmsProvider)
      → (text_eq cfg.driver (codes "aws") ≡ true
          → IsAwsKms aws (arn_setting cfg.aws_key_arn)
            × (is_name (arn_setting cfg.aws_key_arn) ≡ true))
      → kms_provider node aws start cfg ≡ some kms
      → IsKeyService kms
  unfolding kms_provider
  kms_provider-IsKeyService kms service built =
      elim (Bool-cases (text_eq cfg.driver (codes "aws"))) [
        | inl remote ↦ elim (Option-cases (aws_kms cfg.aws_key_arn)) [
          | inl threw ↦ absurd (ground arith)
          | inr (p, made) ↦
              let same : aws_provider aws p ≡ kms = ground arith in
              let arn = aws_kms-key_arn cfg.aws_key_arn p made in
              let (law, named) = service remote in
              subst IsKeyService same (
                aws_provider-IsKeyService aws p (subst (IsAwsKms aws) (sym arn) law)
                  (ap is_name arn ∙ named))
        ]
        | inr near ↦ elim (Option-cases (local_kms node start cfg.local_keys cfg.local_active)) [
          | inl threw ↦ absurd (ground arith)
          | inr (p, made) ↦
              let same : local_provider node p ≡ kms = ground arith in
              subst IsKeyService same (
                local_provider-IsKeyService node p
                  (local_kms-IsReady node start cfg.local_keys cfg.local_active p made))
        ]
      ]
