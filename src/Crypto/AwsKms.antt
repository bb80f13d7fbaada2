-- ===== src/Crypto/AwsKms.antt =====
-- backend/src/modules/crypto/providers/aws-kms.provider.ts, and the choice of the provider in
-- crypto.module.ts. The client of AWS is a parameter.
use messageries.Base.{Bool, Option, [], if◌then◌else◌, none, some, ℕ}
use messageries.Base.Text.{Text, codes, text_eq}
use messageries.Crypto.Envelope.{KmsProvider, local_provider}
use messageries.Crypto.LocalKms.{DataKey, local_kms}
use messageries.Crypto.Node.{Bytes, NodeCrypto}
use messageries.Scanner.{is_empty}

-- `@aws-sdk/client-kms`: whether it can be loaded, and its two commands; `none` where one throws. The
-- number of the call stands for what the service chooses at random.
pub record AwsClient : Type 0 where
  pub is_installed : Bool
  pub generate_data_key_command : (call : ℕ) → (key_arn : Text) → Option (Bytes × Bytes)
  pub decrypt_command : (key_arn : Text) → Bytes → Option Bytes

pub record AwsKmsProvider : Type 0 where
  pub key_arn : Text

-- `AWS_KMS_KEY_ARN ?? ''`
abbrev pub arn_setting : Option Text → Text
arn_setting none = []
arn_setting (some arn) = arn

-- The constructor; `none` where it throws.
unfoldable pub aws_kms : Option Text → Option AwsKmsProvider
aws_kms arn =
    if is_empty (arn_setting arn) then none else some (record { key_arn = arn_setting arn })

-- `ensureClient` comes first in both methods: where the package cannot be loaded, they throw.
module _ (aws : AwsClient) where
  unfoldable pub aws_generate_data_key : AwsKmsProvider → ℕ → Option DataKey
  aws_generate_data_key kms call =
      if aws.is_installed
      then elim (aws.generate_data_key_command call kms.key_arn) [
        | none ↦ none
        | some (plaintext, ciphertext) ↦
            some (record { key_id = kms.key_arn; plaintext = plaintext; ciphertext = ciphertext })
      ]
      else none

  -- The key is the one that the caller names, not the one of the settings.
  unfoldable pub aws_decrypt_data_key : Text → Bytes → Option Bytes
  aws_decrypt_data_key key_id ciphertext =
      if aws.is_installed then aws.decrypt_command key_id ciphertext else none

  abbrev pub aws_provider : AwsKmsProvider → KmsProvider
  aws_provider kms = record {
    generate = aws_generate_data_key kms;
    unwrap_key = aws_decrypt_data_key;
  }

-- The settings of the encryption.
pub record KmsConfig : Type 0 where
  pub driver : Text
  pub local_keys : Option Text
  pub local_active : Option Text
  pub aws_key_arn : Option Text

-- `useFactory`: every driver but `aws` is the local one; `none` where a constructor throws. `start`
-- numbers the random key of a local service without keys.
unfoldable pub kms_provider : NodeCrypto → AwsClient → ℕ → KmsConfig → Option KmsProvider
kms_provider node aws start cfg =
    if text_eq cfg.driver (codes "aws")
    then elim (aws_kms cfg.aws_key_arn) [ none ↦ none | some kms ↦ some (aws_provider aws kms) ]
    else elim (local_kms node start cfg.local_keys cfg.local_active) [
      | none ↦ none
      | some kms ↦ some (local_provider node kms)
    ]
