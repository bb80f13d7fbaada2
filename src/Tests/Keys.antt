-- ===== src/Tests/Keys.antt =====
-- The theorems on the encryption of bodies, with a cipher that writes its text as it is.
use messageries.Base.{
  Bool, [], arith, length, ltb, map, none, refl, some, suc, true, zero, ℕ, ◌&&◌, ◌+◌, ◌-◌, ◌∷◌, ◌≡◌,
  ◌≤◌,
}
use messageries.Base.Text.{Text, codes}
use messageries.Crypto.{Encrypted}
use messageries.Crypto.AwsKms.{AwsClient, KmsConfig, aws_kms, aws_provider, kms_provider}
use messageries.Crypto.Caching.{IsFaithful, decrypt-decrypt_uncached}
use messageries.Crypto.Envelope.{decrypt, decrypt_uncached, encrypt, local_provider}
use messageries.Crypto.LocalKms.{LocalKmsProvider, local_kms}
use messageries.Crypto.Node.{AreBytes, Bytes, HasNoColon, NodeCrypto}
use messageries.Crypto.Providers.{IsAwsKms, kms_provider-IsKeyService}
use messageries.Crypto.Service.{IsKeyService, local_roundtrip}

abbrev zeros : ℕ → Bytes
zeros zero = []
zeros (suc n) = 0 ∷ zeros n

length-zeros : (n : ℕ) → length (zeros n) ≡ n
length-zeros zero = refl
length-zeros (suc n) = omega (arith, length-zeros n)

zeros-AreBytes : (n : ℕ) → AreBytes (zeros n)
zeros-AreBytes zero = tt
zeros-AreBytes (suc n) = (omega arith, zeros-AreBytes n)

shifted-back : (bs : Bytes) → map (λ c. c - 59) (map (λ b. b + 59) bs) ≡ bs
shifted-back [] = refl
shifted-back (b ∷ bs) = ground (arith, shifted-back bs)

shifted-HasNoColon : (bs : Bytes) → HasNoColon (map (λ b. b + 59) bs)
shifted-HasNoColon [] = tt
shifted-HasNoColon (b ∷ bs) = (ground arith, shifted-HasNoColon bs)

abbrev all_bytes : Text → Bool
all_bytes [] = true
all_bytes (c ∷ t) = ltb c 256 && all_bytes t

all_bytes-AreBytes : (t : Text) → all_bytes t ≡ true → AreBytes t
all_bytes-AreBytes [] h = tt
all_bytes-AreBytes (c ∷ t) h = ground (arith, all_bytes-AreBytes t)

abbrev node : NodeCrypto
node = record {
  seal = λ key iv plain. (plain, zeros 16);
  unseal = λ key iv tag cipher. some cipher;
  random = λ call n. zeros n;
  base64 = λ bs. map (λ b. b + 59) bs;
  from_base64 = λ t. map (λ c. c - 59) t;
  utf8 = λ t. t;
  from_utf8 = λ bs. bs;
  is_well_formed = all_bytes;
  unseal-seal = λ key iv plain length_key bytes. refl;
  seal-AreBytes = λ key iv plain bytes. (bytes, zeros-AreBytes 16);
  length-tag = λ key iv plain. length-zeros 16;
  length-random = λ call n. length-zeros n;
  random-AreBytes = λ call n. zeros-AreBytes n;
  from_base64-base64 = λ bs bytes. shifted-back bs;
  base64-HasNoColon = shifted-HasNoColon;
  utf8-AreBytes = all_bytes-AreBytes;
  from_utf8-utf8 = λ t valid. refl;
}

abbrev dev : LocalKmsProvider
dev = record { keys = (codes "dev-key-1", zeros 32) ∷ []; active = codes "dev-key-1" }

abbrev body : Encrypted
body = record { ciphertext = 104 ∷ 105 ∷ []; iv = []; tag = []; dek_id = codes "k2" }

decrypt-decrypt_uncached_example :
    let (text, cache') = decrypt node (local_provider node dev) 1000 body [] in
    (text ≡ decrypt_uncached node (local_provider node dev) body)
    × IsFaithful node (local_provider node dev) cache'
    × (length cache' ≤ 5001)
decrypt-decrypt_uncached_example =
    decrypt-decrypt_uncached node (local_provider node dev) 1000 body [] tt (omega arith)

local_roundtrip_example :
    (e : Encrypted) × (encrypt node (local_provider node dev) 7 (104 ∷ 105 ∷ []) ≡ some e)
    × ((decrypt node (local_provider node dev) 1000 e []).0 ≡ some (104 ∷ 105 ∷ []))
unfolding local_kms
local_roundtrip_example =
    local_roundtrip node 0 none none dev 7 1000 (104 ∷ 105 ∷ []) [] refl refl tt (omega arith)

-- A service of AWS that gives zeros, wrapped as they are.
abbrev aws : AwsClient
aws = record {
  is_installed = true;
  generate_data_key_command = λ call arn. some (zeros 32, zeros 32);
  decrypt_command = λ arn blob. some blob;
}

abbrev arn : Text
arn = codes "arn:aws:kms:eu-west-3:42:key/7"

aws-IsAwsKms : IsAwsKms aws arn
aws-IsAwsKms = record {
  installed = refl;
  generated = λ call. (zeros 32, zeros 32);
  answers = λ call. refl;
  length_key = λ call. length-zeros 32;
  blob_bytes = λ call. zeros-AreBytes 32;
  taken_back = λ call. refl;
}

abbrev production : KmsConfig
production = record {
  driver = codes "aws";
  local_keys = none;
  local_active = none;
  aws_key_arn = some arn;
}

kms_provider-IsKeyService_example : IsKeyService (aws_provider aws (record { key_arn = arn }))
unfolding kms_provider aws_kms
kms_provider-IsKeyService_example =
    kms_provider-IsKeyService node aws 0 production (aws_provider aws (record { key_arn = arn }))
      (λ remote. (aws-IsAwsKms, refl)) refl
