-- ===== src/Crypto.antt =====
-- backend/src/modules/crypto: what the other services use of the encryption of message bodies, as
-- an interface with its laws.
pub mod Node
pub mod LocalKms
pub mod Envelope
pub mod Unwrapping
pub mod Caching
pub mod Service
pub mod AwsKms
pub mod Providers
use messageries.Base.{Bool, List, Option, [], some, true, ℕ, ◌≡◌, ◌≢◌}
use messageries.Base.Text.{Text}

pub record Encrypted : Type 0 where
  pub ciphertext : List ℕ
  pub iv : List ℕ
  pub tag : List ℕ
  pub dek_id : Text

-- `encrypt` takes the number of the call, which stands for its random choices; `decrypt` is `none`
-- where the call throws. `encodable` texts survive UTF-8; the identifier of a key is never empty.
pub record BodyCipher : Type 0 where
  pub encodable : Text → Bool
  pub encrypt : ℕ → Text → Encrypted
  pub decrypt : Encrypted → Option Text
  pub decrypt-encrypt : (n : ℕ) (t : Text) → encodable t ≡ true → decrypt (encrypt n t) ≡ some t
  pub dek_id_ne_nil : (n : ℕ) (t : Text) → (encrypt n t).dek_id ≢ []
