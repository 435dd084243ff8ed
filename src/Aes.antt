-- ===== src/Aes.antt =====
-- apicrud/aes_encrypt.py: classes AESEncrypt and AESEncryptBin. The proofs are in the module below.
pub mod RoundTrip
use apicrud.Prelude.{
  ℕ, zero, suc, ◌+◌, ◌-◌, ◌*◌, ◌/◌, ◌%◌, Bool, true, false, Option, none, some, List, [], ◌∷◌, ◌++◌,
  ◌≡◌, length, take, drop, replicate, if◌then◌else◌, ◌==◌, number_eq, ltb,
}
use apicrud.Python.Result.{Exn, Result, ok, err, ◌>>=◌}

-- bytes, and a str by its code points
abbrev pub Bytes : Type 0
Bytes = List ℕ

-- AES in CBC mode under one private key, for initialization vectors of 16 bytes; it raises ValueError
-- on a text that does not fill its blocks. And base64, with its inverse.
pub record Cipher : Type 0 where
  pub seal : Bytes → Bytes → Bytes
  pub unseal : Bytes → Bytes → Bytes
  pub b64encode : Bytes → Bytes
  pub b64decode : Bytes → Bytes
  pub unseal-seal : (iv b : Bytes) → length b % 16 ≡ 0 → unseal iv (seal iv b) ≡ b
  pub length-seal : (iv b : Bytes) → length b % 16 ≡ 0 → length (seal iv b) ≡ length b
  pub b64decode-b64encode : (b : Bytes) → b64decode (b64encode b) ≡ b

-- str.encode(), in UTF-8
unfoldable pub encode_char : ℕ → Bytes
encode_char c =
    if ltb c 128
    then c ∷ []
    else if ltb c 2048
    then (192 + c / 64) ∷ (128 + c % 64) ∷ []
    else if ltb c 65536
    then (224 + c / 4096) ∷ (128 + c / 64 % 64) ∷ (128 + c % 64) ∷ []
    else (240 + c / 262144) ∷ (128 + c / 4096 % 64) ∷ (128 + c / 64 % 64) ∷ (128 + c % 64) ∷ []

unfoldable pub encode : List ℕ → Bytes
encode [] = []
encode (c ∷ s) = encode_char c ++ encode s

-- BLOCK_SIZE - len(s) % BLOCK_SIZE
unfoldable pub missing : List ℕ → ℕ
missing s = 16 - length s % 16

-- both classes' _pad: characters, or bytes, of that value
unfoldable pub pad : List ℕ → List ℕ
pad s = s ++ replicate (missing s) (missing s)

abbrev pub last : Bytes → Option ℕ
last [] = none
last (b ∷ []) = some b
last (b ∷ c ∷ s) = last (c ∷ s)

-- s[:-n]
abbrev pub without_last : Bytes → ℕ → Bytes
without_last s zero = []
without_last s (suc n) = take (length s - suc n) s

-- _unpad, with the exception where there is no last byte
unfoldable pub stripped : Exn → Option ℕ → Bytes → Result Bytes
stripped e none s = err e
stripped e (some n) s = ok (without_last s n)

unfoldable pub unpad : Exn → Bytes → Result Bytes
unpad e s = stripped e (last s) s

module _ (cipher : Cipher) where
  -- cipher.encrypt(…)
  unfoldable pub cbc_encrypt : Bytes → Bytes → Result Bytes
  cbc_encrypt iv b = if length b % 16 == 0 then ok (cipher.seal iv b) else err Exn.value_error

  -- AESEncrypt.encrypt, for the initialization vector that it draws
  unfoldable pub encrypt : Bytes → List ℕ → Result Bytes
  encrypt iv raw = do b ← cbc_encrypt iv (encode (pad raw)); ok (cipher.b64encode (iv ++ b))

  -- cipher.decrypt(enc[16:]), under the first 16 bytes
  unfoldable pub cbc_decrypt : Exn → Bytes → Result Bytes
  cbc_decrypt e enc =
      if length (drop 16 enc) % 16 == 0
      then unpad e (cipher.unseal (take 16 enc) (drop 16 enc))
      else err Exn.value_error

  -- AESEncrypt.decrypt: the bytes, not the str
  unfoldable pub decrypt : Bytes → Result Bytes
  decrypt enc = cbc_decrypt Exn.type_error (cipher.b64decode enc)

  -- AESEncryptBin.encrypt and AESEncryptBin.decrypt
  unfoldable pub encrypt_bin : Bytes → Bytes → Result Bytes
  encrypt_bin iv raw = do b ← cbc_encrypt iv (pad raw); ok (iv ++ b)

  unfoldable pub decrypt_bin : Bytes → Result Bytes
  decrypt_bin enc = cbc_decrypt Exn.index_error enc
