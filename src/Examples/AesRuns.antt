-- ===== src/Examples/AesRuns.antt =====
-- Encryption by a cipher that hides nothing.
use apicrud.Prelude.{[], ◌∷◌, ◌≡◌, refl, replicate}
use apicrud.Python.Result.{ok, ◌>>=◌}
use apicrud.Aes.{Bytes, Cipher, encode_char, encode, encrypt, decrypt}
use apicrud.Aes.RoundTrip.{decrypt-encrypt}

abbrev bare : Cipher
bare = record {
  seal = λ iv b. b;
  unseal = λ iv b. b;
  b64encode = λ b. b;
  b64decode = λ b. b;
  unseal-seal = λ iv b blocks. refl;
  length-seal = λ iv b blocks. refl;
  b64decode-b64encode = λ b. refl;
}

abbrev iv : Bytes
iv = replicate 16 7

decrypt-encrypt_example : (encrypt bare iv (104 ∷ 105 ∷ []) >>= decrypt bare) ≡ ok (104 ∷ 105 ∷ [])
unfolding encode encode_char
decrypt-encrypt_example = decrypt-encrypt bare iv refl (104 ∷ 105 ∷ []) refl
