-- ===== src/Aes/RoundTrip.antt =====
-- Padding, and decryption after encryption.
use apicrud.Prelude.{
  ℕ, zero, suc, ◌+◌, ◌-◌, ◌%◌, ◌<◌, ◌≤◌, true, false, some, List, [], ◌∷◌, ◌++◌, ◌≡◌, ◌≢◌, refl,
  sym, ◌∙◌, ap, arith, length, take, drop, replicate, length-append, append_assoc, drop-append,
  length-replicate, take-append, ◌==◌, number_eq, ltb,
}
use apicrud.Python.Result.{Exn, ok, err, ◌>>=◌}
use apicrud.Aes.{
  Bytes, Cipher, encode_char, encode, missing, pad, last, stripped, unpad, cbc_encrypt, encrypt,
  cbc_decrypt, decrypt, encrypt_bin, decrypt_bin,
}

encode-append : (s t : List ℕ) → encode (s ++ t) ≡ encode s ++ encode t
unfolding encode
encode-append [] t = refl
encode-append (c ∷ s) t =
    ap (λ (b : Bytes). encode_char c ++ b) (encode-append s t)
    ∙ sym (append_assoc (encode_char c) (encode s) (encode t))

encode-replicate : (n c : ℕ) → c < 128 → encode (replicate n c) ≡ replicate n c
unfolding encode encode_char
encode-replicate zero c h = refl
encode-replicate (suc n) c h =
    let low : ltb c 128 ≡ true = ground arith in
    rw low (ap (λ (b : Bytes). c ∷ b) (encode-replicate n c h))

missing_bounds : (s : List ℕ) → (0 < missing s) × (missing s ≤ 16)
unfolding missing
missing_bounds s = (omega arith, omega arith)

length-pad : (s : List ℕ) → length (pad s) % 16 ≡ 0
unfolding pad missing
length-pad s =
    ap (λ (n : ℕ). n % 16)
      (length-append s (replicate (16 - length s % 16) (16 - length s % 16))
        ∙ ap (λ (n : ℕ). length s + n) (length-replicate (16 - length s % 16) (16 - length s % 16)))
    ∙ omega arith

last-replicate : (n a : ℕ) → last (replicate (suc n) a) ≡ some a
last-replicate zero a = refl
last-replicate (suc n) a = last-replicate n a

last-append : (xs : List ℕ) (y : ℕ) (ys : List ℕ) → last (xs ++ y ∷ ys) ≡ last (y ∷ ys)
last-append [] y ys = refl
last-append (x ∷ []) y ys = refl
last-append (x ∷ z ∷ xs) y ys = last-append (z ∷ xs) y ys

unpad-filled : (e : Exn) (s : Bytes) (n : ℕ) → unpad e (s ++ replicate (suc n) (suc n)) ≡ ok s
unfolding unpad stripped
unpad-filled e s n =
    let whole = last-append s (suc n) (replicate n (suc n)) ∙ last-replicate n (suc n) in
    let counted : length (s ++ replicate (suc n) (suc n)) - suc n ≡ length s =
      omega (arith, length-append s (replicate (suc n) (suc n)), length-replicate n (suc n)) in
    rw whole (rw counted (ap ok (take-append s (replicate (suc n) (suc n)))))

encode-pad : (s : List ℕ) → encode (pad s) ≡ encode s ++ replicate (missing s) (missing s)
unfolding pad
encode-pad s =
    let (positive, small) = missing_bounds s in
    encode-append s (replicate (missing s) (missing s))
    ∙ ap (λ (b : Bytes). encode s ++ b) (encode-replicate (missing s) (missing s) (omega arith))

unpad-missing :
    (e : Exn) (s : List ℕ) (b : Bytes) → unpad e (b ++ replicate (missing s) (missing s)) ≡ ok b
unpad-missing e s b =
    let (positive, small) = missing_bounds s in
    let k : missing s ≡ suc (missing s - 1) = omega (arith, positive) in
    ap (λ (n : ℕ). unpad e (b ++ replicate n n)) k ∙ unpad-filled e b (missing s - 1)

module _ (cipher : Cipher) (iv : Bytes) (full : length iv ≡ 16) where
  cbc_decrypt-seal :
      (e : Exn) (b : Bytes)
      → length b % 16 ≡ 0
      → cbc_decrypt cipher e (iv ++ cipher.seal iv b) ≡ unpad e b
  unfolding cbc_decrypt
  cbc_decrypt-seal e b blocks =
      let front : take 16 (iv ++ cipher.seal iv b) ≡ iv =
        ap (λ (n : ℕ). take n (iv ++ cipher.seal iv b)) (sym full)
        ∙ take-append iv (cipher.seal iv b) in
      let back : drop 16 (iv ++ cipher.seal iv b) ≡ cipher.seal iv b =
        ap (λ (n : ℕ). drop n (iv ++ cipher.seal iv b)) (sym full)
        ∙ drop-append iv (cipher.seal iv b) in
      rw (front, back)
        (rw (cipher.length-seal iv b blocks)
          (rw blocks (ap (unpad e) (cipher.unseal-seal iv b blocks))))

  -- Bytes come back from decryption as they were, whatever their number.
  pub decrypt_bin-encrypt_bin :
      (raw : Bytes) → (encrypt_bin cipher iv raw >>= decrypt_bin cipher) ≡ ok raw
  unfolding encrypt_bin cbc_encrypt decrypt_bin
  decrypt_bin-encrypt_bin raw = rw (length-pad raw) (
      cbc_decrypt-seal Exn.index_error (pad raw) (length-pad raw)
      ∙ (unfold pad in unpad-missing Exn.index_error raw raw))

  length-encode-pad :
      (raw : List ℕ) → length (encode raw) ≡ length raw → length (encode (pad raw)) % 16 ≡ 0
  length-encode-pad raw ascii =
      ap (λ (b : Bytes). length b % 16) (encode-pad raw)
      ∙ ap (λ (n : ℕ). n % 16)
          (length-append (encode raw) (replicate (missing raw) (missing raw))
            ∙ ap (λ (n : ℕ). n + length (replicate (missing raw) (missing raw))) ascii
            ∙ sym (length-append raw (replicate (missing raw) (missing raw))))
      ∙ (unfold pad in length-pad raw)

  -- A text of ASCII characters comes back from decryption, as its bytes.
  pub decrypt-encrypt :
      (raw : List ℕ)
      → length (encode raw) ≡ length raw
      → (encrypt cipher iv raw >>= decrypt cipher) ≡ ok (encode raw)
  unfolding encrypt cbc_encrypt decrypt
  decrypt-encrypt raw ascii =
      let blocks = length-encode-pad raw ascii in
      rw blocks (
        ap (cbc_decrypt cipher Exn.type_error) (cipher.b64decode-b64encode _)
        ∙ cbc_decrypt-seal Exn.type_error (encode (pad raw)) blocks
        ∙ ap (unpad Exn.type_error) (encode-pad raw)
        ∙ unpad-missing Exn.type_error raw (encode raw))

  -- A text whose bytes do not fill the blocks that its characters would fill, such as one with a single
  -- umlaut, cannot be encrypted: the padding counts characters, and the cipher bytes.
  pub encrypt_multibyte_raises :
      (raw : List ℕ)
      → (length (encode raw) + missing raw) % 16 ≢ 0
      → encrypt cipher iv raw ≡ err Exn.value_error
  unfolding encrypt cbc_encrypt
  encrypt_multibyte_raises raw ragged =
      let size : length (encode (pad raw)) ≡ length (encode raw) + missing raw =
        ap length (encode-pad raw)
        ∙ length-append (encode raw) _
        ∙ ap (λ (n : ℕ). length (encode raw) + n) (length-replicate (missing raw) (missing raw)) in
      let test : (length (encode (pad raw)) % 16 == 0) ≡ false = ground (arith, size) in rw test
