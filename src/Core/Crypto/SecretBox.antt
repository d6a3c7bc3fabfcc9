-- ===== src/Core/Crypto/SecretBox.antt =====
-- crates/lakefs-auth-core/src/crypto/secretbox.rs: the blob of a sealed secret. AES-256-GCM and
-- HKDF are parameters, and the random nonce is an argument; a `Vec<u8>` is a list of numbers below 256.
use lakefs_auth.Common.{
  Option-cases, inl, inr, ℕ, ◌+◌, ◌≤◌, ◌≡◌, refl, ◌∙◌, ap, true, false, not, Option, none, some,
  List, [], ◌∷◌, ◌++◌, length, take, drop, length-append, ltb, arith, if◌then◌else◌,
}
use lakefs_auth.Common
use lakefs_auth.Std.Order.{Text}
use lakefs_auth.Std.Str.{codes}
use lakefs_auth.Std.Utf8.{as_bytes, from_utf8, from_utf8-as_bytes, IsText}
use lakefs_auth.Std.Result.{Result, ok, err, ◌>>=◌, ok_or}

abbrev pub version : ℕ
version = 1

abbrev pub nonce_len : ℕ
nonce_len = 12

abbrev pub tag_len : ℕ
tag_len = 16

abbrev pub key_len : ℕ
key_len = 32

abbrev pub hkdf_salt : List ℕ
hkdf_salt = codes "lakefs-auth/hkdf/v1"

abbrev pub hkdf_info : List ℕ
hkdf_info = codes "lakefs-authz/credentials-secret/v1"

pub data CryptoError : Type 0 where
  too_short decrypt encrypt not_utf8 : CryptoError
  unsupported_version : ℕ → CryptoError

-- The cipher under its key: each takes the nonce first.
pub record SecretBox : Type 0 where
  pub encrypt : List ℕ → List ℕ → Option (List ℕ)
  pub decrypt : List ℕ → List ℕ → Option (List ℕ)

-- `hkdf salt secret info length`, and `Aes256Gcm::new`
abbrev pub derive :
    (List ℕ → List ℕ → List ℕ → ℕ → List ℕ) → (List ℕ → SecretBox) → List ℕ → SecretBox
derive hkdf cipher shared_secret = cipher (hkdf hkdf_salt shared_secret hkdf_info key_len)

unfoldable pub seal : SecretBox → List ℕ → List ℕ → Result (List ℕ) CryptoError
seal box nonce plaintext = do
  ciphertext ← ok_or encrypt (box.encrypt nonce plaintext)
  ok (version ∷ (nonce ++ ciphertext))

-- What follows the test of the length, on the first byte and the rest.
unfoldable pub open_versioned : SecretBox → List ℕ → Result (List ℕ) CryptoError
open_versioned box [] = err too_short
open_versioned box (first ∷ rest) =
    if not (Common.◌==◌ first version)
    then err (unsupported_version first)
    else ok_or decrypt (box.decrypt (take nonce_len rest) (drop nonce_len rest))

unfoldable pub open_bytes : SecretBox → List ℕ → Result (List ℕ) CryptoError
unfolding open_versioned
open_bytes box blob =
    if ltb (length blob) (1 + nonce_len + tag_len) then err too_short else open_versioned box blob

unfoldable pub seal_str : SecretBox → List ℕ → Text → Result (List ℕ) CryptoError
unfolding seal
seal_str box nonce plaintext = seal box nonce (as_bytes plaintext)

unfoldable pub open_str : SecretBox → List ℕ → Result Text CryptoError
unfolding open_bytes
open_str box blob = do plaintext ← open_bytes box blob; ok_or not_utf8 (from_utf8 plaintext)

-- What an authenticated cipher promises: it decrypts what it encrypted under the same nonce, and
-- appends a tag.
pub record IsAead (box : SecretBox) : Type 0 where
  pub decrypt_encrypt :
      (nonce plaintext ciphertext : List ℕ)
      → length nonce ≡ nonce_len
      → box.encrypt nonce plaintext ≡ some ciphertext
      → box.decrypt nonce ciphertext ≡ some plaintext
  pub tagged :
      (nonce plaintext ciphertext : List ℕ)
      → box.encrypt nonce plaintext ≡ some ciphertext
      → tag_len ≤ length ciphertext

take_front : {A : Type 0} (xs ys : List A) → take (length xs) (xs ++ ys) ≡ xs
take_front [] ys = refl
take_front (x ∷ xs) ys = ap (◌∷◌ x) (take_front xs ys)

drop_front : {A : Type 0} (xs ys : List A) → drop (length xs) (xs ++ ys) ≡ ys
drop_front [] ys = refl
drop_front (x ∷ xs) ys = drop_front xs ys

module _ (box : SecretBox) (aead : IsAead box) where
  open_bytes-layout :
      (nonce plaintext ciphertext : List ℕ)
      → length nonce ≡ nonce_len
      → box.encrypt nonce plaintext ≡ some ciphertext
      → open_bytes box (version ∷ (nonce ++ ciphertext)) ≡ ok plaintext
  unfolding open_bytes open_versioned
  open_bytes-layout nonce plaintext ciphertext sized sealed =
      let front : take nonce_len (nonce ++ ciphertext) ≡ nonce =
        rw (← sized) (take_front nonce ciphertext) in
      let back : drop nonce_len (nonce ++ ciphertext) ≡ ciphertext =
        rw (← sized) (drop_front nonce ciphertext) in
      ground (
        arith,
        front,
        back,
        sized,
        length-append nonce ciphertext,
        aead.tagged nonce plaintext ciphertext sealed,
        aead.decrypt_encrypt nonce plaintext ciphertext sized sealed,
      )

  seal-layout :
      (nonce plaintext ciphertext blob : List ℕ)
      → box.encrypt nonce plaintext ≡ some ciphertext
      → seal box nonce plaintext ≡ ok blob
      → version ∷ (nonce ++ ciphertext) ≡ blob
  unfolding seal
  seal-layout nonce plaintext ciphertext blob done sealed = ground (arith, done, sealed)

  pub open_bytes-seal :
      (nonce plaintext blob : List ℕ)
      → length nonce ≡ nonce_len
      → seal box nonce plaintext ≡ ok blob
      → open_bytes box blob ≡ ok plaintext
  unfolding seal
  open_bytes-seal nonce plaintext blob sized sealed =
      elim (Option-cases (box.encrypt nonce plaintext)) [
        | inl failed ↦ absurd (ground (arith, failed, sealed))
        | inr (ciphertext, done) ↦
            rw (← seal-layout nonce plaintext ciphertext blob done sealed)
              (open_bytes-layout nonce plaintext ciphertext sized done)
      ]

  -- A secret that was sealed is opened as it was.
  pub open_str-seal_str :
      (nonce : List ℕ) (plaintext : Text) (blob : List ℕ)
      → length nonce ≡ nonce_len
      → IsText plaintext
      → seal_str box nonce plaintext ≡ ok blob
      → open_str box blob ≡ ok plaintext
  unfolding seal_str open_str
  open_str-seal_str nonce plaintext blob sized text sealed =
      rw
        (
          open_bytes-seal nonce (as_bytes plaintext) blob sized sealed,
          from_utf8-as_bytes plaintext text,
        )
        refl
