-- ===== src/Crypto/Laws.antt =====
-- What apps/api/src/lib/crypto.ts promises, from what it relies on.
use ai_phone_plattform.Prelude.{
  ℕ, zero, suc, ◌+◌, ◌≤◌, ◌≡◌, refl, ap, ◌∙◌, arith, none, some, [], ◌∷◌, ◌++◌, Text, length, take,
  drop,
}
use ai_phone_plattform.Crypto.{Bytes, iv_len, tag_len, Primitives, encrypt, decrypt}

-- Documented behaviour: what is sealed with an iv of twelve bytes is unsealed with its iv and tag, the tag
-- has 16 bytes and an empty tag is not accepted, base64 is read back as it was written, and is not
-- shorter than what it stands for.
module _ (c : Primitives) where
  open c use {seal, unseal, to_base64, from_base64, to_utf8, from_utf8}

  pub record Laws : Type 0 where
    pub unseal-seal :
        (iv b : Bytes) → length iv ≡ iv_len → unseal iv (seal iv b).1 (seal iv b).0 ≡ some b
    pub tag_length : (iv b : Bytes) → length iv ≡ iv_len → length (seal iv b).1 ≡ tag_len
    pub no_tag : (iv ct : Bytes) → unseal iv [] ct ≡ none
    pub from_base64-to_base64 : (b : Bytes) → from_base64 (to_base64 b) ≡ b
    pub length-from_base64 : (s : Text) → length (from_base64 s) ≤ length s

take_front : (n : ℕ) (a b : Bytes) → length a ≡ n → take n (a ++ b) ≡ a
take_front zero [] b h = refl
take_front zero (x ∷ a) b h = absurd (omega arith)
take_front (suc n) [] b h = absurd (omega arith)
take_front (suc n) (x ∷ a) b h = ap (λ l. x ∷ l) (take_front n a b (omega arith))

drop_front : (n m : ℕ) (a b : Bytes) → length a ≡ n → drop (n + m) (a ++ b) ≡ drop m b
drop_front zero m [] b h = ap (λ k. drop k b) (omega arith)
drop_front zero m (x ∷ a) b h = absurd (omega arith)
drop_front (suc n) m [] b h = absurd (omega arith)
drop_front (suc n) m (x ∷ a) b h =
    ap (λ k. drop k (x ∷ (a ++ b))) step ∙ drop_front n m a b (omega arith)
  where
    step : suc n + m ≡ suc (n + m)
    step = omega arith

drop_all : (n : ℕ) (a : Bytes) → length a ≤ n → drop n a ≡ []
drop_all zero [] h = refl
drop_all zero (x ∷ a) h = absurd (omega arith)
drop_all (suc n) [] h = refl
drop_all (suc n) (x ∷ a) h = drop_all n a (omega arith)

module _ (c : Primitives) (laws : Laws c) where
  open c use {seal, unseal, to_utf8, from_utf8}

  -- What is encrypted with an iv of twelve bytes is decrypted to the text that its bytes in UTF-8 stand
  -- for, which is the same text unless it has a lone surrogate.
  pub decrypt-encrypt :
      (iv : Bytes) (s : Text)
      → length iv ≡ iv_len
      → decrypt c (encrypt c iv s) ≡ some (from_utf8 (to_utf8 s))
  unfolding decrypt encrypt
  decrypt-encrypt iv s h =
      let ct = (seal iv (to_utf8 s)).0 in
      let tag = (seal iv (to_utf8 s)).1 in
      rw
        (
          laws.from_base64-to_base64 (iv ++ (tag ++ ct)),
          take_front iv_len iv (tag ++ ct) h,
          drop_front iv_len 0 iv (tag ++ ct) h,
          take_front tag_len tag ct (laws.tag_length iv (to_utf8 s) h),
          drop_front iv_len tag_len iv (tag ++ ct) h,
          drop_front tag_len 0 tag ct (laws.tag_length iv (to_utf8 s) h),
          laws.unseal-seal iv (to_utf8 s) h,
        )
        refl

  -- A text that is too short to hold more than an iv is not decrypted.
  pub decrypt_short : (s : Text) → length s ≤ iv_len → decrypt c s ≡ none
  unfolding decrypt
  decrypt_short s h =
      let buf = c.from_base64 s in
      rw
        (
          drop_all iv_len buf (omega (arith, laws.length-from_base64 s)),
          laws.no_tag (take iv_len buf) (drop (iv_len + tag_len) buf),
        )
        refl
