-- ===== src/Crypto.antt =====
-- apps/api/src/lib/crypto.ts: fields that are encrypted at rest. AES-256-GCM, HMAC, base64 and UTF-8
-- are parameters, with the key inside; bytes and texts are lists of numbers, and what the parameters
-- make of a number that is no byte or no code unit is of no account.
pub mod Laws
use ai_phone_plattform.Prelude.{ℕ, ◌+◌, Option, none, some, List, ◌++◌, Text, trim, take, drop}

abbrev pub Bytes : Type 0
Bytes = List ℕ

abbrev pub iv_len : ℕ
iv_len = 12

abbrev pub tag_len : ℕ
tag_len = 16

pub record Primitives : Type 0 where
  -- the cipher text and the tag of an iv and a text
  pub seal : Bytes → Bytes → Bytes × Bytes
  -- an iv, a tag and a cipher text; `none` is an error that is thrown
  pub unseal : Bytes → Bytes → Bytes → Option Bytes
  pub to_base64 : Bytes → Text
  pub from_base64 : Text → Bytes
  pub to_utf8 : Text → Bytes
  pub from_utf8 : Bytes → Text
  pub hmac : Text → Text

module _ (c : Primitives) where
  open c use {seal, unseal, to_base64, from_base64, to_utf8, from_utf8, hmac}

  -- `encrypt`, with the random iv
  unfoldable pub encrypt : Bytes → Text → Text
  encrypt iv plaintext =
      let (ct, tag) = seal iv (to_utf8 plaintext) in to_base64 (iv ++ (tag ++ ct))

  abbrev decoded : Option Bytes → Option Text
  decoded none = none
  decoded (some b) = some (from_utf8 b)

  -- `decrypt`, and `tryDecrypt` of a text: an error is `none`
  unfoldable pub decrypt : Text → Option Text
  decrypt payload =
      let buf = from_base64 payload in
      decoded
        (unseal (take iv_len buf) (take tag_len (drop iv_len buf)) (drop (iv_len + tag_len) buf))

  -- `blindHash`
  unfoldable pub blind_hash : Text → Text
  blind_hash value = hmac (trim value)
