-- ===== src/BitField/Codec.antt =====
-- The text of a bit field, `MarshalText` and `UnmarshalText` of bitfield8.go. The compression
-- (compress/zlib) and the encoding (encoding/base64) are parameters.
use mathlib.Core.Path.{subst}
use resolver_addon.BitField.{BitField8, with_values}
use resolver_addon.BitField.Access.{IsValid, with_values-IsValid}
use resolver_addon.Prelude.{
  ℕ, String, ◌<◌, ◌≡◌, Option, none, some, Result, ok, err, ◌>>=◌, >>=-eq-ok, arith, All,
}
use resolver_addon.Prelude.Bytes.{Bytes, Lacks}

-- error.go: an error has a code and a message; the cause is not modelled.
pub data ErrorCode : Type 0 where
  invalid_format unexpected : ErrorCode

pub record Error : Type 0 where
  pub code : ErrorCode
  pub message : String

abbrev pub error : ErrorCode → String → Error
error code message = record { code = code; message = message }

-- What `inflate` may find wrong: no zlib header, or a damaged stream.
pub data InflateError : Type 0 where
  header stream : InflateError

-- Base64 never writes a colon, decoding undoes encoding, and decompression undoes compression.
pub record Codec : Type 0 where
  pub deflate : Bytes → Result Error Bytes
  pub inflate : Bytes → Result InflateError Bytes
  pub encode : Bytes → Bytes
  pub decode : Bytes → Option Bytes
  pub decode-encode : (b : Bytes) → decode (encode b) ≡ some b
  pub inflate-deflate : (v z : Bytes) → All (λ c. c < 256) v → deflate v ≡ ok z → inflate z ≡ ok v
  pub inflate-bytes : (z v : Bytes) → inflate z ≡ ok v → All (λ c. c < 256) v
  pub encode-Lacks : (b : Bytes) → Lacks b':' (encode b)

module _ (codec : Codec) where
  open codec use {deflate, inflate, encode, decode, decode-encode, inflate-deflate, inflate-bytes}

  unfoldable pub marshal : BitField8 → Result Error Bytes
  marshal bf = do z ← deflate bf.values; ok (encode z)

  abbrev unpacked : Result InflateError Bytes → Result Error Bytes
  unpacked (ok v) = ok v
  unpacked (err header) = err (error unexpected "failed to create zlib reader")
  unpacked (err stream) = err (error invalid_format "failed to decompress data")

  abbrev unpack : Option Bytes → Result Error Bytes
  unpack none = err (error invalid_format "failed to decode bitfield")
  unpack (some z) = unpacked (inflate z)

  -- `len` is the length that the receiver has before the call.
  unfoldable pub unmarshal : Bytes → ℕ → Result Error BitField8
  unmarshal text len = do v ← unpack (decode text); ok (with_values v len)

  -- Reading a printed bit field gives its bytes, under the length that is asked for.
  pub unmarshal-marshal :
      (bf : BitField8) (len : ℕ) {text : Bytes}
      → IsValid bf
      → marshal bf ≡ ok text
      → unmarshal text len ≡ ok (with_values bf.values len)
  unfolding marshal unmarshal
  unmarshal-marshal bf len {text} h e =
      let (z, e', t) = >>=-eq-ok (deflate bf.values) (λ z. ok (encode z)) e in
      ground (arith, decode-encode z, inflate-deflate bf.values z h.bytes e')

  -- The text of a bit field holds no colon.
  pub marshal-Lacks : (bf : BitField8) {text : Bytes} → marshal bf ≡ ok text → Lacks b':' text
  unfolding marshal
  marshal-Lacks bf {text} e =
      let (z, e', t) = >>=-eq-ok (deflate bf.values) (λ z. ok (encode z)) e in
      let t' : encode z ≡ text = cc in subst (Lacks b':') t' (codec.encode-Lacks z)

  unpacked-ok : (r : Result InflateError Bytes) (v : Bytes) → unpacked r ≡ ok v → r ≡ ok v
  unpacked-ok (ok v) w e = cc
  unpacked-ok (err header) w e = cc
  unpacked-ok (err stream) w e = cc

  unpack-bytes : (o : Option Bytes) (v : Bytes) → unpack o ≡ ok v → All (λ c. c < 256) v
  unpack-bytes none v e = cc
  unpack-bytes (some z) v e = inflate-bytes z v (unpacked-ok (inflate z) v e)

  -- What is read is a well-formed bit field.
  pub unmarshal-IsValid :
      (text : Bytes) (len : ℕ) {bf : BitField8} → unmarshal text len ≡ ok bf → IsValid bf
  unfolding unmarshal
  unmarshal-IsValid text len {bf} e =
      let (v, e', t) = >>=-eq-ok (unpack (decode text)) (λ v. ok (with_values v len)) e in
      let t' : with_values v len ≡ bf = cc in
      subst IsValid t' (with_values-IsValid v len (unpack-bytes (decode text) v e'))
