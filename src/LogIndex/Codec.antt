-- ===== src/LogIndex/Codec.antt =====
-- `BlobCodec`: the bytes of a blob, and the packed vector of blob ids that a request holds. The
-- array of 32-bit words is written little-endian on every host, which is what the byte swap is for.
use claude_agent_wrap.Prelude.{
  ℕ, ◌+◌, ◌*◌, ◌/◌, ◌%◌, ◌^◌, ◌<◌, ◌≡◌, refl, Option, none, some, List, [], ◌∷◌, arith, ltb, length,
  All, if◌then◌else◌, Bool-cases, inl, inr,
}

abbrev pub Bytes : Type 0
Bytes = List ℕ

pub data Codec : Type 0 where
  raw zlib : Codec

-- The two functions of `zlib`, which the runtime implements; `none` is a `zlib.error`, for a
-- payload that is no whole stream.
pub record Zlib : Type 0 where
  pub compress : Bytes → Bytes
  pub decompress : Bytes → Option Bytes

-- Decompression undoes compression.
pub record IsLossless (z : Zlib) : Type 0 where
  pub decompress-compress : (b : Bytes) → z.decompress (z.compress b) ≡ some b

module _ (z : Zlib) where
  unfoldable pub encode : Bytes → Codec × Bytes
  encode b = if ltb (length b) 512 then (raw, b) else (zlib, z.compress b)

  unfoldable pub decode : Codec → Bytes → Option Bytes
  decode raw payload = some payload
  decode zlib payload = z.decompress payload

  -- What is stored is what is read back, compressed or not.
  pub decode-encode : IsLossless z → (b : Bytes) → decode (encode b).0 (encode b).1 ≡ some b
  unfolding encode decode
  decode-encode l b = elim (Bool-cases (ltb (length b) 512)) [
    | inl short ↦ rw short
    | inr long ↦ rw (long, l.decompress-compress b)
  ]

-- An id that does not fit in 32 bits is an `OverflowError`: `none`.
unfoldable pub pack_ids : List ℕ → Option Bytes
pack_ids [] = some []
pack_ids (n ∷ ns) = elim (pack_ids ns) [
  | none ↦ none
  | some rest ↦
      if ltb n (2 ^ 32)
      then some (n % 256 ∷ n / 256 % 256 ∷ n / 65536 % 256 ∷ n / 16777216 ∷ rest)
      else none
]

-- Bytes that are no whole number of words are a `ValueError`: `none`.
unfoldable pub unpack_ids : Bytes → Option (List ℕ)
unpack_ids [] = some []
unpack_ids (a ∷ b ∷ c ∷ d ∷ rest) = elim (unpack_ids rest) [
  | none ↦ none
  | some ns ↦ some ((a + b * 256 + c * 65536 + d * 16777216) ∷ ns)
]
unpack_ids _ = none

-- Ids that fit in 32 bits are packed, and unpacking gives them back in their order.
pub unpack_ids-pack_ids :
    (ns : List ℕ)
    → All (λ n. n < 2 ^ 32) ns
    → (b : Bytes) × (pack_ids ns ≡ some b) × (unpack_ids b ≡ some ns)
unfolding pack_ids unpack_ids
unpack_ids-pack_ids [] h = ([], refl, refl)
unpack_ids-pack_ids (n ∷ ns) h =
    let (b, packed, back) = unpack_ids-pack_ids ns h.1 in
    (n % 256 ∷ n / 256 % 256 ∷ n / 65536 % 256 ∷ n / 16777216 ∷ b, ground arith, ground arith)
