-- ===== src/Frame/Codec.antt =====
-- The macros hdr_encode and hdr_version to hdr_length (mux.c) are inverse to one another.
use yamux.Common.{ℕ, ◌<◌, ◌≡◌, List, [], ◌∷◌, arith, length, All}
use yamux.Frame.{
  version, hdr_size, hdr_encode, hdr_version, hdr_type, hdr_flags, hdr_stream_id, hdr_length,
}

abbrev pub IsByte : ℕ → Type 0
IsByte b = b < 0x100

-- An encoded header has 12 bytes, and reading its fields gives back what was encoded, where each
-- value fits in its field.
pub hdr_decode-encode :
    (type flags id len : ℕ)
    → type < 0x100
    → flags < 0x10000
    → id < 0x100000000
    → len < 0x100000000
    → let h = hdr_encode type flags id len in
      (length h ≡ hdr_size)
      × All IsByte h
      × (hdr_version h ≡ version)
      × (hdr_type h ≡ type)
      × (hdr_flags h ≡ flags)
      × (hdr_stream_id h ≡ id)
      × (hdr_length h ≡ len)
unfolding hdr_encode hdr_version hdr_type hdr_flags hdr_stream_id hdr_length
hdr_decode-encode type flags id len ht hf hi hl = omega arith

-- Any 12 bytes whose version is 0 are the encoding of the fields that are read from them.
pub hdr_encode-decode :
    (h : List ℕ)
    → length h ≡ hdr_size
    → All IsByte h
    → hdr_version h ≡ version
    → hdr_encode (hdr_type h) (hdr_flags h) (hdr_stream_id h) (hdr_length h) ≡ h
unfolding hdr_encode hdr_version hdr_type hdr_flags hdr_stream_id hdr_length
hdr_encode-decode (b0 ∷ b1 ∷ b2 ∷ b3 ∷ b4 ∷ b5 ∷ b6 ∷ b7 ∷ b8 ∷ b9 ∷ b10 ∷ b11 ∷ []) l bytes v =
    ground arith
hdr_encode-decode _ l bytes v = absurd (omega arith)

-- The fields that are read from any header fit in their widths.
pub hdr_bounds :
    (h : List ℕ)
    → (hdr_type h < 0x100)
      × (hdr_flags h < 0x10000)
      × (hdr_stream_id h < 0x100000000)
      × (hdr_length h < 0x100000000)
unfolding hdr_type hdr_flags hdr_stream_id hdr_length
hdr_bounds h = omega arith
