-- ===== src/Tests/FrameRuns.antt =====
-- Headers of mux.c on concrete inputs.
use yamux.Common.{ℕ, ◌≡◌, refl, List, [], ◌∷◌, arith, length, All}
use yamux.Frame.{
  version, hdr_size, hdr_encode, hdr_version, hdr_type, hdr_flags, hdr_stream_id, hdr_length,
}
use yamux.Frame.Codec.{IsByte, hdr_decode-encode, hdr_encode-decode}

hdr_decode-encode_example :
    let h = hdr_encode 1 2 0x01020304 5 in
    (length h ≡ hdr_size)
    × All IsByte h
    × (hdr_version h ≡ version)
    × (hdr_type h ≡ 1)
    × (hdr_flags h ≡ 2)
    × (hdr_stream_id h ≡ 0x01020304)
    × (hdr_length h ≡ 5)
hdr_decode-encode_example =
    hdr_decode-encode 1 2 0x01020304 5 (omega arith) (omega arith) (omega arith) (omega arith)

abbrev ping : List ℕ
ping = 0 ∷ 2 ∷ 0 ∷ 1 ∷ 0 ∷ 0 ∷ 0 ∷ 0 ∷ 0 ∷ 0 ∷ 1 ∷ 44 ∷ []

hdr_encode-decode_example :
    hdr_encode (hdr_type ping) (hdr_flags ping) (hdr_stream_id ping) (hdr_length ping) ≡ ping
unfolding hdr_version
hdr_encode-decode_example = hdr_encode-decode ping refl (omega arith) refl
