-- ===== src/Frame.antt =====
-- The 12-byte frame header of mux.c: version, type, flags, stream id and length, the last three in
-- network order, as `htons` and `htonl` store them. A header is the list of its bytes.
pub mod Codec
use yamux.Common.{ℕ, ◌+◌, ◌*◌, ◌/◌, ◌%◌, ◌==◌, Bool, not, List, [], ◌∷◌, bit_and, get_or, u16, u32}

-- VERSION
abbrev pub version : ℕ
version = 0

-- TYPE_DATA, TYPE_WINDOW_UPDATE, TYPE_PING and TYPE_GO_AWAY
abbrev pub type_data : ℕ
type_data = 0x00

abbrev pub type_window_update : ℕ
type_window_update = 0x01

abbrev pub type_ping : ℕ
type_ping = 0x02

abbrev pub type_go_away : ℕ
type_go_away = 0x03

-- FLAG_SYN, FLAG_ACK, FLAG_FIN and FLAG_RST
abbrev pub flag_syn : ℕ
flag_syn = 0x01

abbrev pub flag_ack : ℕ
flag_ack = 0x02

abbrev pub flag_fin : ℕ
flag_fin = 0x04

abbrev pub flag_rst : ℕ
flag_rst = 0x08

-- `flags & flag`, as a condition
unfoldable pub has_flag : ℕ → ℕ → Bool
has_flag flags flag = not (bit_and flags flag == 0)

-- GO_AWAY_NORMAL, GO_AWAY_PROTO_ERR and GO_AWAY_INTERNAL_ERR
abbrev pub go_away_normal : ℕ
go_away_normal = 0x00

abbrev pub go_away_proto_err : ℕ
go_away_proto_err = 0x01

abbrev pub go_away_internal_err : ℕ
go_away_internal_err = 0x02

-- `sizeof(hdr)`
abbrev pub hdr_size : ℕ
hdr_size = 12

-- `hdr_encode(h, type, flags, id, len)`
unfoldable pub hdr_encode : ℕ → ℕ → ℕ → ℕ → List ℕ
hdr_encode type flags id len =
    version
    ∷ type % 0x100
    ∷ u16 flags / 0x100
    ∷ u16 flags % 0x100
    ∷ u32 id / 0x1000000
    ∷ u32 id / 0x10000 % 0x100
    ∷ u32 id / 0x100 % 0x100
    ∷ u32 id % 0x100
    ∷ u32 len / 0x1000000
    ∷ u32 len / 0x10000 % 0x100
    ∷ u32 len / 0x100 % 0x100
    ∷ u32 len % 0x100
    ∷ []

-- `*(uint8_t *)(h + i)`; a header has 12 bytes.
abbrev pub byte_at : List ℕ → ℕ → ℕ
byte_at h i = get_or h i 0 % 0x100

unfoldable pub hdr_version : List ℕ → ℕ
hdr_version h = byte_at h 0

unfoldable pub hdr_type : List ℕ → ℕ
hdr_type h = byte_at h 1

unfoldable pub hdr_flags : List ℕ → ℕ
hdr_flags h = byte_at h 2 * 0x100 + byte_at h 3

unfoldable pub hdr_stream_id : List ℕ → ℕ
hdr_stream_id h =
    byte_at h 4 * 0x1000000 + byte_at h 5 * 0x10000 + byte_at h 6 * 0x100 + byte_at h 7

unfoldable pub hdr_length : List ℕ → ℕ
hdr_length h = byte_at h 8 * 0x1000000 + byte_at h 9 * 0x10000 + byte_at h 10 * 0x100 + byte_at h 11
