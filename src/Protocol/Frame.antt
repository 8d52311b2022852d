-- ===== src/Protocol/Frame.antt =====
-- server/internal/protocol/frame.go: frames and their wire format. A frame is written as its
-- 8-byte header, the payload and, under the padding flag, random bytes that their count ends.
pub mod RoundTrip
pub mod Decoding
pub mod Stream
use ligend.Prelude.{
  ℕ, zero, suc, ◌+◌, ◌-◌, ◌*◌, ◌/◌, ◌%◌, bit_and, bit_or, Bool, true, false, not, ◌||◌, List, [],
  ◌∷◌, ◌++◌, length, ltb, ◌==◌, if◌then◌else◌, ◌<◌,
}
use ligend.Prelude.Outcome.{Outcome, ok, err, ◌>>=◌, ◌>>◌, fail_if, at, slice}
use ligend.Prelude.Bytes.{Bytes, random_bytes, put16, put32, uint16, uint32}

abbrev pub protocol_version : ℕ
protocol_version = 0x02

abbrev pub type_data : ℕ
type_data = 0x01

abbrev pub type_data_frag : ℕ
type_data_frag = 0x02

abbrev pub type_control : ℕ
type_control = 0x03

abbrev pub type_padding : ℕ
type_padding = 0x04

abbrev pub type_keepalive : ℕ
type_keepalive = 0x05

abbrev pub type_migrate : ℕ
type_migrate = 0x06

abbrev pub flag_has_padding : ℕ
flag_has_padding = 0x01

abbrev pub flag_compressed : ℕ
flag_compressed = 0x02

abbrev pub flag_urgent : ℕ
flag_urgent = 0x04

abbrev pub flag_encrypted : ℕ
flag_encrypted = 0x08

abbrev pub ctrl_session_init : ℕ
ctrl_session_init = 0x01

abbrev pub ctrl_ip_assign : ℕ
ctrl_ip_assign = 0x02

abbrev pub ctrl_dns_config : ℕ
ctrl_dns_config = 0x03

abbrev pub ctrl_mtu_update : ℕ
ctrl_mtu_update = 0x04

abbrev pub ctrl_disconnect : ℕ
ctrl_disconnect = 0x05

abbrev pub ctrl_session_key : ℕ
ctrl_session_key = 0x06

abbrev pub ctrl_conn_id : ℕ
ctrl_conn_id = 0x07

abbrev pub ctrl_ping : ℕ
ctrl_ping = 0x08

abbrev pub ctrl_pong : ℕ
ctrl_pong = 0x09

abbrev pub header_size : ℕ
header_size = 8

pub record Frame : Type 0 where
  pub version : ℕ
  pub type : ℕ
  pub flags : ℕ
  pub sequence : ℕ
  pub payload : Bytes

unfoldable pub new_data_frame : Bytes → ℕ → Frame
new_data_frame payload seq = record {
  version = protocol_version;
  type = type_data;
  flags = 0;
  sequence = seq;
  payload = payload;
}

unfoldable pub new_data_frag_frame : ℕ → Bytes → ℕ → Frame
new_data_frag_frame frag_id payload seq = record {
  version = protocol_version;
  type = type_data_frag;
  flags = 0;
  sequence = seq;
  payload = put16 frag_id ++ payload;
}

unfoldable pub new_control_frame : ℕ → Bytes → ℕ → Frame
new_control_frame subtype bytes seq = record {
  version = protocol_version;
  type = type_control;
  flags = 0;
  sequence = seq;
  payload = subtype ∷ bytes;
}

unfoldable pub new_keepalive_frame : ℕ → Frame
new_keepalive_frame seq = record {
  version = protocol_version;
  type = type_keepalive;
  flags = 0;
  sequence = seq;
  payload = [];
}

unfoldable pub new_migrate_frame : Bytes → ℕ → Frame
new_migrate_frame session_id seq = record {
  version = protocol_version;
  type = type_migrate;
  flags = 0;
  sequence = seq;
  payload = session_id;
}

-- What one call draws from `math/rand`: the answer of `rand.Intn(n)`, and the bytes of `rand.Read`.
pub record Rng : Type 0 where
  pub roll : ℕ
  pub noise : ℕ → ℕ

unfoldable pub new_padding_frame : Rng → ℕ → Frame
new_padding_frame rng size = record {
  version = protocol_version;
  type = type_padding;
  flags = 0;
  sequence = 0;
  payload = random_bytes rng.noise size;
}

-- The two bounds are not used by the source either.
unfoldable pub with_padding : Frame → ℕ → ℕ → Frame
with_padding f min_pad max_pad = record f { flags = bit_or f.flags flag_has_padding }

-- `flags & mask != 0`
abbrev pub has_flag : ℕ → ℕ → Bool
has_flag flags mask = not (bit_and flags mask == 0)

-- What `encode` writes behind the payload: `roll + 1` random bytes and their count.
unfoldable pub padding : Rng → ℕ → Bytes
padding rng flags =
    if has_flag flags flag_has_padding
    then random_bytes rng.noise (rng.roll + 1) ++ ((rng.roll + 1) % 256) ∷ []
    else []

unfoldable pub encode : Rng → Frame → Bytes
encode rng f =
    bit_or (f.version * 16 % 256) (bit_and f.type 0x0f)
    ∷ f.flags
    ∷ (put16 (length f.payload) ++ (put32 f.sequence ++ (f.payload ++ padding rng f.flags)))

pub data DecodeError : Type 0 where
  frame_too_short unsupported_version no_data_after_header : DecodeError
  too_short_for_padding too_short_for_payload : DecodeError

-- The payload among the bytes behind the header, its padding stripped.
unfoldable pub decode_payload : ℕ → ℕ → Bytes → Outcome DecodeError Bytes
decode_payload flags payload_len remaining =
    if has_flag flags flag_has_padding
    then (do
      fail_if (ltb (length remaining) 1) no_data_after_header
      pad_len ← at remaining (length remaining - 1)
      fail_if (ltb (length remaining) (payload_len + pad_len + 1)) too_short_for_padding
      slice remaining 0 payload_len)
    else (do
      fail_if (ltb (length remaining) payload_len) too_short_for_payload
      slice remaining 0 payload_len)

unfoldable pub decode : Bytes → Outcome DecodeError Frame
decode bytes = do
  fail_if (ltb (length bytes) header_size) frame_too_short
  first ← at bytes 0
  flags ← at bytes 1
  payload_len ← uint16 bytes 2
  sequence ← uint32 bytes 4
  fail_if (not (bit_and (first / 16) 0x0f == protocol_version)) unsupported_version
  remaining ← slice bytes header_size (length bytes)
  payload ← decode_payload flags payload_len remaining
  ok (record {
    version = bit_and (first / 16) 0x0f;
    type = bit_and first 0x0f;
    flags = flags;
    sequence = sequence;
    payload = payload;
  })

pub data ControlError : Type 0 where
  not_a_control_frame empty_payload : ControlError

unfoldable pub control_subtype : Frame → Outcome ControlError ℕ
control_subtype f = do
  fail_if (not (f.type == type_control)) not_a_control_frame
  fail_if (ltb (length f.payload) 1) empty_payload
  at f.payload 0

-- `nil` and an empty slice are both the empty list.
unfoldable pub control_data : Frame → Outcome ControlError Bytes
control_data f =
    if not (f.type == type_control) || ltb (length f.payload) 2
    then ok []
    else slice f.payload 1 (length f.payload)
