-- ===== src/Server/Inputs.antt =====
-- server/internal/server/server.go: what the read loop does with a frame finds all its indices in
-- range.
use ligend.Prelude.{
  ℕ, ◌<◌, inl, inr, not, ◌||◌, List, [], length, map, ltb, ltb→le, ◌==◌, Bool-cases, arith,
}
use ligend.Prelude.Outcome.{Outcome, ok, err, panic, Sat, Sat-check, Sat-mono, at, at-ok, slice-ok}
use ligend.Prelude.Bytes.{Bytes}
use ligend.Prelude.Tables.{nat_keys}
use ligend.Crypto.{Lz4, Lz4Laws}
use ligend.Protocol.Frame.{
  Frame, ControlError, has_flag, control_subtype, control_data, flag_compressed, type_control,
  not_a_control_frame, empty_payload,
}
use ligend.Protocol.Compression.{decompress_frame}
use ligend.Protocol.Compression.RoundTrip.{decompress_frame-bounded}
use ligend.Protocol.Batch.{BatchError, flag_batch_mode, decode_batch}
use ligend.Protocol.Batch.Decoding.{decode_batch-StandsAt}
use ligend.Server.{Event, tun_writes}
use ligend.Server.Messages.{data_events}

-- `data_events` finds all its indices in range.
pub data_events-ok : (f : Frame) → Sat (λ _. Unit {0}) (data_events f)
unfolding data_events
data_events-ok f = elim (Bool-cases (length f.payload == 0)) [
  | inl e ↦ rw e tt
  | inr e ↦ elim (Bool-cases (has_flag f.flags flag_batch_mode)) [
    | inl b ↦ rw (e, b) (batched _ (decode_batch f.payload) (decode_batch-StandsAt f.payload))
    | inr b ↦ rw (e, b) tt
  ]
]
  where
    batched :
        (P : List Bytes → Type 0) (m : Outcome BatchError (List Bytes))
        → Sat P m
        → Sat {E = ⊥}
            (λ (_ : List Event). Unit {0})
            (elim m [ ok packets ↦ ok (map tun_writes packets) | err e ↦ ok [] | panic ↦ panic ])
    batched P (ok packets) h = tt
    batched P (err e) h = tt
    batched P panic h = h

read-ok : (E : Type 0) (xs : Bytes) (i : ℕ) → i < length xs → Sat {E = E} (λ _. Unit {0}) (at xs i)
read-ok E xs i h = rw ((at-ok xs i h).1) tt

pub control_subtype-ok : (f : Frame) → Sat (λ _. Unit {0}) (control_subtype f)
unfolding control_subtype
control_subtype-ok f =
    Sat-check (λ _. Unit) (not (f.type == type_control)) not_a_control_frame _
      λ _.
        Sat-check (λ _. Unit) (ltb (length f.payload) 1) empty_payload _
          λ long. read-ok ControlError f.payload 0 (omega (arith, ltb→le (length f.payload) 1 long))

pub control_data-ok : (f : Frame) → Sat (λ _. Unit {0}) (control_data f)
unfolding control_data
control_data-ok f = elim (Bool-cases (not (f.type == type_control) || ltb (length f.payload) 2)) [
  | inl e ↦ rw e tt
  | inr e ↦
      rw
        (e, slice-ok {E = ControlError} f.payload 1 (length f.payload) (ground arith) (omega arith))
        tt
]

-- Decompressing any frame ends in an error or a frame.
pub decompress_frame-ok :
    (z : Lz4) (f : Frame) → Lz4Laws z → Sat (λ _. Unit {0}) (decompress_frame z f)
decompress_frame-ok z f laws = elim (Bool-cases (has_flag f.flags flag_compressed)) [
  | inl marked ↦
      Sat-mono _ (λ _. Unit {0}) (λ g h. tt) (decompress_frame z f)
        (decompress_frame-bounded z f laws marked)
  | inr plain ↦ unfold decompress_frame in rw plain tt
]
