-- ===== src/Edge/Frames.antt =====
-- What `recover` of m5_local_store.go reads back of the frames that `Append` writes.
use mathlib.Core.List.{append_assoc}
use native.Mathlib.Decide.{dec_lt}
use payment_risk_engine.Prelude.{
  put_be, read_be, length-put_be, read_be-put_be, ℕ, ◌+◌, ◌%◌, ◌^◌, ◌<◌, ◌≡◌, refl, sym, ap, ◌∙◌,
  arith, true, none, some, ◌++◌, lt→ltb, le→ltb, length, length-append, take, drop, take-append,
  drop-append, take-append_more, length-take_le, ◌-◌,
}
use payment_risk_engine.Host.{Bytes}
use payment_risk_engine.Edge.Queue.{QueuedTransaction}
use payment_risk_engine.Edge.Bytes.{crc32, crc32-lt}
use payment_risk_engine.Edge.Wal.{
  Codec, frame_header, starts_with_magic, header_size, header_seq, header_crc, check_payload,
  read_body, read_frame,
}

-- One frame on disk.
pub record Frame : Type 0 where
  pub seq : ℕ
  pub tx : QueuedTransaction
  pub payload : Bytes

abbrev pub frame_bytes : Frame → Bytes
frame_bytes f = frame_header f.seq f.payload ++ f.payload

-- A frame whose numbers fit their fields and whose payload decodes to its transaction.
pub record IsWhole (codec : Codec) (f : Frame) : Type 0 where
  pub seq_fits : f.seq < 2 ^ 64
  pub size_fits : 20 + length f.payload < 2 ^ 32
  pub decodes : codec.unmarshal f.payload ≡ some f.tx

pub length-frame_header : (seq : ℕ) (p : Bytes) → length (frame_header seq p) ≡ 20
unfolding frame_header
length-frame_header seq p = omega (
  arith,
  length-append {0} (put_be 8 seq) (put_be 4 (length p % 2 ^ 32) ++ put_be 4 (crc32 p)),
  length-append {0} (put_be 4 (length p % 2 ^ 32)) (put_be 4 (crc32 p)),
  length-put_be 8 seq,
  length-put_be 4 (length p % 2 ^ 32),
  length-put_be 4 (crc32 p),
)

seq_field : (seq : ℕ) (p : Bytes) → take 8 (drop 4 (frame_header seq p)) ≡ put_be 8 seq
unfolding frame_header
seq_field seq p = take-append 8 (put_be 8 seq) _ (sym (length-put_be 8 seq))

size_field :
    (seq : ℕ) (p : Bytes) → take 4 (drop 12 (frame_header seq p)) ≡ put_be 4 (length p % 2 ^ 32)
unfolding frame_header
size_field seq p =
    rw
      (drop-append 8 (put_be 8 seq) (put_be 4 (length p % 2 ^ 32) ++ put_be 4 (crc32 p))
        (sym (length-put_be 8 seq)))
      (take-append 4 (put_be 4 (length p % 2 ^ 32)) _ (sym (length-put_be 4 _)))

crc_field : (seq : ℕ) (p : Bytes) → drop 16 (frame_header seq p) ≡ put_be 4 (crc32 p)
unfolding frame_header
crc_field seq p =
    rw (← append_assoc (put_be 8 seq) (put_be 4 (length p % 2 ^ 32)) (put_be 4 (crc32 p))) (
      drop-append 12 (put_be 8 seq ++ put_be 4 (length p % 2 ^ 32)) _ (
        omega (
          arith,
          length-append {0} (put_be 8 seq) (put_be 4 (length p % 2 ^ 32)),
          length-put_be 8 seq,
          length-put_be 4 (length p % 2 ^ 32),
        )))

-- The three numbers of a header that was written for a payload of that size.
header_seq_lem : (seq : ℕ) (p : Bytes) → seq < 2 ^ 64 → header_seq (frame_header seq p) ≡ seq
header_seq_lem seq p h = ap (read_be 0) (seq_field seq p) ∙ read_be-put_be 8 seq h

pub header_size_lem :
    (seq : ℕ) (p : Bytes) → length p < 2 ^ 32 → header_size (frame_header seq p) ≡ length p
header_size_lem seq p h =
    omega
      (arith, ap (read_be 0) (size_field seq p), read_be-put_be 4 (length p % 2 ^ 32) (omega arith))

header_crc_lem : (seq : ℕ) (p : Bytes) → header_crc (frame_header seq p) ≡ crc32 p
header_crc_lem seq p = ap (read_be 0) (crc_field seq p) ∙ read_be-put_be 4 (crc32 p) (crc32-lt p)

module _ (codec : Codec) (f : Frame) (whole : IsWhole codec f) where
  check_payload_lem :
      (rest : Bytes)
      → check_payload codec (frame_header f.seq f.payload) f.payload rest ≡ some (f.seq, f.tx, rest)
  unfolding check_payload
  check_payload_lem rest = ground (
    arith,
    whole.decodes,
    header_crc_lem f.seq f.payload,
    header_seq_lem f.seq f.payload whole.seq_fits,
  )

  magic_lem : starts_with_magic (frame_header f.seq f.payload) ≡ true
  unfolding frame_header
  magic_lem = refl

  read_body_whole :
      (rest : Bytes)
      → read_body codec (frame_header f.seq f.payload) (f.payload ++ rest)
        ≡ some (f.seq, f.tx, rest)
  unfolding read_body
  read_body_whole rest =
      let size = header_size_lem f.seq f.payload (omega (arith, whole.size_fits)) in
      rw magic_lem (
        rw size (
          rw
            (le→ltb (length (f.payload ++ rest)) (length f.payload)
              (omega (arith, length-append {0} f.payload rest)))
            (rw
              (
                take-append (length f.payload) f.payload rest refl,
                drop-append (length f.payload) f.payload rest refl,
              )
              (check_payload_lem rest))))

  -- A whole frame is read back, and what stands behind it is left.
  pub read_frame_whole :
      (rest : Bytes) → read_frame codec (frame_bytes f ++ rest) ≡ some (f.seq, f.tx, rest)
  unfolding read_frame
  read_frame_whole rest =
      let h = length-frame_header f.seq f.payload in
      rw (append_assoc (frame_header f.seq f.payload) f.payload rest) (
        rw
          (
            take-append 20 (frame_header f.seq f.payload) (f.payload ++ rest) (sym h),
            drop-append 20 (frame_header f.seq f.payload) (f.payload ++ rest) (sym h),
          )
          (rw
            (le→ltb (length (frame_header f.seq f.payload ++ (f.payload ++ rest))) 20 (
              omega
                (arith, h, length-append {0} (frame_header f.seq f.payload) (f.payload ++ rest))))
            (read_body_whole rest)))

  -- A frame that was cut short is not read at all.
  pub read_frame_torn :
      (n : ℕ) → n < length (frame_bytes f) → read_frame codec (take n (frame_bytes f)) ≡ none
  unfolding read_frame read_body
  read_frame_torn n short =
      let h = length-frame_header f.seq f.payload in
      let total = length-append {0} (frame_header f.seq f.payload) f.payload in
      let cut = length-take_le n (frame_bytes f) (omega arith) in
      elim (dec_lt n 20) [
        | yes p ↦ rw (lt→ltb (length (take n (frame_bytes f))) 20 (omega (arith, cut)))
        | no p ↦
            let split =
              take-append_more n (frame_header f.seq f.payload) f.payload (omega (arith, h)) in
            let size = header_size_lem f.seq f.payload (omega (arith, whole.size_fits)) in
            let part = take (n - length (frame_header f.seq f.payload)) f.payload in
            rw split (
              rw
                (
                  take-append 20 (frame_header f.seq f.payload) part (sym h),
                  drop-append 20 (frame_header f.seq f.payload) part (sym h),
                )
                (rw magic_lem (
                  rw size (
                    rw
                      (lt→ltb (length part) (length f.payload) (
                        omega (
                          arith,
                          h,
                          total,
                          length-take_le (n - length (frame_header f.seq f.payload)) f.payload
                              (omega (arith, h, total)),
                        )))
                      (ground arith)))))
      ]
