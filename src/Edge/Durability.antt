-- ===== src/Edge/Durability.antt =====
-- `Append` of m5_local_store.go against a crash: what a reopened store shows.
use mathlib.Core.List.{append_assoc, append-nil}
use payment_risk_engine.Prelude.{
  take-append_less, ℕ, ◌+◌, ◌%◌, ◌^◌, ◌<◌, ◌≡◌, refl, sym, ap, ◌∙◌, arith, none, some, Option, List,
  [], ◌∷◌, ◌++◌, lookup, insert, lt→ltb, length, length-append, take, take-append_more,
}
use payment_risk_engine.Host.{Host, Bytes}
use payment_risk_engine.Edge.Queue.{QueuedTransaction}
use payment_risk_engine.Edge.Wal.{
  Codec, WalStore, WalError, empty_store, frame_header, read_frame, restore, new_wal_store,
  WriteOutcome, written, header_torn, payload_torn, unsynced, write_frame, append, with_hash,
}
use payment_risk_engine.Edge.Frames.{
  Frame, frame_bytes, IsWhole, length-frame_header, read_frame_torn,
}
use payment_risk_engine.Edge.Recovery.{
  log_bytes, replay, AllWhole, recovered, new_wal_store_recovers,
}

-- A store whose file holds whole frames, and whose index is what they add up to.
pub record IsDurable (codec : Codec) (s : WalStore) : Type 0 where
  pub frames : List Frame
  pub whole : AllWhole codec frames
  pub agrees : s ≡ recovered frames

-- The codec reads back what it wrote of this transaction, which fits a frame, and the sequence
-- numbers have not run out.
pub record CanAppend (host : Host) (codec : Codec) (tx : QueuedTransaction) (s : WalStore)
    : Type 0 where
  pub payload : Bytes
  pub fresh : lookup tx.tx_id s.tx_map ≡ none
  pub encodes : codec.marshal (with_hash host tx) ≡ some payload
  pub decodes : codec.unmarshal payload ≡ some (with_hash host tx)
  pub size_fits : 20 + length payload < 2 ^ 32
  pub seq_fits : s.seq_number + 1 < 2 ^ 64

AllWhole-append :
    (codec : Codec) (fs : List Frame) (f : Frame)
    → AllWhole codec fs
    → IsWhole codec f
    → AllWhole codec (fs ++ f ∷ [])
AllWhole-append codec [] f h w = (w, tt)
AllWhole-append codec (g ∷ fs) f h w = (h.0, AllWhole-append codec fs f h.1 w)

log_bytes-append :
    (fs : List Frame) (f : Frame) → log_bytes (fs ++ f ∷ []) ≡ log_bytes fs ++ frame_bytes f
log_bytes-append [] f = append-nil (frame_bytes f)
log_bytes-append (g ∷ fs) f =
    rw (log_bytes-append fs f) (sym (append_assoc (frame_bytes g) (log_bytes fs) (frame_bytes f)))

replay-append :
    (fs : List Frame) (f : Frame) (s : WalStore)
    → replay (fs ++ f ∷ []) s ≡ restore f.seq f.tx (replay fs s)
replay-append [] f s = refl
replay-append (g ∷ fs) f s = replay-append fs f (restore g.seq g.tx s)

-- The frame that the next append writes.
abbrev next_frame : Host → QueuedTransaction → WalStore → Bytes → Frame
next_frame host tx s payload = record {
  seq = (s.seq_number + 1) % 2 ^ 64;
  tx = with_hash host tx;
  payload = payload;
}

module _ (host : Host) (codec : Codec) (tx : QueuedTransaction) (s : WalStore)
    (can : CanAppend host codec tx s) where
  open can use {payload}

  next_frame-IsWhole : IsWhole codec (next_frame host tx s payload)
  next_frame-IsWhole = record {
    seq_fits = omega (arith, can.seq_fits);
    size_fits = can.size_fits;
    decodes = can.decodes;
  }

  pub append_runs :
      (outcome : WriteOutcome)
      → append host codec outcome tx s
        ≡ write_frame outcome
            (with_hash host tx)
            payload
            (record s { seq_number = (s.seq_number + 1) % 2 ^ 64 })
  unfolding append
  append_runs outcome = ground (arith, can.fresh, can.encodes)

-- One more frame in the file and in the index.
recovered-append :
    (fs : List Frame) (f : Frame)
    → (recovered fs).seq_number < f.seq
    → record (recovered fs) {
      file = log_bytes fs ++ frame_bytes f;
      tx_map = insert f.tx.tx_id f.tx (recovered fs).tx_map;
      order = (recovered fs).order ++ f.tx.tx_id ∷ [];
      seq_number = f.seq;
    }
      ≡ recovered (fs ++ f ∷ [])
unfolding restore
recovered-append fs f later = rw (log_bytes-append fs f) (
    rw (replay-append fs f (empty_store []))
      (rw (lt→ltb (replay fs (empty_store [])).seq_number f.seq later) refl))

module _ (host : Host) (codec : Codec) (tx : QueuedTransaction) where
  append_written :
      (s : WalStore) (d : IsDurable codec s) (can : CanAppend host codec tx s)
      → (append host codec written tx s).1
        ≡ recovered (d.frames ++ next_frame host tx s can.payload ∷ [])
  unfolding write_frame
  append_written s d can =
      let f = next_frame host tx s can.payload in
      ap (λ (r : Option WalError × WalStore). r.1) (append_runs host codec tx s can written)
      ∙ ap
          (λ (t : WalStore). record t {
            file = t.file ++ frame_bytes f;
            tx_map = insert f.tx.tx_id f.tx t.tx_map;
            order = t.order ++ f.tx.tx_id ∷ [];
            seq_number = f.seq;
          })
          d.agrees
      ∙ recovered-append d.frames f
          (omega (arith, can.seq_fits, ap (λ (t : WalStore). t.seq_number) d.agrees))

  -- A successful append keeps the store durable.
  pub append-IsDurable :
      (s : WalStore)
      → IsDurable codec s
      → CanAppend host codec tx s
      → IsDurable codec (append host codec written tx s).1
  append-IsDurable s d can = record {
    frames = d.frames ++ next_frame host tx s can.payload ∷ [];
    whole = AllWhole-append codec d.frames _ d.whole (next_frame-IsWhole host codec tx s can);
    agrees = append_written s d can;
  }

empty_frame : (codec : Codec) → read_frame codec [] ≡ none
unfolding read_frame
empty_frame codec = refl

-- A durable store that is reopened is the same store.
pub reopen_durable :
    (codec : Codec) (s : WalStore) → IsDurable codec s → new_wal_store codec s.file ≡ s
reopen_durable codec s d =
    ap (new_wal_store codec)
      (ap (λ (t : WalStore). t.file) d.agrees ∙ sym (append-nil (log_bytes d.frames)))
    ∙ new_wal_store_recovers codec d.frames [] d.whole (empty_frame codec)
    ∙ sym d.agrees

module _ (host : Host) (codec : Codec) (tx : QueuedTransaction) (s : WalStore)
    (d : IsDurable codec s) (can : CanAppend host codec tx s) where
  open can use {payload}

  reopen_torn :
      (n : ℕ)
      → n < length (frame_bytes (next_frame host tx s payload))
      → new_wal_store codec (s.file ++ take n (frame_bytes (next_frame host tx s payload))) ≡ s
  reopen_torn n short =
      let next = frame_bytes (next_frame host tx s payload) in
      ap (λ (t : WalStore). new_wal_store codec (t.file ++ take n next)) d.agrees
      ∙ new_wal_store_recovers codec d.frames (take n next) d.whole (
          read_frame_torn codec (next_frame host tx s payload)
            (next_frame-IsWhole host codec tx s can) n short)
      ∙ sym d.agrees

  header_torn_file :
      (n : ℕ)
      → n < 20
      → (append host codec (header_torn n) tx s).1.file
        ≡ s.file ++ take n (frame_bytes (next_frame host tx s payload))
  unfolding write_frame
  header_torn_file n short =
      ap (λ (r : Option WalError × WalStore). r.1.file)
        (append_runs host codec tx s can (header_torn n))
      ∙ ap (λ (b : Bytes). s.file ++ b)
          (sym (
            take-append_less n (frame_header ((s.seq_number + 1) % 2 ^ 64) payload) payload
              (omega (arith, length-frame_header ((s.seq_number + 1) % 2 ^ 64) payload))))

  cut_payload :
      (n : ℕ)
      → take (20 + n) (frame_bytes (next_frame host tx s payload))
        ≡ frame_header ((s.seq_number + 1) % 2 ^ 64) payload ++ take n payload
  cut_payload n =
      let header = frame_header ((s.seq_number + 1) % 2 ^ 64) payload in
      let h = length-frame_header ((s.seq_number + 1) % 2 ^ 64) payload in
      take-append_more (20 + n) header payload (omega (arith, h))
      ∙ ap (λ k. header ++ take k payload) (omega (arith, h))

  payload_torn_file :
      (n : ℕ)
      → (append host codec (payload_torn n) tx s).1.file
        ≡ s.file ++ take (20 + n) (frame_bytes (next_frame host tx s payload))
  unfolding write_frame
  payload_torn_file n =
      ap (λ (r : Option WalError × WalStore). r.1.file)
        (append_runs host codec tx s can (payload_torn n))
      ∙ ap (λ (b : Bytes). s.file ++ b) (sym (cut_payload n))

-- The writes stop short of the whole frame.
abbrev pub IsTorn : WriteOutcome → Bytes → Type 0
IsTorn written payload = ⊥
IsTorn (header_torn n) payload = n < 20
IsTorn (payload_torn n) payload = n < length payload
IsTorn unsynced payload = ⊥

-- An append whose writes are cut short is as if it had not been tried, once the store is reopened.
pub append_torn :
    (host : Host) (codec : Codec) (outcome : WriteOutcome) (tx : QueuedTransaction) (s : WalStore)
    → IsDurable codec s
    → (can : CanAppend host codec tx s) → IsTorn outcome can.payload
    → new_wal_store codec (append host codec outcome tx s).1.file ≡ s
append_torn host codec written tx s d can h = absurd h
append_torn host codec (header_torn n) tx s d can h =
    ap (new_wal_store codec) (header_torn_file host codec tx s d can n h)
    ∙ reopen_torn host codec tx s d can n (
        omega (
          arith,
          h,
          length-frame_header ((s.seq_number + 1) % 2 ^ 64) can.payload,
          length-append {0} (frame_header ((s.seq_number + 1) % 2 ^ 64) can.payload) can.payload,
        ))
append_torn host codec (payload_torn n) tx s d can h =
    ap (new_wal_store codec) (payload_torn_file host codec tx s d can n)
    ∙ reopen_torn host codec tx s d can (20 + n) (
        omega (
          arith,
          h,
          length-frame_header ((s.seq_number + 1) % 2 ^ 64) can.payload,
          length-append {0} (frame_header ((s.seq_number + 1) % 2 ^ 64) can.payload) can.payload,
        ))
append_torn host codec unsynced tx s d can h = absurd h
