-- ===== src/Edge/Recovery.antt =====
-- Crash recovery of m5_local_store.go: the log file and the index that `NewWALStore` builds of it.
use mathlib.Core.List.{append_assoc}
use payment_risk_engine.Prelude.{
  ℕ, zero, suc, ◌+◌, ◌%◌, ◌^◌, ◌≤◌, ◌<◌, ◌≡◌, refl, sym, ap, ◌∙◌, arith, none, some, List, [], ◌∷◌,
  ◌++◌, length, length-append, take, take-append,
}
use payment_risk_engine.Host.{Bytes}
use payment_risk_engine.Edge.Queue.{QueuedTransaction}
use payment_risk_engine.Edge.Wal.{
  Codec, WalStore, Scan, empty_store, frame_header, read_frame, restore, scan, truncate, cut_file,
  new_wal_store, header_size,
}
use payment_risk_engine.Edge.Frames.{
  Frame, frame_bytes, IsWhole, length-frame_header, header_size_lem, read_frame_whole,
}

abbrev pub log_bytes : List Frame → Bytes
log_bytes [] = []
log_bytes (f ∷ fs) = frame_bytes f ++ log_bytes fs

-- The index after reading the frames in order.
abbrev pub replay : List Frame → WalStore → WalStore
replay [] s = s
replay (f ∷ fs) s = replay fs (restore f.seq f.tx s)

abbrev pub AllWhole : Codec → List Frame → Type 0
AllWhole codec [] = Unit
AllWhole codec (f ∷ fs) = IsWhole codec f × AllWhole codec fs

take_header :
    (f : Frame) (rest : Bytes) → take 20 (frame_bytes f ++ rest) ≡ frame_header f.seq f.payload
take_header f rest = rw append_assoc (
    take-append 20 (frame_header f.seq f.payload) (f.payload ++ rest)
      (sym (length-frame_header f.seq f.payload)))

scan_stop :
    (fuel : ℕ) (codec : Codec) (st : Scan)
    → read_frame codec st.rest ≡ none
    → scan (suc fuel) codec st ≡ st
unfolding scan
scan_stop fuel codec st e = rw (e, scan)

pub scan_more :
    (fuel : ℕ) (codec : Codec) (st : Scan) {seq : ℕ} {tx : QueuedTransaction} {after : Bytes}
    → read_frame codec st.rest ≡ some (seq, tx, after)
    → scan (suc fuel) codec st
      ≡ scan fuel codec (record {
        store = restore seq tx st.store;
        rest = after;
        read_offset = st.read_offset + (20 + header_size (take 20 st.rest));
        valid_offset = st.read_offset + (20 + header_size (take 20 st.rest)) % 2 ^ 32;
      })
unfolding scan
scan_more fuel codec st e = rw (e, scan)

-- The size of one frame, as its header gives it.
pub frame_size :
    (codec : Codec) (f : Frame) (rest : Bytes)
    → IsWhole codec f
    → 20 + header_size (take 20 (frame_bytes f ++ rest)) ≡ length (frame_bytes f)
frame_size codec f rest whole = rw (take_header f rest) (
    omega (
      arith,
      whole.size_fits,
      header_size_lem f.seq f.payload,
      length-frame_header f.seq f.payload,
      length-append {0} (frame_header f.seq f.payload) f.payload,
    ))

pub frame_end :
    (codec : Codec) (f : Frame) (v : ℕ)
    → IsWhole codec f
    → v + length (frame_bytes f) % 2 ^ 32 ≡ v + length (frame_bytes f)
frame_end codec f v whole = omega (
  arith,
  whole.size_fits,
  length-frame_header f.seq f.payload,
  length-append {0} (frame_header f.seq f.payload) f.payload,
)

module _ (codec : Codec) (tail : Bytes) (ends : read_frame codec tail ≡ none) where
  -- The loop reads every whole frame and stops at a tail that is no frame.
  scan_log :
      (fuel : ℕ) (fs : List Frame) (s : WalStore) (v w : ℕ)
      → AllWhole codec fs
      → length fs < fuel
      → w ≡ v + length (log_bytes fs)
      → scan fuel codec
          (record { store = s; rest = log_bytes fs ++ tail; read_offset = v; valid_offset = v })
        ≡ record { store = replay fs s; rest = tail; read_offset = w; valid_offset = w }
  scan_log zero fs s v w h lt e = absurd (omega arith)
  scan_log (suc fuel) [] s v w h lt e =
      let e' : w ≡ v = omega arith in
      rw e' (
        scan_stop fuel codec (record { store = s; rest = tail; read_offset = v; valid_offset = v })
          ends)
  scan_log (suc fuel) (f ∷ fs) s v w (whole, h) lt e =
      rw (append_assoc (frame_bytes f) (log_bytes fs) tail) (
        scan_more fuel codec
          (record {
            store = s;
            rest = frame_bytes f ++ (log_bytes fs ++ tail);
            read_offset = v;
            valid_offset = v;
          })
          (read_frame_whole codec f whole (log_bytes fs ++ tail))
        ∙ rw (frame_size codec f (log_bytes fs ++ tail) whole) (
            rw (frame_end codec f v whole) (
              scan_log fuel fs (restore f.seq f.tx s) (v + length (frame_bytes f)) w h (omega arith)
                (omega (arith, length-append {0} (frame_bytes f) (log_bytes fs))))))

length-log_bytes : (fs : List Frame) → length fs ≤ length (log_bytes fs)
length-log_bytes [] = omega arith
length-log_bytes (f ∷ fs) = omega (
  arith,
  length-log_bytes fs,
  length-append {0} (frame_bytes f) (log_bytes fs),
  length-append {0} (frame_header f.seq f.payload) f.payload,
  length-frame_header f.seq f.payload,
)

pub truncate_lem : (xs ys : Bytes) → truncate (length xs) (xs ++ ys) ≡ xs
unfolding truncate
truncate_lem [] ys = refl
truncate_lem (x ∷ xs) ys = ap (λ zs. x ∷ zs) (truncate_lem xs ys)

-- A store as recovery builds it of the frames of a log.
abbrev pub recovered : List Frame → WalStore
recovered fs = record (replay fs (empty_store [])) { file = log_bytes fs }

pub replay_file :
    (fs : List Frame) (s : WalStore) (file : Bytes)
    → replay fs (record s { file = file }) ≡ record (replay fs s) { file = file }
unfolding restore
replay_file [] s file = refl
replay_file (f ∷ fs) s file = replay_file fs (restore f.seq f.tx s) file

-- Recovery of a log with anything behind it that is no whole frame: the index holds exactly the
-- frames before the damage, in order, and the file is cut back to them.
pub new_wal_store_recovers :
    (codec : Codec) (fs : List Frame) (tail : Bytes)
    → AllWhole codec fs
    → read_frame codec tail ≡ none
    → new_wal_store codec (log_bytes fs ++ tail) ≡ recovered fs
unfolding new_wal_store cut_file
new_wal_store_recovers codec fs tail h ends =
    let file = log_bytes fs ++ tail in
    ap (cut_file file) (
      scan_log codec tail ends (suc (length file)) fs (empty_store file) 0 (length (log_bytes fs)) h
        (omega (arith, length-log_bytes fs, length-append {0} (log_bytes fs) tail)) (omega arith))
    ∙ rw (replay_file fs (empty_store []) file) (rw (truncate_lem (log_bytes fs) tail) refl)
