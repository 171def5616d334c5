-- ===== src/Edge/Unreadable.antt =====
-- What an error in reading the log of m5_local_store.go does to it.
use mathlib.Core.List.{append_assoc}
use payment_risk_engine.Prelude.{
  ℕ, ◌+◌, ◌≡◌, refl, ap, ◌∙◌, arith, some, List, [], ◌∷◌, ◌++◌, length, length-append,
}
use payment_risk_engine.Host.{Bytes}
use payment_risk_engine.Edge.Wal.{Codec, WalStore, scan, empty_store, restore, cut_file}
use payment_risk_engine.Edge.Frames.{Frame, frame_bytes, read_frame_whole}
use payment_risk_engine.Edge.Recovery.{
  log_bytes, replay, AllWhole, recovered, scan_more, frame_size, frame_end, replay_file,
  truncate_lem,
}
use payment_risk_engine.Edge.Opening.{payload_unreadable, open_wal_store}

-- As many rounds as there are whole frames read exactly these.
scan_exactly :
    (codec : Codec) (fs : List Frame) (behind : Bytes) (s : WalStore) (v w : ℕ)
    → AllWhole codec fs
    → w ≡ v + length (log_bytes fs)
    → scan
        (length fs)
        codec
        (record { store = s; rest = log_bytes fs ++ behind; read_offset = v; valid_offset = v })
      ≡ record { store = replay fs s; rest = behind; read_offset = w; valid_offset = w }
unfolding scan
scan_exactly codec [] behind s v w h e = let e' : w ≡ v = omega arith in rw e' refl
scan_exactly codec (f ∷ fs) behind s v w (whole, h) e =
    rw (append_assoc (frame_bytes f) (log_bytes fs) behind) (
      scan_more (length fs) codec
        (record {
          store = s;
          rest = frame_bytes f ++ (log_bytes fs ++ behind);
          read_offset = v;
          valid_offset = v;
        })
        (read_frame_whole codec f whole (log_bytes fs ++ behind))
      ∙ rw (frame_size codec f (log_bytes fs ++ behind) whole) (
          rw (frame_end codec f v whole) (
            scan_exactly codec fs behind (restore f.seq f.tx s) (v + length (frame_bytes f)) w h
              (omega (arith, length-append {0} (frame_bytes f) (log_bytes fs))))))

-- An error in reading a payload is no error of NewWALStore: the store has the frames in front of it,
-- and the file is cut back to them, whatever stands behind, whole frames too.
pub open_wal_store_unreadable :
    (codec : Codec) (fs : List Frame) (behind : Bytes)
    → AllWhole codec fs
    → open_wal_store (payload_unreadable (length fs)) codec (log_bytes fs ++ behind)
      ≡ (some (recovered fs), log_bytes fs)
unfolding open_wal_store cut_file
open_wal_store_unreadable codec fs behind h =
    let file = log_bytes fs ++ behind in
    ap (λ st. (some (cut_file file st), (cut_file file st).file))
      (scan_exactly codec fs behind (empty_store file) 0 (length (log_bytes fs)) h (omega arith))
    ∙ rw (replay_file fs (empty_store []) file) (rw (truncate_lem (log_bytes fs) behind) refl)
