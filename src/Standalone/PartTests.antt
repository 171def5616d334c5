-- ===== src/Standalone/PartTests.antt =====
-- The theorems about single parts of fs2601_all_in_one.go at concrete inputs.
use payment_risk_engine.Prelude.{
  insert, lookup, ◌≡◌, ℕ, refl, arith, none, some, [], ◌∷◌, length, String, ◌==◌, eqb,
  if◌then◌else◌, ◌↔◌, Int64, All, inl, inr, lt64,
}
use mathlib.Core.List.{Perm}
use mathlib.Core.List.Perm
use payment_risk_engine.Host.{Host}
use payment_risk_engine.Fraud.{replicate}
use payment_risk_engine.Standalone.{
  ConservingLedger, new_conserving_ledger, create_account, direct_commit, account_deficit_reserve,
  ends, QueuedTx, goes_before, sort_queue, replay, new_graph_engine, register_terminal_key, screen,
  check_qr, tampered, generate_qr,
}
use payment_risk_engine.Standalone.Balanced.{
  AllBalanced, here, next, create, direct, Run-AllBalanced,
}
use payment_risk_engine.Standalone.Ordering.{sort_queue_ascends}
use payment_risk_engine.Standalone.Velocity.{IsBounded, screen-IsBounded}
use payment_risk_engine.Standalone.Generated.{generated_code_binds}
use payment_risk_engine.Standalone.Existing.{Payable}
use payment_risk_engine.Standalone.Replaying.{replay_ends_iff}

abbrev host : Host
host = record {
  sha256 = λ text. [];
  hex_encode = λ bytes. "seal";
  hex_decode = λ text. some (replicate 64 7);
  sign = λ key message. replicate 64 7;
  hmac_sha256 = λ key message. [];
  verify = λ key message sig. eqb (length sig) 64;
}

abbrev book : ConservingLedger
book =
    (direct_commit 3 "alice" account_deficit_reserve 30 "t"
      (create_account 2 "alice" 50 (new_conserving_ledger 1))).1

Run-AllBalanced_example : AllBalanced book
Run-AllBalanced_example = Run-AllBalanced 1 (
    next (next here (create 2 "alice" 50 (omega arith)))
      (direct 3 "alice" account_deficit_reserve 30 "t"))

abbrev sale : String → ℕ → QueuedTx
sale id n = record {
  tx_id = id;
  account_id = "alice";
  merchant_id = "shop";
  terminal_id = "";
  amount = 5;
  seq_no = n;
  vector_clock = [];
  client_timestamp = 7;
  status = "PENDING";
}

replay_ends_iff_example :
    ((r : Int64 × Int64 × ConservingLedger) × (replay 4 (sale "a" 1 ∷ []) book ≡ ends r))
    ↔ All (Payable book) (sale "a" 1 ∷ [])
replay_ends_iff_example = replay_ends_iff 4 (sale "a" 1 ∷ []) book

screen-IsBounded_example : IsBounded (screen host 5 "alice" "shop" none new_graph_engine).1
screen-IsBounded_example = screen-IsBounded 5 "alice" "shop" host none new_graph_engine tt

generated_code_binds_example :
    check_qr host 95000000000
      (some (generate_qr host [] 90000000000 []))
      "thief"
      (register_terminal_key "TERM-001" [] new_graph_engine)
    ≡ (if "MERCHANT-POS-01" == "thief" then none else some tampered)
unfolding lookup register_terminal_key insert
generated_code_binds_example =
    generated_code_binds host [] [] []
      (record { decodes = λ message. refl; sized = λ message. refl; verifies = λ message. refl })
      90000000000 95000000000 (register_terminal_key "TERM-001" [] new_graph_engine) refl
      (omega arith) (omega arith) (omega arith) "thief"

abbrev late : QueuedTx
late = sale "b" 2

abbrev early : QueuedTx
early = sale "a" 1

-- With the number of `early` and a later time.
abbrev middle : QueuedTx
middle = record early { tx_id = "0"; client_timestamp = 8 }

in_order : Perm (early ∷ middle ∷ late ∷ []) (late ∷ middle ∷ early ∷ [])
in_order =
    Perm.trans (Perm.cons early (Perm.swap late middle []))
      (Perm.trans (Perm.swap late early (middle ∷ [])) (Perm.cons late (Perm.swap middle early [])))

sort_queue_ascends_example :
    (sort_queue (late ∷ middle ∷ early ∷ []) ≡ early ∷ middle ∷ late ∷ [])
    × (early ∷ middle ∷ late ∷ [] ≡ early ∷ middle ∷ late ∷ [])
unfolding goes_before lt64
sort_queue_ascends_example =
    sort_queue_ascends (late ∷ middle ∷ early ∷ []) (early ∷ middle ∷ late ∷ [])
      (early ∷ middle ∷ late ∷ []) (omega arith, (omega arith, (omega arith, tt))) in_order
      (
        (inr (refl, inl (omega arith)), (inl (omega arith), tt)),
        ((inl (omega arith), tt), (tt, tt)),
      )
      in_order ((refl, (refl, tt)), ((refl, tt), (tt, tt)))
