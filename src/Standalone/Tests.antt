-- ===== src/Standalone/Tests.antt =====
-- A run of the program of fs2601_all_in_one.go, and the theorems about it at concrete inputs.
use payment_risk_engine.Prelude.Sorting.{insertion_sort, reversed_onto, sort_onto, sink}
use payment_risk_engine.Prelude.{
  adjust, insert, lt64, ◌≡◌, ◌+◌, ◌-◌, ◌*◌, ◌≤◌, refl, arith, none, some, Option, [], ◌∷◌, length,
  lookup, adjust, lt64, ◌==◌, not, eqb, word, sub64,
}
use payment_risk_engine.Host.{Host}
use payment_risk_engine.Fraud.{hash64, replicate}
use payment_risk_engine.Standalone.{
  allocated, alternate, append, fingerprint, first_index, hash_fingerprint, contains, cycle_score,
  pay_offline, pay_online, prune, replay, screen_graph, sort_queue, allocate_offline_allowance,
  create_account, new_conserving_ledger, ConservingLedger, audit_conservation, direct_commit,
  direct_transfer, ends, pending, new_graph_engine, screen, check_qr, Ambient, PayRequest,
  PaymentResponse, Gateway, new_compact_filter, process_payment, toggle_network, demo_ledger,
  map_reason_to_iso, code_approved, queued, panics, blocks, opened, pending_of, replay_each,
  commit_offline_allowance, customer_charge, deficit_delta, offline_charged, paid_in,
  debit_deficit_reserve,
}
use payment_risk_engine.Standalone.Payable.{IsPayable}
use payment_risk_engine.Standalone.Conserved.{started, paid, toggled, here, next, audit_conserved}
use payment_risk_engine.Standalone.Reconnecting.{whole_queue, toggle_network_again}
use payment_risk_engine.Standalone.Answered.{process_payment-codes}
use payment_risk_engine.Standalone.Unrecorded.{process_payment_unrecorded}
use payment_risk_engine.Standalone.Negative.{online_of, negative_payment_takes}

abbrev host : Host
host = record {
  sha256 = λ text. [];
  hex_encode = λ bytes. "seal";
  hex_decode = λ text. some (replicate 64 7);
  sign = λ key message. replicate 64 7;
  hmac_sha256 = λ key message. [];
  verify = λ key message sig. eqb (length sig) 64;
}

abbrev ambient : Ambient
ambient = record { host = host; marshal = λ tx. some (1 ∷ []); now = 90000000000; torn = none }

-- The write of the log fails after 3 bytes.
abbrev failing : Ambient
failing = record ambient { torn = some 3 }

abbrev request : PayRequest
request = record {
  tx_id = "t1";
  account_id = "ACC-BENCH-1";
  merchant_id = "MERCHANT-POS-01";
  amount_float = 4000;
  amount_int = none;
  dynamic_qr = none;
}

abbrev first : Gateway
first = started 1 new_graph_engine [] (new_compact_filter 4)

abbrev result : Gateway → Option (PaymentResponse × Gateway) → Gateway
result gw none = gw
result gw (some (resp, gw')) = gw'

abbrev answer_of : Option (PaymentResponse × Gateway) → PaymentResponse
answer_of (some (resp, gw)) = resp
answer_of none = record {
  tx_id = "";
  status = "";
  reason_code = "";
  iso8583 = "";
  amount = 0;
  account_id = "";
  fraud_score = 0;
  message = "";
  explanation = "";
}

-- An online payment, then a payment without a network.
abbrev second : Gateway
second = result first (process_payment ambient request first)

abbrev cut : Gateway
cut = record second { network = "DISCONNECTED" }

abbrev third : Gateway
third = result cut (process_payment ambient request cut)

first_paid :
    process_payment ambient request first
    ≡ some (answer_of (process_payment ambient request first), second)
unfolding process_payment
first_paid = refl

second_paid :
    process_payment ambient request cut
    ≡ some (answer_of (process_payment ambient request cut), third)
unfolding process_payment pay_offline contains pay_online screen check_qr screen_graph lookup prune
    cycle_score direct_commit demo_ledger allocate_offline_allowance create_account
    new_conserving_ledger insert lt64 adjust allocated new_compact_filter first_index hash64
    alternate hash_fingerprint fingerprint
second_paid = refl

audit_conserved_example : (audit_conservation third.ledger).0 ≡ 100100000
unfolding toggle_network
audit_conserved_example = audit_conserved 1 new_graph_engine [] (new_compact_filter 4) (
    next
      (next (next here (paid ambient request _ (omega arith) first_paid))
        (toggled 2 "DISCONNECTED" none refl))
      (paid ambient request _ (omega arith) second_paid))

process_payment-codes_example :
    ((answer_of (process_payment ambient request cut)).iso8583
      ≡ map_reason_to_iso (answer_of (process_payment ambient request cut)).reason_code)
    × (((answer_of (process_payment ambient request cut)).reason_code == code_approved)
        ≡ not ((answer_of (process_payment ambient request cut)).status == "DECLINED"))
process_payment-codes_example = process_payment-codes ambient request cut second_paid

process_payment_unrecorded_example :
    (resp : PaymentResponse) × (gw' : Gateway) × (process_payment failing request cut
      ≡ some (resp, gw'))
    × (resp.status ≡ "OFFLINE_AUTHORIZED")
    × (pending gw'.wal ≡ pending cut.wal)
unfolding contains process_payment pay_online screen check_qr screen_graph lookup prune cycle_score
    direct_commit demo_ledger allocate_offline_allowance create_account new_conserving_ledger insert
    lt64 adjust allocated new_compact_filter first_index hash64 alternate hash_fingerprint
    fingerprint append
process_payment_unrecorded_example =
    process_payment_unrecorded failing request cut refl refl refl refl

-- A log with one payment, of an account with an allowance.
abbrev waiting : Gateway
waiting = record first {
  ledger = record {
    accounts =
        ("bob", record (opened 1 "bob" 100) { offline_allowance = 80 })
        ∷ ("shop", opened 1 "shop" 0)
        ∷ [];
    entries = [];
    reservations = [];
  };
  wal = record {
    file = [];
    tx_map =
        (
          "q1",
          record (queued ambient request) { account_id = "bob"; merchant_id = "shop"; amount = 30 },
        )
        ∷ [];
    order = "q1" ∷ [];
    seq_gen = 1;
  };
}

abbrev settled_ledger : ConservingLedger
settled_ledger = elim (toggle_network 3 "RECONNECTED" waiting) [
  | ends (report, gw) ↦ gw.ledger
  | panics ↦ waiting.ledger
  | blocks ↦ waiting.ledger
]

reconnected_once :
    toggle_network 3 "RECONNECTED" waiting
    ≡ ends (some (1, 30), record waiting { network = "RECONNECTED"; ledger = settled_ledger })
unfolding toggle_network replay sort_queue insertion_sort reversed_onto sort_onto sink pending
    pending_of replay_each commit_offline_allowance customer_charge deficit_delta offline_charged
    paid_in lookup adjust lt64 debit_deficit_reserve
reconnected_once = refl

toggle_network_again_example :
    (some (1, 30) ≡ some (whole_queue waiting))
    × ((gw'' : Gateway) × (toggle_network 9 "RECONNECTED"
            (record waiting { network = "RECONNECTED"; ledger = settled_ledger })
          ≡ ends (some (1, 30), gw''))
        × (length settled_ledger.entries + 2 * length (pending waiting.wal)
            ≤ length gw''.ledger.entries))
toggle_network_again_example = toggle_network_again 3 9 waiting reconnected_once

payable : IsPayable "ACC-BENCH-1" "MERCHANT-POS-01" (demo_ledger 1)
unfolding lookup demo_ledger allocate_offline_allowance create_account new_conserving_ledger insert
    lt64 adjust
payable = record { payer = _; payee = _; has_payer = refl; has_payee = refl; apart = refl }

-- One cent is taken from a merchant who has none.
negative_payment_takes_example :
    (direct_commit 2 "ACC-BENCH-1" "MERCHANT-POS-01" (word - 1) "t9" (demo_ledger 1)
      ≡ (none, direct_transfer 2 "ACC-BENCH-1" "MERCHANT-POS-01" (word - 1) "t9" (demo_ledger 1)))
    × (online_of "ACC-BENCH-1"
          (direct_commit 2 "ACC-BENCH-1" "MERCHANT-POS-01" (word - 1) "t9" (demo_ledger 1)).1
        ≡ payable.payer.online_available + 1)
    × (online_of "MERCHANT-POS-01"
          (direct_commit 2 "ACC-BENCH-1" "MERCHANT-POS-01" (word - 1) "t9" (demo_ledger 1)).1
        ≡ sub64 payable.payee.online_available 1)
unfolding payable allocated
negative_payment_takes_example =
    negative_payment_takes 2 "ACC-BENCH-1" "MERCHANT-POS-01" 1 "t9" (demo_ledger 1) payable
      (omega arith) (omega arith) (omega arith)
