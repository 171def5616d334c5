-- ===== src/Fraud/Pruning.antt =====
-- `pruneExpiredEvents` of m3_graph_fraud.go forgets nothing that a later screening reads.
use mathlib.Core.Path.{subst}
use payment_risk_engine.Prelude.{
  ◌+◌, ◌≤◌, ◌≡◌, refl, sym, ap, ◌∙◌, inl, inr, arith, String, Bool-cases, Option, none, some, ltb,
  length, Int64,
}
use payment_risk_engine.Host.{Host}
use payment_risk_engine.Fraud.Graph.{
  Instant, prune_interval, TransactionEvent, GraphEngine, transfers_of, last_seen, recent_events,
  prune_expired_events, recent_transfer_count, recent_seen, distinct_device_count,
}
use payment_risk_engine.Fraud.Screening.{
  QrPayload, velocity_score, risk_score, prune_if_due, screen_graph, check_qr, verify_qr,
  generate_qr_signature, screen_transaction,
}
use payment_risk_engine.Fraud.Window.{recent-transfers_of, recent-last_seen, detect_cycle-engine}

-- The same as far as a screening at that time can tell.
pub record LooksLike (now : Instant) (g g' : GraphEngine) : Type 0 where
  pub transfers :
      (account : String)
      → recent_events now (transfers_of account g') ≡ recent_events now (transfers_of account g)
  pub devices :
      (account : String)
      → recent_seen now (last_seen account g'.account_devices)
        ≡ recent_seen now (last_seen account g.account_devices)
  pub warn : g'.velocity_warn_threshold ≡ g.velocity_warn_threshold
  pub reject : g'.velocity_reject_threshold ≡ g.velocity_reject_threshold

risk_score-LooksLike :
    (now : Instant) (g g' : GraphEngine) (like : LooksLike now g g') (account : String)
    (amount : Int64)
    → risk_score
        (recent_transfer_count account now g')
        (distinct_device_count account now g')
        amount
        g'
      ≡ risk_score
          (recent_transfer_count account now g)
          (distinct_device_count account now g)
          amount
          g
unfolding risk_score velocity_score recent_transfer_count distinct_device_count
risk_score-LooksLike now g g' like account amount =
    rw (like.transfers account) (rw (like.devices account) (rw like.warn (rw like.reject refl)))

prune-LooksLike :
    (now later : Instant) (g : GraphEngine)
    → now ≤ later
    → LooksLike later g (prune_expired_events now g)
unfolding prune_expired_events
prune-LooksLike now later g h = record {
  transfers = λ account. recent-transfers_of now later h account g;
  devices = λ account. recent-last_seen now later h account g;
  warn = refl;
  reject = refl;
}

pub transfer_count-LooksLike :
    (now : Instant) (g g' : GraphEngine) (like : LooksLike now g g') (account : String)
    → recent_transfer_count account now g' ≡ recent_transfer_count account now g
unfolding recent_transfer_count
transfer_count-LooksLike now g g' like account = ap length (like.transfers account)

check_qr-prune :
    (host : Host) (now t : Instant) (qr : Option QrPayload) (g : GraphEngine)
    → check_qr host qr (record (prune_expired_events now g) { last_prune_time = t })
      ≡ check_qr host qr g
unfolding verify_qr generate_qr_signature prune_expired_events
check_qr-prune host now t none g = refl
check_qr-prune host now t (some qr) g = refl

screen_graph-LooksLike :
    (e : TransactionEvent) (g g' : GraphEngine)
    → LooksLike e.timestamp g g'
    → (screen_graph e g').0 ≡ (screen_graph e g).0
unfolding screen_graph
screen_graph-LooksLike e g g' like = ground (
  arith,
  detect_cycle-engine e.from_acc e.to_acc e.timestamp g g' like.transfers,
  risk_score-LooksLike e.timestamp g g' like e.from_acc e.amount,
  transfer_count-LooksLike e.timestamp g g' like e.from_acc,
)

LooksLike-trans :
    (now : Instant) (a b c : GraphEngine)
    → LooksLike now a b
    → LooksLike now b c
    → LooksLike now a c
LooksLike-trans now a b c p q = record {
  transfers = λ account. q.transfers account ∙ p.transfers account;
  devices = λ account. q.devices account ∙ p.devices account;
  warn = q.warn ∙ p.warn;
  reject = q.reject ∙ p.reject;
}

LooksLike-timed :
    (now t : Instant) (g g' : GraphEngine)
    → LooksLike now g g'
    → LooksLike now g (record g' { last_prune_time = t })
unfolding transfers_of
LooksLike-timed now t g g' p = record {
  transfers = p.transfers;
  devices = p.devices;
  warn = p.warn;
  reject = p.reject;
}

pub LooksLike-refl : (now : Instant) (g : GraphEngine) → LooksLike now g g
LooksLike-refl now g = record {
  transfers = λ account. refl;
  devices = λ account. refl;
  warn = refl;
  reject = refl;
}

pub prune_if_due-LooksLike :
    (now : Instant) (g : GraphEngine) → LooksLike now g (prune_if_due now g)
unfolding prune_if_due
prune_if_due-LooksLike now g = elim (Bool-cases (ltb (g.last_prune_time + prune_interval) now)) [
  | inl due ↦ subst (LooksLike now g) (sym (rw due refl)) (
      LooksLike-timed now now g (prune_expired_events now g)
        (prune-LooksLike now now g (omega arith)))
  | inr early ↦ subst (LooksLike now g) (sym (rw early refl)) (LooksLike-refl now g)
]

-- Pruning is not observable: whenever the engine was pruned before, and whenever it takes the last
-- pruning to have been, a screening decides the same.
pub screen_transaction-prune :
    (host : Host) (now t : Instant) (e : TransactionEvent) (qr : Option QrPayload) (g : GraphEngine)
    → now ≤ e.timestamp
    → (screen_transaction host e qr (record (prune_expired_events now g) { last_prune_time = t })).0
      ≡ (screen_transaction host e qr g).0
unfolding screen_transaction
screen_transaction-prune host now t e qr g h =
    let g1 : GraphEngine = record (prune_expired_events now g) { last_prune_time = t } in
    let at = e.timestamp in
    let pruned = LooksLike-timed at t g (prune_expired_events now g) (prune-LooksLike now at g h) in
    let both =
      screen_graph-LooksLike e g (prune_if_due at g1)
        (LooksLike-trans at g g1 (prune_if_due at g1) pruned (prune_if_due-LooksLike at g1)) in
    let once = screen_graph-LooksLike e g (prune_if_due at g) (prune_if_due-LooksLike at g) in
    ground (arith, check_qr-prune host now t qr g, both, once)
