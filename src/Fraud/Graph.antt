-- ===== src/Fraud/Graph.antt =====
-- `InMemGraphFraudEngine` of m3_graph_fraud.go: its graph of transfers, the terminals, and pruning.
use payment_risk_engine.Prelude.{
  ℕ, ◌+◌, String, Bool, true, false, List, [], ◌∷◌, none, some, Map, lookup, insert, erase, ltb,
  length, Int64, if◌then◌else◌,
}
use payment_risk_engine.Host.{Bytes}

-- A `time.Time` in nanoseconds since 1970.
abbrev pub Instant : Type 0
Instant = ℕ

-- `SlidingWindowDuration`
abbrev pub sliding_window : Instant
sliding_window = 60000000000

abbrev pub prune_interval : Instant
prune_interval = 30000000000

pub record TransactionEvent : Type 0 where
  pub tx_id : String
  pub from_acc : String
  pub to_acc : String
  pub device_id : String
  pub merchant_id : String
  pub ip_address : String
  pub amount : Int64
  pub timestamp : Instant

pub record GraphEngine : Type 0 where
  pub secret_key : String
  pub terminal_to_merch : Map String
  pub terminal_pub_keys : Map Bytes
  pub account_transfers : Map (List TransactionEvent)
  pub account_devices : Map (Map Instant)
  pub account_ips : Map (Map Instant)
  pub last_prune_time : Instant
  pub velocity_warn_threshold : Int64
  pub velocity_reject_threshold : Int64

-- `NewInMemGraphFraudEngine`
unfoldable pub new_graph_engine : Instant → String → GraphEngine
new_graph_engine now secret = record {
  secret_key = secret;
  terminal_to_merch = [];
  terminal_pub_keys = [];
  account_transfers = [];
  account_devices = [];
  account_ips = [];
  last_prune_time = now;
  velocity_warn_threshold = 15;
  velocity_reject_threshold = 25;
}

-- `SetVelocityThresholds`
unfoldable pub set_velocity_thresholds : Int64 → Int64 → GraphEngine → GraphEngine
set_velocity_thresholds warn reject g = record g {
  velocity_warn_threshold = warn;
  velocity_reject_threshold = reject;
}

-- `RegisterTerminal`
unfoldable pub register_terminal : String → String → GraphEngine → GraphEngine
register_terminal terminal merchant g = record g {
  terminal_to_merch = insert terminal merchant g.terminal_to_merch;
}

-- `RegisterTerminalPubKey`
unfoldable pub register_terminal_pub_key : String → Bytes → GraphEngine → GraphEngine
register_terminal_pub_key terminal key g = record g {
  terminal_pub_keys = insert terminal key g.terminal_pub_keys;
}

-- `g.accountTransfers[account]`
unfoldable pub transfers_of : String → GraphEngine → List TransactionEvent
transfers_of account g = elim (lookup account g.account_transfers) [
  | none ↦ []
  | some events ↦ events
]

-- An inner map of `accountDevices` or `accountIPs`; a nil map reads as an empty one.
unfoldable pub last_seen : String → Map (Map Instant) → Map Instant
last_seen account m = elim (lookup account m) [ none ↦ [] | some seen ↦ seen ]

-- `t.After(cutoff)` and `t.Before(cutoff)`, where the cutoff is `now.Add(-SlidingWindowDuration)`.
abbrev pub is_recent : Instant → Instant → Bool
is_recent now t = ltb now (t + sliding_window)

abbrev pub is_stale : Instant → Instant → Bool
is_stale now t = ltb (t + sliding_window) now

unfoldable pub recent_events : Instant → List TransactionEvent → List TransactionEvent
recent_events now [] = []
recent_events now (e ∷ events) =
    let others = recent_events now events in
    if is_recent now e.timestamp then e ∷ others else others

unfoldable pub unstale : Instant → Map Instant → Map Instant
unstale now [] = []
unstale now (entry ∷ seen) =
    let others = unstale now seen in if is_stale now entry.1 then others else entry ∷ others

abbrev pub is_empty {ℓ} : {A : Type ℓ} → List A → Bool
is_empty [] = true
is_empty (x ∷ xs) = false

abbrev pub map_keys {ℓ} : {V : Type ℓ} → Map V → List String
map_keys [] = []
map_keys (entry ∷ m) = entry.0 ∷ map_keys m

-- One round of a loop of `pruneExpiredEvents` over a map: what is left under the key, if anything.
unfoldable pub prune_key {ℓ} :
    {A : Type ℓ} → (List A → List A) → String → Map (List A) → Map (List A)
prune_key keep key m = elim (lookup key m) [
  | none ↦ m
  | some items ↦ if is_empty (keep items) then erase key m else insert key (keep items) m
]

unfoldable pub prune_keys {ℓ} :
    {A : Type ℓ} → (List A → List A) → List String → Map (List A) → Map (List A)
prune_keys keep [] m = m
prune_keys keep (key ∷ keys) m = prune_keys keep keys (prune_key keep key m)

-- `pruneExpiredEvents`
unfoldable pub prune_expired_events : Instant → GraphEngine → GraphEngine
prune_expired_events now g = record g {
  account_transfers =
      prune_keys (recent_events now) (map_keys g.account_transfers) g.account_transfers;
  account_devices = prune_keys (unstale now) (map_keys g.account_devices) g.account_devices;
  account_ips = prune_keys (unstale now) (map_keys g.account_ips) g.account_ips;
}

-- `getRecentTransferCount` and `getDistinctDeviceCount`
unfoldable pub recent_transfer_count : String → Instant → GraphEngine → ℕ
recent_transfer_count account now g = length (recent_events now (transfers_of account g))

unfoldable pub recent_seen : Instant → Map Instant → Map Instant
recent_seen now [] = []
recent_seen now (entry ∷ seen) =
    let others = recent_seen now seen in if is_recent now entry.1 then entry ∷ others else others

unfoldable pub distinct_device_count : String → Instant → GraphEngine → ℕ
distinct_device_count account now g = length (recent_seen now (last_seen account g.account_devices))

-- `ClearAccountHistory`
unfoldable pub clear_account_history : String → GraphEngine → GraphEngine
clear_account_history account g = record g {
  account_transfers = erase account g.account_transfers;
  account_devices = erase account g.account_devices;
  account_ips = erase account g.account_ips;
}

-- `Reset`
unfoldable pub reset : Instant → GraphEngine → GraphEngine
reset now g = record g {
  account_transfers = [];
  account_devices = [];
  account_ips = [];
  last_prune_time = now;
}
