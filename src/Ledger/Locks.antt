-- ===== src/Ledger/Locks.antt =====
-- The order in which the calls of m2_conserving.go lock accounts, and who can wait for whom.
-- A goroutine holds the locks that it has taken until its call returns, so it waits for the second
-- account of its list while it holds the first.
use payment_risk_engine.Prelude.{
  String, ◌≡◌, refl, Int64, true, [], ◌∷◌, List, ◌⊎◌, inl, inr, arith, if◌then◌else◌, str_lt,
  str_lt_irrefl, str_lt_trans,
}
use payment_risk_engine.Ledger.Types.{ConservingLedger}
use payment_risk_engine.Ledger.Requests.{
  Request, create, fund, allocate, commit_offline, reserve, commit, direct, release, debit_reserve,
  overdraw,
}

-- "Lock in consistent order to prevent deadlocks": the smaller id first, one lock for one account.
unfoldable pub lock_pair : String → String → List String
lock_pair a b = if str_lt a b then a ∷ b ∷ [] else if str_lt b a then b ∷ a ∷ [] else a ∷ []

-- The account locks that a call takes, first to last. The two deficit bookings lock in the order of
-- their arguments.
unfoldable pub acquires : Request → ConservingLedger → List String
unfolding lock_pair
acquires (create id x) l = []
acquires (fund id x) l = id ∷ []
acquires (allocate id x) l = id ∷ []
acquires (commit_offline id dest x tx) l = lock_pair id dest
acquires (reserve id x tx) l = id ∷ []
acquires (commit id dest x tx) l = lock_pair id dest
acquires (direct id dest x tx) l = lock_pair id dest
acquires (release id x tx) l = id ∷ []
acquires (debit_reserve merchant x tx) l = l.deficit_reserve_account_id ∷ merchant ∷ []
acquires (overdraw id dest x tx) l = id ∷ dest ∷ []

-- A chain of waits among the calls in flight: somebody who holds `a` waits, through others perhaps,
-- for `b`. A deadlock is a chain from a lock to itself.
pub data Waits (l : ConservingLedger) (InFlight : Request → Type 0) : String → String → Type 0 where
  link :
      {a b : String} (r : Request) → InFlight r → acquires r l ≡ a ∷ b ∷ [] → Waits l InFlight a b
  join : {a b c : String} → Waits l InFlight a b → Waits l InFlight b c → Waits l InFlight a c

abbrev pub IsOrdered : Request → Type 0
IsOrdered (debit_reserve merchant x tx) = ⊥
IsOrdered (overdraw id dest x tx) = ⊥
IsOrdered r = Unit

lock_pair_ascends : (p q : String) {a b : String} → lock_pair p q ≡ a ∷ b ∷ [] → str_lt a b ≡ true
unfolding lock_pair
lock_pair_ascends p q h = ground arith

acquires_ascends :
    (r : Request) (l : ConservingLedger) {a b : String}
    → IsOrdered r
    → acquires r l ≡ a ∷ b ∷ []
    → str_lt a b ≡ true
unfolding acquires
acquires_ascends (commit_offline id dest x tx) l o h = lock_pair_ascends id dest h
acquires_ascends (commit id dest x tx) l o h = lock_pair_ascends id dest h
acquires_ascends (direct id dest x tx) l o h = lock_pair_ascends id dest h
acquires_ascends (debit_reserve merchant x tx) l o h = absurd o
acquires_ascends (overdraw id dest x tx) l o h = absurd o
acquires_ascends r l o h = cc

Waits-ascends :
    (l : ConservingLedger) (InFlight : Request → Type 0)
    → ((r : Request) → InFlight r → IsOrdered r)
    → {a b : String} → Waits l InFlight a b
    → str_lt a b ≡ true
Waits-ascends l P ordered (link r p e) = acquires_ascends r l (ordered r p) e
Waits-ascends l P ordered (join {a} {b} {c} v w) =
    str_lt_trans a b c (Waits-ascends l P ordered v) (Waits-ascends l P ordered w)

-- Whatever set of calls is in flight, if none is a deficit booking then no chain of waits comes
-- back to where it began: those calls cannot deadlock.
pub ordered_no_deadlock :
    (l : ConservingLedger) (InFlight : Request → Type 0)
    → ((r : Request) → InFlight r → IsOrdered r)
    → (a : String) → ¬ Waits l InFlight a a
ordered_no_deadlock l P ordered a w = cc (Waits-ascends l P ordered w, str_lt_irrefl a)

-- Two legacy overdrafts in opposite directions can wait for one another, between any two accounts.
pub overdraw_deadlock :
    (l : ConservingLedger) (a b : String) (x y : Int64) (t u : String)
    → Waits l (λ r. (r ≡ overdraw a b x t) ⊎ (r ≡ overdraw b a y u)) a a
unfolding acquires
overdraw_deadlock l a b x y t u =
    join (link (overdraw a b x t) (inl refl) refl) (link (overdraw b a y u) (inr refl) refl)
