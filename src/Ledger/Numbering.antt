-- ===== src/Ledger/Numbering.antt =====
-- `appendEntry` of m2_conserving.go under concurrent calls: the number of an entry is taken before
-- the lock of the entries is, so that other calls come in between.
use mathlib.Core.Path.{subst}
use mathlib.Core.List.{Perm, append_assoc, perm_middle}
use mathlib.Core.List.Perm
use payment_risk_engine.Prelude.{
  ℕ, zero, suc, ◌+◌, ◌%◌, ◌≡◌, refl, sym, arith, [], ◌∷◌, ◌++◌, List, map, Int64, word, add64,
}
use payment_risk_engine.Ledger.Types.{Time, LedgerEntry, ConservingLedger}
use payment_risk_engine.Ledger.Accounts.{take_number, push_entry}
use payment_risk_engine.Ledger.Requests.{Request, perform, after}
use payment_risk_engine.Ledger.Journal.{perform-Keeps}

-- The ledger, and the entries that have their number and are not in the journal yet.
pub record Journal : Type 0 where
  pub ledger : ConservingLedger
  pub taken : List LedgerEntry

pub data Step (j : Journal) : Journal → Type 0 where
  -- A call numbers its entry.
  take :
      (e : LedgerEntry)
      → Step j (record {
        ledger = (take_number e j.ledger).1;
        taken = (take_number e j.ledger).0 ∷ j.taken;
      })
  -- A call appends the entry that it has numbered, whenever it was.
  push :
      (earlier later : List LedgerEntry) (e : LedgerEntry)
      → j.taken ≡ earlier ++ e ∷ later
      → Step j (record { ledger = push_entry e j.ledger; taken = earlier ++ later })
  -- A call changes accounts, reservations or names.
  change :
      (l : ConservingLedger)
      → l.entries ≡ j.ledger.entries
      → l.entry_counter ≡ j.ledger.entry_counter
      → Step j (record j { ledger = l })
  -- A whole call that meets no other one in `appendEntry`.
  whole :
      (now : Time) (r : Request)
      → Step j (record j { ledger = after j.ledger (perform now r j.ledger) })

pub data Reach (j : Journal) : Journal → Type 0 where
  here : Reach j j
  next : {k m : Journal} → Reach j k → Step k m → Reach j m

-- The first n numbers that the counter gives, from the last one.
abbrev pub numbers : ℕ → List Int64
numbers zero = []
numbers (suc n) = ((n + 1) % word) ∷ numbers n

abbrev pub ids : List LedgerEntry → List Int64
ids es = map (λ e. e.entry_id) es

-- Of the entries `es`, in the journal or on the way there, none has the number of another, and none
-- of the numbers issued is missing.
pub record IsComplete (es : List LedgerEntry) (counter : Int64) : Type 0 where
  pub issued : ℕ
  pub counted : counter ≡ issued % word
  pub numbered : Perm (ids es) (numbers issued)

IsComplete-perm :
    (es fs : List LedgerEntry) (c : Int64) → Perm fs es → IsComplete es c → IsComplete fs c
IsComplete-perm es fs c p h = record {
  issued = h.issued;
  counted = h.counted;
  numbered = Perm.trans (Perm.map (λ e. e.entry_id) p) h.numbered;
}

IsComplete-take :
    (e : LedgerEntry) (es : List LedgerEntry) (c : Int64)
    → IsComplete es c
    → IsComplete (record e { entry_id = add64 c 1 } ∷ es) (add64 c 1)
IsComplete-take e es c h = record {
  issued = suc h.issued;
  counted = omega (arith, h.counted);
  numbered = Perm.cons' (omega (arith, h.counted)) h.numbered;
}

-- An entry at the end of the journal, or at the head of those on the way.
moved :
    (e : LedgerEntry) (es earlier later : List LedgerEntry)
    → Perm (es ++ e ∷ [] ++ (earlier ++ later)) (es ++ (earlier ++ e ∷ later))
moved e es earlier later =
    subst (λ fs. Perm fs (es ++ (earlier ++ e ∷ later)))
      (sym (append_assoc es (e ∷ []) (earlier ++ later)))
      (Perm.append_left es (Perm.symm (perm_middle earlier later)))

Step-IsComplete :
    {j k : Journal}
    → Step j k
    → IsComplete (j.ledger.entries ++ j.taken) j.ledger.entry_counter
    → IsComplete (k.ledger.entries ++ k.taken) k.ledger.entry_counter
Step-IsComplete {j} (take e) h =
    IsComplete-perm _ _ _ (perm_middle j.ledger.entries j.taken) (IsComplete-take e _ _ h)
Step-IsComplete {j} (push earlier later e at) h =
    IsComplete-perm _ _ _ (moved e j.ledger.entries earlier later) (rw at at h)
Step-IsComplete {j} (change l same counted) h = rw (same, counted) h
Step-IsComplete {j} (whole now r) h =
    (perform-Keeps (λ es c. IsComplete (es ++ j.taken) c)
      (λ e es c k.
        IsComplete-perm _ _ _
          (Perm.trans (moved (record e { entry_id = add64 c 1 }) es [] j.taken)
            (perm_middle es j.taken))
          (IsComplete-take e _ _ k))
      now r j.ledger (record { kept = h })).kept

-- From an empty journal whose counter is 0, however the appends of concurrent calls interleave: the
-- entries in the journal and those that are numbered and not appended yet have together exactly the
-- numbers that the counter has issued, each once, in whatever order.
pub Reach-IsComplete :
    (l : ConservingLedger)
    → l.entries ≡ []
    → l.entry_counter ≡ 0
    → {j : Journal} → Reach (record { ledger = l; taken = [] }) j
    → IsComplete (j.ledger.entries ++ j.taken) j.ledger.entry_counter
Reach-IsComplete l none_yet unused here =
    rw (none_yet, unused) (record { issued = 0; counted = refl; numbered = Perm.rfl })
Reach-IsComplete l none_yet unused (next r st) =
    Step-IsComplete st (Reach-IsComplete l none_yet unused r)
