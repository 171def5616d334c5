-- ===== src/Edge/Allowance.antt =====
-- The allowance of an offline token over a sequence of `AuthorizeOffline` calls (m4_offline_auth.go).
use payment_risk_engine.Prelude.{
  ℕ, ◌+◌, ◌≤◌, ◌<◌, ◌≡◌, refl, ap, ◌∙◌, arith, inl, inr, Bool, true, false, ◌&&◌, none, some, List,
  [], ◌∷◌, All, String, ◌==◌, eq_iff, Option-cases, Int64, IsNonneg, half_word, add64, lt64,
  lookup-insert, if◌then◌else◌,
}
use payment_risk_engine.Host.{Host}
use payment_risk_engine.Edge.Token.{OfflineAuthorizationToken}
use payment_risk_engine.Edge.Authorizer.{
  EdgeAuthorizer, OfflineAuthDecision, spent, spend, approval, authorize_offline,
}
use payment_risk_engine.Edge.Granting.{IsGenuine, authorize_offline-cases}

pub record Attempt : Type 0 where
  pub now : Int64
  pub token : OfflineAuthorizationToken
  pub amount : Int64

-- Whether a call approves, and the authorizer after it; a panic is no approval.
unfoldable pub answer : Host → Attempt → EdgeAuthorizer → Bool × EdgeAuthorizer
answer host a ea = elim (authorize_offline host a.now a.token a.amount ea) [
  | none ↦ (false, ea)
  | some (d, next) ↦ (d.approved, next)
]

abbrev pub session : Host → List Attempt → EdgeAuthorizer → EdgeAuthorizer
session host [] ea = ea
session host (a ∷ more) ea = session host more (answer host a ea).1

-- What a call approves under a token id.
abbrev pub charge : Host → String → Attempt → EdgeAuthorizer → ℕ
charge host id a ea = if (answer host a ea).0 && (a.token.token_id == id) then a.amount else 0

abbrev pub approved_total : Host → String → List Attempt → EdgeAuthorizer → ℕ
approved_total host id [] ea = 0
approved_total host id (a ∷ more) ea =
    charge host id a ea + approved_total host id more (answer host a ea).1

-- An amount that is no negative number, on a token whose floor is in the ceiling of its id.
pub record IsFair (ceiling : String → ℕ) (a : Attempt) : Type 0 where
  pub amount_nonneg : IsNonneg a.amount
  pub floor_in_ceiling : a.token.max_floor_amount ≤ ceiling a.token.token_id

spent-spend :
    (id key : String) (amount : Int64) (ea : EdgeAuthorizer)
    → spent id (spend key amount ea)
      ≡ (if key == id then add64 (spent id ea) amount else spent id ea)
unfolding spent spend
spent-spend id key amount ea =
    ground
      (arith, lookup-insert key id (add64 (spent key ea) amount) ea.spent_by_token, eq_iff key id)

module _ (host : Host) (ceiling : String → ℕ)
    (roomy : (id : String) → ceiling id + 5000 < half_word) where
  -- What a genuine attempt is charged keeps in the ceiling.
  genuine_fits :
      (a : Attempt) (ea : EdgeAuthorizer)
      → IsFair ceiling a
      → spent a.token.token_id ea ≤ ceiling a.token.token_id
      → IsGenuine host a.now a.token a.amount ea
      → (add64 (spent a.token.token_id ea) a.amount ≡ spent a.token.token_id ea + a.amount)
        × (spent a.token.token_id ea + a.amount ≤ ceiling a.token.token_id)
  unfolding lt64
  genuine_fits a ea fair below g =
      let room = roomy a.token.token_id in
      let limit : a.amount ≤ 5000 = ground (arith, fair.amount_nonneg, g.in_limit) in
      let fits : spent a.token.token_id ea + a.amount ≤ a.token.max_floor_amount =
        ground (arith, limit, room, below, fair.floor_in_ceiling, g.in_allowance) in
      (omega (arith, limit, room, below), omega (arith, fits, fair.floor_in_ceiling))

  -- One call: what it charges is in the record of what was spent, and in the ceiling.
  answer_step :
      (id : String) (a : Attempt) (ea : EdgeAuthorizer)
      → IsFair ceiling a
      → ((key : String) → spent key ea ≤ ceiling key)
      → (spent id (answer host a ea).1 ≡ spent id ea + charge host id a ea)
        × (spent id ea + charge host id a ea ≤ ceiling id)
  unfolding answer
  answer_step id a ea fair below =
      elim (Option-cases (authorize_offline host a.now a.token a.amount ea)) [
        | inl bad ↦ ground (arith, bad, below id)
        | inr ((d, next), run) ↦ elim (authorize_offline-cases host a.now a.token a.amount ea run) [
          | inl (refused, same) ↦ ground (arith, run, refused, same, below id, ap (spent id) same)
          | inr (g, granted, after) ↦
              let fits = genuine_fits a ea fair (below a.token.token_id) g in
              let yes' : d.approved ≡ true =
                ap (λ (x : OfflineAuthDecision). x.approved) granted ∙ unfold approval in refl in
              ground (
                arith,
                run,
                yes',
                fits,
                below id,
                ap (spent id) after,
                spent-spend id a.token.token_id a.amount ea,
                eq_iff a.token.token_id id,
              )
        ]
      ]

  -- What is approved under a token in any sequence of calls keeps in its ceiling.
  pub approved_total_le :
      (id : String) (calls : List Attempt) (ea : EdgeAuthorizer)
      → All (IsFair ceiling) calls
      → ((key : String) → spent key ea ≤ ceiling key)
      → spent id ea + approved_total host id calls ea ≤ ceiling id
  approved_total_le id [] ea fair below = omega (arith, below id)
  approved_total_le id (a ∷ more) ea fair below =
      let next = (answer host a ea).1 in
      let kept =
        approved_total_le id more next fair.1
          (λ key. omega (arith, answer_step key a ea fair.0 below)) in
      omega (arith, kept, answer_step id a ea fair.0 below)
