-- ===== src/Fraud/Filter.antt =====
-- `CompactFilter` of compact_filter.go, a cuckoo filter. An index that the array does not have is a
-- panic in Go, and `none` here.
use Prim.Native.Nat.{bit_xor, bit_and}
use Prim.Native.Char.{code}
use payment_risk_engine.Prelude.{
  ℕ, zero, suc, ◌+◌, ◌-◌, ◌*◌, ◌/◌, ◌%◌, ◌^◌, String, Bool, true, false, ◌||◌, List, [], ◌∷◌, ◌++◌,
  Option, none, some, eqb, ltb, if◌then◌else◌,
}
use payment_risk_engine.Host.{Bytes}

-- `[BucketSize]uint16`; 0 is a free slot.
abbrev pub Bucket : Type 0
Bucket = List ℕ

abbrev pub bucket_size : ℕ
bucket_size = 4

abbrev pub max_kicks : ℕ
max_kicks = 500

pub record CompactFilter : Type 0 where
  pub buckets : List Bucket
  pub num_buckets : ℕ  -- uint32
  pub count : ℕ  -- uint32

abbrev pub empty_bucket : Bucket
empty_bucket = 0 ∷ 0 ∷ 0 ∷ 0 ∷ []

abbrev pub replicate {ℓ} : {A : Type ℓ} → ℕ → A → List A
replicate zero x = []
replicate (suc n) x = x ∷ replicate n x

-- The loop `for n < target { n <<= 1 }` on a uint32, on fuel: after 32 rounds it stands still.
unfoldable pub grow : ℕ → ℕ → ℕ → ℕ
grow zero n target = n
grow (suc fuel) n target =
    let more = grow fuel (n * 2 % 2 ^ 32) target in if ltb n target then more else n

-- `NewCompactFilter`, of a capacity that is not negative.
unfoldable pub new_compact_filter : ℕ → CompactFilter
unfolding grow
new_compact_filter expected =
    let capacity = if ltb expected 256 then 256 else expected in
    let n = grow 33 1 (capacity / bucket_size % 2 ^ 32) * 2 % 2 ^ 32 in
    record { buckets = replicate n empty_bucket; num_buckets = n; count = 0 }

-- The bytes of a string, in UTF-8.
abbrev pub utf8_char : ℕ → Bytes
utf8_char c =
    if ltb c 0x80
    then c ∷ []
    else if ltb c 0x800
    then (0xc0 + c / 64) ∷ (0x80 + c % 64) ∷ []
    else if ltb c 0x10000
    then (0xe0 + c / 4096) ∷ (0x80 + c / 64 % 64) ∷ (0x80 + c % 64) ∷ []
    else (0xf0 + c / 262144) ∷ (0x80 + c / 4096 % 64) ∷ (0x80 + c / 64 % 64) ∷ (0x80 + c % 64) ∷ []

abbrev pub utf8 : String → Bytes
utf8 (String.[]) = []
utf8 (String.◌∷◌ c s) = utf8_char (code c) ++ utf8 s

abbrev fnv : ℕ → Bytes → ℕ
fnv h [] = h
fnv h (b ∷ bs) = fnv (bit_xor h b * 1099511628211 % 2 ^ 64) bs

-- `hash64`, the FNV-1a hash of a string.
unfoldable pub hash64 : String → ℕ
hash64 s = fnv 14695981039346656037 (utf8 s)

unfoldable pub fingerprint : ℕ → ℕ
fingerprint h = if eqb (h % 2 ^ 16) 0 then 1 else h % 2 ^ 16

-- `hashFingerprint`: x is a uint32.
unfoldable pub hash_fingerprint : ℕ → ℕ
hash_fingerprint fp =
    let x1 = fp * 0x85ebca6b % 2 ^ 32 in
    let x2 = bit_xor x1 (x1 / 2 ^ 13) in
    let x3 = x2 * 0xc2b2ae35 % 2 ^ 32 in bit_xor x3 (x3 / 2 ^ 16)

-- `i & (cf.numBuckets - 1)`, on uint32: with no buckets the mask has all its bits.
unfoldable pub masked : CompactFilter → ℕ → ℕ
masked cf i = bit_and i ((cf.num_buckets + (2 ^ 32 - 1)) % 2 ^ 32)

-- The two buckets of a key.
unfoldable pub first_index : CompactFilter → ℕ → ℕ
first_index cf h = masked cf (h / 2 ^ 16 % 2 ^ 32)

unfoldable pub alternate : CompactFilter → ℕ → ℕ → ℕ
alternate cf i fp = masked cf (bit_xor i (hash_fingerprint fp))

abbrev pub get_elem? {ℓ} : {A : Type ℓ} → List A → ℕ → Option A
get_elem? [] n = none
get_elem? (x ∷ xs) zero = some x
get_elem? (x ∷ xs) (suc n) = get_elem? xs n

abbrev pub set {ℓ} : {A : Type ℓ} → List A → ℕ → A → List A
set [] n y = []
set (x ∷ xs) zero y = y ∷ xs
set (x ∷ xs) (suc n) y = x ∷ set xs n y

-- The first free slot takes the fingerprint; `none` where there is none.
unfoldable pub fill : Bucket → ℕ → Option Bucket
fill [] fp = none
fill (s ∷ slots) fp =
    let rest = fill slots fp in
    if eqb s 0 then some (fp ∷ slots) else elim rest [ none ↦ none | some more ↦ some (s ∷ more) ]

-- `insertIntoBucket`: whether the fingerprint found a slot, and the filter then.
unfoldable pub insert_into_bucket : ℕ → ℕ → CompactFilter → Option (Bool × CompactFilter)
unfolding fill
insert_into_bucket i fp cf = elim (get_elem? cf.buckets i) [
  | none ↦ none
  | some bucket ↦ elim (fill bucket fp) [
    | none ↦ some (false, cf)
    | some filled ↦ some (true, record cf { buckets = set cf.buckets i filled })
  ]
]

abbrev pub counted : CompactFilter → CompactFilter
counted cf = record cf { count = (cf.count + 1) % 2 ^ 32 }

-- The displacement loop; `slots` are the draws of `rand.Intn(BucketSize)`, one for each round.
unfoldable pub kick : List ℕ → ℕ → ℕ → CompactFilter → Option (Bool × CompactFilter)
kick [] i fp cf = some (false, cf)
kick (slot ∷ slots) i fp cf = elim (get_elem? cf.buckets i) [
  | none ↦ none
  | some bucket ↦ elim (get_elem? bucket slot) [
    | none ↦ none
    | some victim ↦
        let swapped = record cf { buckets = set cf.buckets i (set bucket slot fp) } in
        let next = alternate cf i victim in
        elim (insert_into_bucket next victim swapped) [
          | none ↦ none
          | some (true, done) ↦ some (true, counted done)
          | some (false, full) ↦ kick slots next victim full
        ]
  ]
]

-- `Insert`. The coin says whether the displacement starts at the second bucket.
unfoldable pub insert_key : Bool → List ℕ → String → CompactFilter → Option (Bool × CompactFilter)
unfolding kick
insert_key coin slots key cf =
    let h = hash64 key in
    let fp = fingerprint h in
    let i1 = first_index cf h in
    let i2 = alternate cf i1 fp in
    elim (insert_into_bucket i1 fp cf) [
      | none ↦ none
      | some (true, done) ↦ some (true, counted done)
      | some (false, full) ↦ elim (insert_into_bucket i2 fp full) [
        | none ↦ none
        | some (true, done) ↦ some (true, counted done)
        | some (false, fuller) ↦ kick slots (if coin then i2 else i1) fp fuller
      ]
    ]

abbrev pub has : Bucket → ℕ → Bool
has [] fp = false
has (s ∷ slots) fp = eqb s fp || has slots fp

-- `Contains`
unfoldable pub contains : String → CompactFilter → Option Bool
contains key cf =
    let h = hash64 key in
    let fp = fingerprint h in
    let i1 = first_index cf h in
    let i2 = alternate cf i1 fp in
    elim (get_elem? cf.buckets i1) [
      | none ↦ none
      | some b1 ↦ elim (get_elem? cf.buckets i2) [
        | none ↦ none
        | some b2 ↦ some (has b1 fp || has b2 fp)
      ]
    ]
