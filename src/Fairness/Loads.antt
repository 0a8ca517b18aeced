-- ===== src/Fairness/Loads.antt =====
-- `Loads` and `queue_victim` of src/admission_fairness.rs. The classification of an entry (its owner,
-- priority and stream) is given by functions.
use sedsnet.Base.{
  length, set, get_elem?, usize_max, position, sat_add, any, leb, not, ltb, Bool, ℕ, List, Option,
  if◌then◌else◌, ◌==◌, ◌||◌, ◌&&◌, ◌++◌, ◌+◌, false, true, ◌∷◌, [], some, none,
}
use sedsnet.Queue.Batch.{checked_sub}
use sedsnet.TimeSync.Rank.{best_of}
use sedsnet.Queue.Ring.{Deque, ByteCost}

pub record Load : Type 0 where
  pub sender : ℕ
  pub bytes : ℕ
  pub count : ℕ

-- `peers` has the used part of the array, whose slots behind it are unused since the start.
pub record Loads : Type 0 where
  pub peers : List Load
  pub overflow : Bool

abbrev pub catalog_len : ℕ
catalog_len = 32

abbrev pub no_loads : Loads
no_loads = record { peers = []; overflow = false }

abbrev pub grown : ℕ → Load → Load
grown bytes p = record p { bytes = sat_add usize_max p.bytes bytes; count = p.count + 1 }

unfoldable pub record_load : ℕ → ℕ → Loads → Loads
record_load sender bytes l = elim (position (λ p. p.sender == sender) l.peers) [
  | some index ↦ elim (get_elem? l.peers index) [
    | none ↦ l
    | some p ↦ record l { peers = set l.peers index (grown bytes p) }
  ]
  | none ↦ if length l.peers == catalog_len then record l { overflow = true } else record l {
    peers = l.peers ++ grown bytes (record { sender = sender; bytes = 0; count = 0 }) ∷ [];
  }
]

-- `filter(fits).max_by_key(|p| p.bytes)`, which answers the last of the greatest ones.
unfoldable pub heaviest : (Load → Bool) → Option Load → List Load → Option Load
heaviest fits best [] = best
heaviest fits best (p ∷ ps) =
    heaviest fits
      (if not (fits p)
        then best
        else elim best [ none ↦ some p | some b ↦ if leb b.bytes p.bytes then some p else some b ])
      ps

abbrev pub repeated : Load → Bool
repeated p = ltb 1 p.count

unfoldable pub dominant : Option ℕ → Loads → Option ℕ
unfolding heaviest
dominant incoming l =
    let own : Option ℕ = elim incoming [
      | none ↦ none
      | some source ↦ if any (λ p. p.sender == source) l.peers then some source else none
    ] in
    if l.overflow
    then none
    else elim (heaviest repeated none l.peers) [ none ↦ own | some p ↦ some p.sender ]

-- `bytes` of the incoming sender, 0 without a record of it.
abbrev pub bytes_of : ℕ → List Load → ℕ
bytes_of sender ps = elim (position (λ p. p.sender == sender) ps) [
  | none ↦ 0
  | some i ↦ elim (get_elem? ps i) [ none ↦ 0 | some p ↦ p.bytes ]
]

unfoldable pub dominant_other : ℕ → Loads → Option ℕ
unfolding heaviest
dominant_other incoming l =
    let own = bytes_of incoming l.peers in
    if l.overflow
    then none
    else elim (heaviest (λ p. not (p.sender == incoming) && ltb 1 p.count && ltb own p.bytes) none
        l.peers) [ none ↦ none | some p ↦ some p.sender ]

abbrev pub is_owner : Option ℕ → ℕ → Bool
is_owner none n = false
is_owner (some m) n = m == n

module _ {ℓ} {T : Type ℓ} ⦃b : ByteCost T⦄ (owner stream : T → Option ℕ) (priority : T → ℕ) where
  -- The loop that records what `of` finds among the entries that pass the test.
  unfoldable pub record_all : (T → Option ℕ) → (T → Bool) → List T → Loads → Loads
  record_all of passes [] l = l
  record_all of passes (x ∷ xs) l = record_all of passes xs (
      if passes x
      then elim (of x) [ none ↦ l | some key ↦ record_load key (b.byte_cost x) l ]
      else l)

  abbrev pub enumerate : ℕ → List T → List (ℕ × T)
  enumerate i [] = []
  enumerate i (x ∷ xs) = (i, x) ∷ enumerate (i + 1) xs

  -- `min_by_key(|(index, item)| (priority(item), *index))`
  abbrev pub before : ℕ × T → ℕ × T → Bool
  before (i, x) (j, y) = ltb (priority x) (priority y) || ((priority x == priority y) && ltb i j)

  abbrev pub below : ℕ → ℕ → T → Bool
  below limit victim x = leb (priority x) limit && is_owner (owner x) victim

  abbrev pub in_stream : Option ℕ → T → Bool
  in_stream none x = true
  in_stream (some ty) x = is_owner (stream x) ty

  -- The end of `queue_victim`, once the owner that gives way is known.
  unfoldable pub victim_of_owner : ℕ → ℕ → ℕ → T → Deque T → Option ℕ
  unfolding record_all
  victim_of_owner limit incoming_owner victim incoming d =
      let streams = record_all stream (below limit victim) d.q no_loads in
      let own : Option ℕ = if victim == incoming_owner then stream incoming else none in
      let chosen = dominant own streams in
      elim (best_of before (λ e. below limit victim e.1 && in_stream chosen e.1) none
        (enumerate 0 d.q)) [ none ↦ none | some e ↦ some e.0 ]

  -- `none` for `queue.len().checked_sub(1)` of an empty queue. The second part is `selected`.
  unfoldable pub queue_victim : T → Option ℕ → Deque T → Option ℕ × Option ℕ
  unfolding record_all victim_of_owner
  queue_victim incoming selected d = elim (owner incoming) [
    | none ↦ (checked_sub (length d.q) 1, selected)
    | some incoming_owner ↦
        let limit = priority incoming in
        let loads = record_all owner (λ x. leb (priority x) limit) d.q no_loads in
        let chosen : Option ℕ = elim selected [
          | some victim ↦ some victim
          | none ↦ dominant (some incoming_owner) loads
        ] in
        elim chosen [
          | none ↦ (none, selected)
          | some victim ↦ (victim_of_owner limit incoming_owner victim incoming d, some victim)
        ]
  ]
