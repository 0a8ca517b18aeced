-- ===== src/Side/Cursors.antt =====
-- `SideTxProgress` of src/side_transport.rs: how far the chunks of up to four transfers have been sent.
use sedsnet.Base.{
  not, ltb, ℕ, Option, List, Bool, if◌then◌else◌, ◌==◌, ◌||◌, ◌&&◌, ◌-◌, ◌+◌, false, true, ◌∷◌, [],
  some, none,
}
use sedsnet.Errors.{Result, io, err, ok, TelemetryError}

pub record SideTxCursor : Type 0 where
  pub history_dependent : Bool
  pub latest_owner : Bool
  pub key : ℕ
  pub next : ℕ
  pub last_progress_ms : ℕ

-- The four slots.
abbrev pub SideTxProgress : Type 0
SideTxProgress = List (Option SideTxCursor)

abbrev pub no_progress : SideTxProgress
no_progress = none ∷ none ∷ none ∷ none ∷ []

abbrev pub tx_progress_timeout : ℕ
tx_progress_timeout = 2000

abbrev pub paused : ℕ → SideTxCursor → Bool
paused now c = ltb tx_progress_timeout (now - c.last_progress_ms)

unfoldable pub clear_paused : ℕ → SideTxProgress → SideTxProgress
clear_paused now [] = []
clear_paused now (none ∷ slots) = none ∷ clear_paused now slots
clear_paused now (some c ∷ slots) = (if paused now c then none else some c) ∷ clear_paused now slots

-- The first cursor of a key.
unfoldable pub find_cursor : ℕ → SideTxProgress → Option SideTxCursor
find_cursor key [] = none
find_cursor key (none ∷ slots) = find_cursor key slots
find_cursor key (some c ∷ slots) = if c.key == key then some c else find_cursor key slots

-- The slot of the first cursor of a key changes.
unfoldable pub change_slot :
    ℕ → (SideTxCursor → Option SideTxCursor) → SideTxProgress → SideTxProgress
change_slot key f [] = []
change_slot key f (none ∷ slots) = none ∷ change_slot key f slots
change_slot key f (some c ∷ slots) =
    let rest = change_slot key f slots in if c.key == key then f c ∷ slots else some c ∷ rest

unfoldable pub fill_slot : SideTxCursor → SideTxProgress → Option SideTxProgress
fill_slot c [] = none
fill_slot c (none ∷ slots) = some (some c ∷ slots)
fill_slot c (some d ∷ slots) = elim (fill_slot c slots) [
  | none ↦ none
  | some more ↦ some (some d ∷ more)
]

abbrev pub saturated : TelemetryError
saturated = io "side chunk progress saturated"

abbrev pub classified : Bool → Bool → SideTxCursor → Option SideTxCursor
classified history owner c = some (record c {
  history_dependent = c.history_dependent || history;
  latest_owner = c.latest_owner || owner;
})

-- The next chunk of the transfer.
unfoldable pub begin_classified : ℕ → ℕ → Bool → Bool → SideTxProgress → Result ℕ × SideTxProgress
unfolding clear_paused find_cursor change_slot fill_slot
begin_classified key now history owner slots =
    let live = clear_paused now slots in
    let fresh : SideTxCursor = record {
      history_dependent = history;
      latest_owner = owner;
      key = key;
      next = 0;
      last_progress_ms = now;
    } in
    elim (find_cursor key live) [
      | some c ↦ (ok c.next, change_slot key (classified history owner) live)
      | none ↦ elim (fill_slot fresh live) [
        | none ↦ (err saturated, live)
        | some more ↦ (ok 0, more)
      ]
    ]

-- `result.is_ok() || !matches!(result, Err(TelemetryError::Io(_)))`.
abbrev pub ends_transfer : {A : Type 0} → Result A → Bool
ends_transfer (ok a) = true
ends_transfer (err (io what)) = false
ends_transfer (err e) = true

abbrev pub moved_cursor : Bool → ℕ → ℕ → SideTxCursor → Option SideTxCursor
moved_cursor ends next now c =
    if ends
    then none
    else some (record c {
      last_progress_ms = if ltb c.next next then now else c.last_progress_ms;
      next = next;
    })

unfoldable pub finish : {A : Type 0} → ℕ → ℕ → ℕ → Result A → SideTxProgress → SideTxProgress
unfolding change_slot
finish key next now result slots =
    change_slot key (moved_cursor (ends_transfer result || next == 0) next now) slots

unfoldable pub clear_latest_owner : SideTxProgress → SideTxProgress
clear_latest_owner [] = []
clear_latest_owner (none ∷ slots) = none ∷ clear_latest_owner slots
clear_latest_owner (some c ∷ slots) =
    some (record c { latest_owner = false }) ∷ clear_latest_owner slots

abbrev pub any_cursor : (SideTxCursor → Bool) → SideTxProgress → Bool
any_cursor p [] = false
any_cursor p (none ∷ slots) = any_cursor p slots
any_cursor p (some c ∷ slots) = p c || any_cursor p slots

unfoldable pub has_live_latest_owner : ℕ → SideTxProgress → Bool
has_live_latest_owner now slots = any_cursor (λ c. c.latest_owner && not (paused now c)) slots

unfoldable pub has_live_key : ℕ → ℕ → SideTxProgress → Bool
has_live_key key now slots = any_cursor (λ c. c.key == key && not (paused now c)) slots

unfoldable pub blocks_latest : SideTxProgress → Bool
blocks_latest slots = any_cursor (λ c. c.history_dependent) slots

abbrev pub is_available : ℕ → Option SideTxCursor → Bool
is_available now none = true
is_available now (some c) = paused now c

unfoldable pub available_slots : ℕ → SideTxProgress → ℕ
available_slots now [] = 0
available_slots now (s ∷ slots) = (if is_available now s then 1 else 0) + available_slots now slots

unfoldable pub has_available_slot : ℕ → SideTxProgress → Bool
has_available_slot now [] = false
has_available_slot now (s ∷ slots) = is_available now s || has_available_slot now slots
