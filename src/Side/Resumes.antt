-- ===== src/Side/Resumes.antt =====
-- What the cursors of src/side_transport.rs keep of a transfer between its attempts.
use sedsnet.Errors.{err, ok, ok-injective, Result, io}
use sedsnet.Side.Cursors.{
  classified, paused, saturated, fill_slot, find_cursor, tx_progress_timeout, SideTxCursor,
  moved_cursor, clear_paused, SideTxProgress, finish, begin_classified,
}
use sedsnet.Side.Slots.{
  find_cursor-key, find_cursor-fill_slot_other, find_cursor-change_slot_other,
  find_cursor-clear_paused, find_cursor-fill_slot, find_cursor-change_slot, KeepsKey,
}
use sedsnet.Base.{
  subst, ltb, some-injective, arith, sym, ap, opt_ind, Bool, ℕ, ◌==◌, ◌||◌, ◌≢◌, ◌∙◌, ◌-◌, ◌<◌, ◌≤◌,
  ◌≡◌, refl, false, true, some, none,
}
use Prim.Native.String.{String}

-- A transfer that has begun has its cursor.
record Begun (key n : ℕ) (p : SideTxProgress) : Type 0 where
  cursor : SideTxCursor
  found : find_cursor key p ≡ some cursor
  at_next : cursor.next ≡ n
  of_key : cursor.key ≡ key

begin_classified-Begun :
    (key now n : ℕ) (history owner : Bool) (slots p : SideTxProgress)
    → begin_classified key now history owner slots ≡ (ok n, p)
    → Begun key n p
unfolding begin_classified
begin_classified-Begun key now n history owner slots p =
    let live = clear_paused now slots in
    let fresh : SideTxCursor = record {
      history_dependent = history;
      latest_owner = owner;
      key = key;
      next = 0;
      last_progress_ms = now;
    } in
    opt_ind (λ (x : Result ℕ × SideTxProgress). x ≡ (ok n, p) → Begun key n p)
      (find_cursor key live)
      (λ missing.
        opt_ind (λ (x : Result ℕ × SideTxProgress). x ≡ (ok n, p) → Begun key n p)
          (fill_slot fresh live) (λ full (e : (err saturated, live) ≡ (ok n, p)). absurd (cc))
          (λ more filled_in e. subst (Begun key n) (ap (λ x. x.1) e) (record {
            cursor = fresh;
            found = find_cursor-fill_slot fresh live more missing filled_in;
            at_next = ok-injective (ap (λ x. x.0) e);
            of_key = refl;
          })))
      (λ c there e.
        let next_at : c.next ≡ n = ok-injective (ap (λ x. x.0) e) in
        let own = find_cursor-key key live c there in
        subst (Begun key n) (ap (λ x. x.1) e) (record {
          cursor = record c {
            history_dependent = c.history_dependent || history;
            latest_owner = c.latest_owner || owner;
          };
          found = find_cursor-change_slot key (classified history owner) live c _ there refl own;
          at_next = next_at;
          of_key = own;
        }))

moved_cursor-KeepsKey : (ends : Bool) (next now : ℕ) → KeepsKey (moved_cursor ends next now)
unfolding KeepsKey
moved_cursor-KeepsKey true next now c d = λ (e : none ≡ some d). absurd (cc)
moved_cursor-KeepsKey false next now c d = λ e. ap (λ x. x.key) (sym (some-injective _ _ e))

begin_classified-found :
    (key now : ℕ) (history owner : Bool) (slots : SideTxProgress) (c : SideTxCursor)
    → find_cursor key (clear_paused now slots) ≡ some c
    → (begin_classified key now history owner slots).0 ≡ ok c.next
unfolding begin_classified
begin_classified-found key now history owner slots c e = rw (e, begin_classified) refl

-- A transfer that began, got further, and then met an error of the link, begins again where it stopped,
-- if that is at most two seconds after its progress.
pub begin_classified-finish :
    (key now at later n next : ℕ) (history owner history_later owner_later : Bool) (what : String)
    (slots p : SideTxProgress)
    → begin_classified key now history owner slots ≡ (ok n, p)
    → n < next
    → later - at ≤ tx_progress_timeout
    → (begin_classified key later history_later owner_later
        (finish {A = Unit {0}} key next at (err (io what)) p)).0
      ≡ ok next
unfolding finish
begin_classified-finish key now at later n next history owner history_later owner_later what slots p
      e h t =
    let b = begin_classified-Begun key now n history owner slots p e in
    let more : (next == 0) ≡ false = ground (arith, h) in
    let further : ltb b.cursor.next next ≡ true = ground (arith, h, b.at_next) in
    let moved : SideTxCursor = record b.cursor { last_progress_ms = at; next = next } in
    let moves : moved_cursor (next == 0) next at b.cursor ≡ some moved =
      rw more (rw further refl) in
    let kept =
      find_cursor-change_slot key (moved_cursor (next == 0) next at) p b.cursor moved b.found moves
        b.of_key in
    let live : paused later moved ≡ false = ground (arith, t) in
    begin_classified-found key later history_later owner_later _ moved
      (find_cursor-clear_paused key later _ moved kept live)

-- Beginning a transfer, or being refused, leaves the cursors of the others as `clear_paused` has them.
begin_classified-other :
    (key now other : ℕ) (history owner : Bool) (slots : SideTxProgress)
    → key ≢ other
    → find_cursor other (begin_classified key now history owner slots).1
      ≡ find_cursor other (clear_paused now slots)
unfolding begin_classified KeepsKey
begin_classified-other key now other history owner slots d =
    let live = clear_paused now slots in
    let Kept : Result ℕ × SideTxProgress → Type 0 =
      λ x. find_cursor other x.1 ≡ find_cursor other live in
    opt_ind Kept (find_cursor key live)
      (λ missing.
        opt_ind Kept (fill_slot _ live) (λ full. refl)
          (λ more filled_in. find_cursor-fill_slot_other other _ live more d filled_in))
      (λ c there.
        find_cursor-change_slot_other key other (classified history owner) live
          (λ a b same. ap (λ x. x.key) (sym (some-injective _ _ same))) d)

-- A whole attempt of a transfer, whether it may begin or not and however it ends, leaves the cursor of
-- every other transfer as it was before the attempt, if that cursor has not paused for more than two
-- seconds when the attempt begins.
pub finish-begin_classified :
    {A : Type 0} (key now at next other : ℕ) (history owner : Bool) (result : Result A)
    (slots : SideTxProgress) (c : SideTxCursor)
    → key ≢ other
    → find_cursor other slots ≡ some c
    → now - c.last_progress_ms ≤ tx_progress_timeout
    → find_cursor other (finish key next at result (begin_classified key now history owner slots).1)
      ≡ some c
unfolding finish
finish-begin_classified key now at next other history owner result slots c d found recent =
    let live : paused now c ≡ false = ground (arith, recent) in
    find_cursor-change_slot_other key other _ _ (moved_cursor-KeepsKey _ next at) d
    ∙ begin_classified-other key now other history owner slots d
    ∙ find_cursor-clear_paused other now slots c found live
