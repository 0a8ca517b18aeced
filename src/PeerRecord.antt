-- ===== src/PeerRecord.antt =====
-- Staged changes of peer indices (src/peer_record.rs). The allocator and the memory probe answer
-- through `Memory`; `none` is a failed `expect`.
use sedsnet.Errors.{ok, ok-injective, io, TelemetryError, Result, err}
use sedsnet.Base.{
  subst, if_ind, opt_ind, insert-IsSorted, get-insert_other, get-insert_same, insert, name_eq, get,
  Option, IsSorted, List, Name, Bool, if◌then◌else◌, ◌&&◌, ◌≡◌, refl, false, some, none,
}

-- `try_box` of the record's type and `try_string` of a name.
pub record Memory : Type 0 where
  pub try_box : Bool
  pub try_string : Name → Bool

pub data Prepared {ℓ} (T : Type ℓ) : Type ℓ where
  existing : Name → T → Prepared T
  added : Name → T → Prepared T

module _ {ℓ} {T : Type ℓ} where
  unfoldable pub prepare : Memory → List (Name × T) → Name → T → Result (Prepared T)
  prepare mem m key value = elim (get m key) [
    | some _ ↦ ok (existing key value)
    | none ↦
        if mem.try_box && mem.try_string key
        then ok (added key value)
        else err (io "memory pressure")
  ]

  unfoldable pub commit : Prepared T → List (Name × T) → Option (List (Name × T))
  commit (existing key value) m = elim (get m key) [
    | none ↦ none
    | some _ ↦ some (insert m key value)
  ]
  commit (added key value) m = some (insert m key value)

  -- A change that has been prepared commits on the same index: the key then has the new record, every
  -- other key keeps its own, and the keys stay in order.
  pub commit-prepare :
      (mem : Memory) (m : List (Name × T)) (key : Name) (value : T) {p : Prepared T}
      → IsSorted m
      → prepare mem m key value ≡ ok p
      → (after : List (Name × T)) × (commit p m ≡ some after)
        × (get after key ≡ some value)
        × ((other : Name) → name_eq other key ≡ false → get after other ≡ get m other)
        × IsSorted after
  unfolding prepare commit
  commit-prepare mem m key value {p} s =
      opt_ind Q (get m key)
        (λ _.
          if_ind Q (mem.try_box && mem.try_string key) (λ _ e. subst R (ok-injective e) (done refl))
            (λ _ (e : err (io "memory pressure") ≡ ok p). absurd (cc)))
        (λ v found e. subst R (ok-injective e) (done (rw (found, commit))))
    where
      R : Prepared T → Type ℓ
      R p =
          (after : List (Name × T)) × (commit p m ≡ some after)
          × (get after key ≡ some value)
          × ((other : Name) → name_eq other key ≡ false → get after other ≡ get m other)
          × IsSorted after

      Q : Result (Prepared T) → Type ℓ
      Q r = r ≡ ok p → R p

      done :
          {c : Option (List (Name × T))}
          → c ≡ some (insert m key value)
          → (after : List (Name × T)) × (c ≡ some after)
            × (get after key ≡ some value)
            × ((other : Name) → name_eq other key ≡ false → get after other ≡ get m other)
            × IsSorted after
      done e = (
        insert m key value,
        e,
        get-insert_same m key value,
        (λ other h. get-insert_other m key other value h),
        insert-IsSorted m key value s,
      )

  -- A refusal leaves nothing to commit, and only a new key can be refused.
  pub prepare_refuses :
      (mem : Memory) (m : List (Name × T)) (key : Name) (value : T) (e : TelemetryError)
      → prepare mem m key value ≡ err e
      → (get m key ≡ none) × (e ≡ io "memory pressure")
  unfolding prepare
  prepare_refuses mem m key value e =
      opt_ind (λ r. r ≡ err e → (get m key ≡ none) × (e ≡ io "memory pressure")) (get m key)
        (λ absent.
          if_ind (λ r. r ≡ err e → (get m key ≡ none) × (e ≡ io "memory pressure"))
            (mem.try_box && mem.try_string key)
            (λ _ (h : ok (added key value) ≡ err e). absurd (cc)) (λ _ h. (absent, cc)))
        (λ v _ (h : ok (existing key value) ≡ err e). absurd (cc))
