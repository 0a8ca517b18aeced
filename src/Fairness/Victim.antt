-- ===== src/Fairness/Victim.antt =====
-- The entry that gives way in src/admission_fairness.rs.
use sedsnet.Fairness.Tallied.{record_all-IsTallied, IsTallied}
use sedsnet.Base.{
  Bool-cases, ◌⊎◌, inr, inl, leb, subst, if◌then◌else◌, ◌==◌, sym, opt_ind, ◌&&◌, ◌∙◌, refl, false,
  true, some-injective, ap, arith, get_elem?, List, ℕ, Option, ◌≤◌, ◌+◌, ◌≡◌, suc, zero, ◌∷◌, [],
  some, none,
}
use sedsnet.Fairness.Loads.{
  no_loads, record_all, dominant, Loads, in_stream, below, is_owner, before, enumerate,
  victim_of_owner, queue_victim,
}
use sedsnet.Fairness.Dominant.{dominant-Chooses, Chooses}
use sedsnet.TimeSync.Rank.{best_of-IsBest, best_of, IsBest}
use sedsnet.Queue.Ring.{Deque, ByteCost}

module _ {ℓ} {T : Type ℓ} ⦃b : ByteCost T⦄ (owner stream : T → Option ℕ) (priority : T → ℕ) where
  enumerate_at :
      (n k : ℕ) (xs : List T) {e : ℕ × T}
      → get_elem? (enumerate owner stream priority n xs) k ≡ some e
      → (e.0 ≡ n + k) × (get_elem? xs k ≡ some e.1)
  enumerate_at n k [] {e} h = absurd (cc)
  enumerate_at n zero (x ∷ xs) {e} h = (
    omega (arith, ap (λ (y : ℕ × T). y.0) (some-injective _ _ h)),
    ap (λ (y : Option (ℕ × T)). elim y [ none ↦ none | some z ↦ some z.1 ]) h,
  )
  enumerate_at n (suc k) (x ∷ xs) {e} h =
      let (i, at_k) = enumerate_at (n + 1) k xs h in (omega (arith, i), at_k)

  -- What is recorded of the entries up to the incoming priority for each owner, and of those of one
  -- owner for each stream.
  abbrev pub owner_loads : T → Deque T → Loads
  owner_loads incoming d =
      record_all owner stream priority owner (λ x. leb (priority x) (priority incoming)) d.q
        no_loads

  abbrev pub stream_loads : T → Deque T → ℕ → Loads
  stream_loads incoming d victim =
      record_all owner stream priority stream
        (below owner stream priority (priority incoming) victim) d.q no_loads

  -- The owner that gives way is the one selected before, or else the dominant one by the entries and
  -- the bytes of each.
  abbrev pub OwnerChosen : T → Option ℕ → Deque T → ℕ → ℕ → Type 0
  OwnerChosen incoming none d incoming_owner victim =
      Chooses (some incoming_owner) (owner_loads incoming d) (some victim)
      × IsTallied owner (λ x. leb (priority x) (priority incoming)) d.q (owner_loads incoming d)
  OwnerChosen incoming (some before) d incoming_owner victim = victim ≡ before

  -- The entry that gives way: it stands in the queue, its priority is not above the incoming one's, its
  -- owner is the chosen one, its stream is the dominant one of that owner, if there is one, and among
  -- the entries of that owner and stream no other has a lower priority, or the same one and an earlier
  -- place.
  pub record Yields (incoming : T) (d : Deque T) (incoming_owner victim i : ℕ) : Type ℓ where
    pub item : T
    pub present : get_elem? d.q i ≡ some item
    pub not_above : priority item ≤ priority incoming
    pub owned : owner item ≡ some victim
    pub chosen : Option ℕ
    pub stream_chosen :
        Chooses
          (if victim == incoming_owner then stream incoming else none)
          (stream_loads incoming d victim)
          chosen
    pub stream_tallied :
        ((stream_loads incoming d victim).overflow ≡ true)
        ⊎ IsTallied stream
            (below owner stream priority (priority incoming) victim)
            d.q
            (stream_loads incoming d victim)
    pub in_chosen : in_stream owner stream priority chosen item ≡ true
    pub first :
        IsBest
          (before owner stream priority)
          (λ e.
            below owner stream priority (priority incoming) victim e.1
            && in_stream owner stream priority chosen e.1)
          (enumerate owner stream priority 0 d.q)
          (i, item)

  earlier_asym :
      (x y : ℕ × T)
      → before owner stream priority x y ≡ true
      → before owner stream priority y x ≡ false
  earlier_asym x y h = ground arith

  earlier_negtrans :
      (x y z : ℕ × T)
      → before owner stream priority x y ≡ false
      → before owner stream priority y z ≡ false
      → before owner stream priority x z ≡ false
  earlier_negtrans x y z h k = ground arith

  owned_by : (o : Option ℕ) (n : ℕ) → is_owner o n ≡ true → o ≡ some n
  owned_by none n h = absurd (cc)
  owned_by (some m) n h = ap some (ground arith)

  best-Yields :
      (incoming : T) (d : Deque T) (incoming_owner victim i : ℕ) (chosen : Option ℕ) (e : ℕ × T)
      → Chooses
          (if victim == incoming_owner then stream incoming else none)
          (stream_loads incoming d victim)
          chosen
      → best_of
          (before owner stream priority)
          (λ e.
            below owner stream priority (priority incoming) victim e.1
            && in_stream owner stream priority chosen e.1)
          none
          (enumerate owner stream priority 0 d.q)
        ≡ some e
      → e.0 ≡ i
      → Yields incoming d incoming_owner victim i
  best-Yields incoming d incoming_owner victim i chosen e why found same =
      let best =
        best_of-IsBest (before owner stream priority) _ earlier_asym earlier_negtrans
          (enumerate owner stream priority 0 d.q) found in
      let (k, at_k) = best.member in
      let (index, at_q) = enumerate_at 0 k d.q at_k in
      record {
        item = e.1;
        present = ap (get_elem? d.q) (omega (arith, index, same)) ∙ at_q;
        not_above = ground (arith, best.passes);
        owned = owned_by (owner e.1) victim (ground (arith, best.passes));
        chosen = chosen;
        stream_chosen = why;
        stream_tallied = elim (Bool-cases (stream_loads incoming d victim).overflow) [
          | inl full ↦ inl full
          | inr room ↦ inr (record_all-IsTallied owner stream priority stream _ d.q room)
        ];
        in_chosen = ground (arith, best.passes);
        first = rw (sym same) best;
      }

  victim_of_owner-Yields :
      (incoming : T) (d : Deque T) (victim incoming_owner : ℕ) {i : ℕ}
      → victim_of_owner owner stream priority (priority incoming) incoming_owner victim incoming d
        ≡ some i
      → Yields incoming d incoming_owner victim i
  unfolding victim_of_owner
  victim_of_owner-Yields incoming d victim incoming_owner {i} =
      opt_ind (λ o. o ≡ some i → Yields incoming d incoming_owner victim i) _
        (λ _ (e : none ≡ some i). absurd (cc))
        λ e found same.
          best-Yields incoming d incoming_owner victim i _ e (dominant-Chooses _ _) found
            (some-injective _ _ same)

  -- The entry that is picked for an incoming one with an owner gives way to it. Its owner, which is
  -- then recorded as selected, is the one selected before, or else the dominant owner among the entries
  -- up to the incoming priority: of the owners with several such entries one with most bytes, or the
  -- incoming owner where nobody has several and it has one. Among the entries of this owner up to the
  -- incoming priority it is of the dominant stream in the same sense, where the incoming stream counts
  -- only if its owner is this one; of any stream if none is dominant. Of these entries it has the
  -- lowest priority, and the earliest place with it. What is compared are the numbers of entries and
  -- their bytes, cut at the largest `usize`. Without an owner selected before, the catalog has had room
  -- for all owners; where no stream is dominant, it has had no room for all streams, or no stream has
  -- several entries and the incoming one that counts has none.
  pub queue_victim-Yields :
      (incoming : T) (selected : Option ℕ) (d : Deque T) {i : ℕ} (incoming_owner : ℕ)
      → owner incoming ≡ some incoming_owner
      → (queue_victim owner stream priority incoming selected d).0 ≡ some i
      → (victim : ℕ) × ((queue_victim owner stream priority incoming selected d).1 ≡ some victim)
        × OwnerChosen incoming selected d incoming_owner victim
        × Yields incoming d incoming_owner victim i
  unfolding queue_victim
  queue_victim-Yields incoming none d {i} incoming_owner own =
      rw (own, queue_victim)
        (opt_ind Goal (dominant (some incoming_owner) (owner_loads incoming d))
          (λ _ (e : none ≡ some i). absurd (cc))
          λ victim found e. (
            victim,
            refl,
            chosen_owner victim found,
            victim_of_owner-Yields incoming d victim incoming_owner e,
          ))
    where
      Goal : Option ℕ × Option ℕ → Type ℓ
      Goal r =
          r.0 ≡ some i
          → (victim : ℕ) × (r.1 ≡ some victim)
            × OwnerChosen incoming none d incoming_owner victim
            × Yields incoming d incoming_owner victim i

      chosen_owner :
          (victim : ℕ)
          → dominant (some incoming_owner) (owner_loads incoming d) ≡ some victim
          → OwnerChosen incoming none d incoming_owner victim
      chosen_owner victim found =
          let why =
            subst (Chooses (some incoming_owner) (owner_loads incoming d)) found
              (dominant-Chooses (some incoming_owner) (owner_loads incoming d)) in
          (why, record_all-IsTallied owner stream priority owner _ d.q why.0)
  queue_victim-Yields incoming (some before) d {i} incoming_owner own =
      rw (own, queue_victim)
        λ e. (before, refl, refl, victim_of_owner-Yields incoming d before incoming_owner e)
