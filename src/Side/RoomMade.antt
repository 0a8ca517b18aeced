-- ===== src/Side/RoomMade.antt =====
-- Room for a fragment, src/side_transport.rs: `make_room` stays in the budget or gives the transfer up.
use sedsnet.Base.{
  if◌then◌else◌, ◌||◌, ◌/◌, subst, some-injective, not, Bool, ap, ◌&&◌, ◌∙◌, true, sym, opt_ind,
  sat_add, ltb, arith, if_ind, usize_max, length, ℕ, Option, ◌==◌, ◌⊎◌, ◌<◌, ◌≤◌, ◌+◌, ◌≡◌, refl,
  false, suc, zero, ◌∷◌, [], inr, inl, some, none,
}
use sedsnet.Side.Assembly.{descriptor_bytes, fragment_overhead, SideChunkAssembly}
use sedsnet.Side.Room.{
  lacks_slots, holds_index, make_room, remove_chunk, chunk_at, skipped, Retained, room_loop,
  oldest_from, oldest, Chunks,
}
use sedsnet.Errors.{err, ok, Result}
use sedsnet.Side.Counted.{
  chunk_at-without, chunk_at-without_other, length-without, without-IsKeyed, remove_chunk-without,
  remove_chunk-IsCounted, IsKeyed, IsCounted,
}

-- A victim is there, and is not the one to keep.
abbrev IsVictim : Chunks → Option ℕ → Option (ℕ × ℕ) → Type 0
IsVictim cs keep none = Unit
IsVictim cs keep (some (v, time)) =
    (skipped keep v ≡ false) × ((a : SideChunkAssembly) × (chunk_at v cs ≡ some a))

grows :
    (id : ℕ) (a : SideChunkAssembly) (cs : Chunks) (v : ℕ)
    → (b : SideChunkAssembly) × (chunk_at v cs ≡ some b)
    → (b : SideChunkAssembly) × (chunk_at v ((id, a) ∷ cs) ≡ some b)
grows id a cs v (b, e) =
    if_ind (λ (o : Option SideChunkAssembly). (c : SideChunkAssembly) × (o ≡ some c)) (v == id)
      (λ t. (a, refl)) (λ f. (b, e))

abbrev Found : Option (ℕ × ℕ) → Chunks → Option ℕ → Option (ℕ × ℕ) → Type 0
Found victim cs keep none = Unit
Found victim cs keep (some (v, time)) =
    (victim ≡ some (v, time)) ⊎ IsVictim cs keep (some (v, time))

-- The entry in front becomes the victim, or the victim before it stays.
newer :
    (victim o : Option (ℕ × ℕ)) (id : ℕ) (a : SideChunkAssembly) (cs : Chunks) (keep : Option ℕ)
    → skipped keep id ≡ false
    → Found (some (id, a.last_seen_ms)) cs keep o
    → Found victim ((id, a) ∷ cs) keep o
newer victim none id a cs keep s f = tt
newer victim (some (v, time)) id a cs keep s (inl e) =
    let same : id ≡ v = ap (λ (p : ℕ × ℕ). p.0) (some-injective _ _ e) in
    let here : (id == id) ≡ true = ground arith in
    inr (
      subst
        (λ j.
          (skipped keep j ≡ false)
          × ((b : SideChunkAssembly) × (chunk_at j ((id, a) ∷ cs) ≡ some b)))
        same (s, (a, rw here refl)))
newer victim (some (v, time)) id a cs keep s (inr (t, x)) = inr (t, grows id a cs v x)

stays :
    (victim o : Option (ℕ × ℕ)) (id : ℕ) (a : SideChunkAssembly) (cs : Chunks) (keep : Option ℕ)
    → Found victim cs keep o
    → Found victim ((id, a) ∷ cs) keep o
stays victim none id a cs keep f = tt
stays victim (some (v, time)) id a cs keep (inl e) = inl e
stays victim (some (v, time)) id a cs keep (inr (t, x)) = inr (t, grows id a cs v x)

not_and : (a b : Bool) → not a && b ≡ true → a ≡ false
not_and true b h = absurd (cc)
not_and false b h = refl

oldest_from-Found :
    (victim : Option (ℕ × ℕ)) (cs : Chunks) (keep : Option ℕ)
    → Found victim cs keep (oldest_from victim cs keep)
unfolding oldest_from
oldest_from-Found none [] keep = tt
oldest_from-Found (some (v, time)) [] keep = inl refl
oldest_from-Found victim ((id, a) ∷ cs) keep =
    if_ind (λ (w : Option (ℕ × ℕ)). Found victim ((id, a) ∷ cs) keep (oldest_from w cs keep))
      (not (skipped keep id)
        && (elim victim [ none ↦ true | some (v, time) ↦ ltb a.last_seen_ms time ]))
      (λ t.
        newer victim _ id a cs keep (not_and (skipped keep id) _ t)
          (oldest_from-Found (some (id, a.last_seen_ms)) cs keep))
      (λ f. stays victim _ id a cs keep (oldest_from-Found victim cs keep))

oldest-IsVictim : (cs : Chunks) (keep : Option ℕ) → IsVictim cs keep (oldest cs keep)
unfolding oldest
oldest-IsVictim cs keep = weaken (oldest_from none cs keep) (oldest_from-Found none cs keep)
  where
    weaken : (o : Option (ℕ × ℕ)) → Found none cs keep o → IsVictim cs keep o
    weaken none f = tt
    weaken (some (v, time)) (inl e) = absurd (cc)
    weaken (some (v, time)) (inr i) = i

-- What the rounds leave.
abbrev pub Rounds : ℕ → ℕ → ℕ → Retained → Result ℕ × Retained → Type 0
Rounds id cost budget r (ok c, after) =
    IsCounted after
    × IsKeyed after.chunks
    × (c ≡ cost)
    × (after.buffered + cost ≤ budget)
    × (chunk_at id after.chunks ≡ chunk_at id r.chunks)
Rounds id cost budget r (err e, after) =
    IsCounted after × IsKeyed after.chunks × (chunk_at id after.chunks ≡ none)

as_before :
    (id cost budget : ℕ) (q r : Retained) (x : Result ℕ × Retained)
    → chunk_at id q.chunks ≡ chunk_at id r.chunks
    → Rounds id cost budget q x
    → Rounds id cost budget r x
as_before id cost budget q r (ok c, after) e (counted, keyed, same, fits, own) =
    (counted, keyed, same, fits, own ∙ e)
as_before id cost budget q r (err x, after) e h = h

gone :
    (id : ℕ) (r : Retained)
    → IsCounted r
    → IsKeyed r.chunks
    → (let after = (remove_chunk id r).1 in
        IsCounted after × IsKeyed after.chunks × (chunk_at id after.chunks ≡ none))
gone id r c k = (
  remove_chunk-IsCounted id r c,
  subst IsKeyed (sym (remove_chunk-without id r)) (without-IsKeyed id r.chunks k),
  ap (chunk_at id) (remove_chunk-without id r) ∙ chunk_at-without id r.chunks k,
)

-- A round that evicts another assembly, and the rounds behind it.
evicted :
    (fuel id cost budget : ℕ) (r : Retained) (victim : ℕ × ℕ)
    → length r.chunks < suc fuel
    → IsCounted r
    → IsKeyed r.chunks
    → IsVictim r.chunks (some id) (some victim)
    → ((q : Retained)
        → length q.chunks < fuel
        → IsCounted q
        → IsKeyed q.chunks
        → Rounds id cost budget q (room_loop fuel id cost budget q))
    → Rounds id cost budget r (room_loop fuel id cost budget (remove_chunk victim.0 r).1)
evicted fuel id cost budget r victim h c k (other, (a, at)) ih =
    let left = remove_chunk-without victim.0 r in
    let (counted, keyed, taken) = gone victim.0 r c k in
    as_before id cost budget (remove_chunk victim.0 r).1 r _
      (ap (chunk_at id) left ∙ chunk_at-without_other victim.0 id r.chunks other)
      (ih (remove_chunk victim.0 r).1
        (omega (arith, ap length left, length-without victim.0 r.chunks a at)) counted keyed)

room_loop-Rounds :
    (fuel id cost budget : ℕ) (r : Retained)
    → length r.chunks < fuel
    → budget < usize_max
    → IsCounted r
    → IsKeyed r.chunks
    → Rounds id cost budget r (room_loop fuel id cost budget r)
unfolding room_loop
room_loop-Rounds zero id cost budget r h b c k = absurd (omega arith)
room_loop-Rounds (suc fuel) id cost budget r h b c k =
    if_ind (Rounds id cost budget r) (ltb budget (sat_add usize_max r.buffered cost))
      (λ full.
        opt_ind (Rounds id cost budget r) (oldest r.chunks (some id)) (λ n. gone id r c k)
          (λ victim e.
            evicted fuel id cost budget r victim h c k
              (subst (IsVictim r.chunks (some id)) e (oldest-IsVictim r.chunks (some id)))
              (λ q l d j. room_loop-Rounds fuel id cost budget q l b d j)))
      (λ fits. (c, k, refl, ground arith, refl))

-- What a fragment takes: its payload, the overhead of a fragment, and, where the transfer has no slots
-- yet, those for all its fragments.
abbrev pub fragment_need : ℕ → ℕ → ℕ → Retained → ℕ
fragment_need id total payload_len r =
    payload_len
    + fragment_overhead
    + (if lacks_slots (chunk_at id r.chunks) then descriptor_bytes total else 0)

-- What asking for room leaves.
abbrev pub RoomMade : ℕ → ℕ → ℕ → ℕ → ℕ → Retained → Result ℕ × Retained → Type 0
RoomMade id index total payload_len budget r (ok c, after) =
    IsCounted after
    × IsKeyed after.chunks
    × (chunk_at id after.chunks ≡ chunk_at id r.chunks)
    × (((c ≡ fragment_need id total payload_len r) × (after.buffered + c ≤ budget))
        ⊎ ((holds_index index (chunk_at id r.chunks) ≡ true) × (c ≡ 0) × (after ≡ r)))
RoomMade id index total payload_len budget r (err e, after) =
    IsCounted after × IsKeyed after.chunks × (chunk_at id after.chunks ≡ none)

rounds_are :
    (id index total payload_len cost budget : ℕ) (r : Retained) (x : Result ℕ × Retained)
    → cost ≡ fragment_need id total payload_len r
    → Rounds id cost budget r x
    → RoomMade id index total payload_len budget r x
rounds_are id index total payload_len cost budget r (ok c, after) e
      (counted, keyed, same, fits, own) =
    (counted, keyed, own, inl (same ∙ e, omega (arith, same, fits)))
rounds_are id index total payload_len cost budget r (err x, after) e h = h

-- A cost within the budget has not been cut at the largest `usize`.
need_counted :
    (a b c budget : ℕ)
    → budget < usize_max
    → sat_add usize_max (sat_add usize_max a b) c ≤ budget
    → sat_add usize_max (sat_add usize_max a b) c ≡ a + b + c
need_counted a b c budget h fits = omega arith

-- Whether room is made for a fragment or not, what is buffered stays counted. If it is made, then the
-- transfer is as it was, and the payload of the fragment with its overhead, and with the slots of the
-- transfer if it has none yet, fits the budget with all that is still buffered; or the fragment is
-- there already, and nothing changes. Otherwise the whole transfer has been given up. The budget is
-- below the largest `usize`, and the transfers are different ones.
pub make_room-RoomMade :
    (id index total payload_len budget : ℕ) (r : Retained)
    → budget < usize_max
    → IsCounted r
    → IsKeyed r.chunks
    → RoomMade id index total payload_len budget r (make_room id index total payload_len budget r)
unfolding make_room
make_room-RoomMade id index total payload_len budget r b c k =
    let slots : ℕ = if lacks_slots (chunk_at id r.chunks) then descriptor_bytes total else 0 in
    let cost = sat_add usize_max (sat_add usize_max payload_len fragment_overhead) slots in
    if_ind (RoomMade id index total payload_len budget r)
      (ltb (budget / 64) total || ltb budget cost) (λ large. gone id r c k)
      (λ small.
        if_ind (RoomMade id index total payload_len budget r)
          (holds_index index (chunk_at id r.chunks))
          (λ there. (c, k, refl, inr (there, refl, refl)))
          (λ new.
            rounds_are id index total payload_len cost budget r _
              (need_counted payload_len fragment_overhead slots budget b (ground arith))
              (room_loop-Rounds (suc (length r.chunks)) id cost budget r (omega arith) b c k)))
