-- ===== src/Side/Expired.antt =====
-- The expiry of side chunks, src/side_transport.rs.
use sedsnet.Side.Counted.{
  chunk_at-without_other, without-IsKeyed, remove_chunk-IsCounted, length-without,
  remove_chunk-without, Later-chunk_at, IsKeyed, IsCounted,
}
use sedsnet.Base.{
  subst, ap, sym, u32_max, sat_add, ◌∙◌, false, Bool-cases, ltb→lt, some-injective, arith, ltb,
  Option, if_ind, opt_ind, length, ℕ, ◌==◌, ◌-◌, ◌<◌, ◌≤◌, ◌≡◌, refl, true, suc, zero, ◌∷◌, [], inr,
  inl, some, none,
}
use sedsnet.Side.Room.{
  remove_chunk, expire, progress_timeout, chunk_at, Chunks, Retained, first_stale, expire_loop,
}
use sedsnet.Side.Assembly.{SideChunkAssembly}

first_stale_found :
    (now : ℕ) (cs : Chunks) (id : ℕ)
    → IsKeyed cs
    → first_stale now cs ≡ some id
    → (a : SideChunkAssembly) × (chunk_at id cs ≡ some a)
      × (progress_timeout < now - a.last_seen_ms)
unfolding first_stale
first_stale_found now [] id k = λ (e : none ≡ some id). absurd (cc)
first_stale_found now ((i, a) ∷ cs) id k =
    if_ind
      (λ (o : Option ℕ).
        o ≡ some id
        → (b : SideChunkAssembly) × (chunk_at id ((i, a) ∷ cs) ≡ some b)
          × (progress_timeout < now - b.last_seen_ms))
      (ltb progress_timeout (now - a.last_seen_ms))
      (λ t e.
        let here : (id == i) ≡ true = ground (arith, some-injective i id e) in
        (a, rw here refl, ltb→lt _ _ t))
      (λ f e.
        let (b, at, old) = first_stale_found now cs id k.1 e in
        (
          b,
          elim (Bool-cases (id == i)) [
            | inl t ↦
                let same : id ≡ i = ground arith in absurd (cc (Later-chunk_at i cs k.0, same))
            | inr n ↦ rw n at
          ],
          old,
        ))

-- What expiry leaves.
pub record Expires (now : ℕ) (r after : Retained) : Type 0 where
  pub counted : IsCounted after
  pub keyed : IsKeyed after.chunks
  pub none_stale : first_stale now after.chunks ≡ none
  pub kept :
      (id : ℕ) {a : SideChunkAssembly}
      → chunk_at id r.chunks ≡ some a
      → now - a.last_seen_ms ≤ progress_timeout
      → chunk_at id after.chunks ≡ some a

-- A round that removes a stale assembly, and the rounds behind it.
removed :
    (fuel now reclaimed : ℕ) (r : Retained) (id : ℕ)
    → length r.chunks ≤ suc fuel
    → IsCounted r
    → IsKeyed r.chunks
    → first_stale now r.chunks ≡ some id
    → ((q : Retained)
        → length q.chunks ≤ fuel
        → IsCounted q
        → IsKeyed q.chunks
        → Expires now q (expire_loop fuel now (sat_add u32_max reclaimed 1) q).1)
    → Expires now r (expire_loop fuel now (sat_add u32_max reclaimed 1) (remove_chunk id r).1).1
removed fuel now reclaimed r id h c k e ih =
    let (a, at, old) = first_stale_found now r.chunks id k e in
    let q = (remove_chunk id r).1 in
    let left = remove_chunk-without id r in
    let x =
      ih q (omega (arith, ap length left, length-without id r.chunks a at))
        (remove_chunk-IsCounted id r c)
        (subst IsKeyed (sym left) (without-IsKeyed id r.chunks k)) in
    record {
      counted = x.counted;
      keyed = x.keyed;
      none_stale = x.none_stale;
      kept = λ other g fresh.
          x.kept other
            (ap (chunk_at other) left
              ∙ chunk_at-without_other id other r.chunks (elsewhere other at old g fresh)
              ∙ g)
            fresh;
    }
  where
    elsewhere :
        (other : ℕ) {a b : SideChunkAssembly}
        → chunk_at id r.chunks ≡ some a
        → progress_timeout < now - a.last_seen_ms
        → chunk_at other r.chunks ≡ some b
        → now - b.last_seen_ms ≤ progress_timeout
        → (other == id) ≡ false
    elsewhere other {a} {b} at old g fresh = elim (Bool-cases (other == id)) [
      | inl t ↦
          let same : other ≡ id = ground arith in
          let one : a ≡ b =
            some-injective a b (sym at ∙ ap (λ j. chunk_at j r.chunks) (sym same) ∙ g) in
          absurd (omega (arith, ap (λ (y : SideChunkAssembly). y.last_seen_ms) one))
      | inr f ↦ f
    ]

expire_loop-Expires :
    (fuel now reclaimed : ℕ) (r : Retained)
    → length r.chunks ≤ fuel
    → IsCounted r
    → IsKeyed r.chunks
    → Expires now r (expire_loop fuel now reclaimed r).1
unfolding expire_loop
expire_loop-Expires zero now reclaimed r h c k = record {
  counted = c;
  keyed = k;
  none_stale = empty_fresh r.chunks h;
  kept = λ id e f. e;
}
  where
    empty_fresh : (cs : Chunks) → length cs ≤ 0 → first_stale now cs ≡ none
    empty_fresh [] g = unfold first_stale in refl
    empty_fresh (x ∷ xs) g = absurd (omega arith)
expire_loop-Expires (suc fuel) now reclaimed r h c k =
    opt_ind (λ (x : ℕ × Retained). Expires now r x.1) (first_stale now r.chunks)
      (λ n. record { counted = c; keyed = k; none_stale = n; kept = λ id e f. e })
      (λ id e.
        removed fuel now reclaimed r id h c k e
          (expire_loop-Expires fuel now (sat_add u32_max reclaimed 1)))

-- After an expiry no assembly is left that has made no progress for too long, the others are all there
-- as before, and the bytes are counted as they were; the transfers are different ones.
pub expire-Expires :
    (now : ℕ) (r : Retained) → IsCounted r → IsKeyed r.chunks → Expires now r (expire now r).1
unfolding expire
expire-Expires now r c k = expire_loop-Expires (length r.chunks) now 0 r (omega arith) c k
