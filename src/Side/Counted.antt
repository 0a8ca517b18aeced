-- ===== src/Side/Counted.antt =====
-- The byte accounting of side chunks, src/side_transport.rs: what is buffered is what the assemblies cost.
use sedsnet.Base.{
  sym, All, ◌<◌, false, none, some-injective, ap, length, if_ind, arith, Option, opt_ind, ℕ,
  if◌then◌else◌, ◌==◌, ◌+◌, ◌≡◌, refl, suc, ◌∷◌, [], some,
}
use sedsnet.Side.Room.{chunk_at, Chunks, without, remove_chunk, Retained}
use sedsnet.Side.Assembly.{SideChunkAssembly, byte_cost}

unfoldable pub total_cost : Chunks → ℕ
total_cost [] = 0
total_cost ((id, a) ∷ cs) = byte_cost a + total_cost cs

-- The count is exact, and no sum has left its word.
abbrev pub IsCounted : Retained → Type 0
IsCounted r = r.buffered ≡ total_cost r.chunks

without_cost :
    (id : ℕ) (cs : Chunks) (a : SideChunkAssembly)
    → chunk_at id cs ≡ some a
    → total_cost cs ≡ byte_cost a + total_cost (without id cs)
unfolding total_cost without
without_cost id [] a = λ (e : none ≡ some a). absurd (cc)
without_cost id ((i, b) ∷ cs) a =
    if_ind
      (λ (o : Option SideChunkAssembly).
        o ≡ some a
        → byte_cost b + total_cost cs
          ≡ byte_cost a + total_cost (if id == i then cs else (i, b) ∷ without id cs))
      (id == i) (λ t e. rw t (ap (λ x. byte_cost x + total_cost cs) (some-injective _ _ e)))
      (λ f (e : chunk_at id cs ≡ some a). rw f (omega (arith, without_cost id cs a e)))

pub remove_chunk-IsCounted : (id : ℕ) (r : Retained) → IsCounted r → IsCounted (remove_chunk id r).1
unfolding remove_chunk
remove_chunk-IsCounted id r v =
    opt_ind (λ (x : Option SideChunkAssembly × Retained). IsCounted x.1) (chunk_at id r.chunks)
      (λ n. v) (λ a e. omega (arith, v, without_cost id r.chunks a e))

pub length-without :
    (id : ℕ) (cs : Chunks) (a : SideChunkAssembly)
    → chunk_at id cs ≡ some a
    → length cs ≡ suc (length (without id cs))
unfolding without
length-without id [] a = λ (e : none ≡ some a). absurd (cc)
length-without id ((i, b) ∷ cs) a =
    if_ind
      (λ (o : Option SideChunkAssembly).
        o ≡ some a
        → suc (length cs) ≡ suc (length (if id == i then cs else (i, b) ∷ without id cs)))
      (id == i) (λ t e. rw t refl) (λ f e. rw f (ap suc (length-without id cs a e)))

-- The transfers of a `BTreeMap` ascend.
abbrev pub Later : ℕ → Chunks → Type 0
Later id cs = All (λ (c : ℕ × SideChunkAssembly). id < c.0) cs

abbrev pub IsKeyed : Chunks → Type 0
IsKeyed [] = Unit
IsKeyed ((id, a) ∷ cs) = Later id cs × IsKeyed cs

Later-without : (i id : ℕ) (cs : Chunks) → Later i cs → Later i (without id cs)
unfolding without
Later-without i id [] l = tt
Later-without i id ((j, a) ∷ cs) l =
    if_ind (Later i) (id == j) (λ t. l.1) (λ f. (l.0, Later-without i id cs l.1))

pub without-IsKeyed : (id : ℕ) (cs : Chunks) → IsKeyed cs → IsKeyed (without id cs)
unfolding without
without-IsKeyed id [] k = tt
without-IsKeyed id ((j, a) ∷ cs) k =
    if_ind IsKeyed (id == j) (λ t. k.1)
      (λ f. (Later-without j id cs k.0, without-IsKeyed id cs k.1))

pub Later-chunk_at : (i : ℕ) (cs : Chunks) → Later i cs → chunk_at i cs ≡ none
Later-chunk_at i [] l = refl
Later-chunk_at i ((j, a) ∷ cs) l =
    let other : (i == j) ≡ false = ground (arith, l.0) in rw other (Later-chunk_at i cs l.1)

-- A removed transfer is gone, and the others are as before.
pub chunk_at-without : (id : ℕ) (cs : Chunks) → IsKeyed cs → chunk_at id (without id cs) ≡ none
unfolding without
chunk_at-without id [] k = refl
chunk_at-without id ((j, a) ∷ cs) k =
    if_ind (λ (l : Chunks). chunk_at id l ≡ none) (id == j)
      (λ t. let same : id ≡ j = ground arith in rw same (Later-chunk_at j cs k.0))
      (λ f. rw f (chunk_at-without id cs k.1))

pub chunk_at-without_other :
    (id other : ℕ) (cs : Chunks)
    → (other == id) ≡ false
    → chunk_at other (without id cs) ≡ chunk_at other cs
unfolding without
chunk_at-without_other id other [] d = refl
chunk_at-without_other id other ((j, a) ∷ cs) d =
    if_ind (λ (l : Chunks). chunk_at other l ≡ chunk_at other ((j, a) ∷ cs)) (id == j)
      (λ t. let far : (other == j) ≡ false = ground arith in rw far refl)
      (λ f. ap (λ o. if other == j then some a else o) (chunk_at-without_other id other cs d))

without_missing : (id : ℕ) (cs : Chunks) → chunk_at id cs ≡ none → without id cs ≡ cs
unfolding without
without_missing id [] = λ e. refl
without_missing id ((j, a) ∷ cs) =
    if_ind
      (λ (o : Option SideChunkAssembly).
        o ≡ none → (if id == j then cs else (j, a) ∷ without id cs) ≡ (j, a) ∷ cs)
      (id == j) (λ t (e : some a ≡ none). absurd (cc))
      (λ f e. rw f (ap (λ l. (j, a) ∷ l) (without_missing id cs e)))

pub remove_chunk-without :
    (id : ℕ) (r : Retained) → (remove_chunk id r).1.chunks ≡ without id r.chunks
unfolding remove_chunk
remove_chunk-without id r =
    opt_ind (λ (x : Option SideChunkAssembly × Retained). x.1.chunks ≡ without id r.chunks)
      (chunk_at id r.chunks) (λ n. sym (without_missing id r.chunks n)) (λ a e. refl)
