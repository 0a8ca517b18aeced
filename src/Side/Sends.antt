-- ===== src/Side/Sends.antt =====
-- What `send_resuming` of src/side_transport.rs sends, one attempt after the other.
use sedsnet.Base.{
  sym, subst, ◌∙◌, ltb, ap, Option, ◌-◌, Bool-cases, Bool, ◌⊎◌, refl, true, inr, inl, none, ◌^◌,
  if_ind, arith, ℕ, List, if◌then◌else◌, ◌==◌, ◌%◌, ◌++◌, ◌<◌, ◌≤◌, ◌+◌, ◌≡◌, false, suc, zero, ◌∷◌,
  [], some,
}
use sedsnet.Errors.{err, ok, TelemetryError, Result}
use sedsnet.Side.Sending.{send_resuming, admits_next, Sent, Link, send_loop}
use sedsnet.Side.Assembly.{memory_pressure}
use sedsnet.Wire.Reader.{to_le_bytes}
use sedsnet.Side.Frames.{
  kind_chunk, chunk_payload, wrap_side_transport_frame_parts, SideTransportFrames, next_frame,
}

-- The chunk of an index, and the first chunks.
unfoldable pub frame_at : (List ℕ → ℕ) → SideTransportFrames → ℕ → List ℕ
unfolding wrap_side_transport_frame_parts chunk_payload
frame_at crc32 f index =
    if f.payload_budget == 0
    then f.frame
    else wrap_side_transport_frame_parts crc32 kind_chunk (
        to_le_bytes 4 f.transfer_id
        ∷ to_le_bytes 2 (index % 2 ^ 16)
        ∷ to_le_bytes 2 (f.total % 2 ^ 16)
        ∷ chunk_payload f index
        ∷ [])

unfoldable pub first_frames : (List ℕ → ℕ) → SideTransportFrames → ℕ → List (List ℕ)
unfolding frame_at
first_frames crc32 f zero = []
first_frames crc32 f (suc n) = first_frames crc32 f n ++ frame_at crc32 f n ∷ []

-- The link with a log of the frames that it has accepted.
abbrev pub logged : {S : Type 0} → Link S → Link (List (List ℕ) × S)
logged l = record {
  admits = λ s. l.admits s.1;
  send = λ s bytes. elim ((l.send s.1 bytes).0) [
    | ok u ↦ (ok u, (s.0 ++ bytes ∷ [], (l.send s.1 bytes).1))
    | err e ↦ (err e, (s.0, (l.send s.1 bytes).1))
  ];
}

-- What an attempt has sent in the end.
pub record Sends {S : Type 0} (crc32 : List ℕ → ℕ) (f : SideTransportFrames) (next : ℕ)
    (a : Sent (List (List ℕ) × S) Unit) : Type 0 where
  pub forward : next ≤ a.next
  pub bounded : a.next ≤ f.total
  pub accepted : a.link.0 ≡ first_frames crc32 f a.next
  pub complete : a.result ≡ ok tt → a.next ≡ f.total

result_cases :
    {A : Type 0} (r : Result A) → ((a : A) × (r ≡ ok a)) ⊎ ((e : TelemetryError) × (r ≡ err e))
result_cases (ok a) = inl (a, refl)
result_cases (err e) = inr (e, refl)

both_some :
    (b : Bool) (x y : List ℕ) (moved : SideTransportFrames)
    → if◌then◌else◌ {A = Option (List ℕ × SideTransportFrames)} b
        (some (x, moved))
        (some (y, moved))
      ≡ some (if b then x else y, moved)
both_some true x y moved = refl
both_some false x y moved = refl

pub next_frame-some :
    (crc32 : List ℕ → ℕ) (f : SideTransportFrames) (next : ℕ)
    → next < f.total
    → next_frame crc32 (record f { index = next })
      ≡ some (frame_at crc32 f next, record f { index = next + 1 })
unfolding next_frame frame_at
next_frame-some crc32 f next h =
    let more : (next == f.total) ≡ false = ground (arith, h) in
    rw more (both_some (f.payload_budget == 0) _ _ (record f { index = next + 1 }))

pub next_frame-none :
    (crc32 : List ℕ → ℕ) (f : SideTransportFrames) (next : ℕ)
    → next ≡ f.total
    → next_frame crc32 (record f { index = next }) ≡ none
unfolding next_frame
next_frame-none crc32 f next h =
    let all : (next == f.total) ≡ true = ground (arith, h) in rw all refl

logged_ok :
    {S : Type 0} (l : Link S) (log : List (List ℕ)) (s : S) (bytes : List ℕ) (u : Unit {0})
    → (l.send s bytes).0 ≡ ok u
    → (logged l).send (log, s) bytes ≡ (ok u, (log ++ bytes ∷ [], (l.send s bytes).1))
logged_ok l log s bytes u e = rw e refl

logged_err :
    {S : Type 0} (l : Link S) (log : List (List ℕ)) (s : S) (bytes : List ℕ) (x : TelemetryError)
    → (l.send s bytes).0 ≡ err x
    → (logged l).send (log, s) bytes ≡ (err x, (log, (l.send s bytes).1))
logged_err l log s bytes x e = rw e refl

one_more_frame :
    (crc32 : List ℕ → ℕ) (f : SideTransportFrames) (next : ℕ) (log : List (List ℕ))
    → log ≡ first_frames crc32 f next
    → log ++ frame_at crc32 f next ∷ [] ≡ first_frames crc32 f (next + 1)
unfolding first_frames
one_more_frame crc32 f next log g =
    let after : suc next ≡ next + 1 = omega arith in
    ap (λ l. l ++ frame_at crc32 f next ∷ []) g ∙ ap (first_frames crc32 f) after

send_loop-Sends :
    {S : Type 0} (fuel : ℕ) (crc32 : List ℕ → ℕ) (l : Link S) (next : ℕ) (f : SideTransportFrames)
    (log : List (List ℕ)) (s : S)
    → next + fuel ≡ suc f.total
    → next ≤ f.total
    → log ≡ first_frames crc32 f next
    → Sends crc32 f next (send_loop fuel crc32 (logged l) next (record f { index = next }) (log, s))
unfolding send_loop
send_loop-Sends zero crc32 l next f log s e h g = absurd (omega (arith, e, h))
send_loop-Sends {S = S} (suc fuel) crc32 l next f log s e h g =
    if_ind (Sends crc32 f next) (admits_next (logged l) (log, s) (record f { index = next }))
      (λ granted. elim (Bool-cases (next == f.total)) [
        | inl all ↦ rw (next_frame-none crc32 f next (ground (arith, all))) (record {
          forward = omega arith;
          bounded = h;
          accepted = g;
          complete = λ r. ground (arith, all);
        })
        | inr more ↦
            let inside : next < f.total = ground (arith, more, h) in
            let Left : Result (Unit {0}) × (List (List ℕ) × S) → Type 0 = λ x.
              Sends crc32 f next (elim x.0 [
                | ok u ↦
                    send_loop fuel crc32 (logged l) (next + 1) (record f { index = next + 1 }) x.1
                | err e ↦ record { result = err e; next = next; link = x.1 }
              ]) in
            rw (next_frame-some crc32 f next inside)
              (elim (result_cases ((l.send s (frame_at crc32 f next)).0)) [
                | inl (u, sent) ↦
                    let rest =
                      send_loop-Sends fuel crc32 l (next + 1) f (log ++ frame_at crc32 f next ∷ [])
                        (l.send s (frame_at crc32 f next)).1 (omega (arith, e))
                        (omega (arith, inside)) (one_more_frame crc32 f next log g) in
                    subst Left (sym (logged_ok l log s (frame_at crc32 f next) u sent)) (record {
                      forward = omega (arith, rest.forward);
                      bounded = rest.bounded;
                      accepted = rest.accepted;
                      complete = rest.complete;
                    })
                | inr (x, failed) ↦
                    subst Left (sym (logged_err l log s (frame_at crc32 f next) x failed)) (record {
                      forward = omega arith;
                      bounded = h;
                      accepted = g;
                      complete = λ (r : err x ≡ ok tt). absurd (cc);
                    })
              ])
      ])
      (λ refused. record {
        forward = omega arith;
        bounded = h;
        accepted = g;
        complete = λ (r : err memory_pressure ≡ ok tt). absurd (cc);
      })

-- An attempt that resumes where the last one stopped, with the first chunks accepted, leaves the first
-- chunks accepted again, each once and in order, whether it is completed, refused or failed; it does
-- not go back, and when it succeeds all chunks have been accepted.
pub send_resuming-Sends :
    {S : Type 0} (crc32 : List ℕ → ℕ) (l : Link S) (next : ℕ) (f : SideTransportFrames)
    (log : List (List ℕ)) (s : S)
    → next ≤ f.total
    → log ≡ first_frames crc32 f next
    → Sends crc32 f next (send_resuming crc32 (logged l) next f (log, s))
unfolding send_resuming
send_resuming-Sends crc32 l next f log s h g =
    let within : ltb f.total next ≡ false = ground arith in
    rw within (send_loop-Sends (suc (f.total - next)) crc32 l next f log s (omega (arith, h)) h g)
