-- ===== src/Wire/Payload.antt =====
-- The payload that `unpack_packet` reads back, src/wire_format.rs, once its memory is admitted.
use sedsnet.Errors.{ok, Result}
use sedsnet.Wire.Reader.{pure}
use sedsnet.Wire.Unpack.{read_compressed, uses_reserve, read_payload, admit_payload}
use sedsnet.Wire.Receiver.{Receiver}
use sedsnet.Wire.Ends.{Parses-Ends, left-Ends, Ends, lift-Parses}
use sedsnet.Wire.Bytes.{read_bytes-Parses}
use sedsnet.Wire.Parses.{skip-Parses, pure-Parses, last-Parses}
use sedsnet.Wire.Pack.{Services, payload_for_encoding, Packet}
use sedsnet.Base.{
  subst, if_ind, if◌then◌else◌, ◌≤◌, List, ℕ, Bool, true, false, ◌≡◌, ◌<◌, sym, ap, length, refl,
  arith,
}
use sedsnet.Wire.Contract.{WireContract}

-- Memory is granted whatever is asked for.
pub record AdmitsAll (u : Receiver) : Type 0 where
  pub general : (bytes largest : ℕ) → u.check bytes largest ≡ ok tt
  pub small : (bytes : ℕ) → u.check_small_protected_decode bytes ≡ ok tt

pub admit_payload-AdmitsAll :
    (u : Receiver) (managed : Bool) (frame_len : ℕ) (compressed : Bool) (ty dsz nep : ℕ)
    (eps : List ℕ) (contract : WireContract) (has_header : Bool) (left : ℕ)
    → AdmitsAll u
    → admit_payload u managed frame_len compressed ty dsz nep eps contract has_header left ≡ ok tt
unfolding admit_payload
admit_payload-AdmitsAll u managed frame_len compressed ty dsz nep eps contract has_header left g =
    if_ind (λ (r : Result (Unit {0})). r ≡ ok tt)
      (uses_reserve u managed frame_len compressed ty dsz nep eps contract has_header left)
      (λ t. g.small frame_len) (λ f. g.general _ _)

-- What the receiver does to what the sender's compression gives.
pub record Inverts (s : Services) (u : Receiver) : Type 0 where
  pub plain :
      (bytes : List ℕ)
      → (s.compress_if_beneficial bytes).0 ≡ false
      → (s.compress_if_beneficial bytes).1 ≡ bytes
  pub filled :
      (bytes : List ℕ)
      → (s.compress_if_beneficial bytes).0 ≡ true
      → 0 < length (s.compress_if_beneficial bytes).1
  pub back :
      (bytes : List ℕ)
      → (s.compress_if_beneficial bytes).0 ≡ true
      → u.decompress (s.compress_if_beneficial bytes).1 (length bytes) ≡ ok bytes

compressed-Ends :
    (u : Receiver) (payload wire : List ℕ)
    → AdmitsAll u
    → u.decompress wire (length payload) ≡ ok payload
    → Ends (read_payload u true (length payload)) wire payload
unfolding read_payload
compressed-Ends u payload wire g e =
    let n = length payload in
    left-Ends (read_compressed u n) (
      Parses-Ends (
        last-Parses _ (read_bytes-Parses (length wire) wire refl) (
          skip-Parses _ (lift-Parses e) (
            skip-Parses (λ granted. pure payload) (lift-Parses (g.general _ _))
              (pure-Parses payload)))))

-- A payload that is read back, with its room in the frame.
abbrev pub IsPayload : Receiver → List ℕ → Bool × List ℕ → Type 0
IsPayload u payload r =
    Ends (read_payload u r.0 (length payload)) r.1 payload
    × ((if r.0 then 1 else length payload) ≤ length r.1)

compress-IsPayload :
    (u : Receiver) (payload : List ℕ) (r : Bool × List ℕ)
    → AdmitsAll u
    → (r.0 ≡ false → r.1 ≡ payload)
    → (r.0 ≡ true → 0 < length r.1)
    → (r.0 ≡ true → u.decompress r.1 (length payload) ≡ ok payload)
    → IsPayload u payload r
unfolding read_payload
compress-IsPayload u payload (true, wire) g plain filled back =
    (compressed-Ends u payload wire g (back refl), filled refl)
compress-IsPayload u payload (false, wire) g plain filled back = (
  subst (λ l. Ends (read_payload u false (length payload)) l payload) (sym (plain refl))
      (Parses-Ends (read_bytes-Parses (length payload) payload refl)),
  omega (arith, ap length (plain refl)),
)

pub payload_for_encoding-IsPayload :
    (s : Services) (u : Receiver) (pkt : Packet)
    → Inverts s u
    → AdmitsAll u
    → IsPayload u pkt.payload (payload_for_encoding s pkt true)
unfolding payload_for_encoding
payload_for_encoding-IsPayload s u pkt i g =
    if_ind (IsPayload u pkt.payload) (s.is_discovery_type pkt.data_type)
      (λ t.
        compress-IsPayload u pkt.payload (false, pkt.payload) g (λ e. refl) (λ e. absurd (cc))
          (λ e. absurd (cc)))
      (λ f.
        compress-IsPayload u pkt.payload (s.compress_if_beneficial pkt.payload) g
          (i.plain pkt.payload) (i.filled pkt.payload) (i.back pkt.payload))
