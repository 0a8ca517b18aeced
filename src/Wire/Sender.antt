-- ===== src/Wire/Sender.antt =====
-- The addresses of senders, src/packet.rs, and their names by the address book, src/wire_format.rs.
-- Names are UTF-8 bytes.
use sedsnet.Base.{
  u32_max, ltb, ◌^◌, Option, List, Name, ℕ, if◌then◌else◌, ◌==◌, ◌||◌, ◌%◌, ◌/◌, ◌*◌, ◌-◌, ◌++◌,
  ◌+◌, suc, zero, ◌∷◌, [], some, none,
}
use sedsnet.Side.Hash.{hash_bytes_u64}

-- `str::strip_prefix`
abbrev pub strip_prefix : List ℕ → Name → Option Name
strip_prefix [] name = some name
strip_prefix (p ∷ ps) [] = none
strip_prefix (p ∷ ps) (c ∷ name) = if p == c then strip_prefix ps name else none

-- The digits of `str::parse::<u32>`, which refuses what is past the last `u32`.
unfoldable pub parse_digits : List ℕ → ℕ → Option ℕ
parse_digits [] n = some n
parse_digits (c ∷ cs) n =
    let next = n * 10 + (c - b'0') in
    let rest = parse_digits cs next in
    if ltb c b'0' || ltb b'9' c then none else if ltb u32_max next then none else rest

-- `str::parse::<u32>`: one sign `+` may be in front of the digits, of which there is one at least.
unfoldable pub parse_u32 : List ℕ → Option ℕ
unfolding parse_digits
parse_u32 [] = none
parse_u32 (c ∷ []) = parse_digits (c ∷ []) 0
parse_u32 (c ∷ d ∷ cs) = if c == b'+' then parse_digits (d ∷ cs) 0 else parse_digits (c ∷ d ∷ cs) 0

abbrev pub alias_prefix : List ℕ
alias_prefix = b'@' ∷ b'a' ∷ b'd' ∷ b'd' ∷ b'r' ∷ b':' ∷ []

-- The number of a name of the form `@addr:N`.
abbrev pub alias_address : Name → Option ℕ
alias_address name = elim (strip_prefix alias_prefix name) [ none ↦ none | some s ↦ parse_u32 s ]

abbrev pub address_seed : ℕ
address_seed = 0xA6D3_8C21_4B7F_19E5

unfoldable pub sender_address_u32 : Name → ℕ
unfolding parse_u32
sender_address_u32 sender = elim (alias_address sender) [
  | some address ↦ address
  | none ↦ let raw = hash_bytes_u64 address_seed sender % 2 ^ 32 in if raw == 0 then 1 else raw
]

-- The names that have been packed, by their addresses; the build without `std` has an empty book.
abbrev pub AddressBook : Type 0
AddressBook = List (ℕ × Name)

abbrev pub name_at : ℕ → AddressBook → Option Name
name_at address [] = none
name_at address ((a, name) ∷ book) = if a == address then some name else name_at address book

-- `entry(addr).or_insert_with`
unfoldable pub remember_source_address : ℕ → Name → AddressBook → AddressBook
remember_source_address address sender book = elim (name_at address book) [
  | none ↦ (address, sender) ∷ book
  | some known ↦ book
]

unfoldable pub source_address_for_sender : Name → AddressBook → ℕ × AddressBook
unfolding remember_source_address
source_address_for_sender sender book =
    let address = sender_address_u32 sender in
    (address, remember_source_address address sender book)

-- The loop from the last digit on, in front of `out`. A `u32` has at most ten digits, so ten rounds
-- are enough, and the array of the source has room for them and the prefix.
unfoldable pub decimal : ℕ → ℕ → List ℕ → List ℕ
decimal zero n out = out
decimal (suc fuel) n out =
    let more = (b'0' + n % 10) ∷ out in
    let rest = decimal fuel (n / 10) more in if n / 10 == 0 then more else rest

unfoldable pub format_sender_address : ℕ → Name
unfolding decimal
format_sender_address address = alias_prefix ++ decimal 10 address []

unfoldable pub sender_name_for_address : AddressBook → ℕ → Name
unfolding format_sender_address
sender_name_for_address book address = elim (name_at address book) [
  | none ↦ format_sender_address address
  | some name ↦ name
]
