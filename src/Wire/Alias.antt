-- ===== src/Wire/Alias.antt =====
-- The address of a name that stands for an address is that address, src/wire_format.rs.
use sedsnet.Wire.Sender.{
  address_seed, alias_prefix, strip_prefix, name_at, alias_address, remember_source_address,
  format_sender_address, AddressBook, sender_name_for_address, sender_address_u32,
  source_address_for_sender, parse_u32, parse_digits, decimal,
}
use sedsnet.Side.Hash.{hash_bytes_u64}
use sedsnet.Base.{
  subst, opt_ind, Option, All, some-injective, Name, [], some, none, sym, ap, if_ind, ltb, arith,
  u32_max, ◌^◌, List, ℕ, ◌==◌, ◌||◌, ◌∙◌, ◌%◌, ◌/◌, ◌*◌, ◌-◌, ◌<◌, ◌≤◌, ◌+◌, ◌≡◌, refl, false, suc,
  zero, ◌∷◌,
}

-- Reading the last digit after the digits before it gives the number.
last_digit :
    (n : ℕ) (out : List ℕ)
    → n ≤ u32_max
    → parse_digits ((b'0' + n % 10) ∷ out) (n / 10) ≡ parse_digits out n
unfolding parse_digits
last_digit n out h =
    let digit : (ltb (b'0' + n % 10) b'0' || ltb b'9' (b'0' + n % 10)) ≡ false = ground arith in
    let whole : n / 10 * 10 + (b'0' + n % 10 - b'0') ≡ n = omega arith in
    let fits : ltb u32_max n ≡ false = ground (arith, h) in rw digit (rw whole (rw fits refl))

parse_digits-decimal :
    (fuel n : ℕ) (out : List ℕ)
    → n < 10 ^ fuel
    → n ≤ u32_max
    → 0 < fuel
    → parse_digits (decimal fuel n out) 0 ≡ parse_digits out n
unfolding decimal
parse_digits-decimal zero n out h fits some_fuel = absurd (omega (arith, some_fuel))
parse_digits-decimal (suc fuel) n out h fits some_fuel =
    if_ind (λ l. parse_digits l 0 ≡ parse_digits out n) (n / 10 == 0)
      (λ single.
        let tens : n / 10 ≡ 0 = ground (arith, single) in
        ap (parse_digits ((b'0' + n % 10) ∷ out)) (sym tens) ∙ last_digit n out fits)
      (λ several.
        let tens : 0 < n / 10 = ground (arith, several) in
        parse_digits-decimal fuel (n / 10) _ (tenth fuel n h) (omega (arith, fits))
          (left fuel n tens (tenth fuel n h))
        ∙ last_digit n out fits)
  where
    tenth : (fuel n : ℕ) → n < 10 ^ suc fuel → n / 10 < 10 ^ fuel
    tenth fuel n h = omega (arith, h)

    left : (fuel n : ℕ) → 0 < n / 10 → n / 10 < 10 ^ fuel → 0 < fuel
    left zero n t h = absurd (omega (arith, t, h))
    left (suc fuel) n t h = omega arith

-- Decimal digits begin with a digit.
decimal-digit :
    (fuel n : ℕ) (out : List ℕ)
    → (c : ℕ) × (cs : List ℕ) × (decimal (suc fuel) n out ≡ c ∷ cs) × (b'0' ≤ c)
unfolding decimal
decimal-digit zero n out =
    if_ind (λ l. (c : ℕ) × (cs : List ℕ) × (l ≡ c ∷ cs) × (b'0' ≤ c)) (n / 10 == 0)
      (λ t. (_, _, refl, omega arith)) (λ f. (_, _, refl, omega arith))
decimal-digit (suc fuel) n out =
    if_ind (λ l. (c : ℕ) × (cs : List ℕ) × (l ≡ c ∷ cs) × (b'0' ≤ c)) (n / 10 == 0)
      (λ t. (_, _, refl, omega arith)) (λ f. decimal-digit fuel (n / 10) _)

parse_u32-digits : (c : ℕ) (cs : List ℕ) → b'0' ≤ c → parse_u32 (c ∷ cs) ≡ parse_digits (c ∷ cs) 0
unfolding parse_u32
parse_u32-digits c [] h = refl
parse_u32-digits c (d ∷ cs) h = let plain : (c == b'+') ≡ false = ground (arith, h) in rw plain refl

parse_u32-decimal : (n : ℕ) → n ≤ u32_max → parse_u32 (decimal 10 n []) ≡ some n
unfolding parse_digits
parse_u32-decimal n h =
    let (c, cs, e, digit) = decimal-digit 9 n [] in
    ap parse_u32 e
    ∙ parse_u32-digits c cs digit
    ∙ ap (λ l. parse_digits l 0) (sym e)
    ∙ parse_digits-decimal 10 n [] (omega (arith, h)) h (omega arith)

named_alias :
    (name : Name) (address : ℕ)
    → alias_address name ≡ some address
    → sender_address_u32 name ≡ address
unfolding sender_address_u32
named_alias name address e = rw (e, sender_address_u32) refl

sender_address_u32-format_sender_address :
    (address : ℕ) → address ≤ u32_max → sender_address_u32 (format_sender_address address) ≡ address
unfolding format_sender_address
sender_address_u32-format_sender_address address h =
    named_alias (format_sender_address address) address (parse_u32-decimal address h)

-- Each name of the book is kept under its address.
abbrev pub IsBook : AddressBook → Type 0
IsBook book = All (λ (e : ℕ × Name). sender_address_u32 e.1 ≡ e.0) book

pub source_address_for_sender-IsBook :
    (sender : Name) (book : AddressBook)
    → IsBook book
    → IsBook (source_address_for_sender sender book).1
unfolding source_address_for_sender remember_source_address
source_address_for_sender-IsBook sender book b =
    opt_ind IsBook (name_at (sender_address_u32 sender) book) (λ _. (refl, b)) (λ _ _. b)

name_at-IsBook :
    (address : ℕ) (book : AddressBook) {name : Name}
    → IsBook book
    → name_at address book ≡ some name
    → sender_address_u32 name ≡ address
name_at-IsBook address [] {name} b = λ (e : none ≡ some name). absurd (cc)
name_at-IsBook address ((a, known) ∷ book) {name} (this, b) =
    if_ind (λ (o : Option Name). o ≡ some name → sender_address_u32 name ≡ address) (a == address)
      (λ same e.
        subst (λ n. sender_address_u32 n ≡ address) (some-injective _ _ e)
          (this ∙ ground (arith, same)))
      (λ other e. name_at-IsBook address book b e)

-- Whatever name stands for an address, its address is this one.
pub sender_address_u32-sender_name_for_address :
    (book : AddressBook) (address : ℕ)
    → IsBook book
    → address ≤ u32_max
    → sender_address_u32 (sender_name_for_address book address) ≡ address
unfolding sender_name_for_address
sender_address_u32-sender_name_for_address book address b h =
    opt_ind (λ name. sender_address_u32 name ≡ address) (name_at address book)
      (λ _. sender_address_u32-format_sender_address address h)
      (λ name e. name_at-IsBook address book b e)

parse_digits-word :
    (cs : List ℕ) (n : ℕ) {m : ℕ} → n ≤ u32_max → parse_digits cs n ≡ some m → m ≤ u32_max
unfolding parse_digits
parse_digits-word [] n h = λ e. omega (arith, h, some-injective _ _ e)
parse_digits-word (c ∷ cs) n {m} h =
    if_ind (λ (o : Option ℕ). o ≡ some m → m ≤ u32_max) (ltb c b'0' || ltb b'9' c)
      (λ t e. absurd (cc))
      λ digit.
        if_ind (λ (o : Option ℕ). o ≡ some m → m ≤ u32_max) (ltb u32_max (n * 10 + (c - b'0')))
          (λ t e. absurd (cc)) (λ fits e. parse_digits-word cs _ (ground (arith, fits)) e)

parse_u32-word : (cs : List ℕ) {m : ℕ} → parse_u32 cs ≡ some m → m ≤ u32_max
unfolding parse_u32
parse_u32-word [] {m} = λ (e : none ≡ some m). absurd (cc)
parse_u32-word (c ∷ []) {m} = λ e. parse_digits-word (c ∷ []) 0 (omega arith) e
parse_u32-word (c ∷ d ∷ cs) {m} =
    if_ind (λ (o : Option ℕ). o ≡ some m → m ≤ u32_max) (c == b'+')
      (λ t e. parse_digits-word (d ∷ cs) 0 (omega arith) e)
      (λ f e. parse_digits-word (c ∷ d ∷ cs) 0 (omega arith) e)

alias_address-word : (sender : Name) {m : ℕ} → alias_address sender ≡ some m → m ≤ u32_max
alias_address-word sender {m} =
    opt_ind (λ o. o ≡ some m → m ≤ u32_max) (strip_prefix alias_prefix sender)
      (λ _ (e : none ≡ some m). absurd (cc)) (λ s _ e. parse_u32-word s e)

pub sender_address_u32-word : (sender : Name) → sender_address_u32 sender ≤ u32_max
unfolding sender_address_u32
sender_address_u32-word sender =
    opt_ind (λ a. a ≤ u32_max) (alias_address sender)
      (λ _.
        if_ind (λ a. a ≤ u32_max) (hash_bytes_u64 address_seed sender % 2 ^ 32 == 0)
          (λ _. omega arith) (λ _. omega arith))
      (λ a e. alias_address-word sender e)
