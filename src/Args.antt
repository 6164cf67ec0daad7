-- ===== src/Args.antt =====
-- src/bin/clients.rs and src/bin/server.rs: the command line of `main`, which both read in the same
-- way. Arguments are byte strings.
pub mod Laws
pub mod Reading
use rdma_prototype.Base.{
  ℕ, suc, ◌+◌, ◌-◌, ◌*◌, ◌^◌, Bool, not, ◌&&◌, ◌||◌, List, [], ◌∷◌, Option, none, some, String, ltb,
  leb, ◌==◌, length, get_elem?, if◌then◌else◌,
}
use rdma_prototype.Outcome.{Outcome, ok, err, panic, and_then, message}

-- The arguments of `run`, with the timeout in seconds.
pub record Settings : Type 0 where
  pub ip : List ℕ
  pub port : List ℕ
  pub domain : Option (List ℕ)
  pub seconds : ℕ

abbrev pub u64_mod : ℕ
u64_mod = 2 ^ 64

unfoldable pub is_digit : ℕ → Bool
is_digit c = leb b'0' c && leb c b'9'

-- The digits of a `u64`, most significant first; a digit that overflows is an error.
unfoldable pub read_digits : ℕ → List ℕ → Option ℕ
unfolding is_digit
read_digits value [] = some value
read_digits value (c ∷ text) =
    let next = value * 10 + (c - b'0') in
    if not (is_digit c) || leb u64_mod next then none else read_digits next text

-- There has to be a digit.
unfoldable pub read_number : List ℕ → Option ℕ
unfolding read_digits
read_number [] = none
read_number (c ∷ text) = read_digits 0 (c ∷ text)

-- `str::parse::<u64>`, which takes one `+`.
unfoldable pub parse_u64 : List ℕ → Option ℕ
unfolding read_number
parse_u64 [] = none
parse_u64 (c ∷ text) = if c == b'+' then read_number text else read_number (c ∷ text)

-- `args.get(3).map_or(Ok(30_u64), |s| s.parse::<u64>()).map_err(|_| "invalid timeout")?`
unfoldable pub timeout_of : Option (List ℕ) → Outcome ℕ
unfolding parse_u64
timeout_of none = ok 30
timeout_of (some text) = elim (parse_u64 text) [
  | none ↦ err (message "invalid timeout")
  | some n ↦ ok n
]

-- `(1..=3600).contains(&seconds)`
unfoldable pub in_range : ℕ → Bool
in_range seconds = leb 1 seconds && leb seconds 3600

-- `&args[0]`
unfoldable pub first_of : List (List ℕ) → Outcome (List ℕ)
first_of [] = panic
first_of (ip ∷ rest) = ok ip

-- `args.get(1).map_or("7471", String::as_str)`
unfoldable pub port_of : Option (List ℕ) → List ℕ
port_of none = b'7' ∷ b'4' ∷ b'7' ∷ b'1' ∷ []
port_of (some port) = port

-- `main` up to the call of `run`; the two programs differ in their usage.
unfoldable pub settings : String → List (List ℕ) → Outcome Settings
unfolding timeout_of in_range first_of port_of
settings usage args =
    if length args == 0 || ltb 4 (length args)
    then err (message usage)
    else and_then (timeout_of (get_elem? args 3)) (λ seconds.
      if not (in_range seconds)
      then err (message "timeout must be between 1 and 3600 seconds")
      else and_then (first_of args) (λ ip. ok (record {
        ip = ip;
        port = port_of (get_elem? args 1);
        domain = get_elem? args 2;
        seconds = seconds;
      })))

-- `Duration::from_secs`, in nanoseconds.
abbrev pub duration : ℕ → ℕ
duration seconds = seconds * 1000000000
