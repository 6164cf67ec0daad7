-- ===== src/Args/Laws.antt =====
-- src/bin/clients.rs and src/bin/server.rs: which command lines `main` takes.
use rdma_prototype.Base.{
  ◌≡◌, ◌∙◌, ℕ, zero, suc, ◌+◌, ◌-◌, ap, ◌*◌, ◌/◌, ◌%◌, ◌≤◌, ◌<◌, Bool-cases, inl, inr, List, [],
  ◌∷◌, some, String, arith, ltb, length, if◌then◌else◌,
}
use rdma_prototype.Outcome.{ok}
use rdma_prototype.Args.{Settings, settings, u64_mod, read_digits, parse_u64, timeout_of}

-- A number in decimal, before some text.
unfoldable pub decimal_before : ℕ → ℕ → List ℕ → List ℕ
decimal_before zero n text = text
decimal_before (suc fuel) n text =
    let more = decimal_before fuel (n / 10) ((b'0' + n % 10) ∷ text) in
    if ltb n 10 then (b'0' + n) ∷ text else more

abbrev pub decimal : ℕ → List ℕ
decimal n = decimal_before (suc n) n []

read_digits-digit :
    (value d n : ℕ) (text : List ℕ)
    → d < 10
    → value * 10 + d ≡ n
    → n < u64_mod
    → read_digits value ((b'0' + d) ∷ text) ≡ read_digits n text
unfolding read_digits
read_digits-digit value d n text h e k =
    let same : value * 10 + (b'0' + d - b'0') ≡ n = omega arith in rw same (ground arith)

read_digits-decimal_before :
    (fuel n : ℕ) (text : List ℕ)
    → n < fuel
    → n < u64_mod
    → read_digits 0 (decimal_before fuel n text) ≡ read_digits n text
unfolding decimal_before
read_digits-decimal_before zero n text h k = absurd (omega arith)
read_digits-decimal_before (suc fuel) n text h k = elim (Bool-cases (ltb n 10)) [
  | inl small ↦ rw small (read_digits-digit 0 n n text (ground arith) (omega arith) k)
  | inr large ↦ rw large (
      read_digits-decimal_before fuel (n / 10) ((b'0' + n % 10) ∷ text) (ground arith) (omega arith)
      ∙ read_digits-digit (n / 10) (n % 10) n text (omega arith) (omega arith) k)
]

-- A number begins with a digit, so that the sign is not read.
decimal_before-head :
    (fuel n : ℕ) (text : List ℕ)
    → n < fuel
    → (d : ℕ) × (rest : List ℕ) × (d < 10) × (decimal_before fuel n text ≡ (b'0' + d) ∷ rest)
unfolding decimal_before
decimal_before-head zero n text h = absurd (omega arith)
decimal_before-head (suc fuel) n text h = elim (Bool-cases (ltb n 10)) [
  | inl small ↦ (n, text, ground arith, rw small)
  | inr large ↦ rw large (decimal_before-head fuel (n / 10) ((b'0' + n % 10) ∷ text) (ground arith))
]

parse_digit :
    (d : ℕ) (text : List ℕ)
    → d < 10
    → parse_u64 ((b'0' + d) ∷ text) ≡ read_digits 0 ((b'0' + d) ∷ text)
unfolding parse_u64
parse_digit d text h = ground arith

pub parse_u64-decimal : (n : ℕ) → n < u64_mod → parse_u64 (decimal n) ≡ some n
unfolding read_digits
parse_u64-decimal n h =
    let (d, rest, small, e) = decimal_before-head (suc n) n [] (omega arith) in
    cc (
      ap (read_digits 0) e,
      parse_digit d rest small,
      read_digits-decimal_before (suc n) n [] (omega arith) h,
    )

timeout_of-decimal : (n : ℕ) → n < u64_mod → timeout_of (some (decimal n)) ≡ ok n
unfolding timeout_of
timeout_of-decimal n h = ground (arith, parse_u64-decimal n h)

-- A command line with an address, a port, a domain and a timeout that is written in decimal is
-- read back as these settings, for each timeout from 1 to 3600 seconds.
pub settings-decimal :
    (usage : String) (ip port domain : List ℕ) (seconds : ℕ)
    → 1 ≤ seconds
    → seconds ≤ 3600
    → settings usage (ip ∷ port ∷ domain ∷ decimal seconds ∷ [])
      ≡ ok (record { ip = ip; port = port; domain = some domain; seconds = seconds })
unfolding settings
settings-decimal usage ip port domain seconds l u =
    ground (arith, timeout_of-decimal seconds (omega arith))

abbrev pub rest_of : List (List ℕ) → List (List ℕ)
rest_of [] = []
rest_of (ip ∷ rest) = rest

-- A command line that is taken has one to four arguments, the first of which is the address, and a
-- timeout from 1 to 3600 seconds.
pub settings_bounds :
    (usage : String) (args : List (List ℕ)) (s : Settings)
    → settings usage args ≡ ok s
    → (1 ≤ s.seconds)
      × (s.seconds ≤ 3600)
      × (1 ≤ length args)
      × (length args ≤ 4)
      × (args ≡ s.ip ∷ rest_of args)
unfolding settings
settings_bounds usage args s h = ground arith
