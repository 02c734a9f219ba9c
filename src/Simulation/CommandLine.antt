-- ===== src/Simulation/CommandLine.antt =====
-- The command line of platform/simulation/src/simulation-main.c. A text is the list of its characters.
pub mod Decimal
pub mod Limit
use ssm_runtime.Base.{
  ℕ, zero, suc, ◌+◌, ◌-◌, ◌*◌, ◌%◌, ◌^◌, ◌≡◌, refl, Bool, true, false, ◌&&◌, ◌||◌, List, [], ◌∷◌,
  leb, ◌==◌, if◌then◌else◌, Result, ok, ◌>>=◌,
}
use ssm_runtime.State.{State}
use ssm_runtime.Scheduler.{Limits, Steps}
use ssm_runtime.Simulation.{main}

abbrev pub Text : Type 0
Text = List ℕ

-- `strcmp(a, b) == 0`
abbrev pub same_text : Text → Text → Bool
same_text [] [] = true
same_text (x ∷ xs) (y ∷ ys) = x == y && same_text xs ys
same_text [] (y ∷ ys) = false
same_text (x ∷ xs) [] = false

-- "-h", "--help", "-l", "--limit", "--" and "0"
abbrev pub short_help : Text
short_help = 45 ∷ 104 ∷ []

abbrev pub long_help : Text
long_help = 45 ∷ 45 ∷ 104 ∷ 101 ∷ 108 ∷ 112 ∷ []

abbrev pub short_limit : Text
short_limit = 45 ∷ 108 ∷ []

abbrev pub long_limit : Text
long_limit = 45 ∷ 45 ∷ 108 ∷ 105 ∷ 109 ∷ 105 ∷ 116 ∷ []

abbrev pub end_mark : Text
end_mark = 45 ∷ 45 ∷ []

abbrev pub zero_text : Text
zero_text = 48 ∷ []

-- isdigit and isspace
abbrev pub is_digit : (c : ℕ) → Bool
is_digit c = leb 48 c && leb c 57

abbrev pub is_space : (c : ℕ) → Bool
is_space c = c == 32 || leb 9 c && leb c 13

-- `atoi`, converted to size_t: white space, a sign, and the digits that follow. A value out of the range of int,
-- which C leaves undefined, is taken as it is.
abbrev pub read_digits : (value : ℕ) → Text → ℕ
read_digits value [] = value
read_digits value (c ∷ cs) =
    let more = read_digits (value * 10 + (c - 48)) cs in if is_digit c then more else value

abbrev pub read_signed : Text → ℕ
read_signed [] = 0
read_signed (c ∷ cs) =
    if c == 45
    then (2 ^ 64 - read_digits 0 cs % 2 ^ 64) % 2 ^ 64
    else if c == 43
    then read_digits 0 cs % 2 ^ 64
    else read_digits 0 (c ∷ cs) % 2 ^ 64

unfoldable pub atoi : Text → ℕ
atoi [] = 0
atoi (c ∷ cs) = let rest = atoi cs in if is_space c then rest else read_signed (c ∷ cs)

-- What `main` does with its arguments: it prints the help and returns 0, or complains and returns 2, or runs
-- the program with a limit and the arguments that are left.
pub data Request : Type 0 where
  help complaint : Request
  simulate : (stop_at_s : ℕ) → (init_args : List Text) → Request

-- The loop over the arguments. The flag is set where the next one is the limit.
unfoldable pub parse_args : List Text → (limit_next : Bool) → (stop_at_s : ℕ) → Request
parse_args [] true stop_at_s = complaint
parse_args [] false stop_at_s = simulate stop_at_s []
parse_args (arg ∷ rest) true stop_at_s =
    let n = atoi arg in
    let unlimited = parse_args rest false 0 in
    let limited = parse_args rest false n in
    if same_text arg zero_text then unlimited else if n == 0 then complaint else limited
parse_args (arg ∷ rest) false stop_at_s =
    let next = parse_args rest true stop_at_s in
    if same_text arg short_help || same_text arg long_help
    then help
    else if same_text arg short_limit || same_text arg long_limit
    then next
    else if same_text arg end_mark
    then simulate stop_at_s rest
    else simulate stop_at_s (arg ∷ rest)

-- the arguments behind the name of the program, with the limit of 20 seconds that holds without one
abbrev pub request : (arguments : List Text) → Request
request arguments = parse_args arguments false 20

-- What `main` does once it has read them: the value that it returns, and the state. The program's start reads
-- the arguments that are left.
abbrev pub serve :
    (fuel : ℕ)
    → Limits
    → Steps
    → (program_init : List Text → State → Result State) → (program_exit : State → Result State)
    → State
    → Request
    → Result (ℕ × State)
serve fuel l steps program_init program_exit s help = ok (0, s)
serve fuel l steps program_init program_exit s complaint = ok (2, s)
serve fuel l steps program_init program_exit s (simulate stop_at_s init_args) =
    main fuel l steps (program_init init_args) program_exit stop_at_s s >>= λ s1. ok (0, s1)

-- `main`
unfoldable pub run_command :
    (fuel : ℕ)
    → Limits
    → Steps
    → (program_init : List Text → State → Result State) → (program_exit : State → Result State)
    → (arguments : List Text) → State
    → Result (ℕ × State)
run_command fuel l steps program_init program_exit arguments s =
    serve fuel l steps program_init program_exit s (request arguments)
