-- ===== src/Console.antt =====
-- The standard streams as the prompts of src/main.cpp, src/server/server.cpp and
-- src/client/client.cpp use them: what is left of the input, the two error bits of `std::cin`, and
-- all that was written to `std::cout`. The operations are those of the C++ library.
pub mod Words
use event_driven_tcp_chatroo.Base.{
  ℕ, ◌+◌, ◌-◌, ◌*◌, ◌%◌, ◌^◌, Bool, true, false, not, ◌&&◌, ◌||◌, Option, none, some, List, [], ◌∷◌,
  ◌++◌, Bytes, is_empty, leb, ◌==◌, if◌then◌else◌,
}

pub record Console : Type 0 where
  pub input : Bytes
  pub fail : Bool
  pub eof : Bool
  pub shown : Bytes

abbrev pub good : Console → Bool
good c = not c.fail && not c.eof

abbrev pub show : Bytes → Console → Console
show text c = record c { shown = c.shown ++ text }

-- `std::isspace` in the "C" locale, and the digits.
abbrev pub is_space : ℕ → Bool
is_space x = x == b' ' || (leb 9 x && leb x 13)

abbrev pub is_digit : ℕ → Bool
is_digit x = leb b'0' x && leb x b'9'

abbrev pub skip_spaces : Bytes → Bytes
skip_spaces [] = []
skip_spaces (x ∷ xs) = let rest = skip_spaces xs in if is_space x then rest else x ∷ xs

-- The longest beginning whose bytes pass a test, and the rest.
abbrev pub span : (ℕ → Bool) → Bytes → Bytes × Bytes
span test [] = ([], [])
span test (x ∷ xs) =
    let rest = span test xs in if test x then (x ∷ rest.0, rest.1) else ([], x ∷ xs)

abbrev pub take_word : Bytes → Bytes × Bytes
take_word = span (λ x. not (is_space x))

-- What the extraction of a word makes of the input behind the spaces.
abbrev pub word_read : Bytes × Bytes → Console → Option Bytes × Console
word_read ([], rest) c = (none, record c { input = rest; fail = true; eof = true })
word_read (x ∷ word, rest) c = (some (x ∷ word), record c { input = rest; eof = is_empty rest })

-- `std::cin >> word`: `none` where the stream has failed then.
unfoldable pub read_word : Console → Option Bytes × Console
read_word c =
    if good c
    then word_read (take_word (skip_spaces c.input)) c
    else (none, record c { fail = true })

abbrev pub decimal : ℕ → Bytes → ℕ
decimal acc [] = acc
decimal acc (x ∷ xs) = decimal (acc * 10 + (x - b'0')) xs

abbrev pub take_sign : Bytes → Bool × Bytes
take_sign [] = (false, [])
take_sign (x ∷ xs) =
    if x == b'-' then (true, xs) else if x == b'+' then (false, xs) else (false, x ∷ xs)

-- The `int` that is stored, as its bit pattern, and whether the extraction succeeds: no digits give
-- 0, and a number out of range gives the nearest one.
abbrev pub int_value : Bool → Bytes → ℕ × Bool
int_value negative [] = (0, false)
int_value false (x ∷ digits) =
    if leb (decimal 0 (x ∷ digits)) (2 ^ 31 - 1)
    then (decimal 0 (x ∷ digits), true)
    else (2 ^ 31 - 1, false)
int_value true (x ∷ digits) =
    if leb (decimal 0 (x ∷ digits)) (2 ^ 31)
    then ((2 ^ 32 - decimal 0 (x ∷ digits)) % 2 ^ 32, true)
    else (2 ^ 31, false)

abbrev pub int_read : Bytes → Console → Option ℕ × Console
int_read [] c = (none, record c { input = []; fail = true; eof = true })
int_read (x ∷ text) c =
    let (negative, unsigned) = take_sign (x ∷ text) in
    let (digits, rest) = span is_digit unsigned in
    let (value, ok) = int_value negative digits in
    (some value, record c { input = rest; fail = not ok; eof = is_empty rest })

-- `std::cin >> number`: what is stored, `none` where the variable keeps what it holds; the stream
-- tells whether it has failed.
unfoldable pub read_int : Console → Option ℕ × Console
read_int c = if good c then int_read (skip_spaces c.input) c else (none, record c { fail = true })

-- `std::cin.clear()`
abbrev pub clear : Console → Console
clear c = record c { fail = false; eof = false }

-- The input behind the next end of a line, and whether there is one.
abbrev pub after_line : Bytes → Bytes × Bool
after_line [] = ([], false)
after_line (x ∷ xs) = let rest = after_line xs in if x == b'\n' then (xs, true) else rest

-- `std::cin.ignore(std::numeric_limits<std::streamsize>::max(), '\n')`
unfoldable pub ignore_line : Console → Console
ignore_line c =
    if good c
    then (let (rest, found) = after_line c.input in record c { input = rest; eof = not found })
    else record c { fail = true }
