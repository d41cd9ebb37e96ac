-- ===== src/PosixChat.antt =====
-- A chat over POSIX message queues: cw06/zad2. The messages, which are arrays of bytes, and what the
-- C library does in them.
pub mod Buffers
pub mod Server
pub mod Client
use agh_sys_opy.Prelude.{
  ℕ, ◌+◌, ◌-◌, ◌%◌, List, [], ◌∷◌, ◌++◌, length, take, drop, set, Option, none, some, ltb,
  if◌then◌else◌,
}
use agh_sys_opy.Prelude.Int.{ℤ, pos, negsuc}
use agh_sys_opy.Text.{c_string}

abbrev pub msg_size : ℕ
msg_size = 1024

abbrev pub stop : ℕ
stop = 5

abbrev pub list : ℕ
list = 4

abbrev pub toall : ℕ
toall = 3

abbrev pub toone : ℕ
toone = 2

abbrev pub init : ℕ
init = 1

-- `char message[MSG_SIZE]`
abbrev pub Buffer : Type 0
Buffer = List ℕ

-- An `int` that is assigned to a `char`.
abbrev pub to_char : ℤ → ℕ
to_char (pos n) = n % 256
to_char (negsuc n) = 255 - n % 256

abbrev pub string_at : ℕ → Buffer → List ℕ
string_at place m = c_string (drop place m)

-- `strcpy` to a place; `none` where the string with its NUL does not fit.
unfoldable pub strcpy_at : ℕ → List ℕ → Buffer → Option Buffer
strcpy_at place s m =
    if ltb (place + length s) msg_size
    then some (take place m ++ (s ++ (0 ∷ drop (place + length s + 1) m)))
    else none

-- `strcat` to the string at a place.
unfoldable pub strcat_at : ℕ → List ℕ → Buffer → Option Buffer
unfolding strcpy_at
strcat_at place s m = strcpy_at (place + length (string_at place m)) s m
