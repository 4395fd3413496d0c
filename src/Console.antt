-- ===== src/Console.antt =====
-- src/console.c: the keys that console_getchar reads.
-- A byte that getchar gives is a number; `none` is a read that has to wait for more of them.
pub mod Keys
use kexec_loader.Base.{
  ltb, ◌==◌, if◌then◌else◌, ◌>>=◌, length, ℕ, zero, suc, not, Option, none, some, List, [], ◌∷◌,
  ◌++◌,
}

-- The bytes in `getc_buf`, and those that stdin has.
pub record Console : Type 0 where
  pub getc_buf : List ℕ
  pub input : List ℕ

-- What `console_getchar` returns: the codes KEY_*, which are below -127, or a byte.
pub data Key : Type 0 where
  key_up key_down key_left key_right key_home key_end key_del key_backspace : Key
  byte : ℕ → Key

abbrev pub getc_size : ℕ
getc_size = 256

-- `GETC_PUSH`
unfoldable pub getc_push : ℕ → Console → Console
getc_push x s =
    if ltb (length s.getc_buf) getc_size then record s { getc_buf = s.getc_buf ++ x ∷ [] } else s

abbrev pub from_list : (List ℕ → Console) → List ℕ → Option (ℕ × Console)
from_list rest [] = none
from_list rest (c ∷ bytes) = some (c, rest bytes)

unfoldable pub getchar : Console → Option (ℕ × Console)
getchar s = from_list (λ bytes. record s { input = bytes }) s.input

unfoldable pub take_cbuf : Console → List ℕ → Option (ℕ × Console)
unfolding getchar
take_cbuf s [] = getchar s
take_cbuf s (c ∷ bytes) = some (c, record s { getc_buf = bytes })

unfoldable pub getchar_cbuf : Console → Option (ℕ × Console)
unfolding take_cbuf
getchar_cbuf s = take_cbuf s s.getc_buf

abbrev pub Read : Type 0
Read = Option (Key × Console)

-- `getchar(); return key;`
unfoldable pub skip_char : Key → Console → Read
unfolding getchar
skip_char key s = getchar s >>= λ (c, t). some (key, t)

-- The `switch`, and the next round behind an escape sequence that it does not know.
unfoldable pub escape_key : (Console → Read) → ℕ → Console → Read
unfolding skip_char
escape_key again c s =
    if c == 0x41
    then some (key_up, s)
    else if c == 0x42
    then some (key_down, s)
    else if c == 0x43
    then some (key_right, s)
    else if c == 0x44
    then some (key_left, s)
    else if c == 0x31
    then skip_char key_home s
    else if c == 0x34
    then skip_char key_end s
    else if c == 0x33
    then skip_char key_del s
    else again s

-- behind an escape byte
unfoldable pub escape_round : (Console → Read) → ℕ → Console → Read
unfolding getchar_cbuf escape_key getc_push
escape_round again c s =
    if c == b'['
    then (getchar_cbuf s >>= λ (d, t). escape_key again d t)
    else some (byte 0x1B, getc_push c s)

unfoldable pub key_round : (Console → Read) → ℕ → Console → Read
unfolding getchar_cbuf escape_round
key_round again c s =
    if c == 0x7F
    then some (key_backspace, s)
    else if c == 0x1B
    then (getchar_cbuf s >>= λ (d, t). escape_round again d t)
    else some (byte c, s)

-- Each round takes a byte at least; one round is enough where the escape sequences are known.
unfoldable pub console_getchar : ℕ → Console → Read
unfolding getchar_cbuf key_round
console_getchar zero s = none
console_getchar (suc fuel) s = getchar_cbuf s >>= λ (c, t). key_round (console_getchar fuel) c t
