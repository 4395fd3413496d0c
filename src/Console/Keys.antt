-- ===== src/Console/Keys.antt =====
-- The keys that are typed are the keys that `console_getchar` returns.
use kexec_loader.Console.{
  Console, Key, console_getchar, key_up, key_down, key_left, key_right, key_home, key_end, key_del,
  key_backspace, byte,
}
use kexec_loader.Base.{
  ltb, ◌==◌, ◌>>=◌, length, All, ℕ, zero, suc, ◌≤◌, ◌<◌, ◌≡◌, refl, true, false, Option, some, List,
  [], ◌∷◌, ◌++◌, append_assoc, arith,
}

-- The bytes that a terminal sends for a key.
abbrev pub encode : Key → List ℕ
encode key_up = 0x1B ∷ 0x5B ∷ 0x41 ∷ []
encode key_down = 0x1B ∷ 0x5B ∷ 0x42 ∷ []
encode key_right = 0x1B ∷ 0x5B ∷ 0x43 ∷ []
encode key_left = 0x1B ∷ 0x5B ∷ 0x44 ∷ []
encode key_home = 0x1B ∷ 0x5B ∷ 0x31 ∷ 0x7E ∷ []
encode key_end = 0x1B ∷ 0x5B ∷ 0x34 ∷ 0x7E ∷ []
encode key_del = 0x1B ∷ 0x5B ∷ 0x33 ∷ 0x7E ∷ []
encode key_backspace = 0x7F ∷ []
encode (byte c) = c ∷ []

abbrev pub encode_all : List Key → List ℕ
encode_all [] = []
encode_all (key ∷ keys) = encode key ++ encode_all keys

-- a byte that is no escape or delete, or another key
abbrev pub IsTyped : Key → Type 0
IsTyped (byte c) = ((c == 0x7F) ≡ false) × ((c == 0x1B) ≡ false)
IsTyped _ = Unit

-- a key of at most three bytes
abbrev pub IsShort : Key → Type 0
IsShort key = length (encode key) ≤ 3

abbrev pub stdin_has : List ℕ → Console
stdin_has bytes = record { getc_buf = []; input = bytes }

-- `n` calls of `console_getchar`, one after the other
unfoldable pub read_keys : ℕ → ℕ → Console → Option (List Key × Console)
unfolding console_getchar
read_keys fuel zero s = some ([], s)
read_keys fuel (suc n) s =
    console_getchar fuel s >>= λ (key, t). read_keys fuel n t >>= λ (keys, u). some (key ∷ keys, u)

getchar-encode :
    (fuel : ℕ) (key : Key) (rest : List ℕ)
    → IsTyped key
    → console_getchar (suc fuel) (stdin_has (encode key ++ rest)) ≡ some (key, stdin_has rest)
unfolding console_getchar
getchar-encode fuel key_up rest h = refl
getchar-encode fuel key_down rest h = refl
getchar-encode fuel key_left rest h = refl
getchar-encode fuel key_right rest h = refl
getchar-encode fuel key_home rest h = refl
getchar-encode fuel key_end rest h = refl
getchar-encode fuel key_del rest h = refl
getchar-encode fuel key_backspace rest h = refl
getchar-encode fuel (byte c) rest h = rw (h.0, h.1) refl

read_keys-stdin :
    (fuel : ℕ) (keys : List Key) (rest : List ℕ)
    → All IsTyped keys
    → read_keys (suc fuel) (length keys) (stdin_has (encode_all keys ++ rest))
      ≡ some (keys, stdin_has rest)
unfolding read_keys
read_keys-stdin fuel [] rest h = refl
read_keys-stdin fuel (key ∷ keys) rest h = rw (append_assoc (encode key) (encode_all keys) rest) (
    rw (getchar-encode fuel key (encode_all keys ++ rest) h.0)
      (rw (read_keys-stdin fuel keys rest h.1) refl))

getchar-buffered :
    (fuel : ℕ) (key : Key) (rest input : List ℕ)
    → IsTyped key
    → IsShort key
    → console_getchar (suc fuel) (record { getc_buf = encode key ++ rest; input = input })
      ≡ some (key, record { getc_buf = rest; input = input })
unfolding console_getchar
getchar-buffered fuel key_up rest input h k = refl
getchar-buffered fuel key_down rest input h k = refl
getchar-buffered fuel key_left rest input h k = refl
getchar-buffered fuel key_right rest input h k = refl
getchar-buffered fuel key_home rest input h k = absurd (omega arith)
getchar-buffered fuel key_end rest input h k = absurd (omega arith)
getchar-buffered fuel key_del rest input h k = absurd (omega arith)
getchar-buffered fuel key_backspace rest input h k = refl
getchar-buffered fuel (byte c) rest input h k = rw (h.0, h.1) refl

-- Keys of at most three bytes in `getc_buf` and any keys on stdin behind them are read in order, one
-- for each call, in the first round of its loop, and nothing of what comes behind them is lost.
pub read_keys-encode :
    (fuel : ℕ) (buffered keys : List Key) (rest : List ℕ)
    → All IsShort buffered
    → All IsTyped buffered
    → All IsTyped keys
    → read_keys
        (suc fuel)
        (length (buffered ++ keys))
        (record { getc_buf = encode_all buffered; input = encode_all keys ++ rest })
      ≡ some (buffered ++ keys, stdin_has rest)
unfolding read_keys
read_keys-encode fuel [] keys rest short h k = read_keys-stdin fuel keys rest k
read_keys-encode fuel (key ∷ buffered) keys rest short h k =
    rw (getchar-buffered fuel key (encode_all buffered) (encode_all keys ++ rest) h.0 short.0)
      (rw (read_keys-encode fuel buffered keys rest short.1 h.1 k) refl)

-- The last byte of KEY_HOME in `getc_buf` is not taken from there: a byte of stdin is lost for it.
home_buffered :
    (fuel : ℕ) (rest : List ℕ) (x : ℕ) (input : List ℕ)
    → console_getchar (suc fuel) (record { getc_buf = encode key_home ++ rest; input = x ∷ input })
      ≡ some (key_home, record { getc_buf = 0x7E ∷ rest; input = input })
unfolding console_getchar
home_buffered fuel rest x input = refl

-- The byte behind an escape byte in `getc_buf`, if it is no `[`, comes last of what is there.
escape_reorders :
    (fuel c : ℕ) (rest input : List ℕ)
    → (c == b'[') ≡ false
    → length rest < 256
    → console_getchar (suc fuel) (record { getc_buf = 0x1B ∷ c ∷ rest; input = input })
      ≡ some (byte 0x1B, record { getc_buf = rest ++ c ∷ []; input = input })
unfolding console_getchar
escape_reorders fuel c rest input h k =
    let room : ltb (length rest) 256 ≡ true = ground arith in rw (h, room) refl
