-- ===== src/Keymap/Codes.antt =====
-- The table `codes` of src/keymap.c, in the order of the source.
mod LatinLow
mod LatinHigh
mod Function
mod Console
mod Meta
mod Locks
use Prim.Native.String.{String}
use LatinLow.{latin_low}
use LatinHigh.{latin_high}
use Function.{function_keys}
use Console.{console_keys}
use Meta.{meta_keys}
use Locks.{lock_keys}
use kexec_loader.Base.{ℕ, List, ◌++◌}

unfoldable pub codes : List (String × ℕ)
codes = latin_low ++ (latin_high ++ (function_keys ++ (console_keys ++ (meta_keys ++ lock_keys))))
