-- ===== src/Keymap/Codes/Locks.antt =====
-- The table `codes` of src/keymap.c: digits, locks, sticky modifiers and the last four.
use Prim.Native.String.{String}
use kexec_loader.Base.{ℕ, List, [], ◌∷◌}

abbrev pub lock_keys : List (String × ℕ)
lock_keys =
    ("Ascii_0", 0x0900)
    ∷ ("Ascii_1", 0x0901)
    ∷ ("Ascii_2", 0x0902)
    ∷ ("Ascii_3", 0x0903)
    ∷ ("Ascii_4", 0x0904)
    ∷ ("Ascii_5", 0x0905)
    ∷ ("Ascii_6", 0x0906)
    ∷ ("Ascii_7", 0x0907)
    ∷ ("Ascii_8", 0x0908)
    ∷ ("Ascii_9", 0x0909)
    ∷ ("Hex_0", 0x090a)
    ∷ ("Hex_1", 0x090b)
    ∷ ("Hex_2", 0x090c)
    ∷ ("Hex_3", 0x090d)
    ∷ ("Hex_4", 0x090e)
    ∷ ("Hex_5", 0x090f)
    ∷ ("Hex_6", 0x0910)
    ∷ ("Hex_7", 0x0911)
    ∷ ("Hex_8", 0x0912)
    ∷ ("Hex_9", 0x0913)
    ∷ ("Hex_A", 0x0914)
    ∷ ("Hex_B", 0x0915)
    ∷ ("Hex_C", 0x0916)
    ∷ ("Hex_D", 0x0917)
    ∷ ("Hex_E", 0x0918)
    ∷ ("Hex_F", 0x0919)
    ∷ ("Shift_Lock", 0x0a00)
    ∷ ("AltGr_Lock", 0x0a01)
    ∷ ("Control_Lock", 0x0a02)
    ∷ ("Alt_Lock", 0x0a03)
    ∷ ("ShiftL_Lock", 0x0a04)
    ∷ ("ShiftR_Lock", 0x0a05)
    ∷ ("CtrlL_Lock", 0x0a06)
    ∷ ("CtrlR_Lock", 0x0a07)
    ∷ ("SShift", 0x0c00)
    ∷ ("SAltGr", 0x0c01)
    ∷ ("SControl", 0x0c02)
    ∷ ("SAlt", 0x0c03)
    ∷ ("SShiftL", 0x0c04)
    ∷ ("SShiftR", 0x0c05)
    ∷ ("SCtrlL", 0x0c06)
    ∷ ("SCtrlR", 0x0c07)
    ∷ ("Home", 0x0114)
    ∷ ("End", 0x0117)
    ∷ ("PageUp", 0x0118)
    ∷ ("PageDown", 0x0119)
    ∷ []
