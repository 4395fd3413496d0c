-- ===== src/Keymap/Codes/Function.antt =====
-- The table `codes` of src/keymap.c: function keys, special keys, the keypad and dead keys.
use Prim.Native.String.{String}
use kexec_loader.Base.{ℕ, List, [], ◌∷◌}

abbrev pub function_keys : List (String × ℕ)
function_keys =
    ("F1", 0x0100)
    ∷ ("F2", 0x0101)
    ∷ ("F3", 0x0102)
    ∷ ("F4", 0x0103)
    ∷ ("F5", 0x0104)
    ∷ ("F6", 0x0105)
    ∷ ("F7", 0x0106)
    ∷ ("F8", 0x0107)
    ∷ ("F9", 0x0108)
    ∷ ("F10", 0x0109)
    ∷ ("F11", 0x010a)
    ∷ ("F12", 0x010b)
    ∷ ("F13", 0x010c)
    ∷ ("F14", 0x010d)
    ∷ ("F15", 0x010e)
    ∷ ("F16", 0x010f)
    ∷ ("F17", 0x0110)
    ∷ ("F18", 0x0111)
    ∷ ("F19", 0x0112)
    ∷ ("F20", 0x0113)
    ∷ ("Find", 0x0114)
    ∷ ("Insert", 0x0115)
    ∷ ("Remove", 0x0116)
    ∷ ("Select", 0x0117)
    ∷ ("Prior", 0x0118)
    ∷ ("Next", 0x0119)
    ∷ ("Macro", 0x011a)
    ∷ ("Help", 0x011b)
    ∷ ("Do", 0x011c)
    ∷ ("Pause", 0x011d)
    ∷ ("F21", 0x011e)
    ∷ ("F22", 0x011f)
    ∷ ("F23", 0x0120)
    ∷ ("F24", 0x0121)
    ∷ ("F25", 0x0122)
    ∷ ("F26", 0x0123)
    ∷ ("F27", 0x0124)
    ∷ ("F28", 0x0125)
    ∷ ("F29", 0x0126)
    ∷ ("F30", 0x0127)
    ∷ ("F31", 0x0128)
    ∷ ("F32", 0x0129)
    ∷ ("F33", 0x012a)
    ∷ ("F34", 0x012b)
    ∷ ("F35", 0x012c)
    ∷ ("F36", 0x012d)
    ∷ ("VoidSymbol", 0x0200)
    ∷ ("Return", 0x0201)
    ∷ ("Show_Registers", 0x0202)
    ∷ ("Show_Memory", 0x0203)
    ∷ ("Show_State", 0x0204)
    ∷ ("Break", 0x0205)
    ∷ ("Last_Console", 0x0206)
    ∷ ("Caps_Lock", 0x0207)
    ∷ ("Num_Lock", 0x0208)
    ∷ ("Scroll_Lock", 0x0209)
    ∷ ("Scroll_Forward", 0x020a)
    ∷ ("Scroll_Backward", 0x020b)
    ∷ ("Boot", 0x020c)
    ∷ ("Caps_On", 0x020d)
    ∷ ("Compose", 0x020e)
    ∷ ("SAK", 0x020f)
    ∷ ("Decr_Console", 0x0210)
    ∷ ("Incr_Console", 0x0211)
    ∷ ("KeyboardSignal", 0x0212)
    ∷ ("Bare_Num_Lock", 0x0213)
    ∷ ("KP_0", 0x0300)
    ∷ ("KP_1", 0x0301)
    ∷ ("KP_2", 0x0302)
    ∷ ("KP_3", 0x0303)
    ∷ ("KP_4", 0x0304)
    ∷ ("KP_5", 0x0305)
    ∷ ("KP_6", 0x0306)
    ∷ ("KP_7", 0x0307)
    ∷ ("KP_8", 0x0308)
    ∷ ("KP_9", 0x0309)
    ∷ ("KP_Add", 0x030a)
    ∷ ("KP_Subtract", 0x030b)
    ∷ ("KP_Multiply", 0x030c)
    ∷ ("KP_Divide", 0x030d)
    ∷ ("KP_Enter", 0x030e)
    ∷ ("KP_Comma", 0x030f)
    ∷ ("KP_Period", 0x0310)
    ∷ ("KP_MinPlus", 0x0311)
    ∷ ("dead_grave", 0x0400)
    ∷ ("dead_acute", 0x0401)
    ∷ ("dead_circumflex", 0x0402)
    ∷ ("dead_tilde", 0x0403)
    ∷ ("dead_diaeresis", 0x0404)
    ∷ ("dead_cedilla", 0x0405)
    ∷ []
