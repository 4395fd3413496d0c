-- ===== src/Keymap/Codes/Console.antt =====
-- The table `codes` of src/keymap.c: consoles, cursor keys and modifiers.
use Prim.Native.String.{String}
use kexec_loader.Base.{ℕ, List, [], ◌∷◌}

abbrev pub console_keys : List (String × ℕ)
console_keys =
    ("Console_1", 0x0500)
    ∷ ("Console_2", 0x0501)
    ∷ ("Console_3", 0x0502)
    ∷ ("Console_4", 0x0503)
    ∷ ("Console_5", 0x0504)
    ∷ ("Console_6", 0x0505)
    ∷ ("Console_7", 0x0506)
    ∷ ("Console_8", 0x0507)
    ∷ ("Console_9", 0x0508)
    ∷ ("Console_10", 0x0509)
    ∷ ("Console_11", 0x050a)
    ∷ ("Console_12", 0x050b)
    ∷ ("Console_13", 0x050c)
    ∷ ("Console_14", 0x050d)
    ∷ ("Console_15", 0x050e)
    ∷ ("Console_16", 0x050f)
    ∷ ("Console_17", 0x0510)
    ∷ ("Console_18", 0x0511)
    ∷ ("Console_19", 0x0512)
    ∷ ("Console_20", 0x0513)
    ∷ ("Console_21", 0x0514)
    ∷ ("Console_22", 0x0515)
    ∷ ("Console_23", 0x0516)
    ∷ ("Console_24", 0x0517)
    ∷ ("Console_25", 0x0518)
    ∷ ("Console_26", 0x0519)
    ∷ ("Console_27", 0x051a)
    ∷ ("Console_28", 0x051b)
    ∷ ("Console_29", 0x051c)
    ∷ ("Console_30", 0x051d)
    ∷ ("Console_31", 0x051e)
    ∷ ("Console_32", 0x051f)
    ∷ ("Console_33", 0x0520)
    ∷ ("Console_34", 0x0521)
    ∷ ("Console_35", 0x0522)
    ∷ ("Console_36", 0x0523)
    ∷ ("Console_37", 0x0524)
    ∷ ("Console_38", 0x0525)
    ∷ ("Console_39", 0x0526)
    ∷ ("Console_40", 0x0527)
    ∷ ("Console_41", 0x0528)
    ∷ ("Console_42", 0x0529)
    ∷ ("Console_43", 0x052a)
    ∷ ("Console_44", 0x052b)
    ∷ ("Console_45", 0x052c)
    ∷ ("Console_46", 0x052d)
    ∷ ("Console_47", 0x052e)
    ∷ ("Console_48", 0x052f)
    ∷ ("Console_49", 0x0530)
    ∷ ("Console_50", 0x0531)
    ∷ ("Console_51", 0x0532)
    ∷ ("Console_52", 0x0533)
    ∷ ("Console_53", 0x0534)
    ∷ ("Console_54", 0x0535)
    ∷ ("Console_55", 0x0536)
    ∷ ("Console_56", 0x0537)
    ∷ ("Console_57", 0x0538)
    ∷ ("Console_58", 0x0539)
    ∷ ("Console_59", 0x053a)
    ∷ ("Console_60", 0x053b)
    ∷ ("Console_61", 0x053c)
    ∷ ("Console_62", 0x053d)
    ∷ ("Console_63", 0x053e)
    ∷ ("Down", 0x0600)
    ∷ ("Left", 0x0601)
    ∷ ("Right", 0x0602)
    ∷ ("Up", 0x0603)
    ∷ ("Shift", 0x0700)
    ∷ ("AltGr", 0x0701)
    ∷ ("Control", 0x0702)
    ∷ ("Alt", 0x0703)
    ∷ ("ShiftL", 0x0704)
    ∷ ("ShiftR", 0x0705)
    ∷ ("CtrlL", 0x0706)
    ∷ ("CtrlR", 0x0707)
    ∷ ("CapsShift", 0x0708)
    ∷ []
