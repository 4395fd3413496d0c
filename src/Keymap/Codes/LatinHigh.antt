-- ===== src/Keymap/Codes/LatinHigh.antt =====
-- The table `codes` of src/keymap.c: the rest of Latin-1.
use Prim.Native.String.{String}
use kexec_loader.Base.{ℕ, List, [], ◌∷◌}

abbrev pub latin_high : List (String × ℕ)
latin_high =
    ("notsign", 0x00ac)
    ∷ ("hyphen", 0x00ad)
    ∷ ("registered", 0x00ae)
    ∷ ("macron", 0x00af)
    ∷ ("degree", 0x00b0)
    ∷ ("plusminus", 0x00b1)
    ∷ ("twosuperior", 0x00b2)
    ∷ ("threesuperior", 0x00b3)
    ∷ ("acute", 0x00b4)
    ∷ ("mu", 0x00b5)
    ∷ ("paragraph", 0x00b6)
    ∷ ("periodcentered", 0x00b7)
    ∷ ("cedilla", 0x00b8)
    ∷ ("onesuperior", 0x00b9)
    ∷ ("masculine", 0x00ba)
    ∷ ("guillemotright", 0x00bb)
    ∷ ("onequarter", 0x00bc)
    ∷ ("onehalf", 0x00bd)
    ∷ ("threequarters", 0x00be)
    ∷ ("questiondown", 0x00bf)
    ∷ ("Agrave", 0x00c0)
    ∷ ("Aacute", 0x00c1)
    ∷ ("Acircumflex", 0x00c2)
    ∷ ("Atilde", 0x00c3)
    ∷ ("Adiaeresis", 0x00c4)
    ∷ ("Aring", 0x00c5)
    ∷ ("AE", 0x00c6)
    ∷ ("Ccedilla", 0x00c7)
    ∷ ("Egrave", 0x00c8)
    ∷ ("Eacute", 0x00c9)
    ∷ ("Ecircumflex", 0x00ca)
    ∷ ("Ediaeresis", 0x00cb)
    ∷ ("Igrave", 0x00cc)
    ∷ ("Iacute", 0x00cd)
    ∷ ("Icircumflex", 0x00ce)
    ∷ ("Idiaeresis", 0x00cf)
    ∷ ("ETH", 0x00d0)
    ∷ ("Ntilde", 0x00d1)
    ∷ ("Ograve", 0x00d2)
    ∷ ("Oacute", 0x00d3)
    ∷ ("Ocircumflex", 0x00d4)
    ∷ ("Otilde", 0x00d5)
    ∷ ("Odiaeresis", 0x00d6)
    ∷ ("multiply", 0x00d7)
    ∷ ("Ooblique", 0x00d8)
    ∷ ("Ugrave", 0x00d9)
    ∷ ("Uacute", 0x00da)
    ∷ ("Ucircumflex", 0x00db)
    ∷ ("Udiaeresis", 0x00dc)
    ∷ ("Yacute", 0x00dd)
    ∷ ("THORN", 0x00de)
    ∷ ("ssharp", 0x00df)
    ∷ ("agrave", 0x00e0)
    ∷ ("aacute", 0x00e1)
    ∷ ("acircumflex", 0x00e2)
    ∷ ("atilde", 0x00e3)
    ∷ ("adiaeresis", 0x00e4)
    ∷ ("aring", 0x00e5)
    ∷ ("ae", 0x00e6)
    ∷ ("ccedilla", 0x00e7)
    ∷ ("egrave", 0x00e8)
    ∷ ("eacute", 0x00e9)
    ∷ ("ecircumflex", 0x00ea)
    ∷ ("ediaeresis", 0x00eb)
    ∷ ("igrave", 0x00ec)
    ∷ ("iacute", 0x00ed)
    ∷ ("icircumflex", 0x00ee)
    ∷ ("idiaeresis", 0x00ef)
    ∷ ("eth", 0x00f0)
    ∷ ("ntilde", 0x00f1)
    ∷ ("ograve", 0x00f2)
    ∷ ("oacute", 0x00f3)
    ∷ ("ocircumflex", 0x00f4)
    ∷ ("otilde", 0x00f5)
    ∷ ("odiaeresis", 0x00f6)
    ∷ ("division", 0x00f7)
    ∷ ("oslash", 0x00f8)
    ∷ ("ugrave", 0x00f9)
    ∷ ("uacute", 0x00fa)
    ∷ ("ucircumflex", 0x00fb)
    ∷ ("udiaeresis", 0x00fc)
    ∷ ("yacute", 0x00fd)
    ∷ ("thorn", 0x00fe)
    ∷ ("ydiaeresis", 0x00ff)
    ∷ []
