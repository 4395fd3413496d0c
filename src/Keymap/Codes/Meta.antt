-- ===== src/Keymap/Codes/Meta.antt =====
-- The table `codes` of src/keymap.c: the characters with Meta.
use Prim.Native.String.{String}
use kexec_loader.Base.{ℕ, List, [], ◌∷◌}

abbrev pub meta_keys : List (String × ℕ)
meta_keys =
    ("Meta_nul", 0x0800)
    ∷ ("Meta_Control_a", 0x0801)
    ∷ ("Meta_Control_b", 0x0802)
    ∷ ("Meta_Control_c", 0x0803)
    ∷ ("Meta_Control_d", 0x0804)
    ∷ ("Meta_Control_e", 0x0805)
    ∷ ("Meta_Control_f", 0x0806)
    ∷ ("Meta_Control_g", 0x0807)
    ∷ ("Meta_BackSpace", 0x0808)
    ∷ ("Meta_Tab", 0x0809)
    ∷ ("Meta_Linefeed", 0x080a)
    ∷ ("Meta_Control_k", 0x080b)
    ∷ ("Meta_Control_l", 0x080c)
    ∷ ("Meta_Control_m", 0x080d)
    ∷ ("Meta_Control_n", 0x080e)
    ∷ ("Meta_Control_o", 0x080f)
    ∷ ("Meta_Control_p", 0x0810)
    ∷ ("Meta_Control_q", 0x0811)
    ∷ ("Meta_Control_r", 0x0812)
    ∷ ("Meta_Control_s", 0x0813)
    ∷ ("Meta_Control_t", 0x0814)
    ∷ ("Meta_Control_u", 0x0815)
    ∷ ("Meta_Control_v", 0x0816)
    ∷ ("Meta_Control_w", 0x0817)
    ∷ ("Meta_Control_x", 0x0818)
    ∷ ("Meta_Control_y", 0x0819)
    ∷ ("Meta_Control_z", 0x081a)
    ∷ ("Meta_Escape", 0x081b)
    ∷ ("Meta_Control_backslash", 0x081c)
    ∷ ("Meta_Control_bracketright", 0x081d)
    ∷ ("Meta_Control_asciicircum", 0x081e)
    ∷ ("Meta_Control_underscore", 0x081f)
    ∷ ("Meta_space", 0x0820)
    ∷ ("Meta_exclam", 0x0821)
    ∷ ("Meta_quotedbl", 0x0822)
    ∷ ("Meta_numbersign", 0x0823)
    ∷ ("Meta_dollar", 0x0824)
    ∷ ("Meta_percent", 0x0825)
    ∷ ("Meta_ampersand", 0x0826)
    ∷ ("Meta_apostrophe", 0x0827)
    ∷ ("Meta_parenleft", 0x0828)
    ∷ ("Meta_parenright", 0x0829)
    ∷ ("Meta_asterisk", 0x082a)
    ∷ ("Meta_plus", 0x082b)
    ∷ ("Meta_comma", 0x082c)
    ∷ ("Meta_minus", 0x082d)
    ∷ ("Meta_period", 0x082e)
    ∷ ("Meta_slash", 0x082f)
    ∷ ("Meta_zero", 0x0830)
    ∷ ("Meta_one", 0x0831)
    ∷ ("Meta_two", 0x0832)
    ∷ ("Meta_three", 0x0833)
    ∷ ("Meta_four", 0x0834)
    ∷ ("Meta_five", 0x0835)
    ∷ ("Meta_six", 0x0836)
    ∷ ("Meta_seven", 0x0837)
    ∷ ("Meta_eight", 0x0838)
    ∷ ("Meta_nine", 0x0839)
    ∷ ("Meta_colon", 0x083a)
    ∷ ("Meta_semicolon", 0x083b)
    ∷ ("Meta_less", 0x083c)
    ∷ ("Meta_equal", 0x083d)
    ∷ ("Meta_greater", 0x083e)
    ∷ ("Meta_question", 0x083f)
    ∷ ("Meta_at", 0x0840)
    ∷ ("Meta_A", 0x0841)
    ∷ ("Meta_B", 0x0842)
    ∷ ("Meta_C", 0x0843)
    ∷ ("Meta_D", 0x0844)
    ∷ ("Meta_E", 0x0845)
    ∷ ("Meta_F", 0x0846)
    ∷ ("Meta_G", 0x0847)
    ∷ ("Meta_H", 0x0848)
    ∷ ("Meta_I", 0x0849)
    ∷ ("Meta_J", 0x084a)
    ∷ ("Meta_K", 0x084b)
    ∷ ("Meta_L", 0x084c)
    ∷ ("Meta_M", 0x084d)
    ∷ ("Meta_N", 0x084e)
    ∷ ("Meta_O", 0x084f)
    ∷ ("Meta_P", 0x0850)
    ∷ ("Meta_Q", 0x0851)
    ∷ ("Meta_R", 0x0852)
    ∷ ("Meta_S", 0x0853)
    ∷ ("Meta_T", 0x0854)
    ∷ ("Meta_U", 0x0855)
    ∷ ("Meta_V", 0x0856)
    ∷ ("Meta_W", 0x0857)
    ∷ ("Meta_X", 0x0858)
    ∷ ("Meta_Y", 0x0859)
    ∷ ("Meta_Z", 0x085a)
    ∷ ("Meta_bracketleft", 0x085b)
    ∷ ("Meta_backslash", 0x085c)
    ∷ ("Meta_bracketright", 0x085d)
    ∷ ("Meta_asciicircum", 0x085e)
    ∷ ("Meta_underscore", 0x085f)
    ∷ ("Meta_grave", 0x0860)
    ∷ ("Meta_a", 0x0861)
    ∷ ("Meta_b", 0x0862)
    ∷ ("Meta_c", 0x0863)
    ∷ ("Meta_d", 0x0864)
    ∷ ("Meta_e", 0x0865)
    ∷ ("Meta_f", 0x0866)
    ∷ ("Meta_g", 0x0867)
    ∷ ("Meta_h", 0x0868)
    ∷ ("Meta_i", 0x0869)
    ∷ ("Meta_j", 0x086a)
    ∷ ("Meta_k", 0x086b)
    ∷ ("Meta_l", 0x086c)
    ∷ ("Meta_m", 0x086d)
    ∷ ("Meta_n", 0x086e)
    ∷ ("Meta_o", 0x086f)
    ∷ ("Meta_p", 0x0870)
    ∷ ("Meta_q", 0x0871)
    ∷ ("Meta_r", 0x0872)
    ∷ ("Meta_s", 0x0873)
    ∷ ("Meta_t", 0x0874)
    ∷ ("Meta_u", 0x0875)
    ∷ ("Meta_v", 0x0876)
    ∷ ("Meta_w", 0x0877)
    ∷ ("Meta_x", 0x0878)
    ∷ ("Meta_y", 0x0879)
    ∷ ("Meta_z", 0x087a)
    ∷ ("Meta_braceleft", 0x087b)
    ∷ ("Meta_bar", 0x087c)
    ∷ ("Meta_braceright", 0x087d)
    ∷ ("Meta_asciitilde", 0x087e)
    ∷ ("Meta_Delete", 0x087f)
    ∷ []
