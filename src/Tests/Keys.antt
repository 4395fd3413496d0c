-- ===== src/Tests/Keys.antt =====
-- Keymap lines on concrete lines.
use kexec_loader.Keymap.{find_code, keymap_line, set_key, unknown}
use kexec_loader.Keymap.Lines.{keymap_line-sets}
use kexec_loader.Keymap.Codes.{codes}
use kexec_loader.Misc.Strings.{kl_streq}
use kexec_loader.Base.{str, ◌++◌, ◌≡◌, refl}

unknown_action : keymap_line 7 (str "0 30 NoSuchAction\n") ≡ unknown 7 (str "NoSuchAction")
unfolding keymap_line find_code codes kl_streq
unknown_action = refl

keymap_line-sets_example :
    keymap_line 1
      ((str "0" ++ (str " " ++ (str "30" ++ (str "\t " ++ str "Escape")))) ++ str "\r\n")
    ≡ set_key (record { kb_table = 0; kb_index = 30; kb_value = 27 })
unfolding codes
keymap_line-sets_example =
    keymap_line-sets 1 27 "Escape" 27 (str "0") (str " ") (str "30") (str "\t ") (str "\r\n") refl
      (refl, (refl, tt)) (refl, (refl, tt)) (refl, (refl, (refl, tt))) (refl, (refl, (refl, tt)))
      refl
