-- ===== src/Misc/Config/State.antt =====
-- The targets and modules of src/misc.h, and the state and messages of `load_conf`.
use kexec_loader.Grub.Device.{Gdev}
use kexec_loader.Base.{CString, ℤ, ℕ, Bool, false, Option, List, [], ◌∷◌, ◌++◌}

-- `kl_module`
pub record KlModule : Type 0 where
  pub name : CString
  pub args : CString

-- `kl_target`; `is_default` and `reset_vga` are the bits of its `flags`.
pub record KlTarget : Type 0 where
  pub title : CString
  pub is_default : Bool
  pub reset_vga : Bool
  pub root : CString
  pub kernel : CString
  pub initrd : CString
  pub cmdline : CString
  pub append : CString
  pub modules : List KlModule

-- `INIT_TARGET`
abbrev pub init_target : KlTarget
init_target = record {
  title = [];
  is_default = false;
  reset_vga = false;
  root = [];
  kernel = [];
  initrd = [];
  cmdline = [];
  append = [];
  modules = [];
}

-- The globals that a configuration sets.
pub record Conf : Type 0 where
  pub timeout : ℤ
  pub grub_path : Option CString
  pub grub_devmap : List Gdev
  pub grub_autodetect : ℕ
  pub targets : List KlTarget
  pub kmods : List KlModule

-- The calls of `printD`; the first field is the line they show.
pub data Message : Type 0 where
  requires_arguments : ℕ → CString → ℕ → Message
  outside_target : ℕ → CString → Message
  no_device : ℕ → Message
  invalid_gdev : ℕ → CString → Message
  expected_on_off : ℕ → Message
  no_root : ℕ → Message
  no_kernel : ℕ → Message
  unknown_directive : ℕ → CString → Message

-- The globals, the locals `target` and `topen` of `load_conf`, and what it has printed. `target` is
-- read only when `topen` is not 0.
pub record Loading : Type 0 where
  pub conf : Conf
  pub target : KlTarget
  pub topen : ℕ
  pub messages : List Message

abbrev pub report : Message → Loading → Loading
report m s = record s { messages = s.messages ++ m ∷ [] }
