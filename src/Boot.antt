-- ===== src/Boot.antt =====
-- boot_target of src/boot.c: the arguments for kexec, and where the boot ends. The translation of
-- VFS paths is a parameter, as is whether kexec exits with 0.
pub mod Arguments
use kexec_loader.Misc.Config.{KlModule, KlTarget}
use kexec_loader.Vfs.{Errno, Outcome, ok, err, crash}
use kexec_loader.Base.{
  ◌==◌, if◌then◌else◌, length, CString, str, ℕ, ◌+◌, Bool, true, false, not, List, [], ◌∷◌, ◌++◌,
}

-- The result of a step: `goto CLEANUP` with a path that is not translated or with too many
-- arguments, or what it makes.
pub data Built {ℓ} (A : Type ℓ) : Type ℓ where
  built : A → Built A
  no_path : CString → Errno → Built A
  too_many : Built A
  overrun : Built A

infixl 5 ◌>>=?◌
abbrev pub ◌>>=?◌ {ℓ κ} : {A : Type ℓ} {B : Type κ} → Built A → (A → Built B) → Built B
built a >>=? f = f a
no_path path e >>=? f = no_path path e
too_many >>=? f = too_many
overrun >>=? f = overrun

abbrev pub max_argv : ℕ
max_argv = 256

-- `ARGV_COPY`, `ARGV_ADD` and `ARGV_PRINTF`
unfoldable pub argv_add : CString → List CString → Built (List CString)
argv_add s argv = if length argv + 1 == max_argv then too_many else built (argv ++ s ∷ [])

abbrev pub Translate : Type 0
Translate = CString → Outcome CString

-- `MOUNT_VPATH`
abbrev pub mount_vpath : CString → Outcome CString → Built CString
mount_vpath path (ok tmp) = built tmp
mount_vpath path (err e) = no_path path e
mount_vpath path crash = overrun

-- a path translated and added behind a prefix and in front of a suffix
unfoldable pub add_path :
    Translate → CString → CString → CString → List CString → Built (List CString)
unfolding argv_add
add_path translate prefix path suffix argv =
    mount_vpath path (translate path) >>=? λ tmp. argv_add (prefix ++ (tmp ++ suffix)) argv

abbrev pub add_initrd : Translate → CString → List CString → Built (List CString)
add_initrd translate [] argv = built argv
add_initrd translate (c ∷ path) argv = add_path translate (str "--initrd=") (c ∷ path) [] argv

abbrev pub add_option : CString → CString → List CString → Built (List CString)
add_option prefix [] argv = built argv
add_option prefix (c ∷ val) argv = argv_add (prefix ++ (c ∷ val)) argv

abbrev pub add_reset : Bool → List CString → Built (List CString)
add_reset true argv = argv_add (str "--reset-vga") argv
add_reset false argv = built argv

-- ` %s` of the module's arguments, if it has any
abbrev pub module_args : CString → CString
module_args [] = []
module_args (c ∷ args) = b' ' ∷ c ∷ args

unfoldable pub add_modules : Translate → List KlModule → List CString → Built (List CString)
unfolding add_path
add_modules translate [] argv = built argv
add_modules translate (m ∷ modules) argv =
    add_path translate (str "--module=") m.name (module_args m.args) argv
    >>=? add_modules translate modules

unfoldable pub build_argv : Translate → KlTarget → Built (List CString)
unfolding argv_add add_path add_modules
build_argv translate t = argv_add (str "kexec") [] >>=? λ a. argv_add (str "-l") a >>=? λ b.
    add_path translate [] t.kernel [] b >>=? λ c. add_initrd translate t.initrd c >>=? λ d.
    add_option (str "--command-line=") t.cmdline d >>=? λ e.
    add_option (str "--append=") t.append e >>=? λ f.
    add_reset t.reset_vga f >>=? add_modules translate t.modules

-- Where `boot_target` ends: before kexec is run, behind it when it fails, or in the call of
-- `call_reboot`.
pub data Ended : Type 0 where
  stopped : Built (List CString) → Ended
  kexec_failed : List CString → Ended
  rebooted : List CString → Ended

abbrev pub run_kexec : (List CString → Bool) → Built (List CString) → Ended
run_kexec kexec (built argv) = if kexec argv then rebooted argv else kexec_failed argv
run_kexec kexec (no_path path e) = stopped (no_path path e)
run_kexec kexec too_many = stopped too_many
run_kexec kexec overrun = stopped overrun

-- `translate` has the root that `vfs_set_root` has been given.
unfoldable pub boot_target : (CString → Translate) → (List CString → Bool) → KlTarget → Ended
unfolding build_argv
boot_target translate kexec t = run_kexec kexec (build_argv (translate t.root) t)
