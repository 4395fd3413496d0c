-- ===== src/Boot/Arguments.antt =====
-- The arguments that `boot_target` runs kexec with.
use kexec_loader.Misc.Config.{KlModule, KlTarget}
use kexec_loader.Vfs.{ok}
use kexec_loader.Boot.{
  module_args, Built, ◌>>=?◌, argv_add, Translate, add_path, add_initrd, add_option, add_reset,
  add_modules, build_argv, run_kexec, boot_target, built, too_many, stopped, kexec_failed, rebooted,
}
use kexec_loader.Base.{
  leb, ◌==◌, if◌then◌else◌, Bool-cases, length, All, length-append, CString, str, ◌+◌, ◌≤◌, ◌≡◌,
  refl, sym, ap, ◌∙◌, inl, inr, Bool, true, false, List, [], ◌∷◌, ◌++◌, map, append-nil,
  append_assoc, arith,
}

-- the arguments behind those that are there, as far as the array with its NULL has room
abbrev pub fit_argv : List CString → List CString → Built (List CString)
fit_argv args argv = if leb (length argv + length args) 255 then built (argv ++ args) else too_many

-- The step adds `args`.
abbrev pub AddsArgs : (List CString → Built (List CString)) → List CString → Type 0
AddsArgs step args = (argv : List CString) → length argv ≤ 255 → step argv ≡ fit_argv args argv

none-AddsArgs : AddsArgs (λ argv. built argv) []
none-AddsArgs argv h =
    let e : leb (length argv + 0) 255 ≡ true = ground arith in
    rw e (ap built (sym (append-nil argv)))

argv_add-AddsArgs : (s : CString) → AddsArgs (argv_add s) (s ∷ [])
unfolding argv_add
argv_add-AddsArgs s argv h = elim (Bool-cases (length argv + 1 == 256)) [
  | inl full ↦ let e : leb (length argv + 1) 255 ≡ false = ground arith in rw (full, e) refl
  | inr room ↦ let e : leb (length argv + 1) 255 ≡ true = ground arith in rw (room, e) refl
]

then-AddsArgs :
    (f g : List CString → Built (List CString)) (xs ys : List CString)
    → AddsArgs f xs
    → AddsArgs g ys
    → AddsArgs (λ argv. f argv >>=? g) (xs ++ ys)
then-AddsArgs f g xs ys h k argv fits = elim (Bool-cases (leb (length argv + length xs) 255)) [
  | inl room ↦
      let first : f argv ≡ built (argv ++ xs) = h argv fits ∙ rw room refl in
      let len : length (argv ++ xs) ≡ length argv + length xs = length-append argv xs in
      let all : length (xs ++ ys) ≡ length xs + length ys = length-append xs ys in
      let same : length (argv ++ xs) + length ys ≡ length argv + length (xs ++ ys) = omega arith in
      rw first (k (argv ++ xs) (ground arith) ∙ rw (same, append_assoc argv xs ys) refl)
  | inr full ↦
      let first : f argv ≡ too_many = h argv fits ∙ rw full refl in
      let all : length (xs ++ ys) ≡ length xs + length ys = length-append xs ys in
      let over : leb (length argv + length (xs ++ ys)) 255 ≡ false = ground arith in
      rw (first, over) refl
]

-- The arguments of a target whose paths translate as `f` says.
abbrev pub initrd_args : (CString → CString) → CString → List CString
initrd_args f [] = []
initrd_args f (c ∷ path) = (str "--initrd=" ++ (f (c ∷ path) ++ [])) ∷ []

abbrev pub option_args : CString → CString → List CString
option_args prefix [] = []
option_args prefix (c ∷ val) = (prefix ++ (c ∷ val)) ∷ []

abbrev pub reset_args : Bool → List CString
reset_args true = str "--reset-vga" ∷ []
reset_args false = []

abbrev pub module_arg : (CString → CString) → KlModule → CString
module_arg f m = str "--module=" ++ (f m.name ++ module_args m.args)

abbrev pub kernel_options : (CString → CString) → KlTarget → List CString
kernel_options f t =
    initrd_args f t.initrd
    ++ (option_args (str "--command-line=") t.cmdline
        ++ (option_args (str "--append=") t.append
            ++ (reset_args t.reset_vga ++ map (module_arg f) t.modules)))

abbrev pub kexec_args : (CString → CString) → KlTarget → List CString
kexec_args f t = str "kexec" ∷ str "-l" ∷ (f t.kernel ++ []) ∷ kernel_options f t

-- what the path, if there is one, translates to
abbrev pub TranslatesSome : Translate → (CString → CString) → CString → Type 0
TranslatesSome translate f [] = Unit
TranslatesSome translate f (c ∷ path) = translate (c ∷ path) ≡ ok (f (c ∷ path))

-- the paths of a target
abbrev pub Translates : Translate → (CString → CString) → KlTarget → Type 0
Translates translate f t =
    (translate t.kernel ≡ ok (f t.kernel))
    × TranslatesSome translate f t.initrd
    × All (λ m. translate m.name ≡ ok (f m.name)) t.modules

module _ (translate : Translate) (f : CString → CString) where
  add_path-AddsArgs :
      (prefix path suffix : CString)
      → translate path ≡ ok (f path)
      → AddsArgs (add_path translate prefix path suffix) ((prefix ++ (f path ++ suffix)) ∷ [])
  unfolding add_path
  add_path-AddsArgs prefix path suffix e argv h =
      rw e (argv_add-AddsArgs (prefix ++ (f path ++ suffix)) argv h)

  add_initrd-AddsArgs :
      (path : CString)
      → TranslatesSome translate f path
      → AddsArgs (add_initrd translate path) (initrd_args f path)
  add_initrd-AddsArgs [] e = none-AddsArgs
  add_initrd-AddsArgs (c ∷ path) e = add_path-AddsArgs (str "--initrd=") (c ∷ path) [] e

  add_option-AddsArgs :
      (prefix val : CString) → AddsArgs (add_option prefix val) (option_args prefix val)
  add_option-AddsArgs prefix [] = none-AddsArgs
  add_option-AddsArgs prefix (c ∷ val) = argv_add-AddsArgs (prefix ++ (c ∷ val))

  add_reset-AddsArgs : (b : Bool) → AddsArgs (add_reset b) (reset_args b)
  add_reset-AddsArgs true = argv_add-AddsArgs (str "--reset-vga")
  add_reset-AddsArgs false = none-AddsArgs

  add_modules-AddsArgs :
      (modules : List KlModule)
      → All (λ m. translate m.name ≡ ok (f m.name)) modules
      → AddsArgs (add_modules translate modules) (map (module_arg f) modules)
  unfolding add_modules
  add_modules-AddsArgs [] h = none-AddsArgs
  add_modules-AddsArgs (m ∷ modules) h =
      then-AddsArgs (add_path translate (str "--module=") m.name (module_args m.args))
        (add_modules translate modules) (module_arg f m ∷ []) (map (module_arg f) modules)
        (add_path-AddsArgs (str "--module=") m.name (module_args m.args) h.0)
        (add_modules-AddsArgs modules h.1)

  options-AddsArgs :
      (t : KlTarget)
      → Translates translate f t
      → AddsArgs
          (λ c. add_initrd translate t.initrd c >>=? λ d.
            add_option (str "--command-line=") t.cmdline d >>=? λ e.
            add_option (str "--append=") t.append e >>=? λ g.
            add_reset t.reset_vga g >>=? add_modules translate t.modules)
          (kernel_options f t)
  options-AddsArgs t (kernel, initrd, modules) =
      then-AddsArgs _ _ _ _ (add_initrd-AddsArgs t.initrd initrd) (
        then-AddsArgs _ _ _ _ (add_option-AddsArgs (str "--command-line=") t.cmdline) (
          then-AddsArgs _ _ _ _ (add_option-AddsArgs (str "--append=") t.append) (
            then-AddsArgs _ _ _ _ (add_reset-AddsArgs t.reset_vga)
              (add_modules-AddsArgs t.modules modules))))

  build_argv-fit :
      (t : KlTarget)
      → Translates translate f t
      → build_argv translate t ≡ fit_argv (kexec_args f t) []
  unfolding build_argv
  build_argv-fit t h =
      then-AddsArgs _ _ (str "kexec" ∷ []) (str "-l" ∷ (f t.kernel ++ []) ∷ kernel_options f t)
        (argv_add-AddsArgs (str "kexec"))
        (then-AddsArgs _ _ (str "-l" ∷ []) ((f t.kernel ++ []) ∷ kernel_options f t)
          (argv_add-AddsArgs (str "-l"))
          (then-AddsArgs _ _ ((f t.kernel ++ []) ∷ []) (kernel_options f t)
            (add_path-AddsArgs [] t.kernel [] h.0) (options-AddsArgs t h)))
        [] (omega arith)

run_kexec-fit :
    (kexec : List CString → Bool) (args : List CString)
    → run_kexec kexec (fit_argv args []) ≡ (
        if leb (length args) 255
        then (if kexec args then rebooted args else kexec_failed args)
        else stopped too_many)
run_kexec-fit kexec args =
    let same : leb (0 + length args) 255 ≡ leb (length args) 255 =
      ap (λ n. leb n 255) (omega arith) in
    elim (Bool-cases (leb (length args) 255)) [
      | inl e ↦ let e' : leb (0 + length args) 255 ≡ true = same ∙ e in rw (e, e') refl
      | inr e ↦ let e' : leb (0 + length args) 255 ≡ false = same ∙ e in rw (e, e') refl
    ]

-- When the paths of a target translate, `boot_target` runs kexec with exactly the arguments that
-- describe it, in order, if there are at most 255 of them, and reboots if kexec exits with 0; when
-- there are more it stops in front of kexec.
pub boot_target_lem :
    (translate : CString → Translate) (f : CString → CString) (kexec : List CString → Bool)
    (t : KlTarget)
    → Translates (translate t.root) f t
    → boot_target translate kexec t ≡ (
        if leb (length (kexec_args f t)) 255
        then (if kexec (kexec_args f t)
            then rebooted (kexec_args f t)
            else kexec_failed (kexec_args f t))
        else stopped too_many)
unfolding boot_target
boot_target_lem translate f kexec t h =
    ap (run_kexec kexec) (build_argv-fit (translate t.root) f t h)
    ∙ run_kexec-fit kexec (kexec_args f t)
