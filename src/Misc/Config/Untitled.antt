-- ===== src/Misc/Config/Untitled.antt =====
-- The part of a configuration in front of its first `title`.
use kexec_loader.Misc.Strings.{next_value, kl_streq, kl_strceq}
use kexec_loader.Grub.Device.{Gdev, parse_gdev, split_line}
use kexec_loader.Misc.Config.{
  Conf, Message, Loading, report, has_args, check_args, check_topen, close_target, set_grub_path,
  map_gdev, grub_map, set_autodetect, target_directive, directive, conf_line, conf_lines, started,
  load_conf, no_device,
}
use kexec_loader.Base.{
  ◌==◌, Bool-cases, if_split, All, CString, str, head_byte, is_set, fgets_lines, ℕ, ◌+◌, ◌≡◌, refl,
  ◌∙◌, inl, inr, true, false, not, ◌||◌, Option, none, some, List, [], ◌∷◌,
}

-- no target has been opened, and no target or kernel module has been added
record Untitled (conf : Conf) (s : Loading) : Type 0 where
  closed : s.topen ≡ 0
  same_targets : s.conf.targets ≡ conf.targets
  same_kmods : s.conf.kmods ≡ conf.kmods

-- a line whose directive is not `title`
abbrev pub NotTitle : CString → Type 0
NotTitle line = kl_streq (split_line line).0 (str "title") ≡ false

module _ (conf : Conf) where
  report-Untitled : (m : Message) (s : Loading) → Untitled conf s → Untitled conf (report m s)
  report-Untitled m s h = record {
    closed = h.closed;
    same_targets = h.same_targets;
    same_kmods = h.same_kmods;
  }

  check_args-Untitled :
      (n lnum : ℕ) (name val : CString) (s rest : Loading)
      → Untitled conf s
      → Untitled conf rest
      → Untitled conf (check_args n lnum name val s rest)
  unfolding check_args
  check_args-Untitled n lnum name val s rest h k =
      if_split (Untitled conf) (has_args n val) rest _ (λ _. k) (λ _. report-Untitled _ s h)

  check_topen-Untitled :
      (lnum : ℕ) (name : CString) (s rest : Loading)
      → Untitled conf s
      → Untitled conf (check_topen lnum name s rest)
  unfolding check_topen
  check_topen-Untitled lnum name s rest h =
      let e : (s.topen == 0) ≡ true = rw h.closed refl in rw e (report-Untitled _ s h)

  conf-Untitled :
      (s : Loading) (c : Conf)
      → c.targets ≡ s.conf.targets
      → c.kmods ≡ s.conf.kmods
      → Untitled conf s
      → Untitled conf (record s { conf = c })
  conf-Untitled s c t k h = record {
    closed = h.closed;
    same_targets = t ∙ h.same_targets;
    same_kmods = k ∙ h.same_kmods;
  }

  map_gdev-Untitled :
      (lnum : ℕ) (val val2 : CString) (s : Loading) (g : Option Gdev)
      → Untitled conf s
      → Untitled conf (map_gdev lnum val val2 s g)
  map_gdev-Untitled lnum val val2 s none h = report-Untitled _ s h
  map_gdev-Untitled lnum val val2 s (some g) h = conf-Untitled s _ refl refl h

  grub_map-Untitled :
      (lnum : ℕ) (name val : CString) (s : Loading)
      → Untitled conf s
      → Untitled conf (grub_map lnum name val s)
  unfolding grub_map
  grub_map-Untitled lnum name val s h = check_args-Untitled 2 lnum name (next_value val).0 s _ h (
      map_gdev-Untitled lnum (next_value val).0 (next_value val).1 s (parse_gdev (next_value val).0)
        h)

  grub_path-Untitled :
      (lnum : ℕ) (val : CString) (s : Loading)
      → Untitled conf s
      → Untitled conf (set_grub_path lnum val s)
  grub_path-Untitled lnum val s h =
      if_split (Untitled conf) (head_byte val == b'(') _ (report (no_device lnum) s)
        (λ _. conf-Untitled s _ refl refl h) (λ _. report-Untitled _ s h)

  autodetect-Untitled :
      (lnum : ℕ) (val : CString) (s : Loading)
      → Untitled conf s
      → Untitled conf (set_autodetect lnum val s)
  autodetect-Untitled lnum val s h = elim (Bool-cases (kl_strceq val (str "on"))) [
    | inl e ↦ rw e (conf-Untitled s _ refl refl h)
    | inr e ↦ rw e (elim (Bool-cases (kl_strceq val (str "off"))) [
      | inl e' ↦ rw e' (conf-Untitled s _ refl refl h)
      | inr e' ↦ rw e' (report-Untitled _ s h)
    ])
  ]

  target_directive-Untitled :
      (lnum : ℕ) (name val : CString) (s : Loading)
      → Untitled conf s
      → Untitled conf (target_directive lnum name val s)
  unfolding target_directive
  target_directive-Untitled lnum name val s h =
      let refused = λ (rest : Loading). check_topen-Untitled lnum name s rest h in
      elim (Bool-cases (kl_streq name (str "root"))) [
        | inl e ↦ rw e (refused _)
        | inr e ↦ rw e (elim (Bool-cases (kl_streq name (str "kernel"))) [
          | inl e ↦ rw e (refused _)
          | inr e ↦ rw e (elim (Bool-cases (kl_streq name (str "initrd"))) [
            | inl e ↦ rw e (refused _)
            | inr e ↦ rw e (elim (Bool-cases (kl_streq name (str "cmdline"))) [
              | inl e ↦ rw e (refused _)
              | inr e ↦ rw e (elim (Bool-cases (kl_streq name (str "append"))) [
                | inl e ↦ rw e (refused _)
                | inr e ↦ rw e (elim (Bool-cases (kl_streq name (str "default"))) [
                  | inl e ↦ rw e (refused _)
                  | inr e ↦ rw e (elim (Bool-cases (kl_streq name (str "reset-vga"))) [
                    | inl e ↦ rw e (refused _)
                    | inr e ↦ rw e (elim (Bool-cases (kl_streq name (str "module"))) [
                      | inl e ↦ rw e (refused _)
                      | inr e ↦ rw e (elim (Bool-cases (kl_streq name (str "kmod"))) [
                        | inl e ↦ rw e (refused _)
                        | inr e ↦ rw e (report-Untitled _ s h)
                      ])
                    ])
                  ])
                ])
              ])
            ])
          ])
        ])
      ]

  directive-Untitled :
      (lnum : ℕ) (name val : CString) (s : Loading)
      → kl_streq name (str "title") ≡ false
      → Untitled conf s
      → Untitled conf (directive lnum name val s)
  unfolding directive
  directive-Untitled lnum name val s untitled h =
      let checked = check_args-Untitled 1 lnum name val s in
      elim (Bool-cases (kl_streq name (str "timeout"))) [
        | inl e ↦ rw e (checked _ h (conf-Untitled s _ refl refl h))
        | inr e ↦ rw e (elim (Bool-cases (kl_streq name (str "grub-path"))) [
          | inl e ↦ rw e (checked _ h (grub_path-Untitled lnum val s h))
          | inr e ↦ rw e (elim (Bool-cases (kl_streq name (str "grub-map"))) [
            | inl e ↦ rw e (grub_map-Untitled lnum name val s h)
            | inr e ↦ rw e (elim (Bool-cases (kl_streq name (str "grub-autodetect"))) [
              | inl e ↦ rw e (checked _ h (autodetect-Untitled lnum val s h))
              | inr e ↦ rw e (rw untitled (target_directive-Untitled lnum name val s h))
            ])
          ])
        ])
      ]

  conf_lines-Untitled :
      (lnum : ℕ) (lines : List CString) (s : Loading)
      → All NotTitle lines
      → Untitled conf s
      → Untitled conf (conf_lines lnum lines s)
  unfolding conf_lines conf_line
  conf_lines-Untitled lnum [] s untitled h = h
  conf_lines-Untitled lnum (line ∷ lines) s untitled h =
      let name = (split_line line).0 in
      conf_lines-Untitled (lnum + 1) lines _ untitled.1 (
        if_split (Untitled conf) (head_byte name == b'#' || not (is_set name)) s _ (λ _. h)
          (λ _. directive-Untitled (lnum + 1) name (split_line line).1 s untitled.0 h))

-- A file with no `title` adds no target and no kernel module: its `kmod` lines too are refused,
-- as are the other lines of a target.
pub load_conf-untitled :
    (content : CString) (conf : Conf)
    → All NotTitle (fgets_lines 1024 content)
    → ((load_conf (some content) conf).conf.targets ≡ conf.targets)
      × ((load_conf (some content) conf).conf.kmods ≡ conf.kmods)
unfolding load_conf close_target
load_conf-untitled content conf untitled =
    let start : Untitled conf (started conf) = record {
      closed = refl;
      same_targets = refl;
      same_kmods = refl;
    } in
    let s = conf_lines 0 (fgets_lines 1024 content) (started conf) in
    let h : Untitled conf s =
      conf_lines-Untitled conf 0 (fgets_lines 1024 content) _ untitled start in
    let e : (s.topen == 0) ≡ true = rw h.closed refl in rw e (h.same_targets, h.same_kmods)
