-- ===== src/Misc/Config/Fits.antt =====
-- The strings that a configuration sets fit the buffers of `kl_target` and `kl_module`.
use kexec_loader.Misc.Config.{KlModule, KlTarget, init_target, make_module, add_module}
use kexec_loader.Base.{
  length, All, length-take, All-append, CString, strlcpy, ℕ, ◌-◌, ◌<◌, Bool, [], ◌∷◌, arith,
}

pub record ModuleFits (m : KlModule) : Type 0 where
  pub name_fits : length m.name < 1024
  pub args_fit : length m.args < 1024

-- the string fields of a `kl_target` with their NULs
pub record Fits (t : KlTarget) : Type 0 where
  pub title_fits : length t.title < 256
  pub root_fits : length t.root < 256
  pub kernel_fits : length t.kernel < 1024
  pub initrd_fits : length t.initrd < 1024
  pub cmdline_fits : length t.cmdline < 1024
  pub append_fits : length t.append < 1024
  pub modules_fit : All ModuleFits t.modules

pub strlcpy-length : (val : CString) (n : ℕ) → 0 < n → length (strlcpy val n) < n
strlcpy-length val n h = omega (arith, length-take (n - 1) val)

pub titled-Fits :
    (title : CString) → length title < 256 → Fits (record init_target { title = title })
titled-Fits title h = record {
  title_fits = h;
  root_fits = omega arith;
  kernel_fits = omega arith;
  initrd_fits = omega arith;
  cmdline_fits = omega arith;
  append_fits = omega arith;
  modules_fit = tt;
}

pub make_module-ModuleFits : (val : CString) → ModuleFits (make_module val)
unfolding make_module
make_module-ModuleFits val = record {
  name_fits = strlcpy-length _ 1024 (omega arith);
  args_fit = strlcpy-length _ 1024 (omega arith);
}

pub root-Fits : (t : KlTarget) (val : CString) → Fits t → Fits (record t { root = strlcpy val 256 })
root-Fits t val h = record {
  title_fits = h.title_fits;
  root_fits = strlcpy-length val 256 (omega arith);
  kernel_fits = h.kernel_fits;
  initrd_fits = h.initrd_fits;
  cmdline_fits = h.cmdline_fits;
  append_fits = h.append_fits;
  modules_fit = h.modules_fit;
}

pub kernel-Fits :
    (t : KlTarget) (val : CString) → Fits t → Fits (record t { kernel = strlcpy val 1024 })
kernel-Fits t val h = record {
  title_fits = h.title_fits;
  root_fits = h.root_fits;
  kernel_fits = strlcpy-length val 1024 (omega arith);
  initrd_fits = h.initrd_fits;
  cmdline_fits = h.cmdline_fits;
  append_fits = h.append_fits;
  modules_fit = h.modules_fit;
}

pub initrd-Fits :
    (t : KlTarget) (val : CString) → Fits t → Fits (record t { initrd = strlcpy val 1024 })
initrd-Fits t val h = record {
  title_fits = h.title_fits;
  root_fits = h.root_fits;
  kernel_fits = h.kernel_fits;
  initrd_fits = strlcpy-length val 1024 (omega arith);
  cmdline_fits = h.cmdline_fits;
  append_fits = h.append_fits;
  modules_fit = h.modules_fit;
}

pub cmdline-Fits :
    (t : KlTarget) (val : CString) → Fits t → Fits (record t { cmdline = strlcpy val 1024 })
cmdline-Fits t val h = record {
  title_fits = h.title_fits;
  root_fits = h.root_fits;
  kernel_fits = h.kernel_fits;
  initrd_fits = h.initrd_fits;
  cmdline_fits = strlcpy-length val 1024 (omega arith);
  append_fits = h.append_fits;
  modules_fit = h.modules_fit;
}

pub append-Fits :
    (t : KlTarget) (val : CString) → Fits t → Fits (record t { append = strlcpy val 1024 })
append-Fits t val h = record {
  title_fits = h.title_fits;
  root_fits = h.root_fits;
  kernel_fits = h.kernel_fits;
  initrd_fits = h.initrd_fits;
  cmdline_fits = h.cmdline_fits;
  append_fits = strlcpy-length val 1024 (omega arith);
  modules_fit = h.modules_fit;
}

pub flags-Fits :
    (t : KlTarget) (d r : Bool) → Fits t → Fits (record t { is_default = d; reset_vga = r })
flags-Fits t d r h = record {
  title_fits = h.title_fits;
  root_fits = h.root_fits;
  kernel_fits = h.kernel_fits;
  initrd_fits = h.initrd_fits;
  cmdline_fits = h.cmdline_fits;
  append_fits = h.append_fits;
  modules_fit = h.modules_fit;
}

pub add_module-Fits : (t : KlTarget) (val : CString) → Fits t → Fits (add_module val t)
add_module-Fits t val h = record {
  title_fits = h.title_fits;
  root_fits = h.root_fits;
  kernel_fits = h.kernel_fits;
  initrd_fits = h.initrd_fits;
  cmdline_fits = h.cmdline_fits;
  append_fits = h.append_fits;
  modules_fit =
      All-append ModuleFits t.modules (make_module val ∷ []) h.modules_fit
        (make_module-ModuleFits val, tt);
}
