-- ===== src/Vfs/Nodes.antt =====
-- What a path means: its nodes, with `..` taken back, and the text that they are written as.
use kexec_loader.Misc.Strings.{kl_streq}
use kexec_loader.Vfs.{slash, dotdot}
use kexec_loader.Base.{
  ◌==◌, if◌then◌else◌, drop, CString, is_set, byte_in, ◌≡◌, ◌≢◌, true, false, List, [], ◌∷◌, ◌++◌,
}

abbrev pub emit : CString → List CString
emit [] = []
emit (c ∷ node) = (c ∷ node) ∷ []

-- The nodes of a path that continues the node `cur`.
abbrev pub nodes_from : CString → CString → List CString
nodes_from cur [] = emit cur
nodes_from cur (c ∷ s) =
    if c == b'/' then emit cur ++ nodes_from [] s else nodes_from (cur ++ c ∷ []) s

abbrev pub nodes : CString → List CString
nodes = nodes_from []

-- The nodes that are left when each `..` has taken the one before it back, and one that has none
-- before it is ignored. The last node stands first.
abbrev pub take_node : List CString → CString → List CString
take_node stack n = if kl_streq n dotdot then drop 1 stack else n ∷ stack

abbrev pub normalize : List CString → List CString → List CString
normalize stack [] = stack
normalize stack (n ∷ ns) = normalize (take_node stack n) ns

abbrev pub render : List CString → CString
render [] = []
render (n ∷ stack) = render stack ++ (slash ++ n)

-- A node that names something in a directory.
pub record IsNode (n : CString) : Type 0 where
  pub set : is_set n ≡ true
  pub no_slash : byte_in b'/' n ≡ false
  pub not_dotdot : n ≢ dotdot
