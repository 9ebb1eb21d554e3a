-- ===== src/CommandLine/Settings.antt =====
-- Command lines as a user writes them, and what `getopt` makes of them.
use smart_ac.Base.{ℕ, ◌≡◌, refl, ap, ◌∙◌, Bool, true, false, none, some, List, [], ◌∷◌, ◌++◌, Bytes}
use smart_ac.CommandLine.Getopt.{Opt, opt, getopt, scan, element, cluster}

-- What a command line asks for.
pub data Setting : Type 0 where
  config_file debug_level arp_table : Bytes → Setting
  foreground log_syslog usage version : Setting

abbrev pub as_opt : Setting → Opt
as_opt (config_file path) = opt b'c' (some path)
as_opt (debug_level level) = opt b'd' (some level)
as_opt (arp_table path) = opt b'a' (some path)
as_opt foreground = opt b'f' none
as_opt log_syslog = opt b's' none
as_opt usage = opt b'h' none
as_opt version = opt b'v' none

abbrev pub as_opts : List Setting → List Opt
as_opts [] = []
as_opts (x ∷ xs) = as_opt x ∷ as_opts xs

-- A letter with its argument, in the same element or, where that is empty or not `joined`, in the next.
abbrev pub with_argument : ℕ → Bool → Bytes → List Bytes
with_argument c true (d ∷ cs) = (b'-' ∷ c ∷ d ∷ cs) ∷ []
with_argument c _ a = (b'-' ∷ c ∷ []) ∷ a ∷ []

abbrev pub as_args : Bool → Setting → List Bytes
as_args joined (config_file path) = with_argument b'c' joined path
as_args joined (debug_level level) = with_argument b'd' joined level
as_args joined (arp_table path) = with_argument b'a' joined path
as_args joined foreground = (b'-' ∷ b'f' ∷ []) ∷ []
as_args joined log_syslog = (b'-' ∷ b's' ∷ []) ∷ []
as_args joined usage = (b'-' ∷ b'h' ∷ []) ∷ []
as_args joined version = (b'-' ∷ b'v' ∷ []) ∷ []

abbrev pub command_line : Bool → List Setting → List Bytes → List Bytes
command_line joined [] operands = (b'-' ∷ b'-' ∷ []) ∷ operands
command_line joined (x ∷ xs) operands = as_args joined x ++ command_line joined xs operands

scan-setting :
    (permute joined : Bool) (x : Setting) (args : List Bytes)
    → scan permute none (as_args joined x ++ args) ≡ as_opt x ∷ scan permute none args
unfolding scan element cluster
scan-setting permute true (config_file (d ∷ cs)) args = refl
scan-setting permute true (config_file []) args = refl
scan-setting permute false (config_file path) args = refl
scan-setting permute true (debug_level (d ∷ cs)) args = refl
scan-setting permute true (debug_level []) args = refl
scan-setting permute false (debug_level level) args = refl
scan-setting permute true (arp_table (d ∷ cs)) args = refl
scan-setting permute true (arp_table []) args = refl
scan-setting permute false (arp_table path) args = refl
scan-setting permute joined foreground args = refl
scan-setting permute joined log_syslog args = refl
scan-setting permute joined usage args = refl
scan-setting permute joined version args = refl

-- From a command line that writes settings down in order, each argument joined to its letter or behind
-- it, and that ends them by `--`, `getopt` returns just these settings in that order, whatever operands
-- follow.
pub getopt-command_line :
    (permute joined : Bool) (xs : List Setting) (operands : List Bytes)
    → getopt permute (command_line joined xs operands) ≡ as_opts xs
unfolding getopt scan element
getopt-command_line permute joined [] operands = refl
getopt-command_line permute joined (x ∷ xs) operands =
    scan-setting permute joined x (command_line joined xs operands)
    ∙ ap (◌∷◌ (as_opt x)) (getopt-command_line permute joined xs operands)
