-- ===== src/Guard/Builtin.antt =====
-- services/guard.py: the built-in deny-list, in the order in which it is searched. The patterns are
-- those of the source, as texts.
use atmcp.Base.{String, Bool, true, false, List, [], ◌∷◌}

pub record Builtin : Type 0 where
  pub label : String
  pub pattern : String
  pub ignore_case : Bool
  pub why : String

-- `_BUILTIN`
abbrev pub builtins : List Builtin
builtins =
    record {
      label = "rm_rf_root";
      pattern = "\\brm\\s+-[a-z]*[rf][a-z]*\\s+(?:-[a-z]+\\s+)*(?:/|~|\\$HOME)(?:\\s|/|\\*|$)";
      ignore_case = true;
      why = "recursive force-remove of / or home";
    }
    ∷ record {
      label = "rm_rf_wildcard";
      pattern = "\\brm\\s+-[a-z]*[rf][a-z]*\\s+(?:-[a-z]+\\s+)*[/~]?\\*";
      ignore_case = true;
      why = "recursive force-remove of a wildcard";
    }
    ∷ record {
      label = "fork_bomb";
      pattern = ":\\(\\)\\s*\\{\\s*:\\s*\\|\\s*:?\\s*&\\s*\\}\\s*;\\s*:";
      ignore_case = false;
      why = "fork bomb";
    }
    ∷ record {
      label = "mkfs";
      pattern = "\\bmkfs(\\.\\w+)?\\b";
      ignore_case = true;
      why = "filesystem format";
    }
    ∷ record {
      label = "dd_device";
      pattern = "\\bdd\\b[^\\n]*\\bof=/dev/";
      ignore_case = true;
      why = "dd to a device";
    }
    ∷ record {
      label = "write_block_device";
      pattern = ">\\s*/dev/(sd|nvme|disk|hd|mmcblk)";
      ignore_case = true;
      why = "write to a block device";
    }
    ∷ record {
      label = "pipe_to_shell";
      pattern = "\\b(curl|wget|fetch)\\b[^\\n|]*\\|\\s*(sudo\\s+)?(sh|bash|zsh|fish)\\b";
      ignore_case = true;
      why = "piping a download straight into a shell";
    }
    ∷ record {
      label = "chmod_777_root";
      pattern = "\\bchmod\\s+-R\\s+777\\s+/";
      ignore_case = true;
      why = "world-writable recursively from /";
    }
    ∷ record {
      label = "shutdown";
      pattern = "\\b(shutdown|reboot|halt|poweroff)\\b";
      ignore_case = true;
      why = "power/shutdown command";
    }
    ∷ record {
      label = "kill_all";
      pattern = "\\bkill\\s+-9\\s+-1\\b|\\bkillall\\s+-9\\b";
      ignore_case = true;
      why = "kill everything";
    }
    ∷ record {
      label = "sudo";
      pattern = "(^|\\s|;|&|\\|)sudo\\s";
      ignore_case = true;
      why = "privilege escalation (sudo)";
    }
    ∷ record {
      label = "secret_exfil";
      pattern =
          "\\b(cat|less|more|cp|scp|curl|tar|cat)\\b[^\\n]*(\\.ssh/|\\.aws/credentials|\\.env(\\s|$)|id_rsa|id_ed25519|authorized_keys)";
      ignore_case = true;
      why = "reading/copying secrets or keys";
    }
    ∷ record {
      label = "authorized_keys_write";
      pattern = ">{1,2}\\s*[^\\n]*authorized_keys";
      ignore_case = true;
      why = "writing SSH authorized_keys";
    }
    ∷ record {
      label = "git_force_push";
      pattern = "\\bgit\\s+push\\b[^\\n]*(--force(?!-with-lease)|\\s-f(\\s|$))";
      ignore_case = true;
      why = "git force-push";
    }
    ∷ []
