-- ===== src/Manager/Install/Targets.antt =====
-- handlers/install.rs, `TargetOs`: the systems that an agent runs on, and the command that installs it
-- there.
use scrooge_dlp.Common.{
  String, Bool, true, false, Option, none, some, [], ◌∷◌, ◌++◌, ◌&&◌, ◌||◌, if◌then◌else◌, str_eq,
  ◌==◌, is_empty,
}
use scrooge_dlp.Common.Text.{Text, codes}

pub data TargetOs : Type 0 where
  linux macos windows : TargetOs

-- `TargetOs::parse`, of a text in lower case.
abbrev pub parse : String → Option TargetOs
parse s =
    if str_eq s "linux"
    then some linux
    else if str_eq s "macos" || str_eq s "darwin"
    then some macos
    else if str_eq s "windows"
    then some windows
    else none

-- `TargetOs::label`
abbrev pub label : TargetOs → Text
label linux = codes "linux"
label macos = codes "macos"
label windows = codes "windows"

-- `TargetOs::content_type`
abbrev pub content_type : TargetOs → String
content_type linux = "text/x-shellscript; charset=utf-8"
content_type macos = "text/x-shellscript; charset=utf-8"
content_type windows = "application/x-powershell; charset=utf-8"

-- `TargetOs::script_path`
abbrev pub script_path : TargetOs → String
script_path linux = "/api/v1/install.sh"
script_path macos = "/api/v1/install-macos.sh"
script_path windows = "/api/v1/install.ps1"

abbrev pub same_text : Text → Text → Bool
same_text [] [] = true
same_text [] (b ∷ t) = false
same_text (a ∷ s) [] = false
same_text (a ∷ s) (b ∷ t) = (a == b) && same_text s t

abbrev pub ref_part : Text → Text
ref_part ref =
    if is_empty ref || same_text ref (codes "main") then [] else codes " INSTALL_REF=" ++ ref

abbrev pub rest_part : Option Text → Text
rest_part none = []
rest_part (some b) = if is_empty b then [] else codes " REST_BASE=" ++ b

abbrev pub branch_of : Text → Text
branch_of ref = if is_empty ref then codes "main" else ref

abbrev pub shell_line : Text → Text → Text → Option Text → Text
shell_line manager token ref rest_base =
    codes "curl -fsSL https://github.com/SQTX/Scrooge-DLP/raw/"
    ++ (branch_of ref
        ++ (codes "/deploy/install-agent.sh | MANAGER="
            ++ (manager
                ++ (codes " TOKEN="
                    ++ (token
                        ++ (ref_part ref ++ (rest_part rest_base ++ codes " sudo -E bash")))))))

-- `TargetOs::one_liner`
unfoldable pub one_liner : TargetOs → Text → Text → Text → Option Text → Text
one_liner linux manager token ref rest_base = shell_line manager token ref rest_base
one_liner macos manager token ref rest_base = shell_line manager token ref rest_base
one_liner windows manager token ref rest_base =
    codes "# Windows install-from-source NIE wspierany jeszcze.\n# MANAGER="
    ++ (manager
        ++ (codes " TOKEN=" ++ (token ++ codes "\n# Roadmap: deploy/install-agent.ps1 w v0.3.x")))
