-- ===== src/Command/Version.antt =====
-- MiscOptions of cmd/app/options/misc.go: the version that the flag `version` prints. The variables
-- of the package are set when the program is built.
use pf9_oidc_proxy.Base.{◌∷◌, [], ◌++◌}
use pf9_oidc_proxy.Strings.{Str, bytes}
use pf9_oidc_proxy.Command.FlagSets.{app_name}

pub record MiscOptions : Type 0 where
  pub git_major : Str
  pub git_minor : Str
  pub git_version : Str
  pub git_commit : Str
  pub git_tree_state : Str
  pub build_date : Str

-- The variables as the source has them.
abbrev pub source_variables : MiscOptions
source_variables = record {
  git_major = [];
  git_minor = [];
  git_version = bytes "v0.0.0-master+$Format:%h$";
  git_commit = bytes "$Format:%H$";
  git_tree_state = [];
  build_date = bytes "1970-01-01T00:00:00Z";
}

-- The Go runtime.
pub record Runtime : Type 0 where
  pub version : Str
  pub compiler : Str
  pub os : Str
  pub arch : Str

-- `Info` of k8s.io/apimachinery/pkg/version, as far as it is set.
pub record Info : Type 0 where
  pub options : MiscOptions
  pub go_version : Str
  pub compiler : Str
  pub platform : Str

unfoldable pub version_info : Runtime → MiscOptions → Info
version_info go m = record {
  options = m;
  go_version = go.version;
  compiler = go.compiler;
  platform = go.os ++ (bytes "/" ++ go.arch);
}

-- The text that is printed before the program exits with 0; the first argument is fmt's Go syntax of
-- a value.
unfoldable pub version_text : (Info → Str) → Runtime → MiscOptions → Str
unfolding version_info
version_text show go m = app_name ++ (bytes " version: " ++ (show (version_info go m) ++ 10 ∷ []))
