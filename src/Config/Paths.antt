-- ===== src/Config/Paths.antt =====
-- The paths that requests go to.
use Prim.Native.String.{◌++◌}
use intempt_python.Prelude.{String, ◌≡◌, refl}
use intempt_python.Config.Record.{ResolvedConfig, project_path}
use intempt_python.Python.Decode.{unquoted, unquoted-quote}
use intempt_python.Python.Encode.{quote, utf8}
use intempt_python.Python.Segment.{IsSegment, quote-IsSegment}
use intempt_python.Python.Value.{Value, str_of}

-- A path with these two names, each as one segment.
pub record IsProjectPath (org_name project_name prefix suffix path : String) : Type 0 where
  pub org : String
  pub project : String
  pub org_segment : IsSegment org
  pub project_segment : IsSegment project
  pub org_decodes : unquoted org ≡ utf8 org_name
  pub project_decodes : unquoted project ≡ utf8 project_name
  pub split : path ≡ prefix ++ ("/v1/" ++ (org ++ ("/projects/" ++ (project ++ suffix))))

-- Whatever the organisation and the project are called, the path has one segment for each of them,
-- in this order. Only letters, digits, `_`, `.`, `-`, `~` and the `%` of an escape stand in it, so
-- neither can add a segment, a query or a fragment; and undoing the escapes of a segment gives the
-- UTF-8 bytes of the name that was configured. A name of one or two dots stays as it is.
pub project_path-IsProjectPath :
    (show : Value → String) (config : ResolvedConfig) (suffix : String)
    → IsProjectPath config.org config.project
        (str_of show config.path)
        suffix
        (project_path show config suffix)
unfolding project_path
project_path-IsProjectPath show config suffix = record {
  org = quote config.org;
  project = quote config.project;
  org_segment = quote-IsSegment config.org;
  project_segment = quote-IsSegment config.project;
  org_decodes = unquoted-quote config.org;
  project_decodes = unquoted-quote config.project;
  split = refl;
}
