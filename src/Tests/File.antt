-- ===== src/Tests/File.antt =====
-- A configuration file with a section in a section, from its text to its parameters.
use ab_dyeing.Base.{◌≡◌, ◌≢◌, refl, List, [], ◌∷◌, Bytes, codes, All, put, eqb, arith}
use ab_dyeing.Outcome.{Outcome, done, throws, undefined}
use ab_dyeing.Util.Sepstr.{in_set}
use ab_dyeing.Util.Trim.{trim, trim_left, left_pos, trim_right, right_pos}
use ab_dyeing.ConfigFile.{parse, unescaped, erase_key, set_param_value}
use ab_dyeing.ConfigFile.Line.{read_param_line, cut_equal, value_of}
use ab_dyeing.ConfigFile.Tree.{
  Domain, new_domain, find_domain, put_domain, add_sub_domain, set_param_line, find_at, put_at,
}
use ab_dyeing.ConfigFile.Reader.{
  read_config, read_lines, get_lines, before_close, open_domain, close_domain, set_param,
  read_trimmed,
}
use ab_dyeing.ConfigFile.Reader.Sections.{Content, ended, entry, section, written, meant, IsWritten}
use ab_dyeing.ConfigFile.Reader.Text.{text_of, read_config-written}
use ab_dyeing.ConfigFile.Reader.Safe.{read_config-defined}
use ab_dyeing.ConfigFile.Lookup.{get}
use ab_dyeing.ConfigFile.Lookup.Path.{path_text, IsPathName}
use ab_dyeing.ConfigFile.Lookup.Last.{behind, inside, get-read_config}

abbrev pub above_port : Content
above_port =
    section (codes "base") (entry (codes "types = ui") (entry (codes "online_prefix=/o") ended))
      (entry (codes "threadnum = 4") ended)

abbrev pub file : Content
file = inside ((ended, codes "main") ∷ []) (behind above_port (entry (codes "port = 9090") ended))

pub file-IsWritten : IsWritten file
unfolding IsWritten trim trim_left left_pos trim_right right_pos in_set
file-IsWritten = (
  record { closes = ground arith; line = ground arith; slash = refl; trimmed = refl },
  (
    record { closes = ground arith; line = ground arith; slash = refl; trimmed = refl },
    (
      record { line = ground arith; starts = refl; trimmed = refl },
      (record { line = ground arith; starts = refl; trimmed = refl }, tt),
    ),
    (
      record { line = ground arith; starts = refl; trimmed = refl },
      (record { line = ground arith; starts = refl; trimmed = refl }, tt),
    ),
  ),
  tt,
)

read_config-written_example : read_config (text_of (written file)) ≡ meant file (new_domain [])
read_config-written_example = read_config-written file file-IsWritten

abbrev no_root_closed : Bytes
no_root_closed = codes "[main]\nport=1\n[/main]\n[/other]\n"

read_config-defined_example : read_config no_root_closed ≢ undefined
unfolding get_lines trim trim_left left_pos trim_right right_pos in_set eqb
read_config-defined_example = read_config-defined no_root_closed (refl, (refl, (refl, (refl, tt))))

abbrev root_closed : Bytes
root_closed = codes "[/]\nport=1\n[/main]"

abbrev pub main_path : List Bytes
main_path = codes "main" ∷ []

pub main_path-IsPathName : All IsPathName main_path
main_path-IsPathName = (
  record { filled = λ h. cc; slash = ground arith; opens = ground arith; closes = ground arith },
  tt,
)

abbrev root_of : Outcome Domain → Domain
root_of (done d) = d
root_of (throws e) = new_domain []
root_of undefined = new_domain []

-- The domain that the file is read as.
unfoldable pub file_root : Domain
unfolding read_config read_lines get_lines trim trim_left left_pos trim_right right_pos in_set
    before_close open_domain close_domain set_param read_trimmed new_domain find_domain put_domain
    add_sub_domain set_param_line find_at put_at read_param_line cut_equal value_of parse unescaped
    set_param_value erase_key put eqb text_of written
file_root = root_of (read_config (text_of (written file)))

pub file-read : read_config (text_of (written file)) ≡ done file_root
unfolding file_root read_config read_lines get_lines trim trim_left left_pos trim_right right_pos
    in_set before_close open_domain close_domain set_param read_trimmed new_domain find_domain
    put_domain add_sub_domain set_param_line find_at put_at read_param_line cut_equal value_of parse
    unescaped set_param_value erase_key put eqb text_of written
file-read = refl

get-read_config_example : get file_root (path_text main_path (codes "port")) ≡ done (codes "9090")
unfolding read_param_line cut_equal value_of parse unescaped trim trim_left left_pos trim_right
    right_pos in_set
get-read_config_example =
    get-read_config ((ended, codes "main") ∷ []) above_port (codes "port = 9090") (codes "port")
      (codes "9090") file_root file-IsWritten refl (λ h. cc) main_path-IsPathName (ground arith)
      (omega arith) file-read
