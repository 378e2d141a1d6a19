-- ===== src/Tests/Program.antt =====
-- The program on a command line and a configuration file.
use ab_dyeing.Base.{
  ◌≡◌, refl, ◌⊎◌, inr, Option, none, some, List, [], ◌∷◌, Bytes, codes, All, find, put, eqb,
  if◌then◌else◌, arith,
}
use ab_dyeing.Outcome.{done, throws, process_exit, ◌>>=◌}
use ab_dyeing.Util.Sepstr.{sepstr, sepstr_loop, find_first_of, index_of, in_set, push_piece}
use ab_dyeing.Util.Decimal.{atoi_u32}
use ab_dyeing.Util.Trim.{trim, trim_left, left_pos, trim_right, right_pos}
use ab_dyeing.Qconf as Q
use ab_dyeing.Mysql.{connect, settings}
use ab_dyeing.WhiteList as White
use ab_dyeing.OnlineHash as Online
use ab_dyeing.FreshUser as Fresh
use ab_dyeing.Logic as L
use ab_dyeing.Handler.Start.{IsReady, start, put_logic, bind_logics}
use ab_dyeing.Argv
use ab_dyeing.Argv.{get_value, is_option, decode_args}
use ab_dyeing.Argv.Options.{
  Argument, option, word, text, texts, IsArgument, last_value, words, decode-texts,
}
use ab_dyeing.ConfigFile.{parse, unescaped, erase_key, set_param_value}
use ab_dyeing.ConfigFile.Line.{read_param_line, cut_equal, value_of}
use ab_dyeing.ConfigFile.Tree.{
  Domain, new_domain, find_domain, put_domain, add_sub_domain, set_param_line, find_at, put_at,
}
use ab_dyeing.ConfigFile.Reader.{
  parse_file, read_config, read_lines, get_lines, before_close, open_domain, close_domain,
  set_param, read_trimmed,
}
use ab_dyeing.ConfigFile.Reader.Sections.{ended, written}
use ab_dyeing.ConfigFile.Reader.Text.{text_of}
use ab_dyeing.ConfigFile.Lookup.{get, parse_param_path}
use ab_dyeing.Application.{ServerSettings, config_at, read_settings, handler_config, run}
use ab_dyeing.Application.Chosen.{argv_of, IsChosen}
use ab_dyeing.Application.Started.{IsUnset, run-IsReady, run-exits, run-port}
use ab_dyeing.Tests.Serve.{nodes, no_rows, served, clock}
use ab_dyeing.Tests.File.{file_root, file-read, file, file-IsWritten, above_port}

abbrev pub said : List Argument
said =
    option (codes "config") (codes "a.conf")
    ∷ word (codes "x")
    ∷ option (codes "port") (codes "1")
    ∷ []

said-IsArgument : All IsArgument said
unfolding IsArgument is_option eqb
said-IsArgument = (ground arith, (refl, (ground arith, tt)))

decode-texts_example :
    (get_value (codes "port") (argv_of (codes "server" ∷ texts said)) ≡ codes "1")
    × ((argv_of (codes "server" ∷ texts said)).single ≡ codes "x" ∷ [])
unfolding last_value eqb words
decode-texts_example =
    decode-texts (codes "server") (codes "port") said (record { param = []; single = [] })
      said-IsArgument

abbrev pub files : Bytes → Option Bytes
files name = if eqb name (codes "a.conf") then some (text_of (written file)) else none

abbrev pub listening : ServerSettings
listening = record { port = 9090; thread_num = 4; log_level = codes "DEBUG" }

pub said-run :
    run (codes "server" ∷ texts said) files nodes no_rows 1700000000 clock (5 ∷ [])
    ≡ done (listening, served)
unfolding run read_settings handler_config parse_file get parse_param_path get_value Argv.decode
    decode_args is_option Argv.parse texts text read_config read_lines get_lines trim trim_left
    left_pos trim_right right_pos in_set before_close open_domain close_domain set_param
    read_trimmed new_domain find_domain put_domain add_sub_domain set_param_line find_at put_at
    read_param_line cut_equal value_of parse unescaped set_param_value erase_key put eqb text_of
    written start sepstr sepstr_loop find_first_of index_of push_piece White.load_config
    White.load_types White.load_internal White.load_pairs White.load_pair White.tmp_business_types
    Q.get Online.load_config Online.load_types Online.load_internal Online.parse_product_policy
    Online.parse_products Online.parse_product Online.parse_policy Online.parse_conf_id_infos
    Online.parse_conf_id_info atoi_u32 find Fresh.flush_fresh_user Fresh.sql Fresh.store connect
    settings bind_logics put_logic L.init
said-run = refl

run-IsReady_example :
    (root : Domain) × (parse_file files
        (get_value (codes "config") (argv_of (codes "server" ∷ texts said)))
      ≡ done root)
    × IsChosen (argv_of (codes "server" ∷ texts said)) root listening
    × IsReady (config_at root) (5 ∷ []) served
run-IsReady_example =
    run-IsReady (codes "server" ∷ texts said) files nodes no_rows 1700000000 clock (5 ∷ [])
      listening served said-run

-- The command line says 1, the file 9090.
run-port_example : listening.port ≡ atoi_u32 (codes "9090")
unfolding get_value find Argv.decode decode_args Argv.parse is_option texts text index_of in_set put
    eqb read_param_line cut_equal value_of parse unescaped trim trim_left left_pos trim_right
    right_pos
run-port_example =
    run-port (codes "server" ∷ texts said) files nodes no_rows 1700000000 clock (5 ∷ []) listening
      served ended above_port (codes "port = 9090") (codes "090") b'9' file-IsWritten refl (λ h. cc)
      refl said-run

pub said-parsed :
    parse_file files (get_value (codes "config") (argv_of (codes "server" ∷ texts said)))
    ≡ done file_root
unfolding get_value find Argv.decode decode_args Argv.parse is_option texts text index_of in_set put
    eqb parse_file
said-parsed = file-read

-- The file does not give a level of the log.
run-exits_example :
    IsUnset (argv_of (codes "server" ∷ texts said)) file_root
      × (run (codes "server" ∷ texts said) files nodes no_rows 1700000000 clock (5 ∷ [])
          ≡ throws process_exit)
    ⊎ (¬ IsUnset (argv_of (codes "server" ∷ texts said)) file_root)
      × ((s : ServerSettings) × (IsChosen (argv_of (codes "server" ∷ texts said)) file_root s)
          × (run (codes "server" ∷ texts said) files nodes no_rows 1700000000 clock (5 ∷ []) ≡ (
              start (done (config_at file_root)) nodes no_rows 1700000000 clock (5 ∷ []) >>= λ h.
              done (s, h))))
run-exits_example =
    run-exits (codes "server" ∷ texts said) files nodes no_rows 1700000000 clock (5 ∷ []) file_root
      (inr said-parsed)

pub prefix-read : config_at file_root (codes "/main/base/[online_prefix]") ≡ codes "/o"
unfolding get parse_param_path sepstr sepstr_loop find_first_of index_of push_piece find_at
    find_domain find eqb file_root
prefix-read = refl
