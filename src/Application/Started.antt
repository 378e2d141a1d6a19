-- ===== src/Application/Started.antt =====
-- What a start that returns has read, and when the program exits instead.
use ab_dyeing.Base.{
  ℕ, ◌≡◌, ◌≢◌, ◌⊎◌, inl, inr, refl, sym, ap, subst, ◌∙◌, Option, some, List, [], ◌∷◌, Bytes, All,
  codes, arith,
}
use ab_dyeing.Outcome.{done, throws, process_exit, ◌>>=◌, >>=-eq-done, done-injective}
use ab_dyeing.Util.Sepstr.Join.{Lacks}
use ab_dyeing.Util.Decimal.{atoi_u32}
use ab_dyeing.Argv.{Argv, get_value}
use ab_dyeing.ConfigFile.Line.{read_param_line}
use ab_dyeing.ConfigFile.Tree.{Domain}
use ab_dyeing.ConfigFile.Reader.{parse_file, read_config}
use ab_dyeing.ConfigFile.Reader.Sections.{Content, ended, entry, written, IsWritten}
use ab_dyeing.ConfigFile.Reader.Text.{text_of}
use ab_dyeing.ConfigFile.Lookup.Path.{IsPathName, get-path_text}
use ab_dyeing.ConfigFile.Lookup.Last.{behind, inside, get-read_config}
use ab_dyeing.Qconf.{Qconf}
use ab_dyeing.Mysql.{Mysql}
use ab_dyeing.Handler.{Handler}
use ab_dyeing.Handler.Start.{start, IsReady, start-IsReady}
use ab_dyeing.Application.{ServerSettings, or_usage, read_settings, config_at, handler_config, run}
use ab_dyeing.Application.Chosen.{
  argv_of, main_param, IsNumberOf, IsChosen, IsMissing, read_settings-IsChosen, read_settings-cases,
  IsNumberOf-given,
}

handler_config-parsed :
    (files : Bytes → Option Bytes) (path : Bytes) (root : Domain)
    → parse_file files path ≡ done root
    → handler_config files path ≡ done (config_at root)
unfolding handler_config
handler_config-parsed files path root h = rw h

-- What a start that returns has done: the file is read, the settings are chosen, and the handler
-- has started with the parameters of that file.
pub run-started :
    (argv : List Bytes) (files : Bytes → Option Bytes) (qconf : Qconf) (mysql : Mysql) (now : ℕ)
    (clock : ℕ → ℕ) (tids : List ℕ) (s : ServerSettings) (h : Handler)
    → run argv files qconf mysql now clock tids ≡ done (s, h)
    → (root : Domain) × (parse_file files (get_value (codes "config") (argv_of argv)) ≡ done root)
      × IsChosen (argv_of argv) root s
      × (start (done (config_at root)) qconf mysql now clock tids ≡ done h)
unfolding run
run-started argv files qconf mysql now clock tids s h e =
    let (path, named, e₁) =
      >>=-eq-done (or_usage (get_value (codes "config") (argv_of argv))) _ e in
    let same = or_usage-same _ path named in
    let (root, parsed, e₂) = >>=-eq-done (parse_file files path) _ e₁ in
    let (settings, set, e₃) = >>=-eq-done (read_settings (argv_of argv) root) _ e₂ in
    let (handler, started, e₄) =
      >>=-eq-done (start (handler_config files path) qconf mysql now clock tids) _ e₃ in
    let pair = done-injective e₄ in
    (
      root,
      ap (parse_file files) same ∙ parsed,
      subst (λ (x : ServerSettings × Handler). IsChosen (argv_of argv) root (x.0)) pair
          (read_settings-IsChosen (argv_of argv) root settings set),
      subst
          (λ (x : ServerSettings × Handler).
            start (done (config_at root)) qconf mysql now clock tids ≡ done (x.1))
          pair
          (subst (λ c. start c qconf mysql now clock tids ≡ done handler)
            (handler_config-parsed files path root parsed) started),
    )
  where
    or_usage-same : (a b : Bytes) → or_usage a ≡ done b → a ≡ b
    or_usage-same [] b h = cc
    or_usage-same (c ∷ a) b h = done-injective h

-- A start that returns has read the file that the command line names; its port and its number
-- of threads are those of the file where the file gives a text, else those of the command line,
-- which then gives one; the level of the log is the file's, else DEBUG; and its handler is ready for each worker thread with the
-- parameters of that file.
pub run-IsReady :
    (argv : List Bytes) (files : Bytes → Option Bytes) (qconf : Qconf) (mysql : Mysql) (now : ℕ)
    (clock : ℕ → ℕ) (tids : List ℕ) (s : ServerSettings) (h : Handler)
    → run argv files qconf mysql now clock tids ≡ done (s, h)
    → (root : Domain) × (parse_file files (get_value (codes "config") (argv_of argv)) ≡ done root)
      × IsChosen (argv_of argv) root s
      × IsReady (config_at root) tids h
run-IsReady argv files qconf mysql now clock tids s h e =
    let (root, parsed, set, started) = run-started argv files qconf mysql now clock tids s h e in
    (root, parsed, set, start-IsReady (config_at root) qconf mysql now clock tids h started)

list_cases : (s : Bytes) → (s ≡ []) ⊎ ((c : ℕ) × (t : Bytes) × (s ≡ c ∷ t))
list_cases [] = inl refl
list_cases (c ∷ s) = inr (c, s, refl)

run-unnamed :
    (argv : List Bytes) (files : Bytes → Option Bytes) (qconf : Qconf) (mysql : Mysql) (now : ℕ)
    (clock : ℕ → ℕ) (tids : List ℕ)
    → get_value (codes "config") (argv_of argv) ≡ []
    → run argv files qconf mysql now clock tids ≡ throws process_exit
unfolding run
run-unnamed argv files qconf mysql now clock tids h = rw h

run-read :
    (argv : List Bytes) (files : Bytes → Option Bytes) (qconf : Qconf) (mysql : Mysql) (now : ℕ)
    (clock : ℕ → ℕ) (tids : List ℕ) (root : Domain) (c : ℕ) (s : Bytes)
    → get_value (codes "config") (argv_of argv) ≡ c ∷ s
    → parse_file files (c ∷ s) ≡ done root
    → run argv files qconf mysql now clock tids ≡ (
        read_settings (argv_of argv) root >>= λ settings.
        (start (done (config_at root)) qconf mysql now clock tids >>= λ h. done (settings, h)))
unfolding run
run-read argv files qconf mysql now clock tids root c s h p =
    rw (h, p, handler_config-parsed files (c ∷ s) root p) refl

-- What the command line and the file lack for a start.
abbrev pub IsUnset : Argv → Domain → Type 0
IsUnset ag root =
    (get_value (codes "config") ag ≡ [])
    ⊎ (IsMissing ag root (codes "port") ⊎ IsMissing ag root (codes "threadnum"))

-- Where the command line names no file, or a file that can be read, the program exits before the
-- handler starts, and then the name of the file, the port in both places or the number of threads
-- in both places is empty; or none of them is, and the start comes to that of the handler, whose
-- exceptions it throws, and returns the settings that are chosen.
pub run-exits :
    (argv : List Bytes) (files : Bytes → Option Bytes) (qconf : Qconf) (mysql : Mysql) (now : ℕ)
    (clock : ℕ → ℕ) (tids : List ℕ) (root : Domain)
    → (get_value (codes "config") (argv_of argv) ≡ [])
      ⊎ (parse_file files (get_value (codes "config") (argv_of argv)) ≡ done root)
    → IsUnset (argv_of argv) root
        × (run argv files qconf mysql now clock tids ≡ throws process_exit)
      ⊎ (¬ IsUnset (argv_of argv) root)
        × ((s : ServerSettings) × (IsChosen (argv_of argv) root s)
            × (run argv files qconf mysql now clock tids
                ≡ (start (done (config_at root)) qconf mysql now clock tids >>= λ h. done (s, h))))
run-exits argv files qconf mysql now clock tids root (inl unnamed) =
    inl (inl unnamed, run-unnamed argv files qconf mysql now clock tids unnamed)
run-exits argv files qconf mysql now clock tids root (inr parsed) =
    elim (list_cases (get_value (codes "config") (argv_of argv))) [
      | inl e ↦ inl (inl e, run-unnamed argv files qconf mysql now clock tids e)
      | inr (c, s, e) ↦
          let read =
            run-read argv files qconf mysql now clock tids root c s e
              (subst (λ p. parse_file files p ≡ done root) e parsed) in
          elim (read_settings-cases (argv_of argv) root) [
            | inl (missing, exit) ↦ inl (inr missing, read ∙ rw exit)
            | inr (settings, chosen, set) ↦
                inr (chosen-set c s e settings chosen, (settings, chosen, read ∙ rw set refl))
          ]
    ]
  where
    chosen-set :
        (c : ℕ) (s : Bytes)
        → get_value (codes "config") (argv_of argv) ≡ c ∷ s
        → (settings : ServerSettings) → IsChosen (argv_of argv) root settings
        → ¬ IsUnset (argv_of argv) root
    chosen-set c s e settings chosen (inl unnamed) = cc
    chosen-set c s e settings chosen (inr (inl missing)) = IsNumberOf-given chosen.port missing
    chosen-set c s e settings chosen (inr (inr missing)) =
        IsNumberOf-given chosen.thread_num missing

opened_file :
    (files : Bytes → Option Bytes) (name : Bytes) (root : Domain) (text : Bytes)
    → parse_file files name ≡ done root
    → files name ≡ some text
    → read_config text ≡ done root
unfolding parse_file
opened_file files [] root text h o = cc
opened_file files (c ∷ s) root text h o = rw o at h

main_name : IsPathName (codes "main")
main_name = record {
  filled = λ h. cc;
  slash = ground arith;
  opens = ground arith;
  closes = ground arith;
}

port_name : Lacks b']' (codes "port")
port_name = ground arith

-- The start returns and the file can be opened, is written so that it can be read back, and ends,
-- in a section `main`, with the line of a port that is not empty: this is the port that the server
-- listens on, whatever the command line says.
pub run-port :
    (argv : List Bytes) (files : Bytes → Option Bytes) (qconf : Qconf) (mysql : Mysql) (now : ℕ)
    (clock : ℕ → ℕ) (tids : List ℕ) (s : ServerSettings) (h : Handler) (above before : Content)
    (l v : Bytes) (c : ℕ)
    → IsWritten (inside ((above, codes "main") ∷ []) (behind before (entry l ended)))
    → read_param_line l ≡ done (codes "port", c ∷ v)
    → l ≢ []
    → files (get_value (codes "config") (argv_of argv))
      ≡ some
          (text_of (written (inside ((above, codes "main") ∷ []) (behind before (entry l ended)))))
    → run argv files qconf mysql now clock tids ≡ done (s, h)
    → s.port ≡ atoi_u32 (c ∷ v)
run-port argv files qconf mysql now clock tids s h above before l v c w r f opened e =
    let (root, parsed, set, ready) = run-IsReady argv files qconf mysql now clock tids s h e in
    let read : read_config
          (text_of (written (inside ((above, codes "main") ∷ []) (behind before (entry l ended)))))
        ≡ done root =
      opened_file files (get_value (codes "config") (argv_of argv)) root _ parsed opened in
    let name : All IsPathName (codes "main" ∷ []) = (main_name, tt) in
    let value : main_param (codes "port") root ≡ c ∷ v = done-injective (
      sym (get-path_text root (codes "main" ∷ []) (codes "port") name port_name (omega arith))
      ∙ get-read_config ((above, codes "main") ∷ []) before l (codes "port") (c ∷ v) root w r f name
          port_name (omega arith) read) in
    given_by_file value set.port
  where
    given_by_file :
        {file argument : Bytes} {n : ℕ} {c : ℕ} {v : Bytes}
        → file ≡ c ∷ v
        → IsNumberOf file argument n
        → n ≡ atoi_u32 (c ∷ v)
    given_by_file e (inl (filled, number)) = number ∙ ap atoi_u32 e
    given_by_file e (inr (empty, given, number)) = cc
