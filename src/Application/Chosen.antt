-- ===== src/Application/Chosen.antt =====
-- The settings that `start` reads, from the file or from the command line.
use ab_dyeing.Base.{ℕ, ◌≡◌, ◌≢◌, ◌⊎◌, inl, inr, refl, ap, sym, subst, List, [], ◌∷◌, Bytes, codes}
use ab_dyeing.Outcome.{done, throws, process_exit, >>=-eq-done, done-injective}
use ab_dyeing.Util.Sepstr.{sepstr, index_of}
use ab_dyeing.Util.Decimal.{atoi_u32}
use ab_dyeing.Argv
use ab_dyeing.Argv.{Argv, get_value}
use ab_dyeing.ConfigFile.Tree.{Domain, find_at}
use ab_dyeing.ConfigFile.Lookup.{parse_param_path, get, param_of}
use ab_dyeing.Application.{ServerSettings, file_or_argument, read_settings, or_debug}

-- What the program is started with.
abbrev pub argv_of : List Bytes → Argv
argv_of argv = Argv.decode argv (record { param = []; single = [] })

-- A parameter of the section `main`, as `start` asks for it.
abbrev pub main_param : Bytes → Domain → Bytes
main_param name root = param_of name (find_at (codes "main" ∷ []) root)

pub get-main :
    (root : Domain)
    → (get root (codes "/main/[port]") ≡ done (main_param (codes "port") root))
      × (get root (codes "/main/[threadnum]") ≡ done (main_param (codes "threadnum") root))
      × (get root (codes "/main/[loglevel]") ≡ done (main_param (codes "loglevel") root))
unfolding get parse_param_path index_of sepstr
get-main root = (refl, refl, refl)

-- A number that the file gives, or the command line where the file gives no text.
abbrev pub IsNumberOf : Bytes → Bytes → ℕ → Type 0
IsNumberOf file argument n =
    (file ≢ []) × (n ≡ atoi_u32 file) ⊎ (file ≡ []) × (argument ≢ []) × (n ≡ atoi_u32 argument)

pub IsNumberOf-given :
    {file argument : Bytes} {n : ℕ} → IsNumberOf file argument n → ¬ ((file ≡ []) × (argument ≡ []))
IsNumberOf-given (inl (filled, number)) (none_there, none_said) = filled none_there
IsNumberOf-given (inr (empty, said, number)) (none_there, none_said) = said none_said

-- The settings that are read: the file's, else the command line's; the level of the log is the
-- file's, else DEBUG.
pub record IsChosen (ag : Argv) (root : Domain) (s : ServerSettings) : Type 0 where
  pub port : IsNumberOf (main_param (codes "port") root) (get_value (codes "port") ag) s.port
  pub thread_num :
      IsNumberOf
        (main_param (codes "threadnum") root)
        (get_value (codes "threadnum") ag)
        s.thread_num
  pub log_level :
      (main_param (codes "loglevel") root ≢ []) × (s.log_level ≡ main_param (codes "loglevel") root)
      ⊎ (main_param (codes "loglevel") root ≡ []) × (s.log_level ≡ codes "DEBUG")

file_or_argument-IsNumberOf :
    (file argument p : Bytes)
    → file_or_argument file argument ≡ done p
    → IsNumberOf file argument (atoi_u32 p)
file_or_argument-IsNumberOf [] [] p h = cc
file_or_argument-IsNumberOf [] (c ∷ s) p h =
    inr (refl, (λ e. cc), ap atoi_u32 (sym (done-injective h)))
file_or_argument-IsNumberOf (c ∷ s) argument p h =
    inl ((λ e. cc), ap atoi_u32 (sym (done-injective h)))

or_debug-cases : (s : Bytes) → (s ≢ []) × (or_debug s ≡ s) ⊎ (s ≡ []) × (or_debug s ≡ codes "DEBUG")
or_debug-cases [] = inr (refl, refl)
or_debug-cases (c ∷ s) = inl ((λ e. cc), refl)

pub read_settings-IsChosen :
    (ag : Argv) (root : Domain) (s : ServerSettings)
    → read_settings ag root ≡ done s
    → IsChosen ag root s
unfolding read_settings
read_settings-IsChosen ag root s h =
    let (p₁, p₂, p₃) = get-main root in
    let read = rw (p₁, p₂, p₃) at h in
    let (port, p, h₁) = >>=-eq-done (file_or_argument (main_param (codes "port") root) _) _ read in
    let (threads, t, h₂) =
      >>=-eq-done (file_or_argument (main_param (codes "threadnum") root) _) _ h₁ in
    subst (IsChosen ag root) (done-injective h₂) (record {
      port = file_or_argument-IsNumberOf _ _ port p;
      thread_num = file_or_argument-IsNumberOf _ _ threads t;
      log_level = or_debug-cases (main_param (codes "loglevel") root);
    })

-- Neither the file nor the command line gives it.
abbrev pub IsMissing : Argv → Domain → Bytes → Type 0
IsMissing ag root name = (main_param name root ≡ []) × (get_value name ag ≡ [])

file_or_argument-cases :
    (file argument : Bytes)
    → (file ≡ []) × (argument ≡ []) × (file_or_argument file argument ≡ throws process_exit)
      ⊎ ((p : Bytes) × (file_or_argument file argument ≡ done p))
file_or_argument-cases [] [] = inl (refl, refl, refl)
file_or_argument-cases [] (c ∷ s) = inr (c ∷ s, refl)
file_or_argument-cases (c ∷ s) argument = inr (c ∷ s, refl)

-- The settings are chosen, or `usage` ends the program because one is missing.
pub read_settings-cases :
    (ag : Argv) (root : Domain)
    → (IsMissing ag root (codes "port") ⊎ IsMissing ag root (codes "threadnum"))
        × (read_settings ag root ≡ throws process_exit)
      ⊎ ((s : ServerSettings) × IsChosen ag root s × (read_settings ag root ≡ done s))
read_settings-cases ag root =
    let (p₁, p₂, p₃) = get-main root in
    elim (file_or_argument-cases (main_param (codes "port") root) (get_value (codes "port") ag)) [
      | inl (f, a, e) ↦ inl (inl (f, a), unfold read_settings in rw (p₁, e))
      | inr (port, p) ↦
          elim (file_or_argument-cases (main_param (codes "threadnum") root)
            (get_value (codes "threadnum") ag)) [
              | inl (f, a, e) ↦ inl (inr (f, a), unfold read_settings in rw (p₁, p, p₂, e))
              | inr (threads, t) ↦
                  let read : read_settings ag root
                      ≡ done (record {
                        port = atoi_u32 port;
                        thread_num = atoi_u32 threads;
                        log_level = or_debug (main_param (codes "loglevel") root);
                      }) =
                    unfold read_settings in rw (p₁, p, p₂, t, p₃) refl in
                  inr (_, read_settings-IsChosen ag root _ read, read)
            ]
    ]
