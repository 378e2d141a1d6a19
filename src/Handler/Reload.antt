-- ===== src/Handler/Reload.antt =====
-- What a reload of the policies leaves in place.
use ab_dyeing.Base.{
  ◌≡◌, ◌≢◌, refl, sym, ap, Bool, true, false, Option, some, List, [], ◌∷◌, ◌++◌, Bytes, All,
  is_empty, if◌then◌else◌, Bool-cases, inl, inr,
}
use ab_dyeing.Outcome.{done, >>=-eq-done, done-injective}
use ab_dyeing.Qconf.{Qconf, text_of, IsAnswered, types_path, full_path}
use ab_dyeing.WhiteList
use ab_dyeing.WhiteList.{WhiteList, tmp_business_types}
use ab_dyeing.WhiteList.Load as WhiteLoad
use ab_dyeing.OnlineHash
use ab_dyeing.OnlineHash.{Online}
use ab_dyeing.OnlineHash.Load as OnlineLoad
use ab_dyeing.OnlineHash.Load.{IsGoodText, load_config-IsUsable}
use ab_dyeing.OnlineHash.Usable.{IsUsable}
use ab_dyeing.Logic.{Shared}
use ab_dyeing.Logic.Decide.{IsUsableShared}
use ab_dyeing.Handler.{Handler, install, flush_policy}

-- The types that a plugin loads.
abbrev pub types_of : Qconf → Bytes → List Bytes → List Bytes
types_of conf prefix types = tmp_business_types (text_of (conf (types_path prefix))) types

-- Where the service answers for every path, a reload replaces the white list by the one in the
-- nodes, also if they are empty; it replaces the hash policies by those in the nodes if the node
-- of the last type has a text, and keeps the old ones if that node alone is empty. Nothing else
-- of the handler changes.
pub flush_policy-answered :
    (conf : Qconf) (h : Handler) (ts : List Bytes) (t : Bytes)
    → ((path : Bytes) → IsAnswered conf path)
    → types_of conf h.white_prefix h.types ≢ []
    → types_of conf h.online_prefix h.types ≡ ts ++ t ∷ []
    → flush_policy conf h
      ≡ done (record h {
        shared = record (h.shared) {
          white_list = some (
              WhiteLoad.load_all conf
                (WhiteList.new h.white_prefix)
                (types_of conf h.white_prefix h.types));
          online =
              if is_empty (text_of (conf (full_path h.online_prefix t)))
              then h.shared.online
              else some (OnlineLoad.load_all conf (OnlineHash.new h.online_prefix) (ts ++ t ∷ []));
        };
      })
unfolding flush_policy
flush_policy-answered conf h ts t up n e =
    rw
      (
        WhiteLoad.load_config-true conf h.types (WhiteList.new h.white_prefix) up n,
        OnlineLoad.load_config-last conf h.types ts t (OnlineHash.new h.online_prefix) (up _) e
            (all_up (ts ++ t ∷ [])),
      )
      (elim (Bool-cases (is_empty (text_of (conf (full_path h.online_prefix t))))) [
        | inl b ↦ rw b
        | inr b ↦ rw b
      ])
  where
    all_up : (us : List Bytes) → All (λ u. IsAnswered conf (full_path h.online_prefix u)) us
    all_up [] = tt
    all_up (u ∷ us) = (up _, all_up us)

install-IsUsable :
    (r : Online × Bool) (old : Option Online) (s s' : Shared)
    → s.online ≡ old
    → s'.online ≡ install r old
    → IsUsable r.0
    → IsUsableShared s
    → IsUsableShared s'
install-IsUsable (o, true) old s s' e e' u us = rw e' u
install-IsUsable (o, false) old s s' e e' u us = rw e' (rw e at us)

-- A reload from nodes in whose texts every product that is not skipped has an interval keeps the
-- hash policies usable, whatever else it reads.
pub flush_policy-IsUsable :
    (conf : Qconf) (h h' : Handler)
    → ((t : Bytes) → IsGoodText (text_of (conf (full_path h.online_prefix t))))
    → flush_policy conf h ≡ done h'
    → IsUsableShared h.shared
    → IsUsableShared h'.shared
unfolding flush_policy
flush_policy-IsUsable conf h h' g e u =
    let (white, _, e₁) =
      >>=-eq-done (WhiteList.load_config conf h.types (WhiteList.new h.white_prefix)) _ e in
    let (online, got, e₂) =
      >>=-eq-done (OnlineHash.load_config conf h.types (OnlineHash.new h.online_prefix)) _ e₁ in
    let same = done-injective e₂ in
    install-IsUsable online h.shared.online h.shared h'.shared refl
      (ap (λ (k : Handler). k.shared.online) (sym same))
      (load_config-IsUsable conf h.types h.online_prefix online g got) u
