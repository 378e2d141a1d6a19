-- ===== src/Logic/Decide.antt =====
-- The decision of `on_dyeing` apart from the reply that it writes, and when it is defined.
use ab_dyeing.Base.{
  ℕ, ◌≡◌, refl, false, not, ◌&&◌, ◌||◌, Option, none, some, ◌++◌, Bytes, codes, has, eqb,
  if◌then◌else◌, Option-cases, inl, inr, arith,
}
use ab_dyeing.Outcome.{Outcome, done, ◌>>=◌}
use ab_dyeing.OnlineHash.{Online}
use ab_dyeing.OnlineHash.Usable.{IsUsable, get-total}
use ab_dyeing.Proto.{Reply}
use ab_dyeing.Logic.{
  Shared, Logic, is_fresh, handle_white_list, handle_online_hash, handle_fresh_user,
  handle_push_user, dyeing_app, push_result, on_dyeing,
}

-- The product of a noticias user of the business type "biz": the class of the push table comes
-- first; else the user is new exactly if the queue has it and the day's table has not.
pub dyeing_app-noticias :
    (l : Logic) (s : Shared) (uid : Bytes)
    → dyeing_app l s uid (codes "noticias") (codes "biz")
      ≡ elim (handle_push_user s uid (codes "noticias")) [
        | some user_type ↦ codes "noticias_" ++ user_type
        | none ↦
            if has uid s.kq && not (is_fresh s.fresh_user uid)
            then codes "noticias_new"
            else codes "noticias_recurring"
      ]
unfolding dyeing_app handle_fresh_user eqb
dyeing_app-noticias l s uid = ground arith

-- For another application or type the product is the application itself, with the configured
-- suffix if the user is in the day's table or in the queue.
pub dyeing_app-other :
    (l : Logic) (s : Shared) (uid app type : Bytes)
    → (eqb (codes "biz") type && eqb (codes "noticias") app) ≡ false
    → dyeing_app l s uid app type ≡ (
        if is_fresh s.fresh_user uid || has uid s.kq
        then (app ++ codes "_") ++ l.fresh_product_suffix
        else app)
unfolding dyeing_app handle_fresh_user
dyeing_app-other l s uid app type h = rw h (ground arith)

-- A null plugin, or one whose policies all have an interval.
abbrev pub IsUsableIn : Option Online → Type 0
IsUsableIn none = Unit
IsUsableIn (some o) = IsUsable o

abbrev pub IsUsableShared : Shared → Type 0
IsUsableShared s = IsUsableIn s.online

module _ (city_hash : Bytes → ℕ → ℕ) where
  -- The configuration that a request for one business type is given, if any: the white list's,
  -- else the hash policy's for the product of the user's class.
  abbrev pub decide :
      Logic → Shared → Bytes → Bytes → Bytes → Bytes → Bytes → Outcome (Option Bytes)
  decide l s uid app app_ver app_lan type = elim (handle_white_list s uid type) [
    | some config_id ↦ done (some config_id)
    | none ↦ handle_online_hash city_hash s uid (dyeing_app l s uid app type) app_ver app_lan type
  ]

  pub on_dyeing-decide :
      (l : Logic) (s : Shared) (uid app app_ver app_lan type : Bytes) (r : Reply)
      → on_dyeing city_hash l s uid app app_ver app_lan type r
        ≡ (do found ← decide l s uid app app_ver app_lan type; done (push_result type r found))
  unfolding on_dyeing
  on_dyeing-decide l s uid app app_ver app_lan type r =
      elim (Option-cases (handle_white_list s uid type)) [
        | inl e ↦ rw (e, on_dyeing, decide)
        | inr (c, e) ↦ rw (e, on_dyeing, decide)
      ]

  handle_online_hash-total :
      (s : Shared) (o : Option Online) (uid app app_ver app_lan type : Bytes)
      → s.online ≡ o
      → IsUsableIn o
      → (d : Option Bytes) × (handle_online_hash city_hash s uid app app_ver app_lan type ≡ done d)
  unfolding handle_online_hash
  handle_online_hash-total s none uid app app_ver app_lan type e u =
      (none, rw (e, handle_online_hash))
  handle_online_hash-total s (some o) uid app app_ver app_lan type e u =
      let (d, f) = get-total city_hash o uid app app_ver app_lan type u in
      (d, rw (e, handle_online_hash) f)

  pub decide-total :
      (l : Logic) (s : Shared) (uid app app_ver app_lan type : Bytes)
      → IsUsableShared s
      → (d : Option Bytes) × (decide l s uid app app_ver app_lan type ≡ done d)
  decide-total l s uid app app_ver app_lan type u =
      elim (Option-cases (handle_white_list s uid type)) [
        | inl e ↦
            let (d, f) =
              handle_online_hash-total s s.online uid (dyeing_app l s uid app type) app_ver app_lan
                type refl u in
            (d, rw (e, decide) f)
        | inr (c, e) ↦ (some c, rw (e, decide))
      ]
