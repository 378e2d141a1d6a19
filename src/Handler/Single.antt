-- ===== src/Handler/Single.antt =====
-- What `dyeing` and `DyeingLan` reply to one user.
use ab_dyeing.Base.{
  ℕ, ◌≡◌, ◌⊎◌, refl, sym, ap, ◌∙◌, Bool, true, false, not, ◌||◌, Option, none, some, List, [], ◌∷◌,
  ◌++◌, append_assoc, append-nil, Bytes, codes, is_empty, if◌then◌else◌, Option-cases, inl, inr,
}
use ab_dyeing.Outcome.{done}
use ab_dyeing.Proto.{
  DyeingRequest, DyeingLanRequest, Entry, Reply, new_reply, rc_status_ok, rc_server_error,
}
use ab_dyeing.Logic.{Shared, Logic, to_entry}
use ab_dyeing.Logic.Decide.{IsUsableShared, decide, on_dyeing-decide, decide-total}
use ab_dyeing.Handler.{Handler, get_logic, each_type, finish, dyeing, dyeing_lan}

-- The entries of the types that are given a configuration, in the order of the request.
abbrev pub entries_of : (Bytes → Option Bytes) → List Bytes → List Entry
entries_of choose [] = []
entries_of choose (t ∷ ts) = elim (choose t) [
  | none ↦ entries_of choose ts
  | some config_id ↦ to_entry t config_id ∷ entries_of choose ts
]

abbrev after : Reply → List Entry → Reply
after r es = record r {
  entries = r.entries ++ es;
  isset_entries = r.isset_entries || not (is_empty es);
}

-- The reply that holds these entries: it is an error exactly if there is none.
abbrev pub reply_of : List Entry → Reply
reply_of es = record {
  status = if is_empty es then rc_server_error else rc_status_ok;
  entries = es;
  isset_entries = not (is_empty es);
}

after-nil : (r : Reply) → after r [] ≡ r
after-nil r =
    λ i. record r { entries = append-nil r.entries i; isset_entries = or_false r.isset_entries i }
  where
    or_false : (b : Bool) → (b || false) ≡ b
    or_false true = refl
    or_false false = refl

after-cons :
    (r : Reply) (e : Entry) (es : List Entry)
    → after (record r { entries = r.entries ++ e ∷ []; isset_entries = true }) es ≡ after r (e ∷ es)
after-cons r e es = λ i. record r {
  entries = append_assoc r.entries (e ∷ []) es i;
  isset_entries = or_true r.isset_entries i;
}
  where
    or_true : (b : Bool) → true ≡ (b || true)
    or_true true = refl
    or_true false = refl

module _ (city_hash : Bytes → ℕ → ℕ) (l : Logic) (s : Shared) (uid app app_ver app_lan : Bytes)
    (choose : Bytes → Option Bytes)
    (decided : (t : Bytes) → decide city_hash l s uid app app_ver app_lan t ≡ done (choose t)) where
  each_type-entries :
      (ts : List Bytes) (r : Reply)
      → each_type city_hash l s uid app app_ver app_lan ts r
        ≡ (done tt, after r (entries_of choose ts))
  unfolding each_type
  each_type-entries [] r = ap (λ r'. (done tt, r')) (sym (after-nil r))
  each_type-entries (t ∷ ts) r = elim (Option-cases (choose t)) [
    | inl e ↦
        rw
          (
            on_dyeing-decide city_hash l s uid app app_ver app_lan t r,
            each_type,
            decided t,
            e,
            entries_of,
          )
          (each_type-entries ts r)
    | inr (c, e) ↦
        rw
          (
            on_dyeing-decide city_hash l s uid app app_ver app_lan t r,
            each_type,
            decided t,
            e,
            entries_of,
          )
          (each_type-entries ts _
            ∙ ap (λ r'. (done tt, r')) (after-cons r (to_entry t c) (entries_of choose ts)))
  ]

-- The request with the empty language.
abbrev pub with_lan : DyeingRequest → DyeingLanRequest
with_lan req = record {
  app = req.app;
  app_ver = req.app_ver;
  app_lan = codes "";
  types = req.types;
}

module _ (city_hash : Bytes → ℕ → ℕ) (h : Handler) (tid : ℕ) (uid : Bytes) where
  -- A thread without a logic, and a request for no type: an error, and no entry is written.
  pub dyeing_lan-error :
      (req : DyeingLanRequest) (r : Reply)
      → (get_logic h tid ≡ none) ⊎ (req.types ≡ [])
      → dyeing_lan city_hash h tid uid req r ≡ done (record r { status = rc_server_error })
  unfolding dyeing_lan
  dyeing_lan-error req r (inl e) = rw (e, dyeing_lan)
  dyeing_lan-error req r (inr e) = elim (Option-cases (get_logic h tid)) [
    | inl n ↦ rw (n, dyeing_lan)
    | inr (l, f) ↦ rw (f, dyeing_lan, e)
  ]

  dyeing_lan-each :
      (req : DyeingLanRequest) (r : Reply) (l : Logic)
      → get_logic h tid ≡ some l
      → is_empty req.types ≡ false
      → dyeing_lan city_hash h tid uid req r
        ≡ finish (each_type city_hash l h.shared uid req.app req.app_ver req.app_lan req.types r)
  unfolding dyeing_lan
  dyeing_lan-each req r l e n = rw (e, dyeing_lan, n)

  -- For a thread with a logic, a request for one type or more, and policies that all have an
  -- interval, the call is defined and its reply holds one entry for each type that is given a
  -- configuration, in the order of the request; its status is OK exactly if there is an entry.
  pub dyeing_lan-entries :
      (req : DyeingLanRequest) (l : Logic)
      → get_logic h tid ≡ some l
      → is_empty req.types ≡ false
      → IsUsableShared h.shared
      → (choose : Bytes → Option Bytes) × ((t : Bytes)
          → decide city_hash l h.shared uid req.app req.app_ver req.app_lan t ≡ done (choose t))
        × (dyeing_lan city_hash h tid uid req new_reply
            ≡ done (reply_of (entries_of choose req.types)))
  dyeing_lan-entries req l e n u =
      let choose : Bytes → Option Bytes = λ t. (decided t).0 in
      (
        choose,
        λ t. (decided t).1,
        dyeing_lan-each req new_reply l e n
            ∙ ap finish (
                each_type-entries city_hash l h.shared uid req.app req.app_ver req.app_lan choose
                  (λ t. (decided t).1) req.types new_reply),
      )
    where
      decided :
          (t : Bytes)
          → (d : Option Bytes) × (decide city_hash l h.shared uid req.app req.app_ver req.app_lan t
              ≡ done d)
      decided t = decide-total city_hash l h.shared uid req.app req.app_ver req.app_lan t u

  -- The call without a language is the call with the empty language.
  pub dyeing-dyeing_lan :
      (req : DyeingRequest) (r : Reply)
      → dyeing city_hash h tid uid req r ≡ dyeing_lan city_hash h tid uid (with_lan req) r
  unfolding dyeing dyeing_lan
  dyeing-dyeing_lan req r = elim (Option-cases (get_logic h tid)) [
    | inl n ↦ rw (n, dyeing, dyeing_lan)
    | inr (l, f) ↦ rw (f, dyeing, dyeing_lan)
  ]
