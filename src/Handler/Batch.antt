-- ===== src/Handler/Batch.antt =====
-- What the batch calls reply.
use mathlib.Core.Path.{fun_ext}
use ab_dyeing.Base.{
  ℕ, ◌≤◌, ◌<◌, ◌≡◌, refl, sym, ap, ◌∙◌, true, false, List, [], ◌∷◌, ◌++◌, append_assoc, append-nil,
  Bytes, map, ◌⊎◌, inl, inr, none, length, ltb, is_empty, Option, some, arith,
}
use ab_dyeing.Outcome.{Outcome, done, ◌>>=◌}
use ab_dyeing.Proto.{
  UidReqInfo, UidLanReqInfo, DyeingLanRequest, Reply, new_reply, UidRepInfo, BatchReply,
  new_batch_reply, rc_status_ok, rc_server_error,
}
use ab_dyeing.Logic.{Logic}
use ab_dyeing.Logic.Decide.{IsUsableShared}
use ab_dyeing.Handler.{
  Handler, get_logic, dyeing_lan, single_dyeing, single_lan_dyeing, each_info, push_info, max_batch,
  batch_dyeing, batch_dyeing_lan,
}
use ab_dyeing.Handler.Single.{
  with_lan, dyeing-dyeing_lan, entries_of, reply_of, dyeing_lan-error, dyeing_lan-entries,
}

module _ {ℓ} {A : Type ℓ} (single : A → Outcome UidRepInfo) (answer : A → UidRepInfo)
    (answers : (a : A) → single a ≡ done (answer a)) where
  each_info-map :
      (is : List A) (b : BatchReply)
      → each_info single is b ≡ done (record b { uid_rep_infos = b.uid_rep_infos ++ map answer is })
  unfolding each_info
  each_info-map [] b =
      ap (λ l. done (record b { uid_rep_infos = l })) (sym (append-nil b.uid_rep_infos))
  each_info-map (a ∷ is) b = rw (answers a) (each_info-map is (push_info (answer a) b) ∙ grouped)
    where
      grouped :
          done (record b { uid_rep_infos = (b.uid_rep_infos ++ answer a ∷ []) ++ map answer is })
          ≡ done (record b { uid_rep_infos = b.uid_rep_infos ++ map answer (a ∷ is) })
      grouped =
          ap (λ l. done (record b { uid_rep_infos = l }))
            (append_assoc b.uid_rep_infos (answer a ∷ []) (map answer is))

module _ (city_hash : Bytes → ℕ → ℕ) (h : Handler) (tid : ℕ) where
  -- The reply to a single request is defined, with a logic or without, for every list of types.
  dyeing_lan-total :
      (uid : Bytes) (req : DyeingLanRequest) (o : Option Logic)
      → get_logic h tid ≡ o
      → IsUsableShared h.shared
      → (r : Reply) × (dyeing_lan city_hash h tid uid req new_reply ≡ done r)
  dyeing_lan-total uid req none e u = (
    record new_reply { status = rc_server_error },
    dyeing_lan-error city_hash h tid uid req new_reply (inl e),
  )
  dyeing_lan-total uid req (some l) e u = elim (empty_cases req.types) [
    | inl n ↦ (
      record new_reply { status = rc_server_error },
      dyeing_lan-error city_hash h tid uid req new_reply (inr n),
    )
    | inr n ↦
        let (choose, _, replied) = dyeing_lan-entries city_hash h tid uid req l e n u in
        (reply_of (entries_of choose req.types), replied)
  ]
    where
      empty_cases : (ts : List Bytes) → (ts ≡ []) ⊎ (is_empty ts ≡ false)
      empty_cases [] = inl refl
      empty_cases (t ∷ ts) = inr refl

  single_lan :
      IsUsableShared h.shared
      → (i : UidLanReqInfo)
      → (r : Reply) × (dyeing_lan city_hash h tid i.uid i.uid_lan_info new_reply ≡ done r)
  single_lan u i = dyeing_lan-total i.uid i.uid_lan_info (get_logic h tid) refl u

  -- More than 1000 requests: an error, and none of them is served.
  pub batch_dyeing_lan-error :
      (infos : List UidLanReqInfo) (b : BatchReply)
      → max_batch < length infos
      → batch_dyeing_lan city_hash h tid infos b ≡ done (record b { status = rc_server_error })
  unfolding batch_dyeing_lan
  batch_dyeing_lan-error infos b n =
      let e : ltb max_batch (length infos) ≡ true = ground arith in rw e

  -- Up to 1000 requests, with policies that all have an interval: the call is defined, and its
  -- reply, with the status OK, holds for each request in order its uid and the reply that the
  -- single call gives it.
  pub batch_dyeing_lan-map :
      (infos : List UidLanReqInfo)
      → length infos ≤ max_batch
      → IsUsableShared h.shared
      → (answer : UidLanReqInfo → Reply) × ((i : UidLanReqInfo)
          → dyeing_lan city_hash h tid i.uid i.uid_lan_info new_reply ≡ done (answer i))
        × (batch_dyeing_lan city_hash h tid infos new_batch_reply
            ≡ done (record {
              status = rc_status_ok;
              uid_rep_infos = map (λ i. record { uid = i.uid; uid_rep = answer i }) infos;
              isset_uid_rep_infos = true;
            }))
  unfolding batch_dyeing_lan single_lan_dyeing
  batch_dyeing_lan-map infos n u =
      let small : ltb max_batch (length infos) ≡ false = ground arith in
      (
        λ i. (single_lan u i).0,
        λ i. (single_lan u i).1,
        rw small (
            each_info-map (single_lan_dyeing city_hash h tid)
              (λ i. record { uid = i.uid; uid_rep = (single_lan u i).0 })
              (λ i. rw (single_lan u i).1) infos
              (record new_batch_reply { isset_uid_rep_infos = true })),
      )

-- The request of a batch without languages, as one with empty languages.
abbrev pub with_lan_info : UidReqInfo → UidLanReqInfo
with_lan_info i = record { uid = i.uid; uid_lan_info = with_lan i.uid_info }

length-map {ℓ κ} :
    {A : Type ℓ} {B : Type κ} (f : A → B) (xs : List A) → length (map f xs) ≡ length xs
length-map f [] = refl
length-map f (x ∷ xs) = omega (arith, length-map f xs)

module _ (city_hash : Bytes → ℕ → ℕ) (h : Handler) (tid : ℕ) where
  single-single_lan :
      (i : UidReqInfo)
      → single_dyeing city_hash h tid i ≡ single_lan_dyeing city_hash h tid (with_lan_info i)
  unfolding single_dyeing single_lan_dyeing
  single-single_lan i = rw (dyeing-dyeing_lan city_hash h tid i.uid i.uid_info new_reply)

  each_info-with_lan :
      (is : List UidReqInfo) (b : BatchReply)
      → each_info (single_dyeing city_hash h tid) is b
        ≡ each_info (single_lan_dyeing city_hash h tid) (map with_lan_info is) b
  unfolding each_info
  each_info-with_lan [] b = refl
  each_info-with_lan (i ∷ is) b = rw (single-single_lan i) (
      ap (λ f. single_lan_dyeing city_hash h tid (with_lan_info i) >>= f)
        (fun_ext (λ info. each_info-with_lan is (push_info info b))))

  -- The batch call without languages is the batch call with empty languages.
  pub batch_dyeing-batch_dyeing_lan :
      (infos : List UidReqInfo) (b : BatchReply)
      → batch_dyeing city_hash h tid infos b
        ≡ batch_dyeing_lan city_hash h tid (map with_lan_info infos) b
  unfolding batch_dyeing batch_dyeing_lan
  batch_dyeing-batch_dyeing_lan infos b =
      rw (length-map with_lan_info infos, each_info-with_lan infos)
