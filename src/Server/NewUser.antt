-- ===== src/Server/NewUser.antt =====
-- What a message makes of a user of "noticias": src/fresh_kafka.cc and src/dyeing_logic.cc together.
use ab_dyeing.Base.{
  ℕ, ◌+◌, ◌^◌, ◌<◌, ◌≡◌, Bool, true, false, none, List, [], ◌∷◌, Bytes, codes, eqb_refl, keep, ltb,
  ◌==◌, Bool-cases, inl, inr, arith,
}
use ab_dyeing.Logic.{Shared, Logic, is_fresh, handle_push_user, dyeing_app}
use ab_dyeing.Logic.Decide.{dyeing_app-noticias}
use ab_dyeing.FreshKafka.{CurrentFresh, put_time, set, clear}
use ab_dyeing.FreshKafka.Expiry.{IsTracked, taken, named, set-IsTracked, clear_early}

named-keep-put_time :
    (p : ℕ × Bytes → Bool) (t : ℕ) (uid : Bytes) (m : List (ℕ × Bytes))
    → p (t, uid) ≡ true
    → named uid (keep p (put_time t uid m)) ≡ true
unfolding put_time
named-keep-put_time p t uid [] h = rw h (ground (arith, eqb_refl uid))
named-keep-put_time p t uid ((s, v) ∷ m) h = elim (Bool-cases (ltb t s)) [
  | inl e ↦ rw (e, h) (ground (arith, eqb_refl uid))
  | inr e ↦ elim (Bool-cases (t == s)) [
    | inl f ↦ rw (e, f, h) (ground (arith, eqb_refl uid))
    | inr f ↦
        rw (e, f)
          (elim (Bool-cases (p (s, v))) [
            | inl g ↦ rw g (ground (arith, named-keep-put_time p t uid m h))
            | inr g ↦ rw g (named-keep-put_time p t uid m h)
          ])
  ]
]

-- `_kmq` points to this queue.
abbrev pub with_kq : Shared → CurrentFresh → Shared
with_kq s c = record s { kq = c.kq }

-- For a user of "noticias" that the push table and the day's table do not have, the product of
-- "biz" is the one of new users as soon as a message at a new time has set the user in a tracked
-- queue, and the one of recurring users once a clearing comes later after that message than the
-- window of `clear`, whatever this window is.
pub dyeing_app-set :
    (l : Logic) (s : Shared) (uid : Bytes) (c : CurrentFresh) (window now later t : ℕ)
    → handle_push_user s uid (codes "noticias") ≡ none
    → is_fresh s.fresh_user uid ≡ false
    → IsTracked c
    → taken now c.time_kmsg ≡ false
    → now + window < t
    → t < 2 ^ 63
    → (dyeing_app l (with_kq s (set now later uid c)) uid (codes "noticias") (codes "biz")
        ≡ codes "noticias_new")
      × (dyeing_app l
            (with_kq s (clear window t (set now later uid c)))
            uid
            (codes "noticias")
            (codes "biz")
          ≡ codes "noticias_recurring")
unfolding handle_push_user
dyeing_app-set l s uid c window now later t p f i new old high =
    let (kept, queued) = set-IsTracked now later uid c new i in
    (
      rw (dyeing_app-noticias, p, queued, f),
      rw (
        dyeing_app-noticias,
        p,
        f,
        clear_early window t uid (set now later uid c) kept.rises (omega arith) high early,
      ),
    )
  where
    early :
        named uid (keep (λ (r : ℕ × Bytes). ltb (r.0 + window) t) (set now later uid c).time_kmsg)
        ≡ true
    early =
        unfold set in
        named-keep-put_time (λ (r : ℕ × Bytes). ltb (r.0 + window) t) now uid c.time_kmsg
          (ground arith)
