-- ===== src/Tests/Fresh.antt =====
-- The users of the day, the classes of users and the queue of new users on concrete inputs.
use ab_dyeing.Base.{
  none, ℕ, ◌+◌, ◌≡◌, refl, true, false, ◌&&◌, not, [], ◌∷◌, Bytes, codes, has, find, eqb, keep,
  arith,
}
use ab_dyeing.Outcome.{done}
use ab_dyeing.Mysql.{Row, rows}
use ab_dyeing.FreshUser as Day
use ab_dyeing.FreshUser.Flush as Flush
use ab_dyeing.PushUserType as Push
use ab_dyeing.PushUserType.Latest.{IsLatest, store-IsLatest}
use ab_dyeing.Logic.{dyeing_app, handle_push_user}
use ab_dyeing.FreshKafka.{CurrentFresh, set, clear, cut_time, rubsh, erase_times, erase_time}
use ab_dyeing.FreshKafka.Expiry.{IsTracked, named, before, from, clear_lem}
use ab_dyeing.FreshKafka.Interleave.{
  Moves, busy, records, clear_records, Moves-calls, Moves-IsTracked, set_during_clear,
}
use ab_dyeing.FreshKafka.Message.{
  Document, object, json_string, c_string, get_string, process_kafka,
}
use ab_dyeing.FreshKafka.Message.Queue.{receive, begin, after, Reach-IsTracked}
use ab_dyeing.Server.NewUser.{with_kq, dyeing_app-set}
use ab_dyeing.Tests.Serve.{served}

abbrev row : Row
row =
    (codes "uid", codes "u1")
    ∷ (codes "product_id", codes "noticias")
    ∷ (codes "Timestamp", codes "5")
    ∷ (codes "push_user_type", codes "loyal")
    ∷ []

store-named_example :
    ((uid : Bytes)
      → Day.get (Day.store (λ i. 9 + i) (rows (row ∷ [])) (Day.new (codes "/f"))).0 uid
        ≡ Flush.named uid (row ∷ []))
    × ((Day.store (λ i. 9 + i) (rows (row ∷ [])) (Day.new (codes "/f"))).1 ≡ true)
store-named_example = Flush.store-named (λ i. 9 + i) row [] (Day.new (codes "/f"))

store-IsLatest_example :
    ((k : Bytes)
      → IsLatest k
          (row ∷ [])
          (find k (Push.store (rows (row ∷ [])) (Push.new (codes "/f"))).0.user_type_map))
    × ((Push.store (rows (row ∷ [])) (Push.new (codes "/f"))).1 ≡ true)
store-IsLatest_example = store-IsLatest row [] (Push.new (codes "/f"))

abbrev noon : ℕ
noon = 1700000000000000

abbrev one_user : CurrentFresh
one_user = record { time_kmsg = (noon, codes "u1") ∷ []; kq = (codes "u1", noon + 1) ∷ [] }

abbrev no_user : CurrentFresh
no_user = record { time_kmsg = []; kq = [] }

no_user-IsTracked : IsTracked no_user
unfolding find
no_user-IsTracked = record { rises = tt; recorded = λ uid h. cc }

clear_lem_example :
    ((clear 500654080 (noon + 600000000) one_user).time_kmsg
      ≡ keep (from (cut_time 500654080 (noon + 600000000))) one_user.time_kmsg)
    × ((uid : Bytes)
        → has uid (clear 500654080 (noon + 600000000) one_user).kq ≡ (
            has uid one_user.kq
            && not (
                named uid
                  (keep (before (cut_time 500654080 (noon + 600000000))) one_user.time_kmsg))))
clear_lem_example = clear_lem 500654080 (noon + 600000000) one_user (omega arith, tt)

dyeing_app-set_example :
    (dyeing_app
        (record { fresh_product_suffix = codes "fresh" })
        (with_kq (served.shared) (set noon (noon + 1) (codes "u1") no_user))
        (codes "u1")
        (codes "noticias")
        (codes "biz")
      ≡ codes "noticias_new")
    × (dyeing_app
          (record { fresh_product_suffix = codes "fresh" })
          (with_kq
            (served.shared)
            (clear 500654080 (noon + 600000000) (set noon (noon + 1) (codes "u1") no_user)))
          (codes "u1")
          (codes "noticias")
          (codes "biz")
        ≡ codes "noticias_recurring")
unfolding handle_push_user Day.get Push.get find
dyeing_app-set_example =
    dyeing_app-set (record { fresh_product_suffix = codes "fresh" }) (served.shared) (codes "u1")
      no_user 500654080 noon (noon + 1) (noon + 600000000) refl refl no_user-IsTracked refl
      (omega arith) (omega arith)

abbrev parse : Bytes → Document
parse msg =
    object ((codes "uid", json_string (codes "u1")) ∷ (codes "event_time", json_string msg) ∷ [])

heard : process_kafka parse (codes "7") noon (noon + 1) no_user ≡ done one_user
unfolding process_kafka get_string c_string find eqb set
heard = refl

one_user-IsTracked : IsTracked one_user
one_user-IsTracked =
    Reach-IsTracked parse (after begin (receive (codes "7") noon (noon + 1) refl heard))
      no_user-IsTracked

abbrev set_twice : CurrentFresh
set_twice = set (noon + 2) (noon + 3) (codes "u2") one_user

Moves-IsTracked_example : IsTracked set_twice
Moves-IsTracked_example =
    Moves-IsTracked one_user set_twice
      (Moves-calls 500654080 (noon + 2) (noon + 3) (codes "u2") one_user refl).0 one_user-IsTracked

set_during_clear_example :
    (c' : CurrentFresh) × Moves (busy one_user none []) (busy c' none [])
    × (records (noon + 600000001) (codes "u1") c'.time_kmsg ≡ true)
    × (has (codes "u1") c'.kq ≡ false)
unfolding rubsh cut_time clear_records erase_times erase_time
set_during_clear_example =
    set_during_clear 500654080 (noon + 600000000) (noon + 600000001) noon (noon + 600000002)
      (codes "u1") one_user refl refl
