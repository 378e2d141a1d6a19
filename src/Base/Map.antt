-- ===== src/Base/Map.antt =====
-- `std::unordered_map` and `std::map` with string keys, as association lists: `find` is the lookup
-- (`none` for `end()`), `put` the assignment `m[k] = v`, `remove` is `erase`. The program never
-- iterates over such a map, so the order of the entries is not the source's.
use mathlib.Core.Path.{◌≡◌, refl}
use mathlib.Core.Bool.{Bool, true, false}
use mathlib.Core.Option.{Option, none, some}
use mathlib.Core.List.{List, [], ◌∷◌}
use native.Mathlib.Omega.{arith}
use ab_dyeing.Base.Tests.{if◌then◌else◌}
use ab_dyeing.Base.Text.{Bytes, eqb, eqb_iff, eqb_refl}

abbrev pub Dict {ℓ} : Type ℓ → Type ℓ
Dict V = List (Bytes × V)

abbrev pub is_some {ℓ} : {A : Type ℓ} → Option A → Bool
is_some none = false
is_some (some a) = true

module _ {ℓ} {V : Type ℓ} where
  unfoldable pub find : Bytes → Dict V → Option V
  unfolding eqb
  find k [] = none
  find k ((j, v) ∷ m) = if eqb j k then some v else find k m

  unfoldable pub put : Bytes → V → Dict V → Dict V
  unfolding eqb
  put k v [] = (k, v) ∷ []
  put k v ((j, w) ∷ m) = if eqb j k then (k, v) ∷ m else (j, w) ∷ put k v m

  unfoldable pub remove : Bytes → Dict V → Dict V
  unfolding eqb
  remove k [] = []
  remove k ((j, w) ∷ m) = if eqb j k then remove k m else (j, w) ∷ remove k m

  -- The membership test `find(k) != end()`.
  abbrev pub has : Bytes → Dict V → Bool
  has k m = is_some (find k m)

  pub find-put :
      (k j : Bytes) (v : V) (m : Dict V)
      → find j (put k v m) ≡ (if eqb k j then some v else find j m)
  unfolding find put
  find-put k j v [] = refl
  find-put k j v ((i, w) ∷ m) =
      ground (arith, eqb_iff k j, eqb_iff i k, eqb_iff i j, find-put k j v m)

  pub find-remove :
      (k j : Bytes) (m : Dict V) → find j (remove k m) ≡ (if eqb k j then none else find j m)
  unfolding find remove
  find-remove k j [] = ground arith
  find-remove k j ((i, w) ∷ m) =
      ground (arith, eqb_iff k j, eqb_iff i k, eqb_iff i j, find-remove k j m)

  pub find-put_self : (k : Bytes) (v : V) (m : Dict V) → find k (put k v m) ≡ some v
  find-put_self k v m = rw (find-put, eqb_refl)
