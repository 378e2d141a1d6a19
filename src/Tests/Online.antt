-- ===== src/Tests/Online.antt =====
-- Hash policies on concrete inputs.
use ab_dyeing.Base.{
  ℕ, ◌<◌, ◌+◌, ◌-◌, ◌^◌, ◌≡◌, ◌≢◌, ◌↔◌, refl, Bool, true, false, some, [], ◌∷◌, Bytes, Dict, codes,
  find, put, eqb, eqb_iff, inl, inr, length, not, ◌&&◌, ◌*◌, ◌==◌, Bool-cases, arith,
}
use ab_dyeing.Outcome.{done}
use ab_dyeing.Util.Sepstr.Join.{Lacks}
use ab_dyeing.WhiteList.{or_empty}
use ab_dyeing.OnlineHash.{
  ConfIdInfo, Policy, Online, parse_product_policy, conf_id_of, max_config_id, get, config_of,
  find_conf_id, product_id,
}
use ab_dyeing.OnlineHash.Buckets.{
  holds, Separate, infos, conf_id_of_iff, count_below, gives, share_of_buckets,
}
use ab_dyeing.OnlineHash.Format.{
  IsPlain, IsPlainInfo, IsPlainProduct, products_text, put_all, parse-products_text,
}
use ab_dyeing.OnlineHash.Usable.{IsUsable}

abbrev pub half_a : ConfIdInfo
half_a = record { conf_id = codes "a"; start_id = 0; end_id = 499 }

abbrev pub half_b : ConfIdInfo
half_b = record { conf_id = codes "b"; start_id = 500; end_id = 999 }

pub differ : (a b : Bytes) → eqb a b ≡ false → a ≢ b
differ a b h e = ground (arith, eqb_iff a b)

halves-Separate : Separate half_b half_a
unfolding eqb
halves-Separate = record { ids = differ (codes "a") (codes "b") refl; apart = inl (omega arith) }

conf_id_of_iff_example :
    (conf_id_of (infos half_a half_b [] []) 700 ≡ done (codes "b")) ↔ (holds half_b 700 ≡ true)
conf_id_of_iff_example = conf_id_of_iff half_a half_b [] [] 700 (λ e. cc e) halves-Separate tt tt

share_of_buckets_example :
    count_below max_config_id (λ hv. gives (codes "b") (conf_id_of (infos half_a half_b [] []) hv))
    ≡ 999 - 500 + 1
share_of_buckets_example =
    share_of_buckets half_a half_b [] [] (λ e. cc e) (omega arith) (omega arith) halves-Separate tt
      tt

abbrev pub two_halves : Policy
two_halves = record { seed = 7; prefix = codes "exp_"; conf_id_infos = half_a ∷ half_b ∷ [] }

abbrev empty_online : Online
empty_online = record { prefix = codes "/o"; policy_map = [] }

-- No byte of the string is `sep`.
unfoldable pub lacks : ℕ → Bytes → Bool
lacks sep [] = true
lacks sep (c ∷ s) = not (c == sep) && lacks sep s

pub lacks_sound : (sep : ℕ) (s : Bytes) → lacks sep s ≡ true → Lacks sep s
unfolding lacks
lacks_sound sep [] h = tt
lacks_sound sep (c ∷ s) h = (ground arith, lacks_sound sep s (ground arith))

lacks-IsPlain :
    (s : Bytes)
    → lacks b',' s ≡ true
    → lacks b':' s ≡ true
    → lacks b'|' s ≡ true
    → lacks b';' s ≡ true
    → IsPlain s
lacks-IsPlain s a b c d = record {
  comma = lacks_sound b',' s a;
  colon = lacks_sound b':' s b;
  bar = lacks_sound b'|' s c;
  semicolon = lacks_sound b';' s d;
}

plain_id :
    (n : ℕ) (i j : ℕ)
    → n ≢ b','
    → n ≢ b':'
    → n ≢ b'|'
    → n ≢ b';'
    → i < 2 ^ 32
    → j < 2 ^ 32
    → IsPlainInfo (record { conf_id = n ∷ []; start_id = i; end_id = j })
plain_id n i j a b c d lo hi = record {
  conf_id = record { comma = (a, tt); colon = (b, tt); bar = (c, tt); semicolon = (d, tt) };
  start_id = lo;
  end_id = hi;
}

two_halves-IsPlain : IsPlainProduct (codes "noticias", two_halves)
unfolding lacks
two_halves-IsPlain = (
  lacks-IsPlain (codes "noticias") refl refl refl refl,
  record {
    prefix = lacks-IsPlain (codes "exp_") refl refl refl refl;
    seed = omega arith;
    some_info = λ e. cc e;
    infos = (
      record {
        conf_id = lacks-IsPlain (codes "a") refl refl refl refl;
        start_id = omega arith;
        end_id = omega arith;
      },
      (
        record {
          conf_id = lacks-IsPlain (codes "b") refl refl refl refl;
          start_id = omega arith;
          end_id = omega arith;
        },
        tt,
      ),
    );
  },
)

parse-products_text_example :
    parse_product_policy
      (codes "ui")
      (products_text ((codes "noticias", two_halves) ∷ []))
      empty_online
    ≡ record empty_online {
      policy_map =
          put
            (codes "ui")
            (put_all
              ((codes "noticias", two_halves) ∷ [])
              (or_empty (find (codes "ui") empty_online.policy_map)))
            empty_online.policy_map;
    }
parse-products_text_example =
    parse-products_text (codes "ui") (codes "noticias", two_halves) [] empty_online
      (two_halves-IsPlain, tt)

-- Any function serves as the hash.
abbrev pub test_hash : Bytes → ℕ → ℕ
test_hash uid seed = length uid * 300 + seed

abbrev pub one_product : Online
one_product = record {
  prefix = codes "/o";
  policy_map = (codes "ui", (codes "noticias", two_halves) ∷ []) ∷ [];
}

one_product-get :
    get test_hash one_product (codes "u1") (codes "noticias") (codes "3") (codes "es") (codes "ui")
    ≡ done (some (codes "exp_b"))
unfolding get config_of conf_id_of find_conf_id find product_id eqb
one_product-get = refl

pub one_product-IsUsable : IsUsable one_product
unfolding find eqb
one_product-IsUsable = record { intervals = usable }
  where
    in_products :
        (k : Bytes) (m : Dict Policy) (p : Policy)
        → (codes "noticias", two_halves) ∷ [] ≡ m
        → find k m ≡ some p
        → p.conf_id_infos ≢ []
    in_products k m p same found e = elim (Bool-cases (eqb (codes "noticias") k)) [
      | inl y ↦ cc
      | inr n ↦ cc
    ]

    usable :
        (t k : Bytes) (m : Dict Policy) (p : Policy)
        → find t one_product.policy_map ≡ some m
        → find k m ≡ some p
        → p.conf_id_infos ≢ []
    usable t k m p known found = grind arith
