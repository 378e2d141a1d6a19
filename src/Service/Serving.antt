-- ===== src/Service/Serving.antt =====
-- The service with the handler as its implementation, as INVApplication::start puts them together:
-- its replies can be sent.
use ab_dyeing.Base.{
  ℕ, ◌≡◌, ◌≤◌, refl, arith, false, not, Option, Option-cases, none, some, inl, inr, List, [], ◌∷◌,
  All, length, Bytes, is_empty, sym, subst, ap,
}
use ab_dyeing.Thrift.Laws.{IsText, IsShort}
use ab_dyeing.Proto.{Entry}
use ab_dyeing.Proto.Answer.RoundTrip.{IsSendableEntry, IsSendableReply}
use ab_dyeing.Service.Processor.{Iface}
use ab_dyeing.Logic.{to_entry}
use ab_dyeing.Handler as H
use ab_dyeing.Handler.{Handler}
use ab_dyeing.Handler.Single.{entries_of, reply_of}

-- `ABDyeingHandler` on one of its worker threads.
unfoldable pub handler_iface : (Bytes → ℕ → ℕ) → Handler → ℕ → Iface
handler_iface city_hash h tid = record {
  dyeing_call = H.dyeing city_hash h tid;
  dyeing_lan_call = H.dyeing_lan city_hash h tid;
  batch_dyeing_call = H.batch_dyeing city_hash h tid;
  batch_dyeing_lan_call = H.batch_dyeing_lan city_hash h tid;
}

module _ (choose : Bytes → Option Bytes) (t : Bytes) (ts : List Bytes) where
  entries_of-none : choose t ≡ none → entries_of choose (t ∷ ts) ≡ entries_of choose ts
  entries_of-none e = rw (e, entries_of) refl

  entries_of-some :
      (id : Bytes)
      → choose t ≡ some id
      → entries_of choose (t ∷ ts) ≡ to_entry t id ∷ entries_of choose ts
  entries_of-some id e = rw (e, entries_of) refl

length-entries_of :
    (choose : Bytes → Option Bytes) (ts : List Bytes) → length (entries_of choose ts) ≤ length ts
length-entries_of choose [] = omega arith
length-entries_of choose (t ∷ ts) = elim (Option-cases (choose t)) [
  | inl e ↦
      omega (
        arith,
        ap (length {A = Entry}) (entries_of-none choose t ts e),
        length-entries_of choose ts,
      )
  | inr (id, e) ↦ omega (
    arith,
    ap (length {A = Entry}) (entries_of-some choose t ts id e),
    length-entries_of choose ts,
  )
]

-- The configuration that a type is given, if any, can be sent.
abbrev pub Named : (Bytes → Option Bytes) → Bytes → Type 0
Named choose t = (id : Bytes) → choose t ≡ some id → IsText id

All-entries_of :
    (choose : Bytes → Option Bytes)
    → (ts : List Bytes) → All (Named choose) ts
    → All IsText ts
    → All IsSendableEntry (entries_of choose ts)
unfolding to_entry
All-entries_of choose [] ids h = tt
All-entries_of choose (t ∷ ts) ids h = elim (Option-cases (choose t)) [
  | inl e ↦
      subst (All IsSendableEntry) (sym (entries_of-none choose t ts e))
        (All-entries_of choose ts (ids.1) (h.1))
  | inr (id, e) ↦
      subst (All IsSendableEntry) (sym (entries_of-some choose t ts id e))
        (record { type = h.0; config_id = (ids.0) id e }, All-entries_of choose ts (ids.1) (h.1))
]

not-empty : (es : List Entry) → not (is_empty es) ≡ false → es ≡ []
not-empty [] h = refl
not-empty (e ∷ es) h = cc

-- The reply of the handler can be sent where the request could, and the configurations can.
pub reply_of-IsSendable :
    (choose : Bytes → Option Bytes)
    → (ts : List Bytes) → All (Named choose) ts
    → IsShort ts
    → All IsText ts
    → IsSendableReply (reply_of (entries_of choose ts))
reply_of-IsSendable choose ts ids short h = record {
  short = omega (arith, length-entries_of choose ts);
  entries = All-entries_of choose ts ids h;
  unset = not-empty (entries_of choose ts);
}
