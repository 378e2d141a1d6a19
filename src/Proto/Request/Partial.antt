-- ===== src/Proto/Request/Partial.antt =====
-- A request that lacks some of its fields.
use ab_dyeing.Base.{
  ◌≡◌, ◌∙◌, refl, arith, Bool, false, true, ◌&&◌, ◌++◌, Bytes, codes, if◌then◌else◌,
}
use ab_dyeing.Outcome.{done, throws, protocol_exception}
use ab_dyeing.Thrift.{
  t_string, t_list, is_string, is_list, TProtocol, required, write_member, write_list, write_struct,
}
use ab_dyeing.Thrift.Laws.{IsProtocol, IsConsuming}
use ab_dyeing.Thrift.Laws.Written.{
  rounds_with, field_of-Reads, field_rounds-Reads_option, field_rounds-Reads_stop, read_struct_lem,
}
use ab_dyeing.Proto.{DyeingLanRequest}
use ab_dyeing.Proto.Request.{LanRequestRead, lan_request_field, lan_request_end, read_lan_request}
use ab_dyeing.Proto.Request.RoundTrip.{
  IsSendableLanRequest, lan_request_field-Consumes, read_strings-Reads,
}

-- A request as it is written with some of its fields left out.
abbrev pub write_partial : TProtocol → Bool → Bool → Bool → Bool → DyeingLanRequest → Bytes
write_partial p app app_ver app_lan types r =
    let rest3 =
      if types
      then write_member p (codes "_types") t_list 4 (write_list p t_string p.write_string r.types)
        ++ p.write_field_stop
      else p.write_field_stop in
    let rest2 =
      if app_lan
      then write_member p (codes "app_lan") t_string 3 (p.write_string r.app_lan) ++ rest3
      else rest3 in
    let rest1 =
      if app_ver
      then write_member p (codes "app_ver") t_string 2 (p.write_string r.app_ver) ++ rest2
      else rest2 in
    write_struct p (codes "ABDyeingLanRequest") (
      if app
      then write_member p (codes "app") t_string 1 (p.write_string r.app) ++ rest1
      else rest1)

-- What the loop has read.
abbrev seen : Bool → Bool → Bool → Bool → DyeingLanRequest → DyeingLanRequest → LanRequestRead
seen app app_ver app_lan types this r = record {
  this = record {
    app = if app then r.app else this.app;
    app_ver = if app_ver then r.app_ver else this.app_ver;
    app_lan = if app_lan then r.app_lan else this.app_lan;
    types = if types then r.types else this.types;
  };
  isset_app = app;
  isset_app_ver = app_ver;
  isset_app_lan = app_lan;
  isset_types = types;
}

lan_request_end-seen :
    (p : TProtocol) (app app_ver app_lan types : Bool) (this r : DyeingLanRequest) (rest : Bytes)
    → lan_request_end p (seen app app_ver app_lan types this r) rest ≡ (
        if app && (app_ver && (app_lan && types))
        then done (r, rest)
        else throws protocol_exception)
unfolding lan_request_end required
lan_request_end-seen p false b c d this r rest = refl
lan_request_end-seen p true false c d this r rest = refl
lan_request_end-seen p true true false d this r rest = refl
lan_request_end-seen p true true true false this r rest = refl
lan_request_end-seen p true true true true this r rest = refl

module _ (this r : DyeingLanRequest) where
  set_app :
      (a : Bool)
      → (if a then seen true false false false this r else seen false false false false this r)
        ≡ seen a false false false this r
  set_app true = refl
  set_app false = refl

  set_app_ver :
      (a b : Bool)
      → (if b then seen a true false false this r else seen a false false false this r)
        ≡ seen a b false false this r
  set_app_ver a true = refl
  set_app_ver a false = refl

  set_app_lan :
      (a b c : Bool)
      → (if c then seen a b true false this r else seen a b false false this r)
        ≡ seen a b c false this r
  set_app_lan a b true = refl
  set_app_lan a b false = refl

  set_types :
      (a b c d : Bool)
      → (if d then seen a b c true this r else seen a b c false this r) ≡ seen a b c d this r
  set_types a b c true = refl
  set_types a b c false = refl

-- A request that can be sent, written with any of its four fields left out, is read back if none
-- is; otherwise reading it throws TProtocolException. What the object held before has no part in it.
pub read_lan_request-partial :
    (p : TProtocol) (this r : DyeingLanRequest) (a b c d : Bool) (rest : Bytes)
    → IsProtocol p
    → IsConsuming p
    → IsSendableLanRequest r
    → read_lan_request p this (write_partial p a b c d r ++ rest)
      ≡ (if a && (b && (c && d)) then done (r, rest) else throws protocol_exception)
unfolding read_lan_request lan_request_field is_string is_list
read_lan_request-partial p this r a b c d rest w cons s =
    let on = lan_request_field p in
    read_struct_lem w on (lan_request_end p)
      (rounds_with a (rounds_with b (rounds_with c (rounds_with d 1)))) _ (seen a b c d this r)
      (codes "ABDyeingLanRequest") _ rest cons (lan_request_field-Consumes cons)
      (field_rounds-Reads_option w on a _ (seen false false false false this r)
        (seen a false false false this r) (codes "app") t_string 1 _ _ (λ e. cc) (omega arith)
        (field_of-Reads p _ _ t_string _ _ (w.string r.app s.app)) (set_app this r a)
        (field_rounds-Reads_option w on b _ (seen a false false false this r)
          (seen a b false false this r) (codes "app_ver") t_string 2 _ _ (λ e. cc) (omega arith)
          (field_of-Reads p _ _ t_string _ _ (w.string r.app_ver s.app_ver))
          (set_app_ver this r a b)
          (field_rounds-Reads_option w on c _ (seen a b false false this r)
            (seen a b c false this r) (codes "app_lan") t_string 3 _ _ (λ e. cc) (omega arith)
            (field_of-Reads p _ _ t_string _ _ (w.string r.app_lan s.app_lan))
            (set_app_lan this r a b c)
            (field_rounds-Reads_option w on d _ (seen a b c false this r) (seen a b c d this r)
              (codes "_types") t_list 4 _ _ (λ e. cc) (omega arith)
              (field_of-Reads p _ _ t_list _ _ (read_strings-Reads w r.types s.short s.types))
              (set_types this r a b c d) (field_rounds-Reads_stop w on 0 _)))))
    ∙ lan_request_end-seen p a b c d this r rest
