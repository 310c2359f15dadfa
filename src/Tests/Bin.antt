-- ===== src/Tests/Bin.antt =====
-- A pipeline in memory that does what the code relies on of GStreamer: a list of elements, the newest
-- first, and the demuxer's pads. Its calls do not fail, but for making elements of a chosen factory and
-- adding a name that is taken.
use mathlib.Core.Path.{subst}
use srt_whep.Prelude.{
  String, ◌≡◌, refl, sym, ◌≢◌, ◌⊎◌, inl, inr, true, Option, none, some, arith, Bool-cases,
  Option-cases, List, [], ◌∷◌, ◌∙◌, ap, if◌then◌else◌, str_eq, eq_iff,
}
use srt_whep.Prelude.Results.{Result, ok, err}
use Prim.Native.String.{◌++◌}
use srt_whep.Prelude.Text.{starts_with}
use srt_whep.Stream.Gst.{Gst, Value, IsLawful, In, first, later}

pub record Element : Type 0 where
  pub factory : String
  pub name : String

pub record Bin : Type 0 where
  pub elements : List Element
  pub pads : List String
  -- The factory that is not installed.
  pub missing : String

unfoldable pub lookup : String → List Element → Option Element
lookup n [] = none
lookup n (e ∷ es) = if str_eq e.name n then some e else lookup n es

unfoldable pub drop : String → List Element → List Element
drop n [] = []
drop n (e ∷ es) = if str_eq e.name n then drop n es else e ∷ drop n es

-- A name for an element that is made without one, which no element of the bin has.
abbrev tally : List Element → String
tally [] = ""
tally (e ∷ es) = tally es ++ "+"

abbrev name_of : Option String → String → List Element → String
name_of none f es = f ++ tally es
name_of (some n) f es = n

-- A name that is taken is refused.
unfoldable pub add_list : List Element → List Element → Result (Unit {0}) String × List Element
add_list [] es = (ok tt, es)
add_list (x ∷ l) es = elim (lookup x.name es) [
  | some e ↦ (err "the name is taken", es)
  | none ↦ add_list l (x ∷ es)
]

-- The demuxer's pads as elements, and what they carry.
abbrev pads_of : List String → List Element
pads_of [] = []
pads_of (n ∷ l) = record { factory = "pad"; name = n } ∷ pads_of l

abbrev caps : String → String
caps n = if starts_with n "video" then "video/x-h264" else "audio/mpeg"

abbrev pub bin : Gst Bin Element
bin = record {
  init_library = λ w. (ok tt, w);
  new_pipeline =
      λ w. (record { factory = "pipeline"; name = "pipeline0" }, record w { elements = [] });
  discover = λ seconds uri w. (ok tt, w);
  src_pads = λ e w. pads_of w.pads;
  media_type = λ pad w. some (caps pad.name);
  link_pads = λ a b w. (ok tt, w);
  send_eos = λ p w. (true, w);
  new_main_loop = λ w. (record { factory = "loop"; name = "loop0" }, w);
  quit_main_loop = λ l w. w;
  make = λ f n ps w. (
    if str_eq f w.missing
        then err ("no such element factory")
        else ok (record { factory = f; name = name_of n f w.elements }),
    w,
  );
  add_many = λ p l w. let (r, es) = add_list l w.elements in (r, record w { elements = es });
  remove = λ p e w. (ok tt, record w { elements = drop e.name w.elements });
  link_many = λ l w. (ok tt, w);
  sync_state_with_parent = λ e w. (ok tt, w);
  set_state = λ e st w. (ok tt, w);
  remove_pad = λ t q w. (ok tt, w);
  has_signaller = λ e w. true;
  set_whip_endpoint = λ e url w. w;
  by_name = λ p n w. lookup n w.elements;
  pads = λ e w. w.pads;
  sink_pad = λ e w. some e;
  is_linked = λ e w. true;
  peer = λ e w. some e;
  parent_element = λ e w. some e;
  is_alive = λ p w. true;
  name = λ e. e.name;
  factory = λ e. e.factory;
}

lookup_name : (n : String) (l : List Element) (e : Element) → lookup n l ≡ some e → e.name ≡ n
unfolding lookup
lookup_name n [] e h = cc
lookup_name n (x ∷ l) e h = ground (arith, lookup_name n l e, eq_iff x.name n)

lookup-add_list :
    (n : String) (l es : List Element)
    → (lookup n (add_list l es).1 ≡ lookup n es)
      ⊎ ((e : Element) × In e l
          × (e.name ≡ n)
          × (lookup n (add_list l es).1 ≡ some e)
          × (lookup n es ≡ none))
unfolding add_list lookup
lookup-add_list n [] es = inl refl
lookup-add_list n (x ∷ l) es = elim (Option-cases (lookup x.name es)) [
  | inr (e, taken) ↦ inl (ground (arith, taken))
  | inl free ↦ elim (lookup-add_list n l (x ∷ es)) [
    | inl kept ↦ elim (Bool-cases (str_eq x.name n)) [
      | inl same ↦
          let name : x.name ≡ n = (eq_iff x.name n).0 same in
          inr (
            x,
            first,
            name,
            ground (arith, free, kept, same),
            subst (λ k. lookup k es ≡ none) name free,
          )
      | inr other ↦ inl (ground (arith, free, kept, other))
    ]
    | inr (e, m, name, found, unused) ↦
        inr (e, later m, name, ground (arith, free, found), ground (arith, unused))
  ]
]

added_stays :
    (n : String) (l es : List Element) → lookup n es ≢ none → lookup n (add_list l es).1 ≢ none
added_stays n l es h e = elim (lookup-add_list n l es) [
  | inl same ↦ h (sym same ∙ e)
  | inr (x, m, name, found, unused) ↦ h unused
]

accepted :
    (x : Element) (l es : List Element)
    → (add_list (x ∷ l) es).0 ≡ ok tt
    → add_list (x ∷ l) es ≡ add_list l (x ∷ es)
unfolding add_list
accepted x l es h = elim (Option-cases (lookup x.name es)) [
  | inl free ↦ ground (arith, free)
  | inr (y, taken) ↦
      let refused : (add_list (x ∷ l) es).0 ≡ err "the name is taken" = ground (arith, taken) in
      cc (refused, h)
]

lookup_added :
    (l es : List Element) (e : Element)
    → (add_list l es).0 ≡ ok tt
    → In e l
    → lookup e.name (add_list l es).1 ≢ none
unfolding lookup
lookup_added [] es e h m = elim m [ ]
lookup_added (x ∷ l) es e h first =
    subst (λ r. lookup x.name r.1 ≢ none) (sym (accepted x l es h))
      (added_stays x.name l (x ∷ es) (ground (arith, eq_iff x.name x.name)))
lookup_added (x ∷ l) es e h (later m) =
    subst (λ r. lookup e.name r.1 ≢ none) (sym (accepted x l es h))
      (lookup_added l (x ∷ es) e (ap (λ r. r.0) (sym (accepted x l es h)) ∙ h) m)

lookup-drop_self : (n : String) (l : List Element) → lookup n (drop n l) ≡ none
unfolding lookup drop
lookup-drop_self n [] = refl
lookup-drop_self n (x ∷ l) = ground (arith, lookup-drop_self n l)

lookup-drop : (n k : String) (l : List Element) → n ≢ k → lookup k (drop n l) ≡ lookup k l
unfolding lookup drop
lookup-drop n k [] h = refl
lookup-drop n k (x ∷ l) h = ground (arith, lookup-drop n k l h, eq_iff x.name n, eq_iff x.name k)

make_tallied :
    (f : String) (ps : List (String × Value)) (w : Bin) (e : Element)
    → (bin.make f none ps w).0 ≡ ok e
    → (k : String) × (e.name ≡ f ++ k)
make_tallied f ps w e h = (tally w.elements, ground arith)

make_made :
    (f n : String) (ps : List (String × Value)) (w : Bin) (e : Element)
    → (bin.make f (some n) ps w).0 ≡ ok e
    → (e.name ≡ n) × (e.factory ≡ f)
make_made f n ps w e h = (ground arith, ground arith)

pub bin-IsLawful : IsLawful bin
unfolding lookup
bin-IsLawful = record {
  make_names = make_made;
  make_unnamed = make_tallied;
  new_pipeline_empty = λ n w. refl;
  by_name-discover = λ seconds uri p n given w. refl;
  by_name-link_pads = λ a b p n given w. refl;
  by_name-send_eos = λ q p n given w. refl;
  by_name-new_main_loop = λ p n given w. refl;
  by_name-quit_main_loop = λ l p n given w. refl;
  by_name_names = λ p n w e h. lookup_name n w.elements e h;
  by_name-make = λ f o ps p n given w. refl;
  by_name-link_many = λ l p n given w. refl;
  by_name-sync = λ e p n given w. refl;
  by_name-set_state = λ e st p n given w. refl;
  by_name-remove_pad = λ t q p n given w. refl;
  by_name-set_whip_endpoint = λ e url p n given w. refl;
  pads-make = λ f o ps e w d. refl;
  pads-add_many = λ p l e w d. refl;
  pads-link_many = λ l e w d. refl;
  pads-sync = λ x e w d. refl;
  pads-set_whip_endpoint = λ x url e w d. refl;
  media_type-make = λ f o ps q w. refl;
  media_type-add_many = λ p l q w. refl;
  media_type-link_many = λ l q w. refl;
  media_type-sync = λ x q w. refl;
  by_name-add_many = λ l p n given w. lookup-add_list n l w.elements;
  add_many_adds = λ l p e w h m. lookup_added l w.elements e h m;
  remove_found = λ p e n given w h.
      subst (λ k. lookup n (drop k w.elements) ≡ none) (sym (lookup_name n w.elements e h))
        (lookup-drop_self n w.elements);
  remove_others = λ p e n given w h. lookup-drop e.name n w.elements h;
  queue_sink_pad = λ e w h. (e, refl);
  linked_peer = λ pad w h. (pad, pad, refl, refl);
  alive = λ p n w e h. refl;
}
