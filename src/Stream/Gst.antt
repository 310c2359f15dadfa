-- ===== src/Stream/Gst.antt =====
-- What src/stream calls of GStreamer, as an interface over its state `E`; GStreamer is not part of the
-- repository. Pipelines, elements and pads are handles of the type `H`; a `Call` is a call that may fail.
use srt_whep.Prelude.{ℕ, String, Bool, Option, List, ◌∷◌, ◌≡◌, ◌≢◌, ◌⊎◌, none, some, true}
use Prim.Native.String.{◌++◌}
use srt_whep.Prelude.Results.{ok}
use srt_whep.Prelude.Calls.{Call}
use srt_whep.Stream.Naming.Given.{IsGiven}

pub data State : Type 0 where
  null paused playing : State

-- The value of a property; a number is the 32-bit pattern that the code passes.
pub data Value : Type 0 where
  text : String → Value
  int : ℕ → Value
  flag : Bool → Value

pub record Gst (E H : Type 0) : Type 0 where
  -- `gst::init()`
  pub init_library : Call E String (Unit {0})
  -- `Pipeline::default()`
  pub new_pipeline : E → H × E
  -- `Discoverer::new(timeout)` and `discover_uri(uri)`
  pub discover : ℕ → String → Call E String (Unit {0})
  -- `ElementFactory::make(factory).name(name).property(..).build()`; without a name GStreamer
  -- chooses one.
  pub make : String → Option String → List (String × Value) → Call E String H
  -- `pipeline.add_many(elements)`
  pub add_many : H → List H → Call E String (Unit {0})
  -- `pipeline.remove(element)`
  pub remove : H → H → Call E String (Unit {0})
  -- `Element::link_many(elements)`
  pub link_many : List H → Call E String (Unit {0})
  pub sync_state_with_parent : H → Call E String (Unit {0})
  pub set_state : H → State → Call E String (Unit {0})
  -- `tee.remove_pad(pad)`
  pub remove_pad : H → H → Call E String (Unit {0})
  -- `find_property("signaller").is_some()`
  pub has_signaller : H → E → Bool
  -- `signaller.set_property_from_str("whip-endpoint", url)`
  pub set_whip_endpoint : H → String → E → E
  -- `pipeline.by_name(name)`
  pub by_name : H → String → E → Option H
  -- The names of `element.pads()`.
  pub pads : H → E → List String
  -- `element.static_pad("sink")`
  pub sink_pad : H → E → Option H
  -- The source pads, in the order of `foreach_src_pad`.
  pub src_pads : H → E → List H
  -- `pad.current_caps()` and the name of its first structure.
  pub media_type : H → E → Option String
  -- `src_pad.link(&sink_pad)`
  pub link_pads : H → H → Call E String (Unit {0})
  -- `pipeline.send_event(Eos::new())`
  pub send_eos : H → E → Bool × E
  -- `MainLoop::new(None, false)` and `main_loop.quit()`
  pub new_main_loop : E → H × E
  pub quit_main_loop : H → E → E
  pub is_linked : H → E → Bool
  pub peer : H → E → Option H
  pub parent_element : H → E → Option H
  -- `pipeline.downgrade()`, and that `upgrade()` later finds the pipeline still there.
  pub is_alive : H → E → Bool
  -- The name and the factory of an element, which never change.
  pub name : H → String
  pub factory : H → String

-- One element of the list.
pub data In {H : Type 0} (e : H) : List H → Type 0 where
  first : {l : List H} → In e (e ∷ l)
  later : {x : H} {l : List H} → In e l → In e (x ∷ l)

-- What the code relies on, as GStreamer documents it, for calls during which no other thread changes
-- the pipeline. A name is looked up in the pipeline and in the bins inside it, such as a whipclientsink,
-- whose own elements come and go as it pleases; none of these is taken to bear a name of
-- src/stream/naming.rs. Such a name is unique, and only adding and removing an element change what is
-- found under it. A tsdemux has no pads on request and makes its own when data comes, so that the calls
-- that attach a branch or build a chain leave its pads alone; a tee or a whipclientsink may gain a pad
-- when it is linked. These calls do not change the media types of pads either. A queue has a sink pad, a
-- linked pad has a peer whose parent is an element, and a pipeline in which an element is found is alive.
-- A new pipeline is empty, an element that is made without a name is named after its factory, and a run,
-- its end and the discoverer move no element.
pub record IsLawful {E H : Type 0} (g : Gst E H) : Type 0 where
  pub make_names :
      (f n : String) (ps : List (String × Value)) (w : E) (e : H)
      → (g.make f (some n) ps w).0 ≡ ok e
      → (g.name e ≡ n) × (g.factory e ≡ f)
  pub make_unnamed :
      (f : String) (ps : List (String × Value)) (w : E) (e : H)
      → (g.make f none ps w).0 ≡ ok e
      → (k : String) × (g.name e ≡ f ++ k)
  pub new_pipeline_empty :
      (n : String) (w : E) → g.by_name (g.new_pipeline w).0 n (g.new_pipeline w).1 ≡ none
  pub by_name-discover :
      (seconds : ℕ) (uri : String) (p : H) (n : String)
      → IsGiven n
      → (w : E) → g.by_name p n (g.discover seconds uri w).1 ≡ g.by_name p n w
  pub by_name-link_pads :
      (a b p : H) (n : String)
      → IsGiven n
      → (w : E) → g.by_name p n (g.link_pads a b w).1 ≡ g.by_name p n w
  pub by_name-send_eos :
      (q p : H) (n : String)
      → IsGiven n
      → (w : E) → g.by_name p n (g.send_eos q w).1 ≡ g.by_name p n w
  pub by_name-new_main_loop :
      (p : H) (n : String)
      → IsGiven n
      → (w : E) → g.by_name p n (g.new_main_loop w).1 ≡ g.by_name p n w
  pub by_name-quit_main_loop :
      (l p : H) (n : String)
      → IsGiven n
      → (w : E) → g.by_name p n (g.quit_main_loop l w) ≡ g.by_name p n w
  pub by_name_names : (p : H) (n : String) (w : E) (e : H) → g.by_name p n w ≡ some e → g.name e ≡ n
  pub by_name-make :
      (f : String) (o : Option String) (ps : List (String × Value)) (p : H) (n : String)
      → IsGiven n
      → (w : E) → g.by_name p n (g.make f o ps w).1 ≡ g.by_name p n w
  pub by_name-link_many :
      (l : List H) (p : H) (n : String)
      → IsGiven n
      → (w : E) → g.by_name p n (g.link_many l w).1 ≡ g.by_name p n w
  pub by_name-sync :
      (e p : H) (n : String)
      → IsGiven n
      → (w : E) → g.by_name p n (g.sync_state_with_parent e w).1 ≡ g.by_name p n w
  pub by_name-set_state :
      (e : H) (st : State) (p : H) (n : String)
      → IsGiven n
      → (w : E) → g.by_name p n (g.set_state e st w).1 ≡ g.by_name p n w
  pub by_name-remove_pad :
      (t q p : H) (n : String)
      → IsGiven n
      → (w : E) → g.by_name p n (g.remove_pad t q w).1 ≡ g.by_name p n w
  pub by_name-set_whip_endpoint :
      (e : H) (url : String) (p : H) (n : String)
      → IsGiven n
      → (w : E) → g.by_name p n (g.set_whip_endpoint e url w) ≡ g.by_name p n w
  pub pads-make :
      (f : String) (o : Option String) (ps : List (String × Value)) (e : H) (w : E)
      → g.factory e ≡ "tsdemux"
      → g.pads e (g.make f o ps w).1 ≡ g.pads e w
  pub pads-add_many :
      (p : H) (l : List H) (e : H) (w : E)
      → g.factory e ≡ "tsdemux"
      → g.pads e (g.add_many p l w).1 ≡ g.pads e w
  pub pads-link_many :
      (l : List H) (e : H) (w : E)
      → g.factory e ≡ "tsdemux"
      → g.pads e (g.link_many l w).1 ≡ g.pads e w
  pub pads-sync :
      (x e : H) (w : E)
      → g.factory e ≡ "tsdemux"
      → g.pads e (g.sync_state_with_parent x w).1 ≡ g.pads e w
  pub pads-set_whip_endpoint :
      (x : H) (url : String) (e : H) (w : E)
      → g.factory e ≡ "tsdemux"
      → g.pads e (g.set_whip_endpoint x url w) ≡ g.pads e w
  pub media_type-make :
      (f : String) (o : Option String) (ps : List (String × Value)) (q : H) (w : E)
      → g.media_type q (g.make f o ps w).1 ≡ g.media_type q w
  pub media_type-add_many :
      (p : H) (l : List H) (q : H) (w : E) → g.media_type q (g.add_many p l w).1 ≡ g.media_type q w
  pub media_type-link_many :
      (l : List H) (q : H) (w : E) → g.media_type q (g.link_many l w).1 ≡ g.media_type q w
  pub media_type-sync :
      (x q : H) (w : E) → g.media_type q (g.sync_state_with_parent x w).1 ≡ g.media_type q w
  -- Adding leaves each name as it was, or gives one that was free to a new element; adding a name that
  -- is taken fails. A success gives each element its name.
  pub by_name-add_many :
      (l : List H) (p : H) (n : String)
      → IsGiven n
      → (w : E)
      → (g.by_name p n (g.add_many p l w).1 ≡ g.by_name p n w)
        ⊎ ((e : H) × In e l
            × (g.name e ≡ n)
            × (g.by_name p n (g.add_many p l w).1 ≡ some e)
            × (g.by_name p n w ≡ none))
  pub add_many_adds :
      (l : List H) (p e : H) (w : E)
      → (g.add_many p l w).0 ≡ ok tt
      → In e l
      → g.by_name p (g.name e) (g.add_many p l w).1 ≢ none
  pub remove_found :
      (p e : H) (n : String)
      → IsGiven n
      → (w : E) → g.by_name p n w ≡ some e
      → g.by_name p n (g.remove p e w).1 ≡ none
  pub remove_others :
      (p e : H) (n : String)
      → IsGiven n
      → (w : E) → g.name e ≢ n
      → g.by_name p n (g.remove p e w).1 ≡ g.by_name p n w
  pub queue_sink_pad :
      (e : H) (w : E) → g.factory e ≡ "queue" → (pad : H) × (g.sink_pad e w ≡ some pad)
  pub linked_peer :
      (pad : H) (w : E)
      → g.is_linked pad w ≡ true
      → (q t : H) × (g.peer pad w ≡ some q) × (g.parent_element q w ≡ some t)
  pub alive :
      (p : H) (n : String) (w : E) (e : H) → g.by_name p n w ≡ some e → g.is_alive p w ≡ true
