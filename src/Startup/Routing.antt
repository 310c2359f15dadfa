-- ===== src/Startup/Routing.antt =====
-- The Location headers that src/routes hands out, against the route table of src/startup.rs.
use Prim.Native.String.{◌++◌}
use srt_whep.Prelude.{
  ℕ, String, Bool, true, not, ◌&&◌, ◌≡◌, ◌≢◌, ◌↔◌, Option, none, some, List, [], ◌∷◌, if◌then◌else◌,
  ◌==◌,
}
use srt_whep.Prelude.Results.{Result, ok, err}
use Prim.Native.Char.{code}
use srt_whep.Stream.Branch.{whip_endpoint, decimal}
use srt_whep.Signal.Errors.{SignalError}
use srt_whep.Routes.{Reply, whip_handler, is_empty}
use srt_whep.Startup
use srt_whep.Startup.{
  Method, get, post, patch, delete, options, Handler, remove_whip_sink, Route, routes,
}

-- One segment of a path, which actix's pattern for a variable takes: it has a character and no slash.
abbrev has_no_slash : String → Bool
has_no_slash String.[] = true
has_no_slash (String.◌∷◌ c s) = not (code c == 0x2f) && has_no_slash s

abbrev pub is_segment : String → Bool
is_segment s = not (is_empty s) && has_no_slash s

abbrev index : Method → ℕ
index get = 0
index post = 1
index patch = 2
index delete = 3
index options = 4

-- How actix documents that an `App` picks a handler: the first route whose method and template fit,
-- with the value of the template's variable.
unfoldable pub first_route :
    (String → String → Option String) → Method → String → List Route → Option (Handler × String)
first_route matches method path [] = none
first_route matches method path (r ∷ rest) =
    let later = first_route matches method path rest in
    if index r.method == index method
    then elim (matches r.template path) [
      | some variable ↦ some (r.handler, variable)
      | none ↦ later
    ]
    else later

-- Actix is outside: `matches` is the value that a path gives to a template's variable, or `none`, and
-- `serve` the handler that a request comes to. It documents that a template without a variable
-- matches only itself, and one with a variable at its end what has a segment in its place.
pub record IsRouter (matches : String → String → Option String)
    (serve : List Route → Method → String → Option (Handler × String)) : Type 0 where
  pub in_order :
      (method : Method) (path : String)
      → serve routes method path ≡ first_route matches method path routes
  pub at_root : (path : String) → path ≢ "/channel" → matches "/channel" path ≡ none
  pub at_channel :
      (path id : String)
      → (matches "/channel/{id}" path ≡ some id)
        ↔ ((path ≡ "/channel/" ++ id) × (is_segment id ≡ true))
  pub at_whip_sink :
      (path id : String)
      → (matches "/whip_sink/{id}" path ≡ some id)
        ↔ ((path ≡ "/whip_sink/" ++ id) × (is_segment id ≡ true))

module _ (matches : String → String → Option String)
    (serve : List Route → Method → String → Option (Handler × String))
    (router : IsRouter matches serve) (id : String) (segment : is_segment id ≡ true) where
  abbrev headers_of : Result Reply SignalError → List (String × String)
  headers_of (ok r) = r.headers
  headers_of (err e) = []

  -- The path is where the whipsink of `id` posts its offer, what a successful answer to that names as
  -- its Location, and what the route table brings back to `id`.
  abbrev pub IsResource : ℕ → Reply → String → Type 0
  IsResource port r path =
      (whip_endpoint port id ≡ "http://localhost:" ++ (decimal 5 port ++ path))
      × (r.headers ≡ ("Location", path) ∷ ("Content-Type", "application/sdp") ∷ [])
      × (serve routes post path ≡ some (Startup.whip_handler, id))
      × (serve routes delete path ≡ some (remove_whip_sink, id))
