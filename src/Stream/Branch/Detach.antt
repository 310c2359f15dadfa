-- ===== src/Stream/Branch/Detach.antt =====
-- What `Branch::detach` of src/stream/branch.rs leaves in the pipeline.
use srt_whep.Prelude.{
  String, ◌≡◌, refl, sym, ◌∙◌, ◌≢◌, inl, inr, Bool, true, false, none, some, arith, Bool-cases,
  Option-cases, if◌then◌else◌, str_eq, eq_iff, ◌||◌,
}
use srt_whep.Prelude.Results.{ok}
use srt_whep.Prelude.Calls.{Call}
use srt_whep.Stream.Naming.{whip_sink_name, video_queue_name, audio_queue_name, video_decoder_name}
use srt_whep.Stream.Naming.Classification.{IsBranchElement, branch_id_from_name_iff}
use srt_whep.Stream.Naming.Given.{IsGiven, for_sink, for_video, for_audio, for_decoder, for_branch}
use srt_whep.Stream.Gst.{Gst, IsLawful, null, paused, playing}
use srt_whep.Stream.Branch.{
  remove_element_from_pipeline, release_pad, unlink_from_tee, remove_queue,
  remove_branch_from_pipeline, remove_by_name, detach,
}

-- One of the four names of a branch.
abbrev pub is_of_branch : String → String → Bool
is_of_branch id k =
    str_eq (whip_sink_name id) k
    || str_eq (video_decoder_name id) k
    || str_eq (audio_queue_name id) k
    || str_eq (video_queue_name id) k

pub some-injective : {A : Type 0} (a b : A) → some a ≡ some b → a ≡ b
some-injective a b e = cc

pub is_of_branch-IsBranchElement : (id k : String) → is_of_branch id k ≡ true → IsBranchElement id k
is_of_branch-IsBranchElement id k h = elim (Bool-cases (str_eq (whip_sink_name id) k)) [
  | inl here ↦ inl (sym ((eq_iff (whip_sink_name id) k).0 here))
  | inr not_sink ↦ elim (Bool-cases (str_eq (video_queue_name id) k)) [
    | inl here ↦ inr (inl (sym ((eq_iff (video_queue_name id) k).0 here)))
    | inr not_video ↦ elim (Bool-cases (str_eq (audio_queue_name id) k)) [
      | inl here ↦ inr (inr (inl (sym ((eq_iff (audio_queue_name id) k).0 here))))
      | inr not_audio ↦ inr (inr (inr (sym ((eq_iff (video_decoder_name id) k).0 (ground arith)))))
    ]
  ]
]

pub of_branch-IsGiven : (id k : String) → is_of_branch id k ≡ true → IsGiven k
of_branch-IsGiven id k own =
    for_branch ((branch_id_from_name_iff k id).1 (is_of_branch-IsBranchElement id k own))

-- No element of one viewer's branch has a name of another's.
pub is_of_branch-other :
    (id other k : String) → id ≢ other → IsBranchElement other k → is_of_branch id k ≡ false
is_of_branch-other id other k differs theirs = elim (Bool-cases (is_of_branch id k)) [
  | inr outside ↦ outside
  | inl own ↦
      let ours = (branch_id_from_name_iff k id).1 (is_of_branch-IsBranchElement id k own) in
      absurd
        (differs (some-injective id other (sym ours ∙ (branch_id_from_name_iff k other).1 theirs)))
]

module _ {E H : Type 0} (g : Gst E H) (L : IsLawful g) (p : H) where
  -- A call that does not fail, and after which the pipeline has lost this name and no other of those
  -- that the program gives.
  abbrev pub Clears : String → Call E String (Unit {0}) → E → Type 0
  Clears n m w =
      ((m w).0 ≡ ok tt)
      × ((k : String)
          → IsGiven k
          → g.by_name p k (m w).1 ≡ (if str_eq n k then none else g.by_name p k w))

  pub removed-Clears :
      (n : String)
      → IsGiven n
      → (e : H) (w : E) → g.by_name p n w ≡ some e
      → Clears n (remove_element_from_pipeline g p e) w
  unfolding remove_element_from_pipeline
  removed-Clears n own e w found =
      let w' = (g.set_state e null w).1 in
      let there : g.by_name p n w' ≡ some e = L.by_name-set_state e null p n own w ∙ found in
      (
        refl,
        λ k given. ground (
          arith,
          L.alive p n w e found,
          eq_iff n k,
          L.by_name_names p n w e,
          L.remove_found p e n own w' there,
          L.remove_others p e k given w',
          L.by_name-set_state e null p k given w,
        ),
      )

  -- What is found under the name is a queue.
  abbrev pub HoldsQueue : String → E → Type 0
  HoldsQueue n w = (e : H) → g.by_name p n w ≡ some e → g.factory e ≡ "queue"

  absent-Clears :
      (n : String) (m : Call E String (Unit {0})) (w : E)
      → g.by_name p n w ≡ none
      → m w ≡ (ok tt, w)
      → Clears n m w
  absent-Clears n m w absent nothing =
      rw nothing (refl, λ k given. ground (arith, absent, eq_iff n k))

  pub by_name-release_pad :
      (t q : H) (k : String)
      → IsGiven k
      → (w : E) → g.by_name p k (release_pad g p t q w).1 ≡ g.by_name p k w
  unfolding release_pad
  by_name-release_pad t q k given w =
      L.by_name-set_state t playing p k given _
      ∙ (L.by_name-remove_pad t q p k given _ ∙ L.by_name-set_state t paused p k given w)

  unlinked-Clears :
      (n : String)
      → IsGiven n
      → (e pad : H) (w : E) → g.by_name p n w ≡ some e
      → g.is_linked pad w ≡ true
      → Clears n (unlink_from_tee g p e pad) w
  unfolding unlink_from_tee release_pad
  unlinked-Clears n own e pad w found linked =
      let (src, tee, peer, parent) = L.linked_peer pad w linked in
      let w' = (release_pad g p tee src w).1 in
      let (fine, left) = removed-Clears n own e w' (by_name-release_pad tee src n own w ∙ found) in
      let same : unlink_from_tee g p e pad w ≡ remove_element_from_pipeline g p e w' =
        ground (arith, peer, parent) in
      rw same (fine, λ k given. rw (← by_name-release_pad tee src k given w) (left k given))

  queue-Clears :
      (n : String)
      → IsGiven n
      → (e : H) (w : E) → g.by_name p n w ≡ some e
      → g.factory e ≡ "queue"
      → Clears n (remove_queue g p n e) w
  unfolding remove_queue
  queue-Clears n own e w found is_queue =
      let (pad, sink) = L.queue_sink_pad e w is_queue in
      elim (Bool-cases (g.is_linked pad w)) [
        | inl linked ↦
            let same : remove_queue g p n e w ≡ unlink_from_tee g p e pad w =
              ground (arith, sink, linked) in
            rw same (unlinked-Clears n own e pad w found linked)
        | inr loose ↦
            let same : remove_queue g p n e w ≡ remove_element_from_pipeline g p e w =
              ground (arith, sink, loose) in
            rw same (removed-Clears n own e w found)
      ]

  branch-Clears :
      (n : String)
      → IsGiven n
      → (w : E) → HoldsQueue n w
      → Clears n (remove_branch_from_pipeline g p n) w
  unfolding remove_branch_from_pipeline
  branch-Clears n own w queue = elim (Option-cases (g.by_name p n w)) [
    | inl absent ↦
        absent-Clears n (remove_branch_from_pipeline g p n) w absent (ground (arith, absent))
    | inr (e, found) ↦
        let same : remove_branch_from_pipeline g p n w ≡ remove_queue g p n e w =
          ground (arith, found) in
        rw same (queue-Clears n own e w found (queue e found))
  ]

  pub element-Clears : (n : String) → IsGiven n → (w : E) → Clears n (remove_by_name g p n) w
  unfolding remove_by_name
  element-Clears n own w = elim (Option-cases (g.by_name p n w)) [
    | inl absent ↦ absent-Clears n (remove_by_name g p n) w absent (ground (arith, absent))
    | inr (e, found) ↦
        let same : remove_by_name g p n w ≡ remove_element_from_pipeline g p e w =
          ground (arith, found) in
        rw same (removed-Clears n own e w found)
  ]

  -- Detaching never fails, and of the names that the program gives to elements it takes those of this
  -- branch and no other out of the pipeline, however many of them the attach had put there, if what stands
  -- under the two queues' names are queues.
  pub detach_lem :
      (id : String) (w : E)
      → HoldsQueue (video_queue_name id) w
      → HoldsQueue (audio_queue_name id) w
      → ((detach g p id w).0 ≡ ok tt)
        × ((k : String)
            → IsGiven k
            → g.by_name p k (detach g p id w).1
              ≡ (if is_of_branch id k then none else g.by_name p k w))
  unfolding detach
  detach_lem id w video audio =
      let c₁ = branch-Clears (video_queue_name id) (for_video id) w video in
      let w₁ = (remove_branch_from_pipeline g p (video_queue_name id) w).1 in
      let audio' : HoldsQueue (audio_queue_name id) w₁ =
        λ e found. audio e (ground (arith, c₁.1 (audio_queue_name id) (for_audio id))) in
      let c₂ = branch-Clears (audio_queue_name id) (for_audio id) w₁ audio' in
      let w₂ = (remove_branch_from_pipeline g p (audio_queue_name id) w₁).1 in
      let c₃ = element-Clears (video_decoder_name id) (for_decoder id) w₂ in
      let w₃ = (remove_by_name g p (video_decoder_name id) w₂).1 in
      let c₄ = element-Clears (whip_sink_name id) (for_sink id) w₃ in
      let same : detach g p id w ≡ remove_by_name g p (whip_sink_name id) w₃ =
        ground (arith, c₁.0, c₂.0, c₃.0) in
      rw same
        (c₄.0, λ k given. ground (arith, c₁.1 k given, c₂.1 k given, c₃.1 k given, c₄.1 k given))
