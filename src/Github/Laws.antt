-- ===== src/Github/Laws.antt =====
-- What a save sends.
use mathlib.Core.Path.{subst}
use dns_box.Prelude.{true, Option, none, some, [], ◌∷◌, ◌≡◌, ◌≢◌, refl, arith}
use dns_box.Github.{
  Location, Write, update_file, create_file, Contents, api_error, no_file, file, Api, ok,
  save_request, save_file, send,
}

module _ {Bytes : Type 0} where
  -- The write carries the content to the place.
  abbrev pub Carries : Write Bytes → Location → Bytes → Type 0
  Carries (update_file l body sha) m content = (l ≡ m) × (body ≡ content)
  Carries (create_file l body) m content = (l ≡ m) × (body ≡ content)

  -- The write is a create, or an update of the file that the read returned, with its SHA.
  abbrev pub FitsRead : Write Bytes → Contents Bytes → Type 0
  FitsRead (update_file l body sha) c =
      (sha ≢ []) × ((old : Option Bytes) × (c ≡ file (some sha) old))
  FitsRead (create_file l body) (file (some sha) old) = sha ≡ []
  FitsRead (create_file l body) (file none old) = ⊥
  FitsRead (create_file l body) c = Unit

  Fits : Api Bytes → Location → Bytes → Contents Bytes → Write Bytes → Type 0
  Fits api l content c w = (api.accepts w ≡ true) × Carries w l content × FitsRead w c

  send-eq-ok :
      (api : Api Bytes) (v w : Write Bytes)
      → send api (some v) ≡ ok w
      → (api.accepts v ≡ true) × (v ≡ w)
  send-eq-ok api v w h = ground arith

  -- What holds of the request, if it is accepted, holds of the write that was made.
  sent-Fits :
      (api : Api Bytes) (l : Location) (content : Bytes) (c : Contents Bytes) (v w : Write Bytes)
      → Carries v l content × FitsRead v c
      → send api (some v) ≡ ok w
      → Fits api l content c w
  unfolding Fits
  sent-Fits api l content c v w (p, q) h =
      let (accepted, e) = send-eq-ok api v w h in
      subst (λ u. (api.accepts u ≡ true) × Carries u l content × FitsRead u c) e (accepted, p, q)

  sent_sound :
      (api : Api Bytes) (l : Location) (content : Bytes) (c : Contents Bytes) (w : Write Bytes)
      → send api (save_request c l content) ≡ ok w
      → Fits api l content c w
  unfolding save_request
  sent_sound api l content api_error w h =
      sent-Fits api l content api_error _ w ((refl, refl), tt) h
  sent_sound api l content no_file w h = sent-Fits api l content no_file _ w ((refl, refl), tt) h
  sent_sound api l content (file none old) w h = cc
  sent_sound api l content (file (some []) old) w h =
      sent-Fits api l content (file (some []) old) _ w ((refl, refl), refl) h
  sent_sound api l content (file (some (x ∷ sha)) old) w h =
      sent-Fits api l content (file (some (x ∷ sha)) old) _ w
        ((refl, refl), ((λ e. cc), (old, refl))) h

  -- A successful save has made one write, which the API accepted, of the given content at the given
  -- place. It is an update exactly where the read returned a file with a SHA that is not empty, and
  -- then it sends that SHA.
  pub save_file_sound :
      (api : Api Bytes) (l : Location) (content : Bytes) (w : Write Bytes)
      → save_file api l content ≡ ok w
      → (api.accepts w ≡ true) × Carries w l content × FitsRead w (api.get_contents l)
  unfolding save_file Fits
  save_file_sound api l content w h = sent_sound api l content (api.get_contents l) w h
