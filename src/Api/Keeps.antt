-- ===== src/Api/Keeps.antt =====
-- Invariants of the handlers with a body of lines, from those of the edit of a line.
use dns_box.Prelude.{
  All, Bool, true, false, Text, codes, Option, none, some, List, [], ◌∷◌, split, trim_space,
  text_eq, if◌then◌else◌,
}
use dns_box.Cache.FastCache.{FastCache}
use dns_box.Config.Save.{World, Result, ok, err, SaveError}
use dns_box.Api.{
  Reply, Server, Served, Saving, finish, saved, after_save, each_line, with_lines, write,
}

-- All lines of the body have the property.
abbrev pub AllLines : (Text → Type 0) → Option Text → Type 0
AllLines L none = Unit
AllLines L (some body) = All (λ line. L (trim_space line)) (split body 10)

module _ (f : FastCache) (Bytes : Type 0) where
  -- What the edits of lines with the property keep, of the server and of the reply, the loop over such
  -- lines keeps.
  pub each_line-holds_where :
      (L : Text → Type 0) (Q : Served f Bytes → Type 0)
      (edit : Text → Served f Bytes → Served f Bytes)
      (keep : (t : Text) → L t → (x : Served f Bytes) → Q x → Q (edit t x))
      (saving : Saving f Bytes) (lines : List Text) (x : Served f Bytes)
      → All (λ line. L (trim_space line)) lines
      → Q x
      → Q (each_line f Bytes saving edit lines x)
  unfolding each_line
  each_line-holds_where L Q edit keep saving [] x _ h = h
  each_line-holds_where L Q edit keep saving (line ∷ lines) x (good, all) h =
      each_line-holds_where L Q edit keep saving lines
        (if text_eq (trim_space line) [] then x else edit (trim_space line) x) all
        (after (text_eq (trim_space line) []))
    where
      after : (b : Bool) → Q (if b then x else edit (trim_space line) x)
      after true = h
      after false = keep (trim_space line) good x h

  any_line : (lines : List Text) → All (λ line. Unit {0}) lines
  any_line [] = tt
  any_line (line ∷ lines) = (tt, any_line lines)

  -- What every edit of a line keeps, the loop keeps.
  module _ (Q : Served f Bytes → Type 0) (edit : Text → Served f Bytes → Served f Bytes)
      (keep : (t : Text) (x : Served f Bytes) → Q x → Q (edit t x)) (saving : Saving f Bytes) where
    pub each_line-holds :
        (lines : List Text) (x : Served f Bytes) → Q x → Q (each_line f Bytes saving edit lines x)
    each_line-holds lines x h =
        each_line-holds_where (λ t. Unit) Q edit (λ t _. keep t) saving lines x (any_line lines) h

  -- What a save keeps too.
  module _ (saving : Saving f Bytes) (P : Server f Bytes → Type 0)
      (saves : (s : Server f Bytes) → P s → P (after_save f Bytes saving s)) where
    saved-keeps :
        (answer : Reply → Reply) (s : Server f Bytes) (r : Reply)
        (o : Result (Unit {0}) × World Bytes)
        → P (record s { world = o.1 })
        → P (saved f Bytes saving answer s r o).server
    saved-keeps answer s r (ok _, w) h = h
    saved-keeps answer s r (err SaveError.upload_panicked, w) h = h
    saved-keeps answer s r (err e, w) h = h

    pub finish-keeps :
        (answer : Reply → Reply) (x : Served f Bytes)
        → P x.server
        → P (finish f Bytes saving answer x).server
    unfolding finish
    finish-keeps answer x h = saved-keeps answer x.server x.reply _ (saves x.server h)

    pub with_lines-keeps :
        (edit : Text → Served f Bytes → Served f Bytes)
        (keep : (t : Text) (x : Served f Bytes) → P x.server → P (edit t x).server)
        (body : Option Text) (s : Server f Bytes)
        → P s
        → P (with_lines f Bytes saving edit body s).server
    unfolding with_lines
    with_lines-keeps edit keep none s h = h
    with_lines-keeps edit keep (some body) s h =
        finish-keeps (write (codes "ok")) _
          (each_line-holds (λ x. P x.server) edit keep saving (split body 10) _ h)

    pub with_lines-keeps_where :
        (L : Text → Type 0) (edit : Text → Served f Bytes → Served f Bytes)
        (keep : (t : Text) → L t → (x : Served f Bytes) → P x.server → P (edit t x).server)
        (body : Option Text) (s : Server f Bytes)
        → AllLines L body
        → P s
        → P (with_lines f Bytes saving edit body s).server
    unfolding with_lines
    with_lines-keeps_where L edit keep none s all h = h
    with_lines-keeps_where L edit keep (some body) s all h =
        finish-keeps (write (codes "ok")) _
          (each_line-holds_where L (λ x. P x.server) edit keep saving (split body 10) _ all h)
