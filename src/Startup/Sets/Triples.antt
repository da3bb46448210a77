-- ===== src/Startup/Sets/Triples.antt =====
-- Actions of the set-up, as triples of what holds before them and behind them.
use dns_box.Prelude.{
  ℕ, Bool, true, false, Text, List, [], ◌∷◌, ◌++◌, ◌≡◌, refl, inl, inr, All, Any-append_right,
  if◌then◌else◌,
}
use dns_box.Config.Mutators.Frame.{Header}
use dns_box.Ipset.{Command, create, add, SetType, Family}
use dns_box.Startup.Sets.{Run, continue, ◌>>◌, go_on, name6}
use dns_box.Startup.Sets.Grows.{Grows}
use dns_box.Startup.Sets.Ready.{IsMade, HasMade, AddsToMade, IsMade-append, AddsToMade-append}

-- If the action goes on from commands with the first property, it has sent ones with the second.
pub record Does (P Q : List Command → Type 0) (m : Run) : Type 0 where
  pub at : (sent : List Command) → P sent → (m sent).0 ≡ true → Q (m sent).1

pub Does-then :
    {P Q R : List Command → Type 0} (m k : Run) → Does P Q m → Does Q R k → Does P R (m >> k)
Does-then {Q} {R} m k dm dk = record { at = λ sent p e. go (m sent) (dm.at sent p) e }
  where
    go :
        (r : Bool × List Command)
        → (r.0 ≡ true → Q r.1)
        → (continue r k).0 ≡ true
        → R (continue r k).1
    go (true, sent) q e = dk.at sent (q refl) e
    go (false, sent) q e = cc

pub Does-if :
    {P Q : List Command → Type 0} (b : Bool) (m : Run)
    → (b ≡ true → Does P Q m)
    → (b ≡ false → (sent : List Command) → P sent → Q sent)
    → Does P Q (if b then m else go_on)
Does-if true m does skips = does refl
Does-if false m does skips = record { at = λ sent p e. skips refl sent p }

-- Commands that were sent without harm.
abbrev pub Fine : List Command → Type 0
Fine sent = AddsToMade sent sent

pub Fine-create :
    (name : Text) (type : SetType) (family : Family) (timeout : ℕ) (sent : List Command)
    → Fine sent
    → Fine (sent ++ create name type family timeout ∷ [])
Fine-create name type family timeout sent fine =
    AddsToMade-append sent (create name type family timeout ∷ []) fine
      λ n ip t m. elim m [ inl e ↦ absurd cc | inr later ↦ elim later [ ] ]

add-injective : (n m ip jp : Text) (t u : ℕ) → add n ip t ≡ add m jp u → n ≡ m
add-injective n m ip jp t u h = cc

pub Fine-add :
    (name ip : Text) (timeout : ℕ) (sent : List Command)
    → IsMade name sent
    → Fine sent
    → Fine (sent ++ add name ip timeout ∷ [])
Fine-add name ip timeout sent made fine =
    AddsToMade-append sent (add name ip timeout ∷ []) fine λ n jp t m. elim m [
      | inl e ↦ rw (add-injective _ _ _ _ _ _ e) (IsMade-append name sent _ made)
      | inr later ↦ elim later [ ]
    ]

pub IsMade-create :
    (name : Text) (type : SetType) (family : Family) (timeout : ℕ) (sent : List Command)
    → IsMade name (sent ++ create name type family timeout ∷ [])
IsMade-create name type family timeout sent = (
  type,
  family,
  timeout,
  Any-append_right (λ x. create name type family timeout ≡ x) sent _ (inl refl),
)

IsMade-Grows :
    (m : Run)
    → Grows m
    → (name : Text) (sent : List Command) → IsMade name sent
    → IsMade name (m sent).1
IsMade-Grows m g name sent (type, family, timeout, h) =
    (type, family, timeout, g.at (create name type family timeout) sent h)

All-HasMade-Grows :
    (m : Run)
    → Grows m
    → (hs : List Header) (sent : List Command) → All (HasMade sent) hs
    → All (HasMade (m sent).1) hs
All-HasMade-Grows m g [] sent a = tt
All-HasMade-Grows m g (h ∷ hs) sent ((v4, v6), a) = (
  (IsMade-Grows m g h.name sent v4, λ on. IsMade-Grows m g (name6 h.name) sent (v6 on)),
  All-HasMade-Grows m g hs sent a,
)

-- What has been made stays made.
pub Does-keeping :
    {Q : List Command → Type 0} (hs : List Header) (m : Run)
    → Grows m
    → Does Fine Q m
    → Does (λ sent. All (HasMade sent) hs × Fine sent) (λ sent. All (HasMade sent) hs × Q sent) m
Does-keeping hs m g d = record {
  at = λ sent (a, fine) e. (All-HasMade-Grows m g hs sent a, d.at sent fine e);
}

-- An action that makes the sets of one header, and one that makes those of others.
pub Does-cons :
    (h : Header) (hs : List Header) (m k : Run)
    → Does Fine (λ sent. HasMade sent h × Fine sent) m
    → Grows k
    → Does Fine (λ sent. All (HasMade sent) hs × Fine sent) k
    → Does Fine (λ sent. All (HasMade sent) (h ∷ hs) × Fine sent) (m >> k)
Does-cons h hs m k first grows others =
    Does-then {Q = λ sent. All (HasMade sent) (h ∷ []) × Fine sent} _ _
      (record { at = λ sent fine e. let (has, still) = first.at sent fine e in ((has, tt), still) })
      (record {
        at = λ sent p e.
            let ((has, _), (rest, fine)) = (Does-keeping (h ∷ []) k grows others).at sent p e in
            ((has, rest), fine);
      })
