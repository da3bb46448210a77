-- ===== src/Startup/Sets/Ready.antt =====
-- What `run` has created and added to before it starts the servers.
use dns_box.Prelude.{
  ℕ, true, Text, List, [], ◌∷◌, ◌++◌, ◌≡◌, inl, inr, In, All, Any-append_left, Any-append_cases,
}
use dns_box.Config.Mutators.Frame.{Header, Frame}
use dns_box.Ipset.{Command, create, add, SetType, Family}
use dns_box.Startup.Sets.{name6}
use dns_box.Startup.Sets.Grows.{}

-- A set of the name has been created.
abbrev pub IsMade : Text → List Command → Type 0
IsMade name sent =
    (type : SetType) × (family : Family) × (timeout : ℕ) × In (create name type family timeout) sent

-- The sets of a list.
abbrev pub HasMade : List Command → Header → Type 0
HasMade sent h = IsMade h.name sent × (h.enable_ipv6 ≡ true → IsMade (name6 h.name) sent)

-- What the commands add to has been created.
abbrev pub AddsToMade : List Command → List Command → Type 0
AddsToMade adds sent =
    (name ip : Text) (timeout : ℕ) → In (add name ip timeout) adds → IsMade name sent

-- All sets of the frame have been created, and all additions go to created sets.
abbrev pub IsReady : Frame → List Command → Type 0
IsReady fr sent =
    All (HasMade sent) fr.lists × All (HasMade sent) fr.net_lists × AddsToMade sent sent

pub IsMade-append :
    (name : Text) (sent more : List Command) → IsMade name sent → IsMade name (sent ++ more)
IsMade-append name sent more (type, family, timeout, m) =
    (type, family, timeout, Any-append_left (λ x. create name type family timeout ≡ x) sent more m)

pub HasMade-append :
    (sent more : List Command) (h : Header) → HasMade sent h → HasMade (sent ++ more) h
HasMade-append sent more h (v4, v6) =
    (IsMade-append h.name sent more v4, λ on. IsMade-append (name6 h.name) sent more (v6 on))

All-HasMade-append :
    (hs : List Header) (sent more : List Command)
    → All (HasMade sent) hs
    → All (HasMade (sent ++ more)) hs
All-HasMade-append [] sent more a = tt
All-HasMade-append (h ∷ hs) sent more (m, a) =
    (HasMade-append sent more h m, All-HasMade-append hs sent more a)

pub AddsToMade-append :
    (sent more : List Command)
    → AddsToMade sent sent
    → AddsToMade more (sent ++ more)
    → AddsToMade (sent ++ more) (sent ++ more)
AddsToMade-append sent more old new name ip timeout m =
    elim (Any-append_cases (λ x. add name ip timeout ≡ x) sent more m) [
      | inl before ↦ IsMade-append name sent more (old name ip timeout before)
      | inr now ↦ new name ip timeout now
    ]

-- More commands that add to created sets only.
pub IsReady-append :
    (fr : Frame) (sent more : List Command)
    → IsReady fr sent
    → AddsToMade more (sent ++ more)
    → IsReady fr (sent ++ more)
IsReady-append fr sent more (lists, nets, adds) new = (
  All-HasMade-append fr.lists sent more lists,
  All-HasMade-append fr.net_lists sent more nets,
  AddsToMade-append sent more adds new,
)
