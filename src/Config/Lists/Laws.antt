-- ===== src/Config/Lists/Laws.antt =====
-- What an edit of one list does to the rules that are read back, of every list.
use mathlib.Core.Option
use dns_box.Prelude.{
  ℕ, zero, suc, Bool, true, false, Text, ℤ, pos, negsuc, Option, none, some, List, [], ◌∷◌, ◌≡◌,
  refl, ◌∙◌, arith, ltb, ◌==◌, if◌then◌else◌, length, modify, length-modify, Bool-cases, inl, inr,
}
use dns_box.Config.{
  Config, RulesConfig, IpSetListConfig, get_list_rules, is_nonempty, in_range, is_first, rules_at,
}
use dns_box.Config.Rules.{
  rules_add_domain, rules_remove_domain, rules_add_suffix, rules_remove_suffix,
}
use dns_box.Config.Lists.{
  set_lists, at_list, change_rules, add_domain_to_list, remove_domain_from_list, add_suffix_to_list,
  remove_suffix_from_list,
}

-- The four edits of a list's rules, and what each does to the rules.
pub data ListEdit : Type 0 where
  add_domain remove_domain add_suffix remove_suffix : Text → ListEdit

abbrev pub edit_rules : ListEdit → RulesConfig → RulesConfig
edit_rules (add_domain d) = rules_add_domain d
edit_rules (remove_domain d) = rules_remove_domain d
edit_rules (add_suffix s) = rules_add_suffix s
edit_rules (remove_suffix s) = rules_remove_suffix s

abbrev pub edit_list : Config → ℤ → ListEdit → Config
edit_list c index (add_domain d) = add_domain_to_list c index d
edit_list c index (remove_domain d) = remove_domain_from_list c index d
edit_list c index (add_suffix s) = add_suffix_to_list c index s
edit_list c index (remove_suffix s) = remove_suffix_from_list c index s

abbrev pub same_index : ℤ → ℤ → Bool
same_index (pos i) (pos j) = i == j
same_index (negsuc i) (negsuc j) = i == j
same_index (pos i) (negsuc j) = false
same_index (negsuc i) (pos j) = false

-- Every edit goes through `change_rules`.
pub edit_list-change_rules :
    (c : Config) (i : ℤ) (e : ListEdit) → edit_list c i e ≡ change_rules c i (edit_rules e)
unfolding add_domain_to_list remove_domain_from_list add_suffix_to_list remove_suffix_from_list
edit_list-change_rules c i (add_domain d) = refl
edit_list-change_rules c i (remove_domain d) = refl
edit_list-change_rules c i (add_suffix s) = refl
edit_list-change_rules c i (remove_suffix s) = refl

abbrev change_at : (RulesConfig → RulesConfig) → IpSetListConfig → IpSetListConfig
change_at f l = record l { rules = f l.rules }

rules_at-modify :
    (f : RulesConfig → RulesConfig) (lists : List IpSetListConfig) (i j : ℕ)
    → rules_at (modify lists i (change_at f)) (some j)
      ≡ (if i == j then Option.map f (rules_at lists (some j)) else rules_at lists (some j))
rules_at-modify f [] i j = ground arith
rules_at-modify f (l ∷ ls) zero zero = refl
rules_at-modify f (l ∷ ls) zero (suc j) = ground arith
rules_at-modify f (l ∷ ls) (suc i) zero = ground arith
rules_at-modify f (l ∷ ls) (suc i) (suc j) = ground (arith, rules_at-modify f ls i j)

-- A read of the rules, as a function of the lists and the shared rules.
abbrev rules_read : List IpSetListConfig → RulesConfig → ℤ → Option RulesConfig
rules_read lists shared j =
    if is_nonempty lists
    then rules_at lists (in_range j lists)
    else if is_first j
    then some shared
    else none

abbrev lists_after :
    List IpSetListConfig → Option ℕ → (RulesConfig → RulesConfig) → List IpSetListConfig
lists_after lists none f = lists
lists_after lists (some i) f = modify lists i (change_at f)

is_nonempty-modify {ℓ} :
    {A : Type ℓ} (xs : List A) (i : ℕ) (f : A → A) → is_nonempty (modify xs i f) ≡ is_nonempty xs
is_nonempty-modify [] i f = refl
is_nonempty-modify (x ∷ xs) zero f = refl
is_nonempty-modify (x ∷ xs) (suc i) f = refl

pub in_range-modify {ℓ} :
    {A : Type ℓ} (j : ℤ) (xs : List A) (i : ℕ) (f : A → A)
    → in_range j (modify xs i f) ≡ in_range j xs
in_range-modify (pos j) xs i f = rw (length-modify xs i f)
in_range-modify (negsuc j) xs i f = refl

rules_at-in_range :
    (f : RulesConfig → RulesConfig) (lists : List IpSetListConfig) (i : ℕ) (j : ℤ)
    → rules_at (modify lists i (change_at f)) (in_range j lists) ≡ (
        if same_index (pos i) j
        then Option.map f (rules_at lists (in_range j lists))
        else rules_at lists (in_range j lists))
rules_at-in_range f lists i (negsuc j) = refl
rules_at-in_range f lists i (pos j) = elim (Bool-cases (ltb j (length lists))) [
  | inl inside ↦ rw inside (rules_at-modify f lists i j)
  | inr outside ↦ rw outside (ground arith)
]

-- An index that is out of range reads nothing.
rules_at-outside :
    (f : RulesConfig → RulesConfig) (lists : List IpSetListConfig) (i : ℕ) (j : ℤ)
    → ltb i (length lists) ≡ false
    → rules_at lists (in_range j lists) ≡ (
        if same_index (pos i) j
        then Option.map f (rules_at lists (in_range j lists))
        else rules_at lists (in_range j lists))
rules_at-outside f lists i (negsuc j) h = refl
rules_at-outside f lists i (pos j) h = elim (Bool-cases (i == j)) [
  | inl e ↦ let same : i ≡ j = ground arith in rw (e, ← same, h)
  | inr n ↦ rw n
]

rules_read-lists_after :
    (l : IpSetListConfig) (ls : List IpSetListConfig) (shared : RulesConfig)
    (f : RulesConfig → RulesConfig) (i j : ℤ)
    → rules_read (lists_after (l ∷ ls) (in_range i (l ∷ ls)) f) shared j ≡ (
        if same_index i j
        then Option.map f (rules_read (l ∷ ls) shared j)
        else rules_read (l ∷ ls) shared j)
rules_read-lists_after l ls shared f (negsuc i) (negsuc j) = ground arith
rules_read-lists_after l ls shared f (negsuc i) (pos j) = refl
rules_read-lists_after l ls shared f (pos i) j = elim (Bool-cases (ltb i (length (l ∷ ls)))) [
  | inl inside ↦
      rw
        (
          inside,
          is_nonempty-modify (l ∷ ls) i (change_at f),
          in_range-modify j (l ∷ ls) i (change_at f),
        )
        (rules_at-in_range f (l ∷ ls) i j)
  | inr outside ↦ rw outside (rules_at-outside f (l ∷ ls) i j outside)
]

rules_read-legacy :
    (shared : RulesConfig) (f : RulesConfig → RulesConfig) (i j : ℤ)
    → rules_read [] (if is_first i then f shared else shared) j
      ≡ (if same_index i j then Option.map f (rules_read [] shared j) else rules_read [] shared j)
rules_read-legacy shared f (pos zero) (pos zero) = refl
rules_read-legacy shared f (pos zero) (pos (suc j)) = ground arith
rules_read-legacy shared f (pos (suc i)) (pos zero) = ground arith
rules_read-legacy shared f (pos (suc i)) (pos (suc j)) = ground arith
rules_read-legacy shared f (pos i) (negsuc j) = refl
rules_read-legacy shared f (negsuc i) (pos j) = refl
rules_read-legacy shared f (negsuc i) (negsuc j) = ground arith

read-at_list :
    (c : Config) (o : Option ℕ) (f : RulesConfig → RulesConfig) (j : ℤ)
    → get_list_rules (at_list c o f) j ≡ rules_read (lists_after c.ipset.lists o f) c.rules j
unfolding get_list_rules
read-at_list c none f j = refl
read-at_list c (some i) f j = refl

read-legacy :
    (c : Config) (f : RulesConfig → RulesConfig) (b : Bool) (j : ℤ)
    → get_list_rules (if b then record c { rules = f c.rules } else c) j
      ≡ rules_read c.ipset.lists (if b then f c.rules else c.rules) j
unfolding get_list_rules
read-legacy c f true j = refl
read-legacy c f false j = refl

read-change_rules :
    (c : Config) (f : RulesConfig → RulesConfig) (i j : ℤ) (lists : List IpSetListConfig)
    → get_list_rules (change_rules (set_lists c lists) i f) j ≡ (
        if same_index i j
        then Option.map f (get_list_rules (set_lists c lists) j)
        else get_list_rules (set_lists c lists) j)
unfolding get_list_rules change_rules
read-change_rules c f i j [] =
    read-legacy (set_lists c []) f (is_first i) j ∙ rules_read-legacy c.rules f i j
read-change_rules c f i j (l ∷ ls) =
    read-at_list (set_lists c (l ∷ ls)) (in_range i (l ∷ ls)) f j
    ∙ rules_read-lists_after l ls c.rules f i j

-- An edit of the list at one index is what a read of that index sees, in range or out of it and
-- also where no list is configured and index 0 means the shared rules; a read of any other index
-- sees what it saw before.
pub get_list_rules-edit_list :
    (c : Config) (i j : ℤ) (e : ListEdit)
    → get_list_rules (edit_list c i e) j ≡ (
        if same_index i j
        then Option.map (edit_rules e) (get_list_rules c j)
        else get_list_rules c j)
get_list_rules-edit_list c i j e =
    rw (edit_list-change_rules c i e) (read-change_rules c (edit_rules e) i j c.ipset.lists)
