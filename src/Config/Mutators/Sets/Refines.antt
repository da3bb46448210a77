-- ===== src/Config/Mutators/Sets/Refines.antt =====
-- The mutators of the configuration do on its sets what they mean.
use std.Path.{fun_ext}
use dns_box.Prelude.{
  subst, sym, ℕ, zero, suc, ℤ, pos, negsuc, Bool, true, false, not, ◌&&◌, ◌||◌, Text, Option, none,
  some, List, [], ◌∷◌, ◌++◌, map, modify, items, text_eq, if◌then◌else◌, ◌≡◌, refl, ◌∙◌, ap,
  Bool-cases, inl, inr, arith, length, ltb,
}
use dns_box.Prelude.Strings.Laws.{text_eq_iff}
use dns_box.Config.{Config, RulesConfig, IpSetListConfig, NetListConfig, in_range, is_first}
use dns_box.Config.Rules.{
  add_domain, remove_domain, add_suffix, remove_suffix, add_block_list_url, remove_block_list_url,
}
use dns_box.Config.Rules.Sets.{is_listed, append_new, without}
use dns_box.Config.Lists.{
  add_cidr_to_net_list, remove_cidr_from_net_list, change_rules, at_list, at_net_list, set_lists,
  append_new_cidr,
}
use dns_box.Config.Lists.Laws.{ListEdit, edit_rules, edit_list-change_rules}
use dns_box.Config.Mutators.{Call, apply, apply_all}
use dns_box.Config.Mutators.Sets.{
  TextSet, insert, delete, RuleSets, ConfigSets, set_of, rule_sets, config_sets, edit_sets,
  modify_at, perform_in, perform, perform_all,
}

is_listed-append :
    (y x : Text) (xs : List Text) → is_listed y (xs ++ x ∷ []) ≡ (text_eq x y || is_listed y xs)
unfolding is_listed
is_listed-append y x [] = ground arith
is_listed-append y x (d ∷ xs) = ground (arith, is_listed-append y x xs)

is_listed-append_new :
    (y x : Text) (xs : List Text) → is_listed y (append_new x xs) ≡ (text_eq x y || is_listed y xs)
unfolding append_new
is_listed-append_new y x xs = elim (Bool-cases (is_listed x xs)) [
  | inr new ↦ rw new (is_listed-append y x xs)
  | inl old ↦ elim (Bool-cases (text_eq x y)) [
    | inr other ↦ rw (old, other) refl
    | inl same ↦ rw (old, same) (subst (λ z. is_listed z xs ≡ true) ((text_eq_iff x y).0 same) old)
  ]
]

absorbs : (a c : Bool) → (not a && c) ≡ (not a && (a || c))
absorbs true c = refl
absorbs false c = refl

distributes : (a b c : Bool) → (a ≡ true → b ≡ false) → (b || (not a && c)) ≡ (not a && (b || c))
distributes false b c h = refl
distributes true b c h = rw (h refl) refl

-- Another text is not the one that is removed.
differs : (d x y : Text) → text_eq d x ≡ false → text_eq x y ≡ true → text_eq d y ≡ false
differs d x y other same = subst (λ z. text_eq d z ≡ false) ((text_eq_iff x y).0 same) other

is_listed-without :
    (y x : Text) (xs : List Text)
    → is_listed y (without x xs) ≡ (not (text_eq x y) && is_listed y xs)
unfolding is_listed without
is_listed-without y x [] = ground arith
is_listed-without y x (d ∷ xs) = elim (Bool-cases (text_eq d x)) [
  | inl e ↦
      let same : text_eq d y ≡ text_eq x y = ap (λ z. text_eq z y) ((text_eq_iff d x).0 e) in
      rw (e, same, is_listed-without y x xs) (absorbs (text_eq x y) (is_listed y xs))
  | inr other ↦
      rw (other, is_listed-without y x xs)
        (distributes (text_eq x y) (text_eq d y) (is_listed y xs) (differs d x y other))
]

set_of-append_new : (x : Text) (xs : List Text) → set_of (append_new x xs) ≡ insert x (set_of xs)
set_of-append_new x xs = fun_ext (λ y. is_listed-append_new y x xs)

set_of-without : (x : Text) (xs : List Text) → set_of (without x xs) ≡ delete x (set_of xs)
set_of-without x xs = fun_ext (λ y. is_listed-without y x xs)

rule_sets-edit_rules :
    (e : ListEdit) (r : RulesConfig) → rule_sets (edit_rules e r) ≡ edit_sets e (rule_sets r)
rule_sets-edit_rules (ListEdit.add_domain d) r =
    ap (λ s. record (rule_sets r) { domains = s }) (set_of-append_new d r.domains)
rule_sets-edit_rules (ListEdit.remove_domain d) r =
    ap (λ s. record (rule_sets r) { domains = s }) (set_of-without d r.domains)
rule_sets-edit_rules (ListEdit.add_suffix t) r =
    ap (λ s. record (rule_sets r) { suffixes = s }) (set_of-append_new t r.domain_suffix)
rule_sets-edit_rules (ListEdit.remove_suffix t) r =
    ap (λ s. record (rule_sets r) { suffixes = s }) (set_of-without t r.domain_suffix)

map-modify :
    {A B : Type 0} (g : A → B) (h : A → A) (k : B → B)
    → ((x : A) → g (h x) ≡ k (g x))
    → (xs : List A) (i : ℕ) → map g (modify xs i h) ≡ modify (map g xs) i k
map-modify g h k same [] i = refl
map-modify g h k same (x ∷ xs) zero = ap (λ y. y ∷ map g xs) (same x)
map-modify g h k same (x ∷ xs) (suc i) = ap (◌∷◌ (g x)) (map-modify g h k same xs i)

length-map : {A B : Type 0} (g : A → B) (xs : List A) → length (map g xs) ≡ length xs
length-map g [] = refl
length-map g (x ∷ xs) = ap suc (length-map g xs)

in_range-map :
    {A B : Type 0} (g : A → B) (i : ℤ) (xs : List A) → in_range i (map g xs) ≡ in_range i xs
in_range-map g (pos i) xs = ap (λ n. if ltb i n then some i else none) (length-map g xs)
in_range-map g (negsuc i) xs = refl

abbrev list_sets : IpSetListConfig → RuleSets
list_sets l = rule_sets l.rules

config_sets-at_list :
    (c : Config) (o : Option ℕ) (e : ListEdit)
    → config_sets (at_list c o (edit_rules e))
      ≡ record (config_sets c) { lists = modify_at (config_sets c).lists o (edit_sets e) }
config_sets-at_list c none e = refl
config_sets-at_list c (some i) e =
    ap (λ (rs : List RuleSets). record (config_sets c) { lists = rs })
      (map-modify list_sets (λ l. record l { rules = edit_rules e l.rules }) (edit_sets e)
        (λ l. rule_sets-edit_rules e l.rules) c.ipset.lists i)

-- With some list, with none, and index 0.
change_lists :
    (c : Config) (i : ℤ) (e : ListEdit) (ls : List IpSetListConfig)
    → config_sets (change_rules (set_lists c ls) i (edit_rules e))
      ≡ perform_in (config_sets (set_lists c ls)) (map list_sets ls) i e
unfolding change_rules
change_lists c i e (l ∷ ls) =
    config_sets-at_list (set_lists c (l ∷ ls)) (in_range i (l ∷ ls)) e
    ∙ ap
        (λ o. record (config_sets (set_lists c (l ∷ ls))) {
          lists = modify_at (map list_sets (l ∷ ls)) o (edit_sets e);
        })
        (sym (in_range-map list_sets i (l ∷ ls)))
change_lists c i e [] = elim (Bool-cases (is_first i)) [
  | inl first ↦ rw first (
      ap (λ (r : RuleSets). record (config_sets (set_lists c [])) { shared = r })
        (rule_sets-edit_rules e c.rules))
  | inr other ↦ rw other refl
]

config_sets-at_net_list :
    (c : Config) (o : Option ℕ) (f : NetListConfig → NetListConfig) (k : TextSet → TextSet)
    → ((l : NetListConfig) → set_of (items (f l).cidrs) ≡ k (set_of (items l.cidrs)))
    → config_sets (at_net_list c o f)
      ≡ record (config_sets c) { cidrs = modify_at (config_sets c).cidrs o k }
config_sets-at_net_list c none f k same = refl
config_sets-at_net_list c (some i) f k same =
    ap (λ (ss : List TextSet). record (config_sets c) { cidrs = ss })
      (map-modify (λ (l : NetListConfig). set_of (items l.cidrs)) f k same c.ipset.net_lists i)

-- An edit of the networks of the net list at the index.
change_cidrs :
    (c : Config) (i : ℤ) (f : NetListConfig → NetListConfig) (k : TextSet → TextSet)
    → ((l : NetListConfig) → set_of (items (f l).cidrs) ≡ k (set_of (items l.cidrs)))
    → config_sets (at_net_list c (in_range i c.ipset.net_lists) f) ≡ record (config_sets c) {
      cidrs = modify_at (config_sets c).cidrs (in_range i (config_sets c).cidrs) k;
    }
change_cidrs c i f k same =
    config_sets-at_net_list c (in_range i c.ipset.net_lists) f k same
    ∙ ap (λ o. record (config_sets c) { cidrs = modify_at (config_sets c).cidrs o k })
        (sym (in_range-map (λ (l : NetListConfig). set_of (items l.cidrs)) i c.ipset.net_lists))

set_of-append_new_cidr :
    (t : Text) (o : Option (List Text))
    → set_of (items (append_new_cidr t o)) ≡ insert t (set_of (items o))
set_of-append_new_cidr t none = set_of-append_new t []
set_of-append_new_cidr t (some ts) = set_of-append_new t ts

config_sets-apply : (c : Config) (k : Call) → config_sets (apply c k) ≡ perform (config_sets c) k
unfolding add_domain remove_domain add_suffix remove_suffix add_block_list_url remove_block_list_url
    add_cidr_to_net_list remove_cidr_from_net_list
config_sets-apply c (Call.add_domain d) =
    ap (λ (r : RuleSets). record (config_sets c) { shared = r })
      (rule_sets-edit_rules (ListEdit.add_domain d) c.rules)
config_sets-apply c (Call.remove_domain d) =
    ap (λ (r : RuleSets). record (config_sets c) { shared = r })
      (rule_sets-edit_rules (ListEdit.remove_domain d) c.rules)
config_sets-apply c (Call.add_suffix t) =
    ap (λ (r : RuleSets). record (config_sets c) { shared = r })
      (rule_sets-edit_rules (ListEdit.add_suffix t) c.rules)
config_sets-apply c (Call.remove_suffix t) =
    ap (λ (r : RuleSets). record (config_sets c) { shared = r })
      (rule_sets-edit_rules (ListEdit.remove_suffix t) c.rules)
config_sets-apply c (Call.add_block_list_url u) =
    ap (λ (s : TextSet). record (config_sets c) { urls = s })
      (set_of-append_new u c.block_list.urls)
config_sets-apply c (Call.remove_block_list_url u) =
    ap (λ (s : TextSet). record (config_sets c) { urls = s }) (set_of-without u c.block_list.urls)
config_sets-apply c (Call.in_list i e) =
    ap config_sets (edit_list-change_rules c i e) ∙ change_lists c i e c.ipset.lists
config_sets-apply c (Call.add_cidr i t) =
    change_cidrs c i (λ l. record l { cidrs = append_new_cidr t l.cidrs }) (insert t)
      (λ l. set_of-append_new_cidr t l.cidrs)
config_sets-apply c (Call.remove_cidr i t) =
    change_cidrs c i (λ l. record l { cidrs = some (without t (items l.cidrs)) }) (delete t)
      (λ l. set_of-without t (items l.cidrs))

-- Any sequence of calls of the mutators does on the sets of the configuration what the calls mean: it
-- inserts into and deletes from the set of the list that the index names, which with no lists is that
-- of the shared rules at index 0, and nothing where the index is out of range. The order of the
-- entries and what stands twice play no part.
pub config_sets-apply_all :
    (c : Config) (ks : List Call) → config_sets (apply_all c ks) ≡ perform_all (config_sets c) ks
unfolding apply_all
config_sets-apply_all c [] = refl
config_sets-apply_all c (k ∷ ks) =
    config_sets-apply_all (apply c k) ks
    ∙ ap (λ (s : ConfigSets). perform_all s ks) (config_sets-apply c k)
