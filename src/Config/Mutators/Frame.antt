-- ===== src/Config/Mutators/Frame.antt =====
-- What no mutator of the configuration changes.
use dns_box.Prelude.{
  ℕ, zero, suc, Bool, true, false, Text, ℤ, Option, none, some, List, [], ◌∷◌, ◌≡◌, refl, ◌∙◌, ap,
  modify, map, items, if◌then◌else◌, Bool-cases, inl, inr, sym,
}
use dns_box.Config.{
  Config, ServerConfig, DnsConfig, GithubConfig, RulesConfig, IpSetListConfig, NetListConfig,
  is_first, in_range, get_ipset_lists, is_nonempty, legacy_list,
}
use dns_box.Config.Rules.{
  add_domain, remove_domain, add_suffix, remove_suffix, add_block_list_url, remove_block_list_url,
}
use dns_box.Config.Rules.Sets.{without}
use dns_box.Config.Lists.Laws.{edit_rules, edit_list-change_rules}
use dns_box.Config.Lists.{
  add_cidr_to_net_list, remove_cidr_from_net_list, change_rules, at_list, at_net_list,
  append_new_cidr,
}
use dns_box.Config.Mutators.{Call, apply, apply_all}

-- A list without its rules, and a net list without its networks.
pub record Header : Type 0 where
  pub name : Text
  pub enable_ipv6 : Bool
  pub timeout : ℕ

abbrev pub header : IpSetListConfig → Header
header l = record { name = l.name; enable_ipv6 = l.enable_ipv6; timeout = l.timeout }

abbrev pub net_header : NetListConfig → Header
net_header l = record { name = l.name; enable_ipv6 = l.enable_ipv6; timeout = l.timeout }

-- The static parts, the path, and the headers of the lists that the program works with.
pub record Frame : Type 0 where
  pub server : ServerConfig
  pub dns : DnsConfig
  pub github_backup : GithubConfig
  pub path : Text
  pub lists : List Header
  pub net_lists : List Header

abbrev pub frame : Config → Frame
frame c = record {
  server = c.server;
  dns = c.dns;
  github_backup = c.github_backup;
  path = c.path;
  lists = map header (get_ipset_lists c);
  net_lists = map net_header c.ipset.net_lists;
}

map-modify :
    {A B : Type 0} (g : A → B) (h : A → A) (keep : (x : A) → g (h x) ≡ g x) (xs : List A) (i : ℕ)
    → map g (modify xs i h) ≡ map g xs
map-modify g h keep [] i = refl
map-modify g h keep (x ∷ xs) zero = ap (λ y. y ∷ map g xs) (keep x)
map-modify g h keep (x ∷ xs) (suc i) = ap (◌∷◌ (g x)) (map-modify g h keep xs i)

map-if :
    {A B : Type 0} (g : A → B) (b : Bool) (xs ys : List A)
    → map g (if b then xs else ys) ≡ (if b then map g xs else map g ys)
map-if g true xs ys = refl
map-if g false xs ys = refl

-- The legacy list has no rules in its header.
legacy_headers : Text → Text → List Header
legacy_headers v4 v6 =
    if is_nonempty v4
    then record { name = v4; enable_ipv6 = is_nonempty v6; timeout = 0 } ∷ []
    else []

headers-get_ipset_lists :
    (c : Config)
    → map header (get_ipset_lists c) ≡ (
        if is_nonempty c.ipset.lists
        then map header c.ipset.lists
        else legacy_headers c.ipset.ipv4_name c.ipset.ipv6_name)
unfolding get_ipset_lists legacy_headers
headers-get_ipset_lists c =
    map-if header (is_nonempty c.ipset.lists) c.ipset.lists
      (if is_nonempty c.ipset.ipv4_name then legacy_list c ∷ [] else [])
    ∙ ap (λ x. if is_nonempty c.ipset.lists then map header c.ipset.lists else x)
        (map-if header (is_nonempty c.ipset.ipv4_name) (legacy_list c ∷ []) [])

is_nonempty-modify :
    (xs : List IpSetListConfig) (i : ℕ) (f : IpSetListConfig → IpSetListConfig)
    → is_nonempty (modify xs i f) ≡ is_nonempty xs
is_nonempty-modify [] i f = refl
is_nonempty-modify (x ∷ xs) zero f = refl
is_nonempty-modify (x ∷ xs) (suc i) f = refl

-- An edit of the rules of one list.
frame-at_list :
    (c : Config) (o : Option ℕ) (f : RulesConfig → RulesConfig) → frame (at_list c o f) ≡ frame c
frame-at_list c none f = refl
frame-at_list c (some i) f =
    ap (λ (hs : List Header). record (frame c) { lists = hs })
      (headers-get_ipset_lists (at_list c (some i) f)
        ∙ (rw
            (
              is_nonempty-modify c.ipset.lists i (λ l. record l { rules = f l.rules }),
              map-modify header (λ l. record l { rules = f l.rules }) (λ l. refl) c.ipset.lists i,
            )
            (sym (headers-get_ipset_lists c))))

frame-rules : (c : Config) (r : RulesConfig) → frame (record c { rules = r }) ≡ frame c
frame-rules c r =
    ap (λ (hs : List Header). record (frame c) { lists = hs })
      (headers-get_ipset_lists (record c { rules = r }) ∙ sym (headers-get_ipset_lists c))

frame-if :
    (c : Config) (b : Bool) (r : RulesConfig)
    → frame (if b then record c { rules = r } else c) ≡ frame c
frame-if c true r = frame-rules c r
frame-if c false r = refl

frame-change_rules :
    (c : Config) (i : ℤ) (f : RulesConfig → RulesConfig) → frame (change_rules c i f) ≡ frame c
unfolding change_rules
frame-change_rules c i f = elim (Bool-cases (is_nonempty c.ipset.lists)) [
  | inl some_list ↦ rw some_list (frame-at_list c (in_range i c.ipset.lists) f)
  | inr no_list ↦ rw no_list (frame-if c (is_first i) (f c.rules))
]

frame-at_net_list :
    (c : Config) (o : Option ℕ) (f : NetListConfig → NetListConfig)
    → ((l : NetListConfig) → net_header (f l) ≡ net_header l)
    → frame (at_net_list c o f) ≡ frame c
unfolding get_ipset_lists
frame-at_net_list c none f k = refl
frame-at_net_list c (some i) f k =
    ap (λ (hs : List Header). record (frame c) { net_lists = hs })
      (map-modify net_header f k c.ipset.net_lists i)

frame-apply : (c : Config) (k : Call) → frame (apply c k) ≡ frame c
unfolding add_domain remove_domain add_suffix remove_suffix add_block_list_url remove_block_list_url
    add_cidr_to_net_list remove_cidr_from_net_list get_ipset_lists
frame-apply c (Call.add_domain d) = frame-rules c _
frame-apply c (Call.remove_domain d) = frame-rules c _
frame-apply c (Call.add_suffix s) = frame-rules c _
frame-apply c (Call.remove_suffix s) = frame-rules c _
frame-apply c (Call.add_block_list_url u) = refl
frame-apply c (Call.remove_block_list_url u) = refl
frame-apply c (Call.in_list i e) =
    ap frame (edit_list-change_rules c i e) ∙ frame-change_rules c i (edit_rules e)
frame-apply c (Call.add_cidr i s) =
    frame-at_net_list c (in_range i c.ipset.net_lists)
      (λ l. record l { cidrs = append_new_cidr s l.cidrs }) (λ l. refl)
frame-apply c (Call.remove_cidr i s) =
    frame-at_net_list c (in_range i c.ipset.net_lists)
      (λ l. record l { cidrs = some (without s (items l.cidrs)) }) (λ l. refl)

-- No sequence of calls of the mutators changes the static parts of the configuration, its path, or a
-- list's name, its flag for IPv6 or its time-out, and none adds, drops or reorders a list.
pub frame-apply_all : (c : Config) (ks : List Call) → frame (apply_all c ks) ≡ frame c
unfolding apply_all
frame-apply_all c [] = refl
frame-apply_all c (k ∷ ks) = frame-apply_all (apply c k) ks ∙ frame-apply c k
