-- ===== src/Api/Shared/Keys.antt =====
-- Which keys the rules have in a domain cache after an addition.
use dns_box.Prelude.{
  true, false, has_prefix, ap, ◌∙◌, ◌≢◌, Text, map, List, [], ◌∷◌, ◌++◌, ◌≡◌, refl, sym, ◌⊎◌, ◌↔◌,
  inl, inr, In, Any-append_left, Any-append_right, Any-append_cases, Bool-cases, subst,
}
use dns_box.Cache.DomainCache.{dot, dotted}
use dns_box.Config.{RulesConfig}
use dns_box.Config.Rules.{rules_add_domain, rules_add_suffix, rules_remove_domain}
use dns_box.Config.Rules.Sets.{
  append_new, is_listed, is_listed_iff, In-append_new, without, In-without,
}
use dns_box.Startup.Routing.{rule_keys}

In-map-dotted : (s : Text) (ss : List Text) → In s ss → In (dotted s) (map dotted ss)
In-map-dotted s [] h = absurd h
In-map-dotted s (t ∷ ss) (inl e) = inl cc
In-map-dotted s (t ∷ ss) (inr h) = inr (In-map-dotted s ss h)

map-dotted-append :
    (ss : List Text) (s : Text) → map dotted (ss ++ s ∷ []) ≡ map dotted ss ++ dotted s ∷ []
map-dotted-append [] s = refl
map-dotted-append (t ∷ ss) s = cc (map-dotted-append ss s)

-- The keys that a new domain adds.
pub In-rules_add_domain :
    (d k : Text) (r : RulesConfig)
    → In k (rule_keys (rules_add_domain d r)) ↔ ((d ≡ k) ⊎ In k (rule_keys r))
In-rules_add_domain d k r = (to, from)
  where
    to : In k (rule_keys (rules_add_domain d r)) → (d ≡ k) ⊎ In k (rule_keys r)
    to h =
        elim (Any-append_cases (λ x. k ≡ x) (append_new d r.domains) (map dotted r.domain_suffix)
          h) [
            | inl m ↦ elim ((In-append_new d k r.domains).0 m) [
              | inl e ↦ inl (sym e)
              | inr n ↦ inr (Any-append_left (λ x. k ≡ x) r.domains (map dotted r.domain_suffix) n)
            ]
            | inr m ↦ inr (Any-append_right (λ x. k ≡ x) r.domains (map dotted r.domain_suffix) m)
          ]

    from : (d ≡ k) ⊎ In k (rule_keys r) → In k (rule_keys (rules_add_domain d r))
    from (inl e) =
        Any-append_left (λ x. k ≡ x) (append_new d r.domains) (map dotted r.domain_suffix)
          ((In-append_new d k r.domains).1 (inl (sym e)))
    from (inr h) = elim (Any-append_cases (λ x. k ≡ x) r.domains (map dotted r.domain_suffix) h) [
      | inl m ↦
          Any-append_left (λ x. k ≡ x) (append_new d r.domains) (map dotted r.domain_suffix)
            ((In-append_new d k r.domains).1 (inr m))
      | inr m ↦
          Any-append_right (λ x. k ≡ x) (append_new d r.domains) (map dotted r.domain_suffix) m
    ]

-- The key that a new suffix adds is its dotted form.
In-map-append_new :
    (s k : Text) (ss : List Text)
    → In k (map dotted (append_new s ss)) ↔ ((dotted s ≡ k) ⊎ In k (map dotted ss))
unfolding append_new
In-map-append_new s k ss = elim (Bool-cases (is_listed s ss)) [
  | inl old ↦ rw old (
    inr,
    λ h. elim h [
      | inl e ↦
          subst (λ x. In x (map dotted ss)) e (In-map-dotted s ss ((is_listed_iff s ss).0 old))
      | inr m ↦ m
    ],
  )
  | inr new ↦
      rw (new, map-dotted-append ss s)
        (
          (λ h. elim (Any-append_cases (λ x. k ≡ x) (map dotted ss) (dotted s ∷ []) h) [
            | inl m ↦ inr m
            | inr m ↦ elim m [ inl e ↦ inl (sym e) | inr n ↦ absurd n ]
          ]),
          λ h. elim h [
            | inl e ↦ Any-append_right (λ x. k ≡ x) (map dotted ss) (dotted s ∷ []) (inl (sym e))
            | inr m ↦ Any-append_left (λ x. k ≡ x) (map dotted ss) (dotted s ∷ []) m
          ],
        )
]

pub In-rules_add_suffix :
    (s k : Text) (r : RulesConfig)
    → In k (rule_keys (rules_add_suffix s r)) ↔ ((dotted s ≡ k) ⊎ In k (rule_keys r))
In-rules_add_suffix s k r = (to, from)
  where
    to : In k (rule_keys (rules_add_suffix s r)) → (dotted s ≡ k) ⊎ In k (rule_keys r)
    to h =
        elim (Any-append_cases (λ x. k ≡ x) r.domains (map dotted (append_new s r.domain_suffix))
          h) [
            | inl m ↦ inr (Any-append_left (λ x. k ≡ x) r.domains (map dotted r.domain_suffix) m)
            | inr m ↦ elim ((In-map-append_new s k r.domain_suffix).0 m) [
              | inl e ↦ inl e
              | inr n ↦ inr (Any-append_right (λ x. k ≡ x) r.domains (map dotted r.domain_suffix) n)
            ]
          ]

    from : (dotted s ≡ k) ⊎ In k (rule_keys r) → In k (rule_keys (rules_add_suffix s r))
    from (inl e) =
        Any-append_right (λ x. k ≡ x) r.domains (map dotted (append_new s r.domain_suffix))
          ((In-map-append_new s k r.domain_suffix).1 (inl e))
    from (inr h) = elim (Any-append_cases (λ x. k ≡ x) r.domains (map dotted r.domain_suffix) h) [
      | inl m ↦ Any-append_left (λ x. k ≡ x) r.domains (map dotted (append_new s r.domain_suffix)) m
      | inr m ↦
          Any-append_right (λ x. k ≡ x) r.domains (map dotted (append_new s r.domain_suffix))
            ((In-map-append_new s k r.domain_suffix).1 (inr m))
    ]

-- A text that has no leading dot: no suffix has it as its key.
abbrev pub IsPlain : Text → Type 0
IsPlain t = has_prefix t (dot ∷ []) ≡ false

dotted-has_prefix : (s : Text) → has_prefix (dotted s) (dot ∷ []) ≡ true
unfolding dotted has_prefix
dotted-has_prefix s = elim (Bool-cases (has_prefix s (dot ∷ []))) [
  | inl there ↦ rw there there
  | inr new ↦ rw new refl
]

plain-map-dotted : (d : Text) (ss : List Text) → IsPlain d → ¬ In d (map dotted ss)
plain-map-dotted d [] plain m = elim m [ ]
plain-map-dotted d (s ∷ ss) plain (inl e) =
    let starts : has_prefix d (dot ∷ []) ≡ true =
      ap (λ t. has_prefix t (dot ∷ [])) e ∙ dotted-has_prefix s in
    absurd cc
plain-map-dotted d (s ∷ ss) plain (inr m) = plain-map-dotted d ss plain m

-- Removing a domain without a leading dot removes its key, and no other.
pub In-rules_remove_domain :
    (d k : Text) (r : RulesConfig)
    → IsPlain d
    → In k (rule_keys (rules_remove_domain d r)) ↔ ((k ≢ d) × In k (rule_keys r))
In-rules_remove_domain d k r plain = (to, from)
  where
    to : In k (rule_keys (rules_remove_domain d r)) → (k ≢ d) × In k (rule_keys r)
    to h =
        elim (Any-append_cases (λ x. k ≡ x) (without d r.domains) (map dotted r.domain_suffix) h) [
          | inl m ↦
              let (other, old) = (In-without d k r.domains).0 m in
              (other, Any-append_left (λ x. k ≡ x) r.domains (map dotted r.domain_suffix) old)
          | inr m ↦ (
            λ e.
                plain-map-dotted d r.domain_suffix plain
                  (subst (λ x. In x (map dotted r.domain_suffix)) e m),
            Any-append_right (λ x. k ≡ x) r.domains (map dotted r.domain_suffix) m,
          )
        ]

    from : (k ≢ d) × In k (rule_keys r) → In k (rule_keys (rules_remove_domain d r))
    from (other, h) =
        elim (Any-append_cases (λ x. k ≡ x) r.domains (map dotted r.domain_suffix) h) [
          | inl m ↦
              Any-append_left (λ x. k ≡ x) (without d r.domains) (map dotted r.domain_suffix)
                ((In-without d k r.domains).1 (other, m))
          | inr m ↦
              Any-append_right (λ x. k ≡ x) (without d r.domains) (map dotted r.domain_suffix) m
        ]
