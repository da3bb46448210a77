-- ===== src/Startup/Begin/Ready.antt =====
-- What holds where `run` waits: its sets, its configuration and its blocklist.
use dns_box.Prelude.{
  Bool, true, false, Text, Option, none, some, List, [], ◌∷◌, ◌≡◌, refl, inl, inr, Bool-cases,
  Option-cases, subst,
}
use dns_box.Cache.FastCache.{FastCache}
use dns_box.Config.{Config}
use dns_box.Config.Mutators.Frame.{frame}
use dns_box.Config.Save.{Codec, World}
use dns_box.Config.Load.{load_config}
use dns_box.Ipset.{Command}
use dns_box.Blocklist.{BlockList, new_block_list}
use dns_box.Startup.{domain_cache, list_domain_caches}
use dns_box.Startup.Sets.{set_up}
use dns_box.Startup.Sets.Ready.{IsReady}
use dns_box.Startup.Sets.Steps.{set_up-IsReady}
use dns_box.Blocklist.Service.{IsLoadedBy}
use dns_box.Startup.Durations.{is_positive, refresh_period}
use dns_box.Api.{Server}
use dns_box.Startup.Begin.{
  Begun, begun, first_address, with_block_list, with_sets, block_list_of, new_handlers, begin,
}

module _ (f : FastCache) (Bytes : Type 0) where
  -- What holds of the state if `run` waits in one.
  abbrev pub Waits : (Server f Bytes → Type 0) → Begun f Bytes → Type 0
  Waits P (begun s) = P s
  Waits P _ = Unit

  Waits-first_address :
      (P : Server f Bytes → Type 0) (addresses : List Text) (s : Server f Bytes)
      → P s
      → Waits P (first_address f Bytes addresses s)
  Waits-first_address P [] s h = tt
  Waits-first_address P (address ∷ addresses) s h = h

  -- What holds of every state that is made of the configuration and of what the set-up sent.
  abbrev OfAll : (Server f Bytes → Type 0) → Config → World Bytes → List Command → Type 0
  OfAll P cfg world sent =
      (b : Option (BlockList f))
      → block_list_of f Bytes cfg ≡ some b
      → P (new_handlers f Bytes cfg (domain_cache f cfg) (list_domain_caches f cfg) b world sent)

  Waits-with_block_list :
      (P : Server f Bytes → Type 0) (cfg : Config) (world : World Bytes) (sent : List Command)
      (o : Option (Option (BlockList f)))
      → block_list_of f Bytes cfg ≡ o
      → OfAll P cfg world sent
      → Waits P (with_block_list f Bytes cfg world sent o)
  Waits-with_block_list P cfg world sent none e h = tt
  Waits-with_block_list P cfg world sent (some b) e h =
      Waits-first_address P cfg.server.address _ (h b e)

  Waits-with_sets :
      (P : Server f Bytes → Type 0) (cfg : Config) (world : World Bytes) (r : Bool × List Command)
      → (r.0 ≡ true → OfAll P cfg world r.1)
      → Waits P (with_sets f Bytes cfg world r)
  Waits-with_sets P cfg world (false, sent) h = tt
  Waits-with_sets P cfg world (true, sent) h =
      Waits-with_block_list P cfg world sent (block_list_of f Bytes cfg) refl (h refl)

  abbrev IsNewUnlessPanic : Option (Option (BlockList f)) → Type 0
  IsNewUnlessPanic none = Unit
  IsNewUnlessPanic (some b) = IsLoadedBy f none b

  -- A blocklist is new.
  block_list_of-IsLoadedBy :
      (cfg : Config) (b : Option (BlockList f))
      → block_list_of f Bytes cfg ≡ some b
      → IsLoadedBy f none b
  unfolding block_list_of new_block_list
  block_list_of-IsLoadedBy cfg b e =
      subst IsNewUnlessPanic e (elim (Bool-cases cfg.block_list.enabled) [
        | inr off ↦ rw off tt
        | inl on ↦ elim (Bool-cases (is_positive (refresh_period cfg.block_list.refresh_hours))) [
          | inl runs ↦ rw (on, runs) refl
          | inr panics ↦ rw (on, panics) tt
        ]
      ])

  module _ (json : Codec Bytes) (init_fails : Bool) (fails : Command → Bool)
      (parse_cidr : Text → Option Bool) (path : Text) (world : World Bytes) where
    -- If `run` waits, it has loaded a configuration and set it up.
    Waits-begin :
        (P : Server f Bytes → Type 0)
        → ((cfg : Config)
            → load_config json world.disk path ≡ some cfg
            → (set_up fails parse_cidr cfg []).0 ≡ true
            → OfAll P cfg world (set_up fails parse_cidr cfg []).1)
        → Waits P (begin f Bytes json init_fails fails parse_cidr path world)
    unfolding begin
    Waits-begin P h = elim (Option-cases (load_config json world.disk path)) [
      | inl e ↦ rw e tt
      | inr (cfg, e) ↦ elim (Bool-cases init_fails) [
        | inl broken ↦ rw (e, broken) tt
        | inr works ↦
            rw (e, works) (Waits-with_sets P cfg world (set_up fails parse_cidr cfg []) (h cfg e))
      ]
    ]

    -- Then all sets of the configuration have been created.
    pub begin-IsReady :
        (s : Server f Bytes)
        → begin f Bytes json init_fails fails parse_cidr path world ≡ begun s
        → IsReady (frame s.config) s.sent
    unfolding new_handlers
    begin-IsReady s e = subst (Waits (λ s. IsReady (frame s.config) s.sent)) e (
        Waits-begin (λ s. IsReady (frame s.config) s.sent)
          (λ cfg loaded fine b made. set_up-IsReady fails parse_cidr cfg fine))

    -- And the configuration is the one in the file, on the disk as it was.
    pub begin-loads :
        (s : Server f Bytes)
        → begin f Bytes json init_fails fails parse_cidr path world ≡ begun s
        → (load_config json world.disk path ≡ some s.config) × (s.world ≡ world)
    unfolding new_handlers
    begin-loads s e =
        subst (Waits (λ s. (load_config json world.disk path ≡ some s.config) × (s.world ≡ world)))
          e
          (Waits-begin (λ s. (load_config json world.disk path ≡ some s.config) × (s.world ≡ world))
            (λ cfg loaded fine b made. (loaded, refl)))

    -- And the blocklist, if there is one, has only been created.
    pub begin-IsLoadedBy :
        (s : Server f Bytes)
        → begin f Bytes json init_fails fails parse_cidr path world ≡ begun s
        → IsLoadedBy f none s.block_list
    unfolding new_handlers
    begin-IsLoadedBy s e = subst (Waits (λ s. IsLoadedBy f none s.block_list)) e (
        Waits-begin (λ s. IsLoadedBy f none s.block_list)
          (λ cfg loaded fine b made. block_list_of-IsLoadedBy cfg b made))
