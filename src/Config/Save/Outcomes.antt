-- ===== src/Config/Save/Outcomes.antt =====
-- What a save leaves behind, for each result that it can have.
use dns_box.Prelude.{
  inl, inr, Option-cases, Bool, true, false, Text, List, [], ◌∷◌, Option, none, some, ◌≡◌, ◌≢◌,
  refl, sym, arith, text_eq, if◌then◌else◌,
}
use dns_box.Prelude.Strings.Laws.{ne→text_eq, text_eq_refl}
use dns_box.Github
use dns_box.Github.{Api, Location, Write, save_file, new_client}
use dns_box.Github.Laws.{Carries, FitsRead, save_file_sound}
use dns_box.Config.{Config, HostsConfig, IpSetListConfig, is_nonempty, get_token}
use dns_box.Config.Disk.{Disk}
use dns_box.Config.Save.{
  Codec, Faults, World, SaveError, Result, ok, err, tmp_path, final_config, write_file, save_config,
  backup, hosts_config, backup_location, as_result, upload, static_parts,
}
use dns_box.Config.Load.{load_config, parsed}
use dns_box.Config.Save.Atomic.{tmp_path-ne, tmp_path-eq_false, start, Always, saved_config}

-- The results of a save that has replaced the file: success, and the failures of the copy to GitHub.
abbrev pub has_written : Result (Unit {0}) → Bool
has_written (ok _) = true
has_written (err SaveError.marshal_failed) = true
has_written (err SaveError.upload_failed) = true
has_written (err SaveError.upload_panicked) = true
has_written (err _) = false

tmp_path-eq_false' : (c : Config) → text_eq c.path (tmp_path c) ≡ false
tmp_path-eq_false' c = ne→text_eq _ _ (λ e. tmp_path-ne c (sym e))

module _ {Bytes : Type 0} where
  sent_of_ok :
      (o : Github.Outcome (Write Bytes))
      → as_result o ≡ ok tt
      → (sent : Write Bytes) × (o ≡ Github.ok sent)
  sent_of_ok (Github.Outcome.ok sent) h = (sent, refl)
  sent_of_ok Github.Outcome.failed h = cc
  sent_of_ok Github.Outcome.panicked h = cc

  upload-eq-ok :
      (api : Api Bytes) (l : Location) (o : Option Bytes)
      → upload api l o ≡ ok tt
      → (content : Bytes) × (sent : Write Bytes) × (o ≡ some content)
        × (save_file api l content ≡ Github.ok sent)
  upload-eq-ok api l none h = cc
  upload-eq-ok api l (some content) h =
      let (sent, e) = sent_of_ok (save_file api l content) h in (content, sent, refl, e)

module _ {Bytes : Type 0} (json : Codec Bytes) (f : Faults Bytes) (api : Api Bytes) (c : Config)
    (env : Text) (d : Disk Bytes) where
  abbrev result : Result (Unit {0})
  result = (save_config json f api c env (start d)).0

  abbrev disk_after : Disk Bytes
  disk_after = (save_config json f api c env (start d)).1.disk

  -- The file holds the new document exactly when the result is success or a failure of the copy to
  -- GitHub; with any other result it is the old file.
  pub save_config-disk :
      disk_after c.path
      ≡ (if has_written result then some (json.encode (final_config json c d)) else d c.path)
  unfolding save_config write_file backup
  save_config-disk = ground (
    arith,
    tmp_path-eq_false c,
    tmp_path-eq_false' c,
    text_eq_refl c.path,
    text_eq_refl (tmp_path c),
  )

  -- Where no temporary file was there before and it can be removed, none is left, whatever the result.
  save_config-tmp_path :
      f.remove_fails ≡ false → d (tmp_path c) ≡ none → disk_after (tmp_path c) ≡ none
  unfolding save_config write_file backup
  save_config-tmp_path h k = ground (
    arith,
    tmp_path-eq_false c,
    tmp_path-eq_false' c,
    text_eq_refl c.path,
    text_eq_refl (tmp_path c),
  )

  -- No other file is touched, in any state on the way.
  save_config-others :
      (q : Text)
      → q ≢ c.path
      → q ≢ tmp_path c
      → Always (λ d'. d' q ≡ d q) (save_config json f api c env (start d)).1
  unfolding save_config write_file backup
  save_config-others q p r =
      ground
        (arith, ne→text_eq c.path q (λ e. p (sym e)), ne→text_eq (tmp_path c) q (λ e. r (sym e)))

  -- The server, DNS and GitHub parts of the second configuration are those of the first.
  abbrev pub HasStaticParts : Config → Config → Type 0
  HasStaticParts a b = (b.server ≡ a.server) × (b.dns ≡ a.dns) × (b.github_backup ≡ a.github_backup)

  -- What the file holds that was there, by what it loads to.
  abbrev pub HasPartsOf : Config → Option Config → Type 0
  HasPartsOf x none = HasStaticParts c x
  HasPartsOf x (some old) = HasStaticParts old x

  saved_config-HasPartsOf :
      (o : Option Bytes)
      → d c.path ≡ o
      → HasPartsOf (saved_config json f api c env d) (parsed json c.path o)
  unfolding static_parts
  saved_config-HasPartsOf none e = rw e (refl, refl, refl)
  saved_config-HasPartsOf (some content) e = elim (Option-cases (json.decode content)) [
    | inl n ↦ rw (e, n) (refl, refl, refl)
    | inr (s, m) ↦ rw (e, m) (refl, refl, refl)
  ]

  -- After a successful save the file loads, and gives the configuration in memory with the server, DNS
  -- and GitHub parts of the file that was there, or those in memory where that file did not load. The
  -- document is one that decodes to itself.
  pub load_config-save_config :
      json.decode (json.encode (final_config json c d)) ≡ some (final_config json c d)
      → result ≡ ok tt
      → (load_config json disk_after c.path ≡ some (saved_config json f api c env d))
        × HasPartsOf (saved_config json f api c env d) (load_config json d c.path)
  unfolding load_config final_config
  load_config-save_config round done =
      (ground (arith, save_config-disk, round), saved_config-HasPartsOf (d c.path) refl)

  -- The rules, as the document for GitHub holds them.
  abbrev pub HoldsRules : HostsConfig → Type 0
  HoldsRules h =
      (h.ipset_lists ≡ c.ipset.lists)
      × (c.ipset.lists ≢ [] → (h.domains ≡ []) × (h.domain_suffix ≡ []))
      × (c.ipset.lists ≡ []
          → (h.domains ≡ c.rules.domains) × (h.domain_suffix ≡ c.rules.domain_suffix))

  hosts_config-HoldsRules : HoldsRules (hosts_config c)
  unfolding hosts_config
  hosts_config-HoldsRules =
      elim c.ipset.lists
          as (λ (lists : List IpSetListConfig).
            (lists ≡ c.ipset.lists) → HoldsRules (hosts_config c)) [
              | [] ↦ λ e. rw (sym e) (refl, (λ full. absurd (full refl)), λ none. (refl, refl))
              | ◌∷◌ l lists ↦ λ e. rw (sym e) (refl, (λ full. (refl, refl)), λ none. cc)
            ]
        refl

  -- The place that the configuration names, and who writes there.
  abbrev pub IsBackupPlace : Location → Type 0
  IsBackupPlace l =
      (l.owner ≡ c.github_backup.owner)
      × (l.repo ≡ c.github_backup.repo)
      × (l.path ≡ c.github_backup.path)
      × (l.branch ≡ c.github_backup.branch)
      × (env ≢ [] → l.client ≡ new_client env)
      × (env ≡ [] → l.client ≡ new_client c.github_backup.token)

  backup_location-IsBackupPlace : IsBackupPlace (backup_location c env)
  unfolding backup_location get_token
  backup_location-IsBackupPlace = (refl, refl, refl, refl, with_env env, λ e. rw e refl)
    where
      with_env :
          (t : Text)
          → t ≢ []
          → new_client (if is_nonempty t then t else c.github_backup.token) ≡ new_client t
      with_env [] full = absurd (full refl)
      with_env (x ∷ t) full = refl

  backup-sent :
      (w : World Bytes)
      → (backup json api c env w).0 ≡ ok tt
      → c.github_backup.enabled ≡ true
      → (content : Bytes) × (sent : Write Bytes) × (json.encode_hosts (hosts_config c)
          ≡ some content)
        × (save_file api (backup_location c env) content ≡ Github.ok sent)
  unfolding backup
  backup-sent w done on = upload-eq-ok api (backup_location c env) _ (simp on at done)

  backup-reached : result ≡ ok tt → (w : World Bytes) × ((backup json api c env w).0 ≡ ok tt)
  unfolding save_config
  backup-reached done =
      ((write_file json f c (json.encode (final_config json c d)) (start d)).1, ground arith)

  -- A successful save with the backup enabled has made one write on GitHub, which the API accepted. It
  -- carries the encoded rules: all lists of ipsets, and no shared rules beside them; where there is no
  -- list, the shared domains and suffixes. It goes to the owner, the repository, the path and the branch
  -- that the configuration names, by a client with the token of the environment, or that of the
  -- configuration if the environment has none; and it fits what was read there before.
  pub save_config-backup :
      result ≡ ok tt
      → c.github_backup.enabled ≡ true
      → (h : HostsConfig) × (content : Bytes) × (w : Write Bytes) × (l : Location) × HoldsRules h
        × (json.encode_hosts h ≡ some content)
        × IsBackupPlace l
        × (api.accepts w ≡ true)
        × Carries w l content
        × FitsRead w (api.get_contents l)
  save_config-backup done on =
      let (before, sent) = backup-reached done in
      let (content, w, encoded, saved) = backup-sent before sent on in
      let (accepted, carried, fits) = save_file_sound api (backup_location c env) content w saved in
      (
        hosts_config c,
        content,
        w,
        backup_location c env,
        hosts_config-HoldsRules,
        encoded,
        backup_location-IsBackupPlace,
        accepted,
        carried,
        fits,
      )
