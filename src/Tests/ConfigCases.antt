-- ===== src/Tests/ConfigCases.antt =====
-- The configuration and the client of GitHub.
use dns_box.Prelude.{
  true, Text, codes, none, some, List, [], ◌∷◌, ◌≡◌, ◌≢◌, refl, inl, inr, pos, if◌then◌else◌, In,
  All, text_eq,
}
use dns_box.Config.{HostsConfig}
use dns_box.Github.{Location, Write, update_file, Outcome, save_file}
use dns_box.Prelude.Strings.Laws.{text_eq→ne}
use dns_box.Github
use dns_box.Github.Laws.{save_file_sound, Carries, FitsRead}
use dns_box.Config.Lists.Laws.{ListEdit}
use dns_box.Config.Mutators.{Call, apply_all}
use dns_box.Config.Mutators.Distinct.{HasDistinctEntries}
use dns_box.Config.Mutators.Sets.{config_sets, perform_all}
use dns_box.Config.Mutators.Sets.Refines.{config_sets-apply_all}
use dns_box.Config.Disk.{Disk}
use dns_box.Config.Save.{World, Result, ok, tmp_path, final_config, save_config, backup_location}
use dns_box.Config.Load.{load_config}
use dns_box.Config.Save.Atomic.{RecoversAfterCrash, start, saved_config, save_config-Recovers}
use dns_box.Config.Save.Outcomes.{
  has_written, save_config-disk, load_config-save_config, save_config-backup, HoldsRules,
  HasPartsOf, IsBackupPlace,
}
use dns_box.Tests.Values.{Document, document, config, json, no_faults, rename_fault, repository}

abbrev disk : Disk Document
disk path =
    if text_eq path (codes "config.json")
    then some (document (final_config json config (λ _. none)))
    else none

abbrev saved : Result (Unit {0}) × World Document
saved = save_config json no_faults repository config [] (start disk)

abbrev not_saved : Result (Unit {0}) × World Document
not_saved = save_config json rename_fault repository config [] (start disk)

saved_ok : saved.0 ≡ ok tt
unfolding save_config save_file
saved_ok = refl

save_config-Recovers_example :
    All (RecoversAfterCrash json rename_fault repository config [] disk) not_saved.1.history
save_config-Recovers_example = save_config-Recovers json rename_fault repository config [] disk refl

save_config-disk_example : not_saved.1.disk (codes "config.json") ≡ (
    if has_written not_saved.0
    then some (json.encode (final_config json config disk))
    else disk (codes "config.json"))
save_config-disk_example = save_config-disk json rename_fault repository config [] disk

no_tmp : disk (tmp_path config) ≡ none
unfolding tmp_path text_eq
no_tmp = refl

other_path : codes "hosts.txt" ≢ tmp_path config
unfolding tmp_path
other_path e = cc

load_config-save_config_example :
    (load_config json saved.1.disk (codes "config.json")
      ≡ some (saved_config json no_faults repository config [] disk))
    × HasPartsOf json no_faults repository config [] disk
        (saved_config json no_faults repository config [] disk)
        (load_config json disk (codes "config.json"))
load_config-save_config_example =
    load_config-save_config json no_faults repository config [] disk refl saved_ok

save_config-backup_example :
    (h : HostsConfig) × (content : Document) × (w : Write Document) × (l : Location) × HoldsRules
      json no_faults repository config [] disk h
    × (json.encode_hosts h ≡ some content)
    × IsBackupPlace json no_faults repository config [] disk l
    × (repository.accepts w ≡ true)
    × Carries w l content
    × FitsRead w (repository.get_contents l)
save_config-backup_example =
    save_config-backup json no_faults repository config [] disk saved_ok refl

abbrev sent : Write Document
sent = update_file (backup_location config []) Document.torn (codes "5ha")

sent_ok : save_file repository (backup_location config []) Document.torn ≡ Github.Outcome.ok sent
unfolding save_file
sent_ok = refl

save_file_sound_example :
    (repository.accepts sent ≡ true)
    × Carries sent (backup_location config []) Document.torn
    × FitsRead sent (repository.get_contents (backup_location config []))
save_file_sound_example =
    save_file_sound repository (backup_location config []) Document.torn sent sent_ok

distinct : HasDistinctEntries config
distinct = record {
  shared = record { domains = (λ h. h, tt); suffixes = tt };
  urls = (λ h. h, tt);
  lists = (record { domains = (λ h. h, tt); suffixes = (λ h. h, tt) }, tt);
  cidrs = ((λ h. h, tt), tt);
}

abbrev calls : List Call
calls =
    Call.add_domain (codes "shared.example")
    ∷ Call.in_list (pos 0) (ListEdit.add_suffix (codes "cdn.example"))
    ∷ Call.add_cidr (pos 0) (codes "10.0.0.0/8")
    ∷ []

abbrev names : List Text
names = codes "a.example" ∷ codes "b.example" ∷ []

not_there : ¬ In (codes "c.example") names
unfolding text_eq
not_there (inl e) = text_eq→ne (codes "c.example") (codes "a.example") refl e
not_there (inr (inl e)) = text_eq→ne (codes "c.example") (codes "b.example") refl e
not_there (inr (inr n)) = n

config_sets-apply_all_example :
    config_sets (apply_all config calls) ≡ perform_all (config_sets config) calls
config_sets-apply_all_example = config_sets-apply_all config calls
